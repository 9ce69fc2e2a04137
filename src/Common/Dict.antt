-- ===== src/Common/Dict.antt =====
-- Go maps keyed by strings: association lists, in the order of insertion.
use mathlib.Core.Path.{◌≡◌, refl, sym}
use mathlib.Core.Logic.{◌≢◌, inl, inr}
use mathlib.Core.Option.{Option, none, some}
use mathlib.Core.List.{List, [], ◌∷◌, ◌++◌}
use native.Mathlib.Omega.{arith}
use myhomework.Common.Tests.{if◌then◌else◌, Bool-cases}
use myhomework.Common.Lists.{All}
use myhomework.Common.Texts.{Bytes, bytes_eq, bytes_eq_iff}

module _ {ℓ} {V : Type ℓ} where
  unfoldable pub lookup : Bytes → List (Bytes × V) → Option V
  lookup key [] = none
  lookup key ((other, old) ∷ entries) = if bytes_eq other key then some old else lookup key entries

  -- `m[key] = new`
  unfoldable pub insert : Bytes → V → List (Bytes × V) → List (Bytes × V)
  insert key new [] = (key, new) ∷ []
  insert key new ((other, old) ∷ entries) =
      if bytes_eq other key then (key, new) ∷ entries else (other, old) ∷ insert key new entries

  -- `delete(m, key)`
  unfoldable pub erase : Bytes → List (Bytes × V) → List (Bytes × V)
  erase key [] = []
  erase key ((other, old) ∷ entries) =
      if bytes_eq other key then entries else (other, old) ∷ erase key entries

  pub lookup-insert :
      (key wanted : Bytes) (new : V) (entries : List (Bytes × V))
      → lookup wanted (insert key new entries)
        ≡ (if bytes_eq key wanted then some new else lookup wanted entries)
  unfolding lookup insert
  lookup-insert key wanted new [] = refl
  lookup-insert key wanted new ((other, old) ∷ entries) = ground (
    lookup-insert key wanted new entries,
    bytes_eq_iff other key,
    bytes_eq_iff other wanted,
    bytes_eq_iff key wanted,
    arith,
  )

  pub All-insert {κ} :
      (P : Bytes × V → Type κ) (key : Bytes) (new : V) (entries : List (Bytes × V))
      → P (key, new)
      → All P entries
      → All P (insert key new entries)
  unfolding insert
  All-insert P key new [] h hs = (h, tt)
  All-insert P key new ((other, old) ∷ entries) h (g, gs) = elim (Bool-cases (bytes_eq other key)) [
    | inl e ↦ rw e (h, gs)
    | inr e ↦ rw e (g, All-insert P key new entries h gs)
  ]

  -- What is found under a key was put there.
  pub All-lookup {κ} :
      (P : Bytes × V → Type κ) (key : Bytes) (v : V) (entries : List (Bytes × V))
      → All P entries
      → lookup key entries ≡ some v
      → P (key, v)
  unfolding lookup
  All-lookup P key v [] h e = absurd (ground arith)
  All-lookup P key v ((other, old) ∷ entries) (h, hs) e = elim (Bool-cases (bytes_eq other key)) [
    | inl d ↦
        let same : old ≡ v = ground arith in rw (sym ((bytes_eq_iff other key).0 d), sym same) h
    | inr d ↦ All-lookup P key v entries hs (rw d at e)
  ]

  -- The key is none of those of the map.
  abbrev pub IsFresh : Bytes → List (Bytes × V) → Type 0
  IsFresh k m = All (λ e. e.0 ≢ k) m

  abbrev pub HasDistinctKeys : List (Bytes × V) → Type 0
  HasDistinctKeys [] = Unit
  HasDistinctKeys ((k, v) ∷ m) = IsFresh k m × HasDistinctKeys m

  pub insert_fresh :
      (k : Bytes) (v : V) (m : List (Bytes × V)) → IsFresh k m → insert k v m ≡ m ++ (k, v) ∷ []
  unfolding insert
  insert_fresh k v [] h = refl
  insert_fresh k v ((j, w) ∷ m) h = ground (arith, bytes_eq_iff j k, insert_fresh k v m)

  pub IsFresh-append :
      (k : Bytes) (m : List (Bytes × V)) (j : Bytes) (v : V)
      → IsFresh k m
      → j ≢ k
      → IsFresh k (m ++ (j, v) ∷ [])
  IsFresh-append k [] j v h ne = (ne, tt)
  IsFresh-append k (e ∷ m) j v (h, hs) ne = (h, IsFresh-append k m j v hs ne)

  IsFresh-insert :
      (k key : Bytes) (new : V) (m : List (Bytes × V))
      → key ≢ k
      → IsFresh k m
      → IsFresh k (insert key new m)
  unfolding insert
  IsFresh-insert k key new [] ne h = (ne, tt)
  IsFresh-insert k key new ((j, w) ∷ m) ne (h, hs) =
      ground (arith, IsFresh-insert k key new m ne hs)

  pub HasDistinctKeys-insert :
      (key : Bytes) (new : V) (m : List (Bytes × V))
      → HasDistinctKeys m
      → HasDistinctKeys (insert key new m)
  unfolding insert
  HasDistinctKeys-insert key new [] h = (tt, tt)
  HasDistinctKeys-insert key new ((j, w) ∷ m) (h, hs) = elim (Bool-cases (bytes_eq j key)) [
    | inl e ↦ rw e (rw ((bytes_eq_iff j key).0 e) at h, hs)
    | inr e ↦ rw e (
      IsFresh-insert j key new m (λ q. cc (e, (bytes_eq_iff j key).1 (sym q))) h,
      HasDistinctKeys-insert key new m hs,
    )
  ]

  IsFresh-erase : (k key : Bytes) (m : List (Bytes × V)) → IsFresh k m → IsFresh k (erase key m)
  unfolding erase
  IsFresh-erase k key [] h = tt
  IsFresh-erase k key ((j, w) ∷ m) (h, hs) = ground (arith, IsFresh-erase k key m hs)

  pub HasDistinctKeys-erase :
      (key : Bytes) (m : List (Bytes × V)) → HasDistinctKeys m → HasDistinctKeys (erase key m)
  unfolding erase
  HasDistinctKeys-erase key [] h = tt
  HasDistinctKeys-erase key ((j, w) ∷ m) (h, hs) =
      ground (arith, HasDistinctKeys-erase key m hs, IsFresh-erase j key m h)

  lookup_fresh : (k : Bytes) (m : List (Bytes × V)) → IsFresh k m → lookup k m ≡ none
  unfolding lookup
  lookup_fresh k [] h = refl
  lookup_fresh k ((j, w) ∷ m) (h, hs) = ground (arith, bytes_eq_iff j k, lookup_fresh k m hs)

  pub lookup-erase :
      (key wanted : Bytes) (m : List (Bytes × V))
      → HasDistinctKeys m
      → lookup wanted (erase key m) ≡ (if bytes_eq key wanted then none else lookup wanted m)
  unfolding lookup erase
  lookup-erase key wanted [] h = ground arith
  lookup-erase key wanted ((j, w) ∷ m) (h, hs) = ground (
    arith,
    bytes_eq_iff j key,
    bytes_eq_iff key wanted,
    bytes_eq_iff j wanted,
    lookup-erase key wanted m hs,
    λ (p : IsFresh wanted m). lookup_fresh wanted m p,
  )
