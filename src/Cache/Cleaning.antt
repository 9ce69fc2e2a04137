-- ===== src/Cache/Cleaning.antt =====
-- The loops by which `Set` of the memory-limited cache makes room.
use myhomework.Common.{
  ℕ, zero, suc, ◌+◌, ◌≤◌, ◌<◌, Bytes, bytes_eq, bytes_eq_iff, ◌≡◌, refl, sym, ap, ◌∙◌, List, [],
  ◌∷◌, ◌++◌, some, ok, true, false, Bool-cases, inl, inr, if◌then◌else◌, length, get_elem?, arith,
  ◌⊎◌, append_assoc, append-nil, subst, ◌-◌,
}
use mathlib.Core.List.{reverse, reverse-append}
use myhomework.Common.Dict.{lookup, erase}
use myhomework.Common.Int64
use myhomework.Cache.LinkedList.{LinkedList, IsLawful}
use myhomework.Cache.MapCache
use myhomework.Cache.MapCache.{MapCache, Item, deadline_before}
use myhomework.Cache.MaxMemory
use myhomework.Cache.MaxMemory.{Client, Clock}
use myhomework.Cache.Keys.{count, get_elem?-append}
use myhomework.Cache.Victims.{bytes_of, bytes_of-append, count-append, last_of}

-- No entry expires before the loop reads it.
abbrev pub AllLive : Clock → List (Bytes × Item) → Type 0
AllLive clock m =
    (i : ℕ) (key : Bytes) (itm : Item)
    → lookup key m ≡ some itm
    → deadline_before (clock.at_index i) itm ≡ false

-- The map without the keys.
unfoldable pub erase_all : List Bytes → List (Bytes × Item) → List (Bytes × Item)
erase_all [] m = m
erase_all (key ∷ keys) m = erase_all keys (erase key m)

-- Of keys that are deleted one behind the other from a cache of `used` bytes, each but the last
-- leaves at most `need` bytes.
abbrev pub AllNeeded : List (Bytes × Item) → ℕ → ℕ → List Bytes → Type 0
AllNeeded m need used [] = Unit
AllNeeded m need used (key ∷ []) = Unit
AllNeeded m need used (key ∷ next ∷ keys) =
    (used ≤ need + bytes_of m (key ∷ []))
    × AllNeeded m need (used - bytes_of m (key ∷ [])) (next ∷ keys)

-- One more key in front, behind which too few bytes are left.
AllNeeded-cons :
    (m : List (Bytes × Item)) (need used : ℕ) (key : Bytes) (keys : List Bytes)
    → used ≤ need + bytes_of m (key ∷ [])
    → AllNeeded m need (used - bytes_of m (key ∷ [])) keys
    → AllNeeded m need used (key ∷ keys)
AllNeeded-cons m need used key [] h hs = tt
AllNeeded-cons m need used key (next ∷ keys) h hs = (h, hs)

one_key :
    (m : List (Bytes × Item)) (key : Bytes) (itm : Item)
    → lookup key m ≡ some itm
    → bytes_of m (key ∷ []) ≡ length itm.val
unfolding bytes_of
one_key m key itm found = rw found (omega arith)

module _ (lib : LinkedList) (laws : IsLawful lib) where
  open lib use {Keys, as_slice}

  -- The list where the loop stands, behind `keys`, with `key` the next one.
  standing :
      (l front : List Bytes) (key : Bytes) (whole keys : List Bytes)
      → l ≡ whole ++ reverse keys
      → whole ≡ front ++ key ∷ []
      → l ≡ front ++ key ∷ reverse keys
  standing l front key whole keys h split =
      h ∙ ap (λ w. w ++ reverse keys) split ∙ append_assoc front (key ∷ []) (reverse keys)

  listed_of :
      (front : List Bytes) (key : Bytes) (back l : List Bytes)
      → l ≡ front ++ key ∷ back
      → 0 < count key l
  unfolding count
  listed_of front key back l h =
      let same : bytes_eq key key ≡ true = (bytes_eq_iff key key).1 refl in
      ground (arith, ap (count key) h, count-append key front (key ∷ back), same)

  -- One round of the loop that collects keys, at a live entry.
  pub collect_round :
      (clock : Clock) (need used : ℕ) (keys : List Bytes) (m : MapCache) (s : Client lib)
      (front : List Bytes) (key : Bytes) (back : List Bytes) (itm : Item) (n free : ℕ)
      → length front ≡ n
      → as_slice s.list ≡ front ++ key ∷ back
      → lookup key m.entries ≡ some itm
      → deadline_before (clock.at_index n) itm ≡ false
      → Int64.add (bytes_of m.entries keys) (length itm.val) ≡ free
      → MaxMemory.collect lib (suc n) clock need used (bytes_of m.entries keys) keys (m, s) ≡ (
          if Int64.less need (Int64.sub used free)
          then ok ((m, s), ok (keys ++ key ∷ []))
          else MaxMemory.collect lib n clock need used free (keys ++ key ∷ []) (m, s))
  unfolding MaxMemory.collect MapCache.get
  collect_round clock need used keys m s front key back itm n free hn h found live sum =
      let at : lib.get s.list n ≡ some key =
        laws.get_lem s.list n
        ∙ ap (get_elem? (as_slice s.list)) (sym hn)
        ∙ ap (λ l. get_elem? l (length front)) h
        ∙ get_elem?-append front key back in
      rw (at, MaxMemory.collect, found, live, sum)

  -- The loop adds keys from the end of the list, and goes on while the bytes that would be left are at
  -- most those needed. It stops as soon as they are more, or else behind the first key of the list.
  pub collect_lem :
      (n : ℕ) (clock : Clock) (need used : ℕ) (keys : List Bytes) (m : MapCache) (s : Client lib)
      (whole : List Bytes)
      → length whole ≡ n
      → as_slice s.list ≡ whole ++ reverse keys
      → bytes_of m.entries whole + bytes_of m.entries keys ≤ used
      → used < Int64.bound
      → need < Int64.bound
      → ((key : Bytes)
          → 0 < count key (as_slice s.list)
          → (itm : Item) × (lookup key m.entries ≡ some itm))
      → AllLive clock m.entries
      → (more kept : List Bytes) × (MaxMemory.collect lib n clock need used
            (bytes_of m.entries keys)
            keys
            (m, s)
          ≡ ok ((m, s), ok (keys ++ more)))
        × (as_slice s.list ≡ kept ++ reverse (keys ++ more))
        × AllNeeded m.entries need (used - bytes_of m.entries keys) more
        × ((kept ≡ []) ⊎ (need + bytes_of m.entries (keys ++ more) < used))
  unfolding MaxMemory.collect
  collect_lem zero clock need used keys m s [] hn h room small hneed held live = (
    [],
    [],
    ap (λ g. ok ((m, s), ok g)) (sym (append-nil keys)),
    h ∙ ap reverse (sym (append-nil keys)),
    tt,
    inl refl,
  )
  collect_lem zero clock need used keys m s (k ∷ whole) hn h room small hneed held live =
      absurd (omega (arith, hn))
  collect_lem (suc n) clock need used keys m s whole hn h room small hneed held live =
      let (front, key, split, len) = last_of n whole hn in
      let back = standing (as_slice s.list) front key whole keys h split in
      let (itm, found) = held key (listed_of front key (reverse keys) (as_slice s.list) back) in
      let keys' = keys ++ key ∷ [] in
      let h' : as_slice s.list ≡ front ++ reverse keys' =
        back ∙ ap (λ l. front ++ l) (sym (reverse-append keys (key ∷ []))) in
      let free = bytes_of m.entries keys' in
      let one : bytes_of m.entries (key ∷ []) ≡ length itm.val = one_key m.entries key itm found in
      let freed = bytes_of-append m.entries keys (key ∷ []) in
      let parts = ap (bytes_of m.entries) split ∙ bytes_of-append m.entries front (key ∷ []) in
      let room' : bytes_of m.entries front + free ≤ used = omega (arith, parts, freed, room) in
      let sum : Int64.add (bytes_of m.entries keys) (length itm.val) ≡ free =
        Int64.add_lem (bytes_of m.entries keys) (length itm.val)
          (omega (arith, one, freed, room', small))
        ∙ omega (arith, one, freed) in
      let step =
        collect_round clock need used keys m s front key (reverse keys) itm n free len back found
          (live n key itm found) sum in
      let left = Int64.sub_lem used free (omega (arith, room')) small in
      let test = Int64.less_lem need (Int64.sub used free) hneed (omega (arith, left, small)) in
      elim (Bool-cases (Int64.less need (Int64.sub used free))) [
        | inl stop ↦
            (key ∷ [], front, rw (step, stop), h', tt, inr (ground (arith, test, stop, left)))
        | inr on ↦
            let (more, kept, e, q, needed, c) =
              collect_lem n clock need used keys' m s front len h' room' small hneed held live in
            let same : keys' ++ more ≡ keys ++ key ∷ more = append_assoc keys (key ∷ []) more in
            let next : used - bytes_of m.entries keys'
                ≡ used - bytes_of m.entries keys - bytes_of m.entries (key ∷ []) =
              omega (arith, freed) in
            let few : used - bytes_of m.entries keys ≤ need + bytes_of m.entries (key ∷ []) =
              ground (arith, test, on, left, freed) in
            (
              key ∷ more,
              kept,
              rw (step, on) (e ∙ ap (λ g. ok ((m, s), ok g)) same),
              q ∙ ap (λ g. kept ++ reverse g) same,
              AllNeeded-cons m.entries need (used - bytes_of m.entries keys) key more few
                  (subst (λ u. AllNeeded m.entries need u more) next needed),
              subst (λ g. (kept ≡ []) ⊎ (need + bytes_of m.entries g < used)) same c,
            )
      ]
