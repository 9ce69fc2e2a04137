-- ===== src/Cache/Setting.antt =====
-- `Set` of the memory-limited cache where the value fits without making room.
use myhomework.Common.{
  ℕ, ◌+◌, ◌-◌, ◌≤◌, ◌<◌, Bytes, bytes_eq, bytes_eq_iff, ◌≡◌, refl, sym, ap, ◌∙◌, [], ◌∷◌, Option,
  none, some, ok, Bool, true, false, Option-cases, inl, inr, ltb, if◌then◌else◌, length, arith, ◌⊎◌,
}
use myhomework.Common.Dict.{lookup, insert, HasDistinctKeys-insert, lookup-insert}
use myhomework.Common.Int64
use myhomework.Cache.LinkedList.{LinkedList, IsLawful}
use myhomework.Cache.MapCache
use myhomework.Cache.MapCache.{MapCache, Item, Error, key_not_found, Abort, deadline_before}
use myhomework.Cache.MaxMemory
use myhomework.Cache.MaxMemory.{Client, Clock}
use myhomework.Cache.Keys.{count, remove_first, count-remove_first, remove_first_absent}
use myhomework.Cache.Loops.{list_move_to_head_lem, add_head_lem}
use myhomework.Cache.Totals.{size, present, total, total-insert, size-le-total}
use myhomework.Cache.Accounting.{IsAccounted}

-- A key that `Set` may write: the cache lacks it, or holds it with a value that is neither expired
-- nor empty.
abbrev pub IsWritable : ℕ → Option Item → Type 0
IsWritable now none = Unit
IsWritable now (some itm) = (deadline_before now itm ≡ false) × (0 < length itm.val)

-- The item that `Set` stores at the time `now`.
abbrev pub new_item : ℕ → Bytes → ℕ → Item
new_item now val expiration = record {
  val = val;
  deadline = if Int64.less 0 expiration then some (now + expiration) else none;
}

module _ (lib : LinkedList) (laws : IsLawful lib) where
  open lib use {Keys, as_slice}

  -- The end of `Set`.
  pub store_lem :
      (clock : Clock) (is_exists : Bool) (key val : Bytes) (expiration : ℕ) (m : MapCache)
      (s : Client lib)
      → (is_exists ≡ true) ⊎ (count key (as_slice s.list) ≡ 0)
      → (l : Keys) × (MaxMemory.store lib clock is_exists key val expiration (m, s) ≡ (
        (
          record { entries = insert key (new_item clock.last val expiration) m.entries },
          record s { list = l },
        ),
        none,
      ))
        × (as_slice l ≡ key ∷ remove_first key (as_slice s.list))
  unfolding MaxMemory.store MapCache.set
  store_lem clock true key val expiration m s h =
      let (l, e, q) = list_move_to_head_lem lib laws key s.list in (l, rw e, q)
  store_lem clock false key val expiration m s (inl h) = cc
  store_lem clock false key val expiration m s (inr h) =
      let (l, e, q) = add_head_lem lib laws key s.list in
      (l, rw e, q ∙ ap (◌∷◌ key) (sym (remove_first_absent key (as_slice s.list) h)))

  -- The books behind a write that is counted.
  stored-IsAccounted :
      (key : Bytes) (itm : Item) (m : MapCache) (s : Client lib) (l : Keys) (used : ℕ)
      → IsAccounted lib (m, s)
      → used + size (lookup key m.entries) ≡ total m.entries + length itm.val
      → used < Int64.bound
      → as_slice l ≡ key ∷ remove_first key (as_slice s.list)
      → IsAccounted lib (
        record { entries = insert key itm m.entries },
        record { used = used; locked = false; list = l },
      )
  unfolding count
  stored-IsAccounted key itm m s l used a h small q = record {
    distinct = HasDistinctKeys-insert key itm m.entries a.distinct;
    listed = λ k.
        let swap : bytes_eq k key ≡ bytes_eq key k =
          ground (arith, bytes_eq_iff k key, bytes_eq_iff key k) in
        stored-listed k swap;
    used_lem = omega (arith, total-insert key itm m.entries);
    unlocked = refl;
    small = omega (arith, total-insert key itm m.entries);
  }
    where
      present-le : (o : Option Item) → present o ≤ 1
      present-le none = omega arith
      present-le (some x) = omega arith

      stored-listed :
          (k : Bytes)
          → bytes_eq k key ≡ bytes_eq key k
          → count k (as_slice l) ≡ present (lookup k (insert key itm m.entries))
      stored-listed k swap = ground (
        arith,
        ap (count k) q,
        count-remove_first k key (as_slice s.list),
        a.listed k,
        swap,
        lookup-insert key k itm m.entries,
        present-le (lookup k m.entries),
      )

  listed_or_absent :
      (key : Bytes) (m : MapCache) (s : Client lib) (item : Bytes)
      → IsAccounted lib (m, s)
      → (ltb 0 (length item) ≡ true) ⊎ (lookup key m.entries ≡ none)
      → (ltb 0 (length item) ≡ true) ⊎ (count key (as_slice s.list) ≡ 0)
  listed_or_absent key m s item a (inl h) = inl h
  listed_or_absent key m s item a (inr h) = inr (a.listed key ∙ ap present h)

  -- The branch without making room.
  set_behind_room :
      (max : ℕ) (clock : Clock) (key val : Bytes) (expiration : ℕ) (m : MapCache) (s : Client lib)
      (item : Bytes)
      → length item ≤ s.used
      → s.used < Int64.bound
      → max < Int64.bound
      → s.used - length item + length val ≤ max
      → MaxMemory.set_behind lib max clock key val expiration item (m, s)
        ≡ ok (
            MaxMemory.store lib clock
              (ltb 0 (length item))
              key
              val
              expiration
              (m, record s { used = s.used - length item + length val; locked = false }))
  unfolding MaxMemory.set_behind
  set_behind_room max clock key val expiration m s item h small hm room =
      let left = s.used - length item in
      let taken = Int64.sub_lem s.used (length item) h small in
      let kept : (if ltb 0 (length item) then Int64.sub s.used (length item) else s.used) ≡ left =
        ground (arith, taken) in
      let sum = Int64.add_lem (length val) left (omega arith) in
      let counted = Int64.add_lem left (length val) (omega arith) in
      let fits : Int64.less max (length val + left) ≡ false =
        ground (arith, Int64.less_lem max (length val + left) hm (omega arith)) in
      rw (kept, sum, fits, taken, counted)

  -- `Set` up to its test for room, at a key that may be written.
  set_writable :
      (max : ℕ) (clock : Clock) (key val : Bytes) (expiration : ℕ) (m : MapCache) (s : Client lib)
      → s.locked ≡ false
      → IsWritable clock.first (lookup key m.entries)
      → (item : Bytes) × (MaxMemory.set lib max clock key val expiration (m, s)
          ≡ MaxMemory.set_behind lib max clock key val expiration item
              (m, record s { locked = true }))
        × (length item ≡ size (lookup key m.entries))
        × ((ltb 0 (length item) ≡ true) ⊎ (lookup key m.entries ≡ none))
  unfolding MaxMemory.set MapCache.get
  set_writable max clock key val expiration m s free w =
      elim (Option-cases (lookup key m.entries)) [
        | inl missing ↦ ([], rw (free, missing), rw missing refl, inr missing)
        | inr (itm, found) ↦
            let (live, filled) : IsWritable clock.first (some itm) = rw found at w in
            (itm.val, rw (free, found, live), rw found refl, inl (ground arith))
      ]

  -- In a state with right books, which are that `used` is the number of bytes in the cache, each key
  -- of the cache is listed once and no other, and the mutex is free: where the key is missing, or has
  -- an unexpired entry that is not empty, and the value fits into `max` bytes, an int64, `Set`
  -- returns no error. The value stands under the key, with its deadline, all else in the cache is as
  -- it was; the key is at the head of the list, in front of the other keys in their order; the bytes
  -- in the cache are at most `max`, and the books are right again.
  pub set-IsAccounted :
      (max : ℕ) (clock : Clock) (key val : Bytes) (expiration : ℕ) (st : MaxMemory.Cache lib)
      → IsAccounted lib st
      → IsWritable clock.first (lookup key (st.0.entries))
      → max < Int64.bound
      → total (st.0.entries) - size (lookup key (st.0.entries)) + length val ≤ max
      → (st' : MaxMemory.Cache lib) × (MaxMemory.set lib max clock key val expiration st
          ≡ ok (st', none))
        × (st'.0.entries ≡ insert key (new_item clock.last val expiration) (st.0.entries))
        × (as_slice (st'.1.list) ≡ key ∷ remove_first key (as_slice (st.1.list)))
        × (total (st'.0.entries) ≤ max)
        × IsAccounted lib st'
  set-IsAccounted max clock key val expiration (m, s) a w hm room =
      let (item, e₁, len, cases) = set_writable max clock key val expiration m s a.unlocked w in
      let fresh = new_item clock.last val expiration in
      let bytes = total-insert key fresh m.entries in
      let held : size (lookup key m.entries) ≤ total m.entries = size-le-total key m.entries in
      let used = s.used - length item + length val in
      let e₂ =
        set_behind_room max clock key val expiration m (record s { locked = true }) item
          (omega (arith, a.used_lem)) (omega (arith, a.used_lem, a.small)) hm
          (omega (arith, a.used_lem)) in
      let (l, e₃, q) =
        store_lem clock (ltb 0 (length item)) key val expiration m
          (record s { used = used; locked = false }) (listed_or_absent key m s item a cases) in
      (
        (
          record { entries = insert key fresh m.entries },
          record { used = used; locked = false; list = l },
        ),
        e₁ ∙ e₂ ∙ ap ok e₃,
        refl,
        q,
        omega (arith, a.used_lem),
        stored-IsAccounted key fresh m s l used a (omega (arith, a.used_lem))
            (omega (arith, a.used_lem)) q,
      )
