-- ===== src/Cache/Room.antt =====
-- `Set` of the memory-limited cache where it makes room, and where it never returns.
use myhomework.Common.{
  ℕ, suc, ◌+◌, ◌<◌, Bytes, ◌≡◌, refl, sym, ap, subst, ◌∙◌, List, [], ◌∷◌, ◌++◌, none, some, ok, err,
  true, false, Bool-cases, inl, inr, length, length-append, arith, ◌⊎◌, append-nil,
}
use mathlib.Core.List.{reverse}
use myhomework.Common.Dict.{lookup, insert}
use myhomework.Common.Int64
use myhomework.Cache.LinkedList.{LinkedList, IsLawful}
use myhomework.Cache.MapCache
use myhomework.Cache.MapCache.{MapCache, Item, deadline_before, deadlock}
use myhomework.Cache.MaxMemory
use myhomework.Cache.MaxMemory.{Client, Clock}
use myhomework.Cache.Totals.{size, total}
use myhomework.Cache.Victims.{bytes_of, bytes_of-le-total}
use myhomework.Cache.Accounting.{IsAccounted}
use myhomework.Cache.Setting.{new_item}
use myhomework.Cache.Cleaning.{AllLive, erase_all, AllNeeded, collect_lem, collect_round}
use myhomework.Cache.Collected.{listed-le, set_collected, held_of}

-- The bytes left, where the loop has stopped.
stopped :
    (kept : List Bytes) (left need freed used : ℕ)
    → (kept ≡ []) ⊎ (need + freed < used)
    → left + freed ≡ used
    → (kept ≡ []) ⊎ (need < left)
stopped kept left need freed used (inl h) e = inl h
stopped kept left need freed used (inr h) e = inr (omega (arith, h, e))

module _ (lib : LinkedList) (laws : IsLawful lib) where
  open lib use {Keys, as_slice}

  -- In a state with right books, where the cache lacks the key, no entry expires before the loop
  -- reads it, and the new value does not fit, but its bytes and those in the cache are an int64
  -- together: `Set` deletes keys from the end of the list, and the others stay. It goes on while the
  -- bytes that are left are at most those of the new value, and stops as soon as they are more, or
  -- else when no key is left. Then the value is stored, and its key goes to the head of the list.
  -- `used` does not count the new value.
  pub set-making_room :
      (max : ℕ) (clock : Clock) (key val : Bytes) (expiration : ℕ) (st : MaxMemory.Cache lib)
      → IsAccounted lib st
      → lookup key (st.0.entries) ≡ none
      → AllLive clock (st.0.entries)
      → total (st.0.entries) + length val < Int64.bound
      → max < total (st.0.entries) + length val
      → (st' : MaxMemory.Cache lib) × (gone kept : List Bytes) × (MaxMemory.set lib max clock key
            val expiration st
          ≡ ok (st', none))
        × (as_slice (st.1.list) ≡ kept ++ reverse gone)
        × (as_slice (st'.1.list) ≡ key ∷ kept)
        × (st'.0.entries
            ≡ insert key (new_item clock.last val expiration) (erase_all gone (st.0.entries)))
        × AllNeeded (st.0.entries) (length val) (total (st.0.entries)) gone
        × ((kept ≡ []) ⊎ (length val < st'.1.used))
        × (st'.1.used + length val ≡ total (st'.0.entries))
  unfolding bytes_of
  set-making_room max clock key val expiration (m, s) a missing live small over =
      let fit =
        bytes_of-le-total m.entries (as_slice s.list) a.distinct (listed-le lib laws (m, s) a) in
      let (gone, kept, e, split, needed, stop) =
        collect_lem lib laws (lib.len s.list) clock (length val) s.used [] m
          (record s { locked = true }) (as_slice s.list) (sym (laws.len_lem s.list))
          (sym (append-nil (as_slice s.list))) (omega (arith, fit, a.used_lem))
          (omega (arith, a.used_lem, small)) (omega (arith, small)) (held_of lib laws m s a) live in
      let (st', set, listed, stored, left, counted) =
        set_collected lib laws max clock key val expiration m s gone kept a missing small over e
          split in
      (
        st',
        gone,
        kept,
        set,
        split,
        listed,
        stored,
        subst (λ u. AllNeeded m.entries (length val) u gone) (omega (arith, a.used_lem)) needed,
        stopped kept (st'.1.used) (length val) (bytes_of m.entries gone) s.used stop left,
        counted,
      )

  -- Making room does not keep the bytes in the cache below `max`: in a state with right books, where
  -- the cache lacks the key and the last key of the list has an entry that is not expired when the
  -- loop reads it, if a new value does not fit even behind the deletion of that last key, but is
  -- smaller than what is then left, and its bytes and those in the cache are an int64 together, `Set`
  -- deletes that key only, returns no error, and leaves more than `max` bytes in the cache.
  pub set-exceeds_max :
      (max : ℕ) (clock : Clock) (key val : Bytes) (expiration : ℕ) (st : MaxMemory.Cache lib)
      (front : List Bytes) (last : Bytes) (itm : Item)
      → IsAccounted lib st
      → lookup key (st.0.entries) ≡ none
      → as_slice (st.1.list) ≡ front ++ last ∷ []
      → lookup last (st.0.entries) ≡ some itm
      → deadline_before (clock.at_index (length front)) itm ≡ false
      → total (st.0.entries) + length val < Int64.bound
      → length val + length itm.val < total (st.0.entries)
      → max + length itm.val < total (st.0.entries) + length val
      → (st' : MaxMemory.Cache lib) × (MaxMemory.set lib max clock key val expiration st
          ≡ ok (st', none))
        × (as_slice (st'.1.list) ≡ key ∷ front)
        × (max < total (st'.0.entries))
  unfolding bytes_of
  set-exceeds_max max clock key val expiration (m, s) front last itm a missing split found live
        small enough over =
      let n : lib.len s.list ≡ suc (length front) =
        laws.len_lem s.list ∙ ap length split ∙ omega (arith, length-append front (last ∷ [])) in
      let left =
        Int64.sub_lem s.used (length itm.val) (omega (arith, enough, a.used_lem))
          (omega (arith, a.used_lem, small)) in
      let stop : Int64.less (length val) (Int64.sub s.used (length itm.val)) ≡ true = ground (
        arith,
        left,
        enough,
        a.used_lem,
        Int64.less_lem (length val) (Int64.sub s.used (length itm.val)) (omega (arith, small))
            (omega (arith, left, a.used_lem, small)),
      ) in
      let round =
        collect_round lib laws clock (length val) s.used [] m (record s { locked = true }) front
          last [] itm (length front) (length itm.val) refl split found live
          (Int64.add_lem 0 (length itm.val) (omega (arith, enough, small)) ∙ omega arith) in
      let (st', set, listed, stored, kept, counted) =
        set_collected lib laws max clock key val expiration m s (last ∷ []) front a missing small
          (omega (arith, over)) (rw (n, round, stop)) split in
      (st', set, listed, omega (arith, counted, kept, ap size found, a.used_lem, over))

  -- `Set` never returns if the cache still holds its key with an expired entry: the mutex is held
  -- while the entry is dropped, and the callback takes it again.
  pub set-deadlock :
      (max : ℕ) (clock : Clock) (key val : Bytes) (expiration : ℕ) (st : MaxMemory.Cache lib)
      (itm : Item)
      → lookup key (st.0.entries) ≡ some itm
      → deadline_before clock.first itm ≡ true
      → MaxMemory.set lib max clock key val expiration st ≡ err deadlock
  unfolding MaxMemory.set MapCache.get MapCache.delete MaxMemory.on_evicted
  set-deadlock max clock key val expiration (m, s) itm found late = elim (Bool-cases s.locked) [
    | inl held ↦ rw held
    | inr free ↦ rw (free, found, late, found)
  ]
