-- ===== src/Cache/Collected.antt =====
-- The parts of `Set` of the memory-limited cache where it makes room.
use myhomework.Common.{
  ℕ, ◌+◌, ◌≤◌, ◌<◌, Bytes, bytes_eq, bytes_eq_iff, ◌≡◌, refl, sym, ap, ◌∙◌, List, [], ◌∷◌, ◌++◌,
  Option, none, some, ok, true, false, inr, length, arith, append_assoc, append-nil,
}
use mathlib.Core.List.{reverse, reverse-append}
use myhomework.Common.Dict.{lookup, insert}
use myhomework.Common.Int64
use myhomework.Cache.LinkedList.{LinkedList, IsLawful}
use myhomework.Cache.MapCache
use myhomework.Cache.MapCache.{MapCache, Item, deadline_before, deadlock}
use myhomework.Cache.MaxMemory
use myhomework.Cache.MaxMemory.{Client, Clock}
use myhomework.Cache.Keys.{count, remove_first, remove_first_absent}
use myhomework.Cache.Totals.{size, present, total, total-insert, total-erase}
use myhomework.Cache.Victims.{
  bytes_of, bytes_of-erase, count-append, count-reverse, remove_first_last,
}
use myhomework.Cache.Accounting.{IsAccounted, delete-IsAccounted}
use myhomework.Cache.Setting.{new_item, store_lem}
use myhomework.Cache.Cleaning.{erase_all}

present-zero : (o : Option Item) → present o ≡ 0 → o ≡ none
present-zero none h = refl
present-zero (some itm) h = absurd (omega (arith, h))

present-some : (o : Option Item) → 0 < present o → (itm : Item) × (o ≡ some itm)
present-some none h = absurd (omega (arith, h))
present-some (some itm) h = (itm, refl)

present-le : (o : Option Item) → present o ≤ 1
present-le none = omega arith
present-le (some itm) = omega arith

module _ (lib : LinkedList) (laws : IsLawful lib) where
  open lib use {Keys, as_slice}

  pub listed-le :
      (st : MaxMemory.Cache lib)
      → IsAccounted lib st
      → (k : Bytes) → count k (as_slice (st.1.list)) ≤ 1
  listed-le st a k = omega (arith, a.listed k, present-le (lookup k (st.0.entries)))

  -- The last key of the list is not among the others.
  last_once :
      (key : Bytes) (front l : List Bytes)
      → l ≡ front ++ key ∷ []
      → count key l ≤ 1
      → count key front ≡ 0
  unfolding count
  last_once key front l h once =
      let same : bytes_eq key key ≡ true = (bytes_eq_iff key key).1 refl in
      ground (arith, ap (count key) h, count-append key front (key ∷ []), same, once)

  -- The keys from the end of the list are deleted one by one.
  delete_keys_lem :
      (keys : List Bytes) (st : MaxMemory.Cache lib) (kept : List Bytes)
      → IsAccounted lib st
      → as_slice (st.1.list) ≡ kept ++ reverse keys
      → (st' : MaxMemory.Cache lib) × (MaxMemory.delete_keys lib keys st ≡ ok st')
        × (as_slice (st'.1.list) ≡ kept)
        × (st'.0.entries ≡ erase_all keys (st.0.entries))
        × (total (st'.0.entries) + bytes_of (st.0.entries) keys ≡ total (st.0.entries))
        × IsAccounted lib st'
  unfolding MaxMemory.delete_keys erase_all bytes_of
  delete_keys_lem [] st kept a h = (st, refl, h ∙ append-nil kept, refl, omega arith, a)
  delete_keys_lem (key ∷ keys) st kept a h =
      let front = kept ++ reverse keys in
      let split : as_slice (st.1.list) ≡ front ++ key ∷ [] =
        h
        ∙ ap (λ l. kept ++ l) (reverse-append (key ∷ []) keys)
        ∙ sym (append_assoc kept (reverse keys) (key ∷ [])) in
      let absent = last_once key front (as_slice (st.1.list)) split (listed-le st a key) in
      let (st₁, e₁, m₁, l₁, a₁) = delete-IsAccounted lib laws key st a in
      let listed : as_slice (st₁.1.list) ≡ front =
        l₁ ∙ ap (remove_first key) split ∙ remove_first_last key front absent in
      let (st', e, q, m', bytes, a') = delete_keys_lem keys st₁ kept a₁ listed in
      let others : count key keys ≡ 0 =
        omega (arith, absent, count-append key kept (reverse keys), count-reverse key keys) in
      let held = bytes_of-erase key (st.0.entries) keys a.distinct others in
      (
        st',
        rw e₁ e,
        q,
        m' ∙ ap (erase_all keys) m₁,
        omega (
          arith,
          bytes,
          ap total m₁,
          ap (λ m. bytes_of m keys) m₁,
          held,
          total-erase key (st.0.entries),
        ),
        a',
      )

  clean_lem :
      (clock : Clock) (need used : ℕ) (m : MapCache) (s : Client lib) (gone : List Bytes)
      (st' : MaxMemory.Cache lib)
      → MaxMemory.collect lib (lib.len s.list) clock need used 0 [] (m, s) ≡ ok ((m, s), ok gone)
      → MaxMemory.delete_keys lib gone (m, record s { locked = false }) ≡ ok st'
      → MaxMemory.clean lib clock need used (m, s) ≡ ok (st', none)
  unfolding MaxMemory.clean
  clean_lem clock need used m s gone st' e d = rw (e, d)

  -- `Set` of a key that the cache lacks, from its parts.
  set_cleaned :
      (max : ℕ) (clock : Clock) (key val : Bytes) (expiration : ℕ) (m : MapCache) (s : Client lib)
      (st' : MaxMemory.Cache lib)
      → s.locked ≡ false
      → lookup key m.entries ≡ none
      → Int64.less max (Int64.add (length val) s.used) ≡ true
      → MaxMemory.clean lib clock (length val) s.used (m, record s { locked = true })
        ≡ ok (st', none)
      → MaxMemory.set lib max clock key val expiration (m, s)
        ≡ ok (MaxMemory.store lib clock false key val expiration st')
  unfolding MaxMemory.set MaxMemory.set_behind MapCache.get
  set_cleaned max clock key val expiration m s st' free missing over cleaned =
      rw (free, missing, over, cleaned)

  unlocked-IsAccounted :
      (m : MapCache) (s : Client lib)
      → IsAccounted lib (m, s)
      → IsAccounted lib (m, record s { locked = false })
  unlocked-IsAccounted m s a = record {
    distinct = a.distinct;
    listed = a.listed;
    used_lem = a.used_lem;
    unlocked = refl;
    small = a.small;
  }

  -- `Set` of a key that the cache lacks, from the keys that its loop collects.
  pub set_collected :
      (max : ℕ) (clock : Clock) (key val : Bytes) (expiration : ℕ) (m : MapCache) (s : Client lib)
      (gone kept : List Bytes)
      → IsAccounted lib (m, s)
      → lookup key m.entries ≡ none
      → total m.entries + length val < Int64.bound
      → max < total m.entries + length val
      → MaxMemory.collect lib
          (lib.len s.list)
          clock
          (length val)
          s.used
          0
          []
          (m, record s { locked = true })
        ≡ ok ((m, record s { locked = true }), ok gone)
      → as_slice s.list ≡ kept ++ reverse gone
      → (st' : MaxMemory.Cache lib) × (MaxMemory.set lib max clock key val expiration (m, s)
          ≡ ok (st', none))
        × (as_slice (st'.1.list) ≡ key ∷ kept)
        × (st'.0.entries
            ≡ insert key (new_item clock.last val expiration) (erase_all gone m.entries))
        × (st'.1.used + bytes_of m.entries gone ≡ s.used)
        × (st'.1.used + length val ≡ total (st'.0.entries))
  set_collected max clock key val expiration m s gone kept a missing small over e₁ split =
      let (st₂, e₂, listed₂, entries₂, bytes₂, a₂) =
        delete_keys_lem gone (m, record s { locked = false }) kept (unlocked-IsAccounted m s a)
          split in
      let absent : count key kept ≡ 0 = omega (
        arith,
        a.listed key,
        ap present missing,
        ap (count key) split,
        count-append key kept (reverse gone),
      ) in
      let absent₂ : count key (as_slice (st₂.1.list)) ≡ 0 = ap (count key) listed₂ ∙ absent in
      let (l, e₃, q) =
        store_lem lib laws clock false key val expiration (st₂.0) (st₂.1) (inr absent₂) in
      let gone_key : lookup key (st₂.0.entries) ≡ none =
        present-zero _ (sym (a₂.listed key) ∙ absent₂) in
      let sum = Int64.add_lem (length val) s.used (omega (arith, a.used_lem, small)) in
      let test : Int64.less max (Int64.add (length val) s.used) ≡ true = ground (
        arith,
        sum,
        Int64.less_lem max (Int64.add (length val) s.used) (omega (arith, over, small))
            (omega (arith, sum, a.used_lem, small)),
        over,
        a.used_lem,
      ) in
      let cleaned =
        clean_lem clock (length val) s.used m (record s { locked = true }) gone st₂ e₁ e₂ in
      let fresh = new_item clock.last val expiration in
      (
        (record { entries = insert key fresh (st₂.0.entries) }, record (st₂.1) { list = l }),
        set_cleaned max clock key val expiration m s st₂ a.unlocked missing test cleaned ∙ ap ok e₃,
        q
            ∙ ap (λ k. key ∷ remove_first key k) listed₂
            ∙ ap (◌∷◌ key) (remove_first_absent key kept absent),
        ap (insert key fresh) entries₂,
        omega (arith, a₂.used_lem, bytes₂, a.used_lem),
        omega (arith, a₂.used_lem, total-insert key fresh (st₂.0.entries), ap size gone_key),
      )

  pub held_of :
      (m : MapCache) (s : Client lib)
      → IsAccounted lib (m, s)
      → (k : Bytes) → 0 < count k (as_slice s.list)
      → (itm : Item) × (lookup k m.entries ≡ some itm)
  held_of m s a k listed = present-some (lookup k m.entries) (omega (arith, listed, a.listed k))
