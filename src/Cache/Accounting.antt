-- ===== src/Cache/Accounting.antt =====
-- The books of the memory-limited cache: `used` against the bytes of the embedded cache, and the
-- linked list against its keys. Every operation that only reads or removes keeps them right.
use myhomework.Common.{
  ◌+◌, ◌≤◌, ◌<◌, Bytes, bytes_eq, bytes_eq_iff, ◌≡◌, refl, sym, ap, ◌∙◌, [], Option, none, some, ok,
  false, Bool-cases, Option-cases, inl, inr, length, arith,
}
use myhomework.Common.Dict.{lookup, erase, HasDistinctKeys, HasDistinctKeys-erase, lookup-erase}
use myhomework.Common.Int64
use myhomework.Cache.LinkedList.{LinkedList, IsLawful}
use myhomework.Cache.MapCache
use myhomework.Cache.MapCache.{MapCache, Item, Error, key_not_found, Abort, deadline_before}
use myhomework.Cache.MaxMemory
use myhomework.Cache.MaxMemory.{Client}
use myhomework.Cache.Keys.{
  count, remove_first, count-remove_first, purge-remove_first, remove_first_absent,
}
use myhomework.Cache.Loops.{remove_key-purge}
use myhomework.Cache.Totals.{present, total, total-erase, erase_missing}

module _ (lib : LinkedList) where
  -- `used` is the number of bytes in the cache, a key is listed once if the cache holds it and not at
  -- all if it does not, and the mutex is free. The bytes are fewer than 2 ^ 63.
  pub record IsAccounted (st : MaxMemory.Cache lib) : Type 0 where
    pub distinct : HasDistinctKeys (st.0.entries)
    pub listed :
        (k : Bytes) → count k (lib.as_slice (st.1.list)) ≡ present (lookup k (st.0.entries))
    pub used_lem : st.1.used ≡ total (st.0.entries)
    pub unlocked : st.1.locked ≡ false
    pub small : total (st.0.entries) < Int64.bound

module _ (lib : LinkedList) (laws : IsLawful lib) where
  open lib use {Keys, as_slice}

  present-le : (o : Option Item) → present o ≤ 1
  present-le none = omega arith
  present-le (some itm) = omega arith

  -- The state behind a deletion of a key that the cache holds.
  abbrev pub removed : Bytes → Item → MaxMemory.Cache lib → MaxMemory.Cache lib
  removed key itm (m, s) = (
    record { entries = erase key m.entries },
    record s {
      used = Int64.sub s.used (length itm.val);
      list = MaxMemory.remove_key lib key s.list;
    },
  )

  remove_key-remove_first :
      (key : Bytes) (m : MapCache) (s : Client lib)
      → IsAccounted lib (m, s)
      → as_slice (MaxMemory.remove_key lib key s.list) ≡ remove_first key (as_slice s.list)
  remove_key-remove_first key m s a =
      remove_key-purge lib laws key s.list
      ∙ purge-remove_first key (as_slice s.list)
          (omega (arith, a.listed key, present-le (lookup key m.entries)))

  removed-listed :
      (key : Bytes) (itm : Item) (m : MapCache) (s : Client lib)
      → IsAccounted lib (m, s)
      → lookup key m.entries ≡ some itm
      → (k : Bytes)
      → count k (as_slice (MaxMemory.remove_key lib key s.list))
        ≡ present (lookup k (erase key m.entries))
  removed-listed key itm m s a found k =
      let kept = ap (count k) (remove_key-remove_first key m s a) in
      elim (Bool-cases (bytes_eq key k)) [
        | inl e ↦
            let same = (bytes_eq_iff key k).0 e in
            ground (
              arith,
              kept,
              count-remove_first k key (as_slice s.list),
              e,
              same,
              a.listed k,
              lookup-erase key k m.entries a.distinct,
              present-le (lookup k m.entries),
            )
        | inr e ↦ ground (
          arith,
          kept,
          count-remove_first k key (as_slice s.list),
          e,
          a.listed k,
          lookup-erase key k m.entries a.distinct,
        )
      ]

  pub removed-IsAccounted :
      (key : Bytes) (itm : Item) (m : MapCache) (s : Client lib)
      → IsAccounted lib (m, s)
      → lookup key m.entries ≡ some itm
      → IsAccounted lib (removed key itm (m, s))
  removed-IsAccounted key itm m s a found =
      let bytes : total (erase key m.entries) + length itm.val ≡ total m.entries =
        rw found at (total-erase key m.entries) in
      record {
        distinct = HasDistinctKeys-erase key m.entries a.distinct;
        listed = removed-listed key itm m s a found;
        used_lem =
            Int64.sub_lem s.used (length itm.val) (omega (arith, a.used_lem))
              (omega (arith, a.used_lem, a.small))
            ∙ omega (arith, a.used_lem);
        unlocked = a.unlocked;
        small = omega (arith, a.small);
      }

  -- A deletion in a state with right books.
  pub delete_found_lem :
      (key : Bytes) (itm : Item) (m : MapCache) (s : Client lib)
      → IsAccounted lib (m, s)
      → lookup key m.entries ≡ some itm
      → MapCache.delete (MaxMemory.callback lib) key (m, s) ≡ ok (removed key itm (m, s))
  unfolding MapCache.delete MaxMemory.on_evicted
  delete_found_lem key itm m s a found = rw (found, a.unlocked)

  delete_missing :
      (key : Bytes) (m : MapCache) (s : Client lib)
      → lookup key m.entries ≡ none
      → MapCache.delete (MaxMemory.callback lib) key (m, s) ≡ ok (m, s)
  unfolding MapCache.delete
  delete_missing key m s missing = rw missing

  -- `Delete` returns, drops the entry of the key and its place in the list, and keeps the books
  -- right.
  pub delete-IsAccounted :
      (key : Bytes) (st : MaxMemory.Cache lib)
      → IsAccounted lib st
      → (st' : MaxMemory.Cache lib) × (MapCache.delete (MaxMemory.callback lib) key st ≡ ok st')
        × (st'.0.entries ≡ erase key (st.0.entries))
        × (as_slice (st'.1.list) ≡ remove_first key (as_slice (st.1.list)))
        × IsAccounted lib st'
  delete-IsAccounted key (m, s) a = elim (Option-cases (lookup key m.entries)) [
    | inl missing ↦ (
      (m, s),
      delete_missing key m s missing,
      sym (erase_missing key m.entries missing),
      sym (remove_first_absent key (as_slice s.list) (a.listed key ∙ ap present missing)),
      a,
    )
    | inr (itm, found) ↦ (
      removed key itm (m, s),
      delete_found_lem key itm m s a found,
      refl,
      remove_key-remove_first key m s a,
      removed-IsAccounted key itm m s a found,
    )
  ]

  -- A new cache over an empty map has right books.
  pub new_max_memory_cache-IsAccounted :
      IsAccounted lib (MaxMemory.new_max_memory_cache lib (record { entries = [] }))
  unfolding MaxMemory.new_max_memory_cache total lookup count
  new_max_memory_cache-IsAccounted = record {
    distinct = tt;
    listed = λ k. ap (count k) laws.new_lem;
    used_lem = refl;
    unlocked = refl;
    small = omega arith;
  }
