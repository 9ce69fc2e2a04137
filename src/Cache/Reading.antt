-- ===== src/Cache/Reading.antt =====
-- `Get` of the memory-limited cache, and the operations that it has from the embedded cache: what
-- they return, and that they keep the books right.
use myhomework.Common.{
  ℕ, Bytes, bytes_eq, bytes_eq_iff, ◌≡◌, refl, sym, ap, ◌∙◌, List, [], ◌∷◌, Option, none, some,
  Result, ok, err, true, Bool-cases, Option-cases, inl, inr, if◌then◌else◌, arith, take,
}
use myhomework.Common.Dict.{lookup, erase}
use myhomework.Cache.LinkedList.{LinkedList, IsLawful}
use myhomework.Cache.MapCache
use myhomework.Cache.MapCache.{MapCache, Item, Error, key_not_found, Abort, deadline_before}
use myhomework.Cache.MaxMemory
use myhomework.Cache.MaxMemory.{Client}
use myhomework.Cache.Keys.{count, remove_first, count-remove_first}
use myhomework.Cache.Loops.{list_move_to_head_lem}
use myhomework.Cache.Totals.{erase_missing}
use myhomework.Cache.Accounting.{
  IsAccounted, removed, removed-IsAccounted, delete_found_lem, delete-IsAccounted,
}

module _ (lib : LinkedList) (laws : IsLawful lib) where
  open lib use {Keys, as_slice}

  -- What `Get` returns, by the entry of the key, and what it leaves.
  abbrev pub GetOutcome :
      ℕ
      → Bytes
      → MaxMemory.Cache lib
      → Option Item
      → MaxMemory.Cache lib × Result Error Bytes
      → Type 0
  GetOutcome now key st none r = r ≡ (st, err key_not_found)
  GetOutcome now key st (some itm) r =
      if deadline_before now itm
      then (r.1 ≡ err key_not_found) × (r.0.0.entries ≡ erase key (st.0.entries))
      else (r.1 ≡ ok itm.val)
        × (r.0.0 ≡ st.0)
        × (as_slice (r.0.1.list) ≡ key ∷ remove_first key (as_slice (st.1.list)))

  -- A list with the same keys, each as often.
  pub moved-IsAccounted :
      (key : Bytes) (m : MapCache) (s : Client lib) (l : Keys) (itm : Item)
      → IsAccounted lib (m, s)
      → lookup key m.entries ≡ some itm
      → as_slice l ≡ key ∷ remove_first key (as_slice s.list)
      → IsAccounted lib (m, record s { list = l })
  unfolding count
  moved-IsAccounted key m s l itm a found e = record {
    distinct = a.distinct;
    listed = λ k.
        let same = (bytes_eq_iff key k) in
        let swap : bytes_eq k key ≡ bytes_eq key k =
          ground (arith, bytes_eq_iff k key, bytes_eq_iff key k) in
        let holds : bytes_eq key k ≡ true → lookup k m.entries ≡ some itm =
          λ q. ap (λ j. lookup j m.entries) (sym (same.0 q)) ∙ found in
        elim (Bool-cases (bytes_eq key k)) [
          | inl q ↦ ground (
            arith,
            ap (count k) e,
            count-remove_first k key (as_slice s.list),
            a.listed k,
            swap,
            q,
            holds q,
          )
          | inr q ↦ ground (
            arith,
            ap (count k) e,
            count-remove_first k key (as_slice s.list),
            a.listed k,
            swap,
            q,
          )
        ];
    used_lem = a.used_lem;
    unlocked = a.unlocked;
    small = a.small;
  }

  get_found-IsAccounted :
      (now : ℕ) (key : Bytes) (m : MapCache) (s : Client lib) (itm : Item)
      → IsAccounted lib (m, s)
      → lookup key m.entries ≡ some itm
      → (r : MaxMemory.Cache lib × Result Error Bytes) × (MaxMemory.get lib now key (m, s) ≡ ok r)
        × GetOutcome now key (m, s) (some itm) r
        × IsAccounted lib r.0
  unfolding MaxMemory.get MapCache.get_found MapCache.get
  get_found-IsAccounted now key m s itm a found = elim (Bool-cases (deadline_before now itm)) [
    | inl late ↦ (
      (removed lib laws key itm (m, s), err key_not_found),
      rw (found, late, delete_found_lem lib laws key itm m s a found),
      rw late (refl, refl),
      removed-IsAccounted lib laws key itm m s a found,
    )
    | inr live ↦
        let (l, e, q) = list_move_to_head_lem lib laws key s.list in
        (
          ((m, record s { list = l }), ok itm.val),
          rw (found, live, e),
          rw live (refl, refl, q),
          moved-IsAccounted key m s l itm a found q,
        )
  ]

  -- In a state with right books `Get` returns. A key that the cache lacks is an error and changes
  -- nothing; an expired one is an error and is dropped; of any other the value is returned and the
  -- key moves to the head of the list. The books stay right.
  pub get-IsAccounted :
      (now : ℕ) (key : Bytes) (st : MaxMemory.Cache lib)
      → IsAccounted lib st
      → (r : MaxMemory.Cache lib × Result Error Bytes) × (MaxMemory.get lib now key st ≡ ok r)
        × GetOutcome now key st (lookup key (st.0.entries)) r
        × IsAccounted lib r.0
  unfolding MaxMemory.get MapCache.get
  get-IsAccounted now key (m, s) a = elim (Option-cases (lookup key m.entries)) [
    | inl missing ↦ (((m, s), err key_not_found), rw missing, rw missing refl, a)
    | inr (itm, found) ↦
        let (r, e, o, b) = get_found-IsAccounted now key m s itm a found in (r, e, rw found o, b)
  ]

  -- `LoadAndDelete` returns the value of the key and drops its entry, expired or not; a key that the
  -- cache lacks is an error. The books stay right.
  pub load_and_delete-IsAccounted :
      (key : Bytes) (st : MaxMemory.Cache lib)
      → IsAccounted lib st
      → (st' : MaxMemory.Cache lib) × (MapCache.load_and_delete (MaxMemory.callback lib) key st
          ≡ ok (
            st',
            elim (lookup key (st.0.entries)) [ none ↦ err key_not_found | some itm ↦ ok itm.val ],
          ))
        × (st'.0.entries ≡ erase key (st.0.entries))
        × IsAccounted lib st'
  unfolding MapCache.load_and_delete
  load_and_delete-IsAccounted key (m, s) a =
      let (st', e, q, _, b) = delete-IsAccounted lib laws key (m, s) a in
      elim (Option-cases (lookup key m.entries)) [
        | inl missing ↦ ((m, s), rw missing, sym (erase_missing key m.entries missing), a)
        | inr (itm, found) ↦ (st', rw (found, e), q, b)
      ]

  sweep_keys-IsAccounted :
      (t : ℕ) (keys : List Bytes) (st : MaxMemory.Cache lib)
      → IsAccounted lib st
      → (st' : MaxMemory.Cache lib) × (MapCache.sweep_keys (MaxMemory.callback lib) t keys st
          ≡ ok st')
        × IsAccounted lib st'
  unfolding MapCache.sweep_keys
  sweep_keys-IsAccounted t [] st a = (st, refl, a)
  sweep_keys-IsAccounted t (key ∷ keys) st a = elim (Option-cases (lookup key (st.0.entries))) [
    | inl missing ↦ let (st', e, b) = sweep_keys-IsAccounted t keys st a in (st', rw missing e, b)
    | inr (itm, found) ↦ elim (Bool-cases (deadline_before t itm)) [
      | inl late ↦
          let (st₁, e₁, _, _, a₁) = delete-IsAccounted lib laws key st a in
          let (st', e, b) = sweep_keys-IsAccounted t keys st₁ a₁ in (st', rw (found, late, e₁) e, b)
      | inr live ↦
          let (st', e, b) = sweep_keys-IsAccounted t keys st a in (st', rw (found, live) e, b)
    ]
  ]

  -- A tick of the goroutine that drops expired keys ends, and keeps the books right, in whatever
  -- order the keys come.
  pub sweep-IsAccounted :
      (t : ℕ) (keys : List Bytes) (st : MaxMemory.Cache lib)
      → IsAccounted lib st
      → (st' : MaxMemory.Cache lib) × (MapCache.sweep (MaxMemory.callback lib) t keys st ≡ ok st')
        × IsAccounted lib st'
  unfolding MapCache.sweep
  sweep-IsAccounted t keys st a = sweep_keys-IsAccounted t (take 10001 keys) st a
