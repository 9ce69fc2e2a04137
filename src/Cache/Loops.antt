-- ===== src/Cache/Loops.antt =====
-- The loops of max_memory_cache.go over a linked list: the callback's, and that of `listMoveToHead`.
use myhomework.Common.{
  ℕ, zero, suc, ◌+◌, ◌≤◌, ◌<◌, Bytes, bytes_eq, ◌≡◌, refl, sym, ap, ◌∙◌, List, [], ◌∷◌, ◌++◌, none,
  some, ok, true, false, Bool-cases, inl, inr, ltb, length, length-append, get_elem?, remove_at,
  arith, append_assoc,
}
use myhomework.Cache.LinkedList.{LinkedList, IsLawful}
use myhomework.Cache.MaxMemory
use myhomework.Cache.MaxMemory.{value_or}
use myhomework.Cache.Keys.{remove_first, purge, get_elem?-append, remove_at-append}

module _ (lib : LinkedList) (laws : IsLawful lib) where
  open lib use {Keys, as_slice}

  -- The list at the length of a front part.
  at_front :
      (l : Keys) (front : List Bytes) (key : Bytes) (back : List Bytes)
      → as_slice l ≡ front ++ key ∷ back
      → lib.get l (length front) ≡ some key
  at_front l front key back h =
      laws.get_lem l (length front)
      ∙ ap (λ keys. get_elem? keys (length front)) h
      ∙ get_elem?-append front key back

  delete_front :
      (l : Keys) (front : List Bytes) (key : Bytes) (back : List Bytes)
      → as_slice l ≡ front ++ key ∷ back
      → (l' : Keys) × (lib.delete l (length front) ≡ some l') × (as_slice l' ≡ front ++ back)
  delete_front l front key back h =
      let room : length front < length (as_slice l) =
        omega (arith, ap length h, length-append front (key ∷ back)) in
      let (l', e, s) = laws.delete_lem l (length front) room in
      (l', e, s ∙ ap (λ keys. remove_at keys (length front)) h ∙ remove_at-append front key back)

  in_front :
      (l : Keys) (front : List Bytes) (key : Bytes) (back : List Bytes)
      → as_slice l ≡ front ++ key ∷ back
      → ltb (length front) (lib.len l) ≡ true
  in_front l front key back h =
      ground (arith, laws.len_lem l, ap length h, length-append front (key ∷ back))

  behind : (l : Keys) (i : ℕ) → length (as_slice l) ≤ i → ltb i (lib.len l) ≡ false
  behind l i h = ground (arith, laws.len_lem l)

  rounds_behind :
      (fuel i : ℕ) (key : Bytes) (l : Keys)
      → length (as_slice l) ≤ i
      → MaxMemory.remove_rounds lib fuel i key l ≡ l
  unfolding MaxMemory.remove_rounds
  rounds_behind zero i key l h = refl
  rounds_behind (suc fuel) i key l h = rw (behind l i h)

  -- A round at a key that stays, and at one that goes.
  round_kept :
      (fuel i : ℕ) (key : Bytes) (l : Keys) (front : List Bytes) (k : Bytes) (back : List Bytes)
      → i ≡ length front
      → as_slice l ≡ front ++ k ∷ back
      → bytes_eq key k ≡ false
      → MaxMemory.remove_rounds lib (suc fuel) i key l
        ≡ MaxMemory.remove_rounds lib fuel (i + 1) key l
  unfolding MaxMemory.remove_rounds
  round_kept fuel i key l front k back hi h e =
      rw (hi, in_front l front k back h, at_front l front k back h, e)

  round_removed :
      (fuel i : ℕ) (key : Bytes) (l : Keys) (front : List Bytes) (k : Bytes) (back : List Bytes)
      → i ≡ length front
      → as_slice l ≡ front ++ k ∷ back
      → bytes_eq key k ≡ true
      → (l' : Keys) × (MaxMemory.remove_rounds lib (suc fuel) i key l
          ≡ MaxMemory.remove_rounds lib fuel (i + 1) key l')
        × (as_slice l' ≡ front ++ back)
  unfolding MaxMemory.remove_rounds
  round_removed fuel i key l front k back hi h e =
      let (l', d, s) = delete_front l front k back h in
      (l', rw (hi, in_front l front k back h, at_front l front k back h, e, d), s)

  remove_rounds-purge :
      (fuel i : ℕ) (key : Bytes) (l : Keys) (front back : List Bytes)
      → i ≡ length front
      → length back ≤ fuel
      → as_slice l ≡ front ++ back
      → as_slice (MaxMemory.remove_rounds lib fuel i key l) ≡ front ++ purge key back
  unfolding purge
  remove_rounds-purge fuel i key l front [] hi hf h =
      rw (rounds_behind fuel i key l (omega (arith, ap length h, length-append front []))) h
  remove_rounds-purge zero i key l front (k ∷ back) hi hf h = absurd (omega arith)
  remove_rounds-purge (suc fuel) i key l front (k ∷ []) hi hf h =
      elim (Bool-cases (bytes_eq key k)) [
        | inl e ↦
            let (l', step, s) = round_removed fuel i key l front k [] hi h e in
            rw
              (
                step,
                rounds_behind fuel (i + 1) key l'
                    (omega (arith, ap length s, length-append front [])),
                e,
              )
              s
        | inr e ↦
            rw
              (
                round_kept fuel i key l front k [] hi h e,
                rounds_behind fuel (i + 1) key l
                    (omega (arith, ap length h, length-append front (k ∷ []))),
                e,
              )
              h
      ]
  remove_rounds-purge (suc fuel) i key l front (k ∷ j ∷ back) hi hf h =
      elim (Bool-cases (bytes_eq key k)) [
        | inl e ↦
            let (l', step, s) = round_removed fuel i key l front k (j ∷ back) hi h e in
            rw (step, e)
              (remove_rounds-purge fuel (i + 1) key l' (front ++ j ∷ []) back
                  (omega (arith, length-append front (j ∷ []))) (omega arith)
                  (s ∙ sym (append_assoc front (j ∷ []) back))
                ∙ append_assoc front (j ∷ []) (purge key back))
        | inr e ↦
            rw (round_kept fuel i key l front k (j ∷ back) hi h e, e)
              (remove_rounds-purge fuel (i + 1) key l (front ++ k ∷ []) (j ∷ back)
                  (omega (arith, length-append front (k ∷ []))) (omega arith)
                  (h ∙ sym (append_assoc front (k ∷ []) (j ∷ back)))
                ∙ append_assoc front (k ∷ []) (purge key (j ∷ back)))
      ]

  pub remove_key-purge :
      (key : Bytes) (l : Keys) → as_slice (MaxMemory.remove_key lib key l) ≡ purge key (as_slice l)
  unfolding MaxMemory.remove_key
  remove_key-purge key l =
      remove_rounds-purge (lib.len l) 0 key l [] (as_slice l) refl (omega (arith, laws.len_lem l))
        refl

  drop_first-remove_first :
      (fuel i : ℕ) (key : Bytes) (l : Keys) (front back : List Bytes)
      → i ≡ length front
      → length back ≤ fuel
      → as_slice l ≡ front ++ back
      → (l' : Keys) × (MaxMemory.drop_first lib fuel i key l ≡ ok l')
        × (as_slice l' ≡ front ++ remove_first key back)
  unfolding MaxMemory.drop_first remove_first
  drop_first-remove_first zero i key l front [] hi hf h = (l, refl, h)
  drop_first-remove_first (suc fuel) i key l front [] hi hf h =
      (l, rw (behind l i (omega (arith, ap length h, length-append front []))), h)
  drop_first-remove_first zero i key l front (k ∷ back) hi hf h = absurd (omega arith)
  drop_first-remove_first (suc fuel) i key l front (k ∷ back) hi hf h =
      elim (Bool-cases (bytes_eq key k)) [
        | inl e ↦
            let (l', d, s) = delete_front l front k back h in
            (l', rw (hi, in_front l front k back h, at_front l front k back h, e, d), rw e s)
        | inr e ↦
            let (l', step, s) =
              drop_first-remove_first fuel (i + 1) key l (front ++ k ∷ []) back
                (omega (arith, length-append front (k ∷ []))) (omega arith)
                (h ∙ sym (append_assoc front (k ∷ []) back)) in
            (
              l',
              rw (hi, in_front l front k back h, at_front l front k back h, e) (rw (← hi) step),
              rw e (s ∙ append_assoc front (k ∷ []) (remove_first key back)),
            )
      ]

  pub add_head_lem :
      (key : Bytes) (l : Keys)
      → (l' : Keys) × (MaxMemory.add_head lib key l ≡ (l', none)) × (as_slice l' ≡ key ∷ as_slice l)
  unfolding MaxMemory.add_head
  add_head_lem key l = let (l', e, s) = laws.add_lem l key in (l', rw (e, MaxMemory.add_head), s)

  pub list_move_to_head_lem :
      (key : Bytes) (l : Keys)
      → (l' : Keys) × (MaxMemory.list_move_to_head lib key l ≡ (l', none))
        × (as_slice l' ≡ key ∷ remove_first key (as_slice l))
  unfolding MaxMemory.list_move_to_head
  list_move_to_head_lem key l =
      let (l₁, e₁, s₁) =
        drop_first-remove_first (lib.len l) 0 key l [] (as_slice l) refl
          (omega (arith, laws.len_lem l)) refl in
      let (l₂, e₂, s₂) = add_head_lem key l₁ in
      (l₂, rw (e₁, MaxMemory.list_move_to_head) e₂, s₂ ∙ ap (◌∷◌ key) s₁)
