-- ===== src/Cache/Keys.antt =====
-- What the loops of max_memory_cache.go do to the keys of the linked list.
use myhomework.Common.{
  ℕ, ◌+◌, ◌-◌, ◌≤◌, Bytes, bytes_eq, bytes_eq_iff, ◌≡◌, refl, ap, List, [], ◌∷◌, ◌++◌, some,
  if◌then◌else◌, length, get_elem?, remove_at, arith,
}

-- How often a key is listed.
unfoldable pub count : Bytes → List Bytes → ℕ
count key [] = 0
count key (k ∷ keys) = (if bytes_eq key k then 1 else 0) + count key keys

-- The list without the first place of the key.
unfoldable pub remove_first : Bytes → List Bytes → List Bytes
remove_first key [] = []
remove_first key (k ∷ keys) = if bytes_eq key k then keys else k ∷ remove_first key keys

-- What the callback's loop keeps: behind a key that it removes it passes over the next one.
unfoldable pub purge : Bytes → List Bytes → List Bytes
purge key [] = []
purge key (k ∷ []) = if bytes_eq key k then [] else k ∷ []
purge key (k ∷ j ∷ keys) =
    let passed = j ∷ purge key keys in
    let kept = k ∷ purge key (j ∷ keys) in if bytes_eq key k then passed else kept

pub count-remove_first :
    (k key : Bytes) (keys : List Bytes)
    → count k (remove_first key keys) ≡ count k keys - (if bytes_eq key k then 1 else 0)
unfolding count remove_first
count-remove_first k key [] = ground arith
count-remove_first k key (j ∷ keys) =
    ground (
      arith,
      bytes_eq_iff key k,
      bytes_eq_iff key j,
      bytes_eq_iff k j,
      count-remove_first k key keys,
    )

pub remove_first_absent :
    (key : Bytes) (keys : List Bytes) → count key keys ≡ 0 → remove_first key keys ≡ keys
unfolding count remove_first
remove_first_absent key [] h = refl
remove_first_absent key (k ∷ keys) h = ground (arith, remove_first_absent key keys)

-- Without the key nothing is removed.
purge_absent : (key : Bytes) (keys : List Bytes) → count key keys ≡ 0 → purge key keys ≡ keys
unfolding count purge
purge_absent key [] h = refl
purge_absent key (k ∷ []) h = ground arith
purge_absent key (k ∷ j ∷ keys) h = ground (arith, purge_absent key (j ∷ keys))

pub purge-remove_first :
    (key : Bytes) (keys : List Bytes) → count key keys ≤ 1 → purge key keys ≡ remove_first key keys
unfolding count purge remove_first
purge-remove_first key [] h = refl
purge-remove_first key (k ∷ []) h = ground arith
purge-remove_first key (k ∷ j ∷ keys) h =
    ground (arith, purge_absent key keys, purge-remove_first key (j ∷ keys))

pub get_elem?-append :
    (front : List Bytes) (key : Bytes) (back : List Bytes)
    → get_elem? (front ++ key ∷ back) (length front) ≡ some key
get_elem?-append [] key back = refl
get_elem?-append (k ∷ front) key back = get_elem?-append front key back

pub remove_at-append :
    (front : List Bytes) (key : Bytes) (back : List Bytes)
    → remove_at (front ++ key ∷ back) (length front) ≡ front ++ back
remove_at-append [] key back = refl
remove_at-append (k ∷ front) key back = ap (◌∷◌ k) (remove_at-append front key back)
