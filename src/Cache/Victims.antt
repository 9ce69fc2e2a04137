-- ===== src/Cache/Victims.antt =====
-- The keys that `Set` of the memory-limited cache deletes to make room, counted from the end of the
-- list, and the bytes that they free.
use myhomework.Common.{
  ℕ, zero, suc, ◌+◌, ◌≤◌, Bytes, bytes_eq, bytes_eq_iff, ◌≡◌, refl, ap, ◌∙◌, List, [], ◌∷◌, ◌++◌,
  true, length, arith,
}
use mathlib.Core.List.{reverse, reverse-append}
use myhomework.Common.Dict.{lookup, erase, HasDistinctKeys, HasDistinctKeys-erase, lookup-erase}
use myhomework.Cache.MapCache.{Item}
use myhomework.Cache.Keys.{count, remove_first}
use myhomework.Cache.Totals.{size, total, total-erase}

-- The bytes under the keys.
unfoldable pub bytes_of : List (Bytes × Item) → List Bytes → ℕ
bytes_of m [] = 0
bytes_of m (key ∷ keys) = size (lookup key m) + bytes_of m keys

pub bytes_of-append :
    (m : List (Bytes × Item)) (xs ys : List Bytes)
    → bytes_of m (xs ++ ys) ≡ bytes_of m xs + bytes_of m ys
unfolding bytes_of
bytes_of-append m [] ys = omega arith
bytes_of-append m (x ∷ xs) ys = omega (arith, bytes_of-append m xs ys)

pub count-append :
    (key : Bytes) (xs ys : List Bytes) → count key (xs ++ ys) ≡ count key xs + count key ys
unfolding count
count-append key [] ys = omega arith
count-append key (x ∷ xs) ys = omega (arith, count-append key xs ys)

pub count-reverse : (key : Bytes) (xs : List Bytes) → count key (reverse xs) ≡ count key xs
unfolding count
count-reverse key [] = refl
count-reverse key (x ∷ xs) =
    ap (count key) (reverse-append (x ∷ []) xs)
    ∙ omega (arith, count-append key (reverse xs) (x ∷ []), count-reverse key xs)

-- A key that is not among them may go before.
pub bytes_of-erase :
    (key : Bytes) (m : List (Bytes × Item)) (keys : List Bytes)
    → HasDistinctKeys m
    → count key keys ≡ 0
    → bytes_of (erase key m) keys ≡ bytes_of m keys
unfolding bytes_of count
bytes_of-erase key m [] d h = refl
bytes_of-erase key m (k ∷ keys) d h =
    ground (arith, lookup-erase key k m d, bytes_of-erase key m keys d)

-- Different keys hold no more than the whole map.
pub bytes_of-le-total :
    (m : List (Bytes × Item)) (keys : List Bytes)
    → HasDistinctKeys m
    → ((k : Bytes) → count k keys ≤ 1)
    → bytes_of m keys ≤ total m
unfolding bytes_of count
bytes_of-le-total m [] d h = omega arith
bytes_of-le-total m (key ∷ keys) d h =
    let same : bytes_eq key key ≡ true = (bytes_eq_iff key key).1 refl in
    let once : count key keys ≡ 0 = ground (arith, h key, same) in
    let ih =
      bytes_of-le-total (erase key m) keys (HasDistinctKeys-erase key m d) (λ k. less k (h k)) in
    omega (arith, bytes_of-erase key m keys d once, total-erase key m, ih)
  where
    less : (k : Bytes) → count k (key ∷ keys) ≤ 1 → count k keys ≤ 1
    less k p = omega (arith, p)

-- A list that is not empty has a last key.
pub last_of :
    (n : ℕ) (keys : List Bytes)
    → length keys ≡ suc n
    → (front : List Bytes) × (key : Bytes) × (keys ≡ front ++ key ∷ []) × (length front ≡ n)
last_of n [] h = absurd (omega arith)
last_of n (k ∷ []) h = ([], k, refl, omega arith)
last_of zero (k ∷ j ∷ keys) h = absurd (omega arith)
last_of (suc n) (k ∷ j ∷ keys) h =
    let (front, key, e, q) = last_of n (j ∷ keys) (omega arith) in
    (k ∷ front, key, ap (◌∷◌ k) e, omega arith)

pub remove_first_last :
    (key : Bytes) (keys : List Bytes)
    → count key keys ≡ 0
    → remove_first key (keys ++ key ∷ []) ≡ keys
unfolding count remove_first
remove_first_last key [] h = rw ((bytes_eq_iff key key).1 refl)
remove_first_last key (k ∷ keys) h = ground (arith, remove_first_last key keys)
