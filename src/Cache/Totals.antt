-- ===== src/Cache/Totals.antt =====
-- The bytes that a map of the cache holds.
use myhomework.Common.{
  ℕ, ◌+◌, ◌≤◌, Bytes, bytes_eq, ◌≡◌, refl, List, [], ◌∷◌, Option, none, some, length, arith,
  Bool-cases, inl, inr, ap,
}
use myhomework.Common.Dict.{lookup, insert, erase}
use myhomework.Cache.MapCache.{Item}

abbrev pub size : Option Item → ℕ
size none = 0
size (some itm) = length itm.val

-- One for a key of the map.
abbrev pub present : Option Item → ℕ
present none = 0
present (some itm) = 1

unfoldable pub total : List (Bytes × Item) → ℕ
total [] = 0
total ((k, itm) ∷ m) = length itm.val + total m

pub total-insert :
    (key : Bytes) (itm : Item) (m : List (Bytes × Item))
    → total (insert key itm m) + size (lookup key m) ≡ total m + length itm.val
unfolding total insert lookup
total-insert key itm [] = omega arith
total-insert key itm ((k, old) ∷ m) = ground (arith, total-insert key itm m)

pub total-erase :
    (key : Bytes) (m : List (Bytes × Item)) → total (erase key m) + size (lookup key m) ≡ total m
unfolding total erase lookup
total-erase key [] = omega arith
total-erase key ((k, old) ∷ m) = ground (arith, total-erase key m)

pub erase_missing : (key : Bytes) (m : List (Bytes × Item)) → lookup key m ≡ none → erase key m ≡ m
unfolding erase lookup
erase_missing key [] h = refl
erase_missing key ((k, old) ∷ m) h = elim (Bool-cases (bytes_eq k key)) [
  | inl e ↦ absurd (ground (arith, h, e))
  | inr e ↦ rw e (ap (◌∷◌ (k, old)) (erase_missing key m (rw e at h)))
]

pub size-le-total : (key : Bytes) (m : List (Bytes × Item)) → size (lookup key m) ≤ total m
size-le-total key m = omega (arith, total-erase key m)
