-- ===== src/Cache/LinkedList.antt =====
-- The linked list of the package ekit/list, which the memory-limited cache keeps its keys in: what
-- the cache calls of it, and what it relies on. The package is not part of the repository.
use myhomework.Common.{
  ℕ, ◌<◌, Bytes, List, [], ◌∷◌, ◌≡◌, Option, some, length, get_elem?, remove_at,
}

-- `none` is the error of an index out of range. `delete` drops the value that Go returns beside it.
pub record LinkedList : Type 1 where
  pub Keys : Type 0
  pub new : Keys
  pub len : Keys → ℕ
  pub get : Keys → ℕ → Option Bytes
  pub delete : Keys → ℕ → Option Keys
  pub add : Keys → ℕ → Bytes → Option Keys
  pub as_slice : Keys → List Bytes

-- The documented behaviour, by `AsSlice`.
pub record IsLawful (lib : LinkedList) : Type 0 where
  pub new_lem : lib.as_slice lib.new ≡ []
  pub len_lem : (l : lib.Keys) → lib.len l ≡ length (lib.as_slice l)
  pub get_lem : (l : lib.Keys) (i : ℕ) → lib.get l i ≡ get_elem? (lib.as_slice l) i
  pub delete_lem :
      (l : lib.Keys) (i : ℕ)
      → i < length (lib.as_slice l)
      → (l' : lib.Keys) × (lib.delete l i ≡ some l')
        × (lib.as_slice l' ≡ remove_at (lib.as_slice l) i)
  pub add_lem :
      (l : lib.Keys) (key : Bytes)
      → (l' : lib.Keys) × (lib.add l 0 key ≡ some l') × (lib.as_slice l' ≡ key ∷ lib.as_slice l)
