-- ===== src/Registry/Naming.antt =====
-- homework_subquery/model/registry.go: `underscoreName` and `parseTag`.
use myhomework.Common.{
  ℕ, ◌%◌, Bytes, text, bytes_eq, split_byte, Bool, List, [], ◌∷◌, Option, none, some, Result, ok,
  err, if◌then◌else◌,
}
use myhomework.Common.Dict.{lookup, insert}

-- The runes over which `range` goes in a string, and two functions of the package unicode.
pub record Letters : Type 0 where
  pub runes : Bytes → List ℕ
  pub is_upper : ℕ → Bool
  pub to_lower : ℕ → ℕ

-- The errors of the package; `returned` is one that an option of the caller returns.
pub data Error (E : Type 0) : Type 0 where
  pointer_only : Error E
  invalid_tag_content : Bytes → Error E
  unknown_field : Bytes → Error E
  returned : E → Error E

-- The rounds of `underscoreName` behind the first; `byte(v)` is the remainder.
unfoldable pub underscore_rest : Letters → List ℕ → Bytes
underscore_rest u [] = []
underscore_rest u (v ∷ vs) =
    let rest = underscore_rest u vs in
    if u.is_upper v then b'_' ∷ u.to_lower v % 256 ∷ rest else v % 256 ∷ rest

unfoldable pub underscore_runes : Letters → List ℕ → Bytes
unfolding underscore_rest
underscore_runes u [] = []
underscore_runes u (v ∷ vs) =
    (if u.is_upper v then u.to_lower v else v) % 256 ∷ underscore_rest u vs

unfoldable pub underscore_name : Letters → Bytes → Bytes
unfolding underscore_runes
underscore_name u s = underscore_runes u (u.runes s)

-- `kv`, if it has two parts.
abbrev pub two_parts : List Bytes → Option (Bytes × Bytes)
two_parts [] = none
two_parts (a ∷ []) = none
two_parts (a ∷ b ∷ []) = some (a, b)
two_parts (a ∷ b ∷ c ∷ ss) = none

module _ {E : Type 0} where
  -- The loop of `parseTag` over the pairs.
  unfoldable pub parse_pairs :
      List Bytes → List (Bytes × Bytes) → Result (Error E) (List (Bytes × Bytes))
  parse_pairs [] res = ok res
  parse_pairs (pair ∷ pairs) res = elim (two_parts (split_byte b'=' pair)) [
    | none ↦ err (invalid_tag_content pair)
    | some (key, value) ↦ parse_pairs pairs (insert key value res)
  ]

  -- `parseTag`; the argument is `tag.Get("orm")`.
  unfoldable pub parse_tag : Bytes → Result (Error E) (List (Bytes × Bytes))
  unfolding parse_pairs
  parse_tag [] = ok []
  parse_tag (b ∷ s) = parse_pairs (split_byte b',' (b ∷ s)) []

-- `colName` in `parseModel`, from the field's name and its tags.
unfoldable pub column_name : Letters → Bytes → List (Bytes × Bytes) → Bytes
unfolding underscore_name
column_name u name tags = elim (lookup (text "column") tags) [
  | none ↦ underscore_name u name
  | some c ↦ if bytes_eq c [] then underscore_name u name else c
]
