-- ===== src/Orm/Shapes.antt =====
-- What the shape of an expression, of a list of conditions, of a table, of a limit and of a query's
-- text makes of the text of a statement of homework_subquery, and the tests of builder.go and
-- select.go for these shapes.
use myhomework.Common.{
  ℕ, Bytes, ◌≡◌, refl, List, [], ◌∷◌, ◌++◌, true, not, Option, none, some, if◌then◌else◌, zero, suc,
  ltb, text, arith,
}
use myhomework.Writer.Laws.{enclosed}
use myhomework.Orm.Expression.{
  Setting, ℤ, pos, negsuc, TableReference, no_table, table, join, subquery_table, Expression, nil,
  column, aggregate, value, raw_expr, binary, subquery, subquery_expr, other, predicate, Conditions,
  no_more, cond,
}
use myhomework.Orm.Methods.{table_alias}
use myhomework.Orm.Builder.{drop_last, is_binary, is_nil, join_predicates}
use myhomework.Orm.Selector.{is_positive}

-- A text without its last byte; `b` is its first one.
unfoldable pub without_last : (b : ℕ) → Bytes → Bytes
without_last b [] = []
without_last b (c ∷ s) = b ∷ without_last c s

abbrev pub cut_text : Bytes → Option Bytes
cut_text [] = none
cut_text (b ∷ s) = some (without_last b s)

-- A clause that a number of one or more brings, such as LIMIT.
abbrev pub for_positive : {A : Type 0} → ℤ → List A → List A
for_positive (pos zero) clause = []
for_positive (pos (suc n)) clause = clause
for_positive (negsuc n) clause = []

module _ {k : Setting} where
  -- The name that the columns of a table are qualified with; without one they stand alone.
  abbrev pub qualified_by : TableReference k → Bytes
  qualified_by (table entity alias) = alias
  qualified_by (subquery_table sub) = sub.alias
  qualified_by (TableReference.foreign alias) = alias
  qualified_by _ = []

  -- The left operand with its text: an operation stands in parentheses.
  abbrev pub left_text : Expression k → Bytes → Bytes
  left_text (binary kind left op right) s = b'(' ∷ (s ++ b')' ∷ [])
  left_text _ s = s

  -- The right operand, behind a space unless there is none.
  abbrev pub right_text : Expression k → Bytes → Bytes
  right_text nil s = s
  right_text (binary kind left op right) s = b' ' ∷ b'(' ∷ (s ++ b')' ∷ [])
  right_text _ s = b' ' ∷ s

  -- Conditions behind `p`, each joined to all in front of it.
  unfoldable pub conjoined : Expression k → Conditions k → Expression k
  conjoined p no_more = p
  conjoined p (cond left op right rest) =
      conjoined (binary predicate p (text "AND") (binary predicate left op right)) rest

  pub table_alias_lem : (t : TableReference k) → table_alias t ≡ qualified_by t
  table_alias_lem no_table = refl
  table_alias_lem (table entity alias) = refl
  table_alias_lem (join left typ right on using) = refl
  table_alias_lem (subquery_table sub) = refl
  table_alias_lem (TableReference.foreign alias) = refl

  pub left_text_lem : (e : Expression k) (s : Bytes) → enclosed (is_binary e) s ≡ left_text e s
  left_text_lem nil s = refl
  left_text_lem (column t name alias) s = refl
  left_text_lem (aggregate t fn arg alias) s = refl
  left_text_lem (value v) s = refl
  left_text_lem (raw_expr r) s = refl
  left_text_lem (binary kind left op right) s = refl
  left_text_lem (subquery sub) s = refl
  left_text_lem (subquery_expr sub pred) s = refl
  left_text_lem other s = refl

  pub right_text_lem :
      (e : Expression k) (s : Bytes)
      → (if not (is_nil e) then b' ' ∷ [] else []) ++ enclosed (is_binary e) s ≡ right_text e s
  right_text_lem nil s = refl
  right_text_lem (column t name alias) s = refl
  right_text_lem (aggregate t fn arg alias) s = refl
  right_text_lem (value v) s = refl
  right_text_lem (raw_expr r) s = refl
  right_text_lem (binary kind left op right) s = refl
  right_text_lem (subquery sub) s = refl
  right_text_lem (subquery_expr sub pred) s = refl
  right_text_lem other s = refl

  pub join_predicates_lem :
      (p : Expression k) (ps : Conditions k) → join_predicates p ps ≡ conjoined p ps
  unfolding join_predicates conjoined
  join_predicates_lem p no_more = refl
  join_predicates_lem p (cond left op right rest) =
      join_predicates_lem (binary predicate p (text "AND") (binary predicate left op right)) rest

pub drop_last_lem : (s : Bytes) → drop_last s ≡ cut_text s
unfolding drop_last without_last
drop_last_lem [] = refl
drop_last_lem (b ∷ []) = refl
drop_last_lem (b ∷ c ∷ s) = rw (drop_last_lem (c ∷ s)) refl

positive : (n : ℕ) → ltb 0 (suc n) ≡ true
positive n = ground arith

pub for_positive_lem :
    {A : Type 0} (n : ℤ) (clause : List A)
    → (if is_positive n then clause else []) ≡ for_positive n clause
for_positive_lem (pos zero) clause = refl
for_positive_lem (pos (suc n)) clause = rw (positive n) refl
for_positive_lem (negsuc n) clause = refl
