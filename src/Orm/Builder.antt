-- ===== src/Orm/Builder.antt =====
-- homework_subquery/builder.go: the methods of `builder`, which all builders of statements embed.
use myhomework.Common.{
  ℕ, Bytes, text, bytes_eq, List, [], ◌∷◌, ◌++◌, Bool, true, false, Option, none, some, Result, ok,
  err, if◌then◌else◌, not,
}
use myhomework.Common.Dict.{lookup}
use myhomework.Orm.Expression.{
  Field, Model, Answer, built, refused, crashed, Setting, RawExpr, Subquery, TableReference,
  no_table, table, join, subquery_table, foreign, Expression, nil, column, aggregate, value,
  raw_expr, binary, subquery, predicate, subquery_expr, other, Conditions, no_more, cond,
}
use myhomework.Orm.Methods.{table_alias}

-- The errors that the builders return, those of other code included, and a run-time panic.
pub data Fault (E : Type 0) : Type 0 where
  returned : E → Fault E
  unknown_field : Bytes → Fault E
  unsupported_expression unsupported_selectable unsupported_assignable : Fault E
  insert_zero_row no_updated_columns : Fault E
  panicked : Fault E

-- The fields `sb` and `args`, and the heap.
pub record State (k : Setting) : Type 0 where
  pub sb : Bytes
  pub args : List k.Value
  pub heap : k.Heap

-- The fields `quoter` and `model`, which do not change while a statement is built.
pub record Frame : Type 0 where
  pub quoter : ℕ
  pub model : Model

abbrev pub Action : Setting → Type 0
Action k = State k → State k × Option (Fault k.Error)

-- `q.SQL[:len(q.SQL)-1]`, a panic at the empty string.
unfoldable pub drop_last : Bytes → Option Bytes
drop_last [] = none
drop_last (b ∷ []) = some []
drop_last (b ∷ c ∷ s) = elim (drop_last (c ∷ s)) [ none ↦ none | some t ↦ some (b ∷ t) ]

-- Whether one of the names is `fd`.
unfoldable pub has_name : Bytes → List Bytes → Bool
has_name fd [] = false
has_name fd (name ∷ names) = if bytes_eq fd name then true else has_name fd names

unfoldable pub subquery_has : Bytes → List Bytes → Bool
unfolding has_name
subquery_has fd [] = true
subquery_has fd (name ∷ names) = has_name fd (name ∷ names)

module _ {E : Type 0} where
  unfoldable pub found_field : Bytes → Option Field → Result (Fault E) Bytes
  found_field fd none = err (unknown_field fd)
  found_field fd (some meta) = ok meta.col_name

  unfoldable pub field_of : Bytes → Result E Model → Result (Fault E) Bytes
  unfolding found_field
  field_of fd (err e) = err (returned e)
  field_of fd (ok m) = found_field fd (lookup fd m.field_map)

  -- The case `Subquery` of `colName` behind the loop over the columns.
  unfoldable pub field_of_subquery : Bytes → Option Model → Result (Fault E) Bytes
  unfolding field_of
  field_of_subquery fd none = err panicked
  field_of_subquery fd (some m) = field_of fd (ok m)

module _ {k : Setting} where
  -- `if err != nil { return err }`
  unfoldable pub continue :
      State k × Option (Fault k.Error) → Action k → State k × Option (Fault k.Error)
  continue (st, none) m = m st
  continue (st, some e) m = (st, some e)

  infixr 5 ◌>>◌
  abbrev pub ◌>>◌ : Action k → Action k → Action k
  ◌>>◌ m n st = continue (m st) n

  abbrev pub skip : Action k
  skip st = (st, none)

  abbrev pub fail : Fault k.Error → Action k
  fail e st = (st, some e)

  unfoldable pub write_string : Bytes → Action k
  write_string s st = (record st { sb = st.sb ++ s }, none)

  unfoldable pub write_byte : ℕ → Action k
  write_byte b st = (record st { sb = st.sb ++ b ∷ [] }, none)

  -- `addArgs`
  unfoldable pub add_args : List k.Value → Action k
  add_args vs st = (record st { args = st.args ++ vs }, none)

  -- What follows a call that returns a value or an error.
  unfoldable pub with_result : {A : Type 0} → Result (Fault k.Error) A → (A → Action k) → Action k
  with_result (err e) next = fail e
  with_result (ok a) next = next a

  unfoldable pub quote : Frame → Bytes → Action k
  quote f name = do write_byte f.quoter; write_string name; write_byte f.quoter

  unfoldable pub col_name : Frame → TableReference k → Bytes → Result (Fault k.Error) Bytes
  unfolding field_of field_of_subquery subquery_has
  col_name f no_table fd = field_of fd (ok f.model)
  col_name f (table entity alias) fd = field_of fd (k.get entity)
  col_name f (subquery_table sub) fd =
      if subquery_has fd sub.column_names
      then field_of_subquery fd sub.model
      else err (unknown_field fd)
  col_name f (join left typ right on using) fd = err unsupported_expression
  col_name f (foreign alias) fd = err unsupported_expression

  unfoldable pub build_qualifier : Frame → Bytes → Action k
  unfolding quote
  build_qualifier f alias = if bytes_eq alias [] then skip else (do quote f alias; write_byte b'.')

  unfoldable pub build_column : Frame → TableReference k → Bytes → Action k
  unfolding build_qualifier col_name with_result quote
  build_column f t fd = do
    build_qualifier f (table_alias t)
    with_result (col_name f t fd) (λ name. quote f name)

  -- `raw`
  unfoldable pub build_raw : RawExpr k → Action k
  build_raw r = do write_string r.raw; add_args r.args

  unfoldable pub build_as : Frame → Bytes → Action k
  unfolding quote
  build_as f alias =
      if bytes_eq alias [] then skip else (do write_string (text " AS "); quote f alias)

  -- `buildAggregate` without an alias, and the alias behind it.
  unfoldable pub build_aggregate : Frame → TableReference k → Bytes → Bytes → Action k
  unfolding build_column
  build_aggregate f t fn arg = do
    write_string fn
    write_byte b'('
    build_column f t arg
    write_byte b')'

  unfoldable pub build_aggregate_as : Frame → TableReference k → Bytes → Bytes → Bytes → Action k
  unfolding build_aggregate build_as
  build_aggregate_as f t fn arg alias = do build_aggregate f t fn arg; build_as f alias

  -- The text of a subquery without its semicolon, in parentheses, and its arguments.
  unfoldable pub write_query : Bytes → List k.Value → Action k
  write_query sql args = do write_byte b'('; write_string sql; add_args args; write_byte b')'

  -- `buildSubQuery` behind the call of `Build`: the text goes into the cell that all copies of the
  -- subquery share, the arguments only into this copy.
  unfoldable pub fill_cache : Subquery k → List k.Value → Option Bytes → Action k
  unfolding write_query
  fill_cache sub args none st = (st, some panicked)
  fill_cache sub args (some sql) st =
      write_query sql args (record st { heap = k.cache sub.cell sql st.heap })

  unfoldable pub answered : Subquery k → Answer k.Error k.Value → Action k
  unfolding fill_cache drop_last
  answered sub (built q) = fill_cache sub q.args (drop_last q.sql)
  answered sub (refused e) = fail (returned e)
  answered sub crashed = fail panicked

  unfoldable pub build_sub_query : Subquery k → Action k
  unfolding answered write_query
  build_sub_query sub st =
      if bytes_eq (k.cached sub.cell st.heap) []
      then (let r = k.run sub.qb st.heap in answered sub r.1 (record st { heap = r.0 }))
      else write_query (k.cached sub.cell st.heap) sub.cache_args st

  -- A call whose error is dropped; a panic is none.
  unfoldable pub drop_error : State k × Option (Fault k.Error) → State k × Option (Fault k.Error)
  drop_error (st, some panicked) = (st, some panicked)
  drop_error (st, _) = (st, none)

  unfoldable pub build_op : Bytes → Action k
  build_op op = if bytes_eq op [] then skip else (do write_byte b' '; write_string op)

  -- The types that `buildSubExpr` puts into parentheses.
  abbrev pub is_binary : Expression k → Bool
  is_binary (binary _ _ _ _) = true
  is_binary _ = false

  abbrev pub is_nil : Expression k → Bool
  is_nil nil = true
  is_nil _ = false

  abbrev pub when : Bool → Action k → Action k
  when b m = if b then m else skip

  -- `buildExpression`. The three binary types are one to `buildBinaryExpr`, which calls `buildSubExpr`
  -- on both sides.
  unfoldable pub build_expression : Frame → Expression k → Action k
  unfolding build_column build_aggregate build_raw build_sub_query drop_error build_op
  build_expression f nil = skip
  build_expression f (column t name alias) = build_column f t name
  build_expression f (aggregate t fn arg alias) = build_aggregate f t fn arg
  build_expression f (value v) = do write_byte b'?'; add_args (v ∷ [])
  build_expression f (raw_expr r) = build_raw r
  build_expression f (binary kind left op right) = do
    when (is_binary left) (write_byte b'(')
    build_expression f left
    when (is_binary left) (write_byte b')')
    build_op op
    when (not (is_nil right)) (write_byte b' ')
    when (is_binary right) (write_byte b'(')
    build_expression f right
    when (is_binary right) (write_byte b')')
  build_expression f (subquery sub) = build_sub_query sub
  build_expression f (subquery_expr sub pred) = do
    write_string pred
    λ st. drop_error (build_sub_query sub st)
  build_expression f other = fail unsupported_expression

  -- The loop of `buildPredicates`; `p` is what has been joined so far.
  unfoldable pub join_predicates : Expression k → Conditions k → Expression k
  join_predicates p no_more = p
  join_predicates p (cond left op right rest) =
      join_predicates (binary predicate p (text "AND") (binary predicate left op right)) rest

  -- `buildPredicates` behind the word of a clause, which is left out where there are no predicates.
  unfoldable pub build_predicates : Bytes → Frame → Conditions k → Action k
  unfolding build_expression join_predicates
  build_predicates word f no_more = skip
  build_predicates word f (cond left op right rest) = do
    write_string word
    build_expression f (join_predicates (binary predicate left op right) rest)
