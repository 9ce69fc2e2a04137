-- ===== src/Orm/Selector.antt =====
-- homework_subquery/select.go: `Selector[T]`.
use myhomework.Common.{
  ℕ, Bytes, text, List, [], ◌∷◌, Bool, false, Option, none, some, Result, ok, err, ltb,
  if◌then◌else◌,
}
use myhomework.Orm.Expression.{
  Model, Query, Answer, built, refused, crashed, ℤ, pos, negsuc, Setting, Subquery, TableReference,
  no_table, table, join, subquery_table, foreign, Conditions, no_more, Column, Selectable, column,
  aggregate, raw_expr, Predicate,
}
use myhomework.Orm.Methods.{field_names, conditions_of}
use myhomework.Orm.Builder.{
  Fault, returned, unsupported_expression, unsupported_selectable, panicked, State, Frame, Action,
  drop_last, ◌>>◌, skip, fail, write_string, write_byte, add_args, quote, build_column, build_raw,
  build_as, build_aggregate_as, build_predicates,
}

-- `n > 0`
abbrev pub is_positive : ℤ → Bool
is_positive (pos n) = ltb 0 n
is_positive (negsuc n) = false

-- `sb` and `args` are those of the builder; `conditions` is the field `where`. The session, the
-- registry, the dialect and the model are arguments of `build`.
pub record Selector (k : Setting) : Type 0 where
  pub sb : Bytes
  pub args : List k.Value
  pub table : TableReference k
  pub conditions : Conditions k
  pub having : Conditions k
  pub columns : List (Selectable k)
  pub group_by : List (Column k)
  pub offset : ℤ
  pub limit : ℤ

-- The model that the registry leaves in a subquery, nil on an error.
abbrev pub model_or_nil : {E : Type 0} → Result E Model → Option Model
model_or_nil (err e) = none
model_or_nil (ok m) = some m

module _ {k : Setting} where
  -- `buildColumn` of the selector.
  unfoldable pub build_column_as : Frame → Column k → Action k
  unfolding build_column build_as
  build_column_as f col = do build_column f col.table col.name; build_as f col.alias

  -- One round of the loop of `buildColumns`, behind the comma.
  unfoldable pub build_selectable : Frame → Selectable k → Action k
  unfolding build_column_as build_aggregate_as build_raw
  build_selectable f (column col) = build_column_as f col
  build_selectable f (aggregate a) = build_aggregate_as f a.table a.fn a.arg a.alias
  build_selectable f (raw_expr r) = build_raw r
  build_selectable f (foreign name) = fail unsupported_selectable

  -- The rounds behind the first of a loop that writes a comma in front of all but the first item.
  unfoldable pub build_more : {A : Type 0} → (A → Action k) → List A → Action k
  build_more write [] = skip
  build_more write (a ∷ more) = do write_byte b','; write a; build_more write more

  unfoldable pub build_items : {A : Type 0} → (A → Action k) → List A → Action k
  unfolding build_more
  build_items write [] = skip
  build_items write (a ∷ more) = do write a; build_more write more

  unfoldable pub build_columns : Frame → List (Selectable k) → Action k
  unfolding build_selectable build_items
  build_columns f [] = write_byte b'*'
  build_columns f (col ∷ cols) = build_items (build_selectable f) (col ∷ cols)

  -- The case `Subquery` of `buildTable`, behind the call of `Build`.
  unfoldable pub write_from : Frame → Bytes → List k.Value → Option Bytes → Action k
  unfolding build_as
  write_from f alias args none = fail panicked
  write_from f alias args (some sql) = do
    write_string sql
    write_byte b')'
    build_as f alias
    add_args args

  unfoldable pub from_answer : Frame → Bytes → Answer k.Error k.Value → Action k
  unfolding write_from drop_last
  from_answer f alias (built q) = write_from f alias q.args (drop_last q.sql)
  from_answer f alias (refused e) = fail (returned e)
  from_answer f alias crashed = fail panicked

  unfoldable pub run_from : Frame → Subquery k → Action k
  unfolding from_answer
  run_from f sub st =
      let r = k.run sub.qb st.heap in from_answer f sub.alias r.1 (record st { heap = r.0 })

  unfoldable pub build_entity : Frame → Bytes → Result k.Error Model → Action k
  unfolding quote build_as
  build_entity f alias (err e) = fail (returned e)
  build_entity f alias (ok m) = do quote f m.table_name; build_as f alias

  unfoldable pub build_using : Frame → List Bytes → Action k
  unfolding build_column build_items
  build_using f [] = skip
  build_using f (col ∷ cols) = do
    write_string (text " USING (")
    build_items (build_column f no_table) (col ∷ cols)
    write_string (text ")")

  -- `buildTable`, with `buildJoin` in its place.
  unfoldable pub build_table : Frame → TableReference k → Action k
  unfolding quote run_from build_entity build_using build_predicates
  build_table f no_table = quote f f.model.table_name
  build_table f (subquery_table sub) = do write_byte b'('; run_from f sub
  build_table f (table entity alias) = build_entity f alias (k.get entity)
  build_table f (join left typ right on using) = do
    write_byte b'('
    build_table f left
    write_string (text " ")
    write_string typ
    write_string (text " ")
    build_table f right
    build_using f using
    build_predicates (text " ON ") f on
    write_byte b')'
  build_table f (foreign alias) = fail unsupported_expression

  unfoldable pub build_group_by : Frame → List (Column k) → Action k
  unfolding build_column build_items
  build_group_by f [] = skip
  build_group_by f (col ∷ cols) = do
    write_string (text " GROUP BY ")
    build_items (λ (g : Column k). build_column f g.table g.name) (col ∷ cols)

  -- The clauses LIMIT and OFFSET, by their text.
  unfoldable pub build_bound : Bytes → ℤ → Action k
  build_bound word n =
      if is_positive n then (do write_string word; add_args (k.value_of_int n ∷ [])) else skip

  -- The statements of `Build` behind the call of the registry, before the `Query` is made.
  unfoldable pub build_statement : Frame → Selector k → Action k
  unfolding build_columns build_table build_predicates build_group_by build_bound
  build_statement f s = do
    write_string (text "SELECT ")
    build_columns f s.columns
    write_string (text " FROM ")
    build_table f s.table
    build_predicates (text " WHERE ") f s.conditions
    build_group_by f s.group_by
    build_predicates (text " HAVING ") f s.having
    build_bound (text " LIMIT ?") s.limit
    build_bound (text " OFFSET ?") s.offset
    write_string (text ";")

  unfoldable pub result : State k × Option (Fault k.Error) → Result (Fault k.Error) (Query k.Value)
  result (st, none) = ok (record { sql = st.sb; args = st.args })
  result (st, some e) = err e

  -- `Build`: the selector and the heap behind it, and what it returns. `got` is what the registry
  -- returns for `T`.
  unfoldable pub build :
      ℕ
      → Result k.Error Model
      → Selector k
      → k.Heap
      → (Selector k × k.Heap) × Result (Fault k.Error) (Query k.Value)
  unfolding build_statement result
  build quoter (err e) s heap = ((s, heap), err (returned e))
  build quoter (ok md) s heap =
      let f : Frame = record { quoter = quoter; model = md } in
      let r = build_statement f s (record { sb = s.sb; args = s.args; heap = heap }) in
      ((record s { sb = r.0.sb; args = r.0.args }, r.0.heap), result r)

  -- `NewSelector`
  abbrev pub new_selector : Selector k
  new_selector = record {
    sb = [];
    args = [];
    table = no_table;
    conditions = no_more;
    having = no_more;
    columns = [];
    group_by = [];
    offset = pos 0;
    limit = pos 0;
  }

  abbrev pub select : List (Selectable k) → Selector k → Selector k
  select cols s = record s { columns = cols }

  abbrev pub from : TableReference k → Selector k → Selector k
  from tbl s = record s { table = tbl }

  -- `Where`
  abbrev pub filtered : List (Predicate k) → Selector k → Selector k
  filtered ps s = record s { conditions = conditions_of ps }

  abbrev pub grouped_by : List (Column k) → Selector k → Selector k
  grouped_by cols s = record s { group_by = cols }

  -- `Having`
  abbrev pub having_all : List (Predicate k) → Selector k → Selector k
  having_all ps s = record s { having = conditions_of ps }

  -- `Offset`
  abbrev pub with_offset : ℤ → Selector k → Selector k
  with_offset n s = record s { offset = n }

  -- `Limit`
  abbrev pub with_limit : ℤ → Selector k → Selector k
  with_limit n s = record s { limit = n }

  -- `AsSubquery`: `qb` is this selector behind the interface, and `cell` points to a new empty string.
  abbrev pub as_subquery : k.Builder → ℕ → Result k.Error Model → Bytes → Selector k → Subquery k
  as_subquery qb cell got alias s = record {
    qb = qb;
    alias = alias;
    cell = cell;
    cache_args = [];
    model = model_or_nil got;
    column_names = field_names s.columns;
  }
