-- ===== src/Select/Selector.antt =====
-- homework_select/select.go: `Selector[T]`.
use myhomework.Common.{
  ℕ, Bytes, text, bytes_eq, List, [], ◌∷◌, Bool, false, Option, none, some, Result, ok, err, ltb,
  if◌then◌else◌,
}
use myhomework.Common.Dict.{lookup}
use myhomework.Writer.{Output, Action, ◌>>◌, skip, fail, write_string, write_byte, add_args}
use myhomework.Select.Expression.{
  Column, Aggregate, Expression, nil, column, value, predicate, raw_expr, aggregate, other,
  Predicate, Selectable, foreign, OrderBy, as_expression, is_predicate, join, c,
}

-- `R` is the type of the errors of the model registry.
pub data Error (R : Type 0) : Type 0 where
  registry : R → Error R
  unknown_field : Bytes → Error R
  unsupported_expression : Error R

-- What the builder reads of `model.Model` and `model.Field`.
pub record Field : Type 0 where
  pub col_name : Bytes

pub record Model : Type 0 where
  pub table_name : Bytes
  pub field_map : List (Bytes × Field)

pub record Query {ℓ} (V : Type ℓ) : Type ℓ where
  pub sql : Bytes
  pub args : List V

-- Go's `int`.
pub data ℤ : Type 0 where
  pos : ℕ → ℤ
  negsuc : ℕ → ℤ

-- `n > 0`
abbrev pub is_positive : ℤ → Bool
is_positive (pos n) = ltb 0 n
is_positive (negsuc n) = false

-- `out` holds the fields `sb` and `args`; `conditions` is the field `where`. `db` and `model` are what
-- `build` is given.
pub record Selector {ℓ} (V : Type ℓ) : Type ℓ where
  pub out : Output V
  pub columns : List (Selectable V)
  pub table : Bytes
  pub conditions : List (Predicate V)
  pub having : List (Predicate V)
  pub order_by : List OrderBy
  pub group_by : List Column
  pub offset : ℤ
  pub limit : ℤ

module _ {ℓ} {V : Type ℓ} {R : Type 0} where
  unfoldable pub build_alias : Bytes → Action (Error R) V
  build_alias alias =
      if bytes_eq alias []
      then skip
      else (do write_string (text " AS `"); write_string alias; write_byte b'`')

  -- `buildColumn` behind the look-up of the field.
  unfoldable pub build_found : Column → Option Field → Action (Error R) V
  unfolding build_alias
  build_found col none = fail (unknown_field col.name)
  build_found col (some fd) = do write_string fd.col_name; write_byte b'`'; build_alias col.alias

  unfoldable pub build_column : Model → Column → Action (Error R) V
  unfolding build_found
  build_column md col = do write_byte b'`'; build_found col (lookup col.name md.field_map)

  -- The cases of an aggregate in `buildExpression` and in `buildColumns`.
  unfoldable pub build_aggregate : Model → Aggregate → Action (Error R) V
  unfolding build_column build_alias
  build_aggregate md a = do
    write_string a.fn
    write_byte b'('
    build_column md (c a.arg)
    write_byte b')'
    build_alias a.alias

  unfoldable pub build_op : Bytes → Action (Error R) V
  build_op op =
      if bytes_eq op [] then skip else (do write_byte b' '; write_string op; write_byte b' ')

  unfoldable pub build_expression : Model → Expression V → Action (Error R) V
  unfolding build_aggregate build_column build_op
  build_expression md nil = skip
  build_expression md (column col) = build_column md (record col { alias = [] })
  build_expression md (value v) = do write_byte b'?'; add_args (v ∷ [])
  build_expression md (predicate left op right) = do
    if is_predicate left then write_byte b'(' else skip
    build_expression md left
    if is_predicate left then write_byte b')' else skip
    build_op op
    if is_predicate right then write_byte b'(' else skip
    build_expression md right
    if is_predicate right then write_byte b')' else skip
  build_expression md (raw_expr r) = do
    write_byte b'('
    write_string r.raw
    add_args r.args
    write_byte b')'
  build_expression md (aggregate a) = build_aggregate md a
  build_expression md other = fail unsupported_expression

  -- One round of the loop of `buildColumns`, behind the comma.
  unfoldable pub build_selectable : Model → Selectable V → Action (Error R) V
  unfolding build_aggregate build_column
  build_selectable md (column col) = build_column md col
  build_selectable md (aggregate a) = build_aggregate md a
  build_selectable md (raw_expr r) = do write_string r.raw; add_args r.args
  build_selectable md foreign = skip

  -- The rounds behind the first of a loop that writes a comma in front of all but the first item.
  unfoldable pub build_more {κ} :
      {A : Type κ} → (A → Action (Error R) V) → List A → Action (Error R) V
  build_more write [] = skip
  build_more write (a ∷ more) = do write_byte b','; write a; build_more write more

  unfoldable pub build_columns : Model → List (Selectable V) → Action (Error R) V
  unfolding build_selectable build_more
  build_columns md [] = write_byte b'*'
  build_columns md (col ∷ cols) = do build_selectable md col; build_more (build_selectable md) cols

  unfoldable pub build_table : Model → Bytes → Action (Error R) V
  build_table md table =
      if bytes_eq table []
      then (do write_byte b'`'; write_string md.table_name; write_byte b'`')
      else write_string table

  -- The clauses WHERE and HAVING, by the word that they begin with.
  unfoldable pub build_conditions : Bytes → Model → List (Predicate V) → Action (Error R) V
  unfolding build_expression
  build_conditions word md [] = skip
  build_conditions word md (p ∷ ps) = do
    write_string word
    build_expression md (as_expression (join p ps))

  unfoldable pub build_group_by : Model → List Column → Action (Error R) V
  unfolding build_column build_more
  build_group_by md [] = skip
  build_group_by md (col ∷ cols) = do
    write_string (text " GROUP BY ")
    build_column md col
    build_more (build_column md) cols

  unfoldable pub build_order : Model → OrderBy → Action (Error R) V
  unfolding build_column
  build_order md o = do build_column md (c o.column_name); write_string (b' ' ∷ o.order)

  unfoldable pub build_order_by : Model → List OrderBy → Action (Error R) V
  unfolding build_order build_more
  build_order_by md [] = skip
  build_order_by md (o ∷ os) = do
    write_string (text " ORDER BY ")
    build_order md o
    build_more (build_order md) os

  -- The clauses LIMIT and OFFSET, by their text; `any_of` makes an `any` of an `int`.
  unfoldable pub build_bound : Bytes → (ℤ → V) → ℤ → Action (Error R) V
  build_bound word any_of n =
      if is_positive n then (do write_string word; add_args (any_of n ∷ [])) else skip

  -- The statements of `Build` behind the call of the registry, before the `Query` is made.
  unfoldable pub build_statement : (ℤ → V) → Model → Selector V → Action (Error R) V
  unfolding build_columns build_table build_conditions build_group_by build_order_by build_bound
  build_statement any_of md s = do
    write_string (text "SELECT ")
    build_columns md s.columns
    write_string (text " FROM ")
    build_table md s.table
    build_conditions (text " WHERE ") md s.conditions
    build_group_by md s.group_by
    build_conditions (text " HAVING ") md s.having
    build_order_by md s.order_by
    build_bound (text " LIMIT ?") any_of s.limit
    build_bound (text " OFFSET ?") any_of s.offset
    write_string (text ";")

  unfoldable pub result : Output V × Option (Error R) → Result (Error R) (Query V)
  result (o, none) = ok (record { sql = o.sb; args = o.args })
  result (o, some e) = err e

  -- `Build`; `got` is what the registry returns for `T`.
  unfoldable pub build :
      (ℤ → V) → Result R Model → Selector V → Selector V × Result (Error R) (Query V)
  unfolding build_statement result
  build any_of (err e) s = (s, err (registry e))
  build any_of (ok md) s =
      let r = build_statement any_of md s s.out in (record s { out = r.0 }, result r)

module _ {ℓ} {V : Type ℓ} where
  -- `NewSelector`
  abbrev pub new_selector : Selector V
  new_selector = record {
    out = record { sb = []; args = [] };
    columns = [];
    table = [];
    conditions = [];
    having = [];
    order_by = [];
    group_by = [];
    offset = pos 0;
    limit = pos 0;
  }

  abbrev pub select : List (Selectable V) → Selector V → Selector V
  select cols s = record s { columns = cols }

  abbrev pub from : Bytes → Selector V → Selector V
  from table s = record s { table = table }

  -- `Where`
  abbrev pub filtered : List (Predicate V) → Selector V → Selector V
  filtered ps s = record s { conditions = ps }

  abbrev pub grouped_by : List Column → Selector V → Selector V
  grouped_by cols s = record s { group_by = cols }

  -- `Having`
  abbrev pub having_all : List (Predicate V) → Selector V → Selector V
  having_all ps s = record s { having = ps }

  -- `Offset`
  abbrev pub with_offset : ℤ → Selector V → Selector V
  with_offset n s = record s { offset = n }

  -- `Limit`
  abbrev pub with_limit : ℤ → Selector V → Selector V
  with_limit n s = record s { limit = n }

  -- `OrderBy`
  abbrev pub ordered_by : List OrderBy → Selector V → Selector V
  ordered_by os s = record s { order_by = os }
