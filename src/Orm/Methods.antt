-- ===== src/Orm/Methods.antt =====
-- homework_subquery/column.go, predicate.go, aggregate.go, expression.go, table.go and assignment.go:
-- the functions and methods that put the parts of a statement together.
use myhomework.Common.{Bytes, text, List, [], ◌∷◌}
use myhomework.Orm.Expression.{
  Setting, RawExpr, Subquery, TableReference, no_table, table, join, subquery_table, foreign,
  Expression, nil, column, aggregate, value, raw_expr, binary, subquery, subquery_expr, math_expr,
  predicate, Conditions, no_more, cond, Predicate, Column, Aggregate, Selectable, Assignable,
  assignment, Arg, expression, plain,
}

-- `Join`, `LeftJoin` and `RightJoin`, by the word that they put into the `JoinBuilder`.
abbrev pub inner_join : Bytes
inner_join = text "JOIN"

abbrev pub left_join : Bytes
left_join = text "LEFT JOIN"

abbrev pub right_join : Bytes
right_join = text "RIGHT JOIN"

module _ {k : Setting} where
  abbrev pub as_expression : Predicate k → Expression k
  as_expression p = binary predicate p.left p.op p.right

  abbrev pub conditions_of : List (Predicate k) → Conditions k
  conditions_of [] = no_more
  conditions_of (p ∷ ps) = cond p.left p.op p.right (conditions_of ps)

  abbrev pub c : Bytes → Column k
  c name = record { table = no_table; name = name; alias = [] }

  -- `Column.As`: the table is not kept.
  abbrev pub column_as : Bytes → Column k → Column k
  column_as alias col = record { table = no_table; name = col.name; alias = alias }

  -- `Aggregate.As`: the table is not kept.
  abbrev pub aggregate_as : Bytes → Aggregate k → Aggregate k
  aggregate_as alias a = record { table = no_table; fn = a.fn; arg = a.arg; alias = alias }

  abbrev pub column_expr : Column k → Expression k
  column_expr col = column col.table col.name col.alias

  abbrev pub aggregate_expr : Aggregate k → Expression k
  aggregate_expr a = aggregate a.table a.fn a.arg a.alias

  abbrev pub expr_of : Arg k → Expression k
  expr_of (expression e) = e
  expr_of (plain v) = value v

  abbrev pub column_add : k.Value → Column k → Expression k
  column_add delta col = binary math_expr (column_expr col) (text "+") (value delta)

  -- `Column.Multi`: the operator is that of `Add`.
  abbrev pub column_multi : k.Value → Column k → Expression k
  column_multi delta col = binary math_expr (column_expr col) (text "+") (value delta)

  -- `MathExpr.Add` and `MathExpr.Multi`
  abbrev pub math_add : k.Value → Expression k → Expression k
  math_add v m = binary math_expr m (text "+") (value v)

  abbrev pub math_multi : k.Value → Expression k → Expression k
  math_multi v m = binary math_expr m (text "*") (value v)

  abbrev pub compare : Bytes → Expression k → Expression k → Predicate k
  compare op left right = record { left = left; op = op; right = right }

  abbrev pub column_eq : Column k → Arg k → Predicate k
  column_eq col arg = compare (text "=") (column_expr col) (expr_of arg)

  abbrev pub column_lt : Column k → Arg k → Predicate k
  column_lt col arg = compare (text "<") (column_expr col) (expr_of arg)

  abbrev pub column_gt : Column k → Arg k → Predicate k
  column_gt col arg = compare (text ">") (column_expr col) (expr_of arg)

  abbrev pub column_in : Column k → List k.Value → Predicate k
  column_in col vals = compare (text "IN") (column_expr col) (value (k.value_of_list vals))

  abbrev pub in_query : Column k → Subquery k → Predicate k
  in_query col sub = compare (text "IN") (column_expr col) (subquery sub)

  abbrev pub aggregate_eq : Aggregate k → Arg k → Predicate k
  aggregate_eq a arg = compare (text "=") (aggregate_expr a) (expr_of arg)

  abbrev pub aggregate_lt : Aggregate k → Arg k → Predicate k
  aggregate_lt a arg = compare (text "<") (aggregate_expr a) (expr_of arg)

  abbrev pub aggregate_gt : Aggregate k → Arg k → Predicate k
  aggregate_gt a arg = compare (text ">") (aggregate_expr a) (expr_of arg)

  abbrev pub aggregate_of : Bytes → Bytes → Aggregate k
  aggregate_of fn col = record { table = no_table; fn = fn; arg = col; alias = [] }

  abbrev pub avg : Bytes → Aggregate k
  avg = aggregate_of (text "AVG")

  abbrev pub max : Bytes → Aggregate k
  max = aggregate_of (text "MAX")

  abbrev pub min : Bytes → Aggregate k
  min = aggregate_of (text "MIN")

  abbrev pub count : Bytes → Aggregate k
  count = aggregate_of (text "COUNT")

  abbrev pub sum : Bytes → Aggregate k
  sum = aggregate_of (text "SUM")

  abbrev pub exist : Subquery k → Predicate k
  exist sub = compare (text "EXIST") nil (subquery sub)

  abbrev pub negate : Predicate k → Predicate k
  negate p = compare (text "NOT") nil (as_expression p)

  abbrev pub and : Predicate k → Predicate k → Predicate k
  and p r = compare (text "AND") (as_expression p) (as_expression r)

  abbrev pub or : Predicate k → Predicate k → Predicate k
  or p r = compare (text "OR") (as_expression p) (as_expression r)

  abbrev pub raw : Bytes → List k.Value → RawExpr k
  raw expr args = record { raw = expr; args = args }

  abbrev pub as_predicate : RawExpr k → Predicate k
  as_predicate r = compare [] (raw_expr r) nil

  -- `Any`, `All` and `Some`
  abbrev pub any_of : Subquery k → Expression k
  any_of sub = subquery_expr sub (text "ANY ")

  abbrev pub all_of : Subquery k → Expression k
  all_of sub = subquery_expr sub (text "ALL ")

  abbrev pub some_of : Subquery k → Expression k
  some_of sub = subquery_expr sub (text "SOME ")

  -- `Assign`
  abbrev pub assign : Bytes → Arg k → Assignable k
  assign col val = assignment col (expr_of val)

  -- `fieldName`
  abbrev pub field_name : Selectable k → Bytes
  field_name (column col) = col.name
  field_name (aggregate a) = a.arg
  field_name (raw_expr r) = []
  field_name (foreign name) = name

  abbrev pub field_names : List (Selectable k) → List Bytes
  field_names [] = []
  field_names (s ∷ ss) = field_name s ∷ field_names ss

  -- `tableAlias`; nil has none.
  abbrev pub table_alias : TableReference k → Bytes
  table_alias no_table = []
  table_alias (table entity alias) = alias
  table_alias (join left typ right on using) = []
  table_alias (subquery_table sub) = sub.alias
  table_alias (foreign alias) = alias

  abbrev pub table_of : k.Entity → TableReference k
  table_of entity = table entity []

  -- `Table.As`, at a table.
  abbrev pub table_as : Bytes → k.Entity → TableReference k
  table_as alias entity = table entity alias

  -- `C` of `Table` and `Subquery`
  abbrev pub column_in_table : TableReference k → Bytes → Column k
  column_in_table t name = record { table = t; name = name; alias = [] }

  -- A `JoinBuilder` with `On` and with `Using`.
  abbrev pub join_on :
      Bytes → TableReference k → TableReference k → List (Predicate k) → TableReference k
  join_on typ left right ps = join left typ right (conditions_of ps) []

  abbrev pub join_using :
      Bytes → TableReference k → TableReference k → List Bytes → TableReference k
  join_using typ left right cs = join left typ right no_more cs
