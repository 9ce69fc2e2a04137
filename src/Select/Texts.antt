-- ===== src/Select/Texts.antt =====
-- The SQL that the parts of a statement stand for, over a model of the table: its text, its
-- arguments, and the first error that the parts hold.
use myhomework.Common.{
  Bytes, text, bytes_eq, List, [], ◌∷◌, ◌++◌, Option, none, some, if◌then◌else◌,
}
use myhomework.Common.Dict.{lookup}
use myhomework.Writer.Outcomes.{or_else}
use myhomework.Writer.Laws.{enclosed}
use myhomework.Select.Expression.{
  Column, Aggregate, Expression, nil, column, value, predicate, raw_expr, aggregate, other,
  Predicate, Selectable, foreign, OrderBy, as_expression, is_predicate, join,
}
use myhomework.Select.Selector.{
  Error, unknown_field, unsupported_expression, Field, Model, ℤ, is_positive, Selector,
}

abbrev pub quoted : Bytes → Bytes
quoted s = b'`' ∷ (s ++ b'`' ∷ [])

abbrev pub alias_text : Bytes → Bytes
alias_text alias = if bytes_eq alias [] then [] else text " AS `" ++ (alias ++ b'`' ∷ [])

-- The column of a field of the model.
abbrev pub column_name : Option Field → Bytes
column_name none = []
column_name (some fd) = fd.col_name

abbrev pub name_text : Model → Bytes → Bytes
name_text md name = quoted (column_name (lookup name md.field_map))

abbrev pub column_text : Model → Column → Bytes
column_text md col = name_text md col.name ++ alias_text col.alias

abbrev pub aggregate_text : Model → Aggregate → Bytes
aggregate_text md a = a.fn ++ b'(' ∷ (name_text md a.arg ++ b')' ∷ alias_text a.alias)

abbrev pub op_text : Bytes → Bytes
op_text op = if bytes_eq op [] then [] else b' ' ∷ (op ++ b' ' ∷ [])

abbrev pub table_text : Model → Bytes → Bytes
table_text md table = if bytes_eq table [] then quoted md.table_name else table

-- Items with commas between them.
abbrev pub commas {κ} : {A : Type κ} → (A → Bytes) → List A → Bytes
commas item [] = []
commas item (a ∷ more) = b',' ∷ (item a ++ commas item more)

abbrev pub order_text : Model → OrderBy → Bytes
order_text md o = name_text md o.column_name ++ b' ' ∷ o.order

abbrev pub group_by_text : Model → List Column → Bytes
group_by_text md [] = []
group_by_text md (col ∷ cols) =
    text " GROUP BY " ++ (column_text md col ++ commas (column_text md) cols)

abbrev pub order_by_text : Model → List OrderBy → Bytes
order_by_text md [] = []
order_by_text md (o ∷ os) = text " ORDER BY " ++ (order_text md o ++ commas (order_text md) os)

abbrev pub bound_text : Bytes → ℤ → Bytes
bound_text word n = if is_positive n then word else []

-- The error for a name that is no field of the model.
abbrev pub missing : {R : Type 0} → Bytes → Option Field → Option (Error R)
missing name none = some (unknown_field name)
missing name (some fd) = none

module _ {R : Type 0} where
  abbrev pub name_error : Model → Bytes → Option (Error R)
  name_error md name = missing name (lookup name md.field_map)

  -- The first error of a list of items.
  abbrev pub errors {κ} : {A : Type κ} → (A → Option (Error R)) → List A → Option (Error R)
  errors error [] = none
  errors error (a ∷ more) = or_else (error a) (errors error more)

module _ {ℓ} {V : Type ℓ} where
  unfoldable pub render : Model → Expression V → Bytes
  render md nil = []
  render md (column col) = name_text md col.name
  render md (value v) = b'?' ∷ []
  render md (predicate left op right) =
      enclosed (is_predicate left) (render md left)
      ++ (op_text op ++ enclosed (is_predicate right) (render md right))
  render md (raw_expr r) = b'(' ∷ (r.raw ++ b')' ∷ [])
  render md (aggregate a) = aggregate_text md a
  render md other = []

  unfoldable pub values : Expression V → List V
  values nil = []
  values (column col) = []
  values (value v) = v ∷ []
  values (predicate left op right) = values left ++ values right
  values (raw_expr r) = r.args
  values (aggregate a) = []
  values other = []

  unfoldable pub selectable_text : Model → Selectable V → Bytes
  selectable_text md (column col) = column_text md col
  selectable_text md (aggregate a) = aggregate_text md a
  selectable_text md (raw_expr r) = r.raw
  selectable_text md foreign = []

  unfoldable pub selectable_values : Selectable V → List V
  selectable_values (column col) = []
  selectable_values (aggregate a) = []
  selectable_values (raw_expr r) = r.args
  selectable_values foreign = []

  abbrev pub columns_text : Model → List (Selectable V) → Bytes
  columns_text md [] = b'*' ∷ []
  columns_text md (col ∷ cols) = selectable_text md col ++ commas (selectable_text md) cols

  abbrev pub columns_values : List (Selectable V) → List V
  columns_values [] = []
  columns_values (col ∷ cols) = selectable_values col ++ columns_values cols

  -- The condition that the list of conditions stands for, as an expression.
  abbrev pub joined : List (Predicate V) → Expression V
  joined [] = nil
  joined (p ∷ ps) = as_expression (join p ps)

  abbrev pub conditions_text : Bytes → Model → List (Predicate V) → Bytes
  conditions_text word md [] = []
  conditions_text word md (p ∷ ps) = word ++ render md (joined (p ∷ ps))

  abbrev pub bound_values : (ℤ → V) → ℤ → List V
  bound_values any_of n = if is_positive n then any_of n ∷ [] else []

  -- The whole statement, clause by clause.
  abbrev pub statement_text : Model → Selector V → Bytes
  statement_text md s =
      text "SELECT "
      ++ (columns_text md s.columns
          ++ (text " FROM "
              ++ (table_text md s.table
                  ++ (conditions_text (text " WHERE ") md s.conditions
                      ++ (group_by_text md s.group_by
                          ++ (conditions_text (text " HAVING ") md s.having
                              ++ (order_by_text md s.order_by
                                  ++ (bound_text (text " LIMIT ?") s.limit
                                      ++ (bound_text (text " OFFSET ?") s.offset
                                          ++ text ";")))))))))

  abbrev pub statement_values : (ℤ → V) → Selector V → List V
  statement_values any_of s =
      columns_values s.columns
      ++ (values (joined s.conditions)
          ++ (values (joined s.having)
              ++ (bound_values any_of s.limit ++ bound_values any_of s.offset)))

module _ {ℓ} {V : Type ℓ} {R : Type 0} where
  unfoldable pub expression_error : Model → Expression V → Option (Error R)
  expression_error md nil = none
  expression_error md (column col) = name_error md col.name
  expression_error md (value v) = none
  expression_error md (predicate left op right) =
      or_else (expression_error md left) (expression_error md right)
  expression_error md (raw_expr r) = none
  expression_error md (aggregate a) = name_error md a.arg
  expression_error md other = some unsupported_expression

  unfoldable pub selectable_error : Model → Selectable V → Option (Error R)
  selectable_error md (column col) = name_error md col.name
  selectable_error md (aggregate a) = name_error md a.arg
  selectable_error md (raw_expr r) = none
  selectable_error md foreign = none

  -- The first error, in the order in which the clauses stand in the statement.
  abbrev pub statement_error : Model → Selector V → Option (Error R)
  statement_error md s = or_else (errors (selectable_error md) s.columns) (
      or_else (expression_error md (joined s.conditions)) (
        or_else (errors (λ (col : Column). name_error md col.name) s.group_by) (
          or_else (expression_error md (joined s.having))
            (errors (λ (o : OrderBy). name_error md o.column_name) s.order_by))))
