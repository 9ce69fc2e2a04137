-- ===== src/Orm/Texts.antt =====
-- The SQL that the parts of a statement stand for, at a heap where every subquery is settled: its text,
-- its arguments, and the first error that the parts hold.
use myhomework.Common.{
  Bytes, text, bytes_eq, List, [], ◌∷◌, ◌++◌, false, Option, none, some, Result, ok, err, ◌≡◌,
  if◌then◌else◌,
}
use myhomework.Writer.Outcomes.{or_else}
use myhomework.Orm.Expression.{
  Model, Answer, built, refused, crashed, ℤ, Setting, TableReference, no_table, foreign, Expression,
  nil, column, aggregate, value, raw_expr, binary, subquery, subquery_expr, other, predicate,
  Conditions, no_more, cond, Column, Selectable,
}
use myhomework.Orm.Builder.{
  Fault, returned, unsupported_expression, unsupported_selectable, panicked, Frame,
}
use myhomework.Orm.Columns.{table_column}
use myhomework.Orm.Shapes.{cut_text, for_positive, left_text, right_text, conjoined, qualified_by}
use myhomework.Orm.Outcomes.{result_error}

abbrev pub quoted : Frame → Bytes → Bytes
quoted f s = f.quoter ∷ (s ++ f.quoter ∷ [])

abbrev pub qualifier_text : Frame → Bytes → Bytes
qualifier_text f alias = if bytes_eq alias [] then [] else quoted f alias ++ b'.' ∷ []

abbrev pub as_text : Frame → Bytes → Bytes
as_text f alias = if bytes_eq alias [] then [] else text " AS " ++ quoted f alias

abbrev pub op_text : Bytes → Bytes
op_text op = if bytes_eq op [] then [] else b' ' ∷ op

abbrev pub query_text : Bytes → Bytes
query_text sql = b'(' ∷ (sql ++ b')' ∷ [])

-- Items with commas between them.
abbrev pub commas : {A : Type 0} → (A → Bytes) → List A → Bytes
commas item [] = []
commas item (a ∷ more) = b',' ∷ (item a ++ commas item more)

abbrev pub listed : {A : Type 0} → (A → Bytes) → List A → Bytes
listed item [] = []
listed item (a ∷ more) = item a ++ commas item more

abbrev pub gathered : {A V : Type 0} → (A → List V) → List A → List V
gathered item [] = []
gathered item (a ∷ more) = item a ++ gathered item more

-- The first error of a list of items.
abbrev pub errors : {A E : Type 0} → (A → Option (Fault E)) → List A → Option (Fault E)
errors error [] = none
errors error (a ∷ more) = or_else (error a) (errors error more)

abbrev pub bound_text : Bytes → ℤ → Bytes
bound_text word n = for_positive n word

-- What stands for the query in FROM behind the opening parenthesis: the query without its semicolon.
abbrev pub from_text : {E V : Type 0} → Frame → Bytes → Answer E V → Bytes
from_text f alias (built q) = elim (cut_text q.sql) [
  | some sql ↦ sql ++ b')' ∷ as_text f alias
  | none ↦ []
]
from_text f alias (refused e) = []
from_text f alias crashed = []

abbrev pub from_values : {E V : Type 0} → Answer E V → List V
from_values (built q) = q.args
from_values (refused e) = []
from_values crashed = []

abbrev pub from_error : {E V : Type 0} → Answer E V → Option (Fault E)
from_error (built q) = elim (cut_text q.sql) [ some sql ↦ none | none ↦ some panicked ]
from_error (refused e) = some (returned e)
from_error crashed = some panicked

abbrev pub entity_text : {E : Type 0} → Frame → Bytes → Result E Model → Bytes
entity_text f alias (ok m) = quoted f m.table_name ++ as_text f alias
entity_text f alias (err e) = []

abbrev pub entity_error : {E : Type 0} → Result E Model → Option (Fault E)
entity_error (ok m) = none
entity_error (err e) = some (returned e)

module _ {k : Setting} where
  abbrev pub name_text : Frame → TableReference k → Bytes → Bytes
  name_text f t fd = elim (table_column f t fd) [ ok name ↦ quoted f name | err e ↦ [] ]

  abbrev pub column_text : Frame → TableReference k → Bytes → Bytes
  column_text f t fd = qualifier_text f (qualified_by t) ++ name_text f t fd

  abbrev pub column_error : Frame → TableReference k → Bytes → Option (Fault k.Error)
  column_error f t fd = result_error (table_column f t fd)

  abbrev pub aggregate_text : Frame → TableReference k → Bytes → Bytes → Bytes
  aggregate_text f t fn arg = fn ++ b'(' ∷ (column_text f t arg ++ b')' ∷ [])

  unfoldable pub expression_error : Frame → Expression k → Option (Fault k.Error)
  expression_error f nil = none
  expression_error f (column t name alias) = column_error f t name
  expression_error f (aggregate t fn arg alias) = column_error f t arg
  expression_error f (value v) = none
  expression_error f (raw_expr r) = none
  expression_error f (binary kind left op right) =
      or_else (expression_error f left) (expression_error f right)
  expression_error f (subquery sub) = none
  expression_error f (subquery_expr sub pred) = none
  expression_error f other = some unsupported_expression

  -- The condition that a list of conditions stands for.
  abbrev pub joined : Conditions k → Expression k
  joined no_more = nil
  joined (cond left op right rest) = conjoined (binary predicate left op right) rest

  unfoldable pub selectable_text : Frame → Selectable k → Bytes
  selectable_text f (column col) = column_text f col.table col.name ++ as_text f col.alias
  selectable_text f (aggregate a) = aggregate_text f a.table a.fn a.arg ++ as_text f a.alias
  selectable_text f (raw_expr r) = r.raw
  selectable_text f (foreign name) = []

  unfoldable pub selectable_values : Selectable k → List k.Value
  selectable_values (raw_expr r) = r.args
  selectable_values _ = []

  unfoldable pub selectable_error : Frame → Selectable k → Option (Fault k.Error)
  selectable_error f (column col) = column_error f col.table col.name
  selectable_error f (aggregate a) = column_error f a.table a.arg
  selectable_error f (raw_expr r) = none
  selectable_error f (foreign name) = some unsupported_selectable

  abbrev pub columns_text : Frame → List (Selectable k) → Bytes
  columns_text f [] = b'*' ∷ []
  columns_text f (col ∷ cols) = listed (selectable_text f) (col ∷ cols)

  abbrev pub group_by_text : Frame → List (Column k) → Bytes
  group_by_text f [] = []
  group_by_text f (col ∷ cols) =
      text " GROUP BY " ++ listed (λ (g : Column k). column_text f g.table g.name) (col ∷ cols)

module _ (k : Setting) where
  abbrev pub using_text : Frame → List Bytes → Bytes
  using_text f [] = []
  using_text f (col ∷ cols) =
      text " USING (" ++ (listed (column_text {k = k} f no_table) (col ∷ cols) ++ text ")")

  abbrev pub bound_values : ℤ → List k.Value
  bound_values n = for_positive n (k.value_of_int n ∷ [])

module _ {k : Setting} (h : k.Heap) where
  unfoldable pub render : Frame → Expression k → Bytes
  render f nil = []
  render f (column t name alias) = column_text f t name
  render f (aggregate t fn arg alias) = aggregate_text f t fn arg
  render f (value v) = b'?' ∷ []
  render f (raw_expr r) = r.raw
  render f (binary kind left op right) =
      left_text left (render f left) ++ (op_text op ++ right_text right (render f right))
  render f (subquery sub) = query_text (k.cached sub.cell h)
  render f (subquery_expr sub pred) = pred ++ query_text (k.cached sub.cell h)
  render f other = []

  unfoldable pub values : Expression k → List k.Value
  values nil = []
  values (column t name alias) = []
  values (aggregate t fn arg alias) = []
  values (value v) = v ∷ []
  values (raw_expr r) = r.args
  values (binary kind left op right) = values left ++ values right
  values (subquery sub) = sub.cache_args
  values (subquery_expr sub pred) = sub.cache_args
  values other = []

  abbrev pub conditions_text : Bytes → Frame → Conditions k → Bytes
  conditions_text word f no_more = []
  conditions_text word f (cond left op right rest) =
      word ++ render f (joined (cond left op right rest))

  -- An expression's subqueries have been built before, so that their text stands in the cache.
  abbrev pub IsSettled : Expression k → Type 0
  IsSettled (binary kind left op right) = IsSettled left × IsSettled right
  IsSettled (subquery sub) = bytes_eq (k.cached sub.cell h) [] ≡ false
  IsSettled (subquery_expr sub pred) = bytes_eq (k.cached sub.cell h) [] ≡ false
  IsSettled _ = Unit

  abbrev pub AreSettled : Conditions k → Type 0
  AreSettled no_more = Unit
  AreSettled (cond left op right rest) = IsSettled left × IsSettled right × AreSettled rest
