-- ===== src/Orm/Updater.antt =====
-- homework_subquery/updater.go: `Updater[T]`.
use myhomework.Common.{Bytes, text, List, [], ◌∷◌, Option, none, some, Result, ok, err}
use myhomework.Orm.Expression.{
  Model, Query, Setting, no_table, Expression, Conditions, no_more, Predicate, Assignable, column,
  assignment, raw_expr, foreign,
}
use myhomework.Orm.Methods.{conditions_of}
use myhomework.Orm.Builder.{
  Fault, returned, unsupported_assignable, no_updated_columns, Frame, Action, ◌>>◌, fail,
  write_string, write_byte, quote, build_column, build_expression, build_predicates,
}
use myhomework.Orm.Selector.{build_items, result}
use myhomework.Orm.Inserter.{add_value}
use myhomework.Orm.Dialect.{Dialect, quoter}

-- `sb` and `args` are those of the builder; `conditions` is the field `where`.
pub record Updater (k : Setting) : Type 0 where
  pub sb : Bytes
  pub args : List k.Value
  pub assigns : List (Assignable k)
  pub val : Option k.Row
  pub conditions : Conditions k

-- The value to read from, where `zero` is `new(T)`.
abbrev pub row_or : {A : Type 0} → A → Option A → A
row_or zero none = zero
row_or zero (some row) = row

module _ {k : Setting} where
  unfoldable pub build_assignment : Frame → Bytes → Expression k → Action k
  unfolding build_column build_expression
  build_assignment f col val = do
    build_column f no_table col
    write_byte b'='
    build_expression f val

  -- One round of the loop of `Build`, behind the comma.
  unfoldable pub build_assignable : Frame → k.Row → Assignable k → Action k
  unfolding build_column add_value build_assignment
  build_assignable f row (column col) = do
    build_column f col.table col.name
    write_string (text "=?")
    add_value (k.field row col.name)
  build_assignable f row (assignment col val) = build_assignment f col val
  build_assignable f row (raw_expr r) = fail unsupported_assignable
  build_assignable f row foreign = fail unsupported_assignable

  unfoldable pub build_statement : Frame → k.Row → Updater k → Action k
  unfolding quote build_items build_assignable build_predicates
  build_statement f row u = do
    write_string (text "UPDATE ")
    quote f f.model.table_name
    write_string (text " SET ")
    build_items (build_assignable f row) u.assigns
    build_predicates (text " WHERE ") f u.conditions
    write_byte b';'

  -- `Build` from the call of the registry on; `row` is what the field `val` points to by then.
  unfoldable pub build_found :
      Dialect
      → Result k.Error Model
      → k.Row
      → Updater k
      → k.Heap
      → (Updater k × k.Heap) × Result (Fault k.Error) (Query k.Value)
  unfolding build_statement result
  build_found d (err e) row u heap = ((u, heap), err (returned e))
  build_found d (ok md) row u heap =
      let f : Frame = record { quoter = quoter d; model = md } in
      let r = build_statement f row u (record { sb = u.sb; args = u.args; heap = heap }) in
      ((record u { sb = r.0.sb; args = r.0.args }, r.0.heap), result r)

  unfoldable pub build_given :
      Dialect
      → Result k.Error Model
      → k.Row
      → List (Assignable k)
      → Updater k
      → k.Heap
      → (Updater k × k.Heap) × Result (Fault k.Error) (Query k.Value)
  unfolding build_found
  build_given d got zero [] u heap = ((u, heap), err no_updated_columns)
  build_given d got zero (a ∷ more) u heap =
      let row = row_or zero u.val in build_found d got row (record u { val = some row }) heap

  -- `Build`; `zero` is `new(T)` and `got` what the registry returns.
  unfoldable pub build :
      Dialect
      → Result k.Error Model
      → k.Row
      → Updater k
      → k.Heap
      → (Updater k × k.Heap) × Result (Fault k.Error) (Query k.Value)
  unfolding build_given
  build d got zero u heap = build_given d got zero u.assigns u heap

  -- `NewUpdater`
  abbrev pub new_updater : Updater k
  new_updater = record { sb = []; args = []; assigns = []; val = none; conditions = no_more }

  -- `Update`
  abbrev pub update : Option k.Row → Updater k → Updater k
  update row u = record u { val = row }

  -- `Set`
  abbrev pub set_all : List (Assignable k) → Updater k → Updater k
  set_all assigns u = record u { assigns = assigns }

  -- `Where`
  abbrev pub filtered : List (Predicate k) → Updater k → Updater k
  filtered ps u = record u { conditions = conditions_of ps }
