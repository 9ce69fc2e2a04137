-- ===== src/Orm/Updates.antt =====
-- What `Build` of the updater of homework_subquery returns, on success and on error.
use myhomework.Common.{
  none, Bytes, text, ◌≡◌, refl, List, [], ◌∷◌, ◌++◌, append-nil, All, Option, some, Result, ok, err,
}
use myhomework.Writer.Outcomes.{or_else, or_else-none}
use myhomework.Orm.Expression.{
  Model, Query, Setting, no_table, Assignable, column, assignment, raw_expr, foreign,
}
use myhomework.Orm.Builder.{Fault, returned, unsupported_assignable, no_updated_columns, Frame}
use myhomework.Orm.Dialect.{Dialect, mysql, sqlite3, quoter}
use myhomework.Orm.Updater
use myhomework.Orm.Updater.{Updater, row_or}
use myhomework.Orm.Outcomes.{
  Writes, Writes-string, Writes-byte, Writes-fail, Writes-chain, Writes-eq,
}
use myhomework.Orm.Results.{unless_error, result_of_Runs}
use myhomework.Orm.Texts.{
  quoted, listed, gathered, errors, column_text, column_error, expression_error, joined, render,
  values, conditions_text, IsSettled, AreSettled,
}
use myhomework.Orm.Operands.{
  Writes-quote, Writes-column, Writes-expression, Writes-predicates, Writes-each,
}
use myhomework.Orm.InsertTexts.{value_args, value_error}
use myhomework.Orm.Inserts.{Writes-value}

module _ {k : Setting} where
  -- What one of the columns to change stands for, at a row.
  abbrev pub set_text : k.Heap → Frame → Assignable k → Bytes
  set_text h f (column col) = column_text f col.table col.name ++ text "=?"
  set_text h f (assignment col val) = column_text {k = k} f no_table col ++ b'=' ∷ render h f val
  set_text h f (raw_expr r) = []
  set_text h f foreign = []

  abbrev pub set_values : k.Heap → k.Row → Assignable k → List k.Value
  set_values h row (column col) = value_args (k.field row col.name)
  set_values h row (assignment col val) = values h val
  set_values h row (raw_expr r) = []
  set_values h row foreign = []

  abbrev pub set_error : Frame → k.Row → Assignable k → Option (Fault k.Error)
  set_error f row (column col) =
      or_else (column_error f col.table col.name) (value_error (k.field row col.name))
  set_error f row (assignment col val) =
      or_else (column_error {k = k} f no_table col) (expression_error f val)
  set_error f row (raw_expr r) = some unsupported_assignable
  set_error f row foreign = some unsupported_assignable

  abbrev pub IsSettledSet : k.Heap → Assignable k → Type 0
  IsSettledSet h (assignment col val) = IsSettled h val
  IsSettledSet h _ = Unit

  -- The subqueries in the assignments and in the conditions have been built before.
  abbrev pub IsSettledUpdater : k.Heap → Updater k → Type 0
  IsSettledUpdater h u = All (IsSettledSet h) u.assigns × AreSettled h u.conditions

  -- The whole statement, clause by clause.
  abbrev pub update_text : k.Heap → Frame → Updater k → Bytes
  update_text h f u =
      text "UPDATE "
      ++ (quoted f f.model.table_name
          ++ (text " SET "
              ++ (listed (set_text h f) u.assigns
                  ++ (conditions_text h (text " WHERE ") f u.conditions ++ b';' ∷ []))))

  abbrev pub update_values : k.Heap → k.Row → Updater k → List k.Value
  update_values h row u = gathered (set_values h row) u.assigns ++ values h (joined u.conditions)

  abbrev pub update_error : Frame → k.Row → Updater k → Option (Fault k.Error)
  update_error f row u =
      or_else (errors (set_error f row) u.assigns) (expression_error f (joined u.conditions))

  abbrev pub outcome : k.Heap → Frame → k.Row → Updater k → Result (Fault k.Error) (Query k.Value)
  outcome h f row u =
      unless_error (update_error f row u)
        (record { sql = u.sb ++ update_text h f u; args = u.args ++ update_values h row u })

module _ {k : Setting} {h : k.Heap} where
  Writes-set :
      (f : Frame) (row : k.Row) (a : Assignable k)
      → IsSettledSet h a
      → Writes k h
          (Updater.build_assignable f row a)
          (set_text h f a)
          (set_values h row a)
          (set_error f row a)
  unfolding Updater.build_assignable Updater.build_assignment
  Writes-set f row (column col) settled =
      Writes-eq
        (Writes-chain (Writes-column f col.table col.name)
          (Writes-chain (Writes-string (text "=?")) (Writes-value (k.field row col.name))))
        (rw append-nil) refl refl
  Writes-set f row (assignment col val) settled =
      Writes-chain (Writes-column f no_table col)
        (Writes-chain (Writes-byte b'=') (Writes-expression f val settled))
  Writes-set f row (raw_expr r) settled = Writes-fail _ [] []
  Writes-set f row foreign settled = Writes-fail _ [] []

  Writes-statement :
      (f : Frame) (row : k.Row) (u : Updater k)
      → IsSettledUpdater h u
      → Writes k h
          (Updater.build_statement f row u)
          (update_text h f u)
          (update_values h row u)
          (update_error f row u)
  unfolding Updater.build_statement
  Writes-statement f row u (sets, conditions) =
      Writes-eq
        (Writes-chain (Writes-string (text "UPDATE ")) (
          Writes-chain (Writes-quote f f.model.table_name) (
            Writes-chain (Writes-string (text " SET ")) (
              Writes-chain
                (Writes-each (IsSettledSet h) (Updater.build_assignable f row) (set_text h f)
                  (set_values h row) (set_error f row) (Writes-set f row) u.assigns sets)
                (Writes-chain (Writes-predicates (text " WHERE ") f u.conditions conditions)
                  (Writes-byte b';'))))))
        refl (rw append-nil) (rw or_else-none)

-- The row whose values are written: the updater's, or a new one.
abbrev pub changed_row : {A : Type 0} → A → Option A → A
changed_row fresh none = fresh
changed_row fresh (some given) = given

row_or_lem : {A : Type 0} (fresh : A) (o : Option A) → row_or fresh o ≡ changed_row fresh o
row_or_lem fresh none = refl
row_or_lem fresh (some given) = refl

module _ {k : Setting} where
  build_given-outcome :
      (d : Dialect) (got : Result k.Error Model) (zero : k.Row) (assigns : List (Assignable k))
      (u : Updater k) (heap : k.Heap) (row : k.Row)
      → row_or zero u.val ≡ row
      → IsSettledUpdater heap u
      → (Updater.build_given d got zero assigns u heap).1 ≡ elim assigns [
        | [] ↦ err no_updated_columns
        | a ∷ more ↦ elim got [
          | err e ↦ err (returned e)
          | ok md ↦ outcome heap (record { quoter = quoter d; model = md }) row u
        ]
      ]
  unfolding Updater.build_given Updater.build_found
  build_given-outcome d got zero [] u heap row e settled = refl
  build_given-outcome d (err error) zero (a ∷ more) u heap row e settled = refl
  build_given-outcome d (ok md) zero (a ∷ more) u heap row e settled = rw e (
      result_of_Runs u.sb u.args (
        Writes-statement (record { quoter = quoter d; model = md }) row
          (record u { val = some row }) settled))

  -- `Build` where the subqueries in the statement have been built before: it refuses to change no
  -- column; otherwise it returns the error of the model registry, then the first error of a column to
  -- change, of its value or of the conditions; and if there is none, the statement with its arguments.
  -- Both stand behind what the updater had written before, and without a row the values are those of a
  -- new one.
  pub build-updated :
      (d : Dialect) (got : Result k.Error Model) (zero : k.Row) (u : Updater k) (heap : k.Heap)
      → IsSettledUpdater heap u
      → (Updater.build d got zero u heap).1 ≡ elim u.assigns [
        | [] ↦ err no_updated_columns
        | a ∷ more ↦ elim got [
          | err e ↦ err (returned e)
          | ok md ↦ outcome heap (record { quoter = b'`'; model = md }) (changed_row zero u.val) u
        ]
      ]
  unfolding Updater.build
  build-updated mysql got zero u heap settled =
      build_given-outcome mysql got zero u.assigns u heap (changed_row zero u.val)
        (row_or_lem zero u.val) settled
  build-updated sqlite3 got zero u heap settled =
      build_given-outcome sqlite3 got zero u.assigns u heap (changed_row zero u.val)
        (row_or_lem zero u.val) settled
