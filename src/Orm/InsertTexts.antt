-- ===== src/Orm/InsertTexts.antt =====
-- The SQL that an INSERT stands for, at a heap where every subquery is settled.
use myhomework.Common.{
  Bytes, text, List, [], ◌∷◌, ◌++◌, Bool, true, false, Option, none, some, Result, ok, err,
  if◌then◌else◌,
}
use myhomework.Writer.Outcomes.{or_else}
use myhomework.Orm.Expression.{
  Field, Setting, Assignable, column, assignment, raw_expr, foreign, no_table,
}
use myhomework.Orm.Builder.{Fault, returned, unsupported_assignable, Frame}
use myhomework.Orm.Columns.{table_column}
use myhomework.Orm.Dialect.{Dialect, mysql, sqlite3, Upsert}
use myhomework.Orm.Inserter.{Inserter}
use myhomework.Orm.Texts.{
  quoted, listed, gathered, errors, column_text, column_error, expression_error, render, values,
  IsSettled,
}

-- A value that may be an error, as arguments and as an error.
abbrev pub value_args : {E V : Type 0} → Result E V → List V
value_args (ok v) = v ∷ []
value_args (err e) = []

abbrev pub value_error : {E V : Type 0} → Result E V → Option (Fault E)
value_error (ok v) = none
value_error (err e) = some (returned e)

abbrev pub comma_text : Bool → Bytes
comma_text comma = if comma then b',' ∷ [] else []

-- What a dialect writes for a column that takes the value of the row that meets the conflict.
abbrev pub excluded_text : Dialect → Frame → Bytes → Bytes
excluded_text mysql f name = quoted f name ++ (text "=VALUES(" ++ (quoted f name ++ b')' ∷ []))
excluded_text sqlite3 f name = quoted f name ++ (text "=excluded." ++ quoted f name)

-- The start of the statement, up to the columns.
abbrev pub insert_prefix : Frame → Bytes
insert_prefix f = text "INSERT INTO " ++ (quoted f f.model.table_name ++ text "(")

-- A row of placeholders.
abbrev pub row_text : List Field → Bytes
row_text fields = b'(' ∷ (listed (λ (fd : Field). b'?' ∷ []) fields ++ b')' ∷ [])

module _ (k : Setting) where
  abbrev pub conflict_text : Frame → List Bytes → Bytes
  conflict_text f [] = []
  conflict_text f (col ∷ cols) =
      b'(' ∷ (listed (column_text {k = k} f no_table) (col ∷ cols) ++ b')' ∷ [])

  abbrev pub row_values : List Field → k.Row → List k.Value
  row_values fields row = gathered (λ (fd : Field). value_args (k.field row fd.go_name)) fields

  abbrev pub row_error : List Field → k.Row → Option (Fault k.Error)
  row_error fields row = errors (λ (fd : Field). value_error (k.field row fd.go_name)) fields

module _ {k : Setting} where
  -- The assignments up to the first `Assignment`, which is the last one that the code writes.
  abbrev pub assigns_text : k.Heap → Dialect → Frame → Bool → List (Assignable k) → Bytes
  assigns_text h d f comma [] = []
  assigns_text h d f comma (column col ∷ more) =
      comma_text comma
      ++ (elim (table_column f col.table col.name) [ ok name ↦ excluded_text d f name | err e ↦ [] ]
          ++ assigns_text h d f true more)
  assigns_text h d f comma (assignment col val ∷ more) =
      comma_text comma ++ (column_text {k = k} f no_table col ++ (text "=" ++ render h f val))
  assigns_text h d f comma (raw_expr r ∷ more) = []
  assigns_text h d f comma (foreign ∷ more) = []

  abbrev pub assigns_values : k.Heap → List (Assignable k) → List k.Value
  assigns_values h [] = []
  assigns_values h (column col ∷ more) = assigns_values h more
  assigns_values h (assignment col val ∷ more) = values h val
  assigns_values h (raw_expr r ∷ more) = []
  assigns_values h (foreign ∷ more) = []

  abbrev pub assigns_error : Frame → List (Assignable k) → Option (Fault k.Error)
  assigns_error f [] = none
  assigns_error f (column col ∷ more) =
      or_else (column_error f col.table col.name) (assigns_error f more)
  assigns_error f (assignment col val ∷ more) =
      or_else (column_error {k = k} f no_table col) (expression_error f val)
  assigns_error f (raw_expr r ∷ more) = some unsupported_assignable
  assigns_error f (foreign ∷ more) = some unsupported_assignable

  abbrev pub AreSettledAssigns : k.Heap → List (Assignable k) → Type 0
  AreSettledAssigns h [] = Unit
  AreSettledAssigns h (assignment col val ∷ more) = IsSettled h val × AreSettledAssigns h more
  AreSettledAssigns h (_ ∷ more) = AreSettledAssigns h more

  abbrev pub upsert_text : k.Heap → Dialect → Frame → Option (Upsert k) → Bytes
  upsert_text h d f none = []
  upsert_text h mysql f (some u) =
      text " ON DUPLICATE KEY UPDATE " ++ assigns_text h mysql f false u.assigns
  upsert_text h sqlite3 f (some u) =
      text " ON CONFLICT"
      ++ (conflict_text k f u.conflict_columns
          ++ (text " DO UPDATE SET " ++ assigns_text h sqlite3 f false u.assigns))

  abbrev pub upsert_values : k.Heap → Option (Upsert k) → List k.Value
  upsert_values h none = []
  upsert_values h (some u) = assigns_values h u.assigns

  abbrev pub upsert_error : Dialect → Frame → Option (Upsert k) → Option (Fault k.Error)
  upsert_error d f none = none
  upsert_error mysql f (some u) = assigns_error f u.assigns
  upsert_error sqlite3 f (some u) =
      or_else (errors (λ (c : Bytes). column_error {k = k} f no_table c) u.conflict_columns)
        (assigns_error f u.assigns)

  abbrev pub IsSettledUpsert : k.Heap → Option (Upsert k) → Type 0
  IsSettledUpsert h none = Unit
  IsSettledUpsert h (some u) = AreSettledAssigns h u.assigns

  -- What follows the opening parenthesis of the columns.
  abbrev pub rows_text : k.Heap → Dialect → Frame → Inserter k → List Field → Bytes
  rows_text h d f i fields =
      listed (λ (fd : Field). quoted f fd.col_name) fields
      ++ (text ") VALUES"
          ++ (listed (λ (row : k.Row). row_text fields) i.values
              ++ (upsert_text h d f i.upsert ++ text ";")))

  abbrev pub rows_values : k.Heap → Inserter k → List Field → List k.Value
  rows_values h i fields = gathered (row_values k fields) i.values ++ upsert_values h i.upsert

  abbrev pub rows_error : Dialect → Frame → Inserter k → List Field → Option (Fault k.Error)
  rows_error d f i fields =
      or_else (errors (row_error k fields) i.values) (upsert_error d f i.upsert)
