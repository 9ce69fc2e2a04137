-- ===== src/Orm/Inserts.antt =====
-- What the parts of an INSERT of homework_subquery write.
use myhomework.Common.{
  Bytes, text, ◌≡◌, refl, List, [], ◌∷◌, ◌++◌, append-nil, Bool, true, false, Option, none, some,
  Result, ok, err, if◌then◌else◌,
}
use myhomework.Writer.Outcomes.{or_else, or_else-none}
use myhomework.Orm.Expression.{
  Field, Setting, Assignable, column, assignment, raw_expr, foreign, no_table, Expression,
}
use myhomework.Orm.Builder
use myhomework.Orm.Builder.{
  Fault, returned, insert_zero_row, unsupported_assignable, State, Frame, Action, ◌>>◌, col_name,
}
use myhomework.Orm.Selector
use myhomework.Orm.Dialect
use myhomework.Orm.Dialect.{Dialect, mysql, sqlite3, Upsert, quoter}
use myhomework.Orm.Inserter
use myhomework.Orm.Inserter.{Inserter, fields_of}
use myhomework.Orm.Outcomes.{
  Writes, Writes-skip, Writes-string, Writes-byte, Writes-args, Writes-fail, Writes-failing,
  Writes-chain, Writes-eq,
}
use myhomework.Orm.Texts.{
  quoted, errors, column_text, column_error, expression_error, render, values, IsSettled,
}
use myhomework.Orm.Operands.{
  Writes-quote, Writes-col_name, Writes-column, Writes-expression, Writes-items, Writes-item_values,
}
use myhomework.Orm.InsertTexts.{
  value_args, value_error, comma_text, excluded_text, row_text, conflict_text, row_values,
  row_error, assigns_text, assigns_values, assigns_error, AreSettledAssigns, upsert_text,
  upsert_values, upsert_error, IsSettledUpsert, rows_text, rows_values, rows_error,
}

errors-none :
    {A E : Type 0} (items : List A) → errors {A = A} {E = E} (λ (a : A). none) items ≡ none
errors-none [] = refl
errors-none (a ∷ more) = errors-none more

module _ {k : Setting} {h : k.Heap} where
  Writes-excluded :
      (d : Dialect) (f : Frame) (name : Bytes)
      → Writes k h (Dialect.dialect_column d f name) (excluded_text d f name) [] none
  unfolding Dialect.dialect_column Dialect.mysql_column Dialect.sqlite3_column
  Writes-excluded mysql f name =
      Writes-chain (Writes-quote f name)
        (Writes-chain (Writes-string _) (Writes-chain (Writes-quote f name) (Writes-byte b')')))
  Writes-excluded sqlite3 f name =
      Writes-chain (Writes-quote f name) (Writes-chain (Writes-string _) (Writes-quote f name))

  Writes-comma :
      (comma : Bool)
      → Writes k h
          (if comma then Builder.write_byte b',' else Builder.skip)
          (comma_text comma)
          []
          none
  Writes-comma true = Writes-byte b','
  Writes-comma false = Writes-skip

  pub Writes-assign :
      (f : Frame) (col : Bytes) (val : Expression k)
      → IsSettled h val
      → Writes k h
          (Dialect.build_assign f col val)
          (column_text {k = k} f no_table col ++ (text "=" ++ render h f val))
          (values h val)
          (or_else (column_error {k = k} f no_table col) (expression_error f val))
  unfolding Dialect.build_assign
  Writes-assign f col val settled =
      Writes-chain (Writes-column f no_table col)
        (Writes-chain (Writes-string _) (Writes-expression f val settled))

  Writes-assigns :
      (d : Dialect) (f : Frame) (comma : Bool) (assigns : List (Assignable k))
      → AreSettledAssigns h assigns
      → Writes k h
          (Dialect.build_assigns d f comma assigns)
          (assigns_text h d f comma assigns)
          (assigns_values h assigns)
          (assigns_error f assigns)
  unfolding Dialect.build_assigns
  Writes-assigns d f comma [] settled = Writes-skip
  Writes-assigns d f comma (column col ∷ more) settled = Writes-chain (Writes-comma comma) (
      Writes-chain (Writes-col_name f col.table col.name (excluded_text d f) (Writes-excluded d f))
        (Writes-assigns d f true more settled))
  Writes-assigns d f comma (assignment col val ∷ more) (settled, rest) =
      Writes-chain (Writes-comma comma) (Writes-assign f col val settled)
  Writes-assigns d f comma (raw_expr r ∷ more) settled = Writes-failing (Writes-comma comma)
  Writes-assigns d f comma (foreign ∷ more) settled = Writes-failing (Writes-comma comma)

  Writes-conflict :
      (f : Frame) (cols : List Bytes)
      → Writes k h
          (Dialect.build_conflict f cols)
          (conflict_text k f cols)
          []
          (errors (λ (c : Bytes). column_error {k = k} f no_table c) cols)
  unfolding Dialect.build_conflict
  Writes-conflict f [] = Writes-skip
  Writes-conflict f (col ∷ cols) =
      Writes-eq
        (Writes-chain (Writes-byte b'(') (
          Writes-chain
            (Writes-items (Builder.build_column f no_table) (column_text {k = k} f no_table)
              (column_error {k = k} f no_table) (Writes-column f no_table) (col ∷ cols))
            (Writes-byte b')')))
        refl refl (or_else-none _)

  Writes-upsert :
      (d : Dialect) (f : Frame) (u : Option (Upsert k))
      → IsSettledUpsert h u
      → Writes k h
          (Inserter.build_conflicts d f u)
          (upsert_text h d f u)
          (upsert_values h u)
          (upsert_error d f u)
  unfolding Inserter.build_conflicts Dialect.build_upsert
  Writes-upsert d f none settled = Writes-skip
  Writes-upsert mysql f (some u) settled =
      Writes-chain (Writes-string _) (Writes-assigns mysql f false u.assigns settled)
  Writes-upsert sqlite3 f (some u) settled = Writes-chain (Writes-string _) (
      Writes-chain (Writes-conflict f u.conflict_columns)
        (Writes-chain (Writes-string _) (Writes-assigns sqlite3 f false u.assigns settled)))

  pub Writes-value :
      (r : Result k.Error k.Value)
      → Writes k h (Inserter.add_value r) [] (value_args r) (value_error r)
  unfolding Inserter.add_value
  Writes-value (ok v) = Writes-args (v ∷ [])
  Writes-value (err e) = Writes-fail _ [] []

  Writes-row :
      (fields : List Field) (row : k.Row)
      → Writes k h
          (Inserter.build_row fields row)
          (row_text fields)
          (row_values k fields row)
          (row_error k fields row)
  unfolding Inserter.build_row Inserter.build_value
  Writes-row fields row =
      Writes-eq
        (Writes-chain (Writes-byte b'(') (
          Writes-chain
            (Writes-item_values (Inserter.build_value row) (λ (fd : Field). b'?' ∷ [])
              (λ (fd : Field). value_args (k.field row fd.go_name))
              (λ (fd : Field). value_error (k.field row fd.go_name))
              (λ fd. Writes-chain (Writes-byte b'?') (Writes-value (k.field row fd.go_name)))
              fields)
            (Writes-byte b')')))
        refl (append-nil _) (or_else-none _)

  pub Writes-rows :
      (d : Dialect) (f : Frame) (i : Inserter k) (fields : List Field)
      → IsSettledUpsert h i.upsert
      → Writes k h
          (Selector.build_items (λ (fd : Field). Builder.quote f fd.col_name) fields
            >> Builder.write_string (text ") VALUES")
            >> Selector.build_items (Inserter.build_row fields) i.values
            >> Inserter.build_conflicts d f i.upsert
            >> Builder.write_string (text ";"))
          (rows_text h d f i fields)
          (rows_values h i fields)
          (rows_error d f i fields)
  Writes-rows d f i fields settled =
      Writes-eq
        (Writes-chain
          (Writes-items _ (λ (fd : Field). quoted f fd.col_name) (λ (fd : Field). none)
            (λ (fd : Field). Writes-quote f fd.col_name) fields)
          (Writes-chain (Writes-string (text ") VALUES")) (
            Writes-chain
              (Writes-item_values (Inserter.build_row fields) (λ (row : k.Row). row_text fields)
                (row_values k fields) (row_error k fields) (Writes-row fields) i.values)
              (Writes-chain (Writes-upsert d f i.upsert settled) (Writes-string (text ";"))))))
        refl (rw append-nil) (rw (errors-none fields, or_else-none))
