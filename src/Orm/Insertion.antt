-- ===== src/Orm/Insertion.antt =====
-- What `Build` of the inserter of homework_subquery returns, on success and on error.
use myhomework.Common.{
  Bytes, ◌≡◌, refl, ◌∙◌, List, [], ◌∷◌, ◌++◌, append-nil, append_assoc, none, some, Option, Result,
  ok, err,
}
use myhomework.Orm.Expression.{Field, Model, Query, Setting}
use myhomework.Orm.Builder
use myhomework.Orm.Builder.{
  Fault, returned, insert_zero_row, unsupported_assignable, State, Frame, Action, ◌>>◌, col_name,
}
use myhomework.Writer.Outcomes.{or_else}
use myhomework.Orm.Columns.{names_error, chosen_fields, fields_or_error, fields_of_lem}
use myhomework.Orm.Selector
use myhomework.Orm.Dialect.{Dialect, mysql, sqlite3, quoter}
use myhomework.Orm.Inserter
use myhomework.Orm.Inserter.{Inserter, fields_of}
use myhomework.Orm.Outcomes.{at, Writes, Writes-string}
use myhomework.Orm.Results.{unless_error, result_of_Runs}
use myhomework.Orm.Operands.{Writes-quote}
use myhomework.Orm.InsertTexts.{IsSettledUpsert, insert_prefix, rows_text, rows_values, rows_error}
use myhomework.Orm.Inserts.{Writes-rows}

module _ {k : Setting} where
  -- What follows an action that cannot fail.
  behind :
      {h : k.Heap} {m : Action k} {s : Bytes} {vs : List k.Value} (n : Action k) (b : Bytes)
      (xs : List k.Value)
      → Writes k h m s vs none
      → (m >> n) (at h b xs) ≡ n (at h (b ++ s) (xs ++ vs))
  unfolding Builder.continue
  behind n b xs w = rw (w.adds refl b xs)

  build_statement-fields :
      (d : Dialect) (f : Frame) (i : Inserter k) (h : k.Heap)
      → Inserter.build_statement d f i (at h i.sb i.args)
        ≡ Inserter.build_fields d f i
            (fields_of i.columns f.model)
            (at h (i.sb ++ insert_prefix f) i.args)
  unfolding Inserter.build_statement
  build_statement-fields d f i h =
      behind _ i.sb i.args (Writes-string _)
      ∙ behind _ _ _ (Writes-quote f f.model.table_name)
      ∙ behind (Inserter.build_fields d f i (fields_of i.columns f.model)) _ _ (Writes-string _)
      ∙ simp (append_assoc, append-nil)

  -- The rows that an insertion stands for, behind what the inserter had written before, or the first
  -- error that it meets: that of a name comes before those of the values.
  abbrev pub outcome :
      k.Heap → Dialect → Frame → Inserter k → Result (Fault k.Error) (Query k.Value)
  outcome h d f i =
      let fields = chosen_fields f.model i.columns in
      unless_error (or_else (names_error f.model i.columns) (rows_error d f i fields)) (record {
        sql = i.sb ++ (insert_prefix f ++ rows_text h d f i fields);
        args = rows_values h i fields;
      })

  result-fields :
      (d : Dialect) (f : Frame) (i : Inserter k) (h : k.Heap) (e : Option (Fault k.Error))
      (fields : List Field)
      → IsSettledUpsert h i.upsert
      → Selector.result (
          Inserter.build_fields d f i
            (fields_or_error e fields)
            (at h (i.sb ++ insert_prefix f) i.args))
        ≡ unless_error (or_else e (rows_error d f i fields)) (record {
          sql = i.sb ++ (insert_prefix f ++ rows_text h d f i fields);
          args = rows_values h i fields;
        })
  unfolding Inserter.build_fields Inserter.build_rows Selector.result unless_error
  result-fields d f i h (some e) fields settled = refl
  result-fields d f i h none fields settled =
      result_of_Runs (i.sb ++ insert_prefix f) [] (Writes-rows d f i fields settled)
      ∙ rw (append_assoc i.sb (insert_prefix f) (rows_text h d f i fields))

  build_found-outcome :
      (d : Dialect) (got : Result k.Error Model) (i : Inserter k) (heap : k.Heap)
      → IsSettledUpsert heap i.upsert
      → (Inserter.build_found d got i heap).1 ≡ elim got [
        | err e ↦ err (returned e)
        | ok md ↦ outcome heap d (record { quoter = quoter d; model = md }) i
      ]
  unfolding Inserter.build_found
  build_found-outcome d (err e) i heap settled = refl
  build_found-outcome d (ok md) i heap settled =
      let f : Frame = record { quoter = quoter d; model = md } in
      rw (build_statement-fields d f i heap, fields_of_lem {E = k.Error} i.columns md)
        (result-fields d f i heap (names_error md i.columns) (chosen_fields md i.columns) settled)

  build_given-outcome :
      (d : Dialect) (got : Result k.Error Model) (i : Inserter k) (rows : List k.Row)
      (heap : k.Heap)
      → IsSettledUpsert heap i.upsert
      → (Inserter.build_given d got i rows heap).1 ≡ elim rows [
        | [] ↦ err insert_zero_row
        | row ∷ more ↦ elim got [
          | err e ↦ err (returned e)
          | ok md ↦ outcome heap d (record { quoter = quoter d; model = md }) i
        ]
      ]
  unfolding Inserter.build_given
  build_given-outcome d got i [] heap settled = refl
  build_given-outcome d got i (row ∷ more) heap settled = build_found-outcome d got i heap settled

  -- `Build` where the subqueries in the assignments have been built before: it refuses to insert no
  -- rows; otherwise it returns the error of the model registry, then that of a name which is no field,
  -- then the first value that a row does not give, then the first error of the upsert; and if there is
  -- none, the statement with a row of placeholders for each row, and all rows' values in order. The
  -- text stands behind what the inserter had written before, the arguments do not.
  pub build-inserted :
      (d : Dialect) (got : Result k.Error Model) (i : Inserter k) (heap : k.Heap)
      → IsSettledUpsert heap i.upsert
      → (Inserter.build d got i heap).1 ≡ elim i.values [
        | [] ↦ err insert_zero_row
        | row ∷ rows ↦ elim got [
          | err e ↦ err (returned e)
          | ok md ↦ outcome heap d (record { quoter = b'`'; model = md }) i
        ]
      ]
  unfolding Inserter.build
  build-inserted mysql got i heap settled = build_given-outcome mysql got i i.values heap settled
  build-inserted sqlite3 got i heap settled =
      build_given-outcome sqlite3 got i i.values heap settled
