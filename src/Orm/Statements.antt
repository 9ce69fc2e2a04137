-- ===== src/Orm/Statements.antt =====
-- What `Build` of the selector of homework_subquery returns, on success and on error.
use myhomework.Common.{
  ℕ, Bytes, text, ◌≡◌, refl, ap, List, [], ◌∷◌, ◌++◌, append-nil, Option, none, some, Result, ok,
  err,
}
use myhomework.Writer.Outcomes.{or_else-none}
use myhomework.Orm.Expression.{
  Model, Query, Answer, built, refused, crashed, ℤ, Setting, Subquery, TableReference, no_table,
  table, join, subquery_table, foreign, Column, Selectable, column, aggregate, raw_expr,
}
use myhomework.Orm.Builder
use myhomework.Orm.Builder.{Fault, returned, panicked, State, Frame, Action, ◌>>◌, drop_last}
use myhomework.Orm.Selector
use myhomework.Orm.Selector.{Selector, is_positive}
use myhomework.Orm.Shapes.{cut_text, drop_last_lem, for_positive_lem}
use myhomework.Orm.Outcomes.{
  Runs, Runs-chain, Runs-eq, Writes, Writes-skip, Writes-string, Writes-byte, Writes-args,
  Writes-fail, Writes-chain, Writes-eq, Writes-when,
}
use myhomework.Orm.Results.{unless_error, result_of_Runs}
use myhomework.Orm.Texts.{
  as_text, bound_text, gathered, errors, from_text, from_values, from_error, entity_text,
  entity_error, column_text, column_error, expression_error, selectable_text, selectable_values,
  selectable_error, columns_text, using_text, group_by_text, bound_values, values,
}
use myhomework.Orm.StatementTexts.{
  table_heap, table_text, table_values, table_error, statement_text, statement_values,
  statement_error, IsSettledTable, IsSettledSelector,
}
use myhomework.Orm.Operands.{
  Writes-quote, Writes-as, Writes-column, Writes-aggregate, Writes-raw, Writes-predicates,
  Writes-items, Writes-item_values,
}

module _ {k : Setting} {h : k.Heap} where
  Writes-selectable :
      (f : Frame) (col : Selectable k)
      → Writes k h
          (Selector.build_selectable f col)
          (selectable_text f col)
          (selectable_values col)
          (selectable_error f col)
  unfolding Selector.build_selectable Selector.build_column_as Builder.build_aggregate_as
      selectable_text selectable_values selectable_error
  Writes-selectable f (column col) =
      Writes-eq (Writes-chain (Writes-column f col.table col.name) (Writes-as f col.alias)) refl
        refl (or_else-none _)
  Writes-selectable f (aggregate a) =
      Writes-eq (Writes-chain (Writes-aggregate f a.table a.fn a.arg) (Writes-as f a.alias)) refl
        refl (or_else-none _)
  Writes-selectable f (raw_expr r) = Writes-raw r
  Writes-selectable f (Selectable.foreign name) = Writes-fail _ [] []

  Writes-columns :
      (f : Frame) (cols : List (Selectable k))
      → Writes k h
          (Selector.build_columns f cols)
          (columns_text f cols)
          (gathered selectable_values cols)
          (errors (selectable_error f) cols)
  unfolding Selector.build_columns
  Writes-columns f [] = Writes-byte b'*'
  Writes-columns f (col ∷ cols) =
      Writes-item_values _ (selectable_text f) selectable_values (selectable_error f)
        (Writes-selectable f) (col ∷ cols)

  Writes-entity :
      (f : Frame) (alias : Bytes) (got : Result k.Error Model)
      → Writes k h
          (Selector.build_entity f alias got)
          (entity_text f alias got)
          []
          (entity_error got)
  unfolding Selector.build_entity
  Writes-entity f alias (ok m) = Writes-chain (Writes-quote f m.table_name) (Writes-as f alias)
  Writes-entity f alias (err e) = Writes-fail _ [] []

  Writes-using :
      (f : Frame) (using : List Bytes)
      → Writes k h
          (Selector.build_using f using)
          (using_text k f using)
          []
          (errors (λ (fd : Bytes). column_error {k = k} f no_table fd) using)
  unfolding Selector.build_using
  Writes-using f [] = Writes-skip
  Writes-using f (col ∷ cols) =
      Writes-eq
        (Writes-chain (Writes-string (text " USING (")) (
          Writes-chain
            (Writes-items (Builder.build_column f no_table) (column_text {k = k} f no_table)
              (column_error {k = k} f no_table) (Writes-column f no_table) (col ∷ cols))
            (Writes-string (text ")"))))
        refl refl (or_else-none _)

  Writes-from :
      (f : Frame) (alias : Bytes) (args : List k.Value) (cut : Option Bytes)
      → Writes k h
          (Selector.write_from f alias args cut)
          (elim cut [ some sql ↦ sql ++ b')' ∷ as_text f alias | none ↦ [] ])
          args
          (elim cut [ some sql ↦ none | none ↦ some panicked ])
  unfolding Selector.write_from
  Writes-from f alias args none = Writes-fail panicked [] args
  Writes-from f alias args (some sql) =
      Writes-eq
        (Writes-chain (Writes-string sql)
          (Writes-chain (Writes-byte b')') (Writes-chain (Writes-as f alias) (Writes-args args))))
        (ap (λ s. sql ++ b')' ∷ s) (append-nil (as_text f alias))) refl refl

  -- What the answer to a call of `Build` makes of FROM.
  Writes-answer :
      (f : Frame) (alias : Bytes) (a : Answer k.Error k.Value)
      → Writes k h
          (Selector.from_answer f alias a)
          (from_text f alias a)
          (from_values a)
          (from_error a)
  unfolding Selector.from_answer
  Writes-answer f alias (built q) =
      rw (drop_last_lem q.sql) (Writes-from f alias q.args (cut_text q.sql))
  Writes-answer f alias (refused e) = Writes-fail (returned e) [] []
  Writes-answer f alias crashed = Writes-fail panicked [] []

  Writes-group_by :
      (f : Frame) (cols : List (Column k))
      → Writes k h
          (Selector.build_group_by f cols)
          (group_by_text f cols)
          []
          (errors (λ (g : Column k). column_error f g.table g.name) cols)
  unfolding Selector.build_group_by
  Writes-group_by f [] = Writes-skip
  Writes-group_by f (col ∷ cols) = Writes-chain (Writes-string (text " GROUP BY ")) (
      Writes-items _ (λ (g : Column k). column_text f g.table g.name)
        (λ (g : Column k). column_error f g.table g.name)
        (λ (g : Column k). Writes-column f g.table g.name) (col ∷ cols))

  Writes-bound :
      (word : Bytes) (n : ℤ)
      → Writes k h (Selector.build_bound word n) (bound_text word n) (bound_values k n) none
  unfolding Selector.build_bound
  Writes-bound word n =
      rw (← for_positive_lem n word, ← for_positive_lem n (k.value_of_int n ∷ []))
        (Writes-when (is_positive n) (
          Writes-eq (Writes-chain (Writes-string word) (Writes-args _)) (append-nil word) refl
            refl))

module _ {k : Setting} where
  Runs-from :
      {h : k.Heap} (f : Frame) (sub : Subquery k)
      → Runs k h
          (Selector.run_from f sub)
          (from_text f sub.alias (k.run sub.qb h).1)
          (from_values (k.run sub.qb h).1)
          (from_error (k.run sub.qb h).1)
          (k.run sub.qb h).0
  unfolding Selector.run_from
  Runs-from {h} f sub =
      let w = Writes-answer {h = (k.run sub.qb h).0} f sub.alias (k.run sub.qb h).1 in
      record { returns = w.returns; adds = w.adds }

  Runs-table :
      (f : Frame) (t : TableReference k) (h : k.Heap)
      → IsSettledTable h t
      → Runs k h
          (Selector.build_table f t)
          (table_text h f t)
          (table_values h t)
          (table_error h f t)
          (table_heap h t)
  unfolding Selector.build_table table_text table_values table_error table_heap text values
      expression_error
  Runs-table f no_table h settled = Writes-quote f f.model.table_name
  Runs-table f (table entity alias) h settled = Writes-entity f alias (k.get entity)
  Runs-table f (join left typ right on using) h (sl, sr, son) =
      Runs-eq
        (Runs-chain (Writes-byte b'(') (
          Runs-chain (Runs-table f left h sl) (
            Runs-chain (Writes-string (text " ")) (
              Runs-chain (Writes-string typ) (
                Runs-chain (Writes-string (text " ")) (
                  Runs-chain (Runs-table f right (table_heap h left) sr) (
                    Runs-chain (Writes-using f using) (
                      Runs-chain (Writes-predicates (text " ON ") f on son)
                        (Writes-byte b')')))))))))
        refl (rw append-nil) (rw or_else-none)
  Runs-table f (subquery_table sub) h settled = Runs-chain (Writes-byte b'(') (Runs-from f sub)
  Runs-table f (foreign alias) h settled = Writes-fail _ [] []

  Runs-statement :
      {h : k.Heap} (f : Frame) (s : Selector k)
      → IsSettledSelector h s
      → Runs k h
          (Selector.build_statement f s)
          (statement_text h f s)
          (statement_values h s)
          (statement_error h f s)
          (table_heap h s.table)
  unfolding Selector.build_statement
  Runs-statement {h} f s settled =
      Runs-eq
        (Runs-chain (Writes-string (text "SELECT ")) (
          Runs-chain (Writes-columns f s.columns) (
            Runs-chain (Writes-string (text " FROM ")) (
              Runs-chain (Runs-table f s.table h settled.table) (
                Runs-chain (Writes-predicates (text " WHERE ") f s.conditions settled.conditions) (
                  Runs-chain (Writes-group_by f s.group_by) (
                    Runs-chain (Writes-predicates (text " HAVING ") f s.having settled.having) (
                      Runs-chain (Writes-bound (text " LIMIT ?") s.limit) (
                        Runs-chain (Writes-bound (text " OFFSET ?") s.offset)
                          (Writes-string (text ";")))))))))))
        refl (rw append-nil) (rw or_else-none)

  -- The query that a statement stands for, behind what the selector had written before, or the first
  -- error that it holds.
  abbrev pub outcome : k.Heap → Frame → Selector k → Result (Fault k.Error) (Query k.Value)
  outcome h f s =
      unless_error (statement_error h f s)
        (record { sql = s.sb ++ statement_text h f s; args = s.args ++ statement_values h s })

  -- `Build` where the subqueries in conditions have been built before: it returns the error of the
  -- model registry; otherwise the first error that a clause holds, in the order of the clauses; and
  -- if there is none, the statement with its arguments, clause by clause, joins from the inside out.
  -- Both stand behind what the selector had written before.
  pub build-selected :
      (quoter : ℕ) (got : Result k.Error Model) (s : Selector k) (heap : k.Heap)
      → IsSettledSelector heap s
      → (Selector.build quoter got s heap).1 ≡ elim got [
        | err e ↦ err (returned e)
        | ok md ↦ outcome heap (record { quoter = quoter; model = md }) s
      ]
  unfolding Selector.build
  build-selected quoter (err e) s heap settled = refl
  build-selected quoter (ok md) s heap settled =
      result_of_Runs s.sb s.args (Runs-statement (record { quoter = quoter; model = md }) s settled)
