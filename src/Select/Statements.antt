-- ===== src/Select/Statements.antt =====
-- What `Build` of the selector of homework_select returns, on success and on error.
use myhomework.Common.{
  Bytes, ◌≡◌, refl, List, [], ◌∷◌, ◌++◌, append-nil, Option, none, some, Result, ok, err,
}
use myhomework.Writer.{Output, Action}
use myhomework.Writer.Outcomes.{
  or_else-none, Writes, Writes-eq, Writes-skip, Writes-string, Writes-byte, Writes-args,
  Writes-chain, Writes-when, Writes-either,
}
use myhomework.Select.Expression.{
  Column, column, raw_expr, aggregate, Predicate, Selectable, foreign, OrderBy,
}
use myhomework.Select.Selector
use myhomework.Select.Selector.{Error, Field, Model, Query, ℤ, is_positive, Selector, registry}
use myhomework.Select.Texts.{
  table_text, commas, order_text, group_by_text, order_by_text, bound_text, name_error, errors,
  values, selectable_text, selectable_values, columns_text, columns_values, joined, conditions_text,
  bound_values, statement_text, statement_values, statement_error, expression_error,
  selectable_error,
}
use myhomework.Select.Operands.{Writes-column, Writes-name, Writes-aggregate, Writes-expression}

module _ {ℓ} {V : Type ℓ} {R : Type 0} where
  result_of_error :
      (r : Output V × Option (Error R)) (e : Error R) → r.1 ≡ some e → Selector.result r ≡ err e
  unfolding Selector.result
  result_of_error (o, none) e h = cc
  result_of_error (o, some e') e h = cc

  Writes-selectable :
      (md : Model) (col : Selectable V)
      → Writes {E = Error R}
          (Selector.build_selectable md col)
          (selectable_text md col)
          (selectable_values col)
          (selectable_error md col)
  unfolding Selector.build_selectable selectable_text selectable_values selectable_error
  Writes-selectable md (column col) = Writes-column md col
  Writes-selectable md (aggregate a) = Writes-aggregate md a
  Writes-selectable md (raw_expr r) =
      Writes-eq (Writes-chain (Writes-string r.raw) (Writes-args _)) (append-nil r.raw) refl refl
  Writes-selectable md foreign = Writes-skip

  -- A loop with commas, over items that write no arguments.
  Writes-more {κ} :
      {A : Type κ} (write : A → Action (Error R) V) (item : A → Bytes)
      (error : A → Option (Error R))
      → ((a : A) → Writes (write a) (item a) [] (error a))
      → (items : List A)
      → Writes (Selector.build_more write items) (commas item items) [] (errors error items)
  unfolding Selector.build_more
  Writes-more write item error h [] = Writes-skip
  Writes-more write item error h (a ∷ more) =
      Writes-chain (Writes-byte _) (Writes-chain (h a) (Writes-more write item error h more))

  Writes-more_columns :
      (md : Model) (cols : List (Selectable V))
      → Writes {E = Error R}
          (Selector.build_more (Selector.build_selectable md) cols)
          (commas (selectable_text md) cols)
          (columns_values cols)
          (errors (selectable_error md) cols)
  unfolding Selector.build_more
  Writes-more_columns md [] = Writes-skip
  Writes-more_columns md (col ∷ cols) =
      Writes-chain (Writes-byte _)
        (Writes-chain (Writes-selectable md col) (Writes-more_columns md cols))

  Writes-columns :
      (md : Model) (cols : List (Selectable V))
      → Writes {E = Error R}
          (Selector.build_columns md cols)
          (columns_text md cols)
          (columns_values cols)
          (errors (selectable_error md) cols)
  unfolding Selector.build_columns
  Writes-columns md [] = Writes-byte b'*'
  Writes-columns md (col ∷ cols) =
      Writes-chain (Writes-selectable md col) (Writes-more_columns md cols)

  Writes-table :
      (md : Model) (table : Bytes)
      → Writes {E = Error R} {V = V} (Selector.build_table md table) (table_text md table) [] none
  unfolding Selector.build_table
  Writes-table md table =
      Writes-either _
        (Writes-chain (Writes-byte _) (Writes-chain (Writes-string _) (Writes-byte _)))
        (Writes-string table)

  Writes-conditions :
      (word : Bytes) (md : Model) (ps : List (Predicate V))
      → Writes {E = Error R}
          (Selector.build_conditions word md ps)
          (conditions_text word md ps)
          (values (joined ps))
          (expression_error md (joined ps))
  unfolding Selector.build_conditions values expression_error
  Writes-conditions word md [] = Writes-skip
  Writes-conditions word md (p ∷ ps) = Writes-chain (Writes-string word) (Writes-expression md _)

  Writes-group_by :
      (md : Model) (cols : List Column)
      → Writes {E = Error R} {V = V}
          (Selector.build_group_by md cols)
          (group_by_text md cols)
          []
          (errors (λ col. name_error md col.name) cols)
  unfolding Selector.build_group_by
  Writes-group_by md [] = Writes-skip
  Writes-group_by md (col ∷ cols) =
      Writes-chain (Writes-string _)
        (Writes-chain (Writes-column md col) (Writes-more _ _ _ (Writes-column md) cols))

  Writes-order :
      (md : Model) (o : OrderBy)
      → Writes {E = Error R} {V = V}
          (Selector.build_order md o)
          (order_text md o)
          []
          (name_error md o.column_name)
  unfolding Selector.build_order
  Writes-order md o =
      Writes-eq (Writes-chain (Writes-name md o.column_name) (Writes-string _)) refl refl
        (or_else-none _)

  Writes-order_by :
      (md : Model) (os : List OrderBy)
      → Writes {E = Error R} {V = V}
          (Selector.build_order_by md os)
          (order_by_text md os)
          []
          (errors (λ o. name_error md o.column_name) os)
  unfolding Selector.build_order_by
  Writes-order_by md [] = Writes-skip
  Writes-order_by md (o ∷ os) =
      Writes-chain (Writes-string _)
        (Writes-chain (Writes-order md o) (Writes-more _ _ _ (Writes-order md) os))

  Writes-bound :
      (word : Bytes) (any_of : ℤ → V) (n : ℤ)
      → Writes {E = Error R}
          (Selector.build_bound word any_of n)
          (bound_text word n)
          (bound_values any_of n)
          none
  unfolding Selector.build_bound
  Writes-bound word any_of n =
      Writes-when (is_positive n)
        (Writes-eq (Writes-chain (Writes-string word) (Writes-args _)) (append-nil word) refl refl)

  pub Writes-statement :
      (any_of : ℤ → V) (md : Model) (s : Selector V)
      → Writes {E = Error R}
          (Selector.build_statement any_of md s)
          (statement_text md s)
          (statement_values any_of s)
          (statement_error md s)
  unfolding Selector.build_statement
  Writes-statement any_of md s =
      Writes-eq
        (Writes-chain (Writes-string _) (
          Writes-chain (Writes-columns md s.columns) (
            Writes-chain (Writes-string _) (
              Writes-chain (Writes-table md s.table) (
                Writes-chain (Writes-conditions _ md s.conditions) (
                  Writes-chain (Writes-group_by md s.group_by) (
                    Writes-chain (Writes-conditions _ md s.having) (
                      Writes-chain (Writes-order_by md s.order_by) (
                        Writes-chain (Writes-bound _ any_of s.limit)
                          (Writes-chain (Writes-bound _ any_of s.offset) (Writes-string _)))))))))))
        refl (rw append-nil) (rw or_else-none)

  unfoldable pub unless_error : Option (Error R) → Query V → Result (Error R) (Query V)
  unless_error none q = ok q
  unless_error (some e) q = err e

  -- The query that a statement stands for, behind what the selector had written before, or the first
  -- error that it holds.
  abbrev pub outcome : (ℤ → V) → Model → Selector V → Result (Error R) (Query V)
  outcome any_of md s = unless_error (statement_error md s) (record {
    sql = s.out.sb ++ statement_text md s;
    args = s.out.args ++ statement_values any_of s;
  })

  result_of_Writes :
      {m : Action (Error R) V} {s : Bytes} {vs : List V} {e : Option (Error R)} (o : Output V)
      → Writes m s vs e
      → Selector.result (m o) ≡ unless_error e (record { sql = o.sb ++ s; args = o.args ++ vs })
  unfolding Selector.result unless_error
  result_of_Writes {e = none} o w = rw (w.adds refl o)
  result_of_Writes {m} {e = some e} o w = result_of_error (m o) e (w.returns o)

  -- `Build` returns the error of the model registry; otherwise the first error that a clause holds,
  -- in the order of the clauses; and if there is none, the statement with its arguments, clause by
  -- clause. Both stand behind what the selector had written before.
  pub build-outcome :
      (any_of : ℤ → V) (got : Result R Model) (s : Selector V)
      → (Selector.build any_of got s).1
        ≡ elim got [ err e ↦ err (registry e) | ok md ↦ outcome any_of md s ]
  unfolding Selector.build
  build-outcome any_of (err e) s = refl
  build-outcome any_of (ok md) s = result_of_Writes s.out (Writes-statement any_of md s)
