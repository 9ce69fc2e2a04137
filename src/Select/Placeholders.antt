-- ===== src/Select/Placeholders.antt =====
-- The placeholders of a SELECT statement of homework_select against its arguments.
use myhomework.Common.{
  sym, ◌∙◌, Bytes, text, Lacks, count_byte, count_byte-append, count_byte_of_Lacks, ◌≡◌, refl, List,
  [], ◌∷◌, ◌++◌, All, length, length-append, Option, none, some, ok, arith,
}
use myhomework.Writer.Laws.{enclosed}
use myhomework.Select.Expression.{
  Column, RawExpr, Expression, nil, column, value, predicate, raw_expr, aggregate, other, Predicate,
  Selectable, foreign, OrderBy, as_expression, is_predicate, and, join,
}
use myhomework.Select.Selector
use myhomework.Select.Selector.{Error, Field, Model, Query, ℤ, Selector, is_positive}
use myhomework.Select.Texts.{
  name_text, column_text, op_text, table_text, commas, order_text, group_by_text, order_by_text,
  bound_text, render, values, selectable_text, selectable_values, columns_text, columns_values,
  joined, conditions_text, bound_values, statement_text, statement_values, statement_error,
}
use myhomework.Select.Statements.{build-outcome, unless_error}
use myhomework.Select.Marks.{
  marks, IsMarkFreeModel, IsMarkFreeColumn, IsMarkFreeAggregate, marks-enclosed, marks-name_text,
  marks-column_text, marks-aggregate_text, marks-op_text, marks-table_text, marks-commas,
  balanced_append, balanced_front, balanced_back,
}

marks-group_by_text :
    (md : Model) (cols : List Column)
    → IsMarkFreeModel md
    → All IsMarkFreeColumn cols
    → marks (group_by_text md cols) ≡ 0
unfolding count_byte text
marks-group_by_text md [] hm h = refl
marks-group_by_text md (col ∷ cols) hm (h, hs) = omega (
  arith,
  count_byte-append b'?' (column_text md col) (commas (column_text md) cols),
  marks-column_text md col hm h,
  marks-commas (column_text md) IsMarkFreeColumn (λ a. marks-column_text md a hm) cols hs,
)

marks-order_text :
    (md : Model) (o : OrderBy)
    → IsMarkFreeModel md
    → Lacks b'?' o.order
    → marks (order_text md o) ≡ 0
unfolding count_byte
marks-order_text md o hm h = omega (
  arith,
  count_byte-append b'?' (name_text md o.column_name) (b' ' ∷ o.order),
  marks-name_text md o.column_name hm,
  count_byte_of_Lacks b'?' o.order h,
)

marks-order_by_text :
    (md : Model) (os : List OrderBy)
    → IsMarkFreeModel md
    → All (λ o. Lacks b'?' o.order) os
    → marks (order_by_text md os) ≡ 0
unfolding count_byte text
marks-order_by_text md [] hm h = refl
marks-order_by_text md (o ∷ os) hm (h, hs) = omega (
  arith,
  count_byte-append b'?' (order_text md o) (commas (order_text md) os),
  marks-order_text md o hm h,
  marks-commas (order_text md) (λ p. Lacks b'?' p.order) (λ a. marks-order_text md a hm) os hs,
)

module _ {ℓ} {V : Type ℓ} where
  -- As many question marks as arguments.
  abbrev pub IsBalanced : RawExpr V → Type 0
  IsBalanced r = marks r.raw ≡ length r.args

  -- No question mark stands in an operator, a function or an alias, and raw expressions have as many
  -- as arguments.
  abbrev pub IsMarkFree : Expression V → Type 0
  IsMarkFree nil = Unit
  IsMarkFree (column col) = Unit
  IsMarkFree (value v) = Unit
  IsMarkFree (predicate left op right) = IsMarkFree left × Lacks b'?' op × IsMarkFree right
  IsMarkFree (raw_expr r) = IsBalanced r
  IsMarkFree (aggregate a) = IsMarkFreeAggregate a
  IsMarkFree other = Unit

  abbrev pub IsMarkFreeSelectable : Selectable V → Type 0
  IsMarkFreeSelectable (column col) = IsMarkFreeColumn col
  IsMarkFreeSelectable (aggregate a) = IsMarkFreeAggregate a
  IsMarkFreeSelectable (raw_expr r) = IsBalanced r
  IsMarkFreeSelectable foreign = Unit

  -- The same of all the clauses.
  pub record IsMarkFreeSelector (s : Selector V) : Type 0 where
    pub columns : All IsMarkFreeSelectable s.columns
    pub table : Lacks b'?' s.table
    pub conditions : All (λ p. IsMarkFree (as_expression p)) s.conditions
    pub group_by : All IsMarkFreeColumn s.group_by
    pub having : All (λ p. IsMarkFree (as_expression p)) s.having
    pub order_by : All (λ o. Lacks b'?' o.order) s.order_by

  marks-render :
      (md : Model) (e : Expression V)
      → IsMarkFreeModel md
      → IsMarkFree e
      → marks (render md e) ≡ length (values e)
  unfolding render values count_byte
  marks-render md nil hm h = refl
  marks-render md (column col) hm h = marks-name_text md col.name hm
  marks-render md (value v) hm h = refl
  marks-render md (predicate left op right) hm (hl, ho, hr) = omega (
    arith,
    count_byte-append b'?' (enclosed (is_predicate left) (render md left))
        (op_text op ++ enclosed (is_predicate right) (render md right)),
    count_byte-append b'?' (op_text op) (enclosed (is_predicate right) (render md right)),
    marks-op_text op ho,
    marks-enclosed (is_predicate left) (render md left),
    marks-enclosed (is_predicate right) (render md right),
    marks-render md left hm hl,
    marks-render md right hm hr,
    length-append (values left) (values right),
  )
  marks-render md (raw_expr r) hm h = omega (arith, count_byte-append b'?' r.raw (b')' ∷ []))
  marks-render md (aggregate a) hm h = marks-aggregate_text md a hm h
  marks-render md other hm h = refl

  marks-selectable_text :
      (md : Model) (col : Selectable V)
      → IsMarkFreeModel md
      → IsMarkFreeSelectable col
      → marks (selectable_text md col) ≡ length (selectable_values col)
  unfolding selectable_text selectable_values count_byte
  marks-selectable_text md (column col) hm h = marks-column_text md col hm h
  marks-selectable_text md (aggregate a) hm h = marks-aggregate_text md a hm h
  marks-selectable_text md (raw_expr r) hm h = h
  marks-selectable_text md foreign hm h = refl

  marks-more_columns :
      (md : Model) (cols : List (Selectable V))
      → IsMarkFreeModel md
      → All IsMarkFreeSelectable cols
      → marks (commas (selectable_text md) cols) ≡ length (columns_values cols)
  unfolding count_byte
  marks-more_columns md [] hm h = refl
  marks-more_columns md (col ∷ cols) hm (h, hs) = omega (
    arith,
    count_byte-append b'?' (selectable_text md col) (commas (selectable_text md) cols),
    marks-selectable_text md col hm h,
    marks-more_columns md cols hm hs,
    length-append (selectable_values col) (columns_values cols),
  )

  marks-columns_text :
      (md : Model) (cols : List (Selectable V))
      → IsMarkFreeModel md
      → All IsMarkFreeSelectable cols
      → marks (columns_text md cols) ≡ length (columns_values cols)
  unfolding count_byte
  marks-columns_text md [] hm h = refl
  marks-columns_text md (col ∷ cols) hm h =
      let more : marks (commas (selectable_text md) (col ∷ cols))
          ≡ length (columns_values (col ∷ cols)) =
        marks-more_columns md (col ∷ cols) hm h in
      omega arith

  join-IsMarkFree :
      (p : Predicate V) (ps : List (Predicate V))
      → IsMarkFree (as_expression p)
      → All (λ q. IsMarkFree (as_expression q)) ps
      → IsMarkFree (as_expression (join p ps))
  unfolding join text
  join-IsMarkFree p [] h hs = h
  join-IsMarkFree p (q ∷ qs) h (hq, hqs) = join-IsMarkFree (and p q) qs (h, omega arith, hq) hqs

  marks-conditions_text :
      (word : Bytes) (md : Model) (ps : List (Predicate V))
      → marks word ≡ 0
      → IsMarkFreeModel md
      → All (λ q. IsMarkFree (as_expression q)) ps
      → marks (conditions_text word md ps) ≡ length (values (joined ps))
  unfolding count_byte values
  marks-conditions_text word md [] hw hm h = refl
  marks-conditions_text word md (p ∷ ps) hw hm (h, hs) = omega (
    arith,
    count_byte-append b'?' word (render md (joined (p ∷ ps))),
    marks-render md (joined (p ∷ ps)) hm (join-IsMarkFree p ps h hs),
  )

  marks-bound_text :
      (word : Bytes) (any_of : ℤ → V) (n : ℤ)
      → marks word ≡ 1
      → marks (bound_text word n) ≡ length (bound_values any_of n)
  unfolding count_byte
  marks-bound_text word any_of n h = ground arith

  marks-statement_text :
      (any_of : ℤ → V) (md : Model) (s : Selector V)
      → IsMarkFreeModel md
      → IsMarkFreeSelector s
      → marks (statement_text md s) ≡ length (statement_values any_of s)
  unfolding count_byte text
  marks-statement_text any_of md s hm h = balanced_front (text "SELECT ") _ _ refl (
      balanced_append (columns_text md s.columns) _ _ _
        (marks-columns_text md s.columns hm h.columns)
        (balanced_front (text " FROM ") _ _ refl (
          balanced_front (table_text md s.table) _ _ (marks-table_text md s.table hm h.table) (
            balanced_append (conditions_text (text " WHERE ") md s.conditions) _ _ _
              (marks-conditions_text (text " WHERE ") md s.conditions refl hm h.conditions)
              (balanced_front (group_by_text md s.group_by) _ _
                (marks-group_by_text md s.group_by hm h.group_by)
                (balanced_append (conditions_text (text " HAVING ") md s.having) _ _ _
                  (marks-conditions_text (text " HAVING ") md s.having refl hm h.having)
                  (balanced_front (order_by_text md s.order_by) _ _
                    (marks-order_by_text md s.order_by hm h.order_by)
                    (balanced_append (bound_text (text " LIMIT ?") s.limit) _ _ _
                      (marks-bound_text (text " LIMIT ?") any_of s.limit refl)
                      (balanced_back (bound_text (text " OFFSET ?") s.offset) _ _
                        (marks-bound_text (text " OFFSET ?") any_of s.offset refl) refl)))))))))

  unless_error-eq-ok :
      {R : Type 0} (e : Option (Error R)) (p q : Query V) → unless_error e p ≡ ok q → p ≡ q
  unfolding unless_error
  unless_error-eq-ok none p q h = cc
  unless_error-eq-ok (some e) p q h = cc

  -- If no name of the model, no alias, function, operator, direction and no table holds a question
  -- mark, every raw expression has as many as arguments, and the selector's output has as many
  -- placeholders as arguments, then so has every statement that `Build` returns.
  pub build-balanced :
      {R : Type 0} (any_of : ℤ → V) (md : Model) (s : Selector V) (q : Query V)
      → marks s.out.sb ≡ length s.out.args
      → IsMarkFreeModel md
      → IsMarkFreeSelector s
      → (Selector.build {R = R} any_of (ok md) s).1 ≡ ok q
      → marks q.sql ≡ length q.args
  build-balanced {R} any_of md s q ho hm h e =
      let same =
        unless_error-eq-ok {R = R} (statement_error md s) _ q
          (sym (build-outcome any_of (ok md) s) ∙ e) in
      rw (← same)
        (balanced_append s.out.sb _ s.out.args _ ho (marks-statement_text any_of md s hm h))
