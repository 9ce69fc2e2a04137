-- ===== src/Select/Success.antt =====
-- When `Build` of the selector of homework_select succeeds.
use myhomework.Common.{
  Bytes, ◌≡◌, refl, ◌↔◌, List, [], ◌∷◌, ◌++◌, Option, none, some, ok, All, Option-cases, inl, inr,
}
use myhomework.Common.Dict.{lookup}
use myhomework.Writer.Outcomes.{or_else, or_else-eq-none}
use myhomework.Select.Expression.{
  Column, Expression, nil, column, value, predicate, raw_expr, aggregate, other, Predicate,
  Selectable, foreign, OrderBy, as_expression, and, join,
}
use myhomework.Select.Selector
use myhomework.Select.Selector.{Error, Field, Model, Query, ℤ, Selector}
use myhomework.Select.Texts.{
  missing, name_error, errors, joined, expression_error, selectable_error, statement_error,
  statement_text, statement_values,
}
use myhomework.Select.Statements.{build-outcome, unless_error}

abbrev pub IsField : Model → Bytes → Type 0
IsField md name = (fd : Field) × (lookup name md.field_map ≡ some fd)

module _ {ℓ} {V : Type ℓ} where
  -- Every column is a field of the model, and every part is of a type of the package.
  abbrev pub IsSound : Model → Expression V → Type 0
  IsSound md nil = Unit
  IsSound md (column col) = IsField md col.name
  IsSound md (value v) = Unit
  IsSound md (predicate left op right) = IsSound md left × IsSound md right
  IsSound md (raw_expr r) = Unit
  IsSound md (aggregate a) = IsField md a.arg
  IsSound md other = ⊥

  abbrev pub IsSelectable : Model → Selectable V → Type 0
  IsSelectable md (column col) = IsField md col.name
  IsSelectable md (aggregate a) = IsField md a.arg
  IsSelectable md (raw_expr r) = Unit
  IsSelectable md foreign = Unit

  -- Every clause names fields of the model only, and holds expressions of the package only.
  pub record IsBuildable (md : Model) (s : Selector V) : Type 0 where
    pub columns : All (IsSelectable md) s.columns
    pub conditions : All (λ p. IsSound md (as_expression p)) s.conditions
    pub group_by : All (λ col. IsField md col.name) s.group_by
    pub having : All (λ p. IsSound md (as_expression p)) s.having
    pub order_by : All (λ o. IsField md o.column_name) s.order_by

  join-IsSound :
      (md : Model) (p : Predicate V) (ps : List (Predicate V))
      → IsSound md (as_expression (join p ps))
        ↔ (IsSound md (as_expression p) × All (λ q. IsSound md (as_expression q)) ps)
  unfolding join
  join-IsSound md p [] = (λ h. (h, tt), λ h. h.0)
  join-IsSound md p (q ∷ qs) = (
    λ h. let (both, rest) = (join-IsSound md (and p q) qs).0 h in (both.0, (both.1, rest)),
    λ h. (join-IsSound md (and p q) qs).1 ((h.0, h.1.0), h.1.1),
  )

  joined-IsSound :
      (md : Model) (ps : List (Predicate V))
      → IsSound md (joined ps) ↔ All (λ q. IsSound md (as_expression q)) ps
  joined-IsSound md [] = (λ h. tt, λ h. tt)
  joined-IsSound md (p ∷ ps) = join-IsSound md p ps

module _ {R : Type 0} where
  or_else-none_iff :
      {P Q : Type 0} (e f : Option (Error R))
      → (e ≡ none) ↔ P
      → (f ≡ none) ↔ Q
      → (or_else e f ≡ none) ↔ (P × Q)
  or_else-none_iff e f p q =
      (λ h. let (he, hf) = or_else-eq-none e f h in (p.0 he, q.0 hf), λ h. rw (p.1 h.0, q.1 h.1))

  missing-none_iff :
      (name : Bytes) (found : Option Field)
      → (missing {R = R} name found ≡ none) ↔ ((fd : Field) × (found ≡ some fd))
  missing-none_iff name none = (λ h. cc, λ h. cc (h.1))
  missing-none_iff name (some fd) = (λ h. (fd, refl), λ h. refl)

  name_error-none_iff :
      (md : Model) (name : Bytes) → (name_error {R = R} md name ≡ none) ↔ IsField md name
  name_error-none_iff md name = missing-none_iff name (lookup name md.field_map)

  errors-none_iff {κ} :
      {A : Type κ} (P : A → Type 0) (error : A → Option (Error R))
      → ((a : A) → (error a ≡ none) ↔ P a)
      → (items : List A) → (errors error items ≡ none) ↔ All P items
  errors-none_iff P error h [] = (λ _. tt, λ _. refl)
  errors-none_iff P error h (a ∷ more) =
      or_else-none_iff (error a) (errors error more) (h a) (errors-none_iff P error h more)

module _ {ℓ} {V : Type ℓ} {R : Type 0} where
  expression_error-none_iff :
      (md : Model) (e : Expression V) → (expression_error {R = R} md e ≡ none) ↔ IsSound md e
  unfolding expression_error
  expression_error-none_iff md nil = (λ _. tt, λ _. refl)
  expression_error-none_iff md (column col) = name_error-none_iff md col.name
  expression_error-none_iff md (value v) = (λ _. tt, λ _. refl)
  expression_error-none_iff md (predicate left op right) =
      or_else-none_iff _ _ (expression_error-none_iff md left) (expression_error-none_iff md right)
  expression_error-none_iff md (raw_expr r) = (λ _. tt, λ _. refl)
  expression_error-none_iff md (aggregate a) = name_error-none_iff md a.arg
  expression_error-none_iff md other = (λ h. cc, λ h. absurd h)

  joined_error-none_iff :
      (md : Model) (ps : List (Predicate V))
      → (expression_error {R = R} md (joined ps) ≡ none)
        ↔ All (λ q. IsSound md (as_expression q)) ps
  joined_error-none_iff md ps =
      let (a, b) = expression_error-none_iff md (joined ps) in
      let (a', b') = joined-IsSound md ps in (λ h. a' (a h), λ h. b (b' h))

  selectable_error-none_iff :
      (md : Model) (col : Selectable V)
      → (selectable_error {R = R} md col ≡ none) ↔ IsSelectable md col
  unfolding selectable_error
  selectable_error-none_iff md (column col) = name_error-none_iff md col.name
  selectable_error-none_iff md (aggregate a) = name_error-none_iff md a.arg
  selectable_error-none_iff md (raw_expr r) = (λ _. tt, λ _. refl)
  selectable_error-none_iff md foreign = (λ _. tt, λ _. refl)

  statement_error-none_iff :
      (md : Model) (s : Selector V) → (statement_error {R = R} md s ≡ none) ↔ IsBuildable md s
  statement_error-none_iff md s =
      let parts =
        or_else-none_iff _ _
          (errors-none_iff (IsSelectable md) _ (selectable_error-none_iff md) s.columns)
          (or_else-none_iff _ _ (joined_error-none_iff md s.conditions) (
            or_else-none_iff _ _
              (errors-none_iff (λ (col : Column). IsField md col.name) _
                (λ col. name_error-none_iff md col.name) s.group_by)
              (or_else-none_iff _ _ (joined_error-none_iff md s.having) (
                errors-none_iff (λ (o : OrderBy). IsField md o.column_name) _
                  (λ o. name_error-none_iff md o.column_name) s.order_by)))) in
      (
        λ h.
            let p = parts.0 h in
            record {
              columns = p.0;
              conditions = p.1.0;
              group_by = p.1.1.0;
              having = p.1.1.1.0;
              order_by = p.1.1.1.1;
            },
        λ b. parts.1 (b.columns, (b.conditions, (b.group_by, (b.having, b.order_by)))),
      )

  -- Over a model that the registry returns, `Build` succeeds exactly when every clause names fields
  -- of the model only and holds no expression of a foreign type.
  pub build-ok_iff :
      (any_of : ℤ → V) (md : Model) (s : Selector V)
      → ((q : Query V) × ((Selector.build {R = R} any_of (ok md) s).1 ≡ ok q)) ↔ IsBuildable md s
  unfolding unless_error
  build-ok_iff any_of md s = (
    λ h. elim (Option-cases (statement_error {R = R} md s)) [
      | inl e ↦ (statement_error-none_iff md s).0 e
      | inr (e, found) ↦ absurd (cc (h.1, build-outcome {R = R} any_of (ok md) s, found))
    ],
    λ b.
        let e = (statement_error-none_iff md s).1 b in
        (
          record {
            sql = s.out.sb ++ statement_text md s;
            args = s.out.args ++ statement_values any_of s;
          },
          rw (build-outcome {R = R} any_of (ok md) s, e),
        ),
  )
