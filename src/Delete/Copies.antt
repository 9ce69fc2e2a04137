-- ===== src/Delete/Copies.antt =====
-- The code that `Deleter` and `Selector` repeat does the same.
use myhomework.Common.{
  Bytes, text, ◌≡◌, refl, ap, List, [], ◌∷◌, ◌++◌, append-nil, append_assoc, ◌⊎◌, inl, inr, Option,
  none, some, ok, err, Result-cases,
}
use myhomework.Writer.{Output, continue, write_string}
use myhomework.Writer.Laws.{continue-eq-none}
use myhomework.Delete.Expression.{Expression, nil, column, value, predicate, other, Predicate}
use myhomework.Delete.Render.{values}
use myhomework.Delete.Deleter
use myhomework.Delete.Deleter.{Deleter, Error, Query, unsupported_expression}
use myhomework.Delete.Selector
use myhomework.Delete.Selector.{Selector, new_selector}
use myhomework.Delete.Statements.{
  AllSupported, joined, tail_text, build_table-adding, build_where-adding, build_where-eq-none,
  result-eq-ok, build-ok_supported, build-delete_output, build-error_iff,
}

module _ {ℓ} {V : Type ℓ} where
  build_expression_same :
      (e : Expression V) → Selector.build_expression e ≡ Deleter.build_expression e
  unfolding Selector.build_expression Deleter.build_expression
  build_expression_same nil = refl
  build_expression_same (column c) = refl
  build_expression_same (value v) = refl
  build_expression_same (predicate left op right) =
      rw (build_expression_same left, build_expression_same right) refl
  build_expression_same other = refl

  build_where_same : (ps : List (Predicate V)) → Selector.build_where ps ≡ Deleter.build_where ps
  unfolding Selector.build_where Deleter.build_where
  build_where_same [] = refl
  build_where_same (p ∷ ps) = rw (build_expression_same _) refl

  build_table_same :
      (type_name table : Bytes)
      → Selector.build_table {V = V} type_name table ≡ Deleter.build_table type_name table
  unfolding Selector.build_table Deleter.build_table
  build_table_same type_name table = refl

  result_same : (r : Output V × Option Error) → Selector.result r ≡ Deleter.result r
  unfolding Selector.result Deleter.result
  result_same (o, none) = refl
  result_same (o, some e) = refl

  select-ok :
      (type_name : Bytes) (s : Selector V)
      → AllSupported s.conditions
      → (Selector.build type_name s).1
        ≡ ok (record {
          sql = s.out.sb ++ (text "SELECT * FROM " ++ tail_text type_name s.table s.conditions);
          args = s.out.args ++ values (joined s.conditions);
        })
  unfolding Selector.build continue write_string
  select-ok type_name s h =
      rw
        (
          build_table_same type_name s.table,
          build_where_same s.conditions,
          build_table-adding type_name s.table _,
          build_where-adding s.conditions h _,
        )
        (simp (append_assoc, append-nil))

  select-ok_supported :
      (type_name : Bytes) (s : Selector V) (q : Query V)
      → (Selector.build type_name s).1 ≡ ok q
      → AllSupported s.conditions
  unfolding Selector.build
  select-ok_supported type_name s q h =
      let (_, h₁) = continue-eq-none _ _ (result-eq-ok _ q (rw result_same at h)) in
      let (_, h₂) = continue-eq-none _ _ h₁ in
      let (h₃, _) = continue-eq-none _ _ h₂ in
      build_where-eq-none s.conditions _ (rw (build_where_same s.conditions) at h₃)

  abbrev fresh_deleter : Bytes → List (Predicate V) → Deleter V
  fresh_deleter table ps = record {
    out = record { sb = []; args = [] };
    table = table;
    conditions = ps;
  }

  -- A new deleter and a new selector with the same table and conditions both fail with the error for
  -- an unsupported expression, or return the same arguments and statements that differ only in the
  -- words in front of the table.
  pub build-build_alike :
      (type_name table : Bytes) (ps : List (Predicate V))
      → let deleted = (Deleter.build type_name (fresh_deleter table ps)).1 in
        let selected =
          (Selector.build type_name (Selector.filtered ps (Selector.from table new_selector))).1 in
        ((tail : Bytes) × (vs : List V) × (deleted
            ≡ ok (record { sql = text "DELETE FROM " ++ tail; args = vs }))
          × (selected ≡ ok (record { sql = text "SELECT * FROM " ++ tail; args = vs })))
        ⊎ ((deleted ≡ err unsupported_expression) × (selected ≡ err unsupported_expression))
  build-build_alike type_name table ps =
      let d = fresh_deleter table ps in
      let s = Selector.filtered ps (Selector.from table new_selector) in
      elim (Result-cases (Deleter.build type_name d).1) [
        | inl (q, e) ↦
            let h = build-ok_supported type_name d q e in
            inl (
              tail_text type_name table ps,
              values (joined ps),
              ap (λ r. r.1) (build-delete_output type_name d h),
              select-ok type_name s h,
            )
        | inr (unsupported_expression, e) ↦ elim (Result-cases (Selector.build type_name s).1) [
          | inl (q, e') ↦
              absurd ((build-error_iff type_name d).0 e (select-ok_supported type_name s q e'))
          | inr (unsupported_expression, e') ↦ inr (e, e')
        ]
      ]
