-- ===== src/Delete/Statements.antt =====
-- What `Build` of the deleter and of the selector returns, on success and on error.
use myhomework.Common.{
  Bytes, text, bytes_eq, ◌≡◌, refl, ◌↔◌, List, [], ◌∷◌, ◌++◌, append-nil, append_assoc, Option,
  none, some, Result-cases, ok, err, All, if◌then◌else◌, Bool-cases, inl, inr,
}
use myhomework.Writer.{Output, adding, continue, write_string, write_byte}
use myhomework.Writer.Laws.{continue-eq-none, skip-adding}
use myhomework.Delete.Expression.{
  Expression, nil, column, value, predicate, other, Predicate, as_expression, and, join,
}
use myhomework.Delete.Render.{render, values, IsSupported, build_expression-render}
use myhomework.Delete.Deleter
use myhomework.Delete.Deleter.{Deleter, Error, unsupported_expression, Query}

abbrev pub table_text : Bytes → Bytes → Bytes
table_text type_name table = if bytes_eq table [] then b'`' ∷ (type_name ++ b'`' ∷ []) else table

module _ {ℓ} {V : Type ℓ} where
  -- The condition that the list of conditions stands for, as an expression.
  abbrev pub joined : List (Predicate V) → Expression V
  joined [] = nil
  joined (p ∷ ps) = as_expression (join p ps)

  abbrev pub where_text : List (Predicate V) → Bytes
  where_text [] = []
  where_text (p ∷ ps) = text " WHERE " ++ render (joined (p ∷ ps))

  -- The statement from the word FROM on.
  abbrev pub tail_text : Bytes → Bytes → List (Predicate V) → Bytes
  tail_text type_name table ps = table_text type_name table ++ (where_text ps ++ text ";")

  abbrev pub AllSupported : List (Predicate V) → Type 0
  AllSupported ps = All (λ p. IsSupported (as_expression p)) ps

  join-IsSupported :
      (p : Predicate V) (ps : List (Predicate V))
      → IsSupported (as_expression p)
      → AllSupported ps
      → IsSupported (as_expression (join p ps))
  unfolding join
  join-IsSupported p [] h hs = h
  join-IsSupported p (q ∷ qs) h (hq, hqs) = join-IsSupported (and p q) qs (h, hq) hqs

  join-IsSupported_only :
      (p : Predicate V) (ps : List (Predicate V))
      → IsSupported (as_expression (join p ps))
      → IsSupported (as_expression p) × AllSupported ps
  unfolding join
  join-IsSupported_only p [] h = (h, tt)
  join-IsSupported_only p (q ∷ qs) h =
      let (both, rest) = join-IsSupported_only (and p q) qs h in (both.0, (both.1, rest))

  pub joined-IsSupported : (ps : List (Predicate V)) → AllSupported ps → IsSupported (joined ps)
  joined-IsSupported [] h = tt
  joined-IsSupported (p ∷ ps) (h, hs) = join-IsSupported p ps h hs

  joined-IsSupported_only : (ps : List (Predicate V)) → IsSupported (joined ps) → AllSupported ps
  joined-IsSupported_only [] h = tt
  joined-IsSupported_only (p ∷ ps) h = join-IsSupported_only p ps h

  -- The writer returns no error on supported expressions only.
  build_expression-eq-none :
      (e : Expression V) (o : Output V) → (Deleter.build_expression e o).1 ≡ none → IsSupported e
  unfolding Deleter.build_expression
  build_expression-eq-none nil o h = tt
  build_expression-eq-none (column c) o h = tt
  build_expression-eq-none (value v) o h = tt
  build_expression-eq-none (predicate left op right) o h =
      let (_, h₁) = continue-eq-none _ _ h in
      let (hl, h₂) = continue-eq-none _ _ h₁ in
      let (_, h₃) = continue-eq-none _ _ h₂ in
      let (_, h₄) = continue-eq-none _ _ h₃ in
      let (_, h₅) = continue-eq-none _ _ h₄ in
      let (_, h₆) = continue-eq-none _ _ h₅ in
      let (_, h₇) = continue-eq-none _ _ h₆ in
      let (hr, _) = continue-eq-none _ _ h₇ in
      (build_expression-eq-none left _ hl, build_expression-eq-none right _ hr)
  build_expression-eq-none other o h = cc

  -- The text that `Build` of the deleter adds.
  abbrev pub delete_text : Bytes → Deleter V → Bytes
  delete_text type_name d = text "DELETE FROM " ++ tail_text type_name d.table d.conditions

  -- The output after a successful `Build`.
  abbrev pub delete_output : Bytes → Deleter V → Output V
  delete_output type_name d = record {
    sb = d.out.sb ++ delete_text type_name d;
    args = d.out.args ++ values (joined d.conditions);
  }

  pub build_table-adding :
      (type_name table : Bytes) (o : Output V)
      → Deleter.build_table type_name table o ≡ adding (table_text type_name table) [] o
  unfolding Deleter.build_table continue write_string write_byte
  build_table-adding type_name table o = elim (Bool-cases (bytes_eq table [])) [
    | inl e ↦ rw (e, append-nil o.args) (simp append_assoc)
    | inr e ↦ rw (e, append-nil o.args) refl
  ]

  pub build_where-adding :
      (ps : List (Predicate V))
      → AllSupported ps
      → (o : Output V) → Deleter.build_where ps o ≡ adding (where_text ps) (values (joined ps)) o
  unfolding Deleter.build_where continue write_string values
  build_where-adding [] h o = skip-adding o
  build_where-adding (p ∷ ps) h o =
      rw (build_expression-render (joined (p ∷ ps)) (joined-IsSupported (p ∷ ps) h) _)
        (simp append_assoc)

  -- With supported conditions `Build` of the deleter returns the statement with its arguments: the
  -- text DELETE FROM, the table, the conditions joined by AND, a semicolon; and the values of the
  -- conditions from left to right. Both stand behind what the deleter had written before.
  pub build-delete_output :
      (type_name : Bytes) (d : Deleter V)
      → AllSupported d.conditions
      → Deleter.build type_name d ≡ (
        record d { out = delete_output type_name d },
        ok (record {
          sql = (delete_output type_name d).sb;
          args = (delete_output type_name d).args;
        }),
      )
  unfolding Deleter.build continue write_string
  build-delete_output type_name d h =
      rw (build_table-adding type_name d.table _, build_where-adding d.conditions h _)
        (simp (append_assoc, append-nil))

  pub build_where-eq-none :
      (ps : List (Predicate V)) (o : Output V)
      → (Deleter.build_where ps o).1 ≡ none
      → AllSupported ps
  unfolding Deleter.build_where
  build_where-eq-none [] o h = tt
  build_where-eq-none (p ∷ ps) o h =
      let (_, h₁) = continue-eq-none _ _ h in
      joined-IsSupported_only (p ∷ ps) (build_expression-eq-none (joined (p ∷ ps)) _ h₁)

  pub result-eq-ok :
      (r : Output V × Option Error) (q : Query V) → Deleter.result r ≡ ok q → r.1 ≡ none
  unfolding Deleter.result
  result-eq-ok (o, none) q h = refl
  result-eq-ok (o, some e) q h = cc

  pub build-ok_supported :
      (type_name : Bytes) (d : Deleter V) (q : Query V)
      → (Deleter.build type_name d).1 ≡ ok q
      → AllSupported d.conditions
  unfolding Deleter.build
  build-ok_supported type_name d q h =
      let (_, h₁) = continue-eq-none _ _ (result-eq-ok _ q h) in
      let (_, h₂) = continue-eq-none _ _ h₁ in
      let (h₃, _) = continue-eq-none _ _ h₂ in build_where-eq-none d.conditions _ h₃

  -- `Build` of the deleter returns the error exactly when a condition holds an expression of a type
  -- that the package does not know.
  pub build-error_iff :
      (type_name : Bytes) (d : Deleter V)
      → ((Deleter.build type_name d).1 ≡ err unsupported_expression)
        ↔ (¬ (AllSupported d.conditions))
  build-error_iff type_name d = (
    λ e h. cc (e, build-delete_output type_name d h),
    λ unsupported. elim (Result-cases (Deleter.build type_name d).1) [
      | inl (q, e) ↦ absurd (unsupported (build-ok_supported type_name d q e))
      | inr (unsupported_expression, e) ↦ e
    ],
  )

  -- `Build` does not reset the deleter: a second call writes the statement once more behind the
  -- first, and repeats its arguments.
  pub build-build :
      (type_name : Bytes) (d : Deleter V)
      → AllSupported d.conditions
      → (Deleter.build type_name (Deleter.build type_name d).0).1
        ≡ ok (record {
          sql = d.out.sb ++ (delete_text type_name d ++ delete_text type_name d);
          args = d.out.args ++ (values (joined d.conditions) ++ values (joined d.conditions));
        })
  build-build type_name d h =
      rw
        (
          build-delete_output type_name d h,
          build-delete_output type_name (record d { out = delete_output type_name d }) h,
        )
        (simp append_assoc)
