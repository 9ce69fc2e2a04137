-- ===== src/Delete/Render.antt =====
-- What a condition looks like in SQL, and that `build_expression` writes just that.
use myhomework.Common.{Bytes, ◌≡◌, refl, List, [], ◌∷◌, ◌++◌, append-nil, append_assoc}
use myhomework.Writer.{Output, adding, continue, write_string, write_byte, add_args}
use myhomework.Writer.Laws.{skip-adding, enclosed, enclosed_then, enclosed_last}
use myhomework.Delete.Expression.{Expression, nil, column, value, predicate, other, is_predicate}
use myhomework.Delete.Deleter.{build_expression}

module _ {ℓ} {V : Type ℓ} where
  -- The SQL text of an expression.
  unfoldable pub render : Expression V → Bytes
  render nil = []
  render (column c) = b'`' ∷ (c.name ++ b'`' ∷ [])
  render (value v) = b'?' ∷ []
  render (predicate left op right) =
      enclosed (is_predicate left) (render left)
      ++ (b' ' ∷ (op ++ b' ' ∷ enclosed (is_predicate right) (render right)))
  render other = []

  -- The values of an expression, from left to right.
  unfoldable pub values : Expression V → List V
  values nil = []
  values (column c) = []
  values (value v) = v ∷ []
  values (predicate left op right) = values left ++ values right
  values other = []

  -- Every part is of a type of the package.
  abbrev pub IsSupported : Expression V → Type 0
  IsSupported nil = Unit
  IsSupported (column c) = Unit
  IsSupported (value v) = Unit
  IsSupported (predicate left op right) = IsSupported left × IsSupported right
  IsSupported other = ⊥

  -- On a supported expression the writer adds the SQL text and the values, and returns no error.
  pub build_expression-render :
      (e : Expression V)
      → IsSupported e
      → (o : Output V) → build_expression e o ≡ adding (render e) (values e) o
  unfolding build_expression render values continue write_string write_byte add_args
  build_expression-render nil h o = skip-adding o
  build_expression-render (column c) h o = rw (append-nil o.args) (simp append_assoc)
  build_expression-render (value v) h o = refl
  build_expression-render (predicate left op right) (hl, hr) o =
      rw
        (
          enclosed_then (is_predicate left) (build_expression left) _ (render left) (values left)
              (build_expression-render left hl) o,
          enclosed_last (is_predicate right) (build_expression right) (render right) (values right)
              (build_expression-render right hr) _,
        )
        (simp append_assoc)
  build_expression-render other h o = absurd h
