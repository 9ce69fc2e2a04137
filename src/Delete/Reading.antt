-- ===== src/Delete/Reading.antt =====
-- A reader of the SQL that `buildExpression` writes: the text and the arguments determine the
-- condition, since every operand that is a condition stands in parentheses.
use myhomework.Common.{
  ℕ, zero, suc, ◌≤◌, Bytes, Lacks, cut_byte, cut_byte-append, ◌≡◌, refl, List, [], ◌∷◌, ◌++◌,
  append-nil, append_assoc, Option, none, some, length, length-append, ◌==◌, arith, Bool, true,
  false, if◌then◌else◌,
}
use Prim.Native.Nat.{max}
use myhomework.Common.Options.{◌>>=◌}
use myhomework.Writer.{Output}
use myhomework.Writer.Laws.{enclosed}
use myhomework.Delete.Expression.{Expression, nil, column, value, predicate, other, is_predicate}
use myhomework.Delete.Render.{render, values, IsSupported, build_expression-render}
use myhomework.Delete.Deleter.{build_expression}

-- What a reader returns: the expression, and the text and the values that are left.
abbrev pub Reader {ℓ} : Type ℓ → Type ℓ
Reader V = Bytes → List V → Option (Expression V × Bytes × List V)

-- Drop the byte `c`, which must come first.
expect : ℕ → Bytes → Option Bytes
expect c [] = none
expect c (b ∷ s) = if b == c then some s else none

-- What follows an operand is not the start of one.
abbrev Ends : Bytes → Type 0
Ends [] = Unit
Ends (b ∷ s) = ((b == b'`') ≡ false) × ((b == b'?') ≡ false) × ((b == b'(') ≡ false)

enclosed-length : (b : Bool) (s : Bytes) → length s ≤ length (enclosed b s)
enclosed-length true s = omega (arith, length-append s (b')' ∷ []))
enclosed-length false s = omega arith

module _ {ℓ} {V : Type ℓ} where
  read_value : Bytes → List V → Option (Expression V × Bytes × List V)
  read_value s [] = none
  read_value s (v ∷ vs) = some (value v, s, vs)

  -- The parenthesis behind a condition.
  close : Expression V × Bytes × List V → Option (Expression V × Bytes × List V)
  close (e, s, vs) = do rest ← expect b')' s; some (e, rest, vs)

  -- An operand; `inner` reads a condition.
  read_operand : Reader V → Reader V
  read_operand inner [] vs = some (nil, [], vs)
  read_operand inner (b ∷ s) vs =
      if b == b'`'
      then (do (name, rest) ← cut_byte b'`' s; some (column (record { name = name }), rest, vs))
      else if b == b'?'
      then read_value s vs
      else if b == b'('
      then inner s vs >>= close
      else some (nil, b ∷ s, vs)

  -- A condition nested at most as deep as the first argument says.
  read_condition : ℕ → Reader V
  unfolding read_operand expect read_value close
  read_condition zero s vs = none
  read_condition (suc depth) s vs = do
    (left, s₁, vs₁) ← read_operand (read_condition depth) s vs
    s₂ ← expect b' ' s₁
    (op, s₃) ← cut_byte b' ' s₂
    (right, s₄, vs₂) ← read_operand (read_condition depth) s₃ vs₁
    some (predicate left op right, s₄, vs₂)

  abbrev height : Expression V → ℕ
  height (predicate left op right) = suc (max (height left) (height right))
  height _ = 0

  -- No column holds a back quote, no operator a space, and every part is of the package.
  abbrev pub IsReadable : Expression V → Type 0
  IsReadable nil = Unit
  IsReadable (column c) = Lacks b'`' c.name
  IsReadable (value v) = Unit
  IsReadable (predicate left op right) = IsReadable left × Lacks b' ' op × IsReadable right
  IsReadable other = ⊥

  -- That `inner` reads the condition `left op right`, whatever follows.
  abbrev Reads : Reader V → Expression V → Type ℓ
  Reads inner e =
      (rest : Bytes) (more : List V)
      → Ends rest
      → inner (render e ++ rest) (values e ++ more) ≡ some (e, rest, more)

  read_nested :
      (inner : Reader V) (e : Expression V) (rest : Bytes) (more : List V)
      → Reads inner e
      → (inner ((render e ++ b')' ∷ []) ++ rest) (values e ++ more) >>= close)
        ≡ some (e, rest, more)
  unfolding expect close
  read_nested inner e rest more reads =
      rw (append_assoc (render e) (b')' ∷ []) rest, reads (b')' ∷ rest) more (refl, refl, refl))
        refl

  read_operand-enclosed :
      (inner : Reader V) (e : Expression V) (rest : Bytes) (more : List V)
      → IsReadable e
      → (is_predicate e ≡ true → Reads inner e)
      → Ends rest
      → read_operand inner (enclosed (is_predicate e) (render e) ++ rest) (values e ++ more)
        ≡ some (e, rest, more)
  unfolding read_operand render values expect read_value close
  read_operand-enclosed inner nil [] more h hp he = refl
  read_operand-enclosed inner nil (b ∷ rest) more h hp (h₁, h₂, h₃) = rw (h₁, h₂, h₃) refl
  read_operand-enclosed inner (column c) rest more h hp he =
      rw (append_assoc c.name (b'`' ∷ []) rest, cut_byte-append b'`' c.name rest h) refl
  read_operand-enclosed inner (value v) rest more h hp he = refl
  read_operand-enclosed inner (predicate left op right) rest more h hp he =
      read_nested inner (predicate left op right) rest more (hp refl)
  read_operand-enclosed inner other rest more h hp he = absurd h

  read_condition-render :
      (e : Expression V) (depth : ℕ)
      → is_predicate e ≡ true
      → IsReadable e
      → height e ≤ depth
      → Reads (read_condition depth) e
  unfolding read_condition render values expect
  read_condition-render (predicate left op right) (suc depth) p (hl, ho, hr) hd rest more he =
      let s = b' ' ∷ (op ++ b' ' ∷ (enclosed (is_predicate right) (render right) ++ rest)) in
      let shape : (enclosed (is_predicate left) (render left)
              ++ (b' ' ∷ (op ++ b' ' ∷ enclosed (is_predicate right) (render right))))
            ++ rest
          ≡ enclosed (is_predicate left) (render left) ++ s =
        simp append_assoc in
      rw
        (
          shape,
          append_assoc (values left) (values right) more,
          read_operand-enclosed (read_condition depth) left s (values right ++ more) hl
              (λ q. read_condition-render left depth q hl (omega arith)) (refl, refl, refl),
          cut_byte-append b' ' op (enclosed (is_predicate right) (render right) ++ rest) ho,
          read_operand-enclosed (read_condition depth) right rest more hr
              (λ q. read_condition-render right depth q hr (omega arith)) he,
        )
        refl
  read_condition-render (predicate left op right) zero p h hd rest more he = absurd (omega arith)
  read_condition-render nil depth p h hd rest more he = cc
  read_condition-render (column c) depth p h hd rest more he = cc
  read_condition-render (value v) depth p h hd rest more he = cc
  read_condition-render other depth p h hd rest more he = cc

  -- Reads a condition from the front of a text; the text is long enough to bound the nesting.
  unfoldable pub read : Reader V
  unfolding read_condition
  read s vs = read_condition (length s) s vs

  height-le : (e : Expression V) → height e ≤ length (render e)
  unfolding render
  height-le (predicate left op right) = omega (
    arith,
    height-le left,
    height-le right,
    length-append (enclosed (is_predicate left) (render left))
        (b' ' ∷ (op ++ b' ' ∷ enclosed (is_predicate right) (render right))),
    length-append op (b' ' ∷ enclosed (is_predicate right) (render right)),
    enclosed-length (is_predicate left) (render left),
    enclosed-length (is_predicate right) (render right),
  )
  height-le nil = omega arith
  height-le (column c) = omega arith
  height-le (value v) = omega arith
  height-le other = omega arith

  IsReadable-IsSupported : (e : Expression V) → IsReadable e → IsSupported e
  IsReadable-IsSupported nil h = tt
  IsReadable-IsSupported (column c) h = tt
  IsReadable-IsSupported (value v) h = tt
  IsReadable-IsSupported (predicate left op right) (hl, _, hr) =
      (IsReadable-IsSupported left hl, IsReadable-IsSupported right hr)
  IsReadable-IsSupported other h = h

  read-render :
      (e : Expression V)
      → is_predicate e ≡ true
      → IsReadable e
      → read (render e) (values e) ≡ some (e, [], [])
  unfolding read
  read-render e p h =
      rw (append-nil (render e), append-nil (values e)) at
        (read_condition-render e (length (render e)) p h (height-le e) [] [] tt)

  -- Where no column holds a back quote, no operator a space, and every part is of the package, the
  -- text and the arguments that the writer adds to an empty output for a condition are read back as
  -- that condition, with nothing left: two conditions never share both.
  pub read-build_expression :
      (e : Expression V) (o : Output V)
      → is_predicate e ≡ true
      → IsReadable e
      → build_expression e (record { sb = []; args = [] }) ≡ (o, none)
      → read o.sb o.args ≡ some (e, [], [])
  read-build_expression e o p h b =
      let written =
        build_expression-render e (IsReadable-IsSupported e h) (record { sb = []; args = [] }) in
      let same : o ≡ record { sb = render e; args = values e } = cc (b, written) in
      rw same (read-render e p h)
