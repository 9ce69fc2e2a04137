-- ===== src/Delete/Expression.antt =====
-- homework_delete/column.go and predicate.go: columns, values and conditions. `V` is the type of
-- the values that Go passes as `any`.
use myhomework.Common.{Bytes, text, List, [], ◌∷◌, Bool, true, false}

pub record Column : Type 0 where
  pub name : Bytes

-- The dynamic types behind the interface `Expression`; `nil` is the nil interface. `other` is any
-- type outside the package that gets the method `expr` by embedding one of these.
pub data Expression {ℓ} (V : Type ℓ) : Type ℓ where
  nil : Expression V
  column : Column → Expression V
  value : V → Expression V
  predicate : Expression V → Bytes → Expression V → Expression V
  other : Expression V

pub record Predicate {ℓ} (V : Type ℓ) : Type ℓ where
  pub left : Expression V
  pub op : Bytes
  pub right : Expression V

abbrev pub op_eq : Bytes
op_eq = text "="

abbrev pub op_lt : Bytes
op_lt = text "<"

abbrev pub op_gt : Bytes
op_gt = text ">"

abbrev pub op_and : Bytes
op_and = text "AND"

abbrev pub op_or : Bytes
op_or = text "OR"

abbrev pub op_not : Bytes
op_not = text "NOT"

abbrev pub c : Bytes → Column
c name = record { name = name }

-- An argument of type `any`: an expression, or a plain value.
pub data Arg {ℓ} (V : Type ℓ) : Type ℓ where
  expression : Expression V → Arg V
  plain : V → Arg V

module _ {ℓ} {V : Type ℓ} where
  -- A predicate where an expression is wanted.
  abbrev pub as_expression : Predicate V → Expression V
  as_expression p = predicate p.left p.op p.right

  abbrev pub value_of : V → Expression V
  value_of v = value v

  abbrev pub expr_of : Arg V → Expression V
  expr_of (expression e) = e
  expr_of (plain v) = value_of v

  abbrev pub eq : Column → Arg V → Predicate V
  eq col arg = record { left = column col; op = op_eq; right = expr_of arg }

  abbrev pub lt : Column → Arg V → Predicate V
  lt col arg = record { left = column col; op = op_lt; right = expr_of arg }

  abbrev pub gt : Column → Arg V → Predicate V
  gt col arg = record { left = column col; op = op_gt; right = expr_of arg }

  abbrev pub negate : Predicate V → Predicate V
  negate p = record { left = nil; op = op_not; right = as_expression p }

  abbrev pub and : Predicate V → Predicate V → Predicate V
  and p r = record { left = as_expression p; op = op_and; right = as_expression r }

  abbrev pub or : Predicate V → Predicate V → Predicate V
  or p r = record { left = as_expression p; op = op_or; right = as_expression r }

  -- `_, ok := e.(Predicate)`
  abbrev pub is_predicate : Expression V → Bool
  is_predicate (predicate _ _ _) = true
  is_predicate _ = false

  -- The loop that joins the conditions by `And`; `p` is the one joined so far.
  unfoldable pub join : Predicate V → List (Predicate V) → Predicate V
  join p [] = p
  join p (q ∷ qs) = join (and p q) qs
