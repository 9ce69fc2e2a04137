-- ===== src/Select/Expression.antt =====
-- homework_select/column.go, predicate.go, aggregate.go and expression.go: what the parts of a
-- statement are made of. `V` is the type of the values that Go passes as `any`.
use myhomework.Common.{Bytes, text, List, [], ◌∷◌, Bool, true, false}

pub record Column : Type 0 where
  pub name : Bytes
  pub alias : Bytes

pub record Aggregate : Type 0 where
  pub fn : Bytes
  pub arg : Bytes
  pub alias : Bytes

pub record RawExpr {ℓ} (V : Type ℓ) : Type ℓ where
  pub raw : Bytes
  pub args : List V

-- The dynamic types behind the interface `Expression`; `nil` is the nil interface. `other` is any
-- type outside the package that gets the method `expr` by embedding one of these.
pub data Expression {ℓ} (V : Type ℓ) : Type ℓ where
  nil : Expression V
  column : Column → Expression V
  value : V → Expression V
  predicate : Expression V → Bytes → Expression V → Expression V
  raw_expr : RawExpr V → Expression V
  aggregate : Aggregate → Expression V
  other : Expression V

pub record Predicate {ℓ} (V : Type ℓ) : Type ℓ where
  pub left : Expression V
  pub op : Bytes
  pub right : Expression V

-- The dynamic types behind the interface `Selectable`, with `foreign` for a type of another package.
pub data Selectable {ℓ} (V : Type ℓ) : Type ℓ where
  column : Column → Selectable V
  aggregate : Aggregate → Selectable V
  raw_expr : RawExpr V → Selectable V
  foreign : Selectable V

pub record OrderBy : Type 0 where
  pub column_name : Bytes
  pub order : Bytes

abbrev pub asc : Bytes → OrderBy
asc col = record { column_name = col; order = text "ASC" }

abbrev pub desc : Bytes → OrderBy
desc col = record { column_name = col; order = text "DESC" }

abbrev pub c : Bytes → Column
c name = record { name = name; alias = [] }

-- `Column.As`
abbrev pub column_as : Bytes → Column → Column
column_as alias col = record { name = col.name; alias = alias }

-- `Aggregate.As`
abbrev pub aggregate_as : Bytes → Aggregate → Aggregate
aggregate_as alias a = record { fn = a.fn; arg = a.arg; alias = alias }

abbrev pub avg : Bytes → Aggregate
avg col = record { fn = text "AVG"; arg = col; alias = [] }

abbrev pub max : Bytes → Aggregate
max col = record { fn = text "MAX"; arg = col; alias = [] }

abbrev pub min : Bytes → Aggregate
min col = record { fn = text "MIN"; arg = col; alias = [] }

abbrev pub count : Bytes → Aggregate
count col = record { fn = text "COUNT"; arg = col; alias = [] }

abbrev pub sum : Bytes → Aggregate
sum col = record { fn = text "SUM"; arg = col; alias = [] }

-- An argument of type `any`: an expression, or a plain value.
pub data Arg {ℓ} (V : Type ℓ) : Type ℓ where
  expression : Expression V → Arg V
  plain : V → Arg V

module _ {ℓ} {V : Type ℓ} where
  -- A predicate where an expression is wanted.
  abbrev pub as_expression : Predicate V → Expression V
  as_expression p = predicate p.left p.op p.right

  abbrev pub raw : Bytes → List V → RawExpr V
  raw expr args = record { raw = expr; args = args }

  abbrev pub as_predicate : RawExpr V → Predicate V
  as_predicate r = record { left = raw_expr r; op = []; right = nil }

  abbrev pub value_of : V → Expression V
  value_of v = value v

  abbrev pub expr_of : Arg V → Expression V
  expr_of (expression e) = e
  expr_of (plain v) = value_of v

  abbrev pub column_eq : Column → Arg V → Predicate V
  column_eq col arg = record { left = column col; op = text "="; right = expr_of arg }

  abbrev pub column_lt : Column → Arg V → Predicate V
  column_lt col arg = record { left = column col; op = text "<"; right = expr_of arg }

  abbrev pub column_gt : Column → Arg V → Predicate V
  column_gt col arg = record { left = column col; op = text ">"; right = expr_of arg }

  abbrev pub aggregate_eq : Aggregate → Arg V → Predicate V
  aggregate_eq a arg = record { left = aggregate a; op = text "="; right = expr_of arg }

  abbrev pub aggregate_lt : Aggregate → Arg V → Predicate V
  aggregate_lt a arg = record { left = aggregate a; op = text "<"; right = expr_of arg }

  abbrev pub aggregate_gt : Aggregate → Arg V → Predicate V
  aggregate_gt a arg = record { left = aggregate a; op = text ">"; right = expr_of arg }

  abbrev pub negate : Predicate V → Predicate V
  negate p = record { left = nil; op = text "NOT"; right = as_expression p }

  abbrev pub and : Predicate V → Predicate V → Predicate V
  and p r = record { left = as_expression p; op = text "AND"; right = as_expression r }

  abbrev pub or : Predicate V → Predicate V → Predicate V
  or p r = record { left = as_expression p; op = text "OR"; right = as_expression r }

  -- `_, ok := e.(Predicate)`
  abbrev pub is_predicate : Expression V → Bool
  is_predicate (predicate _ _ _) = true
  is_predicate _ = false

  -- The loops that join conditions by `And`; `p` is the one joined so far.
  unfoldable pub join : Predicate V → List (Predicate V) → Predicate V
  join p [] = p
  join p (q ∷ qs) = join (and p q) qs
