-- ===== src/Orm/Expression.antt =====
-- homework_subquery/column.go, predicate.go, aggregate.go, expression.go, table.go and model/model.go:
-- what the parts of a statement are made of.
use myhomework.Common.{ℕ, Bytes, List, Option, Result}

-- What the builders read of `model.Field` and `model.Model`.
pub record Field : Type 0 where
  pub col_name : Bytes
  pub go_name : Bytes

pub record Model : Type 0 where
  pub table_name : Bytes
  pub fields : List Field
  pub field_map : List (Bytes × Field)

pub record Query (V : Type 0) : Type 0 where
  pub sql : Bytes
  pub args : List V

-- What a call of `Build` through the interface `QueryBuilder` comes to.
pub data Answer (E V : Type 0) : Type 0 where
  built : Query V → Answer E V
  refused : E → Answer E V
  crashed : Answer E V

-- Go's `int`.
pub data ℤ : Type 0 where
  pos : ℕ → ℤ
  negsuc : ℕ → ℤ

-- What the builders use of other code. `Value` stands for `any`, `Entity` for what is given to the
-- registry, `Builder` for the interface `QueryBuilder` and `Row` for the pointers to rows. A call of
-- `Build` may change the heap, which also holds the strings that `subCacheSQL` points to.
pub record Setting : Type 1 where
  pub Value : Type 0
  pub Entity : Type 0
  pub Row : Type 0
  pub Builder : Type 0
  pub Heap : Type 0
  pub Error : Type 0
  pub value_of_int : ℤ → Value
  pub value_of_list : List Value → Value
  pub get : Entity → Result Error Model
  pub field : Row → Bytes → Result Error Value
  pub run : Builder → Heap → Heap × Answer Error Value
  pub cached : ℕ → Heap → Bytes
  pub cache : ℕ → Bytes → Heap → Heap

pub record RawExpr (k : Setting) : Type 0 where
  pub raw : Bytes
  pub args : List k.Value

-- A `Subquery`: `cell` is the pointer `subCacheSQL`, `column_names` has the `fieldName()` of each item
-- of `column`, and `model` may be nil.
pub record Subquery (k : Setting) : Type 0 where
  pub qb : k.Builder
  pub alias : Bytes
  pub cell : ℕ
  pub cache_args : List k.Value
  pub model : Option Model
  pub column_names : List Bytes

-- The types that have the fields of `binaryExpr`: `MathExpr`, `Predicate` and itself.
pub data Kind : Type 0 where
  math_expr predicate binary_expr : Kind

mutual
  -- The dynamic types behind the interface `TableReference`; `no_table` is the nil interface,
  -- `foreign` a type outside the package that embeds one of these, with what its `tableAlias()`
  -- returns.
  pub data TableReference (k : Setting) : Type 0 where
    no_table : TableReference k
    table : k.Entity → Bytes → TableReference k
    join :
        TableReference k → Bytes → TableReference k → Conditions k → List Bytes → TableReference k
    subquery_table : Subquery k → TableReference k
    foreign : Bytes → TableReference k

  -- The dynamic types behind the interface `Expression`. A column has its table, name and alias, an
  -- aggregate its table, function, argument and alias. `nil` is the nil interface.
  pub data Expression (k : Setting) : Type 0 where
    nil : Expression k
    column : TableReference k → Bytes → Bytes → Expression k
    aggregate : TableReference k → Bytes → Bytes → Bytes → Expression k
    value : k.Value → Expression k
    raw_expr : RawExpr k → Expression k
    binary : Kind → Expression k → Bytes → Expression k → Expression k
    subquery : Subquery k → Expression k
    subquery_expr : Subquery k → Bytes → Expression k
    other : Expression k

  -- A list of predicates, each with its three fields.
  pub data Conditions (k : Setting) : Type 0 where
    no_more : Conditions k
    cond : Expression k → Bytes → Expression k → Conditions k → Conditions k

pub record Predicate (k : Setting) : Type 0 where
  pub left : Expression k
  pub op : Bytes
  pub right : Expression k

pub record Column (k : Setting) : Type 0 where
  pub table : TableReference k
  pub name : Bytes
  pub alias : Bytes

pub record Aggregate (k : Setting) : Type 0 where
  pub table : TableReference k
  pub fn : Bytes
  pub arg : Bytes
  pub alias : Bytes

-- The dynamic types behind the interface `Selectable`, with `foreign` for a type of another package
-- and what its `fieldName()` returns.
pub data Selectable (k : Setting) : Type 0 where
  column : Column k → Selectable k
  aggregate : Aggregate k → Selectable k
  raw_expr : RawExpr k → Selectable k
  foreign : Bytes → Selectable k

-- The dynamic types behind the interface `Assignable`; an `Assignment` has its two fields.
pub data Assignable (k : Setting) : Type 0 where
  column : Column k → Assignable k
  assignment : Bytes → Expression k → Assignable k
  raw_expr : RawExpr k → Assignable k
  foreign : Assignable k

-- An argument of type `any`: an expression, or a plain value.
pub data Arg (k : Setting) : Type 0 where
  expression : Expression k → Arg k
  plain : k.Value → Arg k
