-- ===== src/Select/Operands.antt =====
-- What the builder of homework_select writes for a column, an aggregate and an expression.
use myhomework.Common.{
  Bytes, bytes_eq, refl, [], ◌∷◌, ◌++◌, append-nil, append_assoc, Option, none, some,
}
use myhomework.Writer.Outcomes.{
  or_else-none, Writes, Writes-eq, Writes-skip, Writes-string, Writes-byte, Writes-args,
  Writes-fail, Writes-chain, Writes-unless, Writes-enclosed, Writes-enclosed_last,
}
use myhomework.Select.Expression.{
  Column, Aggregate, Expression, nil, column, value, predicate, raw_expr, aggregate, other,
  is_predicate, c,
}
use myhomework.Select.Selector
use myhomework.Select.Selector.{Error, Field, Model, Query, ℤ, is_positive, Selector, registry}
use myhomework.Select.Texts.{
  alias_text, column_name, name_text, column_text, aggregate_text, op_text, missing, name_error,
  render, values, expression_error,
}

module _ {ℓ} {V : Type ℓ} {R : Type 0} where
  Writes-alias :
      (alias : Bytes)
      → Writes {E = Error R} {V = V} (Selector.build_alias alias) (alias_text alias) [] none
  unfolding Selector.build_alias
  Writes-alias alias =
      Writes-unless _
        (Writes-chain (Writes-string _) (Writes-chain (Writes-string _) (Writes-byte _)))

  Writes-found :
      (col : Column) (found : Option Field)
      → Writes {E = Error R} {V = V}
          (Selector.build_found col found)
          (column_name found ++ b'`' ∷ alias_text col.alias)
          []
          (missing col.name found)
  unfolding Selector.build_found
  Writes-found col none = Writes-fail _ _ _
  Writes-found col (some fd) =
      Writes-chain (Writes-string _) (Writes-chain (Writes-byte _) (Writes-alias col.alias))

  pub Writes-column :
      (md : Model) (col : Column)
      → Writes {E = Error R} {V = V}
          (Selector.build_column md col)
          (column_text md col)
          []
          (name_error md col.name)
  unfolding Selector.build_column
  Writes-column md col =
      Writes-eq (Writes-chain (Writes-byte _) (Writes-found col _)) (simp append_assoc) refl refl

  -- A column without an alias.
  pub Writes-name :
      (md : Model) (name : Bytes)
      → Writes {E = Error R} {V = V}
          (Selector.build_column md (c name))
          (name_text md name)
          []
          (name_error md name)
  unfolding bytes_eq
  Writes-name md name = Writes-eq (Writes-column md (c name)) (append-nil _) refl refl

  pub Writes-aggregate :
      (md : Model) (a : Aggregate)
      → Writes {E = Error R} {V = V}
          (Selector.build_aggregate md a)
          (aggregate_text md a)
          []
          (name_error md a.arg)
  unfolding Selector.build_aggregate
  Writes-aggregate md a =
      Writes-eq
        (Writes-chain (Writes-string _) (
          Writes-chain (Writes-byte _) (
            Writes-chain (Writes-name md a.arg)
              (Writes-chain (Writes-byte _) (Writes-alias a.alias)))))
        refl refl (or_else-none _)

  Writes-op :
      (op : Bytes) → Writes {E = Error R} {V = V} (Selector.build_op op) (op_text op) [] none
  unfolding Selector.build_op
  Writes-op op =
      Writes-unless _
        (Writes-chain (Writes-byte _) (Writes-chain (Writes-string _) (Writes-byte _)))

  pub Writes-expression :
      (md : Model) (e : Expression V)
      → Writes {E = Error R}
          (Selector.build_expression md e)
          (render md e)
          (values e)
          (expression_error md e)
  unfolding Selector.build_expression render values expression_error
  Writes-expression md nil = Writes-skip
  Writes-expression md (column col) = Writes-name md col.name
  Writes-expression md (value v) = Writes-chain (Writes-byte _) (Writes-args _)
  Writes-expression md (predicate left op right) =
      Writes-enclosed (is_predicate left) (Writes-expression md left) (
        Writes-chain (Writes-op op)
          (Writes-enclosed_last (is_predicate right) (Writes-expression md right)))
  Writes-expression md (raw_expr r) =
      Writes-eq
        (Writes-chain (Writes-byte _)
          (Writes-chain (Writes-string _) (Writes-chain (Writes-args _) (Writes-byte _))))
        refl (append-nil r.args) refl
  Writes-expression md (aggregate a) = Writes-aggregate md a
  Writes-expression md other = Writes-fail _ _ _
