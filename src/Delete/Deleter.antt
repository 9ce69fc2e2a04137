-- ===== src/Delete/Deleter.antt =====
-- homework_delete/delete.go: `Deleter[T]`. The name of `T`, which reflection gives, is the argument
-- `type_name`.
use myhomework.Common.{
  Bytes, text, bytes_eq, List, [], ◌∷◌, Option, none, some, Result, ok, err, if◌then◌else◌,
}
use myhomework.Writer.{Output, Action, ◌>>◌, skip, fail, write_string, write_byte, add_args}
use myhomework.Delete.Expression.{
  Expression, nil, column, value, predicate, other, Predicate, as_expression, is_predicate, join,
}

pub data Error : Type 0 where
  unsupported_expression : Error

pub record Query {ℓ} (V : Type ℓ) : Type ℓ where
  pub sql : Bytes
  pub args : List V

-- `out` holds the fields `sb` and `args`; `conditions` is the field `where`.
pub record Deleter {ℓ} (V : Type ℓ) : Type ℓ where
  pub out : Output V
  pub table : Bytes
  pub conditions : List (Predicate V)

module _ {ℓ} {V : Type ℓ} where
  unfoldable pub build_expression : Expression V → Action Error V
  build_expression nil = skip
  build_expression (column c) = do write_byte b'`'; write_string c.name; write_byte b'`'
  build_expression (value v) = do write_byte b'?'; add_args (v ∷ [])
  build_expression (predicate left op right) = do
    if is_predicate left then write_byte b'(' else skip
    build_expression left
    if is_predicate left then write_byte b')' else skip
    write_byte b' '
    write_string op
    write_byte b' '
    if is_predicate right then write_byte b'(' else skip
    build_expression right
    if is_predicate right then write_byte b')' else skip
  build_expression other = fail unsupported_expression

  unfoldable pub build_where : List (Predicate V) → Action Error V
  unfolding build_expression
  build_where [] = skip
  build_where (p ∷ ps) = do
    write_string (text " WHERE ")
    build_expression (as_expression (join p ps))

  unfoldable pub build_table : Bytes → Bytes → Action Error V
  build_table type_name table =
      if bytes_eq table []
      then (do write_byte b'`'; write_string type_name; write_byte b'`')
      else write_string table

  -- The statements of `Build`, before the `Query` is made.
  unfoldable pub build_statement : Bytes → Deleter V → Action Error V
  unfolding build_where build_table
  build_statement type_name d = do
    write_string (text "DELETE FROM ")
    build_table type_name d.table
    build_where d.conditions
    write_string (text ";")

  unfoldable pub result : Output V × Option Error → Result Error (Query V)
  result (o, none) = ok (record { sql = o.sb; args = o.args })
  result (o, some e) = err e

  -- The deleter keeps what was written, also after an error.
  unfoldable pub build : Bytes → Deleter V → Deleter V × Result Error (Query V)
  unfolding build_statement result
  build type_name d =
      let r = build_statement type_name d d.out in (record d { out = r.0 }, result r)

  abbrev pub from : Bytes → Deleter V → Deleter V
  from table d = record d { table = table }

  abbrev pub filtered : List (Predicate V) → Deleter V → Deleter V
  filtered ps d = record d { conditions = ps }
