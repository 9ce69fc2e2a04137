-- ===== src/Orm/Dialect.antt =====
-- homework_subquery/dialect.go: what the dialects write for an insertion that meets a conflict.
use myhomework.Common.{ℕ, Bytes, text, List, [], ◌∷◌, Bool, true, false, if◌then◌else◌}
use myhomework.Orm.Expression.{
  Setting, no_table, Assignable, column, assignment, raw_expr, foreign, Expression,
}
use myhomework.Orm.Builder.{
  unsupported_assignable, Frame, Action, ◌>>◌, skip, fail, write_string, write_byte, quote,
  with_result, col_name, build_column, build_expression,
}
use myhomework.Orm.Selector.{build_items}

pub data Dialect : Type 0 where
  mysql sqlite3 : Dialect

-- `quoter`
abbrev pub quoter : Dialect → ℕ
quoter mysql = b'`'
quoter sqlite3 = b'`'

pub record Upsert (k : Setting) : Type 0 where
  pub conflict_columns : List Bytes
  pub assigns : List (Assignable k)

module _ {k : Setting} where
  unfoldable pub mysql_column : Frame → Bytes → Action k
  unfolding quote
  mysql_column f name = do
    quote f name
    write_string (text "=VALUES(")
    quote f name
    write_byte b')'

  unfoldable pub sqlite3_column : Frame → Bytes → Action k
  unfolding quote
  sqlite3_column f name = do quote f name; write_string (text "=excluded."); quote f name

  unfoldable pub dialect_column : Dialect → Frame → Bytes → Action k
  unfolding mysql_column sqlite3_column
  dialect_column mysql = mysql_column
  dialect_column sqlite3 = sqlite3_column

  -- An `Assignment`, at which the function returns.
  unfoldable pub build_assign : Frame → Bytes → Expression k → Action k
  unfolding build_column build_expression
  build_assign f col val = do
    build_column f no_table col
    write_string (text "=")
    build_expression f val

  -- The loop over the assignments; the flag says whether a comma comes first.
  unfoldable pub build_assigns : Dialect → Frame → Bool → List (Assignable k) → Action k
  unfolding dialect_column build_assign with_result col_name
  build_assigns d f comma [] = skip
  build_assigns d f comma (column col ∷ more) = do
    if comma then write_byte b',' else skip
    with_result (col_name f col.table col.name) (λ name. dialect_column d f name)
    build_assigns d f true more
  build_assigns d f comma (assignment col val ∷ more) = do
    if comma then write_byte b',' else skip
    build_assign f col val
  build_assigns d f comma (raw_expr r ∷ more) = do
    if comma then write_byte b',' else skip
    fail unsupported_assignable
  build_assigns d f comma (foreign ∷ more) = do
    if comma then write_byte b',' else skip
    fail unsupported_assignable

  unfoldable pub build_conflict : Frame → List Bytes → Action k
  unfolding build_items build_column
  build_conflict f [] = skip
  build_conflict f (col ∷ cols) = do
    write_byte b'('
    build_items (build_column f no_table) (col ∷ cols)
    write_byte b')'

  unfoldable pub build_upsert : Dialect → Frame → Upsert k → Action k
  unfolding build_assigns build_conflict
  build_upsert mysql f u = do
    write_string (text " ON DUPLICATE KEY UPDATE ")
    build_assigns mysql f false u.assigns
  build_upsert sqlite3 f u = do
    write_string (text " ON CONFLICT")
    build_conflict f u.conflict_columns
    write_string (text " DO UPDATE SET ")
    build_assigns sqlite3 f false u.assigns
