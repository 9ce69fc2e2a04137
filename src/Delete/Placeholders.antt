-- ===== src/Delete/Placeholders.antt =====
-- The placeholders of a DELETE statement against its arguments.
use myhomework.Common.{
  Bytes, text, Lacks, count_byte, count_byte-append, count_byte_of_Lacks, ◌≡◌, refl, List, [], ◌∷◌,
  ◌++◌, All, length, length-append, ok, arith, Bool, true, false,
}
use myhomework.Writer.Laws.{enclosed}
use myhomework.Delete.Expression.{
  Expression, nil, column, value, predicate, other, Predicate, as_expression, is_predicate, and,
  join,
}
use myhomework.Delete.Render.{render, values}
use myhomework.Delete.Deleter
use myhomework.Delete.Deleter.{Deleter, Query}
use myhomework.Delete.Statements.{
  joined, where_text, table_text, tail_text, delete_text, build-delete_output, build-ok_supported,
}

count_enclosed : (b : Bool) (s : Bytes) → count_byte b'?' (enclosed b s) ≡ count_byte b'?' s
unfolding count_byte
count_enclosed true s = omega (arith, count_byte-append b'?' s (b')' ∷ []))
count_enclosed false s = refl

count-table_text :
    (type_name table : Bytes)
    → Lacks b'?' type_name
    → Lacks b'?' table
    → count_byte b'?' (table_text type_name table) ≡ 0
unfolding count_byte
count-table_text type_name table hn ht = ground (
  arith,
  count_byte-append b'?' type_name (b'`' ∷ []),
  count_byte_of_Lacks b'?' type_name hn,
  count_byte_of_Lacks b'?' table ht,
)

module _ {ℓ} {V : Type ℓ} where
  -- No column and no operator holds a question mark.
  abbrev pub IsMarkFree : Expression V → Type 0
  IsMarkFree nil = Unit
  IsMarkFree (column c) = Lacks b'?' c.name
  IsMarkFree (value v) = Unit
  IsMarkFree (predicate left op right) = IsMarkFree left × Lacks b'?' op × IsMarkFree right
  IsMarkFree other = Unit

  pub count-render :
      (e : Expression V) → IsMarkFree e → count_byte b'?' (render e) ≡ length (values e)
  unfolding render values count_byte
  count-render nil h = refl
  count-render (column c) h =
      omega (arith, count_byte-append b'?' c.name (b'`' ∷ []), count_byte_of_Lacks b'?' c.name h)
  count-render (value v) h = refl
  count-render (predicate left op right) (hl, ho, hr) = omega (
    arith,
    count_byte-append b'?' (enclosed (is_predicate left) (render left))
        (b' ' ∷ (op ++ b' ' ∷ enclosed (is_predicate right) (render right))),
    count_byte-append b'?' op (b' ' ∷ enclosed (is_predicate right) (render right)),
    count_byte_of_Lacks b'?' op ho,
    count_enclosed (is_predicate left) (render left),
    count_enclosed (is_predicate right) (render right),
    count-render left hl,
    count-render right hr,
    length-append (values left) (values right),
  )
  count-render other h = refl

  join-IsMarkFree :
      (p : Predicate V) (ps : List (Predicate V))
      → IsMarkFree (as_expression p)
      → All (λ q. IsMarkFree (as_expression q)) ps
      → IsMarkFree (as_expression (join p ps))
  unfolding join text
  join-IsMarkFree p [] h hs = h
  join-IsMarkFree p (q ∷ qs) h (hq, hqs) = join-IsMarkFree (and p q) qs (h, omega arith, hq) hqs

  joined-IsMarkFree :
      (ps : List (Predicate V))
      → All (λ q. IsMarkFree (as_expression q)) ps
      → IsMarkFree (joined ps)
  joined-IsMarkFree [] h = tt
  joined-IsMarkFree (p ∷ ps) (h, hs) = join-IsMarkFree p ps h hs

  count-where_text :
      (ps : List (Predicate V))
      → All (λ q. IsMarkFree (as_expression q)) ps
      → count_byte b'?' (where_text ps) ≡ length (values (joined ps))
  unfolding count_byte values text
  count-where_text [] h = refl
  count-where_text (p ∷ ps) h = omega (
    arith,
    count_byte-append b'?' (text " WHERE ") (render (joined (p ∷ ps))),
    count-render (joined (p ∷ ps)) (joined-IsMarkFree (p ∷ ps) h),
  )

  -- If neither the table, the type name, a column nor an operator holds a question mark, and the
  -- deleter's output has as many placeholders as arguments, then so has every statement that `Build`
  -- returns.
  pub build-placeholders :
      (type_name : Bytes) (d : Deleter V) (q : Query V)
      → count_byte b'?' d.out.sb ≡ length d.out.args
      → Lacks b'?' type_name
      → Lacks b'?' d.table
      → All (λ p. IsMarkFree (as_expression p)) d.conditions
      → (Deleter.build type_name d).1 ≡ ok q
      → count_byte b'?' q.sql ≡ length q.args
  unfolding text count_byte
  build-placeholders type_name d q ho hn ht hs e =
      let built = build-delete_output type_name d (build-ok_supported type_name d q e) in
      ground (
        arith,
        built,
        count_byte-append b'?' d.out.sb (delete_text type_name d),
        count_byte-append b'?' (text "DELETE FROM ") (tail_text type_name d.table d.conditions),
        count_byte-append b'?' (table_text type_name d.table) (where_text d.conditions ++ text ";"),
        count_byte-append b'?' (where_text d.conditions) (text ";"),
        count-table_text type_name d.table hn ht,
        count-where_text d.conditions hs,
        length-append d.out.args (values (joined d.conditions)),
      )
