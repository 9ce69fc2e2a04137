-- ===== src/Orm/Sharing.antt =====
-- What a subquery writes that stands in a statement more than once, and what an upsert leaves out.
use myhomework.Common.{
  ℕ, Bytes, bytes_eq, ◌≡◌, refl, List, [], ◌∷◌, ◌++◌, append-nil, append_assoc, Bool, true, false,
  Option, none, some,
}
use myhomework.Orm.Expression.{
  Setting, Query, built, Subquery, Assignable, assignment, column, raw_expr, foreign, Expression,
}
use myhomework.Orm.Builder.{
  Fault, State, Frame, Action, drop_last, continue, ◌>>◌, write_string, write_byte, add_args,
  write_query, build_sub_query, answered, fill_cache,
}
use myhomework.Orm.Dialect.{Dialect, mysql, sqlite3, build_assigns, build_upsert}
use myhomework.Orm.Texts.{query_text}

module _ {k : Setting} where
  write_query-adds :
      (sql : Bytes) (args : List k.Value) (st : State k)
      → write_query sql args st
        ≡ (record st { sb = st.sb ++ query_text sql; args = st.args ++ args }, none)
  unfolding write_query continue write_string write_byte add_args
  write_query-adds sql args st = simp append_assoc

  -- A subquery that has not been built yet, written twice: the text of its query comes twice, the
  -- arguments of the query only once. The heap gives back what was stored last, and the query has a
  -- text in front of its semicolon.
  pub build_sub_query-twice :
      (sub : Subquery k) (st : State k) (q : Query k.Value) (sql : Bytes)
      → ((cell : ℕ) (s : Bytes) (heap : k.Heap) → k.cached cell (k.cache cell s heap) ≡ s)
      → k.cached sub.cell st.heap ≡ []
      → sub.cache_args ≡ []
      → (k.run sub.qb st.heap).1 ≡ built q
      → drop_last q.sql ≡ some sql
      → bytes_eq sql [] ≡ false
      → (build_sub_query sub >> build_sub_query sub) st ≡ (
        record {
          sb = st.sb ++ (query_text sql ++ query_text sql);
          args = st.args ++ q.args;
          heap = k.cache sub.cell sql (k.run sub.qb st.heap).0;
        },
        none,
      )
  unfolding build_sub_query answered fill_cache continue bytes_eq
  build_sub_query-twice sub st q sql law empty fresh answer cut full =
      simp (empty, answer, cut, write_query-adds, law, full, fresh, append-nil, append_assoc)

  continue_cong :
      (r : State k × Option (Fault k.Error)) (m n : Action k)
      → ((st : State k) → m st ≡ n st)
      → continue r m ≡ continue r n
  unfolding continue
  continue_cong (st, none) m n h = h st
  continue_cong (st, some e) m n h = refl

  build_assigns-drops :
      (d : Dialect) (f : Frame) (comma : Bool) (before after : List (Assignable k)) (col : Bytes)
      (val : Expression k) (st : State k)
      → build_assigns d f comma (before ++ assignment col val ∷ after) st
        ≡ build_assigns d f comma (before ++ assignment col val ∷ []) st
  unfolding build_assigns
  build_assigns-drops d f comma [] after col val st = refl
  build_assigns-drops d f comma (column c ∷ before) after col val st =
      continue_cong _ _ _
        (λ st1. continue_cong _ _ _ (build_assigns-drops d f true before after col val))
  build_assigns-drops d f comma (assignment c v ∷ before) after col val st = refl
  build_assigns-drops d f comma (raw_expr r ∷ before) after col val st = refl
  build_assigns-drops d f comma (foreign ∷ before) after col val st = refl

  -- In both dialects, an upsert leaves out all the assignments behind its first `Assignment`.
  pub build_upsert-drops :
      (d : Dialect) (f : Frame) (cols : List Bytes) (before after : List (Assignable k))
      (col : Bytes) (val : Expression k) (st : State k)
      → build_upsert d f
          (record { conflict_columns = cols; assigns = before ++ assignment col val ∷ after })
          st
        ≡ build_upsert d f
            (record { conflict_columns = cols; assigns = before ++ assignment col val ∷ [] })
            st
  unfolding build_upsert
  build_upsert-drops mysql f cols before after col val st =
      continue_cong _ _ _ (build_assigns-drops mysql f false before after col val)
  build_upsert-drops sqlite3 f cols before after col val st = continue_cong _ _ _ (λ st1.
      continue_cong _ _ _
        (λ st2. continue_cong _ _ _ (build_assigns-drops sqlite3 f false before after col val)))
