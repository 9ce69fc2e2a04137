-- ===== src/Orm/Operands.antt =====
-- What the columns, expressions and tables of homework_subquery write.
use myhomework.Common.{
  Bytes, text, bytes_eq, ◌≡◌, refl, ap, List, [], ◌∷◌, append-nil, All, Bool, true, false, not,
  Option, none, if◌then◌else◌, ok, err,
}
use myhomework.Writer.Outcomes.{or_else-none}
use myhomework.Orm.Expression.{
  Setting, RawExpr, Subquery, TableReference, Expression, nil, column, aggregate, value, raw_expr,
  binary, subquery, subquery_expr, other, predicate, Conditions, no_more, cond,
}
use myhomework.Orm.Methods.{table_alias}
use myhomework.Orm.Builder
use myhomework.Orm.Builder.{
  Fault, returned, panicked, Frame, Action, State, drop_last, col_name, is_binary, is_nil,
  join_predicates, ◌>>◌, drop_error,
}
use myhomework.Orm.Columns.{table_column, col_name_lem}
use myhomework.Orm.Selector
use myhomework.Orm.Shapes.{
  table_alias_lem, conjoined, left_text_lem, right_text_lem, join_predicates_lem,
}
use myhomework.Orm.Outcomes.{
  result_error, Writes, Writes-skip, Writes-string, Writes-byte, Writes-args, Writes-fail,
  Writes-chain, Writes-eq, Writes-unless, Writes-with_result, Writes-enclosed, Writes-enclosed_last,
}
use myhomework.Orm.Texts.{
  quoted, qualifier_text, as_text, op_text, query_text, commas, listed, gathered, errors,
  column_text, column_error, aggregate_text, expression_error, joined, render, values, IsSettled,
  AreSettled, conditions_text,
}

joined-IsSettled :
    {k : Setting} (h : k.Heap) (p : Expression k) (ps : Conditions k)
    → IsSettled h p
    → AreSettled h ps
    → IsSettled h (conjoined p ps)
unfolding conjoined
joined-IsSettled h p no_more sp sps = sp
joined-IsSettled h p (cond left op right rest) sp (sl, sr, srest) =
    joined-IsSettled h (binary predicate p (text "AND") (binary predicate left op right)) rest
      (sp, (sl, sr)) srest

all_of_any : {A : Type 0} (items : List A) → All (λ (a : A). Unit {0}) items
all_of_any [] = tt
all_of_any (a ∷ more) = (tt, all_of_any more)

module _ {k : Setting} {h : k.Heap} where
  pub Writes-quote : (f : Frame) (s : Bytes) → Writes k h (Builder.quote f s) (quoted f s) [] none
  unfolding Builder.quote
  Writes-quote f s =
      Writes-chain (Writes-byte f.quoter) (Writes-chain (Writes-string s) (Writes-byte f.quoter))

  Writes-qualifier :
      (f : Frame) (alias : Bytes)
      → Writes k h (Builder.build_qualifier f alias) (qualifier_text f alias) [] none
  unfolding Builder.build_qualifier
  Writes-qualifier f alias =
      Writes-unless (bytes_eq alias []) (Writes-chain (Writes-quote f alias) (Writes-byte b'.'))

  pub Writes-as :
      (f : Frame) (alias : Bytes) → Writes k h (Builder.build_as f alias) (as_text f alias) [] none
  unfolding Builder.build_as
  Writes-as f alias =
      Writes-unless (bytes_eq alias []) (Writes-chain (Writes-string _) (Writes-quote f alias))

  -- What follows the look-up of a column.
  pub Writes-col_name :
      (f : Frame) (t : TableReference k) (fd : Bytes) {next : Bytes → Action k} (s : Bytes → Bytes)
      → ((name : Bytes) → Writes k h (next name) (s name) [] none)
      → Writes k h
          (Builder.with_result (col_name f t fd) next)
          (elim (table_column f t fd) [ ok name ↦ s name | err e ↦ [] ])
          []
          (result_error (table_column f t fd))
  Writes-col_name f t fd {next} s w =
      rw (col_name_lem f t fd) (Writes-with_result (table_column f t fd) s w [])

  pub Writes-column :
      (f : Frame) (t : TableReference k) (fd : Bytes)
      → Writes k h (Builder.build_column f t fd) (column_text f t fd) [] (column_error f t fd)
  unfolding Builder.build_column
  Writes-column f t fd =
      Writes-chain
        (Writes-eq (Writes-qualifier f (table_alias t)) (ap (qualifier_text f) (table_alias_lem t))
          refl refl)
        (Writes-col_name f t fd (quoted f) (Writes-quote f))

  pub Writes-aggregate :
      (f : Frame) (t : TableReference k) (fn arg : Bytes)
      → Writes k h
          (Builder.build_aggregate f t fn arg)
          (aggregate_text f t fn arg)
          []
          (column_error f t arg)
  unfolding Builder.build_aggregate
  Writes-aggregate f t fn arg =
      Writes-eq
        (Writes-chain (Writes-string fn) (
          Writes-chain (Writes-byte b'(')
            (Writes-chain (Writes-column f t arg) (Writes-byte b')'))))
        refl refl (or_else-none (column_error f t arg))

  pub Writes-raw : (r : RawExpr k) → Writes k h (Builder.build_raw r) r.raw r.args none
  unfolding Builder.build_raw
  Writes-raw r =
      Writes-eq (Writes-chain (Writes-string r.raw) (Writes-args r.args)) (append-nil r.raw) refl
        refl

  Writes-op : (op : Bytes) → Writes k h (Builder.build_op op) (op_text op) [] none
  unfolding Builder.build_op
  Writes-op op = Writes-unless (bytes_eq op []) (Writes-chain (Writes-byte b' ') (Writes-string op))

  Writes-query :
      (sql : Bytes) (args : List k.Value)
      → Writes k h (Builder.write_query sql args) (query_text sql) args none
  unfolding Builder.write_query
  Writes-query sql args =
      Writes-eq
        (Writes-chain (Writes-byte b'(')
          (Writes-chain (Writes-string sql) (Writes-chain (Writes-args args) (Writes-byte b')'))))
        refl (append-nil args) refl

  -- A subquery whose text is in the cache.
  Writes-sub_query :
      (sub : Subquery k)
      → bytes_eq (k.cached sub.cell h) [] ≡ false
      → Writes k h
          (Builder.build_sub_query sub)
          (query_text (k.cached sub.cell h))
          sub.cache_args
          none
  unfolding Builder.build_sub_query
  Writes-sub_query sub filled =
      let w = Writes-query (k.cached sub.cell h) sub.cache_args in
      record {
        returns = λ b xs. rw filled (w.returns b xs);
        adds = λ e b xs. rw filled (w.adds e b xs);
      }

  -- Dropping no error changes nothing.
  Writes-drop_error :
      {m : Action k} {s : Bytes} {vs : List k.Value}
      → Writes k h m s vs none
      → Writes k h (λ st. drop_error (m st)) s vs none
  unfolding Builder.drop_error
  Writes-drop_error w = record {
    returns = λ b xs. rw (w.adds refl b xs);
    adds = λ e b xs. rw (w.adds refl b xs);
  }

  -- The space in front of a right operand, which nil has none of.
  Writes-space :
      (b : Bool)
      → Writes k h
          (Builder.when (not b) (Builder.write_byte b' '))
          (if not b then b' ' ∷ [] else [])
          []
          none
  Writes-space true = Writes-skip
  Writes-space false = Writes-byte b' '

  pub Writes-expression :
      (f : Frame) (e : Expression k)
      → IsSettled h e
      → Writes k h (Builder.build_expression f e) (render h f e) (values h e) (expression_error f e)
  unfolding Builder.build_expression render values expression_error
  Writes-expression f nil settled = Writes-skip
  Writes-expression f (column t name alias) settled = Writes-column f t name
  Writes-expression f (aggregate t fn arg alias) settled = Writes-aggregate f t fn arg
  Writes-expression f (value v) settled = Writes-chain (Writes-byte b'?') (Writes-args (v ∷ []))
  Writes-expression f (raw_expr r) settled = Writes-raw r
  Writes-expression f (binary kind left op right) (sl, sr) =
      rw (← left_text_lem left (render h f left), ← right_text_lem right (render h f right))
        (Writes-enclosed (is_binary left) (Writes-expression f left sl) (
          Writes-chain (Writes-op op) (
            Writes-chain (Writes-space (is_nil right))
              (Writes-enclosed_last (is_binary right) (Writes-expression f right sr)))))
  Writes-expression f (subquery sub) settled = Writes-sub_query sub settled
  Writes-expression f (subquery_expr sub pred) settled =
      Writes-chain (Writes-string pred) (Writes-drop_error (Writes-sub_query sub settled))
  Writes-expression f other settled = Writes-fail _ [] []

  pub Writes-predicates :
      (word : Bytes) (f : Frame) (ps : Conditions k)
      → AreSettled h ps
      → Writes k h
          (Builder.build_predicates word f ps)
          (conditions_text h word f ps)
          (values h (joined ps))
          (expression_error f (joined ps))
  unfolding Builder.build_predicates values expression_error
  Writes-predicates word f no_more settled = Writes-skip
  Writes-predicates word f (cond left op right rest) (sl, sr, srest) =
      let p = binary predicate left op right in
      rw (join_predicates_lem p rest) (
        Writes-chain (Writes-string word)
          (Writes-expression f (conjoined p rest) (joined-IsSettled h p rest (sl, sr) srest)))

  -- A loop with commas, over items that write no arguments.
  Writes-more :
      {A : Type 0} (write : A → Action k) (item : A → Bytes) (error : A → Option (Fault k.Error))
      → ((a : A) → Writes k h (write a) (item a) [] (error a))
      → (items : List A)
      → Writes k h (Selector.build_more write items) (commas item items) [] (errors error items)
  unfolding Selector.build_more
  Writes-more write item error w [] = Writes-skip
  Writes-more write item error w (a ∷ more) =
      Writes-chain (Writes-byte b',') (Writes-chain (w a) (Writes-more write item error w more))

  pub Writes-items :
      {A : Type 0} (write : A → Action k) (item : A → Bytes) (error : A → Option (Fault k.Error))
      → ((a : A) → Writes k h (write a) (item a) [] (error a))
      → (items : List A)
      → Writes k h (Selector.build_items write items) (listed item items) [] (errors error items)
  unfolding Selector.build_items
  Writes-items write item error w [] = Writes-skip
  Writes-items write item error w (a ∷ more) =
      Writes-chain (w a) (Writes-more write item error w more)

  -- A loop with commas, over items that write arguments.
  Writes-more_each :
      {A : Type 0} (P : A → Type 0) (write : A → Action k) (item : A → Bytes)
      (vals : A → List k.Value) (error : A → Option (Fault k.Error))
      → ((a : A) → P a → Writes k h (write a) (item a) (vals a) (error a))
      → (items : List A) → All P items
      → Writes k h
          (Selector.build_more write items)
          (commas item items)
          (gathered vals items)
          (errors error items)
  unfolding Selector.build_more
  Writes-more_each P write item vals error w [] ps = Writes-skip
  Writes-more_each P write item vals error w (a ∷ more) (p, ps) =
      Writes-chain (Writes-byte b',')
        (Writes-chain (w a p) (Writes-more_each P write item vals error w more ps))

  pub Writes-each :
      {A : Type 0} (P : A → Type 0) (write : A → Action k) (item : A → Bytes)
      (vals : A → List k.Value) (error : A → Option (Fault k.Error))
      → ((a : A) → P a → Writes k h (write a) (item a) (vals a) (error a))
      → (items : List A) → All P items
      → Writes k h
          (Selector.build_items write items)
          (listed item items)
          (gathered vals items)
          (errors error items)
  unfolding Selector.build_items
  Writes-each P write item vals error w [] ps = Writes-skip
  Writes-each P write item vals error w (a ∷ more) (p, ps) =
      Writes-chain (w a p) (Writes-more_each P write item vals error w more ps)

  pub Writes-item_values :
      {A : Type 0} (write : A → Action k) (item : A → Bytes) (vals : A → List k.Value)
      (error : A → Option (Fault k.Error))
      → ((a : A) → Writes k h (write a) (item a) (vals a) (error a))
      → (items : List A)
      → Writes k h
          (Selector.build_items write items)
          (listed item items)
          (gathered vals items)
          (errors error items)
  Writes-item_values write item vals error w items =
      Writes-each (λ a. Unit {0}) write item vals error (λ a p. w a) items (all_of_any items)
