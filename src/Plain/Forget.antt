-- ===== src/Plain/Forget.antt =====
-- The route trees of homework2 without their middlewares are those of homework1.
use myhomework.Common.{
  Bytes, bytes_eq, [], ◌∷◌, Option, none, some, Result, ok, err, ◌≡◌, refl, Bool-cases, inl, inr,
}
use myhomework.Common.Dict.{lookup, insert}
use myhomework.Web.Tree.{Setting}
use myhomework.Web.Tree
use myhomework.Web.Register
use myhomework.Web.Register.{Panic, Place}
use myhomework.Web.Match
use myhomework.Plain.Tree.{
  Info, Node, node, Children, nil, cons, Slot, absent, present, find_child, put_child,
}
use myhomework.Plain.Register.{Placed, Trees}
use myhomework.Plain.Match.{MatchInfo}

-- A result of a function on what a result holds.
abbrev pub map_ok : {A B E : Type 0} → (A → B) → Result E A → Result E B
map_ok f (ok a) = ok (f a)
map_ok f (err e) = err e

abbrev pub map_some : {A B : Type 0} → (A → B) → Option A → Option B
map_some f none = none
map_some f (some a) = some (f a)

module _ {k : Setting} where
  abbrev pub forget_info : Tree.Info k → Info k
  forget_info i = record {
    typ = i.typ;
    path = i.path;
    handler = i.handler;
    param_name = i.param_name;
    reg_expr = i.reg_expr;
  }

  unfoldable mutual
    pub forget : Tree.Node k → Node k
    forget (Tree.node i c s p r) =
        node (forget_info i) (forget_children c) (forget_slot s) (forget_slot p) (forget_slot r)

    pub forget_children : Tree.Children k → Children k
    forget_children Tree.nil = nil
    forget_children (Tree.cons q n c) = cons q (forget n) (forget_children c)

    pub forget_slot : Tree.Slot k → Slot k
    forget_slot Tree.absent = absent
    forget_slot (Tree.present n) = present (forget n)

  pub find_child-forget :
      (path : Bytes) (c : Tree.Children k)
      → find_child path (forget_children c) ≡ forget_slot (Tree.find_child path c)
  unfolding find_child Tree.find_child forget forget_children forget_slot
  find_child-forget path Tree.nil = refl
  find_child-forget path (Tree.cons q n c) = elim (Bool-cases (bytes_eq q path)) [
    | inl e ↦ rw e refl
    | inr e ↦ rw e (find_child-forget path c)
  ]

  pub put_child-forget :
      (path : Bytes) (n : Tree.Node k) (c : Tree.Children k)
      → put_child path (forget n) (forget_children c) ≡ forget_children (Tree.put_child path n c)
  unfolding put_child Tree.put_child forget forget_children forget_slot
  put_child-forget path n Tree.nil = refl
  put_child-forget path n (Tree.cons q m c) = elim (Bool-cases (bytes_eq q path)) [
    | inl e ↦ rw e refl
    | inr e ↦ rw (e, put_child-forget path n c) refl
  ]

  abbrev pub forget_placed : Register.Placed k → Placed k
  forget_placed (n, place, child) = (forget n, place, forget child)

  -- The trees of all methods.
  unfoldable pub forget_trees : Register.Trees k → Trees k
  forget_trees [] = []
  forget_trees ((method, n) ∷ trees) = (method, forget n) ∷ forget_trees trees

  abbrev pub forget_match : Match.MatchInfo k → MatchInfo k
  forget_match mi = record { n = forget mi.n; path_params = mi.path_params }

  pub lookup-forget_trees :
      (method : Bytes) (trees : Register.Trees k)
      → lookup method (forget_trees trees) ≡ map_some forget (lookup method trees)
  unfolding lookup forget_trees
  lookup-forget_trees method [] = refl
  lookup-forget_trees method ((q, n) ∷ trees) = elim (Bool-cases (bytes_eq q method)) [
    | inl e ↦ rw e refl
    | inr e ↦ rw e (lookup-forget_trees method trees)
  ]

  pub insert-forget_trees :
      (method : Bytes) (n : Tree.Node k) (trees : Register.Trees k)
      → insert method (forget n) (forget_trees trees) ≡ forget_trees (insert method n trees)
  unfolding insert forget_trees
  insert-forget_trees method n [] = refl
  insert-forget_trees method n ((q, m) ∷ trees) = elim (Bool-cases (bytes_eq q method)) [
    | inl e ↦ rw e refl
    | inr e ↦ rw (e, insert-forget_trees method n trees) refl
  ]
