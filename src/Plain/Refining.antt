-- ===== src/Plain/Refining.antt =====
-- The router of homework2 does to routes what that of homework1 does.
use myhomework.Common.{
  Bytes, bytes_eq, split_byte, List, [], ◌∷◌, Option, none, some, Result, ok, err, ◌>>=◌,
  if◌then◌else◌, ◌==◌, ◌&&◌, ◌≡◌, refl, sym, ap, Bool-cases, inl, inr, Result-cases, Option-cases,
}
use myhomework.Common.Dict.{lookup, insert}
use myhomework.Web.Tree.{Setting, static, reg, param, any}
use myhomework.Web.Tree
use myhomework.Web.Register
use myhomework.Web.Register.{Panic, Place, at_child, at_star, at_param, at_reg, source_is}
use myhomework.Plain.Tree.{node, Children, new_node}
use myhomework.Plain.Register.{
  parse_param, check_path, child_or_create_star, child_or_create_param, child_or_create_reg,
  child_or_create_static, child_or_create_parsed, child_or_create, put_at, set_handler,
  add_segments, tree_of, add_route,
}
use myhomework.Plain.Forget.{
  map_ok, forget_info, forget, forget_children, forget_slot, find_child-forget, put_child-forget,
  forget_placed, forget_trees, lookup-forget_trees, insert-forget_trees,
}

parse_param_same : (path : Bytes) → parse_param path ≡ Register.parse_param path
unfolding parse_param Register.parse_param
parse_param_same path = refl

check_path_same : (path : Bytes) → check_path path ≡ Register.check_path path
unfolding check_path Register.check_path
check_path_same [] = refl
check_path_same (b ∷ rest) = refl

module _ {k : Setting} where
  child_or_create_star-forget :
      (path : Bytes) (n : Tree.Node k)
      → child_or_create_star path (forget n)
        ≡ map_ok forget_placed (Register.child_or_create_star path n)
  unfolding child_or_create_star Register.child_or_create_star forget forget_slot forget_children
  child_or_create_star-forget path (Tree.node i c s (Tree.present p) r) = refl
  child_or_create_star-forget path (Tree.node i c s Tree.absent (Tree.present r)) = refl
  child_or_create_star-forget path (Tree.node i c (Tree.present s) Tree.absent Tree.absent) = refl
  child_or_create_star-forget path (Tree.node i c Tree.absent Tree.absent Tree.absent) = refl

  child_or_create_param-forget :
      (path name : Bytes) (n : Tree.Node k)
      → child_or_create_param path name (forget n)
        ≡ map_ok forget_placed (Register.child_or_create_param path name n)
  unfolding child_or_create_param Register.child_or_create_param forget forget_slot forget_children
  child_or_create_param-forget path name (Tree.node i c s p (Tree.present r)) = refl
  child_or_create_param-forget path name (Tree.node i c (Tree.present s) p Tree.absent) = refl
  child_or_create_param-forget path name
        (Tree.node i c Tree.absent (Tree.present (Tree.node j d s p r)) Tree.absent) =
      elim (Bool-cases (bytes_eq j.path path)) [ inl e ↦ rw e refl | inr e ↦ rw e refl ]
  child_or_create_param-forget path name (Tree.node i c Tree.absent Tree.absent Tree.absent) = refl

  child_or_create_reg-forget :
      (path expr name : Bytes) (n : Tree.Node k)
      → child_or_create_reg path expr name (forget n)
        ≡ map_ok forget_placed (Register.child_or_create_reg path expr name n)
  unfolding child_or_create_reg Register.child_or_create_reg forget forget_slot forget_children
  child_or_create_reg-forget path expr name (Tree.node i c (Tree.present s) p r) = refl
  child_or_create_reg-forget path expr name (Tree.node i c Tree.absent (Tree.present p) r) = refl
  child_or_create_reg-forget path expr name
        (Tree.node i c Tree.absent Tree.absent (Tree.present (Tree.node j d s p r))) =
      elim (Bool-cases (source_is k j.reg_expr expr && bytes_eq i.param_name name)) [
        | inl e ↦ rw e refl
        | inr e ↦ rw e refl
      ]
  child_or_create_reg-forget path expr name (Tree.node i c Tree.absent Tree.absent Tree.absent) =
      elim (Option-cases (k.compile expr)) [
        | inl e ↦ rw (Register.child_or_create_reg, e) refl
        | inr (x, e) ↦ rw (Register.child_or_create_reg, e) refl
      ]

  child_or_create_static-forget :
      (path : Bytes) (n : Tree.Node k)
      → child_or_create_static path (forget n)
        ≡ map_ok forget_placed (Register.child_or_create_static path n)
  unfolding child_or_create_static Register.child_or_create_static forget forget_slot
      forget_children
  child_or_create_static-forget path (Tree.node i c s p r) =
      elim (Tree.Slot-cases (Tree.find_child path c)) [
        | inl e ↦
            rw
              (child_or_create_static, Register.child_or_create_static, find_child-forget path c, e)
              (ap
                (λ (d : Children k). ok (
                  node (forget_info i) d (forget_slot s) (forget_slot p) (forget_slot r),
                  at_child path,
                  new_node static path [] none,
                ))
                (put_child-forget path (Tree.new_node static path [] none) c))
        | inr (child, e) ↦
            rw
              (child_or_create_static, Register.child_or_create_static, find_child-forget path c, e)
              refl
      ]

  child_or_create_parsed-forget :
      (path : Bytes) (parsed : Bytes × Option Bytes) (n : Tree.Node k)
      → child_or_create_parsed path parsed (forget n)
        ≡ map_ok forget_placed (Register.child_or_create_parsed path parsed n)
  unfolding child_or_create_parsed Register.child_or_create_parsed
  child_or_create_parsed-forget path (name, none) n = child_or_create_param-forget path name n
  child_or_create_parsed-forget path (name, some expr) n =
      child_or_create_reg-forget path expr name n

  child_or_create-forget :
      (path : Bytes) (n : Tree.Node k)
      → child_or_create path (forget n) ≡ map_ok forget_placed (Register.child_or_create path n)
  unfolding child_or_create Register.child_or_create
  child_or_create-forget [] n = refl
  child_or_create-forget (b ∷ s) n = elim (Bool-cases (bytes_eq (b ∷ s) (b'*' ∷ []))) [
    | inl e ↦ rw e (child_or_create_star-forget (b ∷ s) n)
    | inr e ↦ elim (Bool-cases (b == b':')) [
      | inl e' ↦
          rw (e, e', parse_param_same s)
            (child_or_create_parsed-forget (b ∷ s) (Register.parse_param s) n)
      | inr e' ↦ rw (e, e') (child_or_create_static-forget (b ∷ s) n)
    ]
  ]

  put_at-forget :
      (place : Place) (child n : Tree.Node k)
      → put_at place (forget child) (forget n) ≡ forget (Register.put_at place child n)
  unfolding put_at Register.put_at forget forget_slot forget_children
  put_at-forget (at_child path) child (Tree.node i c s p r) =
      rw (put_child-forget path child c) refl
  put_at-forget at_star child (Tree.node i c s p r) = refl
  put_at-forget at_param child (Tree.node i c s p r) = refl
  put_at-forget at_reg child (Tree.node i c s p r) = refl

  set_handler-forget :
      (h : Option k.Handler) (mws : List k.Middleware) (n : Tree.Node k)
      → set_handler h (forget n) ≡ map_ok forget (Register.set_handler h mws n)
  unfolding set_handler Register.set_handler forget forget_slot forget_children
  set_handler-forget h mws (Tree.node i c s p r) = elim (Option-cases i.handler) [
    | inl e ↦ rw e refl
    | inr (x, e) ↦ rw e refl
  ]

  add_segments-forget :
      (h : Option k.Handler) (mws : List k.Middleware) (segs : List Bytes) (n : Tree.Node k)
      → add_segments h segs (forget n) ≡ map_ok forget (Register.add_segments h mws segs n)
  unfolding add_segments Register.add_segments
  add_segments-forget h mws [] n = set_handler-forget h mws n
  add_segments-forget h mws (s ∷ segs) n = elim (Bool-cases (bytes_eq s [])) [
    | inl e ↦ rw e refl
    | inr e ↦
        rw (e, child_or_create-forget s n)
          (elim (Result-cases (Register.child_or_create s n)) [
            | inl ((n', place, child), c) ↦
                rw (c, add_segments-forget h mws segs child)
                  (elim (Result-cases (Register.add_segments h mws segs child)) [
                    | inl (child', d) ↦ rw (d, put_at-forget place child' n') refl
                    | inr (p, d) ↦ rw d refl
                  ])
            | inr (p, c) ↦ rw c refl
          ])
  ]

  tree_of-forget :
      (method : Bytes) (trees : Register.Trees k)
      → tree_of method (forget_trees trees) ≡ forget (Register.tree_of method trees)
  unfolding forget forget_slot forget_children
  tree_of-forget method trees = elim (Option-cases (lookup method trees)) [
    | inl e ↦ rw (tree_of, Register.tree_of, lookup-forget_trees method trees, e) refl
    | inr (n, e) ↦ rw (tree_of, Register.tree_of, lookup-forget_trees method trees, e) refl
  ]

  -- The root of a method, after the path or the segments of a registration.
  handled-forget :
      (h : Option k.Handler) (mws : List k.Middleware) (rest : Bytes) (n : Tree.Node k)
      → (if bytes_eq rest []
          then set_handler h (forget n)
          else add_segments h (split_byte b'/' rest) (forget n))
        ≡ map_ok forget (
            if bytes_eq rest []
            then Register.set_handler h mws n
            else Register.add_segments h mws (split_byte b'/' rest) n)
  handled-forget h mws rest n = elim (Bool-cases (bytes_eq rest [])) [
    | inl e ↦ rw e (set_handler-forget h mws n)
    | inr e ↦ rw e (add_segments-forget h mws (split_byte b'/' rest) n)
  ]

  -- The new root goes into the map.
  inserted-forget :
      (method : Bytes) (trees : Register.Trees k) (r : Result Panic (Tree.Node k))
      → map_ok forget_trees (r >>= λ n. ok (insert method n trees))
        ≡ (map_ok forget r >>= λ n. ok (insert method n (forget_trees trees)))
  inserted-forget method trees (ok n) = ap ok (sym (insert-forget_trees method n trees))
  inserted-forget method trees (err p) = refl

  -- To register a route with middlewares and then forget the middlewares of the router is to forget them
  -- first and register the route alone: the same router or the same panic.
  pub add_route-forget :
      (method path : Bytes) (h : Option k.Handler) (mws : List k.Middleware)
      (trees : Register.Trees k)
      → map_ok forget_trees (Register.add_route method path h mws trees)
        ≡ add_route method path h (forget_trees trees)
  unfolding add_route Register.add_route
  add_route-forget method path h mws trees = elim (Result-cases (Register.check_path path)) [
    | inr (p, c) ↦ rw (check_path_same path, c) refl
    | inl (rest, c) ↦
        rw
          (
            check_path_same path,
            c,
            tree_of-forget method trees,
            handled-forget h mws rest (Register.tree_of method trees),
          )
          (inserted-forget method trees (
            if bytes_eq rest []
            then Register.set_handler h mws (Register.tree_of method trees)
            else Register.add_segments h mws (split_byte b'/' rest)
                (Register.tree_of method trees)))
  ]
