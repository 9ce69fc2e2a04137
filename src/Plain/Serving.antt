-- ===== src/Plain/Serving.antt =====
-- The router of homework2 serves what that of homework1 serves.
use myhomework.Common.{
  Bytes, text, bytes_eq, split_byte, trim, List, [], ◌∷◌, Option, none, some, ◌≡◌, refl, Bool-cases,
  inl, inr, Option-cases,
}
use myhomework.Common.Dict.{lookup}
use myhomework.Web.Tree.{Setting, static, reg, param, any}
use myhomework.Web.Tree
use myhomework.Web.Register
use myhomework.Web.Match
use myhomework.Web.Match.{regex_matches}
use myhomework.Plain.Tree.{info}
use myhomework.Plain.Match.{
  MatchInfo, child_of_non_static, child_of, add_value, find_from, find_route, serve,
}
use myhomework.Plain.Forget.{
  map_some, forget_info, forget, forget_slot, forget_children, find_child-forget, forget_trees,
  lookup-forget_trees, forget_match,
}

module _ {k : Setting} where
  child_of_non_static-forget :
      (s : Bytes) (n : Tree.Node k)
      → child_of_non_static s (forget n) ≡ forget_slot (Match.child_of_non_static s n)
  unfolding child_of_non_static Match.child_of_non_static forget forget_slot forget_children
  child_of_non_static-forget s (Tree.node i c a Tree.absent Tree.absent) = refl
  child_of_non_static-forget s (Tree.node i c a (Tree.present p) Tree.absent) = refl
  child_of_non_static-forget s (Tree.node i c a Tree.absent (Tree.present (Tree.node j d b q r))) =
      elim (Bool-cases (regex_matches k j.reg_expr s)) [ inl e ↦ rw e refl | inr e ↦ rw e refl ]
  child_of_non_static-forget s
        (Tree.node i c a (Tree.present p) (Tree.present (Tree.node j d b q r))) =
      elim (Bool-cases (regex_matches k j.reg_expr s)) [ inl e ↦ rw e refl | inr e ↦ rw e refl ]

  child_of-forget :
      (s : Bytes) (n : Tree.Node k) → child_of s (forget n) ≡ forget_slot (Match.child_of s n)
  unfolding forget forget_slot forget_children child_of Match.child_of
  child_of-forget s (Tree.node i c a p r) = elim (Tree.Slot-cases (Tree.find_child s c)) [
    | inl e ↦
        rw (child_of, Match.child_of, find_child-forget s c, e)
          (child_of_non_static-forget s (Tree.node i c a p r))
    | inr (child, e) ↦ rw (child_of, Match.child_of, find_child-forget s c, e) refl
  ]

  info-forget : (n : Tree.Node k) → info (forget n) ≡ forget_info (Tree.info n)
  unfolding forget
  info-forget (Tree.node i c s p r) = refl

  -- Where no child matches, only a wildcard's node is the answer.
  stopped-forget :
      (typ : Tree.NodeType) (n : Tree.Node k) (m : List (Bytes × Bytes)) (mws : List k.Middleware)
      → elim typ as (λ x. Option (MatchInfo k)) [
        | any ↦ some (record { n = forget n; path_params = m })
        | _ ↦ none
      ]
        ≡ map_some forget_match (elim typ as (λ x. Option (Match.MatchInfo k)) [
          | any ↦ some (record { n = n; path_params = m; mws = mws })
          | _ ↦ none
        ])
  stopped-forget static n m mws = refl
  stopped-forget reg n m mws = refl
  stopped-forget param n m mws = refl
  stopped-forget any n m mws = refl

  find_from-forget :
      (top : Tree.Node k) (all segs : List Bytes) (n : Tree.Node k) (m : List (Bytes × Bytes))
      → find_from segs (forget n) m ≡ map_some forget_match (Match.find_from top all segs n m)
  unfolding find_from Match.find_from forget_slot
  find_from-forget top all [] n m = refl
  find_from-forget top all (s ∷ segs) n m = elim (Tree.Slot-cases (Match.child_of s n)) [
    | inl e ↦
        rw (find_from, Match.find_from, child_of-forget s n, e)
          (rw (info-forget n) (stopped-forget (Tree.info n).typ n m (Match.find_mdls n all)))
    | inr (child, e) ↦
        rw (find_from, Match.find_from, child_of-forget s n, e)
          (rw (info-forget child)
            (find_from-forget top all segs child (add_value (Tree.info child).param_name s m)))
  ]

  find_route-forget :
      (method path : Bytes) (trees : Register.Trees k)
      → find_route method path (forget_trees trees)
        ≡ map_some forget_match (Match.find_route method path trees)
  unfolding find_route Match.find_route
  find_route-forget method path trees = elim (Option-cases (lookup method trees)) [
    | inl e ↦ rw (find_route, Match.find_route, lookup-forget_trees method trees, e) refl
    | inr (top, e) ↦ elim (Bool-cases (bytes_eq path (text "/"))) [
      | inl d ↦ rw (find_route, Match.find_route, lookup-forget_trees method trees, e, d) refl
      | inr d ↦
          rw (find_route, Match.find_route, lookup-forget_trees method trees, e, d)
            (find_from-forget top (split_byte b'/' (trim b'/' path))
              (split_byte b'/' (trim b'/' path)) top [])
    ]
  ]

  -- A request gets the same reply from a router as from the one without its middlewares: the same
  -- handler with the same path parameters, or not found.
  pub serve-forget :
      (method path : Bytes) (trees : Register.Trees k)
      → Match.serve method path trees ≡ serve method path (forget_trees trees)
  unfolding serve Match.serve
  serve-forget method path trees = elim (Option-cases (Match.find_route method path trees)) [
    | inl e ↦ rw (serve, Match.serve, find_route-forget method path trees, e) refl
    | inr (mi, e) ↦
        rw (serve, Match.serve, find_route-forget method path trees, e) (rw (info-forget mi.n) refl)
  ]
