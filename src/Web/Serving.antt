-- ===== src/Web/Serving.antt =====
-- A registered path of plain segments is served by its handler.
use myhomework.Common.{
  Bytes, bytes_eq, bytes_eq_refl, join_byte, ◌≡◌, refl, ap, ◌∙◌, false, List, [], ◌∷◌, Option, none,
  some, ok, Ensures, Ensures-bind, of_Ensures, All, Bool-cases, inl, inr,
}
use mathlib.Core.Path.{subst}
use myhomework.Common.{
  Bytes, bytes_eq, bytes_eq_refl, join_byte, ◌≡◌, refl, ap, ◌∙◌, false, List, [], ◌∷◌, Option, none,
  some, ok, Ensures, Ensures-bind, of_Ensures, All, Bool-cases, inl, inr,
}
use myhomework.Common.Dict.{lookup, lookup-insert}
use myhomework.Web.Tree.{Setting, Node, absent, present, info, children, find_child, Slot-cases}
use myhomework.Web.Register.{Trees, tree_of, add_route, add_segments, check_path}
use myhomework.Web.Match.{MatchInfo, handled, add_value, child_of, find_from, find_route, serve}
use myhomework.Web.Shape.{
  IsWellFormed, AllWellFormed, find_child-AreStatic, children-AreStatic, add_route-AllWellFormed,
}
use myhomework.Web.Static.{segments_eq, segments_eq_refl, handler_at, Sets, add_segments-Sets}
use myhomework.Web.Paths.{
  IsSegment, path_of, not_root, trim-path_of, split-path_of, join_nonempty, IsRest,
  check_path-IsRest, segments-IsPlain,
}

module _ {k : Setting} where
  find_step :
      (top : Node k) (all q : List Bytes) (s : Bytes) (n child : Node k) (m : List (Bytes × Bytes))
      → find_child s (children n) ≡ present child
      → (info child).param_name ≡ []
      → find_from top all (s ∷ q) n m ≡ find_from top all q child m
  unfolding find_from
  find_step top all q s n child m e hp =
      rw (e, child_of, find_from)
        (ap (λ u. find_from top all q child u)
          (ap (λ name. add_value name s m) hp ∙ unfold bytes_eq in refl))

  -- Matching follows the static children as long as there are some.
  find_from-handler_at :
      (top : Node k) (all q : List Bytes) (n : Node k) (m : List (Bytes × Bytes)) (x : k.Handler)
      → IsWellFormed n
      → handler_at q n ≡ some x
      → (mi : MatchInfo k) × (find_from top all q n m ≡ some mi)
        × ((info mi.n).handler ≡ some x)
        × (mi.path_params ≡ m)
  unfolding find_from handler_at
  find_from-handler_at top all [] n m x w h = (_, refl, h, refl)
  find_from-handler_at top all (s ∷ q) n m x w h = elim (Slot-cases (find_child s (children n))) [
    | inl e ↦ cc (h, missed e)
    | inr (child, e) ↦
        let (kind, wc) = find_child-AreStatic s (children n) child (children-AreStatic n w) e in
        let (mi, found, hx, hm) =
          find_from-handler_at top all q child m x wc (rw (e, handler_at) at h) in
        (mi, find_step top all q s n child m e kind.1 ∙ found, hx, hm)
  ]
    where
      missed : find_child s (children n) ≡ absent → handler_at (s ∷ q) n ≡ none
      missed e = rw (e, handler_at) refl

  lookup-IsWellFormed :
      (method : Bytes) (trees : Trees k) (n : Node k)
      → AllWellFormed trees
      → lookup method trees ≡ some n
      → IsWellFormed n
  unfolding lookup
  lookup-IsWellFormed method [] n w e = cc
  lookup-IsWellFormed method ((j, m) ∷ trees) n (h, hs) e = elim (Bool-cases (bytes_eq j method)) [
    | inl t ↦ subst IsWellFormed (same (rw (t, lookup) at e)) h
    | inr f ↦ lookup-IsWellFormed method trees n hs (rw (f, lookup) at e)
  ]
    where
      same : {a b : Node k} → some a ≡ some b → a ≡ b
      same p = cc

  -- A handler that stands below static children of the method's tree is served, with no parameters.
  serve-handler_at :
      (method s : Bytes) (ss : List Bytes) (trees : Trees k) (n : Node k) (x : k.Handler)
      → AllWellFormed trees
      → All IsSegment (s ∷ ss)
      → lookup method trees ≡ some n
      → handler_at (s ∷ ss) n ≡ some x
      → serve method (path_of (s ∷ ss)) trees ≡ handled x []
  unfolding serve
  serve-handler_at method s ss trees n x w hs e h =
      let (mi, found, hx, hm) =
        find_from-handler_at n (s ∷ ss) (s ∷ ss) n [] x (lookup-IsWellFormed method trees n w e)
          h in
      let route : find_route method (path_of (s ∷ ss)) trees ≡ some mi =
        unfold find_route in
        rw (e, not_root s ss hs, trim-path_of s ss hs, split-path_of s ss hs, find_route) found in
      rw (route, hx, hm, serve) refl

  -- The tree of the method after registration, by its handlers.
  Sets-add_route :
      (method s : Bytes) (ss : List Bytes) (h : Option k.Handler) (mws : List k.Middleware)
      (trees : Trees k)
      → All IsSegment (s ∷ ss)
      → Ensures
          (λ trees'.
            (n : Node k) × (lookup method trees' ≡ some n)
            × Sets h (s ∷ ss) (tree_of method trees) n)
          (add_route method (path_of (s ∷ ss)) h mws trees)
  unfolding add_route
  Sets-add_route method s ss h mws trees hs =
      Ensures-bind (IsRest (join_byte b'/' (s ∷ ss))) _ (check_path (path_of (s ∷ ss))) _
        (check_path-IsRest _ (join_nonempty s ss hs))
        λ rest (same, more).
          rw (more, same, split-path_of s ss hs)
            (Ensures-bind (Sets h (s ∷ ss) (tree_of method trees)) _
              (add_segments h mws (s ∷ ss) (tree_of method trees)) _
              (add_segments-Sets h mws (s ∷ ss) (tree_of method trees)
                (segments-IsPlain (s ∷ ss) hs))
              λ n sets.
                (n, rw (lookup-insert method method n trees, bytes_eq_refl method) refl, sets))

  -- A path of plain segments that is registered with a handler is served by it from then on, with no
  -- path parameters, in every well-formed router.
  pub serve-add_route :
      (method s : Bytes) (ss : List Bytes) (x : k.Handler) (mws : List k.Middleware)
      (trees trees' : Trees k)
      → AllWellFormed trees
      → All IsSegment (s ∷ ss)
      → add_route method (path_of (s ∷ ss)) (some x) mws trees ≡ ok trees'
      → serve method (path_of (s ∷ ss)) trees' ≡ handled x []
  serve-add_route method s ss x mws trees trees' w hs e =
      let (n, found, sets) =
        of_Ensures _ _ trees' (Sets-add_route method s ss (some x) mws trees hs) e in
      serve-handler_at method s ss trees' n x
        (add_route-AllWellFormed method (path_of (s ∷ ss)) (some x) mws trees trees' w e) hs found
        (sets (s ∷ ss) ∙ rw (segments_eq_refl (s ∷ ss)) refl)

  -- A registration of another path of plain segments for the method leaves such a path with its
  -- handler: with a handler of its own or for middlewares alone.
  pub serve-add_route_ne :
      (method s t : Bytes) (ss ts : List Bytes) (x : k.Handler) (h : Option k.Handler)
      (mws : List k.Middleware) (trees trees' : Trees k)
      → AllWellFormed trees
      → All IsSegment (s ∷ ss)
      → All IsSegment (t ∷ ts)
      → segments_eq (t ∷ ts) (s ∷ ss) ≡ false
      → handler_at (s ∷ ss) (tree_of method trees) ≡ some x
      → add_route method (path_of (t ∷ ts)) h mws trees ≡ ok trees'
      → serve method (path_of (s ∷ ss)) trees' ≡ handled x []
  serve-add_route_ne method s t ss ts x h mws trees trees' w hs ht ne hx e =
      let (n, found, sets) = of_Ensures _ _ trees' (Sets-add_route method t ts h mws trees ht) e in
      serve-handler_at method s ss trees' n x
        (add_route-AllWellFormed method (path_of (t ∷ ts)) h mws trees trees' w e) hs found
        (sets (s ∷ ss) ∙ rw ne hx)
