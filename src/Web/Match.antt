-- ===== src/Web/Match.antt =====
-- homework2/route.go: `findRoute`, `findMdls` and what they call; homework2/server.go: `serve`.
use myhomework.Common.{
  Bytes, text, bytes_eq, split_byte, trim, Bool, false, List, [], ◌∷◌, ◌++◌, Option, none, some,
  if◌then◌else◌,
}
use myhomework.Common.Dict.{lookup, insert}
use myhomework.Web.Tree.{
  Setting, any, Node, node, Slot, absent, present, info, children, star_child, param_child,
  reg_child, find_child,
}
use myhomework.Web.Register.{Trees}

-- `regExpr.Match`. At a nil `regExpr`, which no node in the place `regChild` has, the code would panic.
abbrev pub regex_matches : (k : Setting) → Option k.Regex → Bytes → Bool
regex_matches k none s = false
regex_matches k (some r) s = k.matches r s

-- The map `pathParams` is nil or holds the parameters found so far.
pub record MatchInfo (k : Setting) : Type 0 where
  pub n : Node k
  pub path_params : List (Bytes × Bytes)
  pub mws : List k.Middleware

-- What the client of the server sees, and which handler ran with which path parameters.
pub data Reply (k : Setting) : Type 0 where
  not_found : Reply k
  handled : k.Handler → List (Bytes × Bytes) → Reply k

-- `addValue`, where the child has a parameter name.
abbrev pub add_value : Bytes → Bytes → List (Bytes × Bytes) → List (Bytes × Bytes)
add_value key value m = if bytes_eq key [] then m else insert key value m

module _ {k : Setting} where
  abbrev param_or_star : Node k → Slot k
  param_or_star (node i c s (present p) r) = present p
  param_or_star (node i c s absent r) = s

  -- `childOfNonStatic`
  unfoldable pub child_of_non_static : Bytes → Node k → Slot k
  child_of_non_static path n = elim (reg_child n) [
    | absent ↦ param_or_star n
    | present r ↦ if regex_matches k (info r).reg_expr path then present r else param_or_star n
  ]

  -- `childOf`
  unfoldable pub child_of : Bytes → Node k → Slot k
  unfolding child_of_non_static
  child_of path n = elim (find_child path (children n)) [
    | absent ↦ child_of_non_static path n
    | present child ↦ present child
  ]

  -- The children that one round of `findMdls` visits below a node.
  wild_children : Bytes → Node k → List (Node k)
  wild_children seg n = elim (star_child n) [
    | present s ↦ s ∷ []
    | absent ↦ elim (reg_child n) [
      | present r ↦ if regex_matches k (info r).reg_expr seg then r ∷ [] else []
      | absent ↦ elim (param_child n) [ present p ↦ p ∷ [] | absent ↦ [] ]
    ]
  ]

  exact_children : Bytes → Node k → List (Node k)
  exact_children seg n = elim (find_child seg (children n)) [ present v ↦ v ∷ [] | absent ↦ [] ]

  unfoldable pub visited_children : Bytes → Node k → List (Node k)
  unfolding wild_children exact_children
  visited_children seg n = wild_children seg n ++ exact_children seg n

  unfoldable pub mws_of : List (Node k) → List k.Middleware
  mws_of [] = []
  mws_of (n ∷ ns) = (info n).mws ++ mws_of ns

  -- The inner loop of `findMdls`: the middlewares so far, and the nodes of the next level.
  unfoldable pub visit :
      Bytes → List (Node k) → List k.Middleware → List (Node k) → List k.Middleware × List (Node k)
  visit seg [] mws next = (mws, next)
  visit seg (n ∷ ns) mws next =
      visit seg ns (mws ++ mws_of (visited_children seg n)) (next ++ visited_children seg n)

  -- The outer loop, over the segments.
  unfoldable pub find_mdls_from : List Bytes → List (Node k) → List k.Middleware → List k.Middleware
  unfolding visit
  find_mdls_from [] nodes mws = mws
  find_mdls_from (seg ∷ segs) nodes mws =
      let r = visit seg nodes mws [] in find_mdls_from segs r.1 r.0

  unfoldable pub find_mdls : Node k → List Bytes → List k.Middleware
  unfolding find_mdls_from
  find_mdls n segs = find_mdls_from segs (n ∷ []) (info n).mws

  -- The loop of `findRoute`; `top` is the root and `all` holds all segments.
  unfoldable pub find_from :
      Node k → List Bytes → List Bytes → Node k → List (Bytes × Bytes) → Option (MatchInfo k)
  unfolding child_of find_mdls
  find_from top all [] current m =
      some (record { n = current; path_params = m; mws = find_mdls top all })
  find_from top all (s ∷ segs) current m = elim (child_of s current) [
    | absent ↦ elim (info current).typ [
      | any ↦ some (record { n = current; path_params = m; mws = find_mdls current all })
      | _ ↦ none
    ]
    | present child ↦ find_from top all segs child (add_value (info child).param_name s m)
  ]

  unfoldable pub find_route : Bytes → Bytes → Trees k → Option (MatchInfo k)
  unfolding find_from
  find_route method path trees = elim (lookup method trees) [
    | none ↦ none
    | some top ↦
        if bytes_eq path (text "/")
        then some (record { n = top; path_params = []; mws = (info top).mws })
        else find_from top (split_byte b'/' (trim b'/' path)) (split_byte b'/' (trim b'/' path)) top
            []
  ]

  abbrev reply_of : Option k.Handler → List (Bytes × Bytes) → Reply k
  reply_of none m = not_found
  reply_of (some h) m = handled h m

  -- `serve`
  unfoldable pub serve : Bytes → Bytes → Trees k → Reply k
  unfolding find_route
  serve method path trees = elim (find_route method path trees) [
    | none ↦ not_found
    | some mi ↦ reply_of (info mi.n).handler mi.path_params
  ]
