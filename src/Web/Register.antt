-- ===== src/Web/Register.antt =====
-- homework2/route.go: `addRoute` and the functions that it calls. A panic is an error value; the tree
-- that a panic leaves behind is not modelled.
use myhomework.Common.{
  Bytes, text, bytes_eq, cut_byte, split_byte, Bool, false, not, ◌&&◌, List, [], ◌∷◌, ◌++◌, Option,
  none, some, Result, ok, err, ◌>>=◌, ◌==◌, if◌then◌else◌,
}
use myhomework.Common.Dict.{lookup, insert}
use myhomework.Web.Tree.{
  Setting, static, reg, param, any, Node, node, absent, present, info, find_child, put_child,
  new_node,
}

pub data Panic : Type 0 where
  empty_path no_slash trailing_slash empty_segment : Panic
  route_conflict param_conflict reg_conflict : Panic
  star_after_param star_after_reg param_after_reg param_after_star : Panic
  reg_after_star reg_after_param bad_regex : Panic

-- Where a child stands below its node.
pub data Place : Type 0 where
  at_child : Bytes → Place
  at_star at_param at_reg : Place

-- `strings.HasSuffix(s, ")")`, with what stands before it.
unfoldable pub drop_close : Bytes → Option Bytes
drop_close [] = none
drop_close (b ∷ []) = if b == b')' then some [] else none
drop_close (b ∷ c ∷ s) = elim (drop_close (c ∷ s)) [ none ↦ none | some t ↦ some (b ∷ t) ]

-- The parameter's name, and the regular expression if there is one.
unfoldable pub parse_param : Bytes → Bytes × Option Bytes
unfolding drop_close
parse_param path = elim (cut_byte b'(' path) [
  | none ↦ (path, none)
  | some (name, rest) ↦ elim (drop_close rest) [
    | none ↦ (path, none)
    | some expr ↦ (name, some expr)
  ]
]

-- `path[len(path)-1] == '/'`
unfoldable pub ends_in_slash : Bytes → Bool
ends_in_slash [] = false
ends_in_slash (b ∷ []) = b == b'/'
ends_in_slash (b ∷ c ∷ s) = ends_in_slash (c ∷ s)

-- The checks at the start of `addRoute`.
unfoldable pub check_path : Bytes → Result Panic Bytes
unfolding ends_in_slash
check_path [] = err empty_path
check_path (b ∷ rest) =
    if not (b == b'/')
    then err no_slash
    else if not (bytes_eq rest []) && ends_in_slash rest
    then err trailing_slash
    else ok rest

-- The node after the call, the place of the child that it returns, and that child.
abbrev pub Placed : Setting → Type 0
Placed k = Node k × Place × Node k

-- The nodes of the HTTP methods.
abbrev pub Trees : Setting → Type 0
Trees k = List (Bytes × Node k)

-- `n.regChild.regExpr.String() == expr`. At a nil `regExpr`, which no such child has, the code would
-- panic.
abbrev pub source_is : (k : Setting) → Option k.Regex → Bytes → Bool
source_is k none expr = false
source_is k (some r) expr = bytes_eq (k.source r) expr

module _ {k : Setting} where
  unfoldable pub child_or_create_star : Bytes → Node k → Result Panic (Placed k)
  child_or_create_star path (node i c s (present p) r) = err star_after_param
  child_or_create_star path (node i c s absent (present r)) = err star_after_reg
  child_or_create_star path (node i c (present s) absent absent) =
      ok (node i c (present s) absent absent, at_star, s)
  child_or_create_star path (node i c absent absent absent) =
      let s = new_node any path [] none in ok (node i c (present s) absent absent, at_star, s)

  unfoldable pub child_or_create_param : Bytes → Bytes → Node k → Result Panic (Placed k)
  child_or_create_param path name (node i c s p (present r)) = err param_after_reg
  child_or_create_param path name (node i c (present s) p absent) = err param_after_star
  child_or_create_param path name (node i c absent (present p) absent) =
      if bytes_eq (info p).path path
      then ok (node i c absent (present p) absent, at_param, p)
      else err param_conflict
  child_or_create_param path name (node i c absent absent absent) =
      let p = new_node param path name none in ok (node i c absent (present p) absent, at_param, p)

  -- The code compares `paramName` with that of the node itself, not with that of `regChild`.
  unfoldable pub child_or_create_reg : Bytes → Bytes → Bytes → Node k → Result Panic (Placed k)
  child_or_create_reg path expr name (node i c (present s) p r) = err reg_after_star
  child_or_create_reg path expr name (node i c absent (present p) r) = err reg_after_param
  child_or_create_reg path expr name (node i c absent absent (present r)) =
      if source_is k (info r).reg_expr expr && bytes_eq i.param_name name
      then ok (node i c absent absent (present r), at_reg, r)
      else err reg_conflict
  child_or_create_reg path expr name (node i c absent absent absent) = elim (k.compile expr) [
    | none ↦ err bad_regex
    | some x ↦
        let r = new_node reg path name (some x) in
        ok (node i c absent absent (present r), at_reg, r)
  ]

  unfoldable pub child_or_create_static : Bytes → Node k → Result Panic (Placed k)
  child_or_create_static path (node i c s p r) = elim (find_child path c) [
    | present child ↦ ok (node i c s p r, at_child path, child)
    | absent ↦
        let child = new_node static path [] none in
        ok (node i (put_child path child c) s p r, at_child path, child)
  ]

  -- A segment that begins with a colon; `parsed` is what `parseParam` makes of it.
  unfoldable pub child_or_create_parsed :
      Bytes → Bytes × Option Bytes → Node k → Result Panic (Placed k)
  unfolding child_or_create_param child_or_create_reg
  child_or_create_parsed path (name, none) n = child_or_create_param path name n
  child_or_create_parsed path (name, some expr) n = child_or_create_reg path expr name n

  -- `childOrCreate`. The caller has refused the empty segment, at which `path[0]` would panic.
  unfoldable pub child_or_create : Bytes → Node k → Result Panic (Placed k)
  unfolding child_or_create_star child_or_create_parsed parse_param child_or_create_static
  child_or_create [] n = err empty_segment
  child_or_create (b ∷ s) n =
      if bytes_eq (b ∷ s) (b'*' ∷ [])
      then child_or_create_star (b ∷ s) n
      else if b == b':'
      then child_or_create_parsed (b ∷ s) (parse_param s) n
      else child_or_create_static (b ∷ s) n

  -- The tree after the child at a place has changed.
  unfoldable pub put_at : Place → Node k → Node k → Node k
  put_at (at_child path) child (node i c s p r) = node i (put_child path child c) s p r
  put_at at_star child (node i c s p r) = node i c (present child) p r
  put_at at_param child (node i c s p r) = node i c s (present child) r
  put_at at_reg child (node i c s p r) = node i c s p (present child)

  -- The end of `addRoute`: the handler, which `Use` leaves nil, and the middlewares.
  unfoldable pub set_handler : Option k.Handler → List k.Middleware → Node k → Result Panic (Node k)
  set_handler h mws (node i c s p r) = elim i.handler [
    | some _ ↦ err route_conflict
    | none ↦ ok (node (record i { handler = h; mws = i.mws ++ mws }) c s p r)
  ]

  -- The loop of `addRoute` over the segments.
  unfoldable pub add_segments :
      Option k.Handler → List k.Middleware → List Bytes → Node k → Result Panic (Node k)
  add_segments h mws [] n = set_handler h mws n
  add_segments h mws (s ∷ segs) n = if bytes_eq s [] then err empty_segment else (do
    (n', place, child) ← child_or_create s n
    child' ← add_segments h mws segs child
    ok (put_at place child' n'))

  -- What a new method starts with.
  abbrev pub root : Node k
  root = new_node static (text "/") [] none

  abbrev pub tree_of : Bytes → Trees k → Node k
  tree_of method trees = elim (lookup method trees) [ some n ↦ n | none ↦ root ]

  unfoldable pub add_route :
      Bytes → Bytes → Option k.Handler → List k.Middleware → Trees k → Result Panic (Trees k)
  unfolding check_path
  add_route method path h mws trees = do
    rest ← check_path path
    n ←
        (if bytes_eq rest []
          then set_handler h mws (tree_of method trees)
          else add_segments h mws (split_byte b'/' rest) (tree_of method trees))
    ok (insert method n trees)
