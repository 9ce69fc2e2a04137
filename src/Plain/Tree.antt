-- ===== src/Plain/Tree.antt =====
-- homework1/route.go: the route tree of the router without middlewares. A node owns its children, so
-- it is a value with its children inside. What the router uses of other code is what that of homework2
-- uses, and the constants of `nodeType` are the same.
use myhomework.Common.{Bytes, bytes_eq, Option, none, if◌then◌else◌}
use myhomework.Web.Tree.{Setting, NodeType}

-- The fields of `node` besides its children. A nil handler is `none`, and so is a nil `regExpr`.
pub record Info (k : Setting) : Type 0 where
  pub typ : NodeType
  pub path : Bytes
  pub handler : Option k.Handler
  pub param_name : Bytes
  pub reg_expr : Option k.Regex

mutual
  -- The last three fields are `starChild`, `paramChild` and `regChild`.
  pub data Node (k : Setting) : Type 0 where
    node : Info k → Children k → Slot k → Slot k → Slot k → Node k

  -- The map `children`; nil and empty behave alike.
  pub data Children (k : Setting) : Type 0 where
    nil : Children k
    cons : Bytes → Node k → Children k → Children k

  -- A `*node` that may be nil.
  pub data Slot (k : Setting) : Type 0 where
    absent : Slot k
    present : Node k → Slot k

module _ {k : Setting} where
  abbrev pub info : Node k → Info k
  info (node i c s p r) = i

  abbrev pub children : Node k → Children k
  children (node i c s p r) = c

  abbrev pub reg_child : Node k → Slot k
  reg_child (node i c s p r) = r

  -- `n.children[path]`
  unfoldable pub find_child : Bytes → Children k → Slot k
  find_child path nil = absent
  find_child path (cons q n c) = if bytes_eq q path then present n else find_child path c

  -- `n.children[path] = child`
  unfoldable pub put_child : Bytes → Node k → Children k → Children k
  put_child path n nil = cons path n nil
  put_child path n (cons q m c) =
      if bytes_eq q path then cons path n c else cons q m (put_child path n c)

  -- `&node{path: path, typ: typ}`
  abbrev pub new_node : NodeType → Bytes → Bytes → Option k.Regex → Node k
  new_node typ path param_name reg_expr =
      node
        (record {
          typ = typ;
          path = path;
          handler = none;
          param_name = param_name;
          reg_expr = reg_expr;
        })
        nil absent absent absent
