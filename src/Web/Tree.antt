-- ===== src/Web/Tree.antt =====
-- homework2/route.go: the route tree. The pointers of a node to its children own what they point to,
-- so a node is a value with its children inside.
use myhomework.Common.{
  Bytes, bytes_eq, Bool, List, [], Option, none, if◌then◌else◌, ◌≡◌, refl, ◌⊎◌, inl, inr, arith,
  bytes_eq_iff,
}

-- What the router uses of other code: the handler and middleware types of its user, and the package
-- `regexp`.
pub record Setting : Type 1 where
  pub Handler : Type 0
  pub Middleware : Type 0
  pub Regex : Type 0
  pub compile : Bytes → Option Regex
  pub matches : Regex → Bytes → Bool
  pub source : Regex → Bytes

pub data NodeType : Type 0 where
  static reg param any : NodeType

-- The fields of `node` besides its children. A nil handler is `none`, and so is a nil `regExpr`.
pub record Info (k : Setting) : Type 0 where
  pub typ : NodeType
  pub path : Bytes
  pub handler : Option k.Handler
  pub param_name : Bytes
  pub reg_expr : Option k.Regex
  pub mws : List k.Middleware

mutual
  -- The last three fields are `starChild`, `paramChild` and `regChild`.
  pub data Node (k : Setting) : Type 0 where
    node : Info k → Children k → Slot k → Slot k → Slot k → Node k

  -- The map `children`; nil and empty behave alike.
  pub data Children (k : Setting) : Type 0 where
    nil : Children k
    cons : Bytes → Node k → Children k → Children k

  -- A `*node` that may be nil.
  pub data Slot (k : Setting) : Type 0 where
    absent : Slot k
    present : Node k → Slot k

module _ {k : Setting} where
  abbrev pub info : Node k → Info k
  info (node i c s p r) = i

  abbrev pub children : Node k → Children k
  children (node i c s p r) = c

  abbrev pub star_child : Node k → Slot k
  star_child (node i c s p r) = s

  abbrev pub param_child : Node k → Slot k
  param_child (node i c s p r) = p

  abbrev pub reg_child : Node k → Slot k
  reg_child (node i c s p r) = r

  -- `n.children[path]`
  unfoldable pub find_child : Bytes → Children k → Slot k
  find_child path nil = absent
  find_child path (cons q n c) = if bytes_eq q path then present n else find_child path c

  -- `n.children[path] = child`
  unfoldable pub put_child : Bytes → Node k → Children k → Children k
  put_child path n nil = cons path n nil
  put_child path n (cons q m c) =
      if bytes_eq q path then cons path n c else cons q m (put_child path n c)

  -- `&node{path: path, typ: typ}`
  abbrev pub new_node : NodeType → Bytes → Bytes → Option k.Regex → Node k
  new_node typ path param_name reg_expr =
      node
        (record {
          typ = typ;
          path = path;
          handler = none;
          param_name = param_name;
          reg_expr = reg_expr;
          mws = [];
        })
        nil absent absent absent

  pub Slot-cases : (s : Slot k) → (s ≡ absent) ⊎ ((n : Node k) × (s ≡ present n))
  Slot-cases absent = inl refl
  Slot-cases (present n) = inr (n, refl)

  pub find_child-put_child :
      (p q : Bytes) (n : Node k) (c : Children k)
      → find_child q (put_child p n c) ≡ (if bytes_eq p q then present n else find_child q c)
  unfolding find_child put_child
  find_child-put_child p q n nil = refl
  find_child-put_child p q n (cons r m c) =
      ground
        (arith, bytes_eq_iff p q, bytes_eq_iff r p, bytes_eq_iff r q, find_child-put_child p q n c)
