-- ===== src/Web/Shape.antt =====
-- What every route tree that registration builds looks like.
use mathlib.Core.Path.{subst}
use myhomework.Common.{
  Bytes, bytes_eq, ◌≡◌, refl, ◌≢◌, List, [], ◌∷◌, Option, none, some, ok, err, arith, Ensures,
  Ensures-bind, Ensures-if, of_Ensures, any_value, Bool-cases, inl, inr, All, split_byte,
  Option-cases, ◌&&◌, ◌==◌, if◌then◌else◌,
}
use myhomework.Common.Dict.{lookup, insert}
use myhomework.Web.Tree.{
  Setting, static, reg, param, any, Info, Node, node, Children, nil, cons, Slot, absent, present,
  info, children, find_child, put_child, new_node, Slot-cases,
}
use myhomework.Web.Register.{
  Place, at_child, at_star, at_param, at_reg, Placed, child_or_create_star, child_or_create_param,
  child_or_create_reg, child_or_create_static, child_or_create_parsed, child_or_create, parse_param,
  put_at, set_handler, add_segments, Trees, tree_of, check_path, add_route, source_is,
}

module _ {k : Setting} where
  -- At most one of the three children that are no static ones is there.
  abbrev pub HasOneWild : Slot k → Slot k → Slot k → Type 0
  HasOneWild absent absent r = Unit
  HasOneWild absent (present p) absent = Unit
  HasOneWild absent (present p) (present r) = ⊥
  HasOneWild (present s) absent absent = Unit
  HasOneWild (present s) absent (present r) = ⊥
  HasOneWild (present s) (present p) r = ⊥

  -- What a node is by its place.
  abbrev pub IsStaticNode : Info k → Type 0
  IsStaticNode i = (i.typ ≡ static) × (i.param_name ≡ [])

  abbrev pub IsStarNode : Info k → Type 0
  IsStarNode i = (i.typ ≡ any) × (i.param_name ≡ [])

  abbrev pub IsParamNode : Info k → Type 0
  IsParamNode i = i.typ ≡ param

  abbrev pub IsRegNode : Info k → Type 0
  IsRegNode i = (i.typ ≡ reg) × (i.reg_expr ≢ none)

  -- A node with at most one wildcard, parameter or regular-expression child, each child of the type
  -- that its place says, and a regular expression where one is matched.
  unfoldable mutual
    pub IsWellFormed : Node k → Type 0
    IsWellFormed (node i c s p r) =
        HasOneWild s p r
        × AreStatic c
        × FitsSlot IsStarNode s
        × FitsSlot IsParamNode p
        × FitsSlot IsRegNode r

    pub AreStatic : Children k → Type 0
    AreStatic nil = Unit
    AreStatic (cons q n c) = IsStaticNode (info n) × IsWellFormed n × AreStatic c

    pub FitsSlot : (Info k → Type 0) → Slot k → Type 0
    FitsSlot P absent = Unit
    FitsSlot P (present n) = P (info n) × IsWellFormed n

  -- Registration changes a node's handler and middlewares, and nothing else of its fields.
  abbrev SameKind : Info k → Info k → Type 0
  SameKind i j = (i.typ ≡ j.typ) × (i.param_name ≡ j.param_name) × (i.reg_expr ≡ j.reg_expr)

  -- The node keeps its fields, and the child can be replaced by any well-formed one of its kind.
  abbrev Fits : Node k → Placed k → Type 0
  Fits before (n, place, child) =
      (info n ≡ info before)
      × IsWellFormed child
      × ((child' : Node k)
          → IsWellFormed child'
          → SameKind (info child) (info child')
          → IsWellFormed (put_at place child' n))

  put_child-AreStatic :
      (path : Bytes) (n : Node k) (c : Children k)
      → IsStaticNode (info n)
      → IsWellFormed n
      → AreStatic c
      → AreStatic (put_child path n c)
  unfolding put_child IsWellFormed
  put_child-AreStatic path n nil hs hw hc = (hs, hw, tt)
  put_child-AreStatic path n (cons q m c) hs hw (h, h', hc) =
      ground (arith, put_child-AreStatic path n c hs hw hc)

  pub find_child-AreStatic :
      (path : Bytes) (c : Children k) (n : Node k)
      → AreStatic c
      → find_child path c ≡ present n
      → IsStaticNode (info n) × IsWellFormed n
  unfolding find_child IsWellFormed
  find_child-AreStatic path nil n h e = cc
  find_child-AreStatic path (cons q m c) n (h, h', hc) e = elim (Bool-cases (bytes_eq q path)) [
    | inl t ↦
        subst (λ x. IsStaticNode (info x) × IsWellFormed x) (same (rw (t, find_child) at e)) (h, h')
    | inr f ↦ find_child-AreStatic path c n hc (rw (f, find_child) at e)
  ]
    where
      same : {a b : Node k} → Slot.present a ≡ present b → a ≡ b
      same p = cc

  star-Fits :
      (path : Bytes) (n : Node k) → IsWellFormed n → Ensures (Fits n) (child_or_create_star path n)
  unfolding child_or_create_star IsWellFormed put_at
  star-Fits path (node i c s (present p) r) h = tt
  star-Fits path (node i c s absent (present r)) h = tt
  star-Fits path (node i c (present s) absent absent) (_, hc, (hs, w), _, _) =
      (refl, w, λ child' w' same. (tt, hc, ((cc, cc), w'), tt, tt))
  star-Fits path (node i c absent absent absent) (_, hc, _, _, _) =
      (refl, (tt, tt, tt, tt, tt), λ child' w' same. (tt, hc, ((cc, cc), w'), tt, tt))

  param-Fits :
      (path name : Bytes) (n : Node k)
      → IsWellFormed n
      → Ensures (Fits n) (child_or_create_param path name n)
  unfolding child_or_create_param IsWellFormed put_at
  param-Fits path name (node i c s p (present r)) h = tt
  param-Fits path name (node i c (present s) p absent) h = tt
  param-Fits path name (node i c absent (present p) absent) (_, hc, _, (hp, w), _) =
      elim (Bool-cases (bytes_eq (info p).path path)) [
        | inl e ↦
            rw (e, child_or_create_param) (refl, w, λ child' w' same. (tt, hc, tt, (cc, w'), tt))
        | inr e ↦ rw (e, child_or_create_param) tt
      ]
  param-Fits path name (node i c absent absent absent) (_, hc, _, _, _) =
      (refl, (tt, tt, tt, tt, tt), λ child' w' same. (tt, hc, tt, (cc, w'), tt))

  reg-Fits :
      (path expr name : Bytes) (n : Node k)
      → IsWellFormed n
      → Ensures (Fits n) (child_or_create_reg path expr name n)
  unfolding child_or_create_reg IsWellFormed put_at
  reg-Fits path expr name (node i c (present s) p r) h = tt
  reg-Fits path expr name (node i c absent (present p) r) h = tt
  reg-Fits path expr name (node i c absent absent (present r)) (_, hc, _, _, ((ht, hx), w)) =
      elim (Bool-cases (source_is k (info r).reg_expr expr && bytes_eq i.param_name name)) [
        | inl e ↦
            rw (e, child_or_create_reg)
              (refl, w, λ child' w' same. (tt, hc, tt, tt, ((cc, rw same.2 at hx), w')))
        | inr e ↦ rw (e, child_or_create_reg) tt
      ]
  reg-Fits path expr name (node i c absent absent absent) (_, hc, _, _, _) =
      elim (Option-cases (k.compile expr)) [
        | inl e ↦ rw (e, child_or_create_reg) tt
        | inr (x, e) ↦
            rw (e, child_or_create_reg)
              (
                refl,
                (tt, tt, tt, tt, tt),
                λ child' w' same. (tt, hc, tt, tt, ((cc, λ p. cc (same.2, p)), w')),
              )
      ]

  static-Fits :
      (path : Bytes) (n : Node k)
      → IsWellFormed n
      → Ensures (Fits n) (child_or_create_static path n)
  unfolding child_or_create_static IsWellFormed put_at
  static-Fits path (node i c s p r) (one, hc, hs, hp, hr) = elim (Slot-cases (find_child path c)) [
    | inl e ↦
        rw (e, child_or_create_static)
          (
            refl,
            (tt, tt, tt, tt, tt),
            λ child' w' same. (
              one,
              put_child-AreStatic path child' _ (cc, cc) w'
                  (put_child-AreStatic path (new_node static path [] none) c (refl, refl)
                    (tt, tt, tt, tt, tt) hc),
              hs,
              hp,
              hr,
            ),
          )
    | inr (child, e) ↦
        let (hi, w) = find_child-AreStatic path c child hc e in
        rw (e, child_or_create_static)
          (
            refl,
            w,
            λ child' w' same. (one, put_child-AreStatic path child' c (cc, cc) w' hc, hs, hp, hr),
          )
  ]

  parsed-Fits :
      (path : Bytes) (parsed : Bytes × Option Bytes) (n : Node k)
      → IsWellFormed n
      → Ensures (Fits n) (child_or_create_parsed path parsed n)
  unfolding child_or_create_parsed
  parsed-Fits path (name, none) n h = param-Fits path name n h
  parsed-Fits path (name, some expr) n h = reg-Fits path expr name n h

  child_or_create-Fits :
      (path : Bytes) (n : Node k) → IsWellFormed n → Ensures (Fits n) (child_or_create path n)
  unfolding child_or_create
  child_or_create-Fits [] n h = tt
  child_or_create-Fits (b ∷ s) n h =
      Ensures-if (Fits n) (bytes_eq (b ∷ s) (b'*' ∷ [])) _ _ (star-Fits (b ∷ s) n h) (
        Ensures-if (Fits n) (b == b':') _ _ (parsed-Fits (b ∷ s) (parse_param s) n h)
          (static-Fits (b ∷ s) n h))

  info-put_at : (place : Place) (child n : Node k) → info (put_at place child n) ≡ info n
  unfolding put_at
  info-put_at (at_child path) child (node i c s p r) = refl
  info-put_at at_star child (node i c s p r) = refl
  info-put_at at_param child (node i c s p r) = refl
  info-put_at at_reg child (node i c s p r) = refl

  -- A well-formed node of the same kind.
  abbrev Keeps : Node k → Node k → Type 0
  Keeps n n' = IsWellFormed n' × SameKind (info n) (info n')

  set_handler-Keeps :
      (h : Option k.Handler) (mws : List k.Middleware) (n : Node k)
      → IsWellFormed n
      → Ensures (Keeps n) (set_handler h mws n)
  unfolding set_handler IsWellFormed
  set_handler-Keeps h mws (node i c s p r) w = elim (Option-cases i.handler) [
    | inl e ↦ rw (e, set_handler) (w, (refl, refl, refl))
    | inr (x, e) ↦ rw (e, set_handler) tt
  ]

  add_segments-Keeps :
      (h : Option k.Handler) (mws : List k.Middleware) (segs : List Bytes) (n : Node k)
      → IsWellFormed n
      → Ensures (Keeps n) (add_segments h mws segs n)
  unfolding add_segments
  add_segments-Keeps h mws [] n w = set_handler-Keeps h mws n w
  add_segments-Keeps h mws (s ∷ segs) n w = Ensures-if (Keeps n) (bytes_eq s []) (err _) _ tt (
      Ensures-bind (Fits n) (Keeps n) (child_or_create s n) _ (child_or_create-Fits s n w)
        λ placed fits.
          Ensures-bind (Keeps placed.2) (Keeps n) (add_segments h mws segs placed.2) _
            (add_segments-Keeps h mws segs placed.2 fits.1)
            λ child' kept. (
              fits.2 child' kept.0 kept.1,
              (
                cc (info-put_at placed.1 child' placed.0, fits.0),
                cc (info-put_at placed.1 child' placed.0, fits.0),
                cc (info-put_at placed.1 child' placed.0, fits.0),
              ),
            ))

  -- Every tree of the router is well formed.
  abbrev pub AllWellFormed : Trees k → Type 0
  AllWellFormed trees = All (λ t. IsWellFormed t.1) trees

  tree_of-IsWellFormed :
      (method : Bytes) (trees : Trees k) → AllWellFormed trees → IsWellFormed (tree_of method trees)
  unfolding lookup IsWellFormed
  tree_of-IsWellFormed method [] h = (tt, tt, tt, tt, tt)
  tree_of-IsWellFormed method ((m, n) ∷ trees) (h, hs) = elim (Bool-cases (bytes_eq m method)) [
    | inl e ↦ rw (e, lookup, tree_of) h
    | inr e ↦ rw (e, lookup, tree_of) (tree_of-IsWellFormed method trees hs)
  ]

  insert-AllWellFormed :
      (method : Bytes) (n : Node k) (trees : Trees k)
      → IsWellFormed n
      → AllWellFormed trees
      → AllWellFormed (insert method n trees)
  unfolding insert
  insert-AllWellFormed method n [] h hs = (h, tt)
  insert-AllWellFormed method n ((m, o) ∷ trees) h (ho, hs) =
      elim (Bool-cases (bytes_eq m method)) [
        | inl e ↦ rw (e, insert) (h, hs)
        | inr e ↦ rw (e, insert) (ho, insert-AllWellFormed method n trees h hs)
      ]

  -- Registration keeps every tree well formed: below each node stands at most one of a wildcard, a
  -- parameter and a regular-expression child, each child is of the type that its place says, a static
  -- or wildcard child has no parameter name, and a regular-expression child has its expression.
  pub add_route-AllWellFormed :
      (method path : Bytes) (h : Option k.Handler) (mws : List k.Middleware)
      (trees trees' : Trees k)
      → AllWellFormed trees
      → add_route method path h mws trees ≡ ok trees'
      → AllWellFormed trees'
  unfolding add_route
  add_route-AllWellFormed method path h mws trees trees' w e =
      let start = tree_of method trees in
      let ws = tree_of-IsWellFormed method trees w in
      of_Ensures AllWellFormed _ trees'
        (Ensures-bind (λ _. Unit {0}) AllWellFormed (check_path path) _
          (any_value (check_path path))
          λ rest _.
            Ensures-bind (Keeps start) AllWellFormed
              (if bytes_eq rest []
                then set_handler h mws start
                else add_segments h mws (split_byte b'/' rest) start)
              _
              (Ensures-if (Keeps start) (bytes_eq rest []) _ _ (set_handler-Keeps h mws start ws)
                (add_segments-Keeps h mws (split_byte b'/' rest) start ws))
              λ n kept. insert-AllWellFormed method n trees kept.0 w)
        e

  pub children-AreStatic : (n : Node k) → IsWellFormed n → AreStatic (children n)
  unfolding IsWellFormed
  children-AreStatic (node i c s p r) h = h.1
