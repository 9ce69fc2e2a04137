-- ===== src/Web/Again.antt =====
-- What registration meets when it comes to a segment, or to a path, again.
use mathlib.Core.Path.{subst, sym}
use myhomework.Common.{
  Bytes, bytes_eq, bytes_eq_refl, ◌≡◌, refl, Bool, true, false, List, [], ◌∷◌, Option, none, some,
  ok, err, Result, never_of_Fails, Ensures, Ensures-bind, Ensures-if, Fails, Fails-bind, Bool-cases,
  inl, inr, Option-cases, ◌==◌, ◌&&◌, if◌then◌else◌,
}
use myhomework.Web.Tree.{
  Setting, static, Node, node, absent, present, info, find_child, put_child, new_node, Slot-cases,
  find_child-put_child,
}
use myhomework.Web.Register.{
  Panic, Place, at_child, Placed, child_or_create_star, child_or_create_param, child_or_create_reg,
  child_or_create_static, child_or_create_parsed, child_or_create, parse_param, put_at, set_handler,
  add_segments, source_is,
}

module _ {k : Setting} where
  abbrev pub Gives : Node k → Placed k → Type 0
  Gives child found = found.2 ≡ child

  guarded :
      (b : Bool) (n : Node k) (place : Place) (child : Node k) (e : Panic)
      → Ensures (Gives child) (if b then ok (n, place, child) else err e)
  guarded true n place child e = refl
  guarded false n place child e = tt

  -- Whatever has become of the child, the same segment leads to it again, or is refused.
  abbrev pub Returns : (Node k → Result Panic (Placed k)) → Placed k → Type 0
  Returns again (n, place, child) =
      (child' : Node k) → Ensures (Gives child') (again (put_at place child' n))

  star_again :
      (path : Bytes) (n : Node k)
      → Ensures (Returns (child_or_create_star path)) (child_or_create_star path n)
  unfolding child_or_create_star put_at
  star_again path (node i c s (present p) r) = tt
  star_again path (node i c s absent (present r)) = tt
  star_again path (node i c (present s) absent absent) = λ child'. refl
  star_again path (node i c absent absent absent) = λ child'. refl

  param_again :
      (path name : Bytes) (n : Node k)
      → Ensures (Returns (child_or_create_param path name)) (child_or_create_param path name n)
  unfolding child_or_create_param put_at
  param_again path name (node i c s p (present r)) = tt
  param_again path name (node i c (present s) p absent) = tt
  param_again path name (node i c absent (present p) absent) =
      Ensures-if (Returns (child_or_create_param path name)) (bytes_eq (info p).path path) _ _
        (λ child'. guarded (bytes_eq (info child').path path) _ _ child' _) tt
  param_again path name (node i c absent absent absent) =
      λ child'. guarded (bytes_eq (info child').path path) _ _ child' _

  reg_again :
      (path expr name : Bytes) (n : Node k)
      → Ensures
          (Returns (child_or_create_reg path expr name))
          (child_or_create_reg path expr name n)
  unfolding child_or_create_reg put_at
  reg_again path expr name (node i c (present s) p r) = tt
  reg_again path expr name (node i c absent (present p) r) = tt
  reg_again path expr name (node i c absent absent (present r)) =
      Ensures-if (Returns (child_or_create_reg path expr name))
        (source_is k (info r).reg_expr expr && bytes_eq i.param_name name) _ _
        (λ child'.
          guarded (source_is k (info child').reg_expr expr && bytes_eq i.param_name name) _ _ child'
            _)
        tt
  reg_again path expr name (node i c absent absent absent) = elim (Option-cases (k.compile expr)) [
    | inl e ↦ rw (e, child_or_create_reg) tt
    | inr (x, e) ↦
        rw (e, child_or_create_reg)
          (λ child'.
            guarded (source_is k (info child').reg_expr expr && bytes_eq i.param_name name) _ _
              child' _)
  ]

  -- A static child that was put there is found.
  static_found :
      (path : Bytes) (child : Node k) (n : Node k)
      → Ensures (Gives child) (child_or_create_static path (put_at (at_child path) child n))
  unfolding child_or_create_static put_at
  static_found path child (node i c s p r) =
      rw (find_child-put_child path path child c, bytes_eq_refl path, child_or_create_static) refl

  static_again :
      (path : Bytes) (n : Node k)
      → Ensures (Returns (child_or_create_static path)) (child_or_create_static path n)
  static_again path (node i c s p r) = elim (Slot-cases (find_child path c)) [
    | inl e ↦
        unfold child_or_create_static in
        rw (e, child_or_create_static)
          (λ child'.
            static_found path child'
              (node i (put_child path (new_node static path [] none) c) s p r))
    | inr (child, e) ↦
        unfold child_or_create_static in
        rw (e, child_or_create_static) (λ child'. static_found path child' (node i c s p r))
  ]

  parsed_again :
      (path : Bytes) (parsed : Bytes × Option Bytes) (n : Node k)
      → Ensures
          (Returns (child_or_create_parsed path parsed))
          (child_or_create_parsed path parsed n)
  unfolding child_or_create_parsed
  parsed_again path (name, none) n = param_again path name n
  parsed_again path (name, some expr) n = reg_again path expr name n

  child_or_create_again :
      (s : Bytes) (n : Node k) → Ensures (Returns (child_or_create s)) (child_or_create s n)
  unfolding child_or_create
  child_or_create_again [] n = tt
  child_or_create_again (b ∷ s) n = elim (Bool-cases (bytes_eq (b ∷ s) (b'*' ∷ []))) [
    | inl e ↦ rw (e, child_or_create) (star_again (b ∷ s) n)
    | inr e ↦ elim (Bool-cases (b == b':')) [
      | inl f ↦ rw (e, f, child_or_create) (parsed_again (b ∷ s) (parse_param s) n)
      | inr f ↦ rw (e, f, child_or_create) (static_again (b ∷ s) n)
    ]
  ]

  abbrev pub Refuses : List Bytes → Node k → Type 0
  Refuses segs n =
      (h : Option k.Handler) (mws : List k.Middleware) → Fails (add_segments h mws segs n)

  pub set_handler_again :
      (x : k.Handler) (mws : List k.Middleware) (n : Node k)
      → Ensures
          (λ n'. (h : Option k.Handler) (mws' : List k.Middleware) → Fails (set_handler h mws' n'))
          (set_handler (some x) mws n)
  unfolding set_handler
  set_handler_again x mws (node i c s p r) = elim (Option-cases i.handler) [
    | inl e ↦ rw (e, set_handler) (λ h mws'. tt)
    | inr (y, e) ↦ rw (e, set_handler) tt
  ]

  pub add_segments_again :
      (x : k.Handler) (mws : List k.Middleware) (segs : List Bytes) (n : Node k)
      → Ensures (Refuses segs) (add_segments (some x) mws segs n)
  unfolding add_segments
  add_segments_again x mws [] n = set_handler_again x mws n
  add_segments_again x mws (s ∷ segs) n = elim (Bool-cases (bytes_eq s [])) [
    | inl e ↦ rw (e, add_segments) tt
    | inr e ↦
        rw (e, add_segments)
          (Ensures-bind (Returns (child_or_create s)) (Refuses (s ∷ segs)) (child_or_create s n) _
            (child_or_create_again s n)
            λ placed returns.
              Ensures-bind (Refuses segs) (Refuses (s ∷ segs))
                (add_segments (some x) mws segs placed.2) _ (add_segments_again x mws segs placed.2)
                λ child' refuses h mws'.
                  rw (e, add_segments)
                    (Fails-bind (Gives child') (child_or_create s (put_at placed.1 child' placed.0))
                      _ (returns child')
                      λ found same.
                        Fails-bind (λ _. ⊥) (add_segments h mws' segs found.2) _
                          (never_of_Fails (add_segments h mws' segs found.2) (
                            subst (λ c. Fails (add_segments h mws' segs c)) (sym same)
                              (refuses h mws')))
                          λ _ wrong. absurd wrong))
  ]
