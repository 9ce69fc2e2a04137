-- ===== src/Web/Conflicts.antt =====
-- What a second registration meets.
use mathlib.Core.Path.{subst, sym, ap}
use myhomework.Common.{
  Bytes, bytes_eq, bytes_eq_refl, split_byte, ◌≡◌, refl, false, List, [], ◌∷◌, Option, some, ok,
  err, Result, Result-cases, never_of_Fails, Ensures, Ensures-bind, of_Ensures, any_value, Fails,
  Fails-bind, error_of, Bool-cases, inl, inr, Option-cases, ◌&&◌, if◌then◌else◌,
}
use myhomework.Common.Dict.{insert, lookup-insert}
use myhomework.Web.Tree.{Setting, Node, node, absent, present, info}
use myhomework.Web.Register.{
  Panic, reg_conflict, at_reg, Placed, child_or_create_reg, child_or_create_parsed, child_or_create,
  parse_param, put_at, set_handler, add_segments, Trees, tree_of, check_path, add_route, source_is,
}
use myhomework.Web.Again.{set_handler_again, add_segments_again}

module _ {k : Setting} where
  tree_of-insert :
      (method : Bytes) (n : Node k) (trees : Trees k) → tree_of method (insert method n trees) ≡ n
  tree_of-insert method n trees =
      rw (lookup-insert method method n trees, bytes_eq_refl method, tree_of) refl

  -- The end of `addRoute`, at the root or below it.
  abbrev place_route : Bytes → Option k.Handler → List k.Middleware → Node k → Result Panic (Node k)
  place_route rest h mws n =
      if bytes_eq rest [] then set_handler h mws n else add_segments h mws (split_byte b'/' rest) n

  place_route_again :
      (rest : Bytes) (x : k.Handler) (mws : List k.Middleware) (n : Node k)
      → Ensures
          (λ n'.
            (h : Option k.Handler) (mws' : List k.Middleware) → Fails (place_route rest h mws' n'))
          (place_route rest (some x) mws n)
  place_route_again rest x mws n = elim (Bool-cases (bytes_eq rest [])) [
    | inl e ↦ rw e (set_handler_again x mws n)
    | inr e ↦ rw e (add_segments_again x mws (split_byte b'/' rest) n)
  ]

  add_route-Fails :
      (method path : Bytes) (x : k.Handler) (mws : List k.Middleware) (trees : Trees k)
      → Ensures
          (λ trees'.
            (h : Option k.Handler) (mws' : List k.Middleware)
            → Fails (add_route method path h mws' trees'))
          (add_route method path (some x) mws trees)
  unfolding add_route
  add_route-Fails method path x mws trees = elim (Result-cases (check_path path)) [
    | inr (p, e) ↦ rw (e, add_route) tt
    | inl (rest, e) ↦
        rw (e, add_route)
          (Ensures-bind
            (λ n'.
              (h : Option k.Handler) (mws' : List k.Middleware)
              → Fails (place_route rest h mws' n'))
            _ (place_route rest (some x) mws (tree_of method trees)) _
            (place_route_again rest x mws (tree_of method trees))
            λ n' refuses h mws'.
              Fails-bind (λ _. ⊥)
                (place_route rest h mws' (tree_of method (insert method n' trees))) _
                (never_of_Fails _ (
                  subst (λ n. Fails (place_route rest h mws' n))
                    (sym (tree_of-insert method n' trees)) (refuses h mws')))
                λ _ wrong. absurd wrong)
  ]

  -- A route that is registered with a handler is never overwritten: registering the same path for the
  -- same method again, with a handler or for middlewares alone, panics. This holds for every kind of
  -- segment.
  pub add_route-add_route :
      (method path : Bytes) (x : k.Handler) (h : Option k.Handler) (mws mws' : List k.Middleware)
      (trees trees' : Trees k)
      → add_route method path (some x) mws trees ≡ ok trees'
      → (p : Panic) × (add_route method path h mws' trees' ≡ err p)
  add_route-add_route method path x h mws mws' trees trees' e =
      error_of (add_route method path h mws' trees') (
        of_Ensures
          (λ (ts : Trees k).
            (h : Option k.Handler) (mws' : List k.Middleware)
            → Fails (add_route method path h mws' ts))
          (add_route method path (some x) mws trees) trees'
          (add_route-Fails method path x mws trees) e h mws')

  reg_refused :
      (path expr name : Bytes) (n : Node k)
      → bytes_eq (info n).param_name name ≡ false
      → Ensures
          (λ placed.
            (child' : Node k)
            → child_or_create_reg path expr name (put_at placed.1 child' placed.0)
              ≡ err reg_conflict)
          (child_or_create_reg path expr name n)
  unfolding child_or_create_reg put_at
  reg_refused path expr name (node i c (present s) p r) h = tt
  reg_refused path expr name (node i c absent (present p) r) h = tt
  reg_refused path expr name (node i c absent absent (present r)) h =
      elim (Bool-cases (source_is k (info r).reg_expr expr)) [
        | inl e ↦ rw (e, h, child_or_create_reg) tt
        | inr e ↦ rw (e, child_or_create_reg) tt
      ]
  reg_refused path expr name (node i c absent absent absent) h =
      elim (Option-cases (k.compile expr)) [
        | inl e ↦ rw (e, child_or_create_reg) tt
        | inr (x, e) ↦ rw (e, child_or_create_reg) (λ child'. refused child')
      ]
    where
      refused :
          (child' : Node k)
          → ◌≡◌ {A = Result Panic (Placed k)}
              (if source_is k (info child').reg_expr expr && bytes_eq i.param_name name
                then ok (node i c absent absent (present child'), at_reg, child')
                else err reg_conflict)
              (err reg_conflict)
      refused child' = elim (Bool-cases (source_is k (info child').reg_expr expr)) [
        | inl e ↦ rw (e, h) refl
        | inr e ↦ rw e refl
      ]

  segment_reg :
      (t name expr : Bytes) (n : Node k)
      → parse_param t ≡ (name, some expr)
      → child_or_create (b':' ∷ t) n ≡ child_or_create_reg (b':' ∷ t) expr name n
  unfolding child_or_create child_or_create_parsed bytes_eq
  segment_reg t name expr n h = ap (λ parsed. child_or_create_parsed (b':' ∷ t) parsed n) h

  reg_segment_Ensures :
      (t name expr : Bytes) (segs segs' : List Bytes) (h h' : Option k.Handler)
      (mws mws' : List k.Middleware) (n : Node k)
      → parse_param t ≡ (name, some expr)
      → bytes_eq (info n).param_name name ≡ false
      → Ensures
          (λ n'. add_segments h' mws' ((b':' ∷ t) ∷ segs') n' ≡ err reg_conflict)
          (add_segments h mws ((b':' ∷ t) ∷ segs) n)
  unfolding add_segments bytes_eq
  reg_segment_Ensures t name expr segs segs' h h' mws mws' n hp hn =
      rw (segment_reg t name expr n hp) (
        Ensures-bind
          (λ placed.
            (child' : Node k)
            → child_or_create_reg (b':' ∷ t) expr name (put_at placed.1 child' placed.0)
              ≡ err reg_conflict)
          (λ n'. add_segments h' mws' ((b':' ∷ t) ∷ segs') n' ≡ err reg_conflict)
          (child_or_create_reg (b':' ∷ t) expr name n) _ (reg_refused (b':' ∷ t) expr name n hn)
          λ placed refuses.
            Ensures-bind (λ _. Unit {0})
              (λ n'. add_segments h' mws' ((b':' ∷ t) ∷ segs') n' ≡ err reg_conflict)
              (add_segments h mws segs placed.2) _ (any_value _)
              λ child' _.
                rw (segment_reg t name expr (put_at placed.1 child' placed.0) hp, refuses child')
                  refl)

  -- Once a route runs through a regular-expression segment, every other route through the same segment
  -- of that node panics, unless the parent node's own parameter has the same name: the code compares
  -- the new parameter name with that of the parent.
  pub add_segments-reg_conflict :
      (t name expr : Bytes) (segs segs' : List Bytes) (h h' : Option k.Handler)
      (mws mws' : List k.Middleware) (n n' : Node k)
      → parse_param t ≡ (name, some expr)
      → bytes_eq (info n).param_name name ≡ false
      → add_segments h mws ((b':' ∷ t) ∷ segs) n ≡ ok n'
      → add_segments h' mws' ((b':' ∷ t) ∷ segs') n' ≡ err reg_conflict
  add_segments-reg_conflict t name expr segs segs' h h' mws mws' n n' hp hn e =
      of_Ensures (λ (m : Node k). add_segments h' mws' ((b':' ∷ t) ∷ segs') m ≡ err reg_conflict)
        (add_segments h mws ((b':' ∷ t) ∷ segs) n) n'
        (reg_segment_Ensures t name expr segs segs' h h' mws mws' n hp hn) e
