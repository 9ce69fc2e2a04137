-- ===== src/Web/Static.antt =====
-- Paths of plain segments: what registration makes of the handlers below a node, and what matching
-- finds there.
use myhomework.Common.{
  Bytes, bytes_eq, bytes_eq_refl, bytes_eq_iff, ◌≡◌, refl, sym, ap, ◌∙◌, Bool, true, false, ◌&&◌,
  List, [], ◌∷◌, ◌++◌, Option, none, Ensures, Ensures-bind, All, Bool-cases, inl, inr, Option-cases,
  ◌==◌, if◌then◌else◌,
}
use myhomework.Web.Tree.{
  Setting, static, Info, Node, node, Children, Slot, absent, present, info, children, find_child,
  put_child, new_node, Slot-cases, find_child-put_child,
}
use myhomework.Web.Register.{
  Placed, child_or_create_static, child_or_create, put_at, set_handler, add_segments,
}

-- A segment that is no wildcard and no parameter.
abbrev pub IsPlain : Bytes → Type 0
IsPlain [] = ⊥
IsPlain (b ∷ s) = (bytes_eq (b ∷ s) (b'*' ∷ []) ≡ false) × ((b == b':') ≡ false)

unfoldable pub segments_eq : List Bytes → List Bytes → Bool
segments_eq [] [] = true
segments_eq [] (t ∷ ts) = false
segments_eq (s ∷ ss) [] = false
segments_eq (s ∷ ss) (t ∷ ts) = bytes_eq s t && segments_eq ss ts

pub segments_eq_refl : (ss : List Bytes) → segments_eq ss ss ≡ true
unfolding segments_eq
segments_eq_refl [] = refl
segments_eq_refl (s ∷ ss) = rw (bytes_eq_refl s) (segments_eq_refl ss)

module _ {k : Setting} where
  -- The handler that static children lead to.
  unfoldable pub handler_at : List Bytes → Node k → Option k.Handler
  handler_at [] n = (info n).handler
  handler_at (s ∷ segs) n = elim (find_child s (children n)) [
    | absent ↦ none
    | present child ↦ handler_at segs child
  ]

  abbrev pub Sets : Option k.Handler → List Bytes → Node k → Node k → Type 0
  Sets h segs n n' =
      (q : List Bytes) → handler_at q n' ≡ (if segments_eq segs q then h else handler_at q n)

  child_or_create_plain :
      (s : Bytes) (n : Node k) → IsPlain s → child_or_create s n ≡ child_or_create_static s n
  unfolding child_or_create
  child_or_create_plain [] n h = absurd h
  child_or_create_plain (b ∷ s) n (h, h') = rw (h, h') refl

  set_handler-Sets :
      (h : Option k.Handler) (mws : List k.Middleware) (n : Node k)
      → Ensures (Sets h [] n) (set_handler h mws n)
  unfolding set_handler
  set_handler-Sets h mws (node i c s p r) = elim (Option-cases i.handler) [
    | inl e ↦ simp (e, set_handler) all
    | inr (x, e) ↦ rw (e, set_handler) tt
  ]
    where
      all : Sets h [] (node i c s p r) (node (record i { handler = h; mws = i.mws ++ mws }) c s p r)
      all [] = unfold handler_at segments_eq in refl
      all (t ∷ q) = unfold handler_at segments_eq in refl

  handler_at_new :
      (n : Node k) (q : List Bytes)
      → (info n).handler ≡ none
      → ((t : Bytes) → find_child t (children n) ≡ absent)
      → handler_at q n ≡ none
  unfolding handler_at
  handler_at_new n [] h hc = h
  handler_at_new n (t ∷ q) h hc = rw (hc t, handler_at) refl

  -- Below the child at `s` the handlers are those of `child'`, elsewhere they stay.
  put_child-Sets :
      (h : Option k.Handler) (s : Bytes) (segs : List Bytes) (child child' : Node k) (i : Info k)
      (c c₁ : Children k) (a p r : Slot k)
      → ((q : List Bytes) → handler_at (s ∷ q) (node i c a p r) ≡ handler_at q child)
      → ((t : Bytes) → bytes_eq s t ≡ false → find_child t c₁ ≡ find_child t c)
      → Sets h segs child child'
      → Sets h (s ∷ segs) (node i c a p r) (node i (put_child s child' c₁) a p r)
  unfolding handler_at segments_eq
  put_child-Sets h s segs child child' i c c₁ a p r old same sets [] = refl
  put_child-Sets h s segs child child' i c c₁ a p r old same sets (t ∷ q) =
      elim (Bool-cases (bytes_eq s t)) [
        | inl e ↦
            let st : s ≡ t = (bytes_eq_iff s t).0 e in
            rw (find_child-put_child s t child' c₁, e, handler_at)
              (sets q
                ∙ ap (λ x. if segments_eq segs q then h else x)
                    (sym (old q) ∙ ap (λ u. handler_at (u ∷ q) (node i c a p r)) st))
        | inr e ↦ rw (find_child-put_child s t child' c₁, e, same t e, handler_at) refl
      ]

  static-Sets :
      (h : Option k.Handler) (s : Bytes) (segs : List Bytes) (n : Node k)
      → Ensures
          (λ placed.
            (child' : Node k)
            → Sets h segs placed.2 child'
            → Sets h (s ∷ segs) n (put_at placed.1 child' placed.0))
          (child_or_create_static s n)
  static-Sets h s segs (node i c a p r) = elim (Slot-cases (find_child s c)) [
    | inl e ↦
        let new = new_node {k = k} static s [] none in
        unfold child_or_create_static put_at in
        rw (e, child_or_create_static)
          (λ child' sets.
            put_child-Sets h s segs new child' i c (put_child s new c) a p r
              (λ q.
                unfold handler_at in
                rw (e, handler_at)
                  (sym (handler_at_new new q refl (λ t. unfold find_child in refl))))
              (λ t ne. rw (find_child-put_child s t new c, ne) refl) sets)
    | inr (child, e) ↦
        unfold child_or_create_static put_at in
        rw (e, child_or_create_static)
          (λ child' sets.
            put_child-Sets h s segs child child' i c c a p r
              (λ q. unfold handler_at in rw (e, handler_at) refl) (λ t ne. refl) sets)
  ]

  -- Registering below a node sets the handler at the path and leaves every other handler that stands
  -- below static children.
  pub add_segments-Sets :
      (h : Option k.Handler) (mws : List k.Middleware) (segs : List Bytes) (n : Node k)
      → All IsPlain segs
      → Ensures (Sets h segs n) (add_segments h mws segs n)
  unfolding add_segments
  add_segments-Sets h mws [] n hs = set_handler-Sets h mws n
  add_segments-Sets h mws (s ∷ segs) n (hp, hs) = elim (Bool-cases (bytes_eq s [])) [
    | inl e ↦ rw (e, add_segments) tt
    | inr e ↦
        rw (e, add_segments, child_or_create_plain s n hp)
          (Ensures-bind
            (λ (placed : Placed k).
              (child' : Node k)
              → Sets h segs placed.2 child'
              → Sets h (s ∷ segs) n (put_at placed.1 child' placed.0))
            (Sets h (s ∷ segs) n) (child_or_create_static s n) _ (static-Sets h s segs n)
            λ placed put.
              Ensures-bind (Sets h segs placed.2) (Sets h (s ∷ segs) n)
                (add_segments h mws segs placed.2) _ (add_segments-Sets h mws segs placed.2 hs)
                λ child' sets. put child' sets)
  ]
