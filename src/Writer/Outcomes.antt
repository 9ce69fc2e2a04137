-- ===== src/Writer/Outcomes.antt =====
-- What an action does, errors included: the text and the arguments that it adds where it returns no
-- error, and the error that it returns. Rules put the description of a chain together.
use myhomework.Common.{
  Bytes, ℕ, ◌≡◌, refl, sym, ap, Option, none, some, List, [], ◌∷◌, ◌++◌, append-nil, append_assoc,
  Bool, true, false, if◌then◌else◌,
}
use myhomework.Writer.{
  Output, Action, continue, ◌>>◌, skip, fail, write_string, write_byte, add_args, adding,
}
use myhomework.Writer.Laws.{
  write_string-adding, write_byte-adding, add_args-adding, skip-adding, adding-adding, enclosed,
}

-- The first error of two actions in a row.
abbrev pub or_else {κ} : {E : Type κ} → Option E → Option E → Option E
or_else none f = f
or_else (some e) f = some e

pub or_else-eq-none {κ} :
    {E : Type κ} (e f : Option E) → or_else e f ≡ none → (e ≡ none) × (f ≡ none)
or_else-eq-none none f h = (refl, h)
or_else-eq-none (some e) f h = cc

pub or_else-none {κ} : {E : Type κ} (e : Option E) → or_else e none ≡ e
or_else-none none = refl
or_else-none (some e) = refl

module _ {ℓ κ} {E : Type κ} {V : Type ℓ} where
  -- The action returns the error `e`, and adds just `s` and `vs` if that is none.
  pub record Writes (m : Action E V) (s : Bytes) (vs : List V) (e : Option E) : Type (ℓ ⊔ κ) where
    pub returns : (o : Output V) → (m o).1 ≡ e
    pub adds : e ≡ none → (o : Output V) → m o ≡ adding s vs o

  -- An action that cannot fail.
  pub Writes-of_adding :
      {m : Action E V} (s : Bytes) (vs : List V)
      → ((o : Output V) → m o ≡ adding s vs o)
      → Writes m s vs none
  Writes-of_adding s vs h = record { returns = λ o. rw (h o); adds = λ _ o. h o }

  pub Writes-skip : Writes skip [] [] none
  Writes-skip = Writes-of_adding [] [] skip-adding

  pub Writes-string : (s : Bytes) → Writes (write_string s) s [] none
  Writes-string s = Writes-of_adding s [] (write_string-adding s)

  pub Writes-byte : (c : ℕ) → Writes (write_byte c) (c ∷ []) [] none
  Writes-byte c = Writes-of_adding (c ∷ []) [] (write_byte-adding c)

  pub Writes-args : (vs : List V) → Writes (add_args vs) [] vs none
  Writes-args vs = Writes-of_adding [] vs (add_args-adding vs)

  -- Where the action fails, the text and the arguments are of no interest.
  pub Writes-fail : (e : E) (s : Bytes) (vs : List V) → Writes (fail e) s vs (some e)
  Writes-fail e s vs = record { returns = λ o. refl; adds = λ h. cc }

  continue-error :
      (r : Output V × Option E) (k : Action E V) (e : E) → r.1 ≡ some e → (continue r k).1 ≡ some e
  unfolding continue
  continue-error (o, none) k e h = cc
  continue-error (o, some e') k e h = h

  pub Writes-chain :
      {m k : Action E V} {s t : Bytes} {vs ws : List V} {e f : Option E}
      → Writes m s vs e
      → Writes k t ws f
      → Writes (m >> k) (s ++ t) (vs ++ ws) (or_else e f)
  unfolding continue
  Writes-chain {m} {k} {s} {t} {vs} {ws} {e = none} {f} hm hk = record {
    returns = λ o. rw (hm.adds refl o) (hk.returns _);
    adds = λ h o. rw (hm.adds refl o, hk.adds h _) (adding-adding s t vs ws o);
  }
  Writes-chain {m} {k} {e = some e'} hm hk = record {
    returns = λ o. continue-error (m o) k e' (hm.returns o);
    adds = λ h. cc;
  }

  pub Writes-eq :
      {m : Action E V} {s t : Bytes} {vs ws : List V} {e f : Option E}
      → Writes m s vs e
      → s ≡ t
      → vs ≡ ws
      → e ≡ f
      → Writes m t ws f
  Writes-eq w p q r = rw (← p, ← q, ← r) w

  -- A part that is left out where the test fails.
  pub Writes-when :
      (b : Bool) {m : Action E V} {s : Bytes} {vs : List V}
      → Writes m s vs none
      → Writes (if b then m else skip) (if b then s else []) (if b then vs else []) none
  Writes-when true w = w
  Writes-when false w = Writes-skip

  pub Writes-unless :
      (b : Bool) {m : Action E V} {s : Bytes}
      → Writes m s [] none
      → Writes (if b then skip else m) (if b then [] else s) [] none
  Writes-unless true w = Writes-skip
  Writes-unless false w = w

  pub Writes-either :
      (b : Bool) {m k : Action E V} {s t : Bytes}
      → Writes m s [] none
      → Writes k t [] none
      → Writes (if b then m else k) (if b then s else t) [] none
  Writes-either true w v = w
  Writes-either false w v = v

  -- An operand that may stand in parentheses, with what follows it, and at the end of a chain.
  pub Writes-enclosed :
      (b : Bool) {m k : Action E V} {s t : Bytes} {vs ws : List V} {e f : Option E}
      → Writes m s vs e
      → Writes k t ws f
      → Writes
          ((if b then write_byte b'(' else skip) >> m >> (if b then write_byte b')' else skip) >> k)
          (enclosed b s ++ t)
          (vs ++ ws)
          (or_else e f)
  Writes-enclosed true {s = s} {t = t} w v =
      Writes-eq
        (Writes-chain (Writes-byte b'(') (Writes-chain w (Writes-chain (Writes-byte b')') v)))
        (ap (◌∷◌ b'(') (sym (append_assoc s (b')' ∷ []) t))) refl refl
  Writes-enclosed false w v = Writes-chain Writes-skip (Writes-chain w (Writes-chain Writes-skip v))

  pub Writes-enclosed_last :
      (b : Bool) {m : Action E V} {s : Bytes} {vs : List V} {e : Option E}
      → Writes m s vs e
      → Writes
          ((if b then write_byte b'(' else skip) >> m >> (if b then write_byte b')' else skip))
          (enclosed b s)
          vs
          e
  Writes-enclosed_last true {vs = vs} {e = e} w =
      Writes-eq (Writes-chain (Writes-byte b'(') (Writes-chain w (Writes-byte b')'))) refl
        (append-nil vs) (or_else-none e)
  Writes-enclosed_last false {s = s} {vs = vs} {e = e} w =
      Writes-eq (Writes-chain Writes-skip (Writes-chain w Writes-skip)) (append-nil s)
        (append-nil vs) (or_else-none e)
