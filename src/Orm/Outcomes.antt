-- ===== src/Orm/Outcomes.antt =====
-- What an action does from a heap on: the text and the arguments that it adds where it returns no
-- error, the heap that it leaves then, and the error that it returns. Rules put the description of a
-- chain together.
use myhomework.Common.{
  Bytes, ℕ, ◌≡◌, refl, sym, ap, Option, none, some, List, [], ◌∷◌, ◌++◌, append-nil, append_assoc,
  Bool, true, false, Result, ok, err, if◌then◌else◌,
}
use myhomework.Writer.Laws.{enclosed}
use myhomework.Writer.Outcomes.{or_else, or_else-none}
use myhomework.Orm.Expression.{Setting}
use myhomework.Orm.Builder.{
  Fault, State, Action, continue, ◌>>◌, skip, fail, write_string, write_byte, add_args, with_result,
  when,
}

-- The error of a result.
abbrev pub result_error : {E A : Type 0} → Result E A → Option E
result_error (ok a) = none
result_error (err e) = some e

abbrev pub at : {k : Setting} → k.Heap → Bytes → List k.Value → State k
at h b xs = record { sb = b; args = xs; heap = h }

module _ (k : Setting) (h : k.Heap) where
  -- The action returns the error `e`, and if that is none, it adds just `s` and `vs` and ends at the
  -- heap `h'`.
  pub record Runs (m : Action k) (s : Bytes) (vs : List k.Value) (e : Option (Fault k.Error))
      (h' : k.Heap) : Type 0 where
    pub returns : (b : Bytes) (xs : List k.Value) → (m (at h b xs)).1 ≡ e
    pub adds :
        e ≡ none
        → (b : Bytes) (xs : List k.Value) → m (at h b xs) ≡ (at h' (b ++ s) (xs ++ vs), none)

  -- An action that leaves the heap as it is.
  abbrev pub Writes : Action k → Bytes → List k.Value → Option (Fault k.Error) → Type 0
  Writes m s vs e = Runs m s vs e h

module _ {k : Setting} where
  continue-error :
      (r : State k × Option (Fault k.Error)) (m : Action k) (e : Fault k.Error)
      → r.1 ≡ some e
      → (continue r m).1 ≡ some e
  unfolding continue
  continue-error (st, none) m e q = cc
  continue-error (st, some e') m e q = q

module _ {k : Setting} {h : k.Heap} where
  pub Writes-skip : Writes k h skip [] [] none
  Writes-skip = record { returns = λ b xs. refl; adds = λ e b xs. rw (append-nil b, append-nil xs) }

  pub Writes-string : (s : Bytes) → Writes k h (write_string s) s [] none
  unfolding write_string
  Writes-string s = record { returns = λ b xs. refl; adds = λ e b xs. rw (append-nil xs) }

  pub Writes-byte : (c : ℕ) → Writes k h (write_byte c) (c ∷ []) [] none
  unfolding write_byte
  Writes-byte c = record { returns = λ b xs. refl; adds = λ e b xs. rw (append-nil xs) }

  pub Writes-args : (vs : List k.Value) → Writes k h (add_args vs) [] vs none
  unfolding add_args
  Writes-args vs = record { returns = λ b xs. refl; adds = λ e b xs. rw (append-nil b) }

  -- Where the action fails, the text and the arguments are of no interest.
  pub Writes-fail :
      (e : Fault k.Error) (s : Bytes) (vs : List k.Value) → Writes k h (fail e) s vs (some e)
  Writes-fail e s vs = record { returns = λ b xs. refl; adds = λ q b xs. cc q }

  pub Runs-chain :
      {h1 h2 : k.Heap} {m n : Action k} {s t : Bytes} {vs ws : List k.Value}
      {e f : Option (Fault k.Error)}
      → Runs k h m s vs e h1
      → Runs k h1 n t ws f h2
      → Runs k h (m >> n) (s ++ t) (vs ++ ws) (or_else e f) h2
  unfolding continue
  Runs-chain {m = m} {n} {s} {t} {vs} {ws} {e = none} {f} hm hn = record {
    returns = λ b xs. rw (hm.adds refl b xs) (hn.returns (b ++ s) (xs ++ vs));
    adds = λ q b xs. rw (
      hm.adds refl b xs,
      hn.adds q (b ++ s) (xs ++ vs),
      append_assoc b s t,
      append_assoc xs vs ws,
    );
  }
  Runs-chain {m = m} {n} {e = some e'} hm hn = record {
    returns = λ b xs. continue-error (m (at h b xs)) n e' (hm.returns b xs);
    adds = λ q b xs. cc q;
  }

  pub Writes-chain :
      {m n : Action k} {s t : Bytes} {vs ws : List k.Value} {e f : Option (Fault k.Error)}
      → Writes k h m s vs e
      → Writes k h n t ws f
      → Writes k h (m >> n) (s ++ t) (vs ++ ws) (or_else e f)
  Writes-chain w v = Runs-chain w v

  pub Runs-eq :
      {h' : k.Heap} {m : Action k} {s t : Bytes} {vs ws : List k.Value}
      {e f : Option (Fault k.Error)}
      → Runs k h m s vs e h'
      → s ≡ t
      → vs ≡ ws
      → e ≡ f
      → Runs k h m t ws f h'
  Runs-eq w p q r = rw (← p, ← q, ← r) w

  -- Writing before a failure.
  pub Writes-failing :
      {m : Action k} {s t : Bytes} {vs ws : List k.Value} {e : Fault k.Error}
      → Writes k h m s vs none
      → Writes k h (m >> fail e) t ws (some e)
  Writes-failing {e = e} w = record {
    returns = (Writes-chain w (Writes-fail e [] [])).returns;
    adds = λ q b xs. cc q;
  }

  pub Writes-eq :
      {m : Action k} {s t : Bytes} {vs ws : List k.Value} {e f : Option (Fault k.Error)}
      → Writes k h m s vs e
      → s ≡ t
      → vs ≡ ws
      → e ≡ f
      → Writes k h m t ws f
  Writes-eq w p q r = Runs-eq w p q r

  -- A part that is left out where the test fails.
  pub Writes-when :
      (b : Bool) {m : Action k} {s : Bytes} {vs : List k.Value}
      → Writes k h m s vs none
      → Writes k h (when b m) (if b then s else []) (if b then vs else []) none
  Writes-when true w = w
  Writes-when false w = Writes-skip

  pub Writes-unless :
      (b : Bool) {m : Action k} {s : Bytes}
      → Writes k h m s [] none
      → Writes k h (if b then skip else m) (if b then [] else s) [] none
  Writes-unless true w = Writes-skip
  Writes-unless false w = w

  -- A part that depends on a result that may be an error.
  pub Writes-with_result :
      {A : Type 0} (r : Result (Fault k.Error) A) {next : A → Action k} (s : A → Bytes)
      → ((a : A) → Writes k h (next a) (s a) [] none)
      → (t : Bytes)
      → Writes k h (with_result r next) (elim r [ ok a ↦ s a | err e ↦ t ]) [] (result_error r)
  unfolding with_result
  Writes-with_result (ok a) s w t = w a
  Writes-with_result (err e) s w t = Writes-fail e t []

  -- An operand that may stand in parentheses, with what follows it, and at the end of a chain.
  pub Writes-enclosed :
      (b : Bool) {m n : Action k} {s t : Bytes} {vs ws : List k.Value}
      {e f : Option (Fault k.Error)}
      → Writes k h m s vs e
      → Writes k h n t ws f
      → Writes k h
          (when b (write_byte b'(') >> m >> when b (write_byte b')') >> n)
          (enclosed b s ++ t)
          (vs ++ ws)
          (or_else e f)
  Writes-enclosed true {s = s} {t = t} w v =
      Writes-eq
        (Writes-chain (Writes-byte b'(') (Writes-chain w (Writes-chain (Writes-byte b')') v)))
        (ap (◌∷◌ b'(') (sym (append_assoc s (b')' ∷ []) t))) refl refl
  Writes-enclosed false w v = Writes-chain Writes-skip (Writes-chain w (Writes-chain Writes-skip v))

  pub Writes-enclosed_last :
      (b : Bool) {m : Action k} {s : Bytes} {vs : List k.Value} {e : Option (Fault k.Error)}
      → Writes k h m s vs e
      → Writes k h (when b (write_byte b'(') >> m >> when b (write_byte b')')) (enclosed b s) vs e
  Writes-enclosed_last true {vs = vs} {e = e} w =
      Writes-eq (Writes-chain (Writes-byte b'(') (Writes-chain w (Writes-byte b')'))) refl
        (append-nil vs) (or_else-none e)
  Writes-enclosed_last false {s = s} {vs = vs} {e = e} w =
      Writes-eq (Writes-chain Writes-skip (Writes-chain w Writes-skip)) (append-nil s)
        (append-nil vs) (or_else-none e)
