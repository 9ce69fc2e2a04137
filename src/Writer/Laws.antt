-- ===== src/Writer/Laws.antt =====
-- Actions that only add text and arguments compose by appending both.
use myhomework.Common.{
  Bytes, ℕ, ◌≡◌, refl, Option, none, some, List, [], ◌∷◌, ◌++◌, append-nil, append_assoc, Bool,
  true, false, if◌then◌else◌,
}
use myhomework.Writer.{
  Output, Action, continue, ◌>>◌, skip, write_string, write_byte, add_args, adding,
}

-- The text of an operand: a condition stands in parentheses.
abbrev pub enclosed : Bool → Bytes → Bytes
enclosed b s = if b then b'(' ∷ (s ++ b')' ∷ []) else s

module _ {ℓ κ} {E : Type κ} {V : Type ℓ} where
  pub write_string-adding : (s : Bytes) (o : Output V) → write_string {E = E} s o ≡ adding s [] o
  unfolding write_string
  write_string-adding s o = rw (append-nil o.args)

  pub write_byte-adding : (c : ℕ) (o : Output V) → write_byte {E = E} c o ≡ adding (c ∷ []) [] o
  unfolding write_byte
  write_byte-adding c o = rw (append-nil o.args)

  pub add_args-adding : (vs : List V) (o : Output V) → add_args {E = E} vs o ≡ adding [] vs o
  unfolding add_args
  add_args-adding vs o = rw (append-nil o.sb)

  pub skip-adding : (o : Output V) → skip {E = E} o ≡ adding [] [] o
  skip-adding o = rw (append-nil o.sb, append-nil o.args)

  -- Adding after adding, at an output.
  pub adding-adding :
      (s t : Bytes) (vs ws : List V) (o : Output V)
      → adding {E = E} t ws (record { sb = o.sb ++ s; args = o.args ++ vs })
        ≡ adding (s ++ t) (vs ++ ws) o
  adding-adding s t vs ws o = rw (append_assoc o.sb s t, append_assoc o.args vs ws)

  -- The rule by which the specification of a chain is put together.
  pub chain_adding :
      (m k : Action E V) (s t : Bytes) (vs ws : List V)
      → ((o : Output V) → m o ≡ adding s vs o)
      → ((o : Output V) → k o ≡ adding t ws o)
      → (o : Output V) → (m >> k) o ≡ adding (s ++ t) (vs ++ ws) o
  unfolding continue
  chain_adding m k s t vs ws hm hk o = rw (hm o, hk _) (adding-adding s t vs ws o)

  -- An operand that may stand in parentheses, with what follows it, and at the end of a chain.
  pub enclosed_then :
      (b : Bool) (m k : Action E V) (s : Bytes) (vs : List V)
      → ((o : Output V) → m o ≡ adding s vs o)
      → (o : Output V)
      → ((if b then write_byte b'(' else skip) >> m >> (if b then write_byte b')' else skip) >> k) o
        ≡ k (record { sb = o.sb ++ enclosed b s; args = o.args ++ vs })
  unfolding continue write_byte
  enclosed_then true m k s vs h o = rw (h _) (simp append_assoc)
  enclosed_then false m k s vs h o = rw (h _)

  pub enclosed_last :
      (b : Bool) (m : Action E V) (s : Bytes) (vs : List V)
      → ((o : Output V) → m o ≡ adding s vs o)
      → (o : Output V)
      → ((if b then write_byte b'(' else skip) >> m >> (if b then write_byte b')' else skip)) o
        ≡ adding (enclosed b s) vs o
  unfolding continue write_byte
  enclosed_last true m s vs h o = rw (h _) (simp append_assoc)
  enclosed_last false m s vs h o = rw (h _)

  -- A chain that returns no error has no error in its first action, nor in what follows.
  pub continue-eq-none :
      (r : Output V × Option E) (k : Action E V)
      → (continue r k).1 ≡ none
      → (r.1 ≡ none) × ((k r.0).1 ≡ none)
  unfolding continue
  continue-eq-none (o', none) k h = (refl, h)
  continue-eq-none (o', some e) k h = cc
