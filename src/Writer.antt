-- ===== src/Writer.antt =====
-- The output state of the SQL builders: the `strings.Builder` and the argument list that each of
-- `Deleter`, `Selector` (homework_delete, homework_select) carries as its fields `sb` and `args`.
-- An action is a Go method that writes there and returns an `error`; what it wrote before an error
-- stays written.
pub mod Laws
pub mod Outcomes
use myhomework.Common.{Bytes, ℕ, List, [], ◌∷◌, ◌++◌, Option, none, some}

pub record Output {ℓ} (V : Type ℓ) : Type ℓ where
  pub sb : Bytes
  pub args : List V

abbrev pub Action {ℓ κ} : Type κ → Type ℓ → Type (ℓ ⊔ κ)
Action E V = Output V → Output V × Option E

module _ {ℓ κ} {E : Type κ} {V : Type ℓ} where
  -- `if err != nil { return err }`
  unfoldable pub continue : Output V × Option E → Action E V → Output V × Option E
  continue (o, none) k = k o
  continue (o, some e) k = (o, some e)

  infixr 5 ◌>>◌
  abbrev pub ◌>>◌ : Action E V → Action E V → Action E V
  ◌>>◌ m k o = continue (m o) k

  abbrev pub skip : Action E V
  skip o = (o, none)

  abbrev pub fail : E → Action E V
  fail e o = (o, some e)

  unfoldable pub write_string : Bytes → Action E V
  write_string s o = (record o { sb = o.sb ++ s }, none)

  unfoldable pub write_byte : ℕ → Action E V
  write_byte c o = (record o { sb = o.sb ++ c ∷ [] }, none)

  unfoldable pub add_args : List V → Action E V
  add_args vs o = (record o { args = o.args ++ vs }, none)

  -- What an action does that adds the text `s` and the arguments `vs` and returns no error.
  abbrev pub adding : Bytes → List V → Action E V
  adding s vs o = (record { sb = o.sb ++ s; args = o.args ++ vs }, none)
