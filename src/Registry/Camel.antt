-- ===== src/Registry/Camel.antt =====
-- The name of an exported field can be read back from its column.
use myhomework.Common.{
  ℕ, ◌+◌, ◌-◌, ◌%◌, ◌<◌, ◌≡◌, ◌≢◌, refl, ap, Bytes, Bool, true, false, ◌&&◌, [], ◌∷◌, leb, ◌==◌,
  All, Bool-cases, inl, inr, arith,
}
use myhomework.Registry.Naming.{Letters, underscore_rest, underscore_runes, underscore_name}

abbrev is_capital : ℕ → Bool
is_capital b = leb b'A' b && leb b b'Z'

-- What the package unicode and `range` do with the letters of ASCII.
pub record IsAscii (u : Letters) : Type 0 where
  pub runes_ascii : (s : Bytes) → All (λ b. b < 128) s → u.runes s ≡ s
  pub is_upper_ascii : (b : ℕ) → b < 128 → u.is_upper b ≡ is_capital b
  pub to_lower_capital : (b : ℕ) → is_capital b ≡ true → u.to_lower b ≡ b + 32

-- A byte of an ASCII name without underscores.
abbrev pub IsNameByte : ℕ → Type 0
IsNameByte b = (b < 128) × (b ≢ b'_')

-- The letter behind an underscore, and the first one, become capitals.
unfoldable pub camel_rest : Bool → Bytes → Bytes
camel_rest up [] = []
camel_rest true (b ∷ s) = (b - 32) ∷ camel_rest false s
camel_rest false (b ∷ s) = elim (b == b'_') [
  | true ↦ camel_rest true s
  | false ↦ b ∷ camel_rest false s
]

unfoldable pub camel : Bytes → Bytes
unfolding camel_rest
camel s = camel_rest true s

module _ (u : Letters) (h : IsAscii u) where
  lower : (b : ℕ) → is_capital b ≡ true → (u.to_lower b % 256) - 32 ≡ b
  lower b e = rw (h.to_lower_capital b e) (ground arith)

  plain : (b : ℕ) → IsNameByte b → (b % 256 ≡ b) × ((b == b'_') ≡ false)
  plain b h = ground arith

  camel_rest-underscore_rest :
      (s : Bytes) → All IsNameByte s → camel_rest false (underscore_rest u s) ≡ s
  unfolding camel_rest underscore_rest
  camel_rest-underscore_rest [] hs = refl
  camel_rest-underscore_rest (b ∷ s) (hb, hs) = elim (Bool-cases (is_capital b)) [
    | inl e ↦ rw (h.is_upper_ascii b hb.0, e, lower b e, camel_rest-underscore_rest s hs) refl
    | inr e ↦
        rw
          (
            h.is_upper_ascii b hb.0,
            e,
            (plain b hb).0,
            camel_rest,
            (plain b hb).1,
            camel_rest-underscore_rest s hs,
          )
          (ap (λ c. c ∷ s) (plain b hb).0)
  ]

  bytes_of_names : (s : Bytes) → All IsNameByte s → All (λ b. b < 128) s
  bytes_of_names [] hs = tt
  bytes_of_names (b ∷ s) (hb, hs) = (hb.0, bytes_of_names s hs)

  -- The column that a field has without a tag determines the field's name, if that is an ASCII name
  -- without underscores which begins with a capital letter: to write capitals for the underscores and
  -- the first letter gives the name again.
  pub camel-underscore_name :
      (b : ℕ) (s : Bytes)
      → is_capital b ≡ true
      → All IsNameByte (b ∷ s)
      → camel (underscore_name u (b ∷ s)) ≡ b ∷ s
  unfolding camel camel_rest underscore_name underscore_runes
  camel-underscore_name b s e (hb, hs) =
      rw
        (
          h.runes_ascii (b ∷ s) (bytes_of_names (b ∷ s) (hb, hs)),
          h.is_upper_ascii b hb.0,
          e,
          lower b e,
          camel_rest-underscore_rest s hs,
        )
        refl
