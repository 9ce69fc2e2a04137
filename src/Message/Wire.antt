-- ===== src/Message/Wire.antt =====
-- What request.go and response.go share: Go's run-time panics, big-endian words, and the slice `cur`
-- that moves over the buffer.
pub mod Laws
use myhomework.Common.{
  ℕ, zero, suc, ◌+◌, ◌*◌, ◌/◌, ◌%◌, ◌^◌, ◌<◌, Bytes, List, [], ◌∷◌, ◌++◌, length, take, drop, leb,
  if◌then◌else◌,
}

-- `panic` is a slice or an index out of range. `stuck` is no Go outcome: a loop ran out of fuel.
pub data Outcome {ℓ} (A : Type ℓ) : Type ℓ where
  ok : A → Outcome A
  panic : Outcome A
  stuck : Outcome A

infixl 5 ◌>>=◌
abbrev pub ◌>>=◌ {ℓ κ} : {A : Type ℓ} {B : Type κ} → Outcome A → (A → Outcome B) → Outcome B
ok a >>= f = f a
panic >>= f = panic
stuck >>= f = stuck

abbrev pub IsU32 : ℕ → Type 0
IsU32 n = n < 2 ^ 32

-- `binary.BigEndian.PutUint32`
unfoldable pub put_u32 : ℕ → Bytes
put_u32 n = n / 2 ^ 24 % 256 ∷ n / 2 ^ 16 % 256 ∷ n / 2 ^ 8 % 256 ∷ n % 256 ∷ []

-- `binary.BigEndian.Uint32(data[:4])`, and the data behind these bytes.
unfoldable pub get_u32 : Bytes → Outcome (ℕ × Bytes)
get_u32 (a ∷ b ∷ c ∷ d ∷ rest) = ok (a * 2 ^ 24 + b * 2 ^ 16 + c * 2 ^ 8 + d, rest)
get_u32 _ = panic

-- `data[i]`, and the data behind it.
unfoldable pub get_byte : Bytes → Outcome (ℕ × Bytes)
get_byte [] = panic
get_byte (b ∷ rest) = ok (b, rest)

-- The buffer `bs`: what stands before `cur`, and `cur` itself.
pub record Cursor : Type 0 where
  pub before : Bytes
  pub cur : Bytes

-- `copy(cur, s); cur = cur[len(s):]`: the slice panics where `cur` is shorter than `s`.
unfoldable pub put : Bytes → Cursor → Outcome Cursor
put s c =
    if leb (length s) (length c.cur)
    then ok (record { before = c.before ++ s; cur = drop (length s) c.cur })
    else panic

-- `cur[0] = b; cur = cur[1:]`, on the two parts of the cursor.
put_byte_at : ℕ → Bytes → Bytes → Outcome Cursor
put_byte_at b before [] = panic
put_byte_at b before (x ∷ rest) = ok (record { before = before ++ b ∷ []; cur = rest })

unfoldable pub put_byte : ℕ → Cursor → Outcome Cursor
unfolding put_byte_at
put_byte b c = put_byte_at b c.before c.cur

-- `copy(cur, s)` at the end: it copies what fits.
unfoldable pub copy : Bytes → Cursor → Bytes
copy s c = c.before ++ (take (length c.cur) s ++ drop (length s) c.cur)
