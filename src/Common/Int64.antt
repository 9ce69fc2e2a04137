-- ===== src/Common/Int64.antt =====
-- Go's `int64`: bit patterns below 2 ^ 64, in two's complement.
use Prim.Native.Nat.{ℕ, ◌+◌, ◌-◌, ◌%◌, ◌≤◌, ◌<◌}
use mathlib.Core.Path.{◌≡◌}
use mathlib.Core.Bool.{Bool}
use native.Mathlib.Omega.{arith}
use myhomework.Common.Tests.{ltb}

-- 2 ^ 64 and 2 ^ 63.
abbrev pub modulus : ℕ
modulus = 0x1_0000_0000_0000_0000

abbrev pub bound : ℕ
bound = 0x8000_0000_0000_0000

unfoldable pub add : ℕ → ℕ → ℕ
add a b = (a + b) % modulus

unfoldable pub sub : ℕ → ℕ → ℕ
sub a b = (a + modulus - b) % modulus

-- `a < b` on signed numbers.
unfoldable pub less : ℕ → ℕ → Bool
less a b = ltb ((a + bound) % modulus) ((b + bound) % modulus)

pub add_lem : (a b : ℕ) → a + b < bound → add a b ≡ a + b
unfolding add
add_lem a b h = omega arith

pub sub_lem : (a b : ℕ) → b ≤ a → a < bound → sub a b ≡ a - b
unfolding sub
sub_lem a b h k = omega arith

pub less_lem : (a b : ℕ) → a < bound → b < bound → less a b ≡ ltb a b
unfolding less
less_lem a b h k = ground arith

-- A sum that is taken back.
pub sub-add : (a b c : ℕ) → a + b < bound → c ≤ a → add (sub a c) b ≡ a - c + b
unfolding sub add
sub-add a b c h k = omega arith
