-- ===== src/Rpc/Context.antt =====
-- rpc/context.go, and the context that `handleConn` of rpc/server.go makes of a request.
use myhomework.Common.{
  ℕ, ◌+◌, ◌*◌, ◌-◌, ◌/◌, ◌%◌, Bytes, text, bytes_eq, [], ◌∷◌, ◌++◌, Bool, true, false, Option, none,
  some, leb, ltb, ◌==◌, ◌&&◌, if◌then◌else◌,
}
use myhomework.Common.Dict.{lookup}
use myhomework.Common.Int64
use Prim.Native.Char.{code}
use Prim.Native.String.{String}
use myhomework.Message.Request.{Request, pairs}

-- UTF-8 of a code point below 2 ^ 16.
abbrev utf8 : ℕ → Bytes
utf8 c =
    if ltb c 0x80
    then c ∷ []
    else (if ltb c 0x800
        then (0xc0 + c / 64) ∷ (0x80 + c % 64) ∷ []
        else (0xe0 + c / 4096) ∷ (0x80 + c / 64 % 64) ∷ (0x80 + c % 64) ∷ [])

-- The bytes of a literal.
unfoldable pub utf8_text : String → Bytes
utf8_text String.[] = []
utf8_text (String.◌∷◌ c s) = utf8 (code c) ++ utf8_text s

-- The digits of a decimal number, most significant first, behind the number read so far.
unfoldable pub parse_digits : ℕ → Bytes → Option ℕ
parse_digits n [] = some n
parse_digits n (b ∷ digits) =
    let rest = parse_digits (n * 10 + (b - b'0')) digits in
    if leb b'0' b && leb b b'9' then rest else none

-- A number that an int64 can hold, as its bit pattern.
abbrev int64_of : Bool → Option ℕ → Option ℕ
int64_of minus none = none
int64_of true (some n) = if leb n Int64.bound then some (Int64.sub 0 n) else none
int64_of false (some n) = if ltb n Int64.bound then some n else none

unfoldable pub parse_unsigned : Bytes → Option ℕ
unfolding parse_digits
parse_unsigned [] = none
parse_unsigned (b ∷ digits) = parse_digits 0 (b ∷ digits)

-- `strconv.ParseInt(s, 10, 64)`
unfoldable pub parse_int : Bytes → Option ℕ
unfolding parse_unsigned
parse_int [] = none
parse_int (b ∷ s) =
    if b == b'-'
    then int64_of true (parse_unsigned s)
    else (if b == b'+'
        then int64_of false (parse_unsigned s)
        else int64_of false (parse_unsigned (b ∷ s)))

-- What a `context.Context` carries here: the deadline in milliseconds, and the mark of `CtxWithOneway`.
pub record Context : Type 0 where
  pub deadline : Option ℕ
  pub one_way : Bool

-- The context that `handleConn` makes of the request's `Meta`.
abbrev deadline_of : Option Bytes → Option ℕ
deadline_of none = none
deadline_of (some deadline) = parse_int deadline

abbrev one_way_of : Option Bytes → Bool
one_way_of none = false
one_way_of (some one_way) = bytes_eq one_way (text "true")

unfoldable pub context_of : Request → Context
unfolding parse_int
context_of req = record {
  deadline = deadline_of (lookup (text "deadline") (pairs req.meta));
  one_way = one_way_of (lookup (text "one-way") (pairs req.meta));
}
