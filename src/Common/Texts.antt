-- ===== src/Common/Texts.antt =====
-- Go strings and byte slices: lists of byte values.
use Prim.Native.Nat.{ℕ, ◌+◌}
use Prim.Native.Char.{code}
use Prim.Native.String.{String}
use mathlib.Core.Path.{◌≡◌, refl}
use mathlib.Core.Logic.{◌≢◌, ◌↔◌}
use mathlib.Core.Bool.{Bool, true, false, ◌&&◌}
use mathlib.Core.Option.{Option, none, some}
use mathlib.Core.List.{List, [], ◌∷◌, ◌++◌, reverse}
use native.Mathlib.Omega.{arith}
use myhomework.Common.Tests.{◌==◌, if◌then◌else◌}
use myhomework.Common.Lists.{All}

abbrev pub Bytes : Type 0
Bytes = List ℕ

-- The bytes of an ASCII literal.
unfoldable pub text : String → Bytes
text String.[] = []
text (String.◌∷◌ c s) = code c ∷ text s

-- `==` on Go strings.
unfoldable pub bytes_eq : Bytes → Bytes → Bool
bytes_eq [] [] = true
bytes_eq [] (b ∷ t) = false
bytes_eq (a ∷ s) [] = false
bytes_eq (a ∷ s) (b ∷ t) = a == b && bytes_eq s t

pub bytes_eq_iff : (s t : Bytes) → (bytes_eq s t ≡ true) ↔ (s ≡ t)
unfolding bytes_eq
bytes_eq_iff [] [] = (λ _. refl, λ _. refl)
bytes_eq_iff [] (b ∷ t) = ground arith
bytes_eq_iff (a ∷ s) [] = ground arith
bytes_eq_iff (a ∷ s) (b ∷ t) = ground (arith, bytes_eq_iff s t)

-- The byte `c` does not occur in the text.
abbrev pub Lacks : ℕ → Bytes → Type 0
Lacks c s = All (λ b. b ≢ c) s

-- How often the byte `c` occurs.
unfoldable pub count_byte : ℕ → Bytes → ℕ
count_byte c [] = 0
count_byte c (b ∷ s) = (if b == c then 1 else 0) + count_byte c s

pub count_byte-append :
    (c : ℕ) (s t : Bytes) → count_byte c (s ++ t) ≡ count_byte c s + count_byte c t
unfolding count_byte
count_byte-append c [] t = omega arith
count_byte-append c (b ∷ s) t = omega (arith, count_byte-append c s t)

pub count_byte_of_Lacks : (c : ℕ) (s : Bytes) → Lacks c s → count_byte c s ≡ 0
unfolding count_byte
count_byte_of_Lacks c [] h = refl
count_byte_of_Lacks c (b ∷ s) h = ground (arith, count_byte_of_Lacks c s)

-- `bytes.IndexByte`, with what stands before and behind the byte; `none` is the index -1.
unfoldable pub cut_byte : ℕ → Bytes → Option (Bytes × Bytes)
cut_byte c [] = none
cut_byte c (b ∷ s) =
    let rest = cut_byte c s in
    if b == c
    then some ([], s)
    else elim rest [ none ↦ none | some (front, back) ↦ some (b ∷ front, back) ]

pub cut_byte-append : (c : ℕ) (s t : Bytes) → Lacks c s → cut_byte c (s ++ c ∷ t) ≡ some (s, t)
unfolding cut_byte
cut_byte-append c [] t h = ground arith
cut_byte-append c (b ∷ s) t h = ground (arith, cut_byte-append c s t)

pub cut_byte_of_Lacks : (c : ℕ) (s : Bytes) → Lacks c s → cut_byte c s ≡ none
unfolding cut_byte
cut_byte_of_Lacks c [] h = refl
cut_byte_of_Lacks c (b ∷ s) h = ground (arith, cut_byte_of_Lacks c s)

pub Lacks-append : (c : ℕ) (s t : Bytes) → Lacks c s → Lacks c t → Lacks c (s ++ t)
Lacks-append c [] t hs ht = ht
Lacks-append c (b ∷ s) t (h, hs) ht = (h, Lacks-append c s t hs ht)

abbrev push_head : ℕ → List Bytes → List Bytes
push_head b [] = (b ∷ []) ∷ []
push_head b (t ∷ ts) = (b ∷ t) ∷ ts

-- `strings.Split(s, c)` for a separator of one byte.
unfoldable pub split_byte : ℕ → Bytes → List Bytes
split_byte c [] = [] ∷ []
split_byte c (b ∷ s) = let rest = split_byte c s in if b == c then [] ∷ rest else push_head b rest

-- The texts with the byte between them.
unfoldable pub join_byte : ℕ → List Bytes → Bytes
join_byte c [] = []
join_byte c (s ∷ []) = s
join_byte c (s ∷ t ∷ ts) = s ++ c ∷ join_byte c (t ∷ ts)

-- `strings.Trim(s, c)`: the byte is dropped at both ends.
unfoldable pub trim_left : ℕ → Bytes → Bytes
trim_left c [] = []
trim_left c (b ∷ s) = let rest = trim_left c s in if b == c then rest else b ∷ s

unfoldable pub trim : ℕ → Bytes → Bytes
unfolding trim_left
trim c s = reverse (trim_left c (reverse (trim_left c s)))

pub bytes_eq_refl : (s : Bytes) → bytes_eq s s ≡ true
bytes_eq_refl s = (bytes_eq_iff s s).1 refl
