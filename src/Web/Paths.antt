-- ===== src/Web/Paths.antt =====
-- The texts of paths: what `strings.Split` and `strings.Trim` make of joined segments.
use myhomework.Common.{
  ℕ, Bytes, text, bytes_eq, split_byte, join_byte, trim, trim_left, Lacks, ◌≡◌, refl, sym, ap, ◌∙◌,
  ◌≢◌, not, ◌&&◌, false, List, [], ◌∷◌, ◌++◌, ok, err, arith, Ensures, Ensures-if, All,
  append_assoc,
}
use mathlib.Core.List.{reverse, reverse-append, reverse-reverse}
use myhomework.Web.Register.{trailing_slash, ends_in_slash, check_path}
use myhomework.Web.Static.{IsPlain}

-- A text in front of the separator is the first part.
split_byte-append :
    (c : ℕ) (s t : Bytes) → Lacks c s → split_byte c (s ++ c ∷ t) ≡ s ∷ split_byte c t
unfolding split_byte
split_byte-append c [] t h = ground arith
split_byte-append c (b ∷ s) t (h, hs) = ground (arith, split_byte-append c s t hs)

split_byte_of_Lacks : (c : ℕ) (s : Bytes) → Lacks c s → split_byte c s ≡ s ∷ []
unfolding split_byte
split_byte_of_Lacks c [] h = refl
split_byte_of_Lacks c (b ∷ s) (h, hs) = ground (arith, split_byte_of_Lacks c s hs)

-- `strings.Split` takes apart what was joined.
pub split_byte-join_byte :
    (c : ℕ) (s : Bytes) (ss : List Bytes)
    → All (Lacks c) (s ∷ ss)
    → split_byte c (join_byte c (s ∷ ss)) ≡ s ∷ ss
unfolding join_byte
split_byte-join_byte c s [] (h, _) = split_byte_of_Lacks c s h
split_byte-join_byte c s (t ∷ ts) (h, hs) =
    split_byte-append c s (join_byte c (t ∷ ts)) h ∙ ap (◌∷◌ s) (split_byte-join_byte c t ts hs)

-- A last byte.
Ends : ℕ → Bytes → Type 0
Ends c s = (init : Bytes) × (b : ℕ) × (s ≡ init ++ b ∷ []) × (b ≢ c)

last_of : (c b : ℕ) (s : Bytes) → Lacks c (b ∷ s) → Ends c (b ∷ s)
unfolding Ends
last_of c b [] (h, _) = ([], b, refl, h)
last_of c b (d ∷ s) (h, hs) =
    let (init, l, e, ne) = last_of c d s hs in (b ∷ init, l, ap (◌∷◌ b) e, ne)

last_append : (c : ℕ) (s t : Bytes) → Ends c t → Ends c (s ++ t)
unfolding Ends
last_append c s t (init, b, e, ne) =
    (s ++ init, b, ap (◌++◌ s) e ∙ sym (append_assoc s init (b ∷ [])), ne)

trim_left_other : (c b : ℕ) (s : Bytes) → b ≢ c → trim_left c (b ∷ s) ≡ b ∷ s
unfolding trim_left
trim_left_other c b s h = ground arith

trim_left_same : (c : ℕ) (s : Bytes) → trim_left c (c ∷ s) ≡ trim_left c s
unfolding trim_left
trim_left_same c s = ground arith

trim_right : (c : ℕ) (s : Bytes) → Ends c s → reverse (trim_left c (reverse s)) ≡ s
unfolding Ends
trim_right c s (init, l, e, ne) =
    rw (e, reverse-append init (l ∷ []), trim_left_other c l (reverse init) ne)
      (ap reverse (sym (reverse-append init (l ∷ []))) ∙ reverse-reverse (init ++ l ∷ []))

-- `strings.Trim` drops one byte in front, if the text behind it begins and ends with other bytes.
trim-path : (c b : ℕ) (s : Bytes) → b ≢ c → Ends c (b ∷ s) → trim c (c ∷ b ∷ s) ≡ b ∷ s
unfolding trim
trim-path c b s h ends =
    rw (trim_left_same c (b ∷ s), trim_left_other c b s h) (trim_right c (b ∷ s) ends)

-- A plain segment without a slash.
abbrev pub IsSegment : Bytes → Type 0
IsSegment s = IsPlain s × Lacks b'/' s

abbrev pub path_of : List Bytes → Bytes
path_of segs = b'/' ∷ join_byte b'/' segs

Segment-cases : (s : Bytes) → IsSegment s → (b : ℕ) × (r : Bytes) × (s ≡ b ∷ r) × Lacks b'/' (b ∷ r)
Segment-cases [] (h, _) = absurd h
Segment-cases (b ∷ r) (_, h) = (b, r, refl, h)

join-Ends :
    (s : Bytes) (ss : List Bytes) → All IsSegment (s ∷ ss) → Ends b'/' (join_byte b'/' (s ∷ ss))
unfolding join_byte
join-Ends [] ss (h, _) = absurd h.0
join-Ends (b ∷ r) [] ((_, h), _) = last_of b'/' b r h
join-Ends (b ∷ r) (t ∷ ts) (_, hs) =
    last_append b'/' (b ∷ r) (b'/' ∷ join_byte b'/' (t ∷ ts))
      (last_append b'/' (b'/' ∷ []) (join_byte b'/' (t ∷ ts)) (join-Ends t ts hs))

pub trim-path_of :
    (s : Bytes) (ss : List Bytes)
    → All IsSegment (s ∷ ss)
    → trim b'/' (path_of (s ∷ ss)) ≡ join_byte b'/' (s ∷ ss)
trim-path_of [] ss (h, _) = absurd h.0
trim-path_of (b ∷ r) [] hs =
    unfold join_byte in trim-path b'/' b r hs.0.1.0 (unfold join_byte in join-Ends (b ∷ r) [] hs)
trim-path_of (b ∷ r) (t ∷ ts) hs =
    unfold join_byte in
    trim-path b'/' b (r ++ b'/' ∷ join_byte b'/' (t ∷ ts)) hs.0.1.0 (join-Ends (b ∷ r) (t ∷ ts) hs)

pub not_root :
    (s : Bytes) (ss : List Bytes)
    → All IsSegment (s ∷ ss)
    → bytes_eq (path_of (s ∷ ss)) (text "/") ≡ false
unfolding bytes_eq join_byte text
not_root [] ss (h, _) = absurd h.0
not_root (b ∷ r) [] h = refl
not_root (b ∷ r) (t ∷ ts) h = refl

pub join_nonempty :
    (s : Bytes) (ss : List Bytes)
    → All IsSegment (s ∷ ss)
    → bytes_eq (join_byte b'/' (s ∷ ss)) [] ≡ false
unfolding bytes_eq join_byte
join_nonempty [] ss (h, _) = absurd h.0
join_nonempty (b ∷ r) [] h = refl
join_nonempty (b ∷ r) (t ∷ ts) h = refl

abbrev pub IsRest : Bytes → Bytes → Type 0
IsRest rest r = (r ≡ rest) × (bytes_eq r [] ≡ false)

pub check_path-IsRest :
    (rest : Bytes) → bytes_eq rest [] ≡ false → Ensures (IsRest rest) (check_path (b'/' ∷ rest))
unfolding check_path
check_path-IsRest rest h =
    Ensures-if (IsRest rest) (not (bytes_eq rest []) && ends_in_slash rest) (err trailing_slash)
      (ok rest) tt (refl, h)

segments_lack : (ss : List Bytes) → All IsSegment ss → All (Lacks b'/') ss
segments_lack [] h = tt
segments_lack (s ∷ ss) (h, hs) = (h.1, segments_lack ss hs)

pub split-path_of :
    (s : Bytes) (ss : List Bytes)
    → All IsSegment (s ∷ ss)
    → split_byte b'/' (join_byte b'/' (s ∷ ss)) ≡ s ∷ ss
split-path_of s ss h = split_byte-join_byte b'/' s ss (segments_lack (s ∷ ss) h)

pub segments-IsPlain : (ss : List Bytes) → All IsSegment ss → All IsPlain ss
segments-IsPlain [] h = tt
segments-IsPlain (s ∷ ss) (h, hs) = (h.0, segments-IsPlain ss hs)
