-- ===== src/Message/Request/Total.antt =====
-- The loop of `DecodeReq` ends on every input: its fuel is enough.
use myhomework.Common.{
  ℕ, zero, suc, ◌≤◌, ◌<◌, Bytes, cut_byte, ◌≡◌, refl, ◌≢◌, List, [], ◌∷◌, length, arith, some,
  Option-cases, inl, inr,
}
use myhomework.Common.Dict.{insert}
use myhomework.Message.Wire.{Outcome, ok, panic, stuck, ◌>>=◌, get_u32, get_byte}
use myhomework.Message.Request.{decode_req, get_meta, get_line, get_all_meta, get_header}

-- What stands behind the byte is shorter than the text.
cut_byte_shorter :
    (c : ℕ) (s front back : Bytes) → cut_byte c s ≡ some (front, back) → length back < length s
unfolding cut_byte
cut_byte_shorter c [] front back h = cc
cut_byte_shorter c (b ∷ s) front back h = elim (Option-cases (cut_byte c s)) [
  | inl e ↦ ground (arith, e)
  | inr ((f, r), e) ↦ ground (arith, e, cut_byte_shorter c s f r e)
]

get_meta-ne-stuck :
    (fuel : ℕ) (header : Bytes) (m : List (Bytes × Bytes))
    → length header ≤ fuel
    → get_meta fuel header m ≢ stuck
unfolding get_meta
get_meta-ne-stuck zero header m h = elim (Option-cases (cut_byte b'\n' header)) [
  | inl e ↦ rw (e, get_meta) (λ p. cc)
  | inr ((pair, rest), e) ↦ absurd (omega (arith, cut_byte_shorter b'\n' header pair rest e))
]
get_meta-ne-stuck (suc fuel) header m h = elim (Option-cases (cut_byte b'\n' header)) [
  | inl e ↦ rw (e, get_meta) (λ p. cc)
  | inr ((pair, rest), e) ↦ elim (Option-cases (cut_byte b'\r' pair)) [
    | inl e' ↦ rw (e, e', get_meta) (λ p. cc)
    | inr ((key, value), e') ↦
        rw (e, e', get_meta)
          (get_meta-ne-stuck fuel rest (insert key value m)
            (omega (arith, cut_byte_shorter b'\n' header pair rest e)))
  ]
]

-- A chain is stuck only where one of its steps is.
bind-ne-stuck :
    {A B : Type 0} (m : Outcome A) (f : A → Outcome B)
    → m ≢ stuck
    → ((a : A) → f a ≢ stuck)
    → (m >>= f) ≢ stuck
bind-ne-stuck (ok a) f hm hf = hf a
bind-ne-stuck panic f hm hf = λ p. cc
bind-ne-stuck stuck f hm hf = absurd (hm refl)

get_u32-ne-stuck : (bytes : Bytes) → get_u32 bytes ≢ stuck
unfolding get_u32
get_u32-ne-stuck (a ∷ b ∷ c ∷ d ∷ rest) p = cc
get_u32-ne-stuck _ p = cc

get_byte-ne-stuck : (bytes : Bytes) → get_byte bytes ≢ stuck
unfolding get_byte
get_byte-ne-stuck [] p = cc
get_byte-ne-stuck (b ∷ rest) p = cc

get_header-ne-stuck : (head : ℕ) (bytes behind : Bytes) → get_header head bytes behind ≢ stuck
unfolding get_header
get_header-ne-stuck head bytes behind p = ground arith

get_line-ne-stuck : (header : Bytes) → get_line header ≢ stuck
unfolding get_line
get_line-ne-stuck header p = ground arith

get_all_meta-ne-stuck : (header : Bytes) → get_all_meta header ≢ stuck
unfolding get_all_meta
get_all_meta-ne-stuck header = elim (Option-cases (cut_byte b'\n' header)) [
  | inl e ↦ rw (e, get_all_meta) (λ p. cc)
  | inr (x, e) ↦
      rw (e, get_all_meta)
        (bind-ne-stuck (get_meta (length header) header []) _
          (get_meta-ne-stuck (length header) header [] (omega arith)) (λ m p. cc))
]

-- On every input, well formed or not, `DecodeReq` returns a request or panics: the fuel of its loop
-- never runs out.
pub decode_req-ne-stuck : (bytes : Bytes) → decode_req bytes ≢ stuck
unfolding decode_req
decode_req-ne-stuck bytes = bind-ne-stuck (get_u32 bytes) _ (get_u32-ne-stuck bytes) λ (head, r₁).
    bind-ne-stuck (get_u32 r₁) _ (get_u32-ne-stuck r₁) λ (body, r₂).
      bind-ne-stuck (get_u32 r₂) _ (get_u32-ne-stuck r₂) λ (id, r₃).
        bind-ne-stuck (get_byte r₃) _ (get_byte-ne-stuck r₃) λ (v, r₄).
          bind-ne-stuck (get_byte r₄) _ (get_byte-ne-stuck r₄) λ (c, r₅).
            bind-ne-stuck (get_byte r₅) _ (get_byte-ne-stuck r₅) λ (s, r₆).
              bind-ne-stuck (get_header head bytes r₆) _ (get_header-ne-stuck head bytes r₆)
                λ header.
                  bind-ne-stuck (get_line header) _ (get_line-ne-stuck header) λ (service, h₁).
                    bind-ne-stuck (get_line h₁) _ (get_line-ne-stuck h₁) λ (method, h₂).
                      bind-ne-stuck (get_all_meta h₂) _ (get_all_meta-ne-stuck h₂) (λ meta p. cc)
