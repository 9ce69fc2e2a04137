-- ===== src/Message/Request/Decode.antt =====
-- `DecodeReq` reads back what `EncodeReq` wrote.
use myhomework.Common.{
  ℕ, zero, suc, ◌+◌, ◌-◌, ◌≤◌, ◌<◌, ◌^◌, Bytes, Lacks, Lacks-append, cut_byte, cut_byte-append, ◌≡◌,
  refl, sym, ap, ◌∙◌, List, [], ◌∷◌, ◌++◌, append_assoc, append-nil, length, length-append, All,
  arith, Option, none, some, take-append_of_length, drop-append_of_length, leb_of_le, drop,
  if◌then◌else◌, ◌==◌, Bool-cases, inl, inr,
}
use myhomework.Common.Dict.{insert_fresh, IsFresh, IsFresh-append, HasDistinctKeys}
use myhomework.Message.Wire.{ok, ◌>>=◌, IsU32, put_u32, get_u32, get_byte}
use myhomework.Message.Wire.Laws.{get_u32-put_u32}
use myhomework.Message.Request.{
  Request, pairs, encode_req, decode_req, get_meta, get_line, get_all_meta, get_header, meta_length,
  calculate_body_length, calculate_header_length,
}
use myhomework.Message.Request.Encode.{
  meta_text, names_text, header_text, full_length, length-meta_text, length-header_text, IsMeasured,
  encode_req-frame,
}

-- The separators stand in no key, and the line feed in no value.
abbrev pub IsCleanPair : Bytes × Bytes → Type 0
IsCleanPair (key, value) = Lacks b'\n' key × Lacks b'\r' key × Lacks b'\n' value

IsFresh-append-All :
    (m acc : List (Bytes × Bytes)) (key value : Bytes)
    → All (λ e. IsFresh e.0 acc) m
    → IsFresh key m
    → All (λ e. IsFresh e.0 (acc ++ (key, value) ∷ [])) m
IsFresh-append-All [] acc key value h k = tt
IsFresh-append-All (e ∷ m) acc key value (h, hs) (k, ks) =
    (IsFresh-append e.0 acc key value h (λ p. k (sym p)), IsFresh-append-All m acc key value hs ks)

-- The line of one pair.
cut_pair :
    (key value rest : Bytes)
    → Lacks b'\n' key
    → Lacks b'\n' value
    → cut_byte b'\n' (key ++ b'\r' ∷ (value ++ b'\n' ∷ rest)) ≡ some (key ++ b'\r' ∷ value, rest)
cut_pair key value rest hk hv = rw (← append_assoc key (b'\r' ∷ value) (b'\n' ∷ rest)) (
    cut_byte-append b'\n' (key ++ b'\r' ∷ value) rest
      (Lacks-append b'\n' key (b'\r' ∷ value) hk (omega arith, hv)))

IsFresh-in_nil : (m : List (Bytes × Bytes)) → All (λ e. IsFresh {V = Bytes} e.0 []) m
IsFresh-in_nil [] = tt
IsFresh-in_nil (e ∷ m) = (tt, IsFresh-in_nil m)

get_meta-meta_text :
    (m acc : List (Bytes × Bytes)) (fuel : ℕ)
    → length m ≤ fuel
    → All IsCleanPair m
    → HasDistinctKeys m
    → All (λ e. IsFresh e.0 acc) m
    → get_meta fuel (meta_text m) acc ≡ ok (acc ++ m)
unfolding get_meta
get_meta-meta_text [] acc zero hf hc hd ha = unfold cut_byte in rw (append-nil acc) refl
get_meta-meta_text [] acc (suc fuel) hf hc hd ha = unfold cut_byte in rw (append-nil acc) refl
get_meta-meta_text ((key, value) ∷ m) acc zero hf hc hd ha = absurd (omega arith)
get_meta-meta_text ((key, value) ∷ m) acc (suc fuel) hf ((hn, hr, hv), hc) (hk, hd) (hi, ha) =
    rw
      (
        cut_pair key value (meta_text m) hn hv,
        cut_byte-append b'\r' key value hr,
        insert_fresh key value acc hi,
        get_meta-meta_text m (acc ++ (key, value) ∷ []) fuel (omega arith) hc hd
            (IsFresh-append-All m acc key value ha hk),
        append_assoc acc ((key, value) ∷ []) m,
        get_meta,
      )
      refl

length-meta : (m : List (Bytes × Bytes)) → length m ≤ meta_length m
length-meta [] = omega arith
length-meta ((key, value) ∷ m) = omega (arith, length-meta m)

-- What `DecodeReq` makes of the map: an empty map comes back as nil.
abbrev pub canonical : Option (List (Bytes × Bytes)) → Option (List (Bytes × Bytes))
canonical (some (e ∷ m)) = some (e ∷ m)
canonical _ = none

get_all_meta-meta_text :
    (o : Option (List (Bytes × Bytes)))
    → All IsCleanPair (pairs o)
    → HasDistinctKeys (pairs o)
    → get_all_meta (meta_text (pairs o)) ≡ ok (canonical o)
get_all_meta-meta_text none hc hd = unfold cut_byte get_all_meta in refl
get_all_meta-meta_text (some []) hc hd = unfold cut_byte get_all_meta in refl
get_all_meta-meta_text (some ((key, value) ∷ m)) hc hd =
    unfold get_all_meta in
    rw
      (
        cut_pair key value (meta_text m) hc.0.0 hc.0.2,
        get_meta-meta_text ((key, value) ∷ m) [] (length (meta_text ((key, value) ∷ m)))
            (omega (arith, length-meta ((key, value) ∷ m), length-meta_text ((key, value) ∷ m))) hc
            hd (IsFresh-in_nil ((key, value) ∷ m)),
        get_all_meta,
      )
      refl

-- A request that a frame can carry: 32-bit fields, a measured header and body, no separator inside a
-- name, a key or a value (a value may hold a carriage return), and each key once.
pub record IsSendable (req : Request) : Type 0 where
  pub id : IsU32 req.request_id
  pub measured : IsMeasured req
  pub service : Lacks b'\n' req.service_name
  pub method : Lacks b'\n' req.method_name
  pub clean : All IsCleanPair (pairs req.meta)
  pub distinct : HasDistinctKeys (pairs req.meta)

length-names_text : (req : Request) → length (names_text req) + 15 ≡ full_length req
length-names_text req = omega (arith, names_size, length-header_text req)
  where
    names_size : length (header_text req) ≡ 15 + length (names_text req)
    names_size = unfold put_u32 header_text in omega arith

get_header-names_text :
    (req : Request) (bytes : Bytes)
    → req.head_length ≡ full_length req
    → length bytes ≡ full_length req + length req.payload
    → get_header req.head_length bytes (names_text req ++ req.payload) ≡ ok (names_text req)
unfolding get_header
get_header-names_text req bytes h hb =
    rw
      (
        leb_of_le 15 req.head_length (omega (arith, length-names_text req)),
        leb_of_le req.head_length (length bytes) (omega arith),
        take-append_of_length (req.head_length - 15) (names_text req) req.payload
            (omega (arith, length-names_text req)),
      )
      refl

payload-drop :
    (req : Request)
    → IsMeasured req
    → (if req.body_length == 0 then [] else drop req.head_length (header_text req ++ req.payload))
      ≡ req.payload
payload-drop req m = elim (Bool-cases (req.body_length == 0)) [
  | inl e ↦ rw e (sym (empty req.payload (ground (arith, m.body))))
  | inr e ↦ rw e (
      drop-append_of_length req.head_length (header_text req) req.payload
        (omega (arith, m.head, length-header_text req)))
]
  where
    empty : (s : Bytes) → length s ≡ 0 → s ≡ []
    empty [] h = refl
    empty (b ∷ s) h = absurd (omega arith)

-- The frame, with the bytes of the fixed part in front.
frame_shape :
    (req : Request)
    → header_text req ++ req.payload
      ≡ put_u32 req.head_length
        ++ (put_u32 req.body_length
            ++ (put_u32 req.request_id
                ++ (req.version
                    ∷ req.compresser
                    ∷ req.serializer
                    ∷ (names_text req ++ req.payload))))
unfolding header_text
frame_shape req = simp append_assoc refl

get_line-text :
    (line rest : Bytes) → Lacks b'\n' line → get_line (line ++ b'\n' ∷ rest) ≡ ok (line, rest)
unfolding get_line
get_line-text line rest h = rw (cut_byte-append b'\n' line rest h, get_line) refl

get_service :
    (req : Request)
    → Lacks b'\n' req.service_name
    → get_line (names_text req)
      ≡ ok (req.service_name, req.method_name ++ b'\n' ∷ meta_text (pairs req.meta))
unfolding names_text
get_service req h = get_line-text req.service_name _ h

decode_req-bytes :
    (req : Request) (bytes : Bytes)
    → IsSendable req
    → bytes ≡ header_text req ++ req.payload
    → decode_req bytes ≡ ok (record req { meta = canonical req.meta })
unfolding get_byte
decode_req-bytes req bytes s e =
    let size : length bytes ≡ full_length req + length req.payload = omega (
      arith,
      ap (λ b. length b) e,
      length-append (header_text req) req.payload,
      length-header_text req,
    ) in
    let m = s.measured in
    let body_small : IsU32 req.body_length = omega (arith, m.fits) in
    let first =
      ap get_u32 (e ∙ frame_shape req)
      ∙ get_u32-put_u32 req.head_length _ (omega (arith, m.fits)) in
    let keep =
      ap (λ b. if req.body_length == 0 then [] else drop req.head_length b) e
      ∙ payload-drop req m in
    unfold decode_req in
    rw
      (
        first,
        get_u32-put_u32 req.body_length _ body_small,
        get_u32-put_u32 req.request_id _ s.id,
        get_header-names_text req bytes m.head size,
        get_service req s.service,
        get_line-text req.method_name (meta_text (pairs req.meta)) s.method,
        get_all_meta-meta_text req.meta s.clean s.distinct,
        keep,
      )
      refl

-- `DecodeReq` reads a sendable request back from the frame that `EncodeReq` returns, every field as it
-- was; only an empty map `Meta` comes back as nil.
pub decode_req-encode_req :
    (req : Request)
    → IsSendable req
    → (encode_req req >>= decode_req) ≡ ok (record req { meta = canonical req.meta })
decode_req-encode_req req s = rw (encode_req-frame req s.measured) (decode_req-bytes req _ s refl)

-- `CalculateHeaderLength` and `CalculateBodyLength` give the lengths that a frame needs, if the whole
-- frame is shorter than 2 ^ 32 bytes.
pub calculate-IsMeasured :
    (req : Request)
    → full_length req + length req.payload < 2 ^ 32
    → IsMeasured (calculate_body_length (calculate_header_length req))
unfolding calculate_body_length calculate_header_length
calculate-IsMeasured req h = omega arith
