-- ===== src/Message/Response/RoundTrip.antt =====
-- `DecodeResp` reads back what `EncodeResp` wrote.
use myhomework.Common.{
  ℕ, ◌+◌, ◌-◌, ◌%◌, ◌^◌, ◌≤◌, ◌<◌, Bytes, ◌≡◌, refl, ap, ◌∙◌, [], ◌∷◌, ◌++◌, append_assoc, length,
  length-append, length-replicate, length-drop, replicate, arith, drop, ltb, leb_of_le,
  take-append_of_length, drop-append_of_length, Bool-cases, inl, inr, ◌==◌,
}
use myhomework.Message.Wire.{ok, ◌>>=◌, IsU32, put_u32, get_u32, get_byte, put, copy}
use myhomework.Message.Wire.Laws.{get_u32-put_u32, put-put_then, put_byte_then, put_room, copy-fits}
use myhomework.Message.Request.{buffer}
use myhomework.Message.Response.{
  Response, encode_resp, get_failure, get_payload, decode_resp, calculate_header_length,
  calculate_body_length,
}

unfoldable pub header_text : Response → Bytes
header_text resp =
    put_u32 resp.head_length
    ++ (put_u32 resp.body_length
        ++ (put_u32 resp.request_id
            ++ (resp.version ∷ resp.compresser ∷ resp.serializer ∷ resp.failure)))

-- A response that a frame can carry.
pub record IsSendable (resp : Response) : Type 0 where
  pub id : IsU32 resp.request_id
  pub head : resp.head_length ≡ 15 + length resp.failure
  pub body : resp.body_length ≡ length resp.payload
  pub fits : resp.head_length + resp.body_length < 2 ^ 32

pub length-header_text : (resp : Response) → length (header_text resp) ≡ 15 + length resp.failure
unfolding header_text put_u32
length-header_text resp = omega arith

encode_resp-put :
    (resp : Response)
    → encode_resp resp ≡ (
        put (header_text resp) (buffer resp.head_length resp.body_length) >>= λ c.
        ok (copy resp.payload c))
unfolding encode_resp header_text
encode_resp-put resp = simp (put-put_then, put_byte_then, append_assoc) refl

pub encode_resp-frame :
    (resp : Response) → IsSendable resp → encode_resp resp ≡ ok (header_text resp ++ resp.payload)
encode_resp-frame resp s =
    let size : ℕ = (resp.head_length + resp.body_length) % 2 ^ 32 in
    let behind : Bytes = drop (length (header_text resp)) (replicate size 0) in
    let room : length (buffer resp.head_length resp.body_length).cur ≡ size =
      length-replicate {A = ℕ} size 0 in
    let fits : length behind ≡ length resp.payload = omega (
      arith,
      length-header_text resp,
      length-replicate {A = ℕ} size 0,
      length-drop {A = ℕ} (length (header_text resp)) (replicate size 0),
      s.head,
      s.body,
      s.fits,
    ) in
    rw
      (
        encode_resp-put resp,
        put_room (header_text resp) (buffer resp.head_length resp.body_length)
            (omega (arith, length-header_text resp, room, s.head, s.fits)),
        copy-fits resp.payload (header_text resp) behind fits,
      )
      refl

pub frame_shape :
    (resp : Response)
    → header_text resp ++ resp.payload
      ≡ put_u32 resp.head_length
        ++ (put_u32 resp.body_length
            ++ (put_u32 resp.request_id
                ++ (resp.version
                    ∷ resp.compresser
                    ∷ resp.serializer
                    ∷ (resp.failure ++ resp.payload))))
unfolding header_text
frame_shape resp = simp append_assoc refl

nil_of_length : (s : Bytes) → length s ≡ 0 → s ≡ []
nil_of_length [] h = refl
nil_of_length (b ∷ s) h = absurd (omega arith)

get_failure-frame :
    (resp : Response) (bytes : Bytes)
    → IsSendable resp
    → resp.head_length ≤ length bytes
    → get_failure resp.head_length bytes (resp.failure ++ resp.payload) ≡ ok resp.failure
unfolding get_failure
get_failure-frame resp bytes s h = elim (Bool-cases (ltb 15 resp.head_length)) [
  | inl e ↦
      rw
        (
          e,
          leb_of_le resp.head_length (length bytes) h,
          take-append_of_length (resp.head_length - 15) resp.failure resp.payload
              (omega (arith, s.head)),
        )
        refl
  | inr e ↦ rw (e, nil_of_length resp.failure (ground (arith, s.head))) refl
]

get_payload-frame :
    (resp : Response) (bytes : Bytes)
    → IsSendable resp
    → bytes ≡ header_text resp ++ resp.payload
    → resp.head_length ≤ length bytes
    → get_payload resp.head_length resp.body_length bytes ≡ ok resp.payload
unfolding get_payload
get_payload-frame resp bytes s e h = elim (Bool-cases (resp.body_length == 0)) [
  | inl z ↦ rw (z, nil_of_length resp.payload (ground (arith, s.body))) refl
  | inr nz ↦
      rw
        (
          nz,
          leb_of_le resp.head_length (length bytes) h,
          ap (drop resp.head_length) e
              ∙ drop-append_of_length resp.head_length (header_text resp) resp.payload
                  (omega (arith, s.head, length-header_text resp)),
        )
        refl
]

decode_resp-bytes :
    (resp : Response) (bytes : Bytes)
    → IsSendable resp
    → bytes ≡ header_text resp ++ resp.payload
    → decode_resp bytes ≡ ok resp
unfolding decode_resp get_byte
decode_resp-bytes resp bytes s e =
    let size : resp.head_length ≤ length bytes = omega (
      arith,
      ap (λ b. length b) e,
      length-append (header_text resp) resp.payload,
      length-header_text resp,
      s.head,
    ) in
    let first =
      ap get_u32 (e ∙ frame_shape resp)
      ∙ get_u32-put_u32 resp.head_length _ (omega (arith, s.fits)) in
    rw
      (
        first,
        get_u32-put_u32 resp.body_length _ (omega (arith, s.fits)),
        get_u32-put_u32 resp.request_id _ s.id,
        get_failure-frame resp bytes s size,
        get_payload-frame resp bytes s e size,
      )
      refl

-- `DecodeResp` reads a response back from the frame that `EncodeResp` returns, every field as it was,
-- if its length fields are those of its error and its data, the frame is shorter than 2 ^ 32 bytes and
-- the request id has 32 bits.
pub decode_resp-encode_resp :
    (resp : Response) → IsSendable resp → (encode_resp resp >>= decode_resp) ≡ ok resp
decode_resp-encode_resp resp s = rw (encode_resp-frame resp s) (decode_resp-bytes resp _ s refl)

-- The two computations give such length fields.
pub calculate-IsSendable :
    (resp : Response)
    → IsU32 resp.request_id
    → 15 + length resp.failure + length resp.payload < 2 ^ 32
    → IsSendable (calculate_body_length (calculate_header_length resp))
unfolding calculate_body_length calculate_header_length
calculate-IsSendable resp h k = omega arith
