-- ===== src/Message/Request/Encode.antt =====
-- `EncodeReq` writes the header text, and then as much of the payload as fits.
use myhomework.Common.{
  ℕ, ◌+◌, ◌%◌, ◌^◌, ◌≤◌, ◌<◌, Bytes, ◌≡◌, refl, ◌∙◌, ◌↔◌, List, [], ◌∷◌, ◌++◌, append_assoc,
  append-nil, length, length-append, length-replicate, length-drop, replicate, arith, drop,
}
use native.Mathlib.Decide.{dec_le}
use myhomework.Message.Wire.{Outcome, ok, panic, stuck, ◌>>=◌, put_u32, Cursor, put, copy}
use myhomework.Message.Wire.Laws.{
  put-put, put-put_then, put_byte_then, bind_assoc, put_room, put_full, copy-fits,
}
use myhomework.Message.Request.{Request, pairs, buffer, put_meta, encode_req, meta_length}

-- The pairs, each with its two separators.
abbrev pub meta_text : List (Bytes × Bytes) → Bytes
meta_text [] = []
meta_text ((key, value) ∷ m) = key ++ b'\r' ∷ (value ++ b'\n' ∷ meta_text m)

-- What follows the first 15 bytes.
unfoldable pub names_text : Request → Bytes
names_text req = req.service_name ++ b'\n' ∷ (req.method_name ++ b'\n' ∷ meta_text (pairs req.meta))

-- The header of a request, byte for byte.
unfoldable pub header_text : Request → Bytes
unfolding names_text
header_text req =
    put_u32 req.head_length
    ++ (put_u32 req.body_length
        ++ (put_u32 req.request_id
            ++ (req.version ∷ req.compresser ∷ req.serializer ∷ names_text req)))

ends_ok : {A : Type 0} (m : Outcome A) → (m >>= ok) ≡ m
ends_ok (ok a) = refl
ends_ok panic = refl
ends_ok stuck = refl

put_meta-put :
    (m : List (Bytes × Bytes)) (s : Bytes) (c : Cursor)
    → (put s c >>= put_meta m) ≡ put (s ++ meta_text m) c
unfolding put_meta
put_meta-put [] s c = ends_ok (put s c) ∙ rw (append-nil s) refl
put_meta-put ((key, value) ∷ m) s c =
    simp (put-put_then, put_byte_then, put_meta-put m, put-put, append_assoc) refl

put_meta_then :
    {A : Type 0} (m : List (Bytes × Bytes)) (s : Bytes) (c : Cursor) (k : Cursor → Outcome A)
    → (put s c >>= λ d. (put_meta m d >>= k)) ≡ (put (s ++ meta_text m) c >>= k)
put_meta_then m s c k = bind_assoc (put s c) (put_meta m) k ∙ rw (put_meta-put m s c) refl

-- `EncodeReq` writes the header text into the buffer and copies what fits of the payload.
encode_req-put :
    (req : Request)
    → encode_req req ≡ (
        put (header_text req) (buffer req.head_length req.body_length) >>= λ c.
        ok (copy req.payload c))
unfolding encode_req header_text
encode_req-put req = simp (put-put_then, put_byte_then, put_meta_then, append_assoc) refl

-- The header text is as long as `CalculateHeaderLength` says, before the wrap to a uint32.
pub length-meta_text : (m : List (Bytes × Bytes)) → length (meta_text m) ≡ meta_length m
length-meta_text [] = refl
length-meta_text ((key, value) ∷ m) = omega (
  arith,
  length-append key (b'\r' ∷ (value ++ b'\n' ∷ meta_text m)),
  length-append value (b'\n' ∷ meta_text m),
  length-meta_text m,
)

abbrev pub full_length : Request → ℕ
full_length req =
    15 + length req.service_name + 1 + length req.method_name + 1 + meta_length (pairs req.meta)

pub length-header_text : (req : Request) → length (header_text req) ≡ full_length req
unfolding put_u32 header_text
length-header_text req = omega (
  arith,
  length-append req.service_name (b'\n' ∷ (req.method_name ++ b'\n' ∷ meta_text (pairs req.meta))),
  length-append req.method_name (b'\n' ∷ meta_text (pairs req.meta)),
  length-meta_text (pairs req.meta),
)

room :
    (req : Request)
    → length (buffer req.head_length req.body_length).cur
      ≡ (req.head_length + req.body_length) % 2 ^ 32
room req = length-replicate ((req.head_length + req.body_length) % 2 ^ 32) 0

-- With room for the header the frame is the header text with as much of the payload as fits.
encode_req-room :
    (req : Request)
    → full_length req ≤ (req.head_length + req.body_length) % 2 ^ 32
    → encode_req req
      ≡ ok (
          copy req.payload (record {
            before = header_text req;
            cur =
                drop
                  (length (header_text req))
                  (replicate ((req.head_length + req.body_length) % 2 ^ 32) 0);
          }))
encode_req-room req h =
    rw
      (
        encode_req-put req,
        put_room (header_text req) (buffer req.head_length req.body_length)
            (omega (arith, length-header_text req, room req)),
      )
      refl

-- `EncodeReq` panics exactly when the two length fields, added as uint32, leave no room for the
-- header: 15 bytes, the names and the pairs with their separators.
pub encode_req-panic_iff :
    (req : Request)
    → (encode_req req ≡ panic) ↔ ((req.head_length + req.body_length) % 2 ^ 32 < full_length req)
encode_req-panic_iff req =
    elim (dec_le (full_length req) ((req.head_length + req.body_length) % 2 ^ 32)) [
      | yes h ↦ (λ e. cc (e, encode_req-room req h), λ l. absurd (omega arith))
      | no h ↦ (
        λ e. omega arith,
        λ l.
            rw
              (
                encode_req-put req,
                put_full (header_text req) (buffer req.head_length req.body_length)
                    (omega (arith, length-header_text req, room req)),
              )
              refl,
      )
    ]

-- The lengths that the two computations give, in a frame below 2 ^ 32 bytes.
pub record IsMeasured (req : Request) : Type 0 where
  pub head : req.head_length ≡ full_length req
  pub body : req.body_length ≡ length req.payload
  pub fits : req.head_length + req.body_length < 2 ^ 32

-- Then the frame is the header text and the payload.
pub encode_req-frame :
    (req : Request) → IsMeasured req → encode_req req ≡ ok (header_text req ++ req.payload)
encode_req-frame req m =
    let size : ℕ = (req.head_length + req.body_length) % 2 ^ 32 in
    let behind : Bytes = drop (length (header_text req)) (replicate size 0) in
    let fits : length behind ≡ length req.payload = omega (
      arith,
      length-header_text req,
      length-replicate {A = ℕ} size 0,
      length-drop {A = ℕ} (length (header_text req)) (replicate size 0),
      m.head,
      m.body,
      m.fits,
    ) in
    rw
      (
        encode_req-room req (omega (arith, m.head, m.fits)),
        copy-fits req.payload (header_text req) behind fits,
      )
      refl
