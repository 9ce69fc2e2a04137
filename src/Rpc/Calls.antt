-- ===== src/Rpc/Calls.antt =====
-- A call from the client through the server and back, and the rounds of a connection.
use myhomework.Common.{
  ℕ, zero, suc, ◌+◌, ◌<◌, Bytes, ◌≡◌, refl, sym, ap, ◌∙◌, List, [], ◌∷◌, ◌++◌, length,
  length-append, append_assoc, some, arith,
}
use myhomework.Message.Wire.{ok, panic, ◌>>=◌, put_u32}
use myhomework.Message.Request.{Request, encode_req, decode_req}
use myhomework.Message.Request.Encode.{
  header_text, names_text, encode_req-frame, length-header_text,
}
use myhomework.Message.Request.Decode
use myhomework.Message.Request.Decode.{canonical, decode_req-encode_req}
use myhomework.Message.Response.{Response, encode_resp, decode_resp}
use myhomework.Message.Response.RoundTrip
use myhomework.Message.Response.RoundTrip.{
  encode_resp-frame, frame_shape, decode_resp-encode_resp, calculate-IsSendable,
}
use myhomework.Rpc.Connection.{read_msg}
use myhomework.Rpc.Server.{Server, answer, handle_conn}
use myhomework.Rpc.Frames.{words, read_msg-whole}

-- What the other end decodes of a request.
abbrev pub received : Request → Request
received req = record req { meta = canonical req.meta }

-- The frame of a request: it is read as a whole, and decoded.
pub req_frame :
    (req : Request)
    → Decode.IsSendable req
    → (frame : Bytes) × (encode_req req ≡ ok frame)
      × ((segments : List Bytes) → read_msg (frame ∷ segments) ≡ ok (some (frame, segments)))
      × (decode_req frame ≡ ok (received req))
unfolding header_text
req_frame req s =
    let frame = header_text req ++ req.payload in
    let rest =
      (put_u32 req.request_id ++ (req.version ∷ req.compresser ∷ req.serializer ∷ names_text req))
      ++ req.payload in
    let encoded = encode_req-frame req s.measured in
    let shape : frame ≡ words req.head_length req.body_length ++ rest = simp append_assoc in
    let size : length frame ≡ req.head_length + req.body_length = omega (
      arith,
      length-append (header_text req) req.payload,
      length-header_text req,
      s.measured.head,
      s.measured.body,
    ) in
    (
      frame,
      encoded,
      λ segments.
          read_msg-whole req.head_length req.body_length rest frame segments shape size
            s.measured.fits (omega (arith, s.measured.head)),
      ap (λ m. m >>= decode_req) (sym encoded) ∙ decode_req-encode_req req s,
    )

-- The frame of a response.
pub resp_frame :
    (resp : Response)
    → RoundTrip.IsSendable resp
    → (frame : Bytes) × (encode_resp resp ≡ ok frame)
      × ((segments : List Bytes) → read_msg (frame ∷ segments) ≡ ok (some (frame, segments)))
      × (decode_resp frame ≡ ok resp)
resp_frame resp s =
    let frame = RoundTrip.header_text resp ++ resp.payload in
    let encoded = encode_resp-frame resp s in
    let shape =
      frame_shape resp
      ∙ sym (append_assoc (put_u32 resp.head_length) (put_u32 resp.body_length) _) in
    let size : length frame ≡ resp.head_length + resp.body_length = omega (
      arith,
      length-append (RoundTrip.header_text resp) resp.payload,
      RoundTrip.length-header_text resp,
      s.head,
      s.body,
    ) in
    (
      frame,
      encoded,
      λ segments.
          read_msg-whole resp.head_length resp.body_length _ frame segments shape size s.fits
            (omega (arith, s.head)),
      ap (λ m. m >>= decode_resp) (sym encoded) ∙ decode_resp-encode_resp resp s,
    )

module _ {Arg Ret : Type 0} where
  -- Frames of requests that arrive one by one, each with the frame of its answer.
  pub data Exchanges (server : Server Arg Ret) : List Bytes → List Bytes → Type 0 where
    ended : Exchanges server [] []
    exchanged :
        {segments frames : List Bytes} (req : Request) (frame : Bytes) (resp : Response)
        (reply : Bytes)
        → Decode.IsSendable req
        → encode_req req ≡ ok frame
        → answer server (received req) ≡ ok resp
        → encode_resp resp ≡ ok reply
        → Exchanges server segments frames
        → Exchanges server (frame ∷ segments) (reply ∷ frames)

  -- One round of a connection: the reply goes in front of those of the rounds to come.
  handle_round :
      (fuel : ℕ) (server : Server Arg Ret) (req : Request) (frame : Bytes) (resp : Response)
      (reply : Bytes) (segments : List Bytes)
      → Decode.IsSendable req
      → encode_req req ≡ ok frame
      → answer server (received req) ≡ ok resp
      → encode_resp resp ≡ ok reply
      → handle_conn (suc fuel) server (frame ∷ segments)
        ≡ (handle_conn fuel server segments >>= λ frames. ok (reply ∷ frames))
  unfolding handle_conn
  handle_round fuel server req frame resp reply segments s e a r =
      let (frame', e', read', decoded) = req_frame req s in
      let same : frame ≡ frame' = cc (e, e') in
      let whole : read_msg (frame ∷ segments) ≡ ok (some (frame, segments)) =
        rw same (read' segments) in
      let parsed : decode_req frame ≡ ok (received req) = rw same decoded in
      rw (whole, parsed, a, r)

  -- Where each segment is the frame of a request that a frame can carry, and the server has an answer to
  -- each, the connection writes the frames of the answers in the same order, and ends when the other
  -- side closes it: one round more than there are frames is enough fuel. A request at which the server
  -- panics has no answer.
  pub handle_conn-Exchanges :
      {server : Server Arg Ret} {segments frames : List Bytes} (fuel : ℕ)
      → Exchanges server segments frames
      → length segments < fuel
      → handle_conn fuel server segments ≡ ok frames
  unfolding handle_conn read_msg
  handle_conn-Exchanges zero x h = absurd (omega (arith, h))
  handle_conn-Exchanges (suc fuel) ended h = refl
  handle_conn-Exchanges {server = server} (suc fuel) (exchanged req frame resp reply s e a r x) h =
      handle_round fuel server req frame resp reply _ s e a r
      ∙ rw (handle_conn-Exchanges fuel x (omega (arith, h))) refl

  -- A connection that ends in a panic does so behind the requests that it has answered before.
  pub handle_conn-panic :
      {server : Server Arg Ret} {segments frames : List Bytes} (fuel : ℕ) (rest : List Bytes)
      → Exchanges server segments frames
      → length segments < fuel
      → ((n : ℕ) → handle_conn (suc n) server rest ≡ panic)
      → handle_conn fuel server (segments ++ rest) ≡ panic
  handle_conn-panic zero rest x h p = absurd (omega (arith, h))
  handle_conn-panic (suc fuel) rest ended h p = p fuel
  handle_conn-panic (suc fuel) rest (exchanged req frame resp reply s e a r x) h p =
      handle_round fuel _ req frame resp reply _ s e a r
      ∙ rw (handle_conn-panic fuel rest x (omega (arith, h)) p) refl
