-- ===== src/Rpc/Results.antt =====
-- What a client gets from a call.
use myhomework.Common.{
  ℕ, suc, ◌+◌, ◌^◌, ◌<◌, Bytes, text, bytes_eq, ◌≡◌, refl, ap, ◌∙◌, List, [], ◌∷◌, ◌++◌, length,
  Option, none, some, false, arith,
}
use myhomework.Common.Dict.{lookup}
use myhomework.Message.Wire.{ok, panic, ◌>>=◌, IsU32}
use myhomework.Message.Request.{Request, pairs, encode_req}
use myhomework.Message.Request.Decode
use myhomework.Message.Request.Decode.{canonical}
use myhomework.Message.Response
use myhomework.Message.Response.{Response, encode_resp, decode_resp}
use myhomework.Message.Response.RoundTrip
use myhomework.Message.Response.RoundTrip.{calculate-IsSendable}
use myhomework.Rpc.Context.{context_of, utf8_text}
use myhomework.Rpc.Server.{
  Server, Service, Method, Serializer, Compression, done, blank_response, answer, handle_conn,
  no_service,
}
use myhomework.Rpc.Client.{do_invoke, answered}
use myhomework.Rpc.Calls.{
  received, req_frame, resp_frame, ended, exchanged, Exchanges, handle_conn-Exchanges,
  handle_conn-panic,
}

pairs-canonical : (meta : Option (List (Bytes × Bytes))) → pairs (canonical meta) ≡ pairs meta
pairs-canonical none = refl
pairs-canonical (some []) = refl
pairs-canonical (some (e ∷ m)) = refl

context_of-received : (req : Request) → context_of (received req) ≡ context_of req
unfolding context_of
context_of-received req = rw (pairs-canonical req.meta)

-- The response to a request, with its length fields computed.
abbrev pub response_to : Request → Bytes → Bytes → Response
response_to req failure payload = Response.calculate_body_length (
    Response.calculate_header_length
      (record (blank_response req) { failure = failure; payload = payload }))

-- Fields below 2 ^ 32, and a frame shorter than that.
response_to-IsSendable :
    (req : Request) (failure payload : Bytes)
    → IsU32 req.request_id
    → 15 + length failure + length payload < 2 ^ 32
    → RoundTrip.IsSendable (response_to req failure payload)
response_to-IsSendable req failure payload h k =
    calculate-IsSendable (record (blank_response req) { failure = failure; payload = payload }) h k

no_service_fits : 15 + length no_service + 0 < 2 ^ 32
unfolding utf8_text
no_service_fits = omega arith

module _ {Arg Ret : Type 0} (server : Server Arg Ret) (req : Request) where
  -- What the server answers, the client gets.
  call-answer :
      (resp : Response)
      → Decode.IsSendable req
      → answer server (received req) ≡ ok resp
      → RoundTrip.IsSendable resp
      → (reply : Bytes) × ((encode_req req >>= λ frame. handle_conn 2 server (frame ∷ []))
          ≡ ok (reply ∷ []))
        × (do_invoke false (λ _. reply ∷ []) req ≡ ok (answered resp))
  unfolding do_invoke
  call-answer resp s a sendable =
      let (frame, e, whole, decoded) = req_frame req s in
      let (reply, r, whole', decoded') = resp_frame resp sendable in
      let served : handle_conn 2 server (frame ∷ []) ≡ ok (reply ∷ []) =
        handle_conn-Exchanges 2 (exchanged req frame resp reply s e a r ended) (omega arith) in
      (reply, rw e served, rw (e, whole' [], decoded'))

  -- A call of a registered method that returns a result and no error, with a serializer and a
  -- compression that the server has: the server replies with one frame, and the client gets from it the
  -- compressed encoding of the method's result, no error, and the four fields of its request.
  pub call-success :
      (service : Service Arg Ret) (method : Method Arg Ret) (sl : Serializer Arg Ret)
      (comp : Compression) (plain : Bytes) (arg : Arg) (result : Ret) (encoded : Bytes)
      → Decode.IsSendable req
      → lookup req.service_name server.services ≡ some service
      → (context_of req).one_way ≡ false
      → lookup req.method_name service ≡ some method
      → server.serializers req.serializer ≡ some sl
      → server.compressions req.compresser ≡ some comp
      → comp.decompress req.payload ≡ some plain
      → sl.decode plain ≡ done arg
      → method (context_of req) arg ≡ (some result, none)
      → sl.encode result ≡ done encoded
      → 15 + length (comp.compress encoded) < 2 ^ 32
      → (reply : Bytes) × ((encode_req req >>= λ frame. handle_conn 2 server (frame ∷ []))
          ≡ ok (reply ∷ []))
        × (do_invoke false (λ _. reply ∷ []) req
            ≡ ok (answered (response_to req [] (comp.compress encoded))))
  unfolding answer
  call-success service method sl comp plain arg result encoded s registered two_way found hs hc hp
        ha hm he fits =
      let ctx = context_of-received req in
      let two_way' : (context_of (received req)).one_way ≡ false =
        ap (λ c. c.one_way) ctx ∙ two_way in
      let returned : method (context_of (received req)) arg ≡ (some result, none) =
        ap (λ c. method c arg) ctx ∙ hm in
      let a : answer server (received req) ≡ ok (response_to req [] (comp.compress encoded)) =
        simp (registered, two_way', found, hs, hc, hp, ha, returned, he) in
      call-answer (response_to req [] (comp.compress encoded)) s a
        (response_to-IsSendable req [] (comp.compress encoded) s.id (omega (arith, fits)))

  -- A call of a service that is not registered: the client gets the server's error text and no data.
  pub call-no_service :
      Decode.IsSendable req
      → lookup req.service_name server.services ≡ none
      → (reply : Bytes) × ((encode_req req >>= λ frame. handle_conn 2 server (frame ∷ []))
          ≡ ok (reply ∷ []))
        × (do_invoke false (λ _. reply ∷ []) req ≡ ok (answered (response_to req no_service [])))
  unfolding answer
  call-no_service s missing =
      let a : answer server (received req) ≡ ok (response_to req no_service []) = rw missing in
      call-answer (response_to req no_service []) s a
        (response_to-IsSendable req no_service [] s.id no_service_fits)

  -- A one-way call of a registered service, whose request a frame can carry, behind any requests that
  -- the server has answered on the connection before, each in a segment of its own, ends the
  -- connection in a run-time panic: `Invoke` returns a nil response together with an error, and the
  -- error is stored into that response.
  pub one_way-panic :
      {before frames : List Bytes} (fuel : ℕ) (service : Service Arg Ret) (behind : List Bytes)
      → Exchanges server before frames
      → length before < fuel
      → Decode.IsSendable req
      → lookup req.service_name server.services ≡ some service
      → lookup (text "one-way") (pairs req.meta) ≡ some (text "true")
      → (encode_req req >>= λ frame. handle_conn fuel server (before ++ frame ∷ behind)) ≡ panic
  unfolding handle_conn context_of text bytes_eq
  one_way-panic {before} fuel service behind x enough s registered marked =
      let (frame, e, whole, decoded) = req_frame req s in
      let last : (n : ℕ) → handle_conn (suc n) server (frame ∷ behind) ≡ panic =
        λ n. rw (whole behind, decoded, registered, pairs-canonical req.meta, marked) in
      rw e (handle_conn-panic fuel (frame ∷ behind) x enough last)
