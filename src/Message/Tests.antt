-- ===== src/Message/Tests.antt =====
-- Frames of concrete messages, and the theorems at them.
use myhomework.Common.{
  text, ◌≡◌, refl, ◌≢◌, ◌↔◌, ◌+◌, ◌%◌, ◌^◌, ◌<◌, [], ◌∷◌, some, arith, bytes_eq, cut_byte,
}
use myhomework.Common.Dict.{insert}
use myhomework.Message.Wire.{
  ok, panic, stuck, ◌>>=◌, put, put_byte, put_u32, get_u32, get_byte, copy,
}
use myhomework.Message.Request.{Request, encode_req, decode_req}
use myhomework.Message.Request.Encode.{full_length, encode_req-panic_iff}
use myhomework.Message.Request.Decode.{IsSendable, canonical, decode_req-encode_req}
use myhomework.Message.Request.Total.{decode_req-ne-stuck}
use myhomework.Message.Response.{Response, encode_resp, decode_resp}
use myhomework.Message.Response.RoundTrip.{decode_resp-encode_resp}

abbrev call : Request
call = record {
  head_length = 46;
  body_length = 2;
  request_id = 123;
  version = 12;
  compresser = 25;
  serializer = 17;
  service_name = text "user";
  method_name = text "GetById";
  meta = some ((text "a", text "b") ∷ (text "one-way", text "y") ∷ []);
  payload = text "hi";
}

program : Unit {0}
unfolding encode_req decode_req put put_byte put_u32 get_u32 get_byte copy text cut_byte insert
    bytes_eq
program = tt

abbrev sized : Request
sized = record call { head_length = 42 }

-- The frame of the request, and back.
call_runs : (encode_req sized >>= decode_req) ≡ ok sized
unfolding program
call_runs = refl

sized-IsSendable : IsSendable sized
unfolding text
sized-IsSendable = record {
  id = omega arith;
  measured = omega arith;
  service = omega arith;
  method = omega arith;
  clean = omega arith;
  distinct = ((λ e. cc e, tt), (tt, tt));
}

decode_req-encode_req_example :
    (encode_req sized >>= decode_req) ≡ ok (record sized { meta = canonical sized.meta })
decode_req-encode_req_example = decode_req-encode_req sized sized-IsSendable

encode_req-panic_iff_example :
    (encode_req call ≡ panic) ↔ ((call.head_length + call.body_length) % 2 ^ 32 < full_length call)
encode_req-panic_iff_example = encode_req-panic_iff call

decode_req-ne-stuck_example : decode_req (1 ∷ 2 ∷ 3 ∷ []) ≢ stuck
decode_req-ne-stuck_example = decode_req-ne-stuck (1 ∷ 2 ∷ 3 ∷ [])

abbrev failed : Response
failed = record {
  head_length = 19;
  body_length = 2;
  request_id = 123;
  version = 12;
  compresser = 25;
  serializer = 17;
  failure = text "oops";
  payload = text "hi";
}

decode_resp-encode_resp_example : (encode_resp failed >>= decode_resp) ≡ ok failed
unfolding text
decode_resp-encode_resp_example = decode_resp-encode_resp failed (omega arith)
