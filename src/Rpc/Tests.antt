-- ===== src/Rpc/Tests.antt =====
-- Calls of a small service, and the theorems at those inputs.
use myhomework.Common.{
  ℕ, ◌+◌, ◌%◌, ◌^◌, ◌<◌, Bytes, text, bytes_eq, cut_byte, ◌≡◌, refl, ◌↔◌, [], ◌∷◌, ◌++◌, Option,
  none, some, arith, ◌==◌, if◌then◌else◌,
}
use myhomework.Common.Dict.{lookup, insert}
use myhomework.Common.Int64
use myhomework.Message.Wire.{ok, panic, ◌>>=◌, put, put_byte, put_u32, get_u32, get_byte, copy}
use myhomework.Message.Request.{Request, encode_req, decode_req}
use myhomework.Message.Request.Decode
use myhomework.Message.Response
use myhomework.Message.Response.{Response, encode_resp, decode_resp}
use myhomework.Rpc.Connection.{read_msg, padded}
use myhomework.Rpc.Context.{context_of, utf8_text, parse_int}
use myhomework.Rpc.Server.{
  Server, Service, Method, Serializer, Compression, Coded, done, failed, answer, handle_conn,
  register_service, register_serializer, register_compression,
}
use myhomework.Rpc.Client.{do_invoke}
use myhomework.Rpc.Frames.{words, read_msg-panic_iff, read_msg-segment}
use myhomework.Rpc.Calls.{Exchanges, ended, exchanged, handle_conn-Exchanges}
use myhomework.Rpc.Results.{response_to, one_way-panic}
use myhomework.Rpc.Stub
use myhomework.Rpc.Stub.{Stub}

program : Unit {0}
unfolding encode_req decode_req encode_resp decode_resp Response.calculate_header_length
    Response.calculate_body_length put put_byte put_u32 get_u32 get_byte copy text cut_byte insert
    lookup bytes_eq answer handle_conn context_of do_invoke read_msg utf8_text
program = tt

-- A method that adds one to a byte, with results encoded as that byte.
abbrev increment : Method ℕ ℕ
increment ctx n = (some (n + 1), none)

abbrev encode_byte : ℕ → Coded Bytes
encode_byte n = done (n ∷ [])

abbrev decode_byte : Bytes → Coded ℕ
decode_byte [] = failed (text "empty")
decode_byte (b ∷ bytes) = done b

abbrev byte_serializer : Serializer ℕ ℕ
byte_serializer = record { encode = encode_byte; decode = decode_byte }

-- A compression that puts a mark in front.
abbrev unmark : Bytes → Option Bytes
unmark [] = none
unmark (b ∷ bytes) = some bytes

abbrev marking : Compression
marking = record { compress = λ bytes. b'z' ∷ bytes; decompress = unmark }

abbrev blank : Server ℕ ℕ
blank = record { services = []; serializers = λ _. none; compressions = λ _. none }

abbrev counter : Service ℕ ℕ
counter = (text "Add", increment) ∷ []

abbrev server : Server ℕ ℕ
server = record {
  services = (text "counter", counter) ∷ [];
  serializers = λ k. if k == 1 then some byte_serializer else none;
  compressions = λ k. if k == 2 then some marking else none;
}

-- Registration gives that server.
server_registered :
    register_service
      (text "counter")
      counter
      (register_serializer 1 byte_serializer (register_compression 2 marking blank))
    ≡ server
unfolding program register_service register_serializer register_compression
server_registered = refl

abbrev call : Request
call = record {
  head_length = 27;
  body_length = 2;
  request_id = 77;
  version = 3;
  compresser = 2;
  serializer = 1;
  service_name = text "counter";
  method_name = text "Add";
  meta = none;
  payload = text "zA";
}

call-IsSendable : Decode.IsSendable call
unfolding text
call-IsSendable = record {
  id = omega arith;
  measured = omega arith;
  service = omega arith;
  method = omega arith;
  clean = tt;
  distinct = tt;
}

call_runs :
    (encode_req call >>= λ frame. handle_conn 2 server (frame ∷ []))
    ≡ (encode_resp (response_to call [] (text "zB")) >>= λ reply. ok (reply ∷ []))
unfolding program
call_runs = refl

parsed : (parse_int (text "-12") ≡ some 0xffff_ffff_ffff_fff4) × (parse_int (text "1x") ≡ none)
unfolding program parse_int Int64.sub
parsed = (refl, refl)

-- The client's side of the same method, with a deadline.
abbrev add : Stub ℕ ℕ
add = record {
  service_name = text "counter";
  method_name = text "Add";
  serializer = byte_serializer;
  serializer_code = 1;
  compression = marking;
  compression_code = 2;
  format_int = λ d. text "1234";
}

abbrev silent : Request
silent = record call { head_length = 40; meta = some ((text "one-way", text "true") ∷ []) }

silent-IsSendable : Decode.IsSendable silent
unfolding text
silent-IsSendable = record {
  id = omega arith;
  measured = omega arith;
  service = omega arith;
  method = omega arith;
  clean = omega arith;
  distinct = (tt, tt);
}

abbrev call_frame : Bytes
call_frame =
    words 27 2
    ++ (put_u32 77 ++ (3 ∷ 2 ∷ 1 ∷ (text "counter" ++ 10 ∷ (text "Add" ++ 10 ∷ text "zA"))))

abbrev call_reply : Bytes
call_reply = words 15 2 ++ (put_u32 77 ++ (3 ∷ 2 ∷ 1 ∷ text "zB"))

call_answered : Exchanges server (call_frame ∷ []) (call_reply ∷ [])
unfolding program
call_answered =
    exchanged call call_frame (response_to call [] (text "zB")) call_reply call-IsSendable refl refl
      refl ended

handle_conn-Exchanges_example : handle_conn 2 server (call_frame ∷ []) ≡ ok (call_reply ∷ [])
handle_conn-Exchanges_example =
    handle_conn-Exchanges {server = server} 2 call_answered (omega arith)

one_way-panic_example :
    (encode_req silent >>= λ frame. handle_conn 4 server (call_frame ∷ frame ∷ [])) ≡ panic
unfolding lookup bytes_eq text
one_way-panic_example =
    one_way-panic server silent 4 counter [] call_answered (omega arith) silent-IsSendable refl refl

-- A message of seven bytes, by its own words.
read_msg-panic_iff_example :
    (read_msg ((words 3 4 ++ text "abc") ∷ []) ≡ panic) ↔ ((3 + 4) % 2 ^ 32 < 8)
read_msg-panic_iff_example = read_msg-panic_iff 3 4 (text "abc") [] (omega arith) (omega arith)

-- Three of five bytes have arrived.
read_msg-segment_example :
    read_msg ((words 9 4 ++ text "abc") ∷ text "de" ∷ [])
    ≡ ok (some (words 9 4 ++ padded 5 (text "abc"), text "de" ∷ []))
unfolding text
read_msg-segment_example =
    read_msg-segment 9 4 (text "abc") (text "de" ∷ []) (omega arith) (omega arith) (omega arith)
