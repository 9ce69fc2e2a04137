-- ===== src/Message/Response.antt =====
-- rpc/message/response.go: `EncodeResp`, `DecodeResp` and the length computations.
pub mod RoundTrip
use myhomework.Common.{
  ℕ, ◌+◌, ◌-◌, ◌%◌, ◌^◌, Bytes, List, [], ◌∷◌, ◌++◌, length, take, drop, leb, ltb, ◌==◌,
  if◌then◌else◌,
}
use myhomework.Message.Wire.{
  Outcome, ok, panic, ◌>>=◌, put_u32, get_u32, get_byte, Cursor, put, put_byte, copy,
}
use myhomework.Message.Request.{buffer}

-- `failure` is the field `Error`, and `payload` the field `Data`.
pub record Response : Type 0 where
  pub head_length : ℕ
  pub body_length : ℕ
  pub request_id : ℕ
  pub version : ℕ
  pub compresser : ℕ
  pub serializer : ℕ
  pub failure : Bytes
  pub payload : Bytes

unfoldable pub encode_resp : Response → Outcome Bytes
encode_resp resp = do
  c₁ ← put (put_u32 resp.head_length) (buffer resp.head_length resp.body_length)
  c₂ ← put (put_u32 resp.body_length) c₁
  c₃ ← put (put_u32 resp.request_id) c₂
  c₄ ← put_byte resp.version c₃
  c₅ ← put_byte resp.compresser c₄
  c₆ ← put_byte resp.serializer c₅
  c₇ ← put resp.failure c₆
  ok (copy resp.payload c₇)

-- `data[15:head]` where `head` is above 15, given `data[15:]`; else the field stays nil.
unfoldable pub get_failure : ℕ → Bytes → Bytes → Outcome Bytes
get_failure head bytes behind =
    if ltb 15 head
    then (if leb head (length bytes) then ok (take (head - 15) behind) else panic)
    else ok []

-- `data[head:]` where there is a body; else the field stays nil.
unfoldable pub get_payload : ℕ → ℕ → Bytes → Outcome Bytes
get_payload head body bytes =
    if body == 0 then ok [] else (if leb head (length bytes) then ok (drop head bytes) else panic)

unfoldable pub decode_resp : Bytes → Outcome Response
decode_resp bytes = do
  (head, r₁) ← get_u32 bytes
  (body, r₂) ← get_u32 r₁
  (id, r₃) ← get_u32 r₂
  (version, r₄) ← get_byte r₃
  (compresser, r₅) ← get_byte r₄
  (serializer, r₆) ← get_byte r₅
  failure ← get_failure head bytes r₆
  payload ← get_payload head body bytes
  ok (record {
    head_length = head;
    body_length = body;
    request_id = id;
    version = version;
    compresser = compresser;
    serializer = serializer;
    failure = failure;
    payload = payload;
  })

unfoldable pub calculate_header_length : Response → Response
calculate_header_length resp = record resp {
  head_length = (15 + length resp.failure % 2 ^ 32) % 2 ^ 32;
}

unfoldable pub calculate_body_length : Response → Response
calculate_body_length resp = record resp { body_length = length resp.payload % 2 ^ 32 }
