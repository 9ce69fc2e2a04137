-- ===== src/Message/Request.antt =====
-- rpc/message/request.go: `EncodeReq`, `DecodeReq` and the length computations.
pub mod Encode
pub mod Decode
pub mod Total
use myhomework.Common.{
  ℕ, zero, suc, ◌+◌, ◌-◌, ◌%◌, ◌^◌, Bytes, cut_byte, List, [], ◌∷◌, ◌++◌, length, take, drop,
  replicate, Option, none, some, leb, ◌==◌, ◌&&◌, if◌then◌else◌,
}
use myhomework.Common.Dict.{insert}
use myhomework.Message.Wire.{
  Outcome, ok, panic, stuck, ◌>>=◌, put_u32, get_u32, get_byte, Cursor, put, put_byte, copy,
}

-- `meta` lists the pairs of the map `Meta`, in the order in which `range` visits them; `none` is the
-- nil map. `payload` is the field `Data`.
pub record Request : Type 0 where
  pub head_length : ℕ
  pub body_length : ℕ
  pub request_id : ℕ
  pub version : ℕ
  pub compresser : ℕ
  pub serializer : ℕ
  pub service_name : Bytes
  pub method_name : Bytes
  pub meta : Option (List (Bytes × Bytes))
  pub payload : Bytes

-- `range req.Meta`: a nil map has no pairs.
abbrev pub pairs : Option (List (Bytes × Bytes)) → List (Bytes × Bytes)
pairs none = []
pairs (some m) = m

-- The loop of `EncodeReq` over `Meta`.
unfoldable pub put_meta : List (Bytes × Bytes) → Cursor → Outcome Cursor
put_meta [] cur = ok cur
put_meta ((key, value) ∷ m) cur = do
  c₁ ← put key cur
  c₂ ← put_byte b'\r' c₁
  c₃ ← put value c₂
  c₄ ← put_byte b'\n' c₃
  put_meta m c₄

-- `make([]byte, req.HeadLength+req.BodyLength)`: the sum is a uint32.
abbrev pub buffer : ℕ → ℕ → Cursor
buffer head body = record { before = []; cur = replicate ((head + body) % 2 ^ 32) 0 }

unfoldable pub encode_req : Request → Outcome Bytes
unfolding put_meta
encode_req req = do
  c₁ ← put (put_u32 req.head_length) (buffer req.head_length req.body_length)
  c₂ ← put (put_u32 req.body_length) c₁
  c₃ ← put (put_u32 req.request_id) c₂
  c₄ ← put_byte req.version c₃
  c₅ ← put_byte req.compresser c₄
  c₆ ← put_byte req.serializer c₅
  c₇ ← put req.service_name c₆
  c₈ ← put_byte b'\n' c₇
  c₉ ← put req.method_name c₈
  d₁ ← put_byte b'\n' c₉
  d₂ ← put_meta (pairs req.meta) d₁
  ok (copy req.payload d₂)

-- The loop of `DecodeReq` over the pairs, with fuel; the map grows at its end.
unfoldable pub get_meta : ℕ → Bytes → List (Bytes × Bytes) → Outcome (List (Bytes × Bytes))
get_meta zero header m = elim (cut_byte b'\n' header) [ none ↦ ok m | some _ ↦ stuck ]
get_meta (suc fuel) header m = elim (cut_byte b'\n' header) [
  | none ↦ ok m
  | some (pair, rest) ↦ elim (cut_byte b'\r' pair) [
    | none ↦ panic
    | some (key, value) ↦ get_meta fuel rest (insert key value m)
  ]
]

-- `header[:index]` and `header[index+1:]`, which panics at the index -1.
unfoldable pub get_line : Bytes → Outcome (Bytes × Bytes)
get_line header = elim (cut_byte b'\n' header) [
  | none ↦ panic
  | some (line, rest) ↦ ok (line, rest)
]

-- The map stays nil where no pair follows. Each pair takes a byte at least, so the length of the
-- header is enough fuel.
unfoldable pub get_all_meta : Bytes → Outcome (Option (List (Bytes × Bytes)))
unfolding get_meta
get_all_meta header = elim (cut_byte b'\n' header) [
  | none ↦ ok none
  | some _ ↦ do m ← get_meta (length header) header []; ok (some m)
]

-- `data[15:head]`, given `data[15:]`.
unfoldable pub get_header : ℕ → Bytes → Bytes → Outcome Bytes
get_header head bytes behind =
    if leb 15 head && leb head (length bytes) then ok (take (head - 15) behind) else panic

unfoldable pub decode_req : Bytes → Outcome Request
unfolding get_line get_all_meta get_header
decode_req bytes = do
  (head, r₁) ← get_u32 bytes
  (body, r₂) ← get_u32 r₁
  (id, r₃) ← get_u32 r₂
  (version, r₄) ← get_byte r₃
  (compresser, r₅) ← get_byte r₄
  (serializer, r₆) ← get_byte r₅
  header ← get_header head bytes r₆
  (service, h₁) ← get_line header
  (method, h₂) ← get_line h₁
  meta ← get_all_meta h₂
  ok (record {
    head_length = head;
    body_length = body;
    request_id = id;
    version = version;
    compresser = compresser;
    serializer = serializer;
    service_name = service;
    method_name = method;
    meta = meta;
    payload = if body == 0 then [] else drop head bytes;
  })

abbrev pub meta_length : List (Bytes × Bytes) → ℕ
meta_length [] = 0
meta_length ((key, value) ∷ m) = length key + 1 + length value + 1 + meta_length m

unfoldable pub calculate_header_length : Request → Request
calculate_header_length req = record req {
  head_length =
      (15 + length req.service_name + 1 + length req.method_name + 1 + meta_length (pairs req.meta))
      % 2 ^ 32;
}

unfoldable pub calculate_body_length : Request → Request
calculate_body_length req = record req { body_length = length req.payload % 2 ^ 32 }
