-- ===== src/Rpc/Server.antt =====
-- rpc/server.go: the server's side of a call. `Arg` and `Ret` are the types of the arguments and
-- results of the registered methods. Methods, serializers and compressions are functions: the code
-- finds them by reflection or calls other packages.
use myhomework.Common.{ℕ, zero, suc, Bytes, List, [], ◌∷◌, Option, none, some, ◌==◌, if◌then◌else◌}
use myhomework.Common.Dict.{lookup, insert}
use myhomework.Message.Wire.{Outcome, ok, panic, stuck, ◌>>=◌}
use myhomework.Message.Request.{Request, decode_req}
use myhomework.Message.Response
use myhomework.Message.Response.{Response, encode_resp}
use myhomework.Rpc.Context.{Context, context_of, utf8_text}
use myhomework.Rpc.Connection.{read_msg}

-- The result of an encoding or a decoding, or the text of an error.
pub data Coded (A : Type 0) : Type 0 where
  done : A → Coded A
  failed : Bytes → Coded A

-- The callers of `Compress` drop its error, so that only its bytes count.
pub record Compression : Type 0 where
  pub compress : Bytes → Bytes
  pub decompress : Bytes → Option Bytes

pub record Serializer (Arg Ret : Type 0) : Type 0 where
  pub encode : Ret → Coded Bytes
  pub decode : Bytes → Coded Arg

-- A method: its result, unless it is nil, and the text of its error, if there is one.
abbrev pub Method : Type 0 → Type 0 → Type 0
Method Arg Ret = Context → Arg → Option Ret × Option Bytes

abbrev pub Service : Type 0 → Type 0 → Type 0
Service Arg Ret = List (Bytes × Method Arg Ret)

-- The maps `services`, `serializers` and `compressions`.
pub record Server (Arg Ret : Type 0) : Type 0 where
  pub services : List (Bytes × Service Arg Ret)
  pub serializers : ℕ → Option (Serializer Arg Ret)
  pub compressions : ℕ → Option Compression

-- What `Invoke` returns: a response or nil, and the text of an error or nil.
abbrev pub Invoked : Type 0
Invoked = Option Response × Option Bytes

abbrev pub no_service : Bytes
no_service = utf8_text "你要调用的服务不存在"

abbrev pub one_way_call : Bytes
one_way_call = utf8_text "micro: 微服务服务端 oneway 请求"

abbrev pub no_serializer : Bytes
no_serializer = utf8_text "micro: 不支持的序列化协议"

abbrev pub no_compression : Bytes
no_compression = utf8_text "micro: 不支持的压缩协议"

abbrev pub not_decompressed : Bytes
not_decompressed = utf8_text "micro: 解压缩失败"

-- The response that `Invoke` starts from.
abbrev pub blank_response : Request → Response
blank_response req = record {
  head_length = 0;
  body_length = 0;
  request_id = req.request_id;
  version = req.version;
  compresser = req.compresser;
  serializer = req.serializer;
  failure = [];
  payload = [];
}

-- The error goes into the response, which is nil for a one-way call: then this is a run-time panic.
unfoldable pub finish : Invoked → Outcome Response
finish (none, error) = panic
finish (some resp, none) =
    ok (Response.calculate_body_length (Response.calculate_header_length resp))
finish (some resp, some error) = ok (
    Response.calculate_body_length
      (Response.calculate_header_length (record resp { failure = error })))

-- The end of `invoke`: what the method returns goes through the serializer and the compression.
unfoldable pub pack_coded : Compression → Option Bytes → Coded Bytes → Bytes × Option Bytes
pack_coded comp error (done encoded) = (comp.compress encoded, error)
pack_coded comp error (failed e) = ([], some e)

module _ {Arg Ret : Type 0} where
  -- `RegisterService`, `RegisterSerializer` and `RegisterCompression`.
  unfoldable pub register_service : Bytes → Service Arg Ret → Server Arg Ret → Server Arg Ret
  register_service name service server = record server {
    services = insert name service server.services;
  }

  unfoldable pub register_serializer : ℕ → Serializer Arg Ret → Server Arg Ret → Server Arg Ret
  register_serializer code sl server = record server {
    serializers = λ k. if k == code then some sl else server.serializers k;
  }

  unfoldable pub register_compression : ℕ → Compression → Server Arg Ret → Server Arg Ret
  register_compression code cc server = record server {
    compressions = λ k. if k == code then some cc else server.compressions k;
  }

  unfoldable pub pack :
      Serializer Arg Ret → Compression → Option Ret × Option Bytes → Bytes × Option Bytes
  unfolding pack_coded
  pack sl comp (none, error) = ([], error)
  pack sl comp (some result, error) = pack_coded comp error (sl.encode result)

  -- `invoke` from `Decode` on, and from `Decompress` on.
  unfoldable pub call_decoded :
      Method Arg Ret → Serializer Arg Ret → Compression → Context → Coded Arg → Bytes × Option Bytes
  unfolding pack
  call_decoded method sl comp ctx (failed e) = ([], some e)
  call_decoded method sl comp ctx (done arg) = pack sl comp (method ctx arg)

  unfoldable pub call_plain :
      Method Arg Ret
      → Serializer Arg Ret
      → Compression
      → Context
      → Option Bytes
      → Bytes × Option Bytes
  unfolding call_decoded
  call_plain method sl comp ctx none = ([], some not_decompressed)
  call_plain method sl comp ctx (some plain) = call_decoded method sl comp ctx (sl.decode plain)

  -- `invoke` behind the look-up of the method.
  unfoldable pub invoke_method :
      Method Arg Ret
      → Option (Serializer Arg Ret)
      → Option Compression
      → Context
      → Bytes
      → Bytes × Option Bytes
  unfolding call_plain
  invoke_method method none comp ctx payload = ([], some no_serializer)
  invoke_method method (some sl) none ctx payload = ([], some no_compression)
  invoke_method method (some sl) (some comp) ctx payload =
      call_plain method sl comp ctx (comp.decompress payload)

  -- `reflectionStub.invoke`: reflection panics on a method that the service lacks.
  unfoldable pub invoke_found :
      Server Arg Ret → Context → Request → Option (Method Arg Ret) → Outcome (Bytes × Option Bytes)
  unfolding invoke_method
  invoke_found server ctx req none = panic
  invoke_found server ctx req (some method) = ok (
      invoke_method method (server.serializers req.serializer) (server.compressions req.compresser)
        ctx req.payload)

  -- `Invoke` behind the look-up of the service. For a one-way call the method runs in a goroutine of
  -- its own, and `Invoke` returns no response.
  unfoldable pub invoke_service :
      Server Arg Ret → Context → Request → Option (Service Arg Ret) → Outcome Invoked
  unfolding invoke_found
  invoke_service server ctx req none = ok (some (blank_response req), some no_service)
  invoke_service server ctx req (some service) =
      if ctx.one_way then ok (none, some one_way_call) else (do
        r ← invoke_found server ctx req (lookup req.method_name service)
        ok (some (record (blank_response req) { payload = r.0 }), r.1))

  unfoldable pub invoke : Server Arg Ret → Context → Request → Outcome Invoked
  unfolding invoke_service
  invoke server ctx req = invoke_service server ctx req (lookup req.service_name server.services)

  -- One round of `handleConn`, from the request to the response.
  unfoldable pub answer : Server Arg Ret → Request → Outcome Response
  unfolding invoke finish
  answer server req = do invoked ← invoke server (context_of req) req; finish invoked

  -- `handleConn`: the frames that it writes until the connection ends, with fuel for the rounds. No
  -- write fails.
  unfoldable pub handle_conn : ℕ → Server Arg Ret → List Bytes → Outcome (List Bytes)
  unfolding answer
  handle_conn zero server segments = stuck
  handle_conn (suc fuel) server segments = do
    msg ← read_msg segments
    elim msg [
      | none ↦ ok []
      | some (bytes, behind) ↦ do
        req ← decode_req bytes
        resp ← answer server req
        frame ← encode_resp resp
        frames ← handle_conn fuel server behind
        ok (frame ∷ frames)
    ]
