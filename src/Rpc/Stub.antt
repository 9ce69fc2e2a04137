-- ===== src/Rpc/Stub.antt =====
-- rpc/client.go: the function that `setFuncField` makes for a method of a service. The serializer of a
-- client encodes arguments and decodes results.
use myhomework.Common.{ℕ, Bytes, text, List, [], ◌∷◌, Option, none, some, if◌then◌else◌}
use myhomework.Common.Dict.{insert}
use myhomework.Message.Wire.{Outcome, ok, ◌>>=◌}
use myhomework.Message.Request.{Request, calculate_header_length, calculate_body_length}
use myhomework.Rpc.Context.{Context}
use myhomework.Rpc.Server.{Coded, done, failed, Serializer, Compression}
use myhomework.Rpc.Client.{CallError, Called, answered, refused}

-- The error of a call: that of `Invoke`, or one with a text, or that of `Decompress`.
pub data StubError : Type 0 where
  call_failed : CallError → StubError
  message : Bytes → StubError
  not_decompressed : StubError

-- What a client's methods share: the codes and the names that go into the requests, and `FormatInt` with
-- base 10 on the bit patterns of int64.
pub record Stub (Arg Ret : Type 0) : Type 0 where
  pub service_name : Bytes
  pub method_name : Bytes
  pub serializer : Serializer Ret Arg
  pub serializer_code : ℕ
  pub compression : Compression
  pub compression_code : ℕ
  pub format_int : ℕ → Bytes

-- The result that the caller gets, if one was decoded, and the error.
abbrev pub Returned : Type 0 → Type 0
Returned Ret = Option Ret × Option StubError

-- `meta`
abbrev deadline_meta : (ℕ → Bytes) → Option ℕ → List (Bytes × Bytes)
deadline_meta format none = []
deadline_meta format (some d) = insert (text "deadline") (format d) []

unfoldable pub meta_of : (ℕ → Bytes) → Context → List (Bytes × Bytes)
meta_of format ctx =
    if ctx.one_way
    then insert (text "one-way") (text "true") (deadline_meta format ctx.deadline)
    else deadline_meta format ctx.deadline

-- `retErr`
abbrev error_of : Bytes → Option StubError
error_of [] = none
error_of (b ∷ s) = some (message (b ∷ s))

-- What `Decode` makes of the result. What a failing one leaves in it is not modelled.
abbrev decoded : {Ret : Type 0} → Option StubError → Coded Ret → Returned Ret
decoded error (failed e) = (none, some (message e))
decoded error (done result) = (some result, error)

module _ {Arg Ret : Type 0} where
  -- The request before its lengths are computed.
  unfoldable pub unmeasured : Stub Arg Ret → Context → Bytes → Request
  unfolding meta_of
  unmeasured stub ctx bytes = record {
    head_length = 0;
    body_length = 0;
    request_id = 0;
    version = 0;
    compresser = stub.compression_code;
    serializer = stub.serializer_code;
    service_name = stub.service_name;
    method_name = stub.method_name;
    meta = some (meta_of stub.format_int ctx);
    payload = stub.compression.compress bytes;
  }

  unfoldable pub request_of : Stub Arg Ret → Context → Bytes → Request
  unfolding unmeasured
  request_of stub ctx bytes =
      calculate_body_length (calculate_header_length (unmeasured stub ctx bytes))

  abbrev decompressed : Stub Arg Ret → Option StubError → Option Bytes → Returned Ret
  decompressed stub error none = (none, some not_decompressed)
  decompressed stub error (some plain) = decoded error (stub.serializer.decode plain)

  -- The data of a response: empty data is not decoded.
  abbrev unpack : Stub Arg Ret → Option StubError → Bytes → Returned Ret
  unpack stub error [] = (none, error)
  unpack stub error (b ∷ s) = decompressed stub error (stub.compression.decompress (b ∷ s))

  -- What follows `Invoke`.
  unfoldable pub returned : Stub Arg Ret → Called → Returned Ret
  returned stub (refused e) = (none, some (call_failed e))
  returned stub (answered resp) = unpack stub (error_of resp.failure) resp.payload

  abbrev call_encoded :
      Stub Arg Ret
      → (Context → Request → Outcome Called)
      → Context
      → Coded Bytes
      → Outcome (Returned Ret)
  call_encoded stub invoke ctx (failed e) = ok (none, some (message e))
  call_encoded stub invoke ctx (done bytes) = do
    called ← invoke ctx (request_of stub ctx bytes)
    ok (returned stub called)

  -- `fn`; `invoke` is the method of the interface `Proxy`.
  unfoldable pub call :
      Stub Arg Ret → (Context → Request → Outcome Called) → Context → Arg → Outcome (Returned Ret)
  unfolding request_of returned
  call stub invoke ctx arg = call_encoded stub invoke ctx (stub.serializer.encode arg)
