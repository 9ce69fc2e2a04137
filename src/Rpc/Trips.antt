-- ===== src/Rpc/Trips.antt =====
-- A call from the caller's function to the method of the server and back.
use myhomework.Common.{ℕ, ◌+◌, ◌^◌, ◌<◌, Bytes, Lacks, ◌≡◌, length, Option, none, some, false}
use myhomework.Message.Request.{Request}
use myhomework.Message.Request.Encode.{full_length}
use myhomework.Message.Request.Decode
use myhomework.Message.Response
use myhomework.Rpc.Context.{Context, parse_int}
use myhomework.Rpc.Server.{Server}
use myhomework.Rpc.Stub.{Stub, unmeasured}

-- What `FormatInt` promises at the deadline: no separator, and `ParseInt` reads the number back.
abbrev pub IsFormatted : (ℕ → Bytes) → Option ℕ → Type 0
IsFormatted format none = Unit
IsFormatted format (some d) = Lacks b'\n' (format d) × (parse_int (format d) ≡ some d)

-- The context of a two-way call, with or without a deadline.
abbrev pub two_way : Option ℕ → Context
two_way deadline = record { deadline = deadline; one_way = false }

module _ {Arg Ret : Type 0} (stub : Stub Arg Ret) where
  -- The names have no separator, and the frame is shorter than 2 ^ 32 bytes.
  pub record Fits (deadline : Option ℕ) (bytes : Bytes) : Type 0 where
    pub service : Lacks b'\n' stub.service_name
    pub method : Lacks b'\n' stub.method_name
    pub size :
        full_length (unmeasured stub (two_way deadline) bytes)
          + length (stub.compression.compress bytes)
        < 2 ^ 32
