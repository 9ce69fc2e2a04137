-- ===== src/Rpc/Client.antt =====
-- rpc/client.go: `doInvoke` and `send`. The other end of the connection is a function from what the
-- client writes to what arrives.
use myhomework.Common.{Bytes, List, none, some, Bool, if◌then◌else◌}
use myhomework.Message.Wire.{Outcome, ok, ◌>>=◌}
use myhomework.Message.Request.{Request, encode_req}
use myhomework.Message.Response.{Response, decode_resp}
use myhomework.Rpc.Connection.{read_msg}

-- The errors of `send` behind the pool: the connection's, and the one for a one-way call.
pub data CallError : Type 0 where
  connection : CallError
  one_way : CallError

pub data Called : Type 0 where
  answered : Response → Called
  refused : CallError → Called

-- `ReadMsg` at the end of `send`, and `DecodeResp`.
unfoldable pub receive : List Bytes → Outcome Called
receive segments = do
  msg ← read_msg segments
  elim msg [
    | none ↦ ok (refused connection)
    | some (frame, _) ↦ do resp ← decode_resp frame; ok (answered resp)
  ]

-- `doInvoke`, on a connection that the pool has handed out and on which the write succeeds.
unfoldable pub do_invoke : Bool → (Bytes → List Bytes) → Request → Outcome Called
unfolding receive
do_invoke is_one_way peer req = do
  bytes ← encode_req req
  if is_one_way then ok (refused one_way) else receive (peer bytes)
