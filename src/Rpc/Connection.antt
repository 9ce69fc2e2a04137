-- ===== src/Rpc/Connection.antt =====
-- rpc/tcp.go: `ReadMsg` on a connection. What arrives is a list of segments; `Read` of a `net.Conn`
-- returns what the next segment has, up to the size of the buffer, and io.EOF behind the last one.
use myhomework.Common.{
  ℕ, zero, suc, ◌+◌, ◌-◌, ◌%◌, ◌^◌, Bytes, List, [], ◌∷◌, ◌++◌, length, take, drop, replicate,
  Option, none, some, leb, if◌then◌else◌,
}
use myhomework.Message.Wire.{Outcome, ok, panic, ◌>>=◌, get_u32}

-- `conn.Read` of a buffer of the given size: the bytes read and what is still to come, or an error.
unfoldable pub read : ℕ → List Bytes → Option (Bytes × List Bytes)
read zero segments = some ([], segments)
read (suc n) [] = none
read (suc n) (segment ∷ segments) =
    if leb (length segment) (suc n)
    then some (segment, segments)
    else some (take (suc n) segment, drop (suc n) segment ∷ segments)

-- A buffer of zeros with the bytes copied to its front.
abbrev pub padded : ℕ → Bytes → Bytes
padded n bytes = bytes ++ replicate (n - length bytes) 0

-- The words with the bytes of the second read behind them, in a buffer with room for `size`.
unfoldable pub joined : Bytes → ℕ → Option (Bytes × List Bytes) → Option (Bytes × List Bytes)
joined words size none = none
joined words size (some (bytes, behind)) = some (words ++ padded size bytes, behind)

-- `conn.Read(data[8:])`, with the two words already read; `data[8:]` panics where `data` is shorter.
unfoldable pub read_rest : Bytes → ℕ → List Bytes → Outcome (Option (Bytes × List Bytes))
unfolding joined
read_rest words size segments =
    if leb 8 size then ok (joined words (size - 8) (read (size - 8) segments)) else panic

-- `ReadMsg` behind its first read: the words give the size of the message, as a uint32.
unfoldable pub read_sized : Bytes → List Bytes → Outcome (Option (Bytes × List Bytes))
unfolding read_rest
read_sized words segments = do
  (head, r) ← get_u32 words
  (body, _) ← get_u32 r
  read_rest words ((head + body) % 2 ^ 32) segments

unfoldable pub read_behind : Option (Bytes × List Bytes) → Outcome (Option (Bytes × List Bytes))
unfolding read_sized
read_behind none = ok none
read_behind (some (bytes, segments)) = read_sized (padded 8 bytes) segments

-- `ReadMsg`: the message and what is still to come; `none` is an error of the connection.
unfoldable pub read_msg : List Bytes → Outcome (Option (Bytes × List Bytes))
unfolding read_behind read
read_msg segments = read_behind (read 8 segments)
