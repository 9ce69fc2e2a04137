-- ===== src/Rpc/Frames.antt =====
-- `ReadMsg` on what the two encoders write.
use myhomework.Common.{
  ℕ, zero, suc, ◌+◌, ◌-◌, ◌%◌, ◌^◌, ◌≤◌, ◌<◌, Bytes, ◌≡◌, refl, sym, ap, ◌∙◌, ◌↔◌, List, [], ◌∷◌,
  ◌++◌, length, length-append, take-append_of_length, drop-append_of_length, append-nil, some, leb,
  leb_of_le, leb_of_lt, false, arith,
}
use myhomework.Message.Wire.{ok, panic, get_u32, put_u32, IsU32}
use myhomework.Message.Wire.Laws.{get_u32-put_u32}
use myhomework.Rpc.Connection.{read, padded, read_rest, read_sized, read_behind, read_msg}

-- The two length words of a frame.
abbrev pub words : ℕ → ℕ → Bytes
words head body = put_u32 head ++ put_u32 body

length-words : (head body : ℕ) → length (words head body) ≡ 8
unfolding put_u32
length-words head body = refl

-- Bytes that the next segment has too few of.
read_short :
    (n : ℕ) (segment : Bytes) (segments : List Bytes)
    → 0 < n
    → length segment ≤ n
    → read n (segment ∷ segments) ≡ some (segment, segments)
unfolding read
read_short zero segment segments p h = absurd (omega (arith, p))
read_short (suc n) segment segments p h = rw (leb_of_le (length segment) (suc n) h)

read_part :
    (n : ℕ) (front back : Bytes) (segments : List Bytes)
    → 0 < n
    → length front ≡ n
    → 0 < length back
    → read n ((front ++ back) ∷ segments) ≡ some (front, back ∷ segments)
unfolding read
read_part zero front back segments p h q = absurd (omega (arith, p))
read_part (suc n) front back segments p h q =
    let long : leb (length (front ++ back)) (suc n) ≡ false =
      leb_of_lt _ _ (omega (arith, length-append front back, h, q)) in
    rw (
      long,
      take-append_of_length (suc n) front back (sym h),
      drop-append_of_length (suc n) front back (sym h),
    )

-- `ReadMsg` behind the read of the two words.
read_msg-words :
    (head body : ℕ) (segments behind : List Bytes)
    → IsU32 head
    → IsU32 body
    → read 8 segments ≡ some (words head body, behind)
    → read_msg segments ≡ read_rest (words head body) ((head + body) % 2 ^ 32) behind
unfolding read_msg read_sized
read_msg-words head body segments behind h k e =
    let whole : padded 8 (words head body) ≡ words head body = unfold put_u32 in refl in
    let last : get_u32 (put_u32 body) ≡ ok (body, []) =
      ap get_u32 (sym (append-nil (put_u32 body))) ∙ get_u32-put_u32 body [] k in
    ap read_behind e
    ∙ ap (λ w. read_sized w behind) whole
    ∙ rw (get_u32-put_u32 head (put_u32 body) h, last)

-- The first segment begins with the words.
read-words :
    (head body : ℕ) (rest : Bytes) (segments : List Bytes)
    → (behind : List Bytes) × (read 8 ((words head body ++ rest) ∷ segments)
        ≡ some (words head body, behind))
read-words head body [] segments = (
  segments,
  rw (append-nil (words head body)) (
      read_short 8 (words head body) segments (omega arith)
        (omega (arith, length-words head body))),
)
read-words head body (b ∷ rest) segments = (
  (b ∷ rest) ∷ segments,
  read_part 8 (words head body) (b ∷ rest) segments (omega arith) (length-words head body)
      (omega arith),
)

read_rest-panic :
    (bytes : Bytes) (size : ℕ) (segments : List Bytes)
    → (read_rest bytes size segments ≡ panic) ↔ (size < 8)
unfolding read_rest
read_rest-panic bytes size segments = (λ h. ground (arith, h), λ h. rw (leb_of_lt 8 size h))

-- `ReadMsg` panics exactly when the two length words of what arrives, added as uint32, are below 8.
pub read_msg-panic_iff :
    (head body : ℕ) (rest : Bytes) (segments : List Bytes)
    → IsU32 head
    → IsU32 body
    → (read_msg ((words head body ++ rest) ∷ segments) ≡ panic) ↔ ((head + body) % 2 ^ 32 < 8)
read_msg-panic_iff head body rest segments h k =
    let (behind, e) = read-words head body rest segments in
    let same = read_msg-words head body ((words head body ++ rest) ∷ segments) behind h k e in
    let (there, back) = read_rest-panic (words head body) ((head + body) % 2 ^ 32) behind in
    (λ p. there (sym same ∙ p), λ q. same ∙ back q)

-- Where the first segment has the length words of a message, which is shorter than 2 ^ 32 bytes, and at
-- least one byte behind them, but nothing of the next message: `ReadMsg` returns what the segment has
-- without an error, with zeros in the place of the message's other bytes; these stay behind, in front
-- of the next message.
pub read_msg-segment :
    (head body : ℕ) (front : Bytes) (segments : List Bytes)
    → head + body < 2 ^ 32
    → 0 < length front
    → 8 + length front ≤ head + body
    → read_msg ((words head body ++ front) ∷ segments)
      ≡ ok (some (words head body ++ padded (head + body - 8) front, segments))
unfolding read_rest
read_msg-segment head body front segments fits some_bytes most =
    let e =
      read_part 8 (words head body) front segments (omega arith) (length-words head body)
        some_bytes in
    let size : (head + body) % 2 ^ 32 ≡ head + body = omega (arith, fits) in
    let rest =
      read_short (head + body - 8) front segments (omega (arith, some_bytes, most))
        (omega (arith, most)) in
    read_msg-words head body _ _ (omega (arith, fits)) (omega (arith, fits)) e
    ∙ rw (size, leb_of_le 8 (head + body) (omega (arith, most)), rest)

-- A message that the first segment holds as a whole is returned as it is.
pub read_msg-frame :
    (head body : ℕ) (rest : Bytes) (segments : List Bytes)
    → head + body < 2 ^ 32
    → 0 < length rest
    → 8 + length rest ≡ head + body
    → read_msg ((words head body ++ rest) ∷ segments)
      ≡ ok (some (words head body ++ rest, segments))
read_msg-frame head body rest segments fits some_bytes whole =
    let none_left : head + body - 8 - length rest ≡ 0 = omega (arith, whole) in
    read_msg-segment head body rest segments fits some_bytes (omega (arith, whole))
    ∙ rw (none_left, append-nil rest)

-- The same of a frame that is known by its length.
pub read_msg-whole :
    (head body : ℕ) (rest frame : Bytes) (segments : List Bytes)
    → frame ≡ words head body ++ rest
    → length frame ≡ head + body
    → head + body < 2 ^ 32
    → 8 < head + body
    → read_msg (frame ∷ segments) ≡ ok (some (frame, segments))
read_msg-whole head body rest frame segments shape size fits long =
    let parts : 8 + length rest ≡ head + body = omega (
      arith,
      ap length shape,
      length-append (words head body) rest,
      length-words head body,
      size,
    ) in
    rw shape (read_msg-frame head body rest segments fits (omega (arith, parts, long)) parts)
