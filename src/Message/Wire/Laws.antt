-- ===== src/Message/Wire/Laws.antt =====
-- Words and bytes read back, and every sequence of writes is one write of the joined text.
use myhomework.Common.{
  ℕ, ◌+◌, ◌≤◌, ◌<◌, Bytes, ◌≡◌, refl, ap, [], ◌∷◌, ◌++◌, length, drop, length-drop, length-append,
  leb_of_le, leb_of_lt, arith, append_assoc, append-nil, drop_all, take_all, ◌∙◌, zero, suc,
}
use myhomework.Message.Wire.{
  Outcome, ok, panic, stuck, ◌>>=◌, IsU32, put_u32, get_u32, Cursor, put, put_byte_at, put_byte,
  copy,
}
use native.Mathlib.Decide.{dec_le}
use mathlib.Core.Path.{fun_ext}
use native.Mathlib.Nat.{zero-add, suc-add}

pub get_u32-put_u32 : (n : ℕ) (rest : Bytes) → IsU32 n → get_u32 (put_u32 n ++ rest) ≡ ok (n, rest)
unfolding get_u32 put_u32
get_u32-put_u32 n rest h = ap (λ m. ok (m, rest)) (omega arith)

-- The cursor with room for the text goes on behind it.
pub put_room :
    (s : Bytes) (c : Cursor)
    → length s ≤ length c.cur
    → put s c ≡ ok (record { before = c.before ++ s; cur = drop (length s) c.cur })
unfolding put
put_room s c h = rw (leb_of_le (length s) (length c.cur) h) refl

pub put_full : (s : Bytes) (c : Cursor) → length c.cur < length s → put s c ≡ panic
unfolding put
put_full s c h = rw (leb_of_lt (length s) (length c.cur) h) refl

drop-drop : (m n : ℕ) (l : Bytes) → drop n (drop m l) ≡ drop (m + n) l
drop-drop zero n l = rw zero-add refl
drop-drop (suc m) zero [] = rw suc-add refl
drop-drop (suc m) (suc n) [] = rw suc-add refl
drop-drop (suc m) n (x ∷ l) = rw suc-add (drop-drop m n l)

put_byte_at-put :
    (b : ℕ) (before cur : Bytes)
    → put_byte_at b before cur ≡ put (b ∷ []) (record { before = before; cur = cur })
unfolding put_byte_at put
put_byte_at-put b before [] = refl
put_byte_at-put b before (x ∷ rest) = ground arith

pub put_byte-put : (b : ℕ) (c : Cursor) → put_byte b c ≡ put (b ∷ []) c
unfolding put_byte
put_byte-put b c = put_byte_at-put b c.before c.cur

put-put_room :
    (s t : Bytes) (c : Cursor)
    → length (s ++ t) ≤ length c.cur
    → (put s c >>= put t) ≡ put (s ++ t) c
put-put_room s t c h =
    let n = length-append s t in
    let room = length-drop (length s) c.cur in
    rw
      (
        put_room s c (omega (arith, n)),
        put_room t (record { before = c.before ++ s; cur = drop (length s) c.cur })
            (omega (arith, n, room)),
        put_room (s ++ t) c h,
        append_assoc c.before s t,
        drop-drop (length s) (length t) c.cur,
        n,
      )
      refl

-- Two writes are one write of the joined text.
pub put-put : (s t : Bytes) (c : Cursor) → (put s c >>= put t) ≡ put (s ++ t) c
put-put s t c =
    let n = length-append s t in
    elim (dec_le (length s) (length c.cur)) [
      | yes h ↦ elim (dec_le (length (s ++ t)) (length c.cur)) [
        | yes h' ↦ put-put_room s t c h'
        | no h' ↦
            rw
              (
                put_room s c h,
                put_full t (record { before = c.before ++ s; cur = drop (length s) c.cur })
                    (omega (arith, n, length-drop (length s) c.cur)),
                put_full (s ++ t) c (omega arith),
              )
              refl
      ]
      | no h ↦ rw (put_full s c (omega arith), put_full (s ++ t) c (omega (arith, n))) refl
    ]

-- A buffer of just the right size is filled.
pub put-fits :
    (s : Bytes) (b before : Bytes)
    → length b ≡ length s
    → put s (record { before = before; cur = b }) ≡ ok (record { before = before ++ s; cur = [] })
put-fits s b before h =
    rw
      (
        put_room s (record { before = before; cur = b }) (omega arith),
        drop_all (length s) b (omega arith),
      )
      refl

pub bind_assoc :
    {A B C : Type 0} (m : Outcome A) (f : A → Outcome B) (g : B → Outcome C)
    → (m >>= λ a. (f a >>= g)) ≡ ((m >>= f) >>= g)
bind_assoc (ok a) f g = refl
bind_assoc panic f g = refl
bind_assoc stuck f g = refl

-- The same inside a chain, for a text and for a byte.
pub put-put_then :
    {A : Type 0} (s t : Bytes) (c : Cursor) (k : Cursor → Outcome A)
    → (put s c >>= λ c₁. (put t c₁ >>= k)) ≡ (put (s ++ t) c >>= k)
put-put_then s t c k = bind_assoc (put s c) (put t) k ∙ rw (put-put s t c) refl

pub put_byte_then :
    {A : Type 0} (s : Bytes) (b : ℕ) (c : Cursor) (k : Cursor → Outcome A)
    → (put s c >>= λ c₁. (put_byte b c₁ >>= k)) ≡ (put (s ++ b ∷ []) c >>= k)
put_byte_then s b c k = rw (fun_ext (put_byte-put b)) (put-put_then s (b ∷ []) c k)

pub put-nil : (c : Cursor) → put [] c ≡ ok c
put-nil c = rw (put_room [] c (omega arith), append-nil c.before) refl

-- A copy into a buffer of just the right size.
pub copy-fits :
    (s before cur : Bytes)
    → length cur ≡ length s
    → copy s (record { before = before; cur = cur }) ≡ before ++ s
unfolding copy
copy-fits s before cur h =
    rw (take_all (length cur) s (omega arith), drop_all (length s) cur (omega arith), append-nil s)
      refl
