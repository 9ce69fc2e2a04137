-- ===== src/Cache/Tests.antt =====
-- Runs of the memory-limited cache, and the theorems at those inputs.
use myhomework.Common.{
  ℕ, zero, suc, ◌+◌, ◌<◌, ◌≤◌, Bytes, bytes_eq, bytes_eq_iff, text, ◌≡◌, ◌≢◌, refl, List, [], ◌∷◌,
  ◌++◌, Option, none, some, Result, ok, err, false, length, get_elem?, remove_at, arith, ltb,
  if◌then◌else◌, ◌⊎◌,
}
use mathlib.Core.List.{reverse}
use myhomework.Common.Dict.{lookup, insert, erase}
use myhomework.Common.Int64
use myhomework.Cache.LinkedList.{LinkedList, IsLawful}
use myhomework.Cache.MapCache
use myhomework.Cache.MapCache.{MapCache, Item, Error, key_not_found, deadlock}
use myhomework.Cache.MaxMemory
use myhomework.Cache.MaxMemory.{Client, Clock}
use myhomework.Cache.Keys.{count, remove_first}
use myhomework.Cache.Totals
use myhomework.Cache.Totals.{total, size}
use myhomework.Cache.Accounting.{IsAccounted}
use myhomework.Cache.Reading.{GetOutcome, get-IsAccounted}
use myhomework.Cache.Setting.{new_item, set-IsAccounted}
use myhomework.Cache.Cleaning.{AllNeeded, erase_all, AllLive}
use myhomework.Cache.Room.{set-making_room, set-exceeds_max, set-deadlock}

program : Unit {0}
unfolding MaxMemory.set MaxMemory.get MaxMemory.new_max_memory_cache MapCache.get
    MapCache.load_and_delete MapCache.set MaxMemory.on_evicted lookup insert erase bytes_eq text
    Int64.add Int64.sub Int64.less total
program = tt

-- A linked list as the sequence of its keys.
abbrev remove_valid : List Bytes → ℕ → Option (List Bytes)
remove_valid l i = if ltb i (length l) then some (remove_at l i) else none

-- A key is inserted at an index that is at most the length.
abbrev insert_valid : List Bytes → ℕ → Bytes → Option (List Bytes)
insert_valid l zero key = some (key ∷ l)
insert_valid [] (suc i) key = none
insert_valid (k ∷ l) (suc i) key = elim (insert_valid l i key) as (λ _. Option (List Bytes)) [
  | none ↦ none
  | some l' ↦ some (k ∷ l')
]

abbrev sequence : LinkedList
sequence = record {
  Keys = List Bytes;
  new = [];
  len = length;
  get = get_elem?;
  delete = remove_valid;
  add = insert_valid;
  as_slice = λ l. l;
}

insert_valid_first : (l : List Bytes) (key : Bytes) → insert_valid l 0 key ≡ some (key ∷ l)
insert_valid_first [] key = refl
insert_valid_first (k ∷ l) key = refl

delete_valid :
    (l : List Bytes) (i : ℕ)
    → i < length l
    → (l' : List Bytes) × (remove_valid l i ≡ some l') × (l' ≡ remove_at l i)
delete_valid l i h = (remove_at l i, ground (arith, h), refl)

sequence-IsLawful : IsLawful sequence
sequence-IsLawful = record {
  new_lem = refl;
  len_lem = λ l. refl;
  get_lem = λ l i. refl;
  delete_lem = delete_valid;
  add_lem = λ l key. (key ∷ l, insert_valid_first l key, refl);
}

-- All calls at the time 5.
abbrev clock : Clock
clock = record { first = 5; at_index = λ _. 5; last = 5 }

abbrev item : Bytes → Option ℕ → Item
item val deadline = record { val = val; deadline = deadline }

-- Three keys of three bytes each; one expires at the time 9.
abbrev three : MaxMemory.Cache sequence
three = (
  record {
    entries =
        (text "a", item (text "xxx") none)
        ∷ (text "b", item (text "yyy") (some 9))
        ∷ (text "c", item (text "zzz") none)
        ∷ [];
  },
  record { used = 9; locked = false; list = text "c" ∷ text "b" ∷ text "a" ∷ [] },
)

-- The books of `three`, key by key.
three-listed : (k : Bytes) → count k (three.1.list) ≡ Totals.present (lookup k (three.0.entries))
unfolding lookup count text
three-listed k = ground (
  arith,
  bytes_eq_iff k (text "a"),
  bytes_eq_iff k (text "b"),
  bytes_eq_iff k (text "c"),
  bytes_eq_iff (text "a") k,
  bytes_eq_iff (text "b") k,
  bytes_eq_iff (text "c") k,
)

apart : (a b : ℕ) → a ≢ b → (a ∷ []) ≢ (b ∷ [])
apart a b h e = h (ground (arith, e))

three-IsAccounted : IsAccounted sequence three
unfolding total text
three-IsAccounted = record {
  distinct = (
    (apart 98 97 (omega arith), (apart 99 97 (omega arith), tt)),
    ((apart 99 98 (omega arith), tt), (tt, tt)),
  );
  listed = three-listed;
  used_lem = refl;
  unlocked = refl;
  small = omega arith;
}

-- No entry of `three` expires before the time 9.
three-live : AllLive clock (three.0.entries)
unfolding lookup text
three-live i key itm found = ground (
  arith,
  found,
  bytes_eq_iff (text "a") key,
  bytes_eq_iff (text "b") key,
  bytes_eq_iff (text "c") key,
)

-- A fourth key fits into twelve bytes, and does not fit into eleven.
room_for_four :
    MaxMemory.set sequence 12 clock (text "d") (text "www") 0 three
    ≡ ok (
      (
        record { entries = insert (text "d") (item (text "www") none) (three.0.entries) },
        record { used = 12; locked = false; list = text "d" ∷ text "c" ∷ text "b" ∷ text "a" ∷ [] },
      ),
      none,
    )
unfolding program
room_for_four = refl

no_room_for_four :
    MaxMemory.set sequence 11 clock (text "d") (text "www") 0 three
    ≡ ok (
      (
        record {
          entries = insert (text "d") (item (text "www") none) (erase (text "a") (three.0.entries));
        },
        record { used = 6; locked = false; list = text "d" ∷ text "c" ∷ text "b" ∷ [] },
      ),
      none,
    )
unfolding program
no_room_for_four = refl

get-IsAccounted_example :
    (r : MaxMemory.Cache sequence × Result Error Bytes) × (MaxMemory.get sequence 5 (text "a") three
      ≡ ok r)
    × GetOutcome sequence sequence-IsLawful 5
        (text "a")
        three
        (lookup (text "a") (three.0.entries))
        r
    × IsAccounted sequence r.0
get-IsAccounted_example =
    get-IsAccounted sequence sequence-IsLawful 5 (text "a") three three-IsAccounted

set-IsAccounted_example :
    (st' : MaxMemory.Cache sequence) × (MaxMemory.set sequence 12 clock
        (text "b")
        (text "wwwww")
        4
        three
      ≡ ok (st', none))
    × (st'.0.entries ≡ insert (text "b") (new_item 5 (text "wwwww") 4) (three.0.entries))
    × (st'.1.list ≡ text "b" ∷ remove_first (text "b") (three.1.list))
    × (total (st'.0.entries) ≤ 12)
    × IsAccounted sequence st'
unfolding program
set-IsAccounted_example =
    set-IsAccounted sequence sequence-IsLawful 12 clock (text "b") (text "wwwww") 4 three
      three-IsAccounted (refl, omega arith) (omega arith) (omega arith)

set-making_room_example :
    (st' : MaxMemory.Cache sequence) × (gone kept : List Bytes) × (MaxMemory.set sequence 11 clock
        (text "d")
        (text "www")
        0
        three
      ≡ ok (st', none))
    × (three.1.list ≡ kept ++ reverse gone)
    × (st'.1.list ≡ text "d" ∷ kept)
    × (st'.0.entries
        ≡ insert (text "d") (new_item 5 (text "www") 0) (erase_all gone (three.0.entries)))
    × AllNeeded (three.0.entries) (length (text "www")) (total (three.0.entries)) gone
    × ((kept ≡ []) ⊎ (length (text "www") < st'.1.used))
    × (st'.1.used + length (text "www") ≡ total (st'.0.entries))
unfolding program
set-making_room_example =
    set-making_room sequence sequence-IsLawful 11 clock (text "d") (text "www") 0 three
      three-IsAccounted refl three-live (omega arith) (omega arith)

-- Five bytes on top of nine, with a limit of ten: one key goes, and eleven bytes stay.
set-exceeds_max_example :
    (st' : MaxMemory.Cache sequence) × (MaxMemory.set sequence 10 clock
        (text "d")
        (text "wwwww")
        0
        three
      ≡ ok (st', none))
    × (st'.1.list ≡ text "d" ∷ text "c" ∷ text "b" ∷ [])
    × (10 < total (st'.0.entries))
unfolding program
set-exceeds_max_example =
    set-exceeds_max sequence sequence-IsLawful 10 clock (text "d") (text "wwwww") 0 three
      (text "c" ∷ text "b" ∷ []) (text "a") (item (text "xxx") none) three-IsAccounted refl refl
      refl refl (omega arith) (omega arith) (omega arith)

abbrev late : Clock
late = record { first = 10; at_index = λ _. 10; last = 10 }

set-deadlock_example : MaxMemory.set sequence 20 late (text "b") (text "w") 0 three ≡ err deadlock
unfolding program
set-deadlock_example =
    set-deadlock sequence sequence-IsLawful 20 late (text "b") (text "w") 0 three
      (item (text "yyy") (some 9)) refl refl
