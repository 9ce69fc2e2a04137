-- ===== src/Cache/MapCache.antt =====
-- homework_memory_limit/memory_cache.go: `MemoryMapCache`. Every method runs under the cache's own
-- mutex, which the callback of an eviction does not take, so a method is one step. `S` is the state
-- behind that callback. Times and durations are numbers; a duration is an int64.
use myhomework.Common.{
  ℕ, ◌+◌, Bytes, List, [], ◌∷◌, Bool, false, Option, none, some, Result, ok, err, ◌>>=◌, ltb,
  if◌then◌else◌, take,
}
use myhomework.Common.Dict.{lookup, insert, erase}
use myhomework.Common.Int64

-- A deadline of `none` is the zero `time.Time`.
pub record Item : Type 0 where
  pub val : Bytes
  pub deadline : Option ℕ

-- The field `data`.
pub record MapCache : Type 0 where
  pub entries : List (Bytes × Item)

-- The values of Go's `error`: `errKeyNotFound`, and an error of the linked list.
pub data Error : Type 0 where
  key_not_found : Error
  out_of_range : Error

-- What ends a call without a return: the call of a nil function, and a mutex that the goroutine
-- already holds.
pub data Abort : Type 0 where
  nil_callback : Abort
  deadlock : Abort

-- The field `onEvicted`, which `OnEvicted` sets.
abbrev pub Callback : Type 0 → Type 0
Callback S = Option (Bytes → Bytes → S → Result Abort S)

abbrev pub deadline_before : ℕ → Item → Bool
deadline_before t itm = elim (itm.deadline) [ none ↦ false | some deadline ↦ ltb deadline t ]

module _ {S : Type 0} where
  unfoldable pub evict : Callback S → Bytes → Bytes → S → Result Abort S
  evict none key val s = err nil_callback
  evict (some callback) key val s = callback key val s

  -- `delete` behind the look-up.
  unfoldable pub delete_found :
      Callback S → Bytes → Option Item → MapCache × S → Result Abort (MapCache × S)
  unfolding evict
  delete_found callback key none st = ok st
  delete_found callback key (some itm) (m, s) = do
    s' ← evict callback key itm.val s
    ok (record { entries = erase key m.entries }, s')

  -- `delete`, and `Delete`, which returns no error.
  unfoldable pub delete : Callback S → Bytes → MapCache × S → Result Abort (MapCache × S)
  unfolding delete_found
  delete callback key st = delete_found callback key (lookup key (st.0.entries)) st

  -- `set`, and `Set`, at the time `now`; the error that it returns is always nil.
  unfoldable pub set : ℕ → Bytes → Bytes → ℕ → MapCache × S → MapCache × S
  set now key val expiration (m, s) =
      let deadline = if Int64.less 0 expiration then some (now + expiration) else none in
      (record { entries = insert key (record { val = val; deadline = deadline }) m.entries }, s)

  -- `Get` behind the look-up, at the time `now`.
  unfoldable pub get_found :
      Callback S
      → ℕ
      → Bytes
      → Option Item
      → MapCache × S
      → Result Abort ((MapCache × S) × Result Error Bytes)
  unfolding delete
  get_found callback now key none st = ok (st, err key_not_found)
  get_found callback now key (some itm) st =
      if deadline_before now itm
      then (do st' ← delete callback key st; ok (st', err key_not_found))
      else ok (st, ok itm.val)

  unfoldable pub get :
      Callback S → ℕ → Bytes → MapCache × S → Result Abort ((MapCache × S) × Result Error Bytes)
  unfolding get_found
  get callback now key st = get_found callback now key (lookup key (st.0.entries)) st

  unfoldable pub load_found :
      Callback S
      → Bytes
      → Option Item
      → MapCache × S
      → Result Abort ((MapCache × S) × Result Error Bytes)
  unfolding delete
  load_found callback key none st = ok (st, err key_not_found)
  load_found callback key (some itm) st = do st' ← delete callback key st; ok (st', ok itm.val)

  unfoldable pub load_and_delete :
      Callback S → Bytes → MapCache × S → Result Abort ((MapCache × S) × Result Error Bytes)
  unfolding load_found
  load_and_delete callback key st = load_found callback key (lookup key (st.0.entries)) st

  -- One key of the loop over `data` at the tick `t`.
  unfoldable pub sweep_found :
      Callback S → ℕ → Bytes → Option Item → MapCache × S → Result Abort (MapCache × S)
  unfolding delete
  sweep_found callback t key none st = ok st
  sweep_found callback t key (some itm) st =
      if deadline_before t itm then delete callback key st else ok st

  unfoldable pub sweep_keys :
      Callback S → ℕ → List Bytes → MapCache × S → Result Abort (MapCache × S)
  unfolding sweep_found
  sweep_keys callback t [] st = ok st
  sweep_keys callback t (key ∷ keys) st = do
    st' ← sweep_found callback t key (lookup key (st.0.entries)) st
    sweep_keys callback t keys st'

  -- A tick of the goroutine that `NewMemoryMapCache` starts. Go does not say in which order a map is
  -- read: `keys` is that order. The loop ends behind 10001 keys.
  unfoldable pub sweep : Callback S → ℕ → List Bytes → MapCache × S → Result Abort (MapCache × S)
  unfolding sweep_keys
  sweep callback t keys st = sweep_keys callback t (take 10001 keys) st
