-- ===== src/Cache/MaxMemory.antt =====
-- homework_memory_limit/max_memory_cache.go: `MaxMemoryCache` over a `MemoryMapCache`. Its mutex is
-- the field `locked`: a call that takes it while it is held never returns. Numbers of bytes are
-- int64, keys stand in a linked list of ekit.
use myhomework.Common.{
  ℕ, zero, suc, ◌+◌, Bytes, bytes_eq, List, [], ◌∷◌, ◌++◌, Bool, true, false, Option, none, some,
  Result, ok, err, ◌>>=◌, ltb, if◌then◌else◌, length,
}
use myhomework.Common.Int64
use myhomework.Cache.LinkedList.{LinkedList}
use myhomework.Cache.MapCache
use myhomework.Cache.MapCache.{MapCache, Callback, Error, out_of_range, Abort, deadlock}

-- When the calls of `time.Now` inside one `Set` happen: in the first `Get`, in the `Get` of the loop
-- at each index, and in the last `Set`.
pub record Clock : Type 0 where
  pub first : ℕ
  pub at_index : ℕ → ℕ
  pub last : ℕ

-- The value that `item, _ := ...` binds.
abbrev pub value_or {ℓ} : {A : Type ℓ} → A → Option A → A
value_or default none = default
value_or default (some a) = a

abbrev pub bytes_or_nil : Result Error Bytes → Bytes
bytes_or_nil (ok val) = val
bytes_or_nil (err e) = []

module _ (lib : LinkedList) where
  open lib use {Keys}

  -- The fields `used`, `lock` and `list`; `max` is an argument of `set`.
  pub record Client : Type 0 where
    pub used : ℕ
    pub locked : Bool
    pub list : Keys

  -- The embedded cache, and the rest.
  abbrev pub Cache : Type 0
  Cache = MapCache × Client

  -- The loop of the callback from index `i` on. The fuel is the number of rounds left.
  unfoldable pub remove_rounds : ℕ → ℕ → Bytes → Keys → Keys
  remove_rounds zero i key l = l
  remove_rounds (suc fuel) i key l =
      let item = value_or [] (lib.get l i) in
      let l' = if bytes_eq key item then value_or l (lib.delete l i) else l in
      let rest = remove_rounds fuel (i + 1) key l' in if ltb i (lib.len l) then rest else l

  unfoldable pub remove_key : Bytes → Keys → Keys
  unfolding remove_rounds
  remove_key key l = remove_rounds (lib.len l) 0 key l

  -- The callback that `NewMaxMemoryCache` registers.
  unfoldable pub on_evicted : Bytes → Bytes → Client → Result Abort Client
  unfolding remove_key
  on_evicted key val s =
      if s.locked
      then err deadlock
      else ok (record s { used = Int64.sub s.used (length val); list = remove_key key s.list })

  abbrev pub callback : Callback Client
  callback = some on_evicted

  -- `NewMaxMemoryCache`
  unfoldable pub new_max_memory_cache : MapCache → Cache
  new_max_memory_cache m = (m, record { used = 0; locked = false; list = lib.new })

  -- The loop of `listMoveToHead`.
  unfoldable pub drop_first : ℕ → ℕ → Bytes → Keys → Result Error Keys
  drop_first zero i key l = ok l
  drop_first (suc fuel) i key l =
      let item = value_or [] (lib.get l i) in
      let found = elim (lib.delete l i) as (λ _. Result Error Keys) [
        | none ↦ err out_of_range
        | some l' ↦ ok l'
      ] in
      let rest = drop_first fuel (i + 1) key l in
      if ltb i (lib.len l) then (if bytes_eq key item then found else rest) else ok l

  unfoldable pub add_head : Bytes → Keys → Keys × Option Error
  add_head key l = elim (lib.add l 0 key) [ none ↦ (l, some out_of_range) | some l' ↦ (l', none) ]

  unfoldable pub list_move_to_head : Bytes → Keys → Keys × Option Error
  unfolding drop_first add_head
  list_move_to_head key l = elim (drop_first (lib.len l) 0 key l) [
    | err e ↦ (l, some e)
    | ok l' ↦ add_head key l'
  ]

  -- `Get` behind the `Get` of the embedded cache.
  unfoldable pub get_behind : Bytes → Cache × Result Error Bytes → Cache × Result Error Bytes
  unfolding list_move_to_head
  get_behind key (st, err e) = (st, err e)
  get_behind key ((m, s), ok val) =
      let (l, e) = list_move_to_head key s.list in
      ((m, record s { list = l }), elim e [ none ↦ ok val | some e' ↦ err e' ])

  unfoldable pub get : ℕ → Bytes → Cache → Result Abort (Cache × Result Error Bytes)
  unfolding get_behind
  get now key st = do r ← MapCache.get callback now key st; ok (get_behind key r)

  -- The loop that collects the keys to delete, from index `i` down; the first argument is `i + 1`.
  unfoldable pub collect :
      ℕ → Clock → ℕ → ℕ → ℕ → List Bytes → Cache → Result Abort (Cache × Result Error (List Bytes))
  collect zero clock need used free keys st = ok (st, ok keys)
  collect (suc i) clock need used free keys st = elim (lib.get (st.1.list) i) [
    | none ↦ ok (st, err out_of_range)
    | some key ↦ do
      (st', r) ← MapCache.get callback (clock.at_index i) key st
      elim r [
        | err e ↦ ok (st', err e)
        | ok val ↦
            let free' = Int64.add free (length val) in
            let keys' = keys ++ key ∷ [] in
            let rest = collect i clock need used free' keys' st' in
            if Int64.less need (Int64.sub used free') then ok (st', ok keys') else rest
      ]
  ]

  unfoldable pub delete_keys : List Bytes → Cache → Result Abort Cache
  delete_keys [] st = ok st
  delete_keys (key ∷ keys) st = do st' ← MapCache.delete callback key st; delete_keys keys st'

  abbrev pub unlock : Cache → Cache
  unlock (m, s) = (m, record s { locked = false })

  -- The end of `Set`: the value goes into the cache, unless the list has returned an error.
  unfoldable pub store_behind :
      Clock → Bytes → Bytes → ℕ → MapCache → Client → Keys × Option Error → Cache × Option Error
  store_behind clock key val expiration m s (l, none) =
      (MapCache.set clock.last key val expiration (m, record s { list = l }), none)
  store_behind clock key val expiration m s (l, some e) = ((m, record s { list = l }), some e)

  -- The key goes to the head of the list before.
  unfoldable pub store : Clock → Bool → Bytes → Bytes → ℕ → Cache → Cache × Option Error
  unfolding store_behind list_move_to_head
  store clock is_exists key val expiration (m, s) =
      store_behind clock key val expiration m s
        (if is_exists then list_move_to_head key s.list else add_head key s.list)

  -- The branch of `Set` that makes room.
  unfoldable pub clean : Clock → ℕ → ℕ → Cache → Result Abort (Cache × Option Error)
  unfolding collect delete_keys
  clean clock need used st = do
    (st', r) ← collect (lib.len (st.1.list)) clock need used 0 [] st
    elim r [
      | err e ↦ ok (unlock st', some e)
      | ok keys ↦ do st'' ← delete_keys keys (unlock st'); ok (st'', none)
    ]

  -- `Set` behind its first `Get`, which found `item`.
  unfoldable pub set_behind :
      ℕ → Clock → Bytes → Bytes → ℕ → Bytes → Cache → Result Abort (Cache × Option Error)
  unfolding clean store
  set_behind max clock key val expiration item st =
      let need = length val in
      let is_exists = ltb 0 (length item) in
      let used = if is_exists then Int64.sub (st.1.used) (length item) else st.1.used in
      if Int64.less max (Int64.add need used)
      then (do
        (st', e) ← clean clock need used st
        elim e [
          | none ↦ ok (store clock is_exists key val expiration st')
          | some e' ↦ ok (st', some e')
        ])
      else let counted = Int64.add (Int64.sub (st.1.used) (length item)) need in
        let client = record (st.1) { used = counted; locked = false } in
        ok (store clock is_exists key val expiration (st.0, client))

  unfoldable pub set : ℕ → Clock → Bytes → Bytes → ℕ → Cache → Result Abort (Cache × Option Error)
  unfolding set_behind
  set max clock key val expiration (m, s) = if s.locked then err deadlock else (do
    (st, r) ← MapCache.get callback clock.first key (m, record s { locked = true })
    set_behind max clock key val expiration (bytes_or_nil r) st)
