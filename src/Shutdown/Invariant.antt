-- ===== src/Shutdown/Invariant.antt =====
-- What holds in every state that the shutdown of an application can be in.
use myhomework.Common.{
  ℕ, suc, ◌+◌, ◌≡◌, List, [], ◌∷◌, ◌++◌, length, length-append, All, Bool, true, false, arith,
}
use myhomework.Shutdown.App.{
  App, Phase, serving, rejecting, stopping, calling, closing, closed, panicked, exited, Stop,
  working, stopped, Call, spawned, running, returned, Shared,
}

-- The goroutines that have still to call `Done`.
unfoldable pub busy_stops : List Stop → ℕ
busy_stops [] = 0
busy_stops (working s ∷ stops) = suc (busy_stops stops)
busy_stops (stopped s ∷ stops) = busy_stops stops

unfoldable pub busy_calls : {A : Type 0} → List (Call A) → ℕ
busy_calls [] = 0
busy_calls (spawned ∷ calls) = suc (busy_calls calls)
busy_calls (running cb ∷ calls) = suc (busy_calls calls)
busy_calls (returned cb ∷ calls) = busy_calls calls

pub busy_stops-append : (xs ys : List Stop) → busy_stops (xs ++ ys) ≡ busy_stops xs + busy_stops ys
unfolding busy_stops
busy_stops-append [] ys = omega arith
busy_stops-append (working s ∷ xs) ys = omega (arith, busy_stops-append xs ys)
busy_stops-append (stopped s ∷ xs) ys = busy_stops-append xs ys

pub busy_calls-append :
    {A : Type 0} (xs ys : List (Call A)) → busy_calls (xs ++ ys) ≡ busy_calls xs + busy_calls ys
unfolding busy_calls
busy_calls-append [] ys = omega arith
busy_calls-append (spawned ∷ xs) ys = omega (arith, busy_calls-append xs ys)
busy_calls-append (running cb ∷ xs) ys = omega (arith, busy_calls-append xs ys)
busy_calls-append (returned cb ∷ xs) ys = busy_calls-append xs ys

-- What a step of one goroutine does to the numbers of goroutines.
pub busy_stops-done :
    (before after : List Stop) (s : ℕ)
    → busy_stops (before ++ working s ∷ after) ≡ suc (busy_stops (before ++ stopped s ∷ after))
unfolding busy_stops
busy_stops-done before after s = omega (
  arith,
  busy_stops-append before (working s ∷ after),
  busy_stops-append before (stopped s ∷ after),
)

pub busy_calls-done :
    {A : Type 0} (before after : List (Call A)) (cb : A)
    → busy_calls (before ++ running cb ∷ after) ≡ suc (busy_calls (before ++ returned cb ∷ after))
unfolding busy_calls
busy_calls-done before after cb = omega (
  arith,
  busy_calls-append before (running cb ∷ after),
  busy_calls-append before (returned cb ∷ after),
)

pub busy_calls-runs :
    {A : Type 0} (before after : List (Call A)) (cb : A)
    → busy_calls (before ++ spawned ∷ after) ≡ busy_calls (before ++ running cb ∷ after)
unfolding busy_calls
busy_calls-runs before after cb = omega (
  arith,
  busy_calls-append before (spawned ∷ after),
  busy_calls-append before (running cb ∷ after),
)

pub length-replaced :
    {A : Type 0} (before after : List A) (x y : A)
    → length (before ++ x ∷ after) ≡ length (before ++ y ∷ after)
length-replaced before after x y =
    omega (arith, length-append before (x ∷ after), length-append before (y ∷ after))

pub length-added : {A : Type 0} (xs : List A) (x : A) → length (xs ++ x ∷ []) ≡ suc (length xs)
length-added xs x = omega (arith, length-append xs (x ∷ []))

-- Every server whose turn has come rejects.
pub record RejectSome (servers todo : List ℕ) (rejects : ℕ → Bool) : Type 0 where
  pub past : List ℕ
  pub split : servers ≡ past ++ todo
  pub rejected : All (λ s. rejects s ≡ true) past

module _ {A : Type 0} where
  -- What the loops of `shutdown` have still to do: the calls of `Add` that wait for a `Done` of a
  -- goroutine not yet there, the servers that do not reject yet, and the goroutines to come.
  unfoldable pub due : Phase A → ℕ
  due (rejecting todo) = length todo
  due (stopping todo) = length todo
  due (calling todo) = length todo
  due (panicked p) = due p
  due (exited code p) = due p
  due _ = 0

  module _ (app : App A) where
    unfoldable pub due_rejects : Phase A → List ℕ
    due_rejects serving = app.servers
    due_rejects (rejecting todo) = todo
    due_rejects (panicked p) = due_rejects p
    due_rejects (exited code p) = due_rejects p
    due_rejects _ = []

    unfoldable pub due_stops : Phase A → ℕ
    due_stops serving = length app.servers
    due_stops (rejecting todo) = length app.servers
    due_stops (stopping todo) = length todo
    due_stops (panicked p) = due_stops p
    due_stops (exited code p) = due_stops p
    due_stops _ = 0

    unfoldable pub due_calls : Phase A → ℕ
    due_calls (calling todo) = length todo
    due_calls closing = 0
    due_calls closed = 0
    due_calls (panicked p) = due_calls p
    due_calls (exited code p) = due_calls p
    due_calls _ = length app.cbs

  -- The phases behind a `Wait`.
  unfoldable pub behind_stops : Phase A → Bool
  behind_stops (calling todo) = true
  behind_stops closing = true
  behind_stops closed = true
  behind_stops (panicked p) = behind_stops p
  behind_stops (exited code p) = behind_stops p
  behind_stops _ = false

  unfoldable pub behind_calls : Phase A → Bool
  behind_calls closing = true
  behind_calls closed = true
  behind_calls (panicked p) = behind_calls p
  behind_calls (exited code p) = behind_calls p
  behind_calls _ = false

  pub record IsSound (app : App A) (p : Phase A) (sh : Shared A) : Type 0 where
    pub counted : sh.counter ≡ due p + busy_stops sh.stops + busy_calls sh.calls
    pub rejects : RejectSome app.servers (due_rejects app p) sh.rejects
    pub stops_spawned : length sh.stops + due_stops app p ≡ length app.servers
    pub calls_spawned : length sh.calls + due_calls app p ≡ length app.cbs
    pub all_stopped : behind_stops p ≡ true → busy_stops sh.stops ≡ 0
    pub all_returned : behind_calls p ≡ true → busy_calls sh.calls ≡ 0
