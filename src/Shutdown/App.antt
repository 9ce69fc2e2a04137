-- ===== src/Shutdown/App.antt =====
-- homework_graceful_shutdown/service/shutdown.go: the application, its options, and the steps of its
-- shutdown. `A` is the type of callbacks. A server is a pointer. A goroutine is a value that says
-- how far it has come; the steps of all goroutines may come in any order. The time that anything
-- takes is left out, so that both deadlines may pass at any moment.
use myhomework.Common.{
  ℕ, suc, ◌+◌, ◌*◌, ◌==◌, ◌≡◌, List, [], ◌∷◌, ◌++◌, length, Bool, true, false, Option, none, some,
  if◌then◌else◌,
}

-- `time.Second`, in nanoseconds.
abbrev pub second : ℕ
second = 1000000000

pub record App (A : Type 0) : Type 0 where
  pub servers : List ℕ
  pub shutdown_timeout : ℕ
  pub wait_time : ℕ
  pub cb_timeout : ℕ
  pub cbs : List A

module _ {A : Type 0} where
  unfoldable pub with_shutdown_callbacks : List A → App A → App A
  with_shutdown_callbacks cbs app = record app { cbs = cbs }

  unfoldable pub apply_options : List (App A → App A) → App A → App A
  apply_options [] app = app
  apply_options (opt ∷ opts) app = apply_options opts (opt app)

  unfoldable pub new_app : List ℕ → List (App A → App A) → App A
  unfolding apply_options
  new_app servers opts = apply_options opts (record {
    servers = servers;
    shutdown_timeout = 30 * second;
    wait_time = 10 * second;
    cb_timeout = 13 * second;
    cbs = [];
  })

-- Where `StartAndServe` stands: before the first signal; in one of the three loops of `shutdown`,
-- with what the loop has still to do, where an empty list means the `Wait` behind the loop; in
-- `close`; or behind it. The process may also have ended, by a panic or by `os.Exit`.
pub data Phase (A : Type 0) : Type 0 where
  serving : Phase A
  rejecting : List ℕ → Phase A
  stopping : List ℕ → Phase A
  calling : List A → Phase A
  closing : Phase A
  closed : Phase A
  panicked : Phase A → Phase A
  exited : ℕ → Phase A → Phase A

-- A goroutine that stops a server.
pub data Stop : Type 0 where
  working : ℕ → Stop
  stopped : ℕ → Stop

-- A goroutine that runs a callback. It reads the loop's variable when it runs: with the `go 1.18` of
-- go.mod, all rounds of the loop share one variable.
pub data Call (A : Type 0) : Type 0 where
  spawned : Call A
  running : A → Call A
  returned : A → Call A

-- What the goroutines share: the flag `reject` of each server's mux, the counter of `wg`, and the
-- loop's variable `cbs`, once the loop has set it.
pub record Shared (A : Type 0) : Type 0 where
  pub rejects : ℕ → Bool
  pub counter : ℕ
  pub stops : List Stop
  pub loop : Option A
  pub calls : List (Call A)

-- `rejectReq`
unfoldable pub reject_req : ℕ → (ℕ → Bool) → ℕ → Bool
reject_req s rejects x = if x == s then true else rejects x

-- `serverMux.ServeHTTP`: the reply of a server that rejects, and of one that does not.
unfoldable pub serve_http : {Req Resp : Type 0} → Resp → (Req → Resp) → (ℕ → Bool) → ℕ → Req → Resp
serve_http unavailable mux rejects s r = if rejects s then unavailable else mux r

module _ {A : Type 0} where
  abbrev pub start : Shared A
  start = record { rejects = λ s. false; counter = 0; stops = []; loop = none; calls = [] }

  abbrev pub is_alive : Phase A → Bool
  is_alive (panicked p) = false
  is_alive (exited code p) = false
  is_alive _ = true

  -- The goroutine that forces an exit runs from the first signal on.
  abbrev pub is_shutting_down : Phase A → Bool
  is_shutting_down serving = false
  is_shutting_down p = is_alive p

  module _ (app : App A) where
    -- One step of one goroutine. `Done` on a counter of 0 is a panic.
    pub data Step : Phase A → Shared A → Phase A → Shared A → Type 0 where
      signal :
          {sh : Shared A}
          → Step serving sh
              (rejecting app.servers)
              (record sh { counter = sh.counter + length app.servers })
      reject :
          {sh : Shared A} {s : ℕ} {todo : List ℕ} {n : ℕ}
          → sh.counter ≡ suc n
          → Step
              (rejecting (s ∷ todo))
              sh
              (rejecting todo)
              (record sh { rejects = reject_req s sh.rejects; counter = n })
      reject_overdone :
          {sh : Shared A} {s : ℕ} {todo : List ℕ}
          → sh.counter ≡ 0
          → Step (rejecting (s ∷ todo)) sh (panicked (rejecting (s ∷ todo))) sh
      all_reject :
          {sh : Shared A}
          → sh.counter ≡ 0
          → Step
              (rejecting [])
              sh
              (stopping app.servers)
              (record sh { counter = length app.servers })
      spawn_stop :
          {sh : Shared A} {s : ℕ} {todo : List ℕ}
          → Step
              (stopping (s ∷ todo))
              sh
              (stopping todo)
              (record sh { stops = sh.stops ++ working s ∷ [] })
      stop_done :
          {p : Phase A} {sh : Shared A} {n : ℕ} (before after : List Stop) (s : ℕ)
          → is_alive p ≡ true
          → sh.stops ≡ before ++ working s ∷ after
          → sh.counter ≡ suc n
          → Step p sh p (record sh { stops = before ++ stopped s ∷ after; counter = n })
      stop_overdone :
          {p : Phase A} {sh : Shared A} (before after : List Stop) (s : ℕ)
          → is_alive p ≡ true
          → sh.stops ≡ before ++ working s ∷ after
          → sh.counter ≡ 0
          → Step p sh (panicked p) sh
      all_stopped :
          {sh : Shared A}
          → sh.counter ≡ 0
          → Step (stopping []) sh (calling app.cbs) (record sh { counter = length app.cbs })
      spawn_call :
          {sh : Shared A} {cb : A} {todo : List A}
          → Step
              (calling (cb ∷ todo))
              sh
              (calling todo)
              (record sh { loop = some cb; calls = sh.calls ++ spawned ∷ [] })
      call_runs :
          {p : Phase A} {sh : Shared A} (before after : List (Call A)) (cb : A)
          → is_alive p ≡ true
          → sh.calls ≡ before ++ spawned ∷ after
          → sh.loop ≡ some cb
          → Step p sh p (record sh { calls = before ++ running cb ∷ after })
      call_done :
          {p : Phase A} {sh : Shared A} {n : ℕ} (before after : List (Call A)) (cb : A)
          → is_alive p ≡ true
          → sh.calls ≡ before ++ running cb ∷ after
          → sh.counter ≡ suc n
          → Step p sh p (record sh { calls = before ++ returned cb ∷ after; counter = n })
      call_overdone :
          {p : Phase A} {sh : Shared A} (before after : List (Call A)) (cb : A)
          → is_alive p ≡ true
          → sh.calls ≡ before ++ running cb ∷ after
          → sh.counter ≡ 0
          → Step p sh (panicked p) sh
      all_called : {sh : Shared A} → sh.counter ≡ 0 → Step (calling []) sh closing sh
      close : {sh : Shared A} → Step closing sh closed sh
      second_signal :
          {p : Phase A} {sh : Shared A} → is_shutting_down p ≡ true → Step p sh (exited 1 p) sh
      timeout :
          {p : Phase A} {sh : Shared A} → is_shutting_down p ≡ true → Step p sh (exited 2 p) sh

    -- Any number of steps, the last one outermost.
    pub data Leads (p : Phase A) (sh : Shared A) : Phase A → Shared A → Type 0 where
      here : Leads p sh p sh
      stepped :
          {q r : Phase A} {sh' sh'' : Shared A}
          → Leads p sh q sh'
          → Step q sh' r sh''
          → Leads p sh r sh''

    -- What the program comes to from its start.
    abbrev pub Reachable : Phase A → Shared A → Type 0
    Reachable = Leads serving start
