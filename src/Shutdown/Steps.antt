-- ===== src/Shutdown/Steps.antt =====
-- Every step of the shutdown keeps its invariant.
use myhomework.Common.{
  ℕ, suc, ◌+◌, ◌≡◌, refl, sym, ap, ◌∙◌, List, [], ◌∷◌, ◌++◌, length, append_assoc, All, Bool, true,
  some, arith,
}
use myhomework.Shutdown.App.{
  App, Phase, serving, rejecting, stopping, calling, closing, closed, panicked, exited, Stop,
  working, stopped, Call, spawned, running, returned, Shared, reject_req, start, Step, signal,
  reject, reject_overdone, all_reject, spawn_stop, stop_done, stop_overdone, all_stopped,
  spawn_call, call_runs, call_done, call_overdone, all_called, close, second_signal, timeout,
}
use myhomework.Shutdown.Invariant.{
  busy_stops, busy_calls, busy_stops-append, busy_calls-append, busy_stops-done, busy_calls-done,
  busy_calls-runs, length-replaced, length-added, due, due_rejects, due_stops, due_calls,
  behind_stops, behind_calls, RejectSome, IsSound,
}

-- A flag that is set stays set.
reject_req_mono : (s x : ℕ) (rejects : ℕ → Bool) → rejects x ≡ true → reject_req s rejects x ≡ true
unfolding reject_req
reject_req_mono s x rejects h = ground arith

reject_req_self : (s : ℕ) (rejects : ℕ → Bool) → reject_req s rejects s ≡ true
unfolding reject_req
reject_req_self s rejects = ground arith

All-reject_req :
    (s : ℕ) (rejects : ℕ → Bool) (past : List ℕ)
    → All (λ x. rejects x ≡ true) past
    → All (λ x. reject_req s rejects x ≡ true) (past ++ s ∷ [])
All-reject_req s rejects [] h = (reject_req_self s rejects, tt)
All-reject_req s rejects (x ∷ past) (h, hs) =
    (reject_req_mono s x rejects h, All-reject_req s rejects past hs)

RejectSome-reject_req :
    {servers todo : List ℕ} {s : ℕ} {rejects : ℕ → Bool}
    → RejectSome servers (s ∷ todo) rejects
    → RejectSome servers todo (reject_req s rejects)
RejectSome-reject_req {todo = todo} {s} {rejects} some_reject = record {
  past = some_reject.past ++ s ∷ [];
  split = some_reject.split ∙ sym (append_assoc some_reject.past (s ∷ []) todo);
  rejected = All-reject_req s rejects some_reject.past some_reject.rejected;
}

module _ {A : Type 0} {app : App A} where
  pub start-IsSound : IsSound app serving start
  unfolding busy_stops busy_calls due due_rejects due_stops due_calls behind_stops behind_calls
  start-IsSound = record {
    counted = refl;
    rejects = record { past = []; split = refl; rejected = tt };
    stops_spawned = omega arith;
    calls_spawned = omega arith;
    all_stopped = λ b. refl;
    all_returned = λ b. refl;
  }

  signal-IsSound :
      {sh : Shared A}
      → IsSound app serving sh
      → IsSound app
          (rejecting app.servers)
          (record sh { counter = sh.counter + length app.servers })
  unfolding due due_rejects due_stops due_calls behind_stops behind_calls
  signal-IsSound {sh} sound = record {
    counted = omega (arith, sound.counted);
    rejects = sound.rejects;
    stops_spawned = sound.stops_spawned;
    calls_spawned = sound.calls_spawned;
    all_stopped = sound.all_stopped;
    all_returned = sound.all_returned;
  }

  reject-IsSound :
      {sh : Shared A} {s : ℕ} {todo : List ℕ} {n : ℕ}
      → IsSound app (rejecting (s ∷ todo)) sh
      → sh.counter ≡ suc n
      → IsSound app (rejecting todo) (record sh { rejects = reject_req s sh.rejects; counter = n })
  unfolding due due_rejects due_stops due_calls behind_stops behind_calls
  reject-IsSound sound h = record {
    counted = omega (arith, sound.counted, h);
    rejects = RejectSome-reject_req sound.rejects;
    stops_spawned = sound.stops_spawned;
    calls_spawned = sound.calls_spawned;
    all_stopped = sound.all_stopped;
    all_returned = sound.all_returned;
  }

  all_reject-IsSound :
      {sh : Shared A}
      → IsSound app (rejecting []) sh
      → sh.counter ≡ 0
      → IsSound app (stopping app.servers) (record sh { counter = length app.servers })
  unfolding due due_rejects due_stops due_calls behind_stops behind_calls
  all_reject-IsSound sound h = record {
    counted = omega (arith, sound.counted, h);
    rejects = sound.rejects;
    stops_spawned = sound.stops_spawned;
    calls_spawned = sound.calls_spawned;
    all_stopped = sound.all_stopped;
    all_returned = sound.all_returned;
  }

  spawn_stop-IsSound :
      {sh : Shared A} {s : ℕ} {todo : List ℕ}
      → IsSound app (stopping (s ∷ todo)) sh
      → IsSound app (stopping todo) (record sh { stops = sh.stops ++ working s ∷ [] })
  unfolding busy_stops due due_rejects due_stops due_calls behind_stops behind_calls
  spawn_stop-IsSound {sh} {s} sound = record {
    counted = omega (arith, sound.counted, busy_stops-append sh.stops (working s ∷ []));
    rejects = sound.rejects;
    stops_spawned = omega (arith, sound.stops_spawned, length-added sh.stops (working s));
    calls_spawned = sound.calls_spawned;
    all_stopped = λ b. cc b;
    all_returned = sound.all_returned;
  }

  stop_done-IsSound :
      {p : Phase A} {sh : Shared A} {n : ℕ} (before after : List Stop) (s : ℕ)
      → IsSound app p sh
      → sh.stops ≡ before ++ working s ∷ after
      → sh.counter ≡ suc n
      → IsSound app p (record sh { stops = before ++ stopped s ∷ after; counter = n })
  stop_done-IsSound {sh = sh} before after s sound e h =
      let fewer : busy_stops sh.stops ≡ suc (busy_stops (before ++ stopped s ∷ after)) =
        ap busy_stops e ∙ busy_stops-done before after s in
      let same : length sh.stops ≡ length (before ++ stopped s ∷ after) =
        ap length e ∙ length-replaced before after (working s) (stopped s) in
      record {
        counted = omega (arith, sound.counted, fewer, h);
        rejects = sound.rejects;
        stops_spawned = omega (arith, sound.stops_spawned, same);
        calls_spawned = sound.calls_spawned;
        all_stopped = λ b. omega (arith, sound.all_stopped b, fewer);
        all_returned = sound.all_returned;
      }

  all_stopped-IsSound :
      {sh : Shared A}
      → IsSound app (stopping []) sh
      → sh.counter ≡ 0
      → IsSound app (calling app.cbs) (record sh { counter = length app.cbs })
  unfolding due due_rejects due_stops due_calls behind_stops behind_calls
  all_stopped-IsSound sound h = record {
    counted = omega (arith, sound.counted, h);
    rejects = sound.rejects;
    stops_spawned = sound.stops_spawned;
    calls_spawned = sound.calls_spawned;
    all_stopped = λ b. omega (arith, sound.counted, h);
    all_returned = λ b. cc b;
  }

  spawn_call-IsSound :
      {sh : Shared A} {cb : A} {todo : List A}
      → IsSound app (calling (cb ∷ todo)) sh
      → IsSound app (calling todo) (record sh { loop = some cb; calls = sh.calls ++ spawned ∷ [] })
  unfolding busy_calls due due_rejects due_stops due_calls behind_stops behind_calls
  spawn_call-IsSound {sh} sound = record {
    counted = omega (arith, sound.counted, busy_calls-append sh.calls (spawned ∷ []));
    rejects = sound.rejects;
    stops_spawned = sound.stops_spawned;
    calls_spawned = omega (arith, sound.calls_spawned, length-added sh.calls spawned);
    all_stopped = sound.all_stopped;
    all_returned = λ b. cc b;
  }

  call_runs-IsSound :
      {p : Phase A} {sh : Shared A} (before after : List (Call A)) (cb : A)
      → IsSound app p sh
      → sh.calls ≡ before ++ spawned ∷ after
      → IsSound app p (record sh { calls = before ++ running cb ∷ after })
  call_runs-IsSound {sh = sh} before after cb sound e =
      let busy : busy_calls sh.calls ≡ busy_calls (before ++ running cb ∷ after) =
        ap busy_calls e ∙ busy_calls-runs before after cb in
      let same : length sh.calls ≡ length (before ++ running cb ∷ after) =
        ap length e ∙ length-replaced before after spawned (running cb) in
      record {
        counted = omega (arith, sound.counted, busy);
        rejects = sound.rejects;
        stops_spawned = sound.stops_spawned;
        calls_spawned = omega (arith, sound.calls_spawned, same);
        all_stopped = sound.all_stopped;
        all_returned = λ b. omega (arith, sound.all_returned b, busy);
      }

  call_done-IsSound :
      {p : Phase A} {sh : Shared A} {n : ℕ} (before after : List (Call A)) (cb : A)
      → IsSound app p sh
      → sh.calls ≡ before ++ running cb ∷ after
      → sh.counter ≡ suc n
      → IsSound app p (record sh { calls = before ++ returned cb ∷ after; counter = n })
  call_done-IsSound {sh = sh} before after cb sound e h =
      let fewer : busy_calls sh.calls ≡ suc (busy_calls (before ++ returned cb ∷ after)) =
        ap busy_calls e ∙ busy_calls-done before after cb in
      let same : length sh.calls ≡ length (before ++ returned cb ∷ after) =
        ap length e ∙ length-replaced before after (running cb) (returned cb) in
      record {
        counted = omega (arith, sound.counted, fewer, h);
        rejects = sound.rejects;
        stops_spawned = sound.stops_spawned;
        calls_spawned = omega (arith, sound.calls_spawned, same);
        all_stopped = sound.all_stopped;
        all_returned = λ b. omega (arith, sound.all_returned b, fewer);
      }

  all_called-IsSound :
      {sh : Shared A} → IsSound app (calling []) sh → sh.counter ≡ 0 → IsSound app closing sh
  unfolding due due_rejects due_stops due_calls behind_stops behind_calls
  all_called-IsSound sound h = record {
    counted = sound.counted;
    rejects = sound.rejects;
    stops_spawned = sound.stops_spawned;
    calls_spawned = sound.calls_spawned;
    all_stopped = sound.all_stopped;
    all_returned = λ b. omega (arith, sound.counted, h);
  }

  close-IsSound : {sh : Shared A} → IsSound app closing sh → IsSound app closed sh
  unfolding due due_rejects due_stops due_calls behind_stops behind_calls
  close-IsSound sound = record {
    counted = sound.counted;
    rejects = sound.rejects;
    stops_spawned = sound.stops_spawned;
    calls_spawned = sound.calls_spawned;
    all_stopped = sound.all_stopped;
    all_returned = sound.all_returned;
  }

  exited-IsSound :
      {p : Phase A} {sh : Shared A} (code : ℕ) → IsSound app p sh → IsSound app (exited code p) sh
  unfolding due due_rejects due_stops due_calls behind_stops behind_calls
  exited-IsSound code sound = record {
    counted = sound.counted;
    rejects = sound.rejects;
    stops_spawned = sound.stops_spawned;
    calls_spawned = sound.calls_spawned;
    all_stopped = sound.all_stopped;
    all_returned = sound.all_returned;
  }

  -- No step of a sound state finds a counter that is 0 too early.
  pub Step-panicked :
      {p q : Phase A} {sh sh' : Shared A} → IsSound app p sh → Step app p sh (panicked q) sh' → ⊥
  unfolding due
  Step-panicked sound (reject_overdone h) = omega (arith, sound.counted, h)
  Step-panicked sound (stop_overdone before after s alive e h) =
      omega (arith, sound.counted, h, ap busy_stops e, busy_stops-done before after s)
  Step-panicked sound (call_overdone before after cb alive e h) =
      omega (arith, sound.counted, h, ap busy_calls e, busy_calls-done before after cb)
  Step-panicked sound (stop_done before after s alive e h) = cc alive
  Step-panicked sound (call_runs before after cb alive e h) = cc alive
  Step-panicked sound (call_done before after cb alive e h) = cc alive

  pub step-IsSound :
      {p q : Phase A} {sh sh' : Shared A}
      → IsSound app p sh
      → Step app p sh q sh'
      → IsSound app q sh'
  step-IsSound sound signal = signal-IsSound sound
  step-IsSound sound (reject h) = reject-IsSound sound h
  step-IsSound sound (reject_overdone h) = absurd (Step-panicked sound (reject_overdone h))
  step-IsSound sound (all_reject h) = all_reject-IsSound sound h
  step-IsSound sound spawn_stop = spawn_stop-IsSound sound
  step-IsSound sound (stop_done before after s alive e h) =
      stop_done-IsSound before after s sound e h
  step-IsSound sound (stop_overdone before after s alive e h) =
      absurd (Step-panicked sound (stop_overdone before after s alive e h))
  step-IsSound sound (all_stopped h) = all_stopped-IsSound sound h
  step-IsSound sound spawn_call = spawn_call-IsSound sound
  step-IsSound sound (call_runs before after cb alive e h) =
      call_runs-IsSound before after cb sound e
  step-IsSound sound (call_done before after cb alive e h) =
      call_done-IsSound before after cb sound e h
  step-IsSound sound (call_overdone before after cb alive e h) =
      absurd (Step-panicked sound (call_overdone before after cb alive e h))
  step-IsSound sound (all_called h) = all_called-IsSound sound h
  step-IsSound sound close = close-IsSound sound
  step-IsSound sound (second_signal h) = exited-IsSound 1 sound
  step-IsSound sound (timeout h) = exited-IsSound 2 sound
