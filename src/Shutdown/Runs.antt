-- ===== src/Shutdown/Runs.antt =====
-- The loops of a shutdown, each run to its end.
use myhomework.Common.{
  ℕ, zero, suc, ◌≡◌, ◌⊎◌, inl, inr, refl, sym, ap, ◌∙◌, List, [], ◌∷◌, ◌++◌, length, length-append,
  append-nil, append_assoc, replicate, true, Option, some, arith,
}
use myhomework.Shutdown.App.{
  App, Phase, rejecting, stopping, calling, Stop, working, stopped, Call, spawned, running,
  returned, Shared, is_alive, Step, signal, reject, reject_overdone, all_reject, spawn_stop,
  stop_done, stop_overdone, all_stopped, spawn_call, call_runs, call_done, call_overdone,
  all_called, close, second_signal, timeout, Leads, here, stepped,
}
use myhomework.Shutdown.Invariant.{busy_stops, busy_calls}

abbrev pub last_or : {A : Type 0} → Option A → List A → Option A
last_or loop [] = loop
last_or loop (cb ∷ cbs) = last_or (some cb) cbs

pub last_or-append :
    {A : Type 0} (loop : Option A) (cbs : List A) (cb : A) → last_or loop (cbs ++ cb ∷ []) ≡ some cb
last_or-append loop [] cb = refl
last_or-append loop (x ∷ cbs) cb = last_or-append (some x) cbs cb

module _ {A : Type 0} where
  -- The goroutines behind their callbacks, where those that have not begun run `cb`.
  abbrev pub finish_all : A → List (Call A) → List (Call A)
  finish_all cb [] = []
  finish_all cb (spawned ∷ calls) = returned cb ∷ finish_all cb calls
  finish_all cb (running c ∷ calls) = returned c ∷ finish_all cb calls
  finish_all cb (returned c ∷ calls) = returned c ∷ finish_all cb calls

  pub finish_all-replicate :
      (cb : A) (n : ℕ) → finish_all cb (replicate n spawned) ≡ replicate n (returned cb)
  finish_all-replicate cb zero = refl
  finish_all-replicate cb (suc n) = ap (◌∷◌ (returned cb)) (finish_all-replicate cb n)

  -- The loop's variable has been set before any goroutine reads it.
  abbrev pub IsReadable : Shared A → Type 0
  IsReadable sh = (sh.calls ≡ []) ⊎ ((cb : A) × sh.loop ≡ some cb)

  filled-IsReadable :
      (sh : Shared A) (before after : List (Call A)) (c : Call A)
      → sh.calls ≡ before ++ c ∷ after
      → IsReadable sh
      → (cb : A) × sh.loop ≡ some cb
  filled-IsReadable sh before after c e (inr set) = set
  filled-IsReadable sh before after c e (inl none_called) =
      absurd (omega (arith, ap length e, ap length none_called, length-append before (c ∷ after)))

  module _ {app : App A} where
    step-IsReadable :
        {p q : Phase A} {sh sh' : Shared A} → IsReadable sh → Step app p sh q sh' → IsReadable sh'
    step-IsReadable h (spawn_call {cb = cb}) = inr (cb, refl)
    step-IsReadable h (call_runs before after cb alive e l) = inr (cb, l)
    step-IsReadable {sh = sh} h (call_done before after cb alive e k) =
        inr (filled-IsReadable sh before after (running cb) e h)
    step-IsReadable h signal = h
    step-IsReadable h (reject k) = h
    step-IsReadable h (reject_overdone k) = h
    step-IsReadable h (all_reject k) = h
    step-IsReadable h spawn_stop = h
    step-IsReadable h (stop_done before after s alive e k) = h
    step-IsReadable h (stop_overdone before after s alive e k) = h
    step-IsReadable h (all_stopped k) = h
    step-IsReadable h (call_overdone before after cb alive e k) = h
    step-IsReadable h (all_called k) = h
    step-IsReadable h close = h
    step-IsReadable h (second_signal k) = h
    step-IsReadable h (timeout k) = h

    pub Leads-IsReadable :
        {p : Phase A} {sh : Shared A} {q : Phase A} {sh' : Shared A}
        → IsReadable sh
        → Leads app p sh q sh'
        → IsReadable sh'
    Leads-IsReadable h here = h
    Leads-IsReadable h (stepped l step) = step-IsReadable (Leads-IsReadable h l) step

module _ {A : Type 0} {app : App A} {p0 : Phase A} {sh0 : Shared A} where
  -- Every server is told to reject.
  pub run_rejects :
      (todo : List ℕ) {sh : Shared A}
      → Leads app p0 sh0 (rejecting todo) sh
      → sh.counter ≡ length todo
      → (end : Shared A) × Leads app p0 sh0 (rejecting []) end × (end.counter ≡ 0)
  run_rejects [] {sh} r h = (sh, r, h)
  run_rejects (s ∷ todo) r h = run_rejects todo (stepped r (reject h)) refl

  -- The goroutines that stop the servers are spawned.
  pub spawn_stops :
      (todo : List ℕ) {sh : Shared A}
      → Leads app p0 sh0 (stopping todo) sh
      → (end : Shared A) × Leads app p0 sh0 (stopping []) end
  spawn_stops [] {sh} r = (sh, r)
  spawn_stops (s ∷ todo) {sh} r = spawn_stops todo (stepped r spawn_stop)

  -- They stop the servers, one after the other.
  pub run_stops :
      (todo before : List Stop) {p : Phase A} {sh : Shared A}
      → Leads app p0 sh0 p sh
      → is_alive p ≡ true
      → sh.stops ≡ before ++ todo
      → sh.counter ≡ busy_stops todo
      → (end : Shared A) × Leads app p0 sh0 p end × (end.counter ≡ 0)
  unfolding busy_stops
  run_stops [] before {sh = sh} r alive e h = (sh, r, h)
  run_stops (stopped s ∷ todo) before r alive e h =
      run_stops todo (before ++ stopped s ∷ []) r alive
        (e ∙ sym (append_assoc before (stopped s ∷ []) todo)) h
  run_stops (working s ∷ todo) before r alive e h =
      run_stops todo (before ++ stopped s ∷ []) (stepped r (stop_done before todo s alive e h))
        alive (sym (append_assoc before (stopped s ∷ []) todo)) refl

  -- The goroutines that run the callbacks are spawned.
  pub spawn_calls :
      (todo : List A) {sh : Shared A}
      → Leads app p0 sh0 (calling todo) sh
      → (end : Shared A) × Leads app p0 sh0 (calling []) end
        × (end.loop ≡ last_or sh.loop todo)
        × (end.calls ≡ sh.calls ++ replicate (length todo) spawned)
  spawn_calls [] {sh} r = (sh, r, refl, sym (append-nil sh.calls))
  spawn_calls (cb ∷ todo) {sh} r =
      let (end, r', loop, calls) = spawn_calls todo (stepped r spawn_call) in
      let rest = replicate (length todo) spawned in
      (end, r', loop, calls ∙ append_assoc sh.calls (spawned ∷ []) rest)

  -- They run, one after the other.
  pub run_calls :
      (todo before : List (Call A)) (cb : A) {p : Phase A} {sh : Shared A}
      → Leads app p0 sh0 p sh
      → is_alive p ≡ true
      → sh.loop ≡ some cb
      → sh.calls ≡ before ++ todo
      → sh.counter ≡ busy_calls todo
      → (end : Shared A) × Leads app p0 sh0 p end
        × (end.counter ≡ 0)
        × (end.calls ≡ before ++ finish_all cb todo)
  unfolding busy_calls
  run_calls [] before cb {sh = sh} r alive l e h = (sh, r, h, e)
  run_calls (returned c ∷ todo) before cb r alive l e h =
      let (end, r', counter, calls) =
        run_calls todo (before ++ returned c ∷ []) cb r alive l
          (e ∙ sym (append_assoc before (returned c ∷ []) todo)) h in
      (end, r', counter, calls ∙ append_assoc before (returned c ∷ []) (finish_all cb todo))
  run_calls (running c ∷ todo) before cb r alive l e h =
      let (end, r', counter, calls) =
        run_calls todo (before ++ returned c ∷ []) cb
          (stepped r (call_done before todo c alive e h)) alive l
          (sym (append_assoc before (returned c ∷ []) todo)) refl in
      (end, r', counter, calls ∙ append_assoc before (returned c ∷ []) (finish_all cb todo))
  run_calls (spawned ∷ todo) before cb r alive l e h =
      let r' = stepped r (call_runs before todo cb alive e l) in
      let (end, r'', counter, calls) =
        run_calls todo (before ++ returned cb ∷ []) cb
          (stepped r' (call_done before todo cb alive refl h)) alive l
          (sym (append_assoc before (returned cb ∷ []) todo)) refl in
      (end, r'', counter, calls ∙ append_assoc before (returned cb ∷ []) (finish_all cb todo))
