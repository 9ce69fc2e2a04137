-- ===== src/Shutdown/Order.antt =====
-- The order in which an application shuts down, whatever the order of its goroutines' steps.
use myhomework.Common.{
  ℕ, ◌+◌, ◌≡◌, ◌≢◌, refl, sym, ap, ◌∙◌, subst, List, [], ◌∷◌, ◌++◌, length, append-nil, All, Bool,
  true, arith,
}
use myhomework.Shutdown.App.{
  App, Phase, serving, rejecting, stopping, closed, panicked, exited, Shared, serve_http, Reachable,
  here, stepped, Leads,
}
use myhomework.Shutdown.Invariant.{
  busy_stops, busy_calls, due_rejects, due_stops, due_calls, behind_stops, behind_calls, IsSound,
}
use myhomework.Shutdown.Steps.{start-IsSound, step-IsSound, Step-panicked}

-- A list that has not grown.
pub ungrown : {B : Type 0} (xs : List B) {m n : ℕ} → m ≡ n → length xs + m ≡ n → xs ≡ []
ungrown [] e k = refl
ungrown (x ∷ xs) e k = absurd (omega (arith, e, k))

served :
    {Req Resp : Type 0} (unavailable : Resp) (mux : Req → Resp) (rejects : ℕ → Bool)
    (servers : List ℕ)
    → All (λ s. rejects s ≡ true) servers
    → All (λ s. (r : Req) → serve_http unavailable mux rejects s r ≡ unavailable) servers
unfolding serve_http
served unavailable mux rejects [] h = tt
served unavailable mux rejects (s ∷ servers) (h, hs) =
    (λ r. rw h, served unavailable mux rejects servers hs)

module _ {A : Type 0} (app : App A) where
  pub Leads-IsSound :
      {p : Phase A} {sh : Shared A} {q : Phase A} {sh' : Shared A}
      → IsSound app p sh
      → Leads app p sh q sh'
      → IsSound app q sh'
  Leads-IsSound sound here = sound
  Leads-IsSound sound (stepped l step) = step-IsSound (Leads-IsSound sound l) step

  pub Reachable-IsSound : {p : Phase A} {sh : Shared A} → Reachable app p sh → IsSound app p sh
  Reachable-IsSound r = Leads-IsSound start-IsSound r

  -- Every server rejects.
  abbrev pub RejectAll : Shared A → Type 0
  RejectAll sh = All (λ s. sh.rejects s ≡ true) app.servers

  -- As many goroutines as there are servers have each stopped one.
  abbrev pub StoppedAll : Shared A → Type 0
  StoppedAll sh = (length sh.stops ≡ length app.servers) × (busy_stops sh.stops ≡ 0)

  -- As many goroutines as there are callbacks have each come back from one.
  abbrev pub ReturnedAll : Shared A → Type 0
  ReturnedAll sh = (length sh.calls ≡ length app.cbs) × (busy_calls sh.calls ≡ 0)

  IsSound-RejectAll :
      (p : Phase A) (sh : Shared A) → IsSound app p sh → due_rejects app p ≡ [] → RejectAll sh
  IsSound-RejectAll p sh sound none_due =
      let some_reject = sound.rejects in
      let whole : app.servers ≡ some_reject.past =
        some_reject.split ∙ ap (◌++◌ some_reject.past) none_due ∙ append-nil some_reject.past in
      subst (All (λ s. sh.rejects s ≡ true)) (sym whole) some_reject.rejected

  -- What a phase has behind it, once goroutines have been spawned.
  stop_phase : (p : Phase A) → due_stops app p ≢ length app.servers → due_rejects app p ≡ []
  unfolding due_stops due_rejects
  stop_phase serving h = absurd (h refl)
  stop_phase (rejecting todo) h = absurd (h refl)
  stop_phase (panicked p) h = stop_phase p h
  stop_phase (exited code p) h = stop_phase p h
  stop_phase _ h = refl

  call_phase :
      (p : Phase A)
      → due_calls app p ≢ length app.cbs
      → (due_rejects app p ≡ []) × (due_stops app p ≡ 0) × (behind_stops p ≡ true)
  unfolding due_calls due_stops due_rejects behind_stops
  call_phase serving h = absurd (h refl)
  call_phase (rejecting todo) h = absurd (h refl)
  call_phase (stopping todo) h = absurd (h refl)
  call_phase (panicked p) h = call_phase p h
  call_phase (exited code p) h = call_phase p h
  call_phase _ h = (refl, refl, refl)

  -- Whatever the order of the steps, once a goroutine that stops a server exists, every server rejects.
  pub stops-RejectAll :
      {p : Phase A} {sh : Shared A} → Reachable app p sh → sh.stops ≢ [] → RejectAll sh
  stops-RejectAll {p} {sh} r h =
      let sound = Reachable-IsSound r in
      IsSound-RejectAll p sh sound (stop_phase p (λ e. h (ungrown sh.stops e sound.stops_spawned)))

  -- Whatever the order of the steps, once a goroutine that runs a callback exists, every server
  -- rejects, and as many goroutines as there are servers have each stopped one.
  pub calls-StoppedAll :
      {p : Phase A} {sh : Shared A}
      → Reachable app p sh
      → sh.calls ≢ []
      → RejectAll sh × StoppedAll sh
  calls-StoppedAll {p} {sh} r h =
      let sound = Reachable-IsSound r in
      let (no_rejects, no_stops, behind) =
        call_phase p (λ e. h (ungrown sh.calls e sound.calls_spawned)) in
      (
        IsSound-RejectAll p sh sound no_rejects,
        (omega (arith, sound.stops_spawned, no_stops), sound.all_stopped behind),
      )

  -- Whatever the order of the steps, when the shutdown is over, every server rejects, so that each
  -- request to it gets the reply for an unavailable server; as many goroutines as there are servers
  -- have each stopped one; and as many as there are callbacks have each come back from one.
  pub closed-ReturnedAll :
      {Req Resp : Type 0} (unavailable : Resp) (mux : Req → Resp) {sh : Shared A}
      → Reachable app closed sh
      → (All (λ s. (r : Req) → serve_http unavailable mux sh.rejects s r ≡ unavailable) app.servers)
        × StoppedAll sh
        × ReturnedAll sh
  unfolding due_rejects due_stops due_calls behind_stops behind_calls
  closed-ReturnedAll unavailable mux {sh} r =
      let sound = Reachable-IsSound r in
      (
        served unavailable mux sh.rejects app.servers (IsSound-RejectAll closed sh sound refl),
        (omega (arith, sound.stops_spawned), sound.all_stopped refl),
        (omega (arith, sound.calls_spawned), sound.all_returned refl),
      )

  -- Whatever the order of the steps, `Done` is never called on a counter of 0: no panic.
  pub Reachable-ne-panicked : {p : Phase A} {sh : Shared A} → ¬ (Reachable app (panicked p) sh)
  Reachable-ne-panicked (stepped r step) = Step-panicked (Reachable-IsSound r) step
