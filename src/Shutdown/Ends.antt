-- ===== src/Shutdown/Ends.antt =====
-- A shutdown can always be brought to its end.
use myhomework.Common.{
  ℕ, ◌≡◌, inl, inr, refl, ap, ◌∙◌, List, [], ◌∷◌, ◌++◌, length, replicate, true, some, arith,
}
use myhomework.Shutdown.App.{
  App, Phase, serving, rejecting, stopping, calling, closing, closed, panicked, exited, spawned,
  returned, Shared, is_alive, signal, all_reject, all_stopped, all_called, close, Leads, here,
  stepped, Reachable,
}
use myhomework.Shutdown.Invariant.{
  busy_stops, busy_calls, due, due_stops, due_calls, behind_stops, IsSound,
}
use myhomework.Shutdown.Order.{ungrown, Leads-IsSound, Reachable-IsSound}
use myhomework.Shutdown.Runs.{
  last_or, last_or-append, finish_all-replicate, IsReadable, Leads-IsReadable, run_rejects,
  spawn_stops, run_stops, spawn_calls, run_calls,
}

module _ {A : Type 0} (app : App A) where
  -- The goroutines that a sound state before the callbacks has.
  calling-calls : (sh : Shared A) → IsSound app (calling app.cbs) sh → sh.calls ≡ []
  unfolding due_calls
  calling-calls sh sound = ungrown sh.calls refl sound.calls_spawned

  rejecting-counter :
      (todo : List ℕ) (sh : Shared A) → IsSound app (rejecting todo) sh → sh.counter ≡ length todo
  unfolding due due_stops due_calls busy_stops busy_calls
  rejecting-counter todo sh sound =
      let no_stops = ap busy_stops (ungrown sh.stops refl sound.stops_spawned) in
      let no_calls = ap busy_calls (ungrown sh.calls refl sound.calls_spawned) in
      omega (arith, sound.counted, no_stops, no_calls)

  stopping-counter :
      (sh : Shared A) → IsSound app (stopping []) sh → sh.counter ≡ busy_stops sh.stops
  unfolding due due_calls busy_calls
  stopping-counter sh sound =
      let no_calls = ap busy_calls (ungrown sh.calls refl sound.calls_spawned) in
      omega (arith, sound.counted, no_calls)

  calling-counter : (sh : Shared A) → IsSound app (calling []) sh → sh.counter ≡ busy_calls sh.calls
  unfolding due behind_stops
  calling-counter sh sound = omega (arith, sound.counted, sound.all_stopped refl)

  module _ {p0 : Phase A} {sh0 : Shared A} (sound : IsSound app p0 sh0)
      (readable : IsReadable sh0) where
    -- The loop over the callbacks comes to its end.
    end_calls :
        {sh : Shared A}
        → Leads app p0 sh0 (calling []) sh
        → (end : Shared A) × Leads app p0 sh0 (calling []) end × (end.counter ≡ 0)
    unfolding busy_calls
    end_calls {sh} r =
        let counter = calling-counter sh (Leads-IsSound app sound r) in
        elim (Leads-IsReadable readable r) [
          | inl none_called ↦ (sh, r, counter ∙ ap busy_calls none_called)
          | inr (cb, l) ↦
              let (end, r', c, calls) = run_calls sh.calls [] cb r refl l refl counter in
              (end, r', c)
        ]

    from_calling :
        (todo : List A) {sh : Shared A}
        → Leads app p0 sh0 (calling todo) sh
        → (end : Shared A) × Leads app p0 sh0 closed end
    from_calling todo r =
        let (sh1, r1, loop1, calls1) = spawn_calls todo r in
        let (sh2, r2, c2) = end_calls r1 in (sh2, stepped (stepped r2 (all_called c2)) close)

    to_calling :
        (todo : List ℕ) {sh : Shared A}
        → Leads app p0 sh0 (stopping todo) sh
        → (end : Shared A) × Leads app p0 sh0 (calling app.cbs) end
    to_calling todo r =
        let (sh1, r1) = spawn_stops todo r in
        let counter = stopping-counter sh1 (Leads-IsSound app sound r1) in
        let (sh2, r2, c2) = run_stops sh1.stops [] r1 refl refl counter in
        (_, stepped r2 (all_stopped c2))

    to_stopping :
        (todo : List ℕ) {sh : Shared A}
        → Leads app p0 sh0 (rejecting todo) sh
        → (end : Shared A) × Leads app p0 sh0 (stopping app.servers) end
    to_stopping todo {sh} r =
        let counter = rejecting-counter todo sh (Leads-IsSound app sound r) in
        let (sh1, r1, c1) = run_rejects todo r counter in (_, stepped r1 (all_reject c1))

    from_stopping :
        (todo : List ℕ) {sh : Shared A}
        → Leads app p0 sh0 (stopping todo) sh
        → (end : Shared A) × Leads app p0 sh0 closed end
    from_stopping todo r = from_calling app.cbs (to_calling todo r).1

    from_rejecting :
        (todo : List ℕ) {sh : Shared A}
        → Leads app p0 sh0 (rejecting todo) sh
        → (end : Shared A) × Leads app p0 sh0 closed end
    from_rejecting todo r = from_stopping app.servers (to_stopping todo r).1

    from_alive :
        (p : Phase A) {sh : Shared A}
        → Leads app p0 sh0 p sh
        → is_alive p ≡ true
        → (end : Shared A) × Leads app p0 sh0 closed end
    from_alive serving r alive = from_rejecting app.servers (stepped r signal)
    from_alive (rejecting todo) r alive = from_rejecting todo r
    from_alive (stopping todo) r alive = from_stopping todo r
    from_alive (calling todo) r alive = from_calling todo r
    from_alive closing {sh} r alive = (sh, stepped r close)
    from_alive closed {sh} r alive = (sh, r)
    from_alive (panicked p) r alive = cc alive
    from_alive (exited code p) r alive = cc alive

  -- From every state that the program can be in, unless it has called `os.Exit`, there are steps to the
  -- end of the shutdown: no `Wait` waits for a `Done` that cannot come.
  pub Leads-closed :
      {p : Phase A} {sh : Shared A}
      → Reachable app p sh
      → is_alive p ≡ true
      → (end : Shared A) × Leads app p sh closed end
  Leads-closed {p} r alive =
      from_alive (Reachable-IsSound app r) (Leads-IsReadable (inl refl) r) p here alive

  -- Where there are callbacks, there is a shutdown that comes to its end, and in which each of the
  -- goroutines for the callbacks has run the callback that is last in the list.
  pub closed-last :
      (others : List A) (cb : A)
      → app.cbs ≡ others ++ cb ∷ []
      → (sh : Shared A) × Reachable app closed sh
        × (sh.calls ≡ replicate (length app.cbs) (returned cb))
  closed-last others cb whole =
      let sound = Reachable-IsSound app here in
      let stopping_all = to_stopping sound (inl refl) app.servers (stepped here signal) in
      let (sh1, r1) = to_calling sound (inl refl) app.servers stopping_all.1 in
      let (sh2, r2, loop2, calls2) = spawn_calls app.cbs r1 in
      let last : sh2.loop ≡ some cb =
        loop2 ∙ ap (last_or sh1.loop) whole ∙ last_or-append sh1.loop others cb in
      let spawned_all : sh2.calls ≡ replicate (length app.cbs) spawned =
        calls2
        ∙ ap (λ l. l ++ replicate (length app.cbs) spawned)
            (calling-calls sh1 (Leads-IsSound app sound r1)) in
      let counter = calling-counter sh2 (Leads-IsSound app sound r2) in
      let (sh3, r3, c3, calls3) =
        run_calls (replicate (length app.cbs) spawned) [] cb r2 refl last spawned_all
          (counter ∙ ap busy_calls spawned_all) in
      (
        sh3,
        stepped (stepped r3 (all_called c3)) close,
        calls3 ∙ finish_all-replicate cb (length app.cbs),
      )
