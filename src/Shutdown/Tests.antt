-- ===== src/Shutdown/Tests.antt =====
-- Shutdowns of a small application, step by step.
use myhomework.Common.{ℕ, ◌≡◌, refl, [], ◌∷◌, Bool, false, some, All}
use myhomework.Shutdown.App.{
  App, stopping, calling, closed, panicked, Shared, working, stopped, spawned, returned, serve_http,
  new_app, with_shutdown_callbacks, start, signal, reject, all_reject, spawn_stop, stop_done,
  all_stopped, spawn_call, call_runs, call_done, all_called, close, reject_req, Leads, Reachable,
  here, stepped,
}
use myhomework.Shutdown.Order.{StoppedAll, ReturnedAll, closed-ReturnedAll, Reachable-ne-panicked}
use myhomework.Shutdown.Ends.{closed-last, Leads-closed}

-- One server and one callback.
abbrev small : App ℕ
small = record {
  servers = 1 ∷ [];
  shutdown_timeout = 30;
  wait_time = 10;
  cb_timeout = 13;
  cbs = 5 ∷ [];
}

new_app_test :
    (new_app {A = ℕ} (1 ∷ 2 ∷ []) (with_shutdown_callbacks (5 ∷ 6 ∷ []) ∷ [])).cbs ≡ 5 ∷ 6 ∷ []
unfolding new_app with_shutdown_callbacks
new_app_test = refl

abbrev rejecting_one : ℕ → Bool
rejecting_one = reject_req 1 (λ s. false)

abbrev spawned_stop : Shared ℕ
spawned_stop = record start { rejects = rejecting_one; counter = 1; stops = working 1 ∷ [] }

abbrev spawned_call : Shared ℕ
spawned_call = record start {
  rejects = rejecting_one;
  counter = 1;
  stops = stopped 1 ∷ [];
  loop = some 5;
  calls = spawned ∷ [];
}

abbrev over : Shared ℕ
over = record spawned_call { counter = 0; calls = returned 5 ∷ [] }

to_spawned_stop : Reachable small (stopping []) spawned_stop
to_spawned_stop =
    stepped (stepped (stepped (stepped here signal) (reject refl)) (all_reject refl)) spawn_stop

to_spawned_call : Reachable small (calling []) spawned_call
to_spawned_call =
    stepped
      (stepped (stepped to_spawned_stop (stop_done [] [] 1 refl refl refl)) (all_stopped refl))
      spawn_call

to_over : Reachable small closed over
to_over =
    stepped
      (stepped
        (stepped (stepped to_spawned_call (call_runs [] [] 5 refl refl refl))
          (call_done [] [] 5 refl refl refl))
        (all_called refl))
      close

abbrev unavailable : ℕ
unavailable = 503

abbrev mux : ℕ → ℕ
mux r = 200

closed-ReturnedAll_example :
    (All (λ s. (r : ℕ) → serve_http unavailable mux rejecting_one s r ≡ unavailable) (1 ∷ []))
    × StoppedAll small over
    × ReturnedAll small over
closed-ReturnedAll_example = closed-ReturnedAll small unavailable mux to_over

Reachable-ne-panicked_example : ¬ (Reachable small (panicked closed) over)
Reachable-ne-panicked_example = Reachable-ne-panicked small {p = closed} {sh = over}

closed-last_example :
    (sh : Shared ℕ) × Reachable (record small { cbs = 5 ∷ 6 ∷ [] }) closed sh
    × (sh.calls ≡ returned 6 ∷ returned 6 ∷ [])
closed-last_example = closed-last (record small { cbs = 5 ∷ 6 ∷ [] }) (5 ∷ []) 6 refl

Leads-closed_example : (end : Shared ℕ) × Leads small (stopping []) spawned_stop closed end
Leads-closed_example = Leads-closed small to_spawned_stop refl
