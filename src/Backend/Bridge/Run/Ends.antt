-- ===== src/Backend/Bridge/Run/Ends.antt =====
-- When a run of src/backend/bridge.rs ends.
use vine.Base.{Bool, true, false, List, [], ◌∷◌, ◌++◌, Option, none, some, Text, ◌≡◌, ◌≢◌, refl}
use vine.Config.{BackendConfig}
use vine.Session.History
use vine.Backend.Bridge.{client_disconnected, connect_to, transfer_to, backend_disconnected}
use vine.Backend.Bridge.Login.{BackendBridge}
use vine.Backend.Bridge.Run.{
  Outside, State, show, Turn, TunnelResult, tunnel_exit, tunnel_error, Phase, bridging, step, go_on,
  on_exit, exit_of, on_disconnected, other_fallback, bridge_loop, join, finish, run,
}
use vine.Backend.Bridge.Run.Start.{run_cases}

-- The client leaves, or the backend is lost and there is no fallback server.
unfoldable pub IsLast : Option (Text × BackendConfig) → TunnelResult → Type 0
IsLast fallback (tunnel_exit client_disconnected) = Unit
IsLast fallback (tunnel_exit (transfer_to host port)) = Unit
IsLast fallback (tunnel_exit (connect_to name)) = ⊥
IsLast fallback (tunnel_exit (backend_disconnected reason)) = fallback ≡ none
IsLast fallback (tunnel_error e) = fallback ≡ none

module _ (o : Outside) (b : BackendBridge) where
  on_disconnected_ends :
      (st : State) (reason : Option Text)
      → b.fallback_server ≡ none
      → (on_exit o b st (backend_disconnected reason)).1 ≡ false
  unfolding on_exit on_disconnected other_fallback
  on_disconnected_ends st reason h = rw h refl

  step_ends :
      (st : State) (others : List History.Call) (result : TunnelResult)
      → IsLast b.fallback_server result
      → (step o b st (record { others = others; result = result })).1 ≡ false
  unfolding step on_exit exit_of IsLast
  step_ends st others (tunnel_exit client_disconnected) h = refl
  step_ends st others (tunnel_exit (transfer_to host port)) h = refl
  step_ends st others (tunnel_exit (connect_to name)) h = absurd h
  step_ends st others (tunnel_exit (backend_disconnected reason)) h =
      on_disconnected_ends (record st { sessions = History.run st.sessions others }) reason h
  step_ends st others (tunnel_error e) h =
      on_disconnected_ends (record st { sessions = History.run st.sessions others })
        (some (show o b e)) h

  go_on_stops :
      (r : State × Bool) (rest : State → State × Bool) → r.1 ≡ false → (go_on o b r rest).1 ≡ false
  unfolding go_on
  go_on_stops (st, true) rest h = cc
  go_on_stops (st, false) rest h = refl

  go_on_ends :
      (r : State × Bool) (rest : State → State × Bool)
      → ((st : State) → (rest st).1 ≡ false)
      → (go_on o b r rest).1 ≡ false
  unfolding go_on
  go_on_ends (st, true) rest h = h st
  go_on_ends (st, false) rest h = refl

  loop_ends :
      (before : List Turn) (turn : Turn) (rest : List Turn) (st : State)
      → IsLast b.fallback_server turn.result
      → (bridge_loop o b (before ++ turn ∷ rest) st).1 ≡ false
  unfolding bridge_loop
  loop_ends [] turn rest st h = go_on_stops _ _ (step_ends st turn.others turn.result h)
  loop_ends (t ∷ before) turn rest st h =
      go_on_ends (step o b st t) _ (λ s. loop_ends before turn rest s h)

  pub HasEnded : State × Phase → Type 0
  HasEnded (now, phase) = phase ≢ bridging

  finish-HasEnded : (r : State × Bool) → r.1 ≡ false → HasEnded (finish o b r)
  unfolding finish HasEnded
  finish-HasEnded (now, true) h = cc
  finish-HasEnded (now, false) h = λ e. cc

  -- A run of a bridge is over once the tunnel returns that the client has left or is to be
  -- transferred, or, where there is no fallback server, that the backend is lost, whatever came
  -- before.
  pub run_ends :
      (st : State) (before : List Turn) (turn : Turn) (rest : List Turn)
      → IsLast b.fallback_server turn.result
      → HasEnded (run o b st (before ++ turn ∷ rest))
  unfolding HasEnded
  run_ends st before turn rest h =
      run_cases o b HasEnded st (before ++ turn ∷ rest) (λ now e p q f. cc)
        (λ now p q linked. finish-HasEnded _ (loop_ends before turn rest (join o b now) h))
