-- ===== src/Backend/Bridge/Run/Rounds.antt =====
-- What a round of the loop of src/backend/bridge.rs may do to the state, step by step.
use vine.Base.{
  ℕ, suc, Bool, true, false, List, [], ◌∷◌, Option, none, some, Text, text_key, lookup, All,
  Bool-cases, ◌≡◌, ◌⊎◌, refl, sym, arith, inl, inr,
}
use vine.Config.{BackendConfig}
use vine.Session.History.{Call}
use vine.Session.History
use vine.Plugin.Fire
use vine.Backend.Bridge.{
  BridgeError, TunnelExit, client_disconnected, connect_to, transfer_to, backend_disconnected,
}
use vine.Backend.Bridge.Login.{
  BackendBridge, LoginState, Logged, logged_in, login_failed, login_backend,
}
use vine.Backend.Bridge.Run.{
  Outside, State, ToClient, Turn, tell, connect_event, fire_connected, try_login, count_login,
  reconfigure, moved_to, switched, fell_back, fall_back, after_failure, switch_result, switch_to,
  switch_unless, on_connect, on_disconnected, on_exit, exit_of, step, go_on, bridge_loop,
  other_fallback,
}

-- The configuration that a server is logged in to with: its own, the fallback's, the router's, or
-- the router's for a name that a plugin chose and that no server has.
unfoldable pub Configured : BackendBridge → Text → BackendConfig → Type 0
Configured b name cfg =
    (lookup b.proxy_config.servers name ≡ some cfg)
    ⊎ (b.fallback_server ≡ some (name, cfg))
    ⊎ ((name ≡ b.server_name) × (cfg ≡ b.config))
    ⊎ ((lookup b.proxy_config.servers name ≡ none) × (cfg ≡ b.config))

pub other_fallback-some :
    (name : Text) (fallback : Option (Text × BackendConfig)) (x : Text × BackendConfig)
    → other_fallback fallback name ≡ some x
    → fallback ≡ some x
unfolding other_fallback
other_fallback-some name none x h = cc
other_fallback-some name (some (n, cfg)) x h = ground arith

module _ (o : Outside) (b : BackendBridge) where
  unfoldable pub login_at : ℕ → Text → BackendConfig → LoginState × Logged
  login_at k name cfg =
      login_backend o.codec o.protocol b cfg (o.clock k) name (o.dial k cfg.address)

  -- A property that each thing the loop does to the state keeps, the other connections in a turn
  -- that is `Near` included.
  pub record Stable (Near : Turn → Type 0) (P : State → Type 0) : Type 0 where
    pub told : (st : State) (packets : List ToClient) → P st → P (record st { told = packets })
    pub called : (st : State) (calls : List Fire.Call) → P st → P (record st { calls = calls })
    pub counted : (st : State) → P st → P (record st { logins = suc st.logins })
    pub moved :
        (st : State) (k : ℕ) (name : Text) (cfg : BackendConfig) (link : LoginState) (bytes : Text)
        → suc k ≡ st.logins
        → Configured b name cfg
        → login_at k name cfg ≡ (link, logged_in bytes)
        → P st
        → P (moved_to o b st name link)
    pub others :
        (st : State) (turn : Turn)
        → Near turn
        → P st
        → P (record st { sessions = History.run st.sessions turn.others })

  module _ (Near : Turn → Type 0) (P : State → Type 0) (stable : Stable Near P) where
    pub tell_keeps : (st : State) (packet : ToClient) → P st → P (tell o b st packet)
    unfolding tell
    tell_keeps st packet h = elim (Bool-cases (o.serializes packet)) [
      | inl t ↦ rw t (stable.told st _ h)
      | inr f ↦ rw f h
    ]

    reconfigure_keeps : (st : State) → P st → P (reconfigure o b st)
    unfolding reconfigure
    reconfigure_keeps st h = elim (Bool-cases o.has_configuration) [
      | inl t ↦ rw t (tell_keeps st _ h)
      | inr f ↦ rw f h
    ]

    reconfigure_logins : (st : State) → (reconfigure o b st).logins ≡ st.logins
    unfolding reconfigure tell
    reconfigure_logins st = ground arith

    switched_keeps :
        (st : State) (name : Text) (cfg : BackendConfig) (link : LoginState) (bytes : Text)
        → Configured b name cfg
        → try_login o b st name cfg ≡ (link, logged_in bytes)
        → P st
        → P (switched o b (count_login o b st) name link)
    unfolding switched try_login login_at count_login
    switched_keeps st name cfg link bytes q e h =
        let counted : State = record st { logins = suc st.logins } in
        stable.moved (reconfigure o b counted) st.logins name cfg link bytes
          (sym (reconfigure_logins counted)) q e (reconfigure_keeps counted (stable.counted st h))

    fall_back_keeps :
        (st : State) (name : Text) (cfg : BackendConfig) (reason : BridgeError → Text)
        (r : LoginState × Logged)
        → Configured b name cfg
        → try_login o b st name cfg ≡ r
        → P st
        → P (fell_back o b (count_login o b st) name reason r).0
    unfolding fell_back count_login
    fall_back_keeps st name cfg reason (link, logged_in bytes) q e h =
        switched_keeps st name cfg link bytes q e h
    fall_back_keeps st name cfg reason (link, login_failed x) q e h =
        tell_keeps _ _ (stable.counted st h)

    after_failure_keeps :
        (st : State) (fallback : Option (Text × BackendConfig))
        → ((x : Text × BackendConfig) → fallback ≡ some x → Configured b x.0 x.1)
        → P st
        → P (after_failure o b st fallback).0
    unfolding after_failure fall_back
    after_failure_keeps st none q h = h
    after_failure_keeps st (some (name, cfg)) q h =
        fall_back_keeps st name cfg _ (try_login o b st name cfg) (q (name, cfg) refl) refl h

    fallback-Configured :
        (name : Text) (x : Text × BackendConfig)
        → other_fallback b.fallback_server name ≡ some x
        → Configured b x.0 x.1
    unfolding Configured
    fallback-Configured name x e = inr (inl (other_fallback-some name b.fallback_server x e))

    switch_result_keeps :
        (st : State) (name : Text) (cfg : BackendConfig) (r : LoginState × Logged)
        → Configured b name cfg
        → try_login o b st name cfg ≡ r
        → P st
        → P (switch_result o b (count_login o b st) name r).0
    unfolding switch_result fire_connected count_login
    switch_result_keeps st name cfg (link, logged_in bytes) q e h =
        stable.called _ _ (switched_keeps st name cfg link bytes q e h)
    switch_result_keeps st name cfg (link, login_failed x) q e h =
        after_failure_keeps _ (other_fallback b.fallback_server name) (fallback-Configured name)
          (tell_keeps _ _ (stable.counted st h))

    switch_to_keeps :
        (st : State) (name : Text) (cfg : Option BackendConfig)
        → lookup b.proxy_config.servers name ≡ cfg
        → P st
        → P (switch_to o b st name cfg).0
    unfolding switch_to Configured
    switch_to_keeps st name none e h = tell_keeps st _ h
    switch_to_keeps st name (some cfg) e h =
        switch_result_keeps st name cfg (try_login o b st name cfg) (inl e) refl h

    on_connect_keeps : (st : State) (target : Text) → P st → P (on_connect o b st target).0
    unfolding on_connect switch_unless
    on_connect_keeps st target h =
        let event = connect_event o b st (some st.current_server) target in
        let named : State = record st { calls = event.0 } in
        elim (Bool-cases event.1.cancelled) [
          | inl t ↦ rw t (tell_keeps named _ (stable.called st _ h))
          | inr f ↦ rw f (switch_to_keeps named event.1.target_server _ refl (stable.called st _ h))
        ]

    on_disconnected_keeps :
        (st : State) (reason : Option Text) (fallback : Option (Text × BackendConfig))
        → ((x : Text × BackendConfig) → fallback ≡ some x → Configured b x.0 x.1)
        → P st
        → P (on_disconnected o b st reason fallback).0
    unfolding on_disconnected fall_back
    on_disconnected_keeps st reason none q h = tell_keeps st _ h
    on_disconnected_keeps st reason (some (name, cfg)) q h =
        fall_back_keeps _ name cfg _ _ (q (name, cfg) refl) refl (tell_keeps st _ h)

    on_exit_keeps : (st : State) (exit : TunnelExit) → P st → P (on_exit o b st exit).0
    unfolding on_exit
    on_exit_keeps st client_disconnected h = h
    on_exit_keeps st (transfer_to host port) h = tell_keeps st _ h
    on_exit_keeps st (connect_to name) h = on_connect_keeps st name h
    on_exit_keeps st (backend_disconnected reason) h =
        on_disconnected_keeps st reason (other_fallback b.fallback_server st.current_server)
          (fallback-Configured st.current_server) h

    step_keeps : (st : State) (turn : Turn) → Near turn → P st → P (step o b st turn).0
    unfolding step
    step_keeps st turn near h =
        on_exit_keeps _ (exit_of o b turn.result) (stable.others st turn near h)

    go_on_keeps :
        (r : State × Bool) (rest : State → State × Bool)
        → P r.0
        → ((st : State) → P st → P (rest st).0)
        → P (go_on o b r rest).0
    unfolding go_on
    go_on_keeps (st, true) rest h f = f st h
    go_on_keeps (st, false) rest h f = h

    -- The loop keeps what each thing that it does to the state keeps.
    pub loop_keeps :
        (turns : List Turn) (st : State) → All Near turns → P st → P (bridge_loop o b turns st).0
    unfolding bridge_loop
    loop_keeps [] st near h = h
    loop_keeps (turn ∷ turns) st near h =
        go_on_keeps (step o b st turn) (bridge_loop o b turns) (step_keeps st turn near.0 h)
          (λ s g. loop_keeps turns s near.1 g)
