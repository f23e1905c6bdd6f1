-- ===== src/Backend/Bridge/Run/Start.antt =====
-- How a run of src/backend/bridge.rs gets to its loop, or does not.
use vine.Base.{
  ℕ, suc, ◌<◌, List, [], ◌∷◌, ◌++◌, Option, none, some, Text, text_eq, text_eq_iff, text_key,
  lookup, Bool-cases, Option-cases, ◌≡◌, refl, inl, inr, arith,
}
use vine.Config.{BackendConfig}
use vine.Backend.Bridge.{BridgeError}
use vine.Backend.Bridge.Login.{BackendBridge, LoginState, Logged, logged_in, login_failed}
use vine.Backend.Bridge.Run.{
  Outside, State, login_success, Turn, Phase, not_joined, bridge_loop, join, finish, forwarded,
  logged, or_fall_back, first_login, run_unless, run, try_login, count_login, connect_event,
  initial_config, other_fallback,
}
use vine.Backend.Bridge.Run.Rounds.{Configured, login_at, other_fallback-some}

module _ (o : Outside) (b : BackendBridge) where
  -- The link is the one of a login that succeeded, at the current server, as that is configured.
  pub record IsLinked (st : State) : Type 0 where
    pub login : ℕ
    pub config : BackendConfig
    pub bytes : Text
    pub past : login < st.logins
    pub configured : Configured b st.current_server config
    pub succeeded : login_at o b login st.current_server config ≡ (st.link, logged_in bytes)

  initial_Configured :
      (name : Text) (found : Option BackendConfig)
      → lookup b.proxy_config.servers name ≡ found
      → Configured b name (initial_config o b name)
  unfolding initial_config Configured
  initial_Configured name found e = elim (Bool-cases (text_eq name b.server_name)) [
    | inl t ↦ rw t (inr (inr (inl ((text_eq_iff name b.server_name).0 t, refl))))
    | inr f ↦ elim (Option-cases (lookup b.proxy_config.servers name)) [
      | inl n ↦ rw (f, n) (inr (inr (inr (refl, refl))))
      | inr (cfg, s) ↦ rw (f, s) (inl refl)
    ]
  ]

  module _ (P : State × Phase → Type 0) (st : State) (turns : List Turn)
      (refuses : (now : State) (e : BridgeError)
        → now.sessions ≡ st.sessions
        → now.online_players ≡ st.online_players
        → P (now, not_joined e))
      (joins : (now : State)
        → now.sessions ≡ st.sessions
        → now.online_players ≡ st.online_players
        → IsLinked now
        → P (finish o b (bridge_loop o b turns (join o b now)))) where
    forwarded_cases :
        (now : State) (bytes : Text) (e : Option Text)
        → now.sessions ≡ st.sessions
        → now.online_players ≡ st.online_players
        → IsLinked now
        → P (forwarded o b now turns bytes e)
    unfolding forwarded
    forwarded_cases now bytes (some e) p q l = refuses now _ p q
    forwarded_cases now bytes none p q l =
        joins (record now { told = now.told ++ login_success bytes ∷ [] }) p q
          (record {
            login = l.login;
            config = l.config;
            bytes = l.bytes;
            past = l.past;
            configured = l.configured;
            succeeded = l.succeeded;
          })

    logged_cases :
        (now : State) (name : Text) (cfg : BackendConfig) (r : LoginState × Logged)
        → Configured b name cfg
        → try_login o b now name cfg ≡ r
        → now.sessions ≡ st.sessions
        → now.online_players ≡ st.online_players
        → P (logged o b (count_login o b now) turns name r)
    unfolding logged count_login try_login login_at
    logged_cases now name cfg (link, logged_in bytes) c e p q =
        forwarded_cases (record now { logins = suc now.logins; current_server = name; link = link })
          bytes _ p q
          (record {
            login = now.logins;
            config = cfg;
            bytes = bytes;
            past = omega arith;
            configured = c;
            succeeded = e;
          })
    logged_cases now name cfg (link, login_failed x) c e p q = refuses _ _ p q

    or_fall_back_cases :
        (now : State) (e : BridgeError) (name : Text) (fallback : Option (Text × BackendConfig))
        → other_fallback b.fallback_server name ≡ fallback
        → now.sessions ≡ st.sessions
        → now.online_players ≡ st.online_players
        → P (or_fall_back o b now turns e fallback)
    unfolding or_fall_back Configured
    or_fall_back_cases now e name none f p q = refuses now _ p q
    or_fall_back_cases now e name (some (fb_name, cfg)) f p q =
        logged_cases now fb_name cfg (try_login o b now fb_name cfg)
          (inr (inl (other_fallback-some name b.fallback_server (fb_name, cfg) f))) refl p q

    first_login_cases :
        (now : State) (name : Text) (cfg : BackendConfig) (r : LoginState × Logged)
        → Configured b name cfg
        → try_login o b now name cfg ≡ r
        → now.sessions ≡ st.sessions
        → now.online_players ≡ st.online_players
        → P (first_login o b (count_login o b now) turns name r)
    unfolding first_login count_login
    first_login_cases now name cfg (link, logged_in bytes) c e p q =
        logged_cases now name cfg (link, logged_in bytes) c e p q
    first_login_cases now name cfg (link, login_failed x) c e p q =
        or_fall_back_cases _ x name _ refl p q

    -- A run is refused with the registry and the counter as they were, or joins on a link.
    pub run_cases : P (run o b st turns)
    unfolding run run_unless
    run_cases =
        let event = connect_event o b st none b.server_name in
        let now : State = record st { calls = event.0 } in
        let name = event.1.target_server in
        elim (Bool-cases event.1.cancelled) [
          | inl t ↦ rw t (refuses now _ refl refl)
          | inr f ↦ rw f (
              first_login_cases now name (initial_config o b name) _
                (initial_Configured name _ refl) refl refl refl)
        ]
