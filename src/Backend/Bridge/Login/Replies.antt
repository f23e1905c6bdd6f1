-- ===== src/Backend/Bridge/Login/Replies.antt =====
-- What the login of src/backend/bridge.rs writes to a backend.
use vine.Base.{
  ℕ, ℤ, pos, negsuc, List, [], ◌∷◌, ◌++◌, Option, none, some, Text, codes, text_eq, All, Bool-cases,
  ◌≡◌, ◌≢◌, ◌⊎◌, refl, inl, inr,
}
use vine.Config.{
  ForwardingMode, no_forwarding, bungee_cord, velocity, vine_forwarding, BackendConfig,
}
use vine.Backend.Forwarding.{
  Built, ok, err, Codec, build_velocity_payload, build_vine_payload, build_bungeecord_host,
}
use vine.Backend.Bridge.{BridgeError, vine_error, velocity_error}
use vine.Backend.Bridge.Connect.{Dialed, Connected, stream, gave_up}
use vine.Backend.Bridge.Login.{
  BackendBridge, Outgoing, handshake, login_start, plugin_response, Incoming, raw, broken, Read,
  value, unreadable, Protocol, LoginState, Logged, Step, going, finished, wrote, send, respond,
  answer_vine, answer_velocity, answer, with_channel, plugin_request, set_compression,
  handle_packet, continue_with, login_loop, backend_host, logged_out, login_on, login_backend,
  challenge_of,
}
use vine.Backend.Bridge.Login.Cases.{handle_packet_cases}

All-snoc :
    {A : Type 0} (P : A → Type 0) (xs : List A) (x : A) → All P xs → P x → All P (xs ++ x ∷ [])
All-snoc P [] x h p = (p, tt)
All-snoc P (y ∷ ys) x h p = (h.0, All-snoc P ys x h.1 p)

-- What is written so far has the property.
AllStep : (Outgoing → Type 0) → Step → Type 0
AllStep P (going s) = All P s.written
AllStep P (finished s result) = All P s.written

module _ (c : Codec) (p : Protocol) (b : BackendBridge) (active_config : BackendConfig)
    (now : ℕ) where
  -- The host that a backend of this mode is greeted with: of BungeeCord the one with the player and
  -- the address, of every other mode the host that the client asked for.
  pub IsHost : ForwardingMode → Text → Type 0
  IsHost mode host =
      (mode ≡ bungee_cord → host ≡ build_bungeecord_host c b.virtual_host b.client_ip b.player)
      × (mode ≢ bungee_cord → host ≡ b.virtual_host)

  backend_host-IsHost :
      (mode : ForwardingMode) → IsHost mode (backend_host c p b active_config now mode)
  unfolding backend_host IsHost
  backend_host-IsHost bungee_cord = ((λ e. refl), λ n. absurd (n refl))
  backend_host-IsHost velocity = ((λ e. absurd cc), λ n. refl)
  backend_host-IsHost vine_forwarding = ((λ e. absurd cc), λ n. refl)
  backend_host-IsHost no_forwarding = ((λ e. absurd cc), λ n. refl)

  -- A packet that may be written: the handshake with the host of the forwarding mode, the player's
  -- login, an empty response, or a payload of the player under the configured secret.
  pub Allowed : Outgoing → Type 0
  Allowed (handshake version host) =
      (version ≡ b.client_version) × IsHost active_config.forwarding host
  Allowed (login_start name id) = (name ≡ b.player.username) × (id ≡ b.player.id)
  Allowed (plugin_response message_id none) = Unit
  Allowed (plugin_response message_id (some payload)) =
      (secret : Text) × (active_config.secret ≡ some secret)
      × ((build_velocity_payload c secret b.client_ip b.player ≡ ok payload)
          ⊎ ((challenge : Text) × (build_vine_payload c now secret b.client_ip b.player challenge
                ≡ ok payload)))

  wrote-Allowed :
      (s : LoginState) (packet : Outgoing) (e : Option Text)
      → All Allowed s.written
      → Allowed packet
      → AllStep Allowed (wrote c p s packet e)
  unfolding wrote AllStep
  wrote-Allowed s packet none h a = All-snoc Allowed s.written packet h a
  wrote-Allowed s packet (some e) h a = h

  send-Allowed :
      (s : LoginState) (packet : Outgoing)
      → All Allowed s.written
      → Allowed packet
      → AllStep Allowed (send c p s packet)
  unfolding send
  send-Allowed s packet h a = wrote-Allowed s packet (p.write_error s.written packet) h a

  respond-Allowed :
      (s : LoginState) (message_id : ℤ) (wrap : Text → BridgeError) (built : Built Text)
      → All Allowed s.written
      → ((payload : Text)
          → built ≡ ok payload
          → Allowed (plugin_response message_id (some payload)))
      → AllStep Allowed (respond c p s message_id wrap built)
  unfolding respond AllStep
  respond-Allowed s message_id wrap (err e) h a = h
  respond-Allowed s message_id wrap (ok payload) h a = send-Allowed s _ h (a payload refl)

  answer_vine-Allowed :
      (s : LoginState) (message_id : ℤ) (cur : Text) (o : Option Text)
      → active_config.secret ≡ o
      → All Allowed s.written
      → AllStep Allowed (answer_vine c p b active_config now s message_id cur o)
  unfolding answer_vine AllStep Allowed
  answer_vine-Allowed s message_id cur none q h = h
  answer_vine-Allowed s message_id cur (some secret) q h =
      respond-Allowed s message_id vine_error _ h
        (λ payload e. (secret, q, inr (challenge_of cur, e)))

  answer_velocity-Allowed :
      (s : LoginState) (message_id : ℤ) (o : Option Text)
      → active_config.secret ≡ o
      → All Allowed s.written
      → AllStep Allowed (answer_velocity c p b active_config now s message_id o)
  unfolding answer_velocity AllStep Allowed
  answer_velocity-Allowed s message_id none q h = h
  answer_velocity-Allowed s message_id (some secret) q h =
      respond-Allowed s message_id velocity_error _ h (λ payload e. (secret, q, inl e))

  answer-Allowed :
      (s : LoginState) (message_id : ℤ) (channel cur : Text)
      → All Allowed s.written
      → AllStep Allowed (answer c p b active_config now s message_id channel cur)
  unfolding answer Allowed
  answer-Allowed s message_id channel cur h =
      elim (Bool-cases (text_eq channel (codes "vine:player_info"))) [
        | inl e ↦ rw e (answer_vine-Allowed s message_id cur active_config.secret refl h)
        | inr e ↦ elim (Bool-cases (text_eq channel (codes "velocity:player_info"))) [
          | inl f ↦ rw (e, f) (answer_velocity-Allowed s message_id active_config.secret refl h)
          | inr f ↦ rw (e, f) (send-Allowed s (plugin_response message_id none) h tt)
        ]
      ]

  with_channel-Allowed :
      (s : LoginState) (message_id : ℤ) (r : Read Text)
      → All Allowed s.written
      → AllStep Allowed (with_channel c p b active_config now s message_id r)
  unfolding with_channel AllStep
  with_channel-Allowed s message_id (value channel cur) h =
      answer-Allowed s message_id channel cur h
  with_channel-Allowed s message_id (unreadable e) h = h

  plugin_request-Allowed :
      (s : LoginState) (r : Read ℤ)
      → All Allowed s.written
      → AllStep Allowed (plugin_request c p b active_config now s r)
  unfolding plugin_request AllStep
  plugin_request-Allowed s (value message_id cur) h =
      with_channel-Allowed s message_id (p.get_str cur) h
  plugin_request-Allowed s (unreadable e) h = h

  set_compression-Allowed :
      (s : LoginState) (r : Read ℤ)
      → All Allowed s.written
      → AllStep Allowed (set_compression c p b active_config now s r)
  unfolding set_compression AllStep
  set_compression-Allowed s (value (pos threshold) cur) h = h
  set_compression-Allowed s (value (negsuc n) cur) h = h
  set_compression-Allowed s (unreadable e) h = h

  handle_packet-Allowed :
      (s : LoginState) (packet : Incoming)
      → All Allowed s.written
      → AllStep Allowed (handle_packet c p b active_config now s packet)
  unfolding handle_packet AllStep
  handle_packet-Allowed s (broken e) h = h
  handle_packet-Allowed s (raw id payload) h =
      handle_packet_cases c p b active_config now (AllStep Allowed) s id payload (λ d. h)
        (λ d q. plugin_request-Allowed s (p.get_var_int payload) h)
        (λ d q k. set_compression-Allowed s (p.get_var_int payload) h) (λ d q k t. h) (λ d q k t. h)

  continue_with-Allowed :
      (step : Step) (rest : LoginState → LoginState × Logged)
      → AllStep Allowed step
      → ((s : LoginState) → All Allowed s.written → All Allowed (rest s).0.written)
      → All Allowed (continue_with c p b active_config now step rest).0.written
  unfolding continue_with AllStep
  continue_with-Allowed (going s) rest h f = f s h
  continue_with-Allowed (finished s result) rest h f = h

  login_loop-Allowed :
      (server_name : Text) (packets : List Incoming) (s : LoginState)
      → All Allowed s.written
      → All Allowed (login_loop c p b active_config now server_name packets s).0.written
  unfolding login_loop
  login_loop-Allowed server_name [] s h = h
  login_loop-Allowed server_name (packet ∷ packets) s h =
      continue_with-Allowed _ _ (handle_packet-Allowed s packet h)
        (login_loop-Allowed server_name packets)

  login_on-Allowed :
      (server_name : Text) (o : Connected (List Incoming))
      → All Allowed (login_on c p b active_config now server_name o).0.written
  unfolding login_on logged_out Allowed
  login_on-Allowed server_name (gave_up e) = tt
  login_on-Allowed server_name (stream packets) =
      continue_with-Allowed _ _
        (send-Allowed (logged_out c p b active_config now) _ tt
          (refl, backend_host-IsHost active_config.forwarding))
        (λ s h.
          continue_with-Allowed _ _ (send-Allowed s _ h (refl, refl))
            (login_loop-Allowed server_name packets))

  -- Whatever a backend sends, a login writes to it only the handshake, with the BungeeCord host of
  -- the player where that is the forwarding mode and else with the host that the client asked for,
  -- the player's login, empty responses, and payloads of this player and address built under the
  -- secret that is configured for that backend.
  pub login_backend-Allowed :
      (server_name : Text) (dial : ℕ → Dialed (List Incoming))
      → All Allowed (login_backend c p b active_config now server_name dial).0.written
  unfolding login_backend
  login_backend-Allowed server_name dial = login_on-Allowed server_name _
