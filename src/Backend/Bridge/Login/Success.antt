-- ===== src/Backend/Bridge/Login/Success.antt =====
-- When the login of src/backend/bridge.rs succeeds.
use vine.Base.{
  ℕ, ℤ, List, [], ◌∷◌, ◌++◌, Option, none, some, Text, All, Bool-cases, ◌≡◌, refl, sym, ap, ◌∙◌,
  inl, inr, append_assoc, append-nil, subst,
}
use vine.Config.{BackendConfig}
use vine.Backend.Forwarding.{Codec}
use vine.Backend.Bridge.Connect.{Dialed, Connected, stream, gave_up, connect_to_backend}
use vine.Backend.Bridge.Login.{
  BackendBridge, Outgoing, handshake, login_start, backend_host, Incoming, raw, broken, Protocol,
  LoginState, Logged, logged_in, login_failed, Step, going, finished, wrote, send, handle_packet,
  continue_with, login_loop, logged_out, login_on, login_backend, same_id,
}
use vine.Backend.Bridge.Login.Answers.{
  response_ids, response_ids-append, request_ids, read_id, Passed, SuccessOf, Round,
  handle_packet-Round,
}

module _ (c : Codec) (p : Protocol) (b : BackendBridge) (active_config : BackendConfig)
    (now : ℕ) where
  -- The packets up to the one of success, and one response for each request among them.
  pub Found : List ℤ → List Incoming → List Outgoing → Text → Type 0
  Found ids packets written bytes =
      (before : List Incoming) × (packet : Incoming) × (rest : List Incoming) × (packets
        ≡ before ++ packet ∷ rest)
      × All (Passed p) before
      × SuccessOf c p b active_config now packet bytes
      × (response_ids written ≡ ids ++ request_ids p before)

  request_ids-cons :
      (packet : Incoming) (rest : List Incoming)
      → request_ids p (packet ∷ rest) ≡ request_ids p (packet ∷ []) ++ request_ids p rest
  unfolding request_ids
  request_ids-cons (broken e) rest = refl
  request_ids-cons (raw id payload) rest =
      elim (Bool-cases (same_id id p.login_plugin_request_id)) [
        | inl q ↦ rw (q, append-nil (read_id (p.get_var_int payload))) refl
        | inr q ↦ rw q refl
      ]

  Found-cons :
      (s t : LoginState) (packet : Incoming) (packets : List Incoming) (written : List Outgoing)
      (bytes : Text)
      → Round c p b active_config now s packet (going t)
      → Found (response_ids t.written) packets written bytes
      → Found (response_ids s.written) (packet ∷ packets) written bytes
  unfolding Found Round
  Found-cons s t packet packets written bytes (e, passed) (before, q, rest, split, all, ok_q, ids) =
      (
        packet ∷ before,
        q,
        rest,
        ap (◌∷◌ packet) split,
        (passed, all),
        ok_q,
        ids
            ∙ ap (λ x. x ++ request_ids p before) e
            ∙ append_assoc (response_ids s.written) (request_ids p (packet ∷ []))
                (request_ids p before)
            ∙ ap (◌++◌ (response_ids s.written)) (sym (request_ids-cons packet before)),
      )

  step-Found :
      (s t : LoginState) (packet : Incoming) (packets : List Incoming) (bytes : Text) (step : Step)
      (loop : LoginState → LoginState × Logged)
      → Round c p b active_config now s packet step
      → ((u : LoginState)
          → loop u ≡ (t, logged_in bytes)
          → Found (response_ids u.written) packets t.written bytes)
      → continue_with c p b active_config now step loop ≡ (t, logged_in bytes)
      → Found (response_ids s.written) (packet ∷ packets) t.written bytes
  unfolding continue_with Round Found request_ids
  step-Found s t packet packets bytes (going u) loop r later e =
      Found-cons s u packet packets t.written bytes r (later u e)
  step-Found s t packet packets bytes (finished u (logged_in d)) loop r later e =
      let same : t ≡ s = sym (ap (λ x. x.0) e) ∙ r.0 in
      let d_eq : d ≡ bytes = cc in
      (
        [],
        packet,
        packets,
        refl,
        tt,
        rw (← d_eq) r.1,
        rw (same) (sym (append-nil (response_ids s.written))),
      )
  step-Found s t packet packets bytes (finished u (login_failed x)) loop r later e = cc

  login_loop-Found :
      (server_name : Text) (packets : List Incoming) (s t : LoginState) (bytes : Text)
      → login_loop c p b active_config now server_name packets s ≡ (t, logged_in bytes)
      → Found (response_ids s.written) packets t.written bytes
  unfolding login_loop
  login_loop-Found server_name [] s t bytes e = cc
  login_loop-Found server_name (packet ∷ packets) s t bytes e =
      step-Found s t packet packets bytes (handle_packet c p b active_config now s packet)
        (login_loop c p b active_config now server_name packets)
        (handle_packet-Round c p b active_config now s packet)
        (λ u f. login_loop-Found server_name packets u t bytes f) e

  continue_greeting :
      (s t : LoginState) (packet : Outgoing) (e : Option Text) (bytes : Text)
      (rest : LoginState → LoginState × Logged)
      → response_ids (packet ∷ []) ≡ []
      → response_ids s.written ≡ []
      → continue_with c p b active_config now (wrote c p s packet e) rest ≡ (t, logged_in bytes)
      → (u : LoginState) × (response_ids u.written ≡ []) × (rest u ≡ (t, logged_in bytes))
  unfolding continue_with wrote
  continue_greeting s t packet none bytes rest f g h = (
    record s { written = s.written ++ packet ∷ [] },
    response_ids-append s.written (packet ∷ []) ∙ rw (f, g) refl,
    h,
  )
  continue_greeting s t packet (some x) bytes rest f g h = cc

  login_on-Found :
      (server_name : Text) (packets : List Incoming) (t : LoginState) (bytes : Text)
      → login_on c p b active_config now server_name (stream packets) ≡ (t, logged_in bytes)
      → Found [] packets t.written bytes
  unfolding login_on logged_out send response_ids
  login_on-Found server_name packets t bytes e =
      let host = backend_host c p b active_config now active_config.forwarding in
      let greeting = handshake b.client_version host in
      let request = login_start b.player.username b.player.id in
      let start = logged_out c p b active_config now in
      let loop = login_loop c p b active_config now server_name packets in
      let (u, f, g) =
        continue_greeting start t greeting (p.write_error start.written greeting) bytes
          (λ s. continue_with c p b active_config now (send c p s request) loop) refl refl e in
      let (v, h, i) =
        continue_greeting u t request (p.write_error u.written request) bytes loop refl f g in
      subst (λ x. Found x packets t.written bytes) h
        (login_loop-Found server_name packets v t bytes i)

  result-Found :
      (server_name : Text) (o : Connected (List Incoming)) (bytes : Text)
      → (login_on c p b active_config now server_name o).1 ≡ logged_in bytes
      → (packets : List Incoming) × (o ≡ stream packets)
        × Found [] packets (login_on c p b active_config now server_name o).0.written bytes
  unfolding login_on
  result-Found server_name (gave_up x) bytes e = cc
  result-Found server_name (stream packets) bytes e =
      let t = (login_on c p b active_config now server_name (stream packets)).0 in
      (packets, refl, login_on-Found server_name packets t bytes (ap (λ r. (t, r)) e))

  -- A login that succeeds has read a packet of success; what it returns is that packet, its number
  -- as the protocol writes it and its payload; of the packets before it none is a refusal or
  -- broken, and each request of a plugin among them got exactly one response, in order and with its
  -- number.
  pub login_backend_success :
      (server_name : Text) (dial : ℕ → Dialed (List Incoming)) (bytes : Text)
      → (login_backend c p b active_config now server_name dial).1 ≡ logged_in bytes
      → (packets : List Incoming) × ((connect_to_backend dial server_name
            b.network_config.backend_connect_timeout_secs
            b.network_config.backend_connect_retry_attempts).result
          ≡ stream packets)
        × Found [] packets (login_backend c p b active_config now server_name dial).0.written bytes
  unfolding login_backend
  login_backend_success server_name dial bytes e =
      result-Found server_name
        (connect_to_backend dial server_name b.network_config.backend_connect_timeout_secs
          b.network_config.backend_connect_retry_attempts).result
        bytes e
