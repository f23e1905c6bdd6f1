-- ===== src/Backend/Bridge/Login/Answers.antt =====
-- What a round of the login of src/backend/bridge.rs answers.
use mathlib.Core.Option
use vine.Base.{
  ℕ, ℤ, pos, negsuc, true, false, if◌then◌else◌, List, [], ◌∷◌, ◌++◌, Option, none, some, Text,
  codes, text_eq, ==_iff, ◌↔◌, ◌≢◌, Bool-cases, ◌≡◌, refl, sym, ap, inl, inr, append-nil,
}
use vine.Config.{BackendConfig}
use vine.Backend.Forwarding.{Built, ok, err, Codec}
use vine.Backend.Bridge.{BridgeError, vine_error, velocity_error}
use vine.Backend.Bridge.Login.{
  BackendBridge, Outgoing, handshake, login_start, plugin_response, Incoming, raw, broken, Read,
  value, unreadable, Protocol, LoginState, logged_in, login_failed, Step, going, finished, wrote,
  send, respond, answer_vine, answer_velocity, answer, with_channel, plugin_request,
  set_compression, handle_packet, same_id,
}
use vine.Backend.Bridge.Login.Cases.{handle_packet_cases}

pub same_id_iff : (a b : ℤ) → (same_id a b ≡ true) ↔ (a ≡ b)
unfolding same_id
same_id_iff (pos a) (pos b) = (λ e. ap pos ((==_iff a b).0 e), λ e. (==_iff a b).1 (cc e))
same_id_iff (negsuc a) (negsuc b) = (λ e. ap negsuc ((==_iff a b).0 e), λ e. (==_iff a b).1 (cc e))
same_id_iff (pos a) (negsuc b) = (λ e. absurd cc, λ e. absurd cc)
same_id_iff (negsuc a) (pos b) = (λ e. absurd cc, λ e. absurd cc)

same : {a b : ℤ} → same_id a b ≡ true → a ≡ b
same {a} {b} e = (same_id_iff a b).0 e

differ : {a b : ℤ} → same_id a b ≡ false → a ≢ b
differ {a} {b} e f = absurd (let t = (same_id_iff a b).1 f in cc)

-- The message of each response, in order.
unfoldable pub response_ids : List Outgoing → List ℤ
response_ids [] = []
response_ids (plugin_response message_id payload ∷ rest) = message_id ∷ response_ids rest
response_ids (handshake version host ∷ rest) = response_ids rest
response_ids (login_start name id ∷ rest) = response_ids rest

pub response_ids-append :
    (xs ys : List Outgoing) → response_ids (xs ++ ys) ≡ response_ids xs ++ response_ids ys
unfolding response_ids
response_ids-append [] ys = refl
response_ids-append (plugin_response m d ∷ xs) ys = ap (◌∷◌ m) (response_ids-append xs ys)
response_ids-append (handshake v h ∷ xs) ys = response_ids-append xs ys
response_ids-append (login_start n i ∷ xs) ys = response_ids-append xs ys

-- The message that a request asks for.
unfoldable pub read_id : Read ℤ → List ℤ
read_id (value message_id cur) = message_id ∷ []
read_id (unreadable e) = []

module _ (p : Protocol) where
  -- The packet is the success of the login, and not by its number another packet.
  unfoldable pub IsSuccess : ℤ → Type 0
  IsSuccess id =
      (id ≢ p.login_disconnect_id)
      × (id ≢ p.login_plugin_request_id)
      × (id ≢ p.login_compression_id)
      × (id ≡ p.login_success_id)

  unfoldable pub request_ids : List Incoming → List ℤ
  unfolding read_id
  request_ids [] = []
  request_ids (broken e ∷ rest) = request_ids rest
  request_ids (raw id payload ∷ rest) =
      let later = request_ids rest in
      if same_id id p.login_plugin_request_id
      then read_id (p.get_var_int payload) ++ later
      else later

  -- Neither a failure of the connection, nor the backend's refusal, nor its consent.
  unfoldable pub Passed : Incoming → Type 0
  Passed (broken e) = ⊥
  Passed (raw id payload) = (id ≢ p.login_disconnect_id) × (¬ IsSuccess id)

module _ (c : Codec) (p : Protocol) (b : BackendBridge) (active_config : BackendConfig)
    (now : ℕ) where
  Answers : LoginState → List ℤ → Step → Type 0
  Answers s ids (going t) = response_ids t.written ≡ response_ids s.written ++ ids
  Answers s ids (finished t (logged_in bytes)) = ⊥
  Answers s ids (finished t (login_failed e)) = Unit

  wrote-Answers :
      (s : LoginState) (m : ℤ) (d : Option Text) (e : Option Text)
      → Answers s (m ∷ []) (wrote c p s (plugin_response m d) e)
  unfolding wrote Answers response_ids
  wrote-Answers s m d none = response_ids-append s.written (plugin_response m d ∷ [])
  wrote-Answers s m d (some e) = tt

  respond-Answers :
      (s : LoginState) (m : ℤ) (wrap : Text → BridgeError) (built : Built Text)
      → Answers s (m ∷ []) (respond c p s m wrap built)
  unfolding respond send Answers
  respond-Answers s m wrap (err e) = tt
  respond-Answers s m wrap (ok d) = wrote-Answers s m (some d) _

  answer_vine-Answers :
      (s : LoginState) (m : ℤ) (cur : Text) (o : Option Text)
      → Answers s (m ∷ []) (answer_vine c p b active_config now s m cur o)
  unfolding answer_vine Answers
  answer_vine-Answers s m cur none = tt
  answer_vine-Answers s m cur (some secret) = respond-Answers s m vine_error _

  answer_velocity-Answers :
      (s : LoginState) (m : ℤ) (o : Option Text)
      → Answers s (m ∷ []) (answer_velocity c p b active_config now s m o)
  unfolding answer_velocity Answers
  answer_velocity-Answers s m none = tt
  answer_velocity-Answers s m (some secret) = respond-Answers s m velocity_error _

  answer-Answers :
      (s : LoginState) (m : ℤ) (channel cur : Text)
      → Answers s (m ∷ []) (answer c p b active_config now s m channel cur)
  unfolding answer send
  answer-Answers s m channel cur = elim (Bool-cases (text_eq channel (codes "vine:player_info"))) [
    | inl e ↦ rw e (answer_vine-Answers s m cur active_config.secret)
    | inr e ↦ elim (Bool-cases (text_eq channel (codes "velocity:player_info"))) [
      | inl f ↦ rw (e, f) (answer_velocity-Answers s m active_config.secret)
      | inr f ↦ rw (e, f) (wrote-Answers s m none _)
    ]
  ]

  with_channel-Answers :
      (s : LoginState) (m : ℤ) (r : Read Text)
      → Answers s (m ∷ []) (with_channel c p b active_config now s m r)
  unfolding with_channel Answers
  with_channel-Answers s m (value channel cur) = answer-Answers s m channel cur
  with_channel-Answers s m (unreadable e) = tt

  plugin_request-Answers :
      (s : LoginState) (r : Read ℤ)
      → Answers s (read_id r) (plugin_request c p b active_config now s r)
  unfolding plugin_request Answers read_id
  plugin_request-Answers s (value m cur) = with_channel-Answers s m (p.get_str cur)
  plugin_request-Answers s (unreadable e) = tt

  set_compression-Answers :
      (s : LoginState) (r : Read ℤ) → Answers s [] (set_compression c p b active_config now s r)
  unfolding set_compression Answers
  set_compression-Answers s (value (pos n) cur) = sym (append-nil (response_ids s.written))
  set_compression-Answers s (value (negsuc n) cur) = sym (append-nil (response_ids s.written))
  set_compression-Answers s (unreadable e) = tt

  -- What the client is sent for a packet of success.
  unfoldable pub SuccessOf : Incoming → Text → Type 0
  SuccessOf (broken e) bytes = ⊥
  SuccessOf (raw id payload) bytes =
      IsSuccess p id × (bytes ≡ Option.get_or (c.put_varint id) [] ++ payload)

  unfoldable pub Round : LoginState → Incoming → Step → Type 0
  Round s packet (going t) =
      (response_ids t.written ≡ response_ids s.written ++ request_ids p (packet ∷ []))
      × Passed p packet
  Round s packet (finished t (logged_in bytes)) = (t ≡ s) × SuccessOf packet bytes
  Round s packet (finished t (login_failed e)) = Unit

  Answers-Round :
      (s : LoginState) (packet : Incoming) (ids : List ℤ) (step : Step)
      → ids ≡ request_ids p (packet ∷ [])
      → Passed p packet
      → Answers s ids step
      → Round s packet step
  unfolding Answers Round
  Answers-Round s packet ids (going t) e passed a = (rw (← e) a, passed)
  Answers-Round s packet ids (finished t (logged_in bytes)) e passed a = absurd a
  Answers-Round s packet ids (finished t (login_failed x)) e passed a = tt

  pub handle_packet-Round :
      (s : LoginState) (packet : Incoming)
      → Round s packet (handle_packet c p b active_config now s packet)
  unfolding handle_packet Round SuccessOf IsSuccess request_ids Passed
  handle_packet-Round s (broken e) = tt
  handle_packet-Round s (raw id payload) =
      handle_packet_cases c p b active_config now (Round s (raw id payload)) s id payload (λ d. tt)
        (λ d q.
          Answers-Round s (raw id payload) (read_id (p.get_var_int payload)) _
            (rw q (sym (append-nil (read_id (p.get_var_int payload)))))
            (differ d, λ s. s.1 (same q)) (plugin_request-Answers s (p.get_var_int payload)))
        (λ d q k.
          Answers-Round s (raw id payload) [] _ (rw q refl) (differ d, λ s. s.2 (same k))
            (set_compression-Answers s (p.get_var_int payload)))
        (λ d q k t. (refl, ((differ d, differ q, differ k, same t), refl)))
        (λ d q k t.
          (rw q (sym (append-nil (response_ids s.written))), (differ d, λ s. differ t s.3)))
