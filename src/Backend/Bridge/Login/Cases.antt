-- ===== src/Backend/Bridge/Login/Cases.antt =====
-- The rounds of the login of src/backend/bridge.rs, by the identity of the packet.
use vine.Base.{ℕ, ℤ, true, false, Text, ◌++◌, [], ◌≡◌, inl, inr, Bool-cases}
use mathlib.Core.Option
use vine.Config.{BackendConfig}
use vine.Backend.Forwarding.{Codec}
use vine.Backend.Bridge.{login_disconnected}
use vine.Backend.Bridge.Login.{
  BackendBridge, raw, Protocol, LoginState, Step, going, finished, logged_in, login_failed,
  plugin_request, set_compression, disconnect_reason, handle_packet, same_id,
}

module _ (c : Codec) (p : Protocol) (b : BackendBridge) (active_config : BackendConfig)
    (now : ℕ) where
  pub handle_packet_cases {ℓ} :
      (P : Step → Type ℓ) (s : LoginState) (id : ℤ) (payload : Text)
      → (same_id id p.login_disconnect_id ≡ true
          → P (
              finished s (
                login_failed (
                  login_disconnected
                    (disconnect_reason c p b active_config now (p.get_str payload))))))
      → (same_id id p.login_disconnect_id ≡ false
          → same_id id p.login_plugin_request_id ≡ true
          → P (plugin_request c p b active_config now s (p.get_var_int payload)))
      → (same_id id p.login_disconnect_id ≡ false
          → same_id id p.login_plugin_request_id ≡ false
          → same_id id p.login_compression_id ≡ true
          → P (set_compression c p b active_config now s (p.get_var_int payload)))
      → (same_id id p.login_disconnect_id ≡ false
          → same_id id p.login_plugin_request_id ≡ false
          → same_id id p.login_compression_id ≡ false
          → same_id id p.login_success_id ≡ true
          → P (finished s (logged_in (Option.get_or (c.put_varint id) [] ++ payload))))
      → (same_id id p.login_disconnect_id ≡ false
          → same_id id p.login_plugin_request_id ≡ false
          → same_id id p.login_compression_id ≡ false
          → same_id id p.login_success_id ≡ false
          → P (going s))
      → P (handle_packet c p b active_config now s (raw id payload))
  unfolding handle_packet
  handle_packet_cases P s id payload on_d on_q on_k on_t on_rest =
      elim (Bool-cases (same_id id p.login_disconnect_id)) [
        | inl d ↦ rw d (on_d d)
        | inr d ↦ elim (Bool-cases (same_id id p.login_plugin_request_id)) [
          | inl q ↦ rw (d, q) (on_q d q)
          | inr q ↦ elim (Bool-cases (same_id id p.login_compression_id)) [
            | inl k ↦ rw (d, q, k) (on_k d q k)
            | inr k ↦ elim (Bool-cases (same_id id p.login_success_id)) [
              | inl t ↦ rw (d, q, k, t) (on_t d q k t)
              | inr t ↦ rw (d, q, k, t) (on_rest d q k t)
            ]
          ]
        ]
      ]
