-- ===== src/Backend/Bridge/Login/Tests.antt =====
-- The connection and the login on the sample backend.
use vine.Base.{ℕ, suc, as_i32, text_eq, codes, ◌<◌, List, [], ◌∷◌, All, ◌≡◌, refl, max}
use vine.Backend.Forwarding.{build_velocity_payload}
use vine.Backend.Bridge.Connect.{
  stream, connected, Fails, failed_after, connect_to_backend, connect_to_backend_lem,
}
use vine.Backend.Bridge.Login.{same_id, Incoming, logged_in, login_backend}
use vine.Backend.Bridge.Login.Replies.{Allowed, login_backend-Allowed}
use vine.Backend.Bridge.Login.Success.{Found, login_backend_success}
use vine.Backend.Bridge.Sample.{codec, protocol, lobby, bridge, dial}

connect_to_backend_lem_example :
    ((k : ℕ) (s : List Incoming)
      → k < max 3 1
      → ((j : ℕ) → j < k → Fails dial (codes "lobby") 10 3 (dial (suc j)))
      → dial (suc k) ≡ connected s
      → connect_to_backend dial (codes "lobby") 10 3
        ≡ record { result = stream s; attempts = suc k; pauses = k })
    × (((j : ℕ) → j < max 3 1 → Fails dial (codes "lobby") 10 3 (dial (suc j)))
        → connect_to_backend dial (codes "lobby") 10 3
          ≡ failed_after dial (codes "lobby") 10 3 (max 3 1))
connect_to_backend_lem_example = connect_to_backend_lem dial (codes "lobby") 10 3

login_backend-Allowed_example :
    All
      (Allowed codec protocol bridge lobby 5)
      (login_backend codec protocol bridge lobby 5 (codes "lobby") dial).0.written
login_backend-Allowed_example =
    login_backend-Allowed codec protocol bridge lobby 5 (codes "lobby") dial

logs_in :
    (login_backend codec protocol bridge lobby 5 (codes "lobby") dial).1
    ≡ logged_in (2 ∷ 1 ∷ 2 ∷ 3 ∷ [])
unfolding login_backend connect_to_backend same_id text_eq build_velocity_payload as_i32
logs_in = refl

login_backend_success_example :
    (packets : List Incoming) × ((connect_to_backend dial
        (codes "lobby")
        bridge.network_config.backend_connect_timeout_secs
        bridge.network_config.backend_connect_retry_attempts).result
      ≡ stream packets)
    × Found codec protocol bridge lobby 5 [] packets
        (login_backend codec protocol bridge lobby 5 (codes "lobby") dial).0.written
        (2 ∷ 1 ∷ 2 ∷ 3 ∷ [])
login_backend_success_example =
    login_backend_success codec protocol bridge lobby 5 (codes "lobby") dial (2 ∷ 1 ∷ 2 ∷ 3 ∷ [])
      logs_in
