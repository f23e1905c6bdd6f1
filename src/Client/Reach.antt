-- ===== src/Client/Reach.antt =====
-- Which clients of src/client.rs reach a bridge, and with what.
use mathlib.Core.Option
use vine.Base.{
  none, ◌↔◌, if◌then◌else◌, lookup, text_key, ℕ, Bool, true, false, Option, some, Text, codes, [],
  ◌++◌, length, ◌≡◌, ◌⊎◌, refl, sym, ap, subst, ◌∙◌, inl, inr,
}
use vine.Config.{BackendConfig}
use vine.Security.Sanitizer.{sanitize_host, is_valid_username}
use vine.Backend.Router.{resolve_server}
use vine.Backend.Forwarding.{AuthenticatedPlayer}
use vine.Backend.Bridge.Login.{BackendBridge}
use vine.Auth.{player, offline}
use vine.Auth.Knows.{Knows, authenticate-Knows}
use vine.Client.{
  ClientHandler, ClientState, Wire, go, received, EncryptionResponse, plain, Handshake, NextState,
  to_status, to_login, to_other, Reached, status, bridge, nothing, online_login, login_mode,
  login_player, fallback_server, named_fallback, new_bridge, handle_login, after_handshake, handle,
}
use vine.Client.Guards.{
  >>>-go, go-state, go-value, receive-go, decrypted-go, check_player-go, check_token-go,
  check_secret-go, keyed-go, check_username-go, pre_login-go, login_event-go, compress-go, route-go,
}

bridge_of : BackendBridge → Reached → BackendBridge
bridge_of default (bridge b) = b
bridge_of default _ = default

guarded :
    {A : Type 0} (b : Bool) (o : Option A) (a : A)
    → ((if b then o else none) ≡ some a) ↔ ((b ≡ true) × (o ≡ some a))
guarded true o a = (λ e. (refl, e), λ (t, e). e)
guarded false o a = (λ e. absurd cc, λ (t, e). absurd cc)

given_name : (given name : Text) → some given ≡ some name → given ≡ name
given_name given name e = cc e

mapped :
    (o : Option BackendConfig) (given name : Text) (cfg : BackendConfig)
    → (Option.map {B = Text × BackendConfig} (λ c. (given, c)) o ≡ some (name, cfg))
      ↔ ((given ≡ name) × (o ≡ some cfg))
mapped none given name cfg = (λ e. absurd cc, λ (e, f). absurd cc)
mapped (some found) given name cfg = (λ e. (cc e, cc e), λ (e, f). cc)

module _ (w : Wire) (h : ClientHandler) where
  -- The client returned the proxy's token and a key of sixteen bytes, both under the proxy's public
  -- key; the session server knows the player by the name and that key, which is the stream's.
  pub Proven : Text → AuthenticatedPlayer → Option Text → Type 0
  Proven name p encryption =
      (response : EncryptionResponse) × (secret : Text) × (w.encryption_response
        ≡ received response)
      × (w.decrypt response.verify_token ≡ plain w.token)
      × (w.decrypt response.shared_secret ≡ plain secret)
      × (length secret ≡ 16)
      × Knows h.service name (w.auth_digest secret) h.peer_ip
          h.config.server.prevent_proxy_connections p
      × (encryption ≡ some secret)

  pub Authentic : Text → AuthenticatedPlayer → Option Text → Type 0
  Authentic name p encryption =
      ((h.config.server.online_mode ≡ true) × Proven name p encryption)
      ⊎ ((h.config.server.online_mode ≡ false)
          × (p.id ≡ h.service.new_v3 (codes "OfflinePlayer:" ++ name))
          × (p.username ≡ name)
          × (p.properties ≡ []))

  online_login-Proven :
      (s t : ClientState) (name : Text) (p : AuthenticatedPlayer)
      → online_login w h s name ≡ go t p
      → Proven name p t.encryption
  unfolding online_login Proven
  online_login-Proven s t name p e =
      let (s1, _, p1, e1) = >>>-go _ _ t p e in
      let (s2, response, p2, e2) = >>>-go _ _ t p e1 in
      let (s3, token, p3, e3) = >>>-go _ _ t p e2 in
      let (s4, token2, p4, e4) = >>>-go _ _ t p e3 in
      let (s5, secret, p5, e5) = >>>-go _ _ t p e4 in
      let (s6, secret2, p6, e6) = >>>-go _ _ t p e5 in
      let (s7, q, p7, e7) = >>>-go _ _ t p e6 in
      let (s8, key, p8, e8) = >>>-go _ _ t p e7 in
      let (same, sixteen) = check_secret-go w h s5 s6 secret secret2 p6 in
      (
        response,
        secret2,
        (receive-go w h s1 s2 w.encryption_response response p2).0,
        decrypted-go w h s2 s3 _ token p3 ∙ ap plain (check_token-go w h s3 s4 token token2 p4),
        decrypted-go w h s4 s5 _ secret p5 ∙ ap plain same,
        sixteen,
        authenticate-Knows h.service _ _ _ _ p
            (check_player-go w h s6 s7 _ q p7 ∙ ap player (go-value s8 t q p e8)),
        ap (λ x. x.encryption) (sym (go-state s8 t q p e8)) ∙ keyed-go w h s7 s8 secret2 key _ _ p8,
      )

  login_mode-Authentic :
      (s t : ClientState) (name : Text) (p : AuthenticatedPlayer) (online : Bool)
      → h.config.server.online_mode ≡ online
      → login_mode w h s name online ≡ go t p
      → Authentic name p t.encryption
  unfolding login_mode Authentic offline
  login_mode-Authentic s t name p true m e = inl (m, online_login-Proven s t name p e)
  login_mode-Authentic s t name p false m e =
      let same = go-value s t (offline h.service name) p e in
      inr (
        m,
        ap (λ x. x.id) (sym same),
        ap (λ x. x.username) (sym same),
        ap (λ x. x.properties) (sym same),
      )

  login_player-Authentic :
      (s t : ClientState) (name : Text) (p : AuthenticatedPlayer)
      → login_player w h s name ≡ go t p
      → Authentic name p t.encryption
  unfolding login_player
  login_player-Authentic s t name p e =
      login_mode-Authentic s t name p h.config.server.online_mode refl e

  -- The configured fallback, if it is a server and fallbacks are tried.
  IsFallback : Option (Text × BackendConfig) → Type 0
  IsFallback fallback =
      (name : Text) (cfg : BackendConfig)
      → (fallback ≡ some (name, cfg)) ↔ (
          (h.config.routing.try_fallback_on_connect_failure ≡ true)
          × (h.config.routing.fallback_server ≡ some name)
          × (lookup h.config.servers name ≡ some cfg))

  named_cases :
      (o : Option Text) (name : Text) (cfg : BackendConfig)
      → (named_fallback w h o ≡ some (name, cfg))
        ↔ ((o ≡ some name) × (lookup h.config.servers name ≡ some cfg))
  unfolding named_fallback
  named_cases none name cfg = (λ e. absurd cc, λ (e, f). absurd cc)
  named_cases (some given) name cfg =
      let iff = mapped (lookup h.config.servers given) given name cfg in
      (
        λ e.
            let (same, found) = iff.0 e in
            (ap some same, ap (lookup h.config.servers) (sym same) ∙ found),
        λ (e, found).
            let same = given_name given name e in
            iff.1 (same, ap (lookup h.config.servers) same ∙ found),
      )

  fallback_server-IsFallback : IsFallback (fallback_server w h)
  unfolding fallback_server IsFallback
  fallback_server-IsFallback name cfg =
      let named = named_fallback w h h.config.routing.fallback_server in
      let (fits, holds) = named_cases h.config.routing.fallback_server name cfg in
      let (first, second) =
        guarded h.config.routing.try_fallback_on_connect_failure named (name, cfg) in
      (
        λ e.
            let (tries, found) = first e in
            let (given, looked_up) = fits found in (tries, given, looked_up),
        λ (tries, given, looked_up). second (tries, holds (given, looked_up)),
      )

  -- What a bridge is made of: the client's own address and sanitized host, the server that the
  -- router chooses for that host, the fallback, and a player by a name that is valid where names are
  -- validated.
  pub Admits : Text → ClientState → BackendBridge → Type 0
  Admits host t b =
      (name : Text) × (w.login_start ≡ received name)
      × (h.config.security.validate_usernames ≡ true → is_valid_username name ≡ true)
      × Authentic name b.player t.encryption
      × (b.virtual_host ≡ host)
      × (resolve_server h.router host ≡ some (b.server_name, b.config))
      × IsFallback b.fallback_server
      × (b.client_ip ≡ h.peer_ip)

  handle_login-Admits :
      (s t : ClientState) (host : Text) (version : ℕ) (b : BackendBridge)
      → handle_login w h s host version ≡ go t b
      → Admits host t b
  unfolding handle_login new_bridge Admits
  handle_login-Admits s t host version b e =
      let (s1, n1, p1, e1) = >>>-go _ _ t b e in
      let (s2, n2, p2, e2) = >>>-go _ _ t b e1 in
      let (s3, n3, p3, e3) = >>>-go _ _ t b e2 in
      let (s4, q4, p4, e4) = >>>-go _ _ t b e3 in
      let (s5, q5, p5, e5) = >>>-go _ _ t b e4 in
      let (s6, u6, p6, e6) = >>>-go _ _ t b e5 in
      let (s7, found, p7, e7) = >>>-go _ _ t b e6 in
      let bridged = go-value s7 t (new_bridge w h found q5 host version) b e7 in
      let (same5, keys5) = login_event-go w h s4 s5 q4 q5 p5 in
      let keys6 = compress-go w h s5 s6 _ u6 p6 in
      let (routed, keys7) = route-go w h s6 s7 _ found p7 in
      let (same3, keys3, valid) = check_username-go w h s2 s3 n2 n3 p3 in
      let keys : t.encryption ≡ s4.encryption =
        ap (λ x. x.encryption) (sym (go-state s7 t (new_bridge w h found q5 host version) b e7))
        ∙ keys7
        ∙ keys6
        ∙ keys5 in
      let player_eq : q4 ≡ b.player = same5 ∙ ap (λ x. x.player) bridged in
      let authentic : Authentic n3 b.player t.encryption =
        subst (λ x. Authentic n3 x t.encryption) player_eq
          (subst (λ k. Authentic n3 q4 k) (sym keys) (login_player-Authentic s3 s4 n3 q4 p4)) in
      (
        n3,
        (receive-go w h s s1 w.login_start n1 p1).0
            ∙ ap received ((pre_login-go w h s1 s2 n1 host n2 version p2).0 ∙ same3),
        valid,
        authentic,
        ap (λ x. x.virtual_host) (sym bridged),
        routed ∙ ap (λ x. some (x.server_name, x.config)) bridged,
        subst IsFallback (ap (λ x. x.fallback_server) bridged) fallback_server-IsFallback,
        ap (λ x. x.client_ip) (sym bridged),
      )

  after_handshake-Admits :
      (s t : ClientState) (next : NextState) (host : Text) (version : ℕ) (b : BackendBridge)
      → after_handshake w h s next host version ≡ go t (bridge b)
      → (next ≡ to_login) × Admits host t b
  unfolding after_handshake bridge_of
  after_handshake-Admits s t to_status host version b e =
      absurd (let f : status host version ≡ bridge b = go-value s t _ _ e in cc)
  after_handshake-Admits s t to_other host version b e =
      absurd (let f : nothing ≡ bridge b = go-value s t _ _ e in cc)
  after_handshake-Admits s t to_login host version b e =
      let (u, d, p, f) = >>>-go _ _ t (bridge b) e in
      let same : d ≡ b = ap (bridge_of d) (go-value u t (bridge d) (bridge b) f) in
      (
        refl,
        subst (λ x. Admits host t x) same
            (subst (λ x. Admits host x d) (go-state u t (bridge d) (bridge b) f)
              (handle_login-Admits s u host version d p)),
      )

  -- A client that reaches a bridge asked for a login, by a name that is valid where names are
  -- validated; the bridge has the client's own address, its sanitized host, the server that the
  -- router chooses for it, and as its fallback the configured one if that is a server and fallbacks
  -- are tried; and the player is the offline one of that name where the proxy is offline, with the
  -- identity made of that name, and else one of the session server: asked about that name and the
  -- hash of a key of sixteen bytes, and about the client's address where connections through
  -- proxies are prevented, it answered with a status of success and a session with the player's
  -- identity, name and properties; the client sent that key with the proxy's own token, and it
  -- encrypts the stream.
  pub handle-Admits :
      (s t : ClientState) (b : BackendBridge)
      → handle w h s ≡ go t (bridge b)
      → (handshake : Handshake) × (w.handshake ≡ received handshake)
        × (handshake.next_state ≡ to_login)
        × Admits (sanitize_host handshake.server_address) t b
  unfolding handle
  handle-Admits s t b e =
      let (s1, shaken, p1, e1) = >>>-go _ _ t (bridge b) e in
      let (next, admits) = after_handshake-Admits s1 t shaken.next_state _ _ b e1 in
      (shaken, (receive-go w h s s1 w.handshake shaken p1).0, next, admits)
