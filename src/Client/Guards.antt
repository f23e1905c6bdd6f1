-- ===== src/Client/Guards.antt =====
-- What stands between a client of src/client.rs and a bridge.
use vine.Base.{
  ℕ, ℤ, pos, negsuc, zero, suc, Bool, true, false, ◌&&◌, not, ◌==◌, ==_iff, Option, none, some,
  Text, codes, text_eq, text_eq_iff, text_key, length, Bool-cases, ◌≡◌, ◌≢◌, refl, sym, ap, ◌∙◌,
  arith, inl, inr,
}
use vine.Config.{BackendConfig}
use vine.Security.Sanitizer.{is_valid_username}
use vine.Backend.Forwarding.{AuthenticatedPlayer}
use vine.Auth.{Authenticated, player, refused}
use vine.Client.{
  ClientHandler, ClientState, ClientError, Wire, Flow, go, closed, errored, ◌>>>◌, Received,
  received, undecodable, too_late, Sent, Decrypted, plain, broken, receive, kicked, kick, kick_with,
  wrote, send, unless_cancelled, pre_login, check_username, decrypted, check_token, check_secret,
  check_player, keyed, login_event, compress, route,
}

-- A flow that goes on went on in both of its parts.
pub >>>-go :
    {A B : Type 0} (x : Flow A) (f : ClientState → A → Flow B) (t : ClientState) (b : B)
    → (x >>> f) ≡ go t b
    → (s : ClientState) × (a : A) × (x ≡ go s a) × (f s a ≡ go t b)
unfolding ◌>>>◌
>>>-go (go s a) f t b e = (s, a, refl, e)
>>>-go (closed s) f t b e = cc
>>>-go (errored s x) f t b e = cc

-- The state and the value that two flows agree on.
go_state : {A : Type 0} (default : ClientState) → Flow A → ClientState
go_state default (go s a) = s
go_state default _ = default

pub go-state : {A : Type 0} (s t : ClientState) (a b : A) → go s a ≡ go t b → s ≡ t
unfolding go_state
go-state s t a b e = ap (go_state s) e

go_value : {A : Type 0} (default : A) → Flow A → A
go_value default (go s a) = a
go_value default _ = default

pub go-value : {A : Type 0} (s t : ClientState) (a b : A) → go s a ≡ go t b → a ≡ b
unfolding go_value
go-value s t a b e = ap (go_value a) e

module _ (w : Wire) (h : ClientHandler) where
  -- A flow that goes on has the same keys and this value.
  abbrev pub Passes : {A : Type 0} → ClientState → A → ClientState → A → Type 0
  Passes s a t b = (a ≡ b) × (t.encryption ≡ s.encryption)

  go-Passes : {A : Type 0} (s t : ClientState) (a b : A) → go s a ≡ go t b → Passes s a t b
  go-Passes s t a b e = (go-value s t a b e, ap (λ x. x.encryption) (sym (go-state s t a b e)))

  kicked-stops :
      {A : Type 0} (s t : ClientState) (o : Option Text) (after : Flow A) (b : A)
      → (after ≢ go t b)
      → kicked w h s o after ≢ go t b
  unfolding kicked
  kicked-stops s t none after b n e = n e
  kicked-stops s t (some x) after b n e = cc

  closed-stops : {A : Type 0} (s t : ClientState) (b : A) → closed s ≢ go t b
  closed-stops s t b e = cc

  errored-stops : {A : Type 0} (s t : ClientState) (x : ClientError) (b : A) → errored s x ≢ go t b
  errored-stops s t x b e = cc

  kick-stops : {A : Type 0} (s t : ClientState) (reason : Text) (b : A) → kick w h s reason ≢ go t b
  unfolding kick
  kick-stops s t reason b = kicked-stops s t _ _ b (closed-stops _ t b)

  kick_with-stops :
      {A : Type 0} (s t : ClientState) (reason error : Text) (b : A)
      → kick_with w h s reason error ≢ go t b
  unfolding kick_with
  kick_with-stops s t reason error b = kicked-stops s t _ _ b (errored-stops _ t _ b)

  pub receive-go :
      {A : Type 0} (s t : ClientState) (r : Received A) (a : A)
      → receive w h s r ≡ go t a
      → (r ≡ received a) × (t.encryption ≡ s.encryption)
  unfolding receive
  receive-go s t (received x) a e = let (p, q) = go-Passes s t x a e in (ap received p, q)
  receive-go s t (undecodable x) a e = cc
  receive-go s t too_late a e = cc

  pub decrypted-go :
      (s t : ClientState) (d : Decrypted) (text : Text)
      → decrypted w h s d ≡ go t text
      → d ≡ plain text
  unfolding decrypted
  decrypted-go s t (plain x) text e = ap plain (go-value s t x text e)
  decrypted-go s t (broken x) text e = cc

  pub check_player-go :
      (s t : ClientState) (r : Authenticated) (p : AuthenticatedPlayer)
      → check_player w h s r ≡ go t p
      → r ≡ player p
  unfolding check_player
  check_player-go s t (player q) p e = ap player (go-value s t q p e)
  check_player-go s t (refused x) p e = absurd (
      kick_with-stops s t
        (codes "Failed to verify username with Mojang session servers! Please try again later.")
        (w.show_auth_error x) p e)

  pub check_token-go :
      (s t : ClientState) (token r : Text) → check_token w h s token ≡ go t r → token ≡ w.token
  unfolding check_token
  check_token-go s t token r e = elim (Bool-cases (text_eq token w.token)) [
    | inl y ↦ (text_eq_iff token w.token).0 y
    | inr n ↦ absurd (
        kick_with-stops s t (codes "Failed to verify encryption token") (codes "Token mismatch") r
          (rw n at e))
  ]

  pub check_secret-go :
      (s t : ClientState) (secret r : Text)
      → check_secret w h s secret ≡ go t r
      → (secret ≡ r) × (length r ≡ 16)
  unfolding check_secret
  check_secret-go s t secret r e = elim (Bool-cases (length secret == 16)) [
    | inl y ↦
        let p : secret ≡ r = go-value s t secret r (rw y at e) in
        (p, ap length (sym p) ∙ (==_iff (length secret) 16).0 y)
    | inr n ↦ absurd (
        kick_with-stops s t (codes "Invalid encryption key length") (codes "Invalid key length") r
          (rw n at e))
  ]

  pub keyed-go :
      (s t : ClientState) (key r : Text) (d o : Option Text)
      → keyed w h s key d o ≡ go t r
      → t.encryption ≡ some key
  unfolding keyed
  keyed-go s t key r none none e = ap (λ x. x.encryption) (sym (go-state _ t key r e))
  keyed-go s t key r (some x) o e = cc
  keyed-go s t key r none (some x) e = cc

  pub check_username-go :
      (s t : ClientState) (name r : Text)
      → check_username w h s name ≡ go t r
      → (name ≡ r)
        × (t.encryption ≡ s.encryption)
        × (h.config.security.validate_usernames ≡ true → is_valid_username r ≡ true)
  unfolding check_username
  check_username-go s t name r e =
      let refuses = h.config.security.validate_usernames && not (is_valid_username name) in
      elim (Bool-cases refuses) [
        | inl y ↦ absurd (
            kick-stops s t
              (codes "Invalid username characters or length (must be 2-16 alphanumeric or _)") r
              (rw y at e))
        | inr n ↦
            let (p, q) = go-Passes s t name r (rw n at e) in
            let valid : h.config.security.validate_usernames ≡ true
                → is_valid_username name ≡ true =
              λ v. ground arith in
            (p, q, λ v. ap is_valid_username (sym p) ∙ valid v)
      ]

  -- A test of a plugin's answer that a flow went on behind.
  uncancelled :
      {A : Type 0} (c : Bool) (s t : ClientState) (reason : Text) (a r : A)
      → unless_cancelled w h s c reason a ≡ go t r
      → Passes s a t r
  unfolding unless_cancelled
  uncancelled true s t reason a r e = absurd (kick-stops s t reason r e)
  uncancelled false s t reason a r e = go-Passes s t a r e

  pub pre_login-go :
      (s t : ClientState) (name host r : Text) (version : ℕ)
      → pre_login w h s name host version ≡ go t r
      → Passes s name t r
  unfolding pre_login
  pre_login-go s t name host r version e = uncancelled _ _ t _ name r e

  pub login_event-go :
      (s t : ClientState) (p r : AuthenticatedPlayer)
      → login_event w h s p ≡ go t r
      → Passes s p t r
  unfolding login_event
  login_event-go s t p r e = uncancelled _ _ t _ p r e

  pub wrote-go :
      (s t : ClientState) (packet : Sent) (o : Option Text) (r : ClientState)
      → wrote w h s packet o ≡ go t r
      → t.encryption ≡ s.encryption
  unfolding wrote
  wrote-go s t packet none r e = ap (λ x. x.encryption) (sym (go-state _ t _ r e))
  wrote-go s t packet (some x) r e = cc

  pub compress-go :
      (s t : ClientState) (threshold : ℤ) (r : ClientState)
      → compress w h s threshold ≡ go t r
      → t.encryption ≡ s.encryption
  unfolding compress send
  compress-go s t (pos (suc n)) r e =
      let (u, a, p, q) = >>>-go _ _ t r e in
      ap (λ x. x.encryption) (sym (go-state _ t _ r q)) ∙ wrote-go s u _ _ a p
  compress-go s t (pos zero) r e = ap (λ x. x.encryption) (sym (go-state s t s r e))
  compress-go s t (negsuc n) r e = ap (λ x. x.encryption) (sym (go-state s t s r e))

  pub route-go :
      (s t : ClientState) (o : Option (Text × BackendConfig)) (r : Text × BackendConfig)
      → route w h s o ≡ go t r
      → (o ≡ some r) × (t.encryption ≡ s.encryption)
  unfolding route
  route-go s t (some x) r e = let (p, q) = go-Passes s t x r e in (ap some p, q)
  route-go s t none r e = absurd (
      kick-stops s t
        (codes "No default or matching backend Minecraft server is configured on the proxy.") r e)
