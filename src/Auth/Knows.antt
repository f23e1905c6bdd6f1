-- ===== src/Auth/Knows.antt =====
-- src/auth.rs: what the session server has said of a player.
use vine.Base.{
  ℕ, ◌≤◌, ◌<◌, Bool, true, false, [], ◌++◌, Option, none, some, Text, codes, map, IpAddr, ◌≡◌, inl,
  inr, refl, subst, ap, arith, Bool-cases,
}
use vine.Backend.Forwarding.{AuthenticatedPlayer}
use vine.Auth.{
  AuthError, Authenticated, player, refused, Response, Service, MojangSessionResponse, is_success,
  to_property, session_url, with_uuid, with_session, with_body, with_response, authenticate,
}

player_of : AuthenticatedPlayer → Authenticated → AuthenticatedPlayer
player_of default (player p) = p
player_of default (refused e) = default

player_eq : (p q : AuthenticatedPlayer) → player p ≡ player q → p ≡ q
unfolding player_of
player_eq p q e = ap (player_of p) e

module _ (service : Service) (name server_hash : Text) (client_ip : IpAddr) (prevent : Bool) where
  -- The address that was asked for: of the name and the hash, and of the client's address where
  -- connections through proxies are prevented.
  abbrev pub Asks : Text → Type 0
  Asks url =
      (end : Text) × (url
        ≡ codes "https://sessionserver.mojang.com/session/minecraft/hasJoined?username="
          ++ (name ++ (codes "&serverId=" ++ (server_hash ++ end))))
      × (prevent ≡ true → end ≡ codes "&ip=" ++ service.show_ip client_ip)
      × (prevent ≡ false → end ≡ [])

  -- The server was asked about the name and the hash, answered with a status of success, and its
  -- answer is a session of this player.
  abbrev pub Knows : AuthenticatedPlayer → Type 0
  Knows p =
      (url : Text) × (response : Response) × (body : Text) × (session : MojangSessionResponse)
      × Asks url
      × (service.get url ≡ some response)
      × (200 ≤ response.status)
      × (response.status < 300)
      × (response.body ≡ some body)
      × (service.parse_session body ≡ some session)
      × (service.parse_uuid session.id ≡ some p.id)
      × (p.username ≡ session.name)
      × (p.properties
          ≡ map (λ q. record { name = q.name; value = q.value; signature = q.signature })
              session.properties)

  refused_stops : (e : AuthError) (p : AuthenticatedPlayer) → ¬ (refused e ≡ player p)
  refused_stops e p h = absurd cc

  asked : Asks (session_url service name server_hash client_ip prevent)
  unfolding session_url
  asked = (_, refl, (λ e. rw e refl), (λ e. rw e refl))

  success_bounds : (status : ℕ) → is_success status ≡ true → (200 ≤ status) × (status < 300)
  unfolding is_success
  success_bounds status e = ground arith

  with_uuid-Knows :
      (url : Text) (response : Response) (body : Text) (session : MojangSessionResponse)
      (o : Option Text) (p : AuthenticatedPlayer)
      → Asks url
      → service.get url ≡ some response
      → (200 ≤ response.status) × (response.status < 300)
      → response.body ≡ some body
      → service.parse_session body ≡ some session
      → service.parse_uuid session.id ≡ o
      → with_uuid service session o ≡ player p
      → Knows p
  unfolding with_uuid to_property
  with_uuid-Knows url response body session none p asks got bounds read parsed id e = absurd cc
  with_uuid-Knows url response body session (some uuid) p asks got bounds read parsed id e =
      let same = player_eq _ p e in
      subst Knows same
        (url, response, body, session, asks, got, bounds.0, bounds.1, read, parsed, id, refl, refl)

  with_session-Knows :
      (url : Text) (response : Response) (body : Text) (o : Option MojangSessionResponse)
      (p : AuthenticatedPlayer)
      → Asks url
      → service.get url ≡ some response
      → (200 ≤ response.status) × (response.status < 300)
      → response.body ≡ some body
      → service.parse_session body ≡ o
      → with_session service o ≡ player p
      → Knows p
  unfolding with_session
  with_session-Knows url response body none p asks got bounds read parsed e = absurd cc
  with_session-Knows url response body (some session) p asks got bounds read parsed e =
      with_uuid-Knows url response body session _ p asks got bounds read parsed refl e

  with_body-Knows :
      (url : Text) (response : Response) (o : Option Text) (p : AuthenticatedPlayer)
      → Asks url
      → service.get url ≡ some response
      → (200 ≤ response.status) × (response.status < 300)
      → response.body ≡ o
      → with_body service o ≡ player p
      → Knows p
  unfolding with_body
  with_body-Knows url response none p asks got bounds read e = absurd cc
  with_body-Knows url response (some body) p asks got bounds read e =
      with_session-Knows url response body _ p asks got bounds read refl e

  with_response-Knows :
      (url : Text) (o : Option Response) (p : AuthenticatedPlayer)
      → Asks url
      → service.get url ≡ o
      → with_response service o ≡ player p
      → Knows p
  unfolding with_response
  with_response-Knows url none p asks got e = absurd cc
  with_response-Knows url (some response) p asks got e =
      elim (Bool-cases (is_success response.status)) [
        | inl y ↦
            with_body-Knows url response _ p asks got (success_bounds response.status y) refl
              (rw y at e)
        | inr n ↦ absurd (refused_stops _ p (rw n at e))
      ]

  pub authenticate-Knows :
      (p : AuthenticatedPlayer)
      → authenticate service name server_hash client_ip prevent ≡ player p
      → Knows p
  unfolding authenticate
  authenticate-Knows p e = with_response-Knows _ _ p asked refl e
