-- ===== src/Auth.antt =====
-- src/auth.rs: who a player is. The HTTP client, the readers of JSON and of identities, and the
-- hash behind an offline identity are the parameter `Service`.
pub mod Query
pub mod Knows
mod Tests
use vine.Base.{
  ℕ, Bool, true, false, leb, ltb, ◌&&◌, if◌then◌else◌, List, [], ◌∷◌, ◌++◌, Option, none, some,
  Text, codes, map, IpAddr,
}
use vine.Backend.Forwarding.{Property, AuthenticatedPlayer}

pub data AuthError : Type 0 where
  decrypt_error : Text → AuthError
  verify_token_mismatch : AuthError
  mojang_auth_failed : ℕ → AuthError
  network_error json_error invalid_uuid : AuthError

pub record MojangProperty : Type 0 where
  pub name : Text
  pub value : Text
  pub signature : Option Text

pub record MojangSessionResponse : Type 0 where
  pub id : Text
  pub name : Text
  pub properties : List MojangProperty

pub data Authenticated : Type 0 where
  player : AuthenticatedPlayer → Authenticated
  refused : AuthError → Authenticated

-- An answer over HTTP, whose body may fail to arrive.
pub record Response : Type 0 where
  pub status : ℕ
  pub body : Option Text

pub record Service : Type 0 where
  pub get : Text → Option Response
  pub parse_session : Text → Option MojangSessionResponse
  pub parse_uuid : Text → Option Text
  pub show_ip : IpAddr → Text
  -- `Uuid::new_v3` in the nil namespace
  pub new_v3 : Text → Text

abbrev pub session_server : Text
session_server = codes "https://sessionserver.mojang.com/session/minecraft/hasJoined?username="

-- `StatusCode::is_success`
unfoldable pub is_success : ℕ → Bool
is_success status = leb 200 status && ltb status 300

unfoldable pub to_property : MojangProperty → Property
to_property p = record { name = p.name; value = p.value; signature = p.signature }

module _ (service : Service) where
  open service use {get, parse_session, parse_uuid, show_ip, new_v3}

  unfoldable pub offline : Text → AuthenticatedPlayer
  offline username = record {
    id = new_v3 (codes "OfflinePlayer:" ++ username);
    username = username;
    properties = [];
  }

  unfoldable pub session_url : Text → Text → IpAddr → Bool → Text
  session_url username server_hash client_ip prevent_proxy_connections =
      let end = if prevent_proxy_connections then codes "&ip=" ++ show_ip client_ip else [] in
      session_server ++ (username ++ (codes "&serverId=" ++ (server_hash ++ end)))

  with_uuid : MojangSessionResponse → Option Text → Authenticated
  with_uuid session none = refused invalid_uuid
  with_uuid session (some uuid) = player (record {
    id = uuid;
    username = session.name;
    properties = map to_property session.properties;
  })

  with_session : Option MojangSessionResponse → Authenticated
  unfolding with_uuid
  with_session none = refused json_error
  with_session (some session) = with_uuid session (parse_uuid session.id)

  with_body : Option Text → Authenticated
  unfolding with_session
  with_body none = refused network_error
  with_body (some body) = with_session (parse_session body)

  with_response : Option Response → Authenticated
  unfolding with_body
  with_response none = refused network_error
  with_response (some response) =
      if is_success response.status
      then with_body response.body
      else refused (mojang_auth_failed response.status)

  unfoldable pub authenticate : Text → Text → IpAddr → Bool → Authenticated
  unfolding with_response
  authenticate username server_hash client_ip prevent_proxy_connections =
      with_response (get (session_url username server_hash client_ip prevent_proxy_connections))
