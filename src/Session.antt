-- ===== src/Session.antt =====
-- src/session.rs: the registry of connected players. The lock is the map itself and whether a
-- panic poisoned it. The sender of a player's actions is the number of its channel.
pub mod Laws
pub mod Invariant
pub mod History
mod Tests
use vine.Base.{
  ℕ, Bool, true, false, if◌then◌else◌, List, [], ◌∷◌, Option, none, some, length, map, Text,
  to_ascii_lowercase, text_key, lookup, insert, remove,
}

pub data PlayerAction : Type 0 where
  connect : Text → PlayerAction
  transfer : Text → ℕ → PlayerAction
  message : Text → PlayerAction
  disconnect : Text → PlayerAction
  plugin_message : Text → Text → PlayerAction

pub record PlayerSession : Type 0 where
  pub username : Text
  pub uuid : ℕ
  pub current_server : Text
  pub action_tx : ℕ
  pub client_ip : Text
  pub protocol_version : ℕ

pub record SessionManager : Type 0 where
  pub sessions : List (Text × PlayerSession)
  pub poisoned : Bool

unfoldable pub new : SessionManager
new = record { sessions = []; poisoned = false }

unfoldable pub register : SessionManager → PlayerSession → SessionManager
register m session =
    if m.poisoned
    then m
    else record m { sessions = insert m.sessions (to_ascii_lowercase session.username) session }

unfoldable pub unregister : SessionManager → Text → SessionManager × Option PlayerSession
unregister m username = if m.poisoned then (m, none) else (
  record m { sessions = remove m.sessions (to_ascii_lowercase username) },
  lookup m.sessions (to_ascii_lowercase username),
)

-- A write through `get_mut`, if the key is there.
set_server :
    List (Text × PlayerSession) → Text → Text → Option PlayerSession → List (Text × PlayerSession)
set_server m key new_server none = m
set_server m key new_server (some s) = insert m key (record s { current_server = new_server })

unfoldable pub update_server : SessionManager → Text → Text → SessionManager
unfolding set_server
update_server m username new_server =
    let key = to_ascii_lowercase username in
    if m.poisoned
    then m
    else record m { sessions = set_server m.sessions key new_server (lookup m.sessions key) }

unfoldable pub get_session : SessionManager → Text → Option PlayerSession
get_session m username =
    if m.poisoned then none else lookup m.sessions (to_ascii_lowercase username)

unfoldable pub list_sessions : SessionManager → List PlayerSession
list_sessions m = if m.poisoned then [] else map (λ e. e.1) m.sessions

unfoldable pub count : SessionManager → ℕ
count m = if m.poisoned then 0 else length m.sessions
