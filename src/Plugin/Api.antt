-- ===== src/Plugin/Api.antt =====
-- src/plugin/api.rs: priorities, event types and events. `Event` is what a handler of a plugin is
-- given and answers, the `event` of wit/event.wit, whose records have the same fields.
use vine.Base.{
  ℕ, Bool, true, ◌==◌, ==_iff, Text, Option, List, [], ◌∷◌, get_or, Eq, ◌≡◌, ◌↔◌, refl, sym, ap,
  ◌∙◌,
}

pub data EventPriority : Type 0 where
  lowest low normal high highest monitor : EventPriority

-- The discriminants, which the derived order compares.
unfoldable pub rank : EventPriority → ℕ
rank lowest = 0
rank low = 1
rank normal = 2
rank high = 3
rank highest = 4
rank monitor = 5

pub data EventType : Type 0 where
  on_proxy_ping on_player_pre_login on_player_login on_player_join on_server_connect : EventType
  on_server_connected on_player_disconnect on_player_chat on_player_command : EventType
  on_plugin_message : EventType

abbrev index : EventType → ℕ
index on_proxy_ping = 0
index on_player_pre_login = 1
index on_player_login = 2
index on_player_join = 3
index on_server_connect = 4
index on_server_connected = 5
index on_player_disconnect = 6
index on_player_chat = 7
index on_player_command = 8
index on_plugin_message = 9

-- The type of an index, which shows that types with one index are one type.
from_index : ℕ → EventType
from_index n = get_or types n on_plugin_message
  where
    types : List EventType
    types =
        on_proxy_ping ∷ on_player_pre_login ∷ on_player_login ∷ on_player_join ∷ on_server_connect
        ∷ on_server_connected ∷ on_player_disconnect ∷ on_player_chat ∷ on_player_command ∷ []

from_index-index : (t : EventType) → from_index (index t) ≡ t
unfolding from_index
from_index-index on_proxy_ping = refl
from_index-index on_player_pre_login = refl
from_index-index on_player_login = refl
from_index-index on_player_join = refl
from_index-index on_server_connect = refl
from_index-index on_server_connected = refl
from_index-index on_player_disconnect = refl
from_index-index on_player_chat = refl
from_index-index on_player_command = refl
from_index-index on_plugin_message = refl

unfoldable pub same_type : EventType → EventType → Bool
same_type a b = index a == index b

pub same_type_iff : (a b : EventType) → (same_type a b ≡ true) ↔ (a ≡ b)
unfolding same_type
same_type_iff a b = (
  λ h.
      sym (from_index-index a)
      ∙ ap from_index ((==_iff (index a) (index b)).0 h)
      ∙ from_index-index b,
  λ e. (==_iff (index a) (index b)).1 (ap index e),
)

instance abbrev pub type_key : Eq EventType
type_key = record { beq = same_type; beq_iff = same_type_iff }

pub record ProxyPingEvent : Type 0 where
  pub client_ip : Text
  pub protocol_version : ℕ
  pub virtual_host : Text
  pub motd : Text
  pub max_players : ℕ
  pub online_players : ℕ
  pub version_name : Text

pub record PlayerPreLoginEvent : Type 0 where
  pub client_ip : Text
  pub username : Text
  pub protocol_version : ℕ
  pub virtual_host : Text
  pub cancelled : Bool
  pub cancel_reason : Option Text

pub record PlayerLoginEvent : Type 0 where
  pub uuid : Text
  pub username : Text
  pub client_ip : Text
  pub cancelled : Bool
  pub cancel_reason : Option Text

pub record PlayerJoinEvent : Type 0 where
  pub uuid : Text
  pub username : Text
  pub client_ip : Text
  pub initial_server : Text

pub record ServerConnectEvent : Type 0 where
  pub uuid : Text
  pub username : Text
  pub current_server : Option Text
  pub target_server : Text
  pub cancelled : Bool
  pub cancel_reason : Option Text

pub record ServerConnectedEvent : Type 0 where
  pub uuid : Text
  pub username : Text
  pub server_name : Text

pub record PlayerDisconnectEvent : Type 0 where
  pub uuid : Text
  pub username : Text
  pub last_server : Option Text

pub record PlayerChatEvent : Type 0 where
  pub uuid : Text
  pub username : Text
  pub message : Text
  pub cancelled : Bool

pub record PlayerCommandEvent : Type 0 where
  pub uuid : Text
  pub username : Text
  pub command : Text
  pub cancelled : Bool

pub record PluginMessageEvent : Type 0 where
  pub channel : Text
  pub data_bytes : Text
  pub player_uuid : Option Text
  pub server_name : Option Text
  pub cancelled : Bool

pub data Event : Type 0 where
  proxy_ping : ProxyPingEvent → Event
  player_pre_login : PlayerPreLoginEvent → Event
  player_login : PlayerLoginEvent → Event
  player_join : PlayerJoinEvent → Event
  server_connect : ServerConnectEvent → Event
  server_connected : ServerConnectedEvent → Event
  player_disconnect : PlayerDisconnectEvent → Event
  player_chat : PlayerChatEvent → Event
  player_command : PlayerCommandEvent → Event
  plugin_message : PluginMessageEvent → Event
