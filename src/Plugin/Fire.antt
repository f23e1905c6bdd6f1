-- ===== src/Plugin/Fire.antt =====
-- src/plugin/mod.rs: the dispatchers. What a plugin answers depends on the handler, the event and
-- all calls before; the calls are the log that the dispatchers extend.
pub mod Rules
pub mod Claims
pub mod Keeps
use vine.Base.{Bool, false, if◌then◌else◌, List, [], ◌∷◌, ◌++◌, Text}
use vine.Plugin.Api.{
  EventType, on_proxy_ping, on_player_pre_login, on_player_login, on_player_join, on_server_connect,
  on_server_connected, on_player_disconnect, on_player_chat, on_player_command, on_plugin_message,
  Event, proxy_ping, player_pre_login, player_login, player_join, server_connect, server_connected,
  player_disconnect, player_chat, player_command, plugin_message, ProxyPingEvent,
  PlayerPreLoginEvent, PlayerLoginEvent, PlayerJoinEvent, ServerConnectEvent, ServerConnectedEvent,
  PlayerDisconnectEvent, PlayerChatEvent, PlayerCommandEvent, PluginMessageEvent,
}
use vine.Plugin.Handlers.{RegisteredEventHandler, PluginManager, handlers_of}

-- The result of `handle_event`.
pub data Answer : Type 0 where
  handled : Event → Answer
  failed : Answer

pub record Call : Type 0 where
  pub handler : RegisteredEventHandler
  pub event : Event

abbrev pub Plugins : Type 0
Plugins = List Call → RegisteredEventHandler → Event → Answer

-- What an answer does to the event, and whether the loop is left.
unfoldable pub merge_proxy_ping : ProxyPingEvent → Answer → ProxyPingEvent × Bool
merge_proxy_ping e (handled (proxy_ping res)) = (
  record e {
    motd = res.motd;
    max_players = res.max_players;
    online_players = res.online_players;
    version_name = res.version_name;
  },
  false,
)
merge_proxy_ping e _ = (e, false)

unfoldable pub merge_pre_login : PlayerPreLoginEvent → Answer → PlayerPreLoginEvent × Bool
merge_pre_login e (handled (player_pre_login res)) =
    (record e { cancelled = res.cancelled; cancel_reason = res.cancel_reason }, res.cancelled)
merge_pre_login e _ = (e, false)

unfoldable pub merge_login : PlayerLoginEvent → Answer → PlayerLoginEvent × Bool
merge_login e (handled (player_login res)) =
    (record e { cancelled = res.cancelled; cancel_reason = res.cancel_reason }, res.cancelled)
merge_login e _ = (e, false)

unfoldable pub merge_server_connect : ServerConnectEvent → Answer → ServerConnectEvent × Bool
merge_server_connect e (handled (server_connect res)) = (
  record e {
    target_server = res.target_server;
    cancelled = res.cancelled;
    cancel_reason = res.cancel_reason;
  },
  res.cancelled,
)
merge_server_connect e _ = (e, false)

unfoldable pub merge_chat : PlayerChatEvent → Answer → PlayerChatEvent × Bool
merge_chat e (handled (player_chat res)) =
    (record e { message = res.message; cancelled = res.cancelled }, res.cancelled)
merge_chat e _ = (e, false)

unfoldable pub merge_command : PlayerCommandEvent → Answer → PlayerCommandEvent × Bool
merge_command e (handled (player_command res)) =
    (record e { command = res.command; cancelled = res.cancelled }, res.cancelled)
merge_command e _ = (e, false)

unfoldable pub merge_plugin_message : PluginMessageEvent → Answer → PluginMessageEvent × Bool
merge_plugin_message e (handled (plugin_message res)) =
    (record e { data_bytes = res.data_bytes; cancelled = res.cancelled }, res.cancelled)
merge_plugin_message e _ = (e, false)

-- The answers to a notification are dropped.
unfoldable pub merge_none : {E : Type 0} → E → Answer → E × Bool
merge_none e answer = (e, false)

module _ (handle_event : Plugins) where
  -- The loop over the handlers, which each dispatcher has.
  unfoldable pub dispatch :
      {E : Type 0}
      → (E → Event)
      → (E → Answer → E × Bool)
      → List Call
      → List RegisteredEventHandler
      → E
      → List Call × E
  dispatch wrap merge calls [] e = (calls, e)
  dispatch wrap merge calls (h ∷ hs) e =
      let now = calls ++ record { handler = h; event = wrap e } ∷ [] in
      let out = merge e (handle_event calls h (wrap e)) in
      let rest = dispatch wrap merge now hs out.0 in if out.1 then (now, out.0) else rest

  module _ (m : PluginManager) (calls : List Call) where
    unfoldable pub fire_proxy_ping : ProxyPingEvent → List Call × ProxyPingEvent
    fire_proxy_ping = dispatch proxy_ping merge_proxy_ping calls (handlers_of m on_proxy_ping)

    unfoldable pub fire_player_pre_login : PlayerPreLoginEvent → List Call × PlayerPreLoginEvent
    fire_player_pre_login =
        dispatch player_pre_login merge_pre_login calls (handlers_of m on_player_pre_login)

    unfoldable pub fire_player_login : PlayerLoginEvent → List Call × PlayerLoginEvent
    fire_player_login = dispatch player_login merge_login calls (handlers_of m on_player_login)

    unfoldable pub fire_player_join : PlayerJoinEvent → List Call
    fire_player_join e = (dispatch player_join merge_none calls (handlers_of m on_player_join) e).0

    unfoldable pub fire_server_connect : ServerConnectEvent → List Call × ServerConnectEvent
    fire_server_connect =
        dispatch server_connect merge_server_connect calls (handlers_of m on_server_connect)

    unfoldable pub fire_server_connected : ServerConnectedEvent → List Call
    fire_server_connected e =
        (dispatch server_connected merge_none calls (handlers_of m on_server_connected) e).0

    unfoldable pub fire_player_disconnect : PlayerDisconnectEvent → List Call
    fire_player_disconnect e =
        (dispatch player_disconnect merge_none calls (handlers_of m on_player_disconnect) e).0

    unfoldable pub fire_player_chat : PlayerChatEvent → List Call × PlayerChatEvent
    fire_player_chat = dispatch player_chat merge_chat calls (handlers_of m on_player_chat)

    unfoldable pub fire_player_command : PlayerCommandEvent → List Call × PlayerCommandEvent
    fire_player_command =
        dispatch player_command merge_command calls (handlers_of m on_player_command)

    unfoldable pub fire_plugin_message : PluginMessageEvent → List Call × PluginMessageEvent
    fire_plugin_message =
        dispatch plugin_message merge_plugin_message calls (handlers_of m on_plugin_message)
