-- ===== src/Plugin/Fire/Keeps.antt =====
-- What no plugin changes, and plugins that fail, in the dispatchers of src/plugin/mod.rs.
use vine.Base.{List, Text, Option, ℕ, ◌≡◌, refl}
use vine.Plugin.Api.{
  on_proxy_ping, on_player_pre_login, on_player_login, on_server_connect, on_player_chat,
  on_player_command, on_plugin_message, proxy_ping, player_pre_login, player_login, server_connect,
  player_chat, player_command, plugin_message, ProxyPingEvent, PlayerPreLoginEvent,
  PlayerLoginEvent, ServerConnectEvent, PlayerChatEvent, PlayerCommandEvent, PluginMessageEvent,
}
use vine.Plugin.Handlers.{PluginManager, handlers_of}
use vine.Plugin.Fire.{
  Answer, handled, Call, Plugins, merge_proxy_ping, merge_pre_login, merge_login,
  merge_server_connect, merge_chat, merge_command, merge_plugin_message, fire_proxy_ping,
  fire_player_pre_login, fire_player_login, fire_server_connect, fire_player_chat,
  fire_player_command, fire_plugin_message,
}
use vine.Plugin.Fire.Rules.{dispatch-keeps}

-- The fields that an answer leaves.
abbrev pub proxy_ping_kept : ProxyPingEvent → Text × ℕ × Text
proxy_ping_kept x = (x.client_ip, x.protocol_version, x.virtual_host)

merge_proxy_ping_keeps :
    (e : ProxyPingEvent) (a : Answer)
    → proxy_ping_kept ((merge_proxy_ping e a).0) ≡ proxy_ping_kept e
unfolding merge_proxy_ping
merge_proxy_ping_keeps e (handled (proxy_ping r)) = refl
merge_proxy_ping_keeps e _ = refl

-- The fields that an answer leaves.
abbrev pub player_pre_login_kept : PlayerPreLoginEvent → Text × Text × ℕ × Text
player_pre_login_kept x = (x.client_ip, x.username, x.protocol_version, x.virtual_host)

merge_pre_login_keeps :
    (e : PlayerPreLoginEvent) (a : Answer)
    → player_pre_login_kept ((merge_pre_login e a).0) ≡ player_pre_login_kept e
unfolding merge_pre_login
merge_pre_login_keeps e (handled (player_pre_login r)) = refl
merge_pre_login_keeps e _ = refl

-- The fields that an answer leaves.
abbrev pub player_login_kept : PlayerLoginEvent → Text × Text × Text
player_login_kept x = (x.uuid, x.username, x.client_ip)

merge_login_keeps :
    (e : PlayerLoginEvent) (a : Answer)
    → player_login_kept ((merge_login e a).0) ≡ player_login_kept e
unfolding merge_login
merge_login_keeps e (handled (player_login r)) = refl
merge_login_keeps e _ = refl

-- The fields that an answer leaves.
abbrev pub server_connect_kept : ServerConnectEvent → Text × Text × Option Text
server_connect_kept x = (x.uuid, x.username, x.current_server)

merge_server_connect_keeps :
    (e : ServerConnectEvent) (a : Answer)
    → server_connect_kept ((merge_server_connect e a).0) ≡ server_connect_kept e
unfolding merge_server_connect
merge_server_connect_keeps e (handled (server_connect r)) = refl
merge_server_connect_keeps e _ = refl

-- The fields that an answer leaves.
abbrev pub player_chat_kept : PlayerChatEvent → Text × Text
player_chat_kept x = (x.uuid, x.username)

merge_chat_keeps :
    (e : PlayerChatEvent) (a : Answer) → player_chat_kept ((merge_chat e a).0) ≡ player_chat_kept e
unfolding merge_chat
merge_chat_keeps e (handled (player_chat r)) = refl
merge_chat_keeps e _ = refl

-- The fields that an answer leaves.
abbrev pub player_command_kept : PlayerCommandEvent → Text × Text
player_command_kept x = (x.uuid, x.username)

merge_command_keeps :
    (e : PlayerCommandEvent) (a : Answer)
    → player_command_kept ((merge_command e a).0) ≡ player_command_kept e
unfolding merge_command
merge_command_keeps e (handled (player_command r)) = refl
merge_command_keeps e _ = refl

-- The fields that an answer leaves.
abbrev pub plugin_message_kept : PluginMessageEvent → Text × Option Text × Option Text
plugin_message_kept x = (x.channel, x.player_uuid, x.server_name)

merge_plugin_message_keeps :
    (e : PluginMessageEvent) (a : Answer)
    → plugin_message_kept ((merge_plugin_message e a).0) ≡ plugin_message_kept e
unfolding merge_plugin_message
merge_plugin_message_keeps e (handled (plugin_message r)) = refl
merge_plugin_message_keeps e _ = refl

module _ (handle_event : Plugins) (m : PluginManager) (calls : List Call) where
  -- No answers of plugins change who an event is about: the client's address, identity and name,
  -- its version and host, the server it is on, and the channel of a message are those that the
  -- event was fired with.
  pub fire_keeps :
      (a : ProxyPingEvent) (b : PlayerPreLoginEvent) (c : PlayerLoginEvent) (d : ServerConnectEvent)
      (e : PlayerChatEvent) (f : PlayerCommandEvent) (g : PluginMessageEvent)
      → (proxy_ping_kept (fire_proxy_ping handle_event m calls a).1 ≡ proxy_ping_kept a)
        × (player_pre_login_kept (fire_player_pre_login handle_event m calls b).1
            ≡ player_pre_login_kept b)
        × (player_login_kept (fire_player_login handle_event m calls c).1 ≡ player_login_kept c)
        × (server_connect_kept (fire_server_connect handle_event m calls d).1
            ≡ server_connect_kept d)
        × (player_chat_kept (fire_player_chat handle_event m calls e).1 ≡ player_chat_kept e)
        × (player_command_kept (fire_player_command handle_event m calls f).1
            ≡ player_command_kept f)
        × (plugin_message_kept (fire_plugin_message handle_event m calls g).1
            ≡ plugin_message_kept g)
  unfolding fire_proxy_ping fire_player_pre_login fire_player_login fire_server_connect
      fire_player_chat fire_player_command fire_plugin_message
  fire_keeps a b c d e f g = (
    dispatch-keeps handle_event proxy_ping merge_proxy_ping proxy_ping_kept merge_proxy_ping_keeps
        calls (handlers_of m on_proxy_ping) a,
    dispatch-keeps handle_event player_pre_login merge_pre_login player_pre_login_kept
        merge_pre_login_keeps calls (handlers_of m on_player_pre_login) b,
    dispatch-keeps handle_event player_login merge_login player_login_kept merge_login_keeps calls
        (handlers_of m on_player_login) c,
    dispatch-keeps handle_event server_connect merge_server_connect server_connect_kept
        merge_server_connect_keeps calls (handlers_of m on_server_connect) d,
    dispatch-keeps handle_event player_chat merge_chat player_chat_kept merge_chat_keeps calls
        (handlers_of m on_player_chat) e,
    dispatch-keeps handle_event player_command merge_command player_command_kept merge_command_keeps
        calls (handlers_of m on_player_command) f,
    dispatch-keeps handle_event plugin_message merge_plugin_message plugin_message_kept
        merge_plugin_message_keeps calls (handlers_of m on_plugin_message) g,
  )
