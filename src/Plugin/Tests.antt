-- ===== src/Plugin/Tests.antt =====
-- Handlers and events on concrete plugins.
use vine.Base.{ℕ, true, false, List, [], ◌∷◌, none, codes, length, ◌≡◌, refl, lookup, insert}
use vine.Plugin.Api.{
  EventPriority, lowest, normal, monitor, EventType, on_player_chat, on_player_login,
  on_player_pre_login, on_server_connect, on_player_command, on_plugin_message, on_proxy_ping,
  Event, player_chat, player_login, player_pre_login, server_connect, player_command,
  plugin_message, proxy_ping, PlayerPreLoginEvent, PlayerLoginEvent, ServerConnectEvent,
  PlayerChatEvent, PlayerCommandEvent, PluginMessageEvent, ProxyPingEvent,
}
use vine.Plugin.Handlers.{
  RegisteredEventHandler, PluginManager, new, handlers_of, Entry, load_plugins,
}
use vine.Plugin.Order.{IsSorted, with_priority}
use vine.Plugin.Order.History.{Request, run, requested, run_ordered}
use vine.Plugin.Fire.{
  Answer, handled, failed, Call, Plugins, fire_player_pre_login, fire_player_login,
  fire_server_connect, fire_player_chat, fire_player_command, fire_plugin_message, fire_proxy_ping,
}
use vine.Plugin.Fire.Claims.{StopsAt, cancelled_stops}
use vine.Plugin.Fire.Keeps.{
  fire_keeps, proxy_ping_kept, player_pre_login_kept, player_login_kept, server_connect_kept,
  player_chat_kept, player_command_kept, plugin_message_kept,
}

abbrev request : EventType → EventPriority → ℕ → Request
request t p n = record {
  event_type = t;
  handler = record { handler_id = n; priority = p; plugin = codes "filter" };
}

abbrev requests : List Request
requests =
    request on_player_chat monitor 1
    ∷ request on_player_chat lowest 2
    ∷ request on_player_login normal 3
    ∷ request on_player_chat lowest 4
    ∷ []

abbrev manager : PluginManager
manager = run new requests

run_ordered_example :
    IsSorted (handlers_of (run new requests) on_player_chat)
    × ((p : EventPriority)
        → with_priority p (handlers_of (run new requests) on_player_chat)
          ≡ with_priority p (requested on_player_chat requests))
run_ordered_example = run_ordered requests on_player_chat

-- A plugin that cancels every message of chat, and fails otherwise.
abbrev filters_chat : Plugins
filters_chat before h (player_chat e) = handled (player_chat (record e { cancelled = true }))
filters_chat before h _ = failed

abbrev fails : Plugins
fails before h e = failed

abbrev pre_login : PlayerPreLoginEvent
pre_login = record {
  client_ip = codes "10.0.0.1";
  username = codes "Steve";
  protocol_version = 776;
  virtual_host = codes "play.example.org";
  cancelled = false;
  cancel_reason = none;
}

abbrev login : PlayerLoginEvent
login = record {
  uuid = codes "7";
  username = codes "Steve";
  client_ip = codes "10.0.0.1";
  cancelled = false;
  cancel_reason = none;
}

abbrev switch : ServerConnectEvent
switch = record {
  uuid = codes "7";
  username = codes "Steve";
  current_server = none;
  target_server = codes "lobby";
  cancelled = false;
  cancel_reason = none;
}

abbrev chat : PlayerChatEvent
chat = record {
  uuid = codes "7";
  username = codes "Steve";
  message = codes "hi";
  cancelled = false;
}

abbrev typed : PlayerCommandEvent
typed = record {
  uuid = codes "7";
  username = codes "Steve";
  command = codes "glist";
  cancelled = false;
}

abbrev custom : PluginMessageEvent
custom = record {
  channel = codes "x:y";
  data_bytes = 1 ∷ [];
  player_uuid = none;
  server_name = none;
  cancelled = false;
}

abbrev ping : ProxyPingEvent
ping = record {
  client_ip = codes "10.0.0.1";
  protocol_version = 776;
  virtual_host = codes "play.example.org";
  motd = codes "Vine";
  max_players = 20;
  online_players = 0;
  version_name = codes "Vine";
}

-- Of the three handlers of chat, only the first one is called.
one_call : length (fire_player_chat filters_chat manager [] chat).0 ≡ 1
unfolding fire_player_chat vine.Plugin.Fire.dispatch handlers_of lookup run
    vine.Plugin.Order.History.add_request vine.Plugin.Handlers.register_event_handler insert new
    vine.Plugin.Api.same_type vine.Plugin.Handlers.sort_by_priority
    vine.Plugin.Handlers.insert_by_priority vine.Plugin.Api.rank vine.Plugin.Fire.merge_chat
one_call = refl

cancelled_stops_example :
    StopsAt filters_chat player_pre_login
      (λ x. x.cancelled)
      manager
      on_player_pre_login
      []
      (fire_player_pre_login filters_chat manager [] pre_login)
    × StopsAt filters_chat player_login
        (λ x. x.cancelled)
        manager
        on_player_login
        []
        (fire_player_login filters_chat manager [] login)
    × StopsAt filters_chat server_connect
        (λ x. x.cancelled)
        manager
        on_server_connect
        []
        (fire_server_connect filters_chat manager [] switch)
    × StopsAt filters_chat player_chat
        (λ x. x.cancelled)
        manager
        on_player_chat
        []
        (fire_player_chat filters_chat manager [] chat)
    × StopsAt filters_chat player_command
        (λ x. x.cancelled)
        manager
        on_player_command
        []
        (fire_player_command filters_chat manager [] typed)
    × StopsAt filters_chat plugin_message
        (λ x. x.cancelled)
        manager
        on_plugin_message
        []
        (fire_plugin_message filters_chat manager [] custom)
cancelled_stops_example =
    cancelled_stops filters_chat manager [] pre_login login switch chat typed custom refl refl refl
      refl refl refl

fire_keeps_example :
    (proxy_ping_kept (fire_proxy_ping filters_chat manager [] ping).1 ≡ proxy_ping_kept ping)
    × (player_pre_login_kept (fire_player_pre_login filters_chat manager [] pre_login).1
        ≡ player_pre_login_kept pre_login)
    × (player_login_kept (fire_player_login filters_chat manager [] login).1
        ≡ player_login_kept login)
    × (server_connect_kept (fire_server_connect filters_chat manager [] switch).1
        ≡ server_connect_kept switch)
    × (player_chat_kept (fire_player_chat filters_chat manager [] chat).1 ≡ player_chat_kept chat)
    × (player_command_kept (fire_player_command filters_chat manager [] typed).1
        ≡ player_command_kept typed)
    × (plugin_message_kept (fire_plugin_message filters_chat manager [] custom).1
        ≡ plugin_message_kept custom)
fire_keeps_example =
    fire_keeps filters_chat manager [] ping pre_login login switch chat typed custom
