-- ===== src/Backend/Bridge/Run.antt =====
-- src/backend/bridge.rs, `run`: the life of a bridge. What the tunnel returns is a list of turns,
-- each with what other connections did to the registry meanwhile; behind the list the player is
-- still in the tunnel. Plugins, backends and the packets' writers are the parameter `Outside`.
pub mod Rounds
pub mod Start
pub mod Settled
pub mod Linked
pub mod Ends
mod Tests
use mathlib.Core.Option
use vine.Base.{
  ℕ, suc, ◌+◌, ◌-◌, ◌%◌, ◌^◌, Bool, true, false, if◌then◌else◌, List, [], ◌∷◌, ◌++◌, Option, none,
  some, Text, codes, text_eq, text_key, lookup,
}
use vine.Config.{BackendConfig}
use vine.Backend.Forwarding.{Codec}
use vine.Session.{PlayerSession, SessionManager, register, unregister, update_server}
use vine.Session.History.{Call}
use vine.Session.History
use vine.Plugin.Api.{ServerConnectEvent}
use vine.Plugin.Handlers.{PluginManager}
use vine.Plugin.Fire.{
  Plugins, fire_player_join, fire_server_connect, fire_server_connected, fire_player_disconnect,
}
use vine.Plugin.Fire
use vine.Backend.Bridge.{
  BridgeError, encode_error, vine_error, show_error, TunnelExit, client_disconnected, connect_to,
  transfer_to, backend_disconnected,
}
use vine.Backend.Bridge.Connect.{Dialed}
use vine.Backend.Bridge.Login.{
  BackendBridge, Incoming, Protocol, LoginState, Logged, logged_in, login_failed, login_backend,
}

pub data ToClient : Type 0 where
  login_success : Text → ToClient
  start_configuration : ToClient
  transfer_packet : Text → ℕ → ToClient
  chat : Text → ToClient
  kick : Text → ToClient

pub record Outside : Type 0 where
  pub codec : Codec
  pub protocol : Protocol
  pub handle_event : Plugins
  pub manager : PluginManager
  -- What an attempt finds, by the logins before, the address and the number of the attempt.
  pub dial : ℕ → Text → ℕ → Dialed (List Incoming)
  pub clock : ℕ → ℕ
  -- Whether a packet can be serialized, and the error of writing the success of the login.
  pub serializes : ToClient → Bool
  pub forward_error : Text → Option Text
  -- Whether the client's version is 1.20.2 or later.
  pub has_configuration : Bool
  pub show_number : ℕ → Text
  -- An identity printed with hyphens, and as a number.
  pub show_uuid : Text → Text
  pub uuid_number : Text → ℕ
  -- The channel of the player's actions.
  pub channel : ℕ

pub record State : Type 0 where
  pub calls : List Fire.Call
  pub logins : ℕ
  pub current_server : Text
  pub link : LoginState
  pub sessions : SessionManager
  pub online_players : ℕ
  pub told : List ToClient

pub data TunnelResult : Type 0 where
  tunnel_exit : TunnelExit → TunnelResult
  tunnel_error : BridgeError → TunnelResult

pub record Turn : Type 0 where
  pub others : List Call
  pub result : TunnelResult

-- How `run` ends: with an error before the player is there, not yet, or when the player has left.
pub data Phase : Type 0 where
  not_joined : BridgeError → Phase
  bridging : Phase
  left : Phase

abbrev red : Text
red = 194 ∷ 167 ∷ codes "c"

abbrev yellow : Text
yellow = 194 ∷ 167 ∷ codes "e"

-- The fallback server, if it is not the one of that name.
pub other_fallback : Option (Text × BackendConfig) → Text → Option (Text × BackendConfig)
other_fallback none name = none
other_fallback (some (fb_name, fb_cfg)) name =
    if text_eq fb_name name then none else some (fb_name, fb_cfg)

module _ (o : Outside) (b : BackendBridge) where
  open o use {codec, protocol, handle_event, manager}

  show : BridgeError → Text
  show = show_error o.show_number

  -- A packet to the client; one that cannot be serialized is left out, an error of writing ignored.
  pub tell : State → ToClient → State
  tell st packet = if o.serializes packet then record st { told = st.told ++ packet ∷ [] } else st

  pub connect_event : State → Option Text → Text → List Fire.Call × ServerConnectEvent
  connect_event st current target = fire_server_connect handle_event manager st.calls (record {
    uuid = o.show_uuid b.player.id;
    username = b.player.username;
    current_server = current;
    target_server = target;
    cancelled = false;
    cancel_reason = none;
  })

  fire_connected : State → State
  fire_connected st = record st {
    calls = fire_server_connected handle_event manager st.calls (record {
      uuid = o.show_uuid b.player.id;
      username = b.player.username;
      server_name = st.current_server;
    });
  }

  try_login : State → Text → BackendConfig → LoginState × Logged
  try_login st name cfg =
      login_backend codec protocol b cfg (o.clock st.logins) name (o.dial st.logins cfg.address)

  count_login : State → State
  count_login st = record st { logins = suc st.logins }

  -- `CStartConfiguration`, for the versions that know it.
  reconfigure : State → State
  unfolding tell
  reconfigure st = if o.has_configuration then tell st start_configuration else st

  pub moved_to : State → Text → LoginState → State
  moved_to st name link = record st {
    current_server = name;
    link = link;
    sessions = update_server st.sessions b.player.username name;
  }

  switched : State → Text → LoginState → State
  unfolding moved_to reconfigure
  switched st name link = moved_to (reconfigure st) name link

  fell_back : State → Text → (BridgeError → Text) → LoginState × Logged → State × Bool
  unfolding switched tell
  fell_back st fb_name reason (link, logged_in bytes) = (switched st fb_name link, true)
  fell_back st fb_name reason (link, login_failed e) = (tell st (kick (reason e)), false)

  fall_back : State → Text → BackendConfig → (BridgeError → Text) → State × Bool
  unfolding fell_back count_login try_login
  fall_back st fb_name fb_cfg reason =
      fell_back (count_login st) fb_name reason (try_login st fb_name fb_cfg)

  lost : Text → Text
  lost name = codes "Lost connection to '" ++ name ++ codes "' and fallback unavailable"

  after_failure : State → Option (Text × BackendConfig) → State × Bool
  unfolding fall_back lost
  after_failure st none = (st, false)
  after_failure st (some (fb_name, fb_cfg)) =
      fall_back st fb_name fb_cfg (λ e. lost st.current_server)

  switch_result : State → Text → LoginState × Logged → State × Bool
  unfolding switched fire_connected tell after_failure show
  switch_result st name (link, logged_in bytes) = (fire_connected (switched st name link), true)
  switch_result st name (link, login_failed e) =
      after_failure
        (tell st
          (chat (red ++ codes "Failed to connect to server '" ++ name ++ codes "': " ++ show e)))
        (other_fallback b.fallback_server name)

  switch_to : State → Text → Option BackendConfig → State × Bool
  unfolding tell switch_result count_login try_login
  switch_to st name none =
      (tell st (chat (codes "Server '" ++ name ++ codes "' does not exist.")), false)
  switch_to st name (some cfg) = switch_result (count_login st) name (try_login st name cfg)

  switch_unless : State → ServerConnectEvent → State × Bool
  unfolding tell switch_to
  switch_unless st event =
      if event.cancelled
      then (
        tell st (
            chat (
              red
              ++ Option.get_or event.cancel_reason (codes "Server switch cancelled by plugin"))),
        true,
      )
      else switch_to st event.target_server (lookup b.proxy_config.servers event.target_server)

  on_connect : State → Text → State × Bool
  unfolding connect_event switch_unless
  on_connect st target =
      let event = connect_event st (some st.current_server) target in
      switch_unless (record st { calls = event.0 }) event.1

  on_disconnected : State → Option Text → Option (Text × BackendConfig) → State × Bool
  unfolding tell fall_back lost show
  on_disconnected st reason none =
      (tell st (kick (Option.get_or reason (codes "Lost connection to server"))), false)
  on_disconnected st reason (some (fb_name, fb_cfg)) =
      fall_back
        (tell st (
          chat (
            yellow
            ++ codes "Connecting to fallback server '"
            ++ fb_name
            ++ codes "'... ("
            ++ red
            ++ Option.get_or reason (codes "Server closed")
            ++ yellow
            ++ codes ")")))
        fb_name fb_cfg (λ e. lost st.current_server ++ codes ": " ++ show e)

  -- One round of the loop: the state, and whether the loop goes on.
  on_exit : State → TunnelExit → State × Bool
  unfolding tell on_connect on_disconnected
  on_exit st client_disconnected = (st, false)
  on_exit st (transfer_to host port) = (tell st (transfer_packet host port), false)
  on_exit st (connect_to server_name) = on_connect st server_name
  on_exit st (backend_disconnected reason) =
      on_disconnected st reason (other_fallback b.fallback_server st.current_server)

  exit_of : TunnelResult → TunnelExit
  unfolding show
  exit_of (tunnel_exit exit) = exit
  exit_of (tunnel_error e) = backend_disconnected (some (show e))

  pub step : State → Turn → State × Bool
  unfolding on_exit exit_of
  step st turn =
      on_exit (record st { sessions = History.run st.sessions turn.others }) (exit_of turn.result)

  go_on : State × Bool → (State → State × Bool) → State × Bool
  go_on (st, true) rest = rest st
  go_on (st, false) rest = (st, false)

  pub bridge_loop : List Turn → State → State × Bool
  unfolding step go_on
  bridge_loop [] st = (st, true)
  bridge_loop (turn ∷ turns) st = go_on (step st turn) (bridge_loop turns)

  pub session_for : State → PlayerSession
  session_for st = record {
    username = b.player.username;
    uuid = o.uuid_number b.player.id;
    current_server = st.current_server;
    action_tx = o.channel;
    client_ip = codec.show_ip b.client_ip;
    protocol_version = b.client_version;
  }

  -- The counter is a machine word, whose addition and subtraction wrap.
  pub join : State → State
  unfolding fire_connected session_for
  join st =
      let st = fire_connected (record st { online_players = (st.online_players + 1) % 2 ^ 64 }) in
      record st {
        calls = fire_player_join handle_event manager st.calls (record {
          uuid = o.show_uuid b.player.id;
          username = b.player.username;
          client_ip = codec.show_ip b.client_ip;
          initial_server = st.current_server;
        });
        sessions = register st.sessions (session_for st);
      }

  pub leave : State → State
  leave st = record st {
    calls = fire_player_disconnect handle_event manager st.calls (record {
      uuid = o.show_uuid b.player.id;
      username = b.player.username;
      last_server = some st.current_server;
    });
    sessions = (unregister st.sessions b.player.username).0;
    online_players = (st.online_players + (2 ^ 64 - 1)) % 2 ^ 64;
  }

  pub finish : State × Bool → State × Phase
  unfolding leave
  finish (st, true) = (st, bridging)
  finish (st, false) = (leave st, left)

  forwarded : State → List Turn → Text → Option Text → State × Phase
  unfolding finish bridge_loop join
  forwarded st turns bytes (some e) = (st, not_joined (encode_error e))
  forwarded st turns bytes none =
      finish (bridge_loop turns (join (record st { told = st.told ++ login_success bytes ∷ [] })))

  logged : State → List Turn → Text → LoginState × Logged → State × Phase
  unfolding forwarded
  logged st turns name (link, logged_in bytes) =
      forwarded (record st { current_server = name; link = link }) turns bytes
        (o.forward_error bytes)
  logged st turns name (link, login_failed e) = (st, not_joined e)

  or_fall_back : State → List Turn → BridgeError → Option (Text × BackendConfig) → State × Phase
  unfolding logged count_login try_login
  or_fall_back st turns e none = (st, not_joined e)
  or_fall_back st turns e (some (fb_name, fb_cfg)) =
      logged (count_login st) turns fb_name (try_login st fb_name fb_cfg)

  first_login : State → List Turn → Text → LoginState × Logged → State × Phase
  unfolding logged or_fall_back
  first_login st turns name (link, logged_in bytes) = logged st turns name (link, logged_in bytes)
  first_login st turns name (link, login_failed e) =
      or_fall_back st turns e (other_fallback b.fallback_server name)

  -- The configuration of the first server: the router's, unless a plugin chose another that exists.
  initial_config : Text → BackendConfig
  initial_config name =
      if text_eq name b.server_name
      then b.config
      else Option.get_or (lookup b.proxy_config.servers name) b.config

  run_unless : State → List Turn → ServerConnectEvent → State × Phase
  unfolding first_login count_login try_login initial_config
  run_unless st turns event =
      let name = event.target_server in
      if event.cancelled
      then (
        st,
        not_joined (
            vine_error
              (Option.get_or event.cancel_reason (codes "Connection cancelled by plugin"))),
      )
      else first_login (count_login st) turns name (try_login st name (initial_config name))

  pub run : State → List Turn → State × Phase
  unfolding connect_event run_unless
  run st turns =
      let event = connect_event st none b.server_name in
      run_unless (record st { calls = event.0 }) turns event.1
