-- ===== src/Client/Tests.antt =====
-- A player who logs in online and reaches a bridge.
use vine.Base.{
  ℕ, pos, Bool, true, List, [], ◌∷◌, Option, none, some, Text, codes, v4, text_eq, lookup, as_u32,
  to_ascii_lowercase, ◌≡◌, refl,
}
use vine.Config.Defaults.{default}
use vine.Security.Sanitizer.{sanitize_host, is_valid_username}
use vine.Backend.Router
use vine.Backend.Bridge.Login.{BackendBridge}
use vine.Backend.Bridge.Sample
use vine.Plugin.Handlers
use vine.Plugin.Fire.{failed}
use vine.Auth.{Service, authenticate}
use vine.Client.{
  ClientHandler, ClientState, Wire, Flow, go, closed, errored, received, plain, Handshake, to_login,
  Reached, bridge, handle,
}
use vine.Client.Reach.{Admits, handle-Admits}

abbrev service : Service
service = record {
  get = λ url. some (record { status = 200; body = some url });
  parse_session = λ body. some (record { id = codes "7"; name = codes "Steve"; properties = [] });
  parse_uuid = λ id. some id;
  show_ip = λ ip. codes "192.0.2.1";
  new_v3 = λ text. text;
}

abbrev secret : Text
secret = 1 ∷ 2 ∷ 3 ∷ 4 ∷ 5 ∷ 6 ∷ 7 ∷ 8 ∷ 9 ∷ 10 ∷ 11 ∷ 12 ∷ 13 ∷ 14 ∷ 15 ∷ 16 ∷ []

abbrev wire : Wire
wire = record {
  handshake = received (record {
    protocol_version = pos 776;
    server_address = codes "play.example.org";
    next_state = to_login;
  });
  from_protocol = λ n. n;
  login_start = received (codes "Steve");
  encryption_response = received (record { shared_secret = secret; verify_token = 9 ∷ 9 ∷ [] });
  public_key_der = 1 ∷ [];
  token = 9 ∷ 9 ∷ [];
  decrypt = λ text. plain text;
  auth_digest = λ key. codes "7c";
  show_auth_error = λ e. [];
  write_error = λ sent packet. none;
  kick_error = λ reason. none;
  decoder_key_error = λ key. none;
  encoder_key_error = λ key. none;
  show_ip = λ ip. codes "192.0.2.1";
  show_uuid = λ id. id;
}

abbrev handler : ClientHandler
handler = record {
  peer_ip = v4 (192 ∷ 0 ∷ 2 ∷ 1 ∷ []);
  config = default;
  router = record { routing = default.routing; servers = default.servers };
  service = service;
  handle_event = λ before h e. failed;
  manager = Handlers.new;
}

abbrev fresh : ClientState
fresh = record { calls = []; sent = []; encryption = none; compression = none }

state_in : Flow Reached → ClientState
state_in (go s a) = s
state_in (closed s) = s
state_in (errored s e) = s

bridge_in : Flow Reached → BackendBridge
bridge_in (go s (bridge b)) = b
bridge_in _ = Sample.bridge

reaches :
    handle wire handler fresh
    ≡ go (state_in (handle wire handler fresh)) (bridge (bridge_in (handle wire handler fresh)))
unfolding handle state_in bridge_in vine.Client.◌>>>◌ vine.Client.receive
    vine.Client.after_handshake vine.Client.handle_login vine.Client.pre_login
    vine.Client.unless_cancelled vine.Plugin.Fire.fire_player_pre_login vine.Plugin.Fire.dispatch
    Handlers.handlers_of lookup Handlers.new vine.Client.check_username is_valid_username
    vine.Client.login_player vine.Client.login_mode vine.Client.online_login vine.Client.send
    vine.Client.decrypted vine.Client.check_token text_eq vine.Client.check_secret
    vine.Client.check_player authenticate vine.Auth.is_success vine.Client.keyed
    vine.Client.login_event vine.Plugin.Fire.fire_player_login vine.Client.compress
    vine.Client.route Router.resolve_server vine.Auth.session_url vine.Base.insert as_u32
    vine.Client.fallback_server vine.Client.named_fallback sanitize_host
    vine.Security.Sanitizer.text_len vine.Security.Sanitizer.is_kept
    vine.Security.Sanitizer.is_control vine.Security.Sanitizer.len_utf8
reaches = refl

handle-Admits_example :
    (handshake : Handshake) × (wire.handshake ≡ received handshake)
    × (handshake.next_state ≡ to_login)
    × Admits wire handler
        (sanitize_host handshake.server_address)
        (state_in (handle wire handler fresh))
        (bridge_in (handle wire handler fresh))
handle-Admits_example =
    handle-Admits wire handler fresh (state_in (handle wire handler fresh))
      (bridge_in (handle wire handler fresh)) reaches
