-- ===== src/Backend/Bridge/Run/Tests.antt =====
-- A run on the sample backend: the player joins, switches servers and leaves.
use vine.Base.{
  lookup, insert, as_i32, text_eq, true, false, List, [], ◌∷◌, ◌++◌, none, codes, All, ◌≡◌, refl,
  arith,
}
use vine.Session
use vine.Plugin.Handlers
use vine.Plugin.Fire.{failed}
use vine.Backend.Forwarding.{build_velocity_payload}
use vine.Backend.Bridge.Login.{login_backend, same_id}
use vine.Backend.Bridge.Connect.{connect_to_backend}
use vine.Backend.Bridge.{client_disconnected, connect_to}
use vine.Backend.Bridge.Run.{Outside, State, Turn, other_fallback, tunnel_exit, left, run}
use vine.Backend.Bridge.Run.Settled.{IsForeign, Settles, run-Settles}
use vine.Backend.Bridge.Run.Linked.{LinkedAt, run_linked}
use vine.Backend.Bridge.Run.Ends.{HasEnded, IsLast, run_ends}
use vine.Backend.Bridge.Sample.{codec, protocol, bridge, dial}

abbrev outside : Outside
outside = record {
  codec = codec;
  protocol = protocol;
  handle_event = λ before h e. failed;
  manager = Handlers.new;
  dial = λ k address. dial;
  clock = λ k. k;
  serializes = λ packet. true;
  forward_error = λ bytes. none;
  has_configuration = true;
  show_number = λ n. n ∷ [];
  show_uuid = λ id. id;
  uuid_number = λ id. 7;
  channel = 1;
}

abbrev fresh : State
fresh = record {
  calls = [];
  logins = 0;
  current_server = [];
  link = record { written = []; decoder_threshold = none; encoder_compression = none };
  sessions = Session.new;
  online_players = 0;
  told = [];
}

abbrev switches : Turn
switches = record { others = []; result = tunnel_exit (connect_to (codes "survival")) }

abbrev leaves : Turn
leaves = record { others = []; result = tunnel_exit client_disconnected }

abbrev turns : List Turn
turns = switches ∷ leaves ∷ []

foreign : All (IsForeign bridge.player.username) turns
unfolding IsForeign
foreign = (tt, (tt, tt))

sound : fresh.sessions.poisoned ≡ false
unfolding Session.new
sound = refl

run-Settles_example : Settles outside bridge fresh (run outside bridge fresh turns)
run-Settles_example = run-Settles outside bridge fresh turns foreign sound (omega arith)

run_linked_example : LinkedAt outside bridge (run outside bridge fresh turns)
run_linked_example = run_linked outside bridge fresh turns

last : IsLast bridge.fallback_server leaves.result
unfolding IsLast
last = tt

run_ends_example :
    HasEnded outside bridge (run outside bridge fresh ((switches ∷ []) ++ leaves ∷ []))
run_ends_example = run_ends outside bridge fresh (switches ∷ []) leaves [] last

goes : (run outside bridge fresh turns).1 ≡ left
unfolding run login_backend connect_to_backend same_id text_eq build_velocity_payload as_i32
    vine.Plugin.Fire.fire_server_connect vine.Plugin.Fire.dispatch Handlers.handlers_of lookup
    Handlers.new insert other_fallback
goes = refl
