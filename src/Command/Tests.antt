-- ===== src/Command/Tests.antt =====
-- The commands on a proxy with two players.
use vine.Base.{List, ℕ, Text, codes, In, text_key, ◌↔◌}
use vine.Config.Defaults.{default}
use vine.Session.{list_sessions, connect, PlayerSession, SessionManager, new, register}
use vine.Session.Invariant.{IsValid, new-IsValid, register-IsValid}
use vine.Command.{
  glist_rows, console, player, ProxyCommandSource, action, deliveries, execute_send,
  execute_server_switch,
}
use vine.Command.Send.{Sends, execute_send_iff}
use vine.Command.Glist.{Plays, glist_rows_iff}
use vine.Command.Server.{Switches, execute_server_switch_iff}

abbrev online : Text → ℕ → PlayerSession
online name channel = record {
  username = name;
  uuid = 7;
  current_server = codes "lobby";
  action_tx = channel;
  client_ip = codes "127.0.0.1";
  protocol_version = 776;
}

abbrev players : SessionManager
players = register (register new (online (codes "Steve") 1)) (online (codes "Alex") 2)

players-IsValid : IsValid players
players-IsValid =
    register-IsValid (register new (online (codes "Steve") 1)) (online (codes "Alex") 2)
      (register-IsValid new (online (codes "Steve") 1) new-IsValid)

abbrev from_console : ProxyCommandSource
from_console = record { sender = console; config = default; session_manager = players }

abbrev from_steve : ProxyCommandSource
from_steve = record from_console { sender = player (codes "Steve") 1 }

execute_send_iff_example :
    In
      (action 2 (connect (codes "survival")))
      (deliveries (execute_send from_console (codes "ALL") (codes "Survival")))
    ↔ Sends from_console (codes "ALL") (codes "Survival") 2 (connect (codes "survival"))
execute_send_iff_example =
    execute_send_iff from_console (codes "ALL") (codes "Survival") 2 (connect (codes "survival"))
      players-IsValid

execute_server_switch_iff_example :
    In
      (action 1 (connect (codes "survival")))
      (deliveries (execute_server_switch from_steve (codes "survival")))
    ↔ Switches from_steve (codes "survival") 1 (connect (codes "survival"))
execute_server_switch_iff_example =
    execute_server_switch_iff from_steve (codes "survival") 1 (connect (codes "survival"))

glist_rows_iff_example :
    ((names : List Text) × In (codes "lobby", names) (glist_rows from_console)
      × In (codes "Alex") names)
    ↔ Plays (list_sessions players) (codes "lobby") (codes "Alex")
glist_rows_iff_example = glist_rows_iff from_console (codes "lobby") (codes "Alex")
