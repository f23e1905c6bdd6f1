-- ===== src/Session/Tests.antt =====
-- The registry on concrete players.
use vine.Base.{
  ℕ, false, List, [], ◌∷◌, some, In, Text, codes, ◌≡◌, ◌↔◌, refl, lookup, insert, text_eq,
  to_ascii_lowercase,
}
use vine.Session.{PlayerSession, SessionManager, new, register, get_session, list_sessions}
use vine.Session.Invariant.{IsValid, new-IsValid, register-IsValid, list_sessions_iff}
use vine.Session.History.{
  Call, registers, unregisters, updates, run, spec_run, run_refines, run-IsValid,
}

abbrev player : Text → ℕ → PlayerSession
player name channel = record {
  username = name;
  uuid = 7;
  current_server = codes "lobby";
  action_tx = channel;
  client_ip = codes "127.0.0.1";
  protocol_version = 776;
}

abbrev steve : PlayerSession
steve = player (codes "Steve") 1

abbrev steve_again : PlayerSession
steve_again = player (codes "STEVE") 2

abbrev with_steve : SessionManager
with_steve = register new steve

sound : with_steve.poisoned ≡ false
unfolding register new
sound = refl

with_steve-IsValid : IsValid with_steve
with_steve-IsValid = register-IsValid new steve new-IsValid

abbrev calls : List Call
calls =
    registers (player (codes "Alex") 3)
    ∷ updates (codes "sTEVE") (codes "survival")
    ∷ unregisters (codes "alex")
    ∷ []

found : get_session with_steve (codes "steve") ≡ some steve
unfolding get_session register new insert lookup text_eq to_ascii_lowercase
found = refl

run_refines_example : get_session (run with_steve calls) ≡ spec_run (get_session with_steve) calls
run_refines_example = run_refines with_steve calls sound

run-IsValid_example : IsValid (run with_steve calls)
run-IsValid_example = run-IsValid with_steve calls with_steve-IsValid

list_sessions_iff_example :
    In steve (list_sessions with_steve) ↔ (get_session with_steve (codes "Steve") ≡ some steve)
list_sessions_iff_example = list_sessions_iff with_steve steve with_steve-IsValid
