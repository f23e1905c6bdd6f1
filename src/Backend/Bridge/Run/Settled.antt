-- ===== src/Backend/Bridge/Run/Settled.antt =====
-- The registry and the counter of players over the life of a bridge of src/backend/bridge.rs.
use vine.Base.{
  ℕ, ◌+◌, ◌-◌, ◌%◌, ◌^◌, ◌<◌, Bool, true, false, List, none, some, Text, All, text_eq_refl, ◌≡◌,
  refl, sym, ap, subst, ◌∙◌, arith,
}
use vine.Session.{PlayerSession, SessionManager, update_server, get_session}
use vine.Session.Laws.{
  same_name, moved, get_session-register, get_session-unregister, get_session-update_server,
}
use vine.Session.History.{Call, registers, unregisters, updates, step_sound}
use vine.Session.History
use vine.Session.History.Foreign.{Spares, run_sound, run-Spares}
use vine.Backend.Bridge.Login.{BackendBridge}
use vine.Backend.Bridge.Run.{
  Outside, State, Turn, session_for, Phase, not_joined, bridging, left, moved_to, bridge_loop, join,
  leave, finish, run, fire_connected,
}
use vine.Backend.Bridge.Run.Rounds.{Stable, loop_keeps}
use vine.Backend.Bridge.Run.Start.{run_cases}

-- During a turn, the other connections do not touch the session of that name.
unfoldable pub IsForeign : Text → Turn → Type 0
IsForeign name turn = All (Spares name) turn.others

-- The player is registered, as on the server that the loop has as its current one, and the counter
-- has this value.
pub record Present (name : Text) (online : ℕ) (st : State) : Type 0 where
  pub sound : st.sessions.poisoned ≡ false
  pub session : PlayerSession
  pub found : get_session st.sessions name ≡ some session
  pub in_step : session.current_server ≡ st.current_server
  pub counted : st.online_players ≡ online

same_name_refl : (u : Text) → same_name u u ≡ true
same_name_refl u = text_eq_refl _

unchanged :
    (name : Text) (online : ℕ) (st now : State)
    → now.sessions ≡ st.sessions
    → now.current_server ≡ st.current_server
    → now.online_players ≡ st.online_players
    → Present name online st
    → Present name online now
unchanged name online st now e f g h = record {
  sound = ap (λ m. m.poisoned) e ∙ h.sound;
  session = h.session;
  found = ap (λ m. get_session m name) e ∙ h.found;
  in_step = h.in_step ∙ sym f;
  counted = g ∙ h.counted;
}

found_moved :
    (m : SessionManager) (name server : Text) (s : PlayerSession)
    → m.poisoned ≡ false
    → get_session m name ≡ some s
    → get_session (update_server m name server) name ≡ some (moved server s)
found_moved m name server s p e =
    get_session-update_server m p name server name ∙ rw (same_name_refl name, e) refl

module _ (o : Outside) (b : BackendBridge) (online : ℕ) where
  Present-Stable : Stable o b (IsForeign b.player.username) (Present b.player.username online)
  unfolding moved_to History.step IsForeign
  Present-Stable = record {
    told = λ st packets h. unchanged b.player.username online st _ refl refl refl h;
    called = λ st calls h. unchanged b.player.username online st _ refl refl refl h;
    counted = λ st h. unchanged b.player.username online st _ refl refl refl h;
    moved = λ st k name cfg link bytes e q f h. record {
      sound = step_sound st.sessions (updates b.player.username name) h.sound;
      session = moved name h.session;
      found = found_moved st.sessions b.player.username name h.session h.sound h.found;
      in_step = refl;
      counted = h.counted;
    };
    others = λ st turn spares h. record {
      sound = run_sound st.sessions turn.others h.sound;
      session = h.session;
      found = run-Spares st.sessions turn.others b.player.username h.sound spares ∙ h.found;
      in_step = h.in_step;
      counted = h.counted;
    };
  }

module _ (o : Outside) (b : BackendBridge) where
  -- What a run leaves of the registry and the counter: all as before if the player does not join,
  -- the player there and counted while it lasts, and neither when the player has left.
  pub Settles : State → State × Phase → Type 0
  Settles st (now, not_joined e) =
      (now.sessions ≡ st.sessions) × (now.online_players ≡ st.online_players)
  Settles st (now, bridging) = Present b.player.username ((st.online_players + 1) % 2 ^ 64) now
  Settles st (now, left) =
      (get_session now.sessions b.player.username ≡ none) × (now.online_players ≡ st.online_players)

  join-Present :
      (st : State)
      → st.sessions.poisoned ≡ false
      → Present b.player.username ((st.online_players + 1) % 2 ^ 64) (join o b st)
  unfolding join session_for fire_connected History.step
  join-Present st p = record {
    sound = step_sound st.sessions (registers (session_for o b st)) p;
    session = session_for o b st;
    found =
        get_session-register st.sessions p (session_for o b st) b.player.username
        ∙ rw (same_name_refl b.player.username) refl;
    in_step = refl;
    counted = refl;
  }

  leave_online : (n : ℕ) → n < 2 ^ 64 → ((n + 1) % 2 ^ 64 + (2 ^ 64 - 1)) % 2 ^ 64 ≡ n
  leave_online n l = omega (arith, l)

  finish-Settles :
      (st : State) (r : State × Bool)
      → st.online_players < 2 ^ 64
      → Present b.player.username ((st.online_players + 1) % 2 ^ 64) r.0
      → Settles st (finish o b r)
  unfolding finish Settles leave
  finish-Settles st (now, true) l h = h
  finish-Settles st (now, false) l h = (
    get_session-unregister now.sessions h.sound b.player.username b.player.username
        ∙ rw (same_name_refl b.player.username) refl,
    ap (λ n. (n + (2 ^ 64 - 1)) % 2 ^ 64) h.counted ∙ leave_online st.online_players l,
  )

  join-finish-Settles :
      (st now : State) (turns : List Turn)
      → All (IsForeign b.player.username) turns
      → st.sessions.poisoned ≡ false
      → st.online_players < 2 ^ 64
      → now.sessions ≡ st.sessions
      → now.online_players ≡ st.online_players
      → Settles st (finish o b (bridge_loop o b turns (join o b now)))
  join-finish-Settles st now turns foreign p l e f =
      let n = (st.online_players + 1) % 2 ^ 64 in
      let joined : Present b.player.username n (join o b now) =
        subst (λ x. Present b.player.username ((x + 1) % 2 ^ 64) (join o b now)) f
          (join-Present now (ap (λ m. m.poisoned) e ∙ p)) in
      finish-Settles st _ l (
        loop_keeps o b (IsForeign b.player.username) (Present b.player.username n)
          (Present-Stable o b n) turns (join o b now) foreign joined)

  -- For every run of a bridge: if it is refused, the registry and the counter of players are as
  -- before; while it lasts, the player is registered as on the server that the bridge is connected
  -- to, and counted once; when it has ended, no session of the player's name is left and the
  -- counter is as before. The other connections may do anything to the registry in between that is
  -- not about that name, and the plugins and backends may do anything: for a registry whose lock is
  -- not poisoned and a counter below 2 ^ 64.
  pub run-Settles :
      (st : State) (turns : List Turn)
      → All (IsForeign b.player.username) turns
      → st.sessions.poisoned ≡ false
      → st.online_players < 2 ^ 64
      → Settles st (run o b st turns)
  unfolding Settles
  run-Settles st turns foreign p l =
      run_cases o b (Settles st) st turns (λ now e f g. (f, g))
        (λ now e f linked. join-finish-Settles st now turns foreign p l e f)
