-- ===== src/Backend/Bridge/Run/Linked.antt =====
-- The backend behind a bridge of src/backend/bridge.rs.
use vine.Base.{Bool, ◌≤◌, true, false, List, [], ◌∷◌, All, ◌≡◌, refl, arith}
use vine.Backend.Bridge.Login.{BackendBridge}
use vine.Backend.Bridge.Run.{
  Outside, State, Turn, Phase, not_joined, bridging, left, moved_to, join, leave, finish,
  fire_connected, run,
}
use vine.Backend.Bridge.Run.Rounds.{Stable, loop_keeps}
use vine.Backend.Bridge.Run.Start.{IsLinked, run_cases}

module _ (o : Outside) (b : BackendBridge) where
  IsLinked-same :
      (st now : State)
      → st.logins ≤ now.logins
      → now.current_server ≡ st.current_server
      → now.link ≡ st.link
      → IsLinked o b st
      → IsLinked o b now
  IsLinked-same st now le same link h = record {
    login = h.login;
    config = h.config;
    bytes = h.bytes;
    past = omega (arith, le, h.past);
    configured = rw same h.configured;
    succeeded = rw (same, link) h.succeeded;
  }

  -- What the other connections do is of no account here.
  Any : Turn → Type 0
  Any turn = Unit

  All-Any : (turns : List Turn) → All Any turns
  unfolding Any
  All-Any [] = tt
  All-Any (turn ∷ turns) = (tt, All-Any turns)

  IsLinked-Stable : Stable o b Any (IsLinked o b)
  unfolding moved_to
  IsLinked-Stable = record {
    told = λ st packets h. IsLinked-same st _ (omega arith) refl refl h;
    called = λ st calls h. IsLinked-same st _ (omega arith) refl refl h;
    counted = λ st h. IsLinked-same st _ (omega arith) refl refl h;
    moved = λ st k name cfg link bytes e c s h. record {
      login = k;
      config = cfg;
      bytes = bytes;
      past = omega (arith, e);
      configured = c;
      succeeded = s;
    };
    others = λ st turn near h. IsLinked-same st _ (omega arith) refl refl h;
  }

  pub LinkedAt : State × Phase → Type 0
  LinkedAt (now, not_joined e) = Unit
  LinkedAt (now, bridging) = IsLinked o b now
  LinkedAt (now, left) = IsLinked o b now

  finish-LinkedAt : (r : State × Bool) → IsLinked o b r.0 → LinkedAt (finish o b r)
  unfolding finish LinkedAt leave
  finish-LinkedAt (now, true) h = h
  finish-LinkedAt (now, false) h = IsLinked-same now _ (omega arith) refl refl h

  join-IsLinked : (now : State) → IsLinked o b now → IsLinked o b (join o b now)
  unfolding join fire_connected
  join-IsLinked now h = IsLinked-same now _ (omega arith) refl refl h

  -- For every run of a bridge that is not refused: the link of the player is the one of a login
  -- that succeeded, at the server that the bridge has as its current one, with the configuration of
  -- that server, of the fallback or of the router, or with the router's for a name that no server
  -- has.
  pub run_linked : (st : State) (turns : List Turn) → LinkedAt (run o b st turns)
  unfolding LinkedAt
  run_linked st turns =
      run_cases o b LinkedAt st turns (λ now e p q. tt)
        (λ now p q h. finish-LinkedAt _ (
          loop_keeps o b Any (IsLinked o b) IsLinked-Stable turns (join o b now) (All-Any turns)
            (join-IsLinked now h)))
