-- ===== src/Session/History.antt =====
-- The registry against its specification, a function from names, over any history of calls.
pub mod Foreign
use mathlib.Core.Option
use mathlib.Core.Path.{fun_ext}
use vine.Base.{
  false, if◌then◌else◌, List, [], ◌∷◌, Option, none, some, Text, to_ascii_lowercase, text_eq_iff,
  ◌≡◌, refl, arith, ap, ◌∙◌,
}
use vine.Session.{PlayerSession, SessionManager, register, unregister, update_server, get_session}
use vine.Session.Invariant.{IsValid, register-IsValid, unregister-IsValid, update_server-IsValid}
use vine.Session.Laws.{
  same_name, moved, get_session-register, get_session-unregister, get_session-update_server,
}

-- The calls that change the registry.
pub data Call : Type 0 where
  registers : PlayerSession → Call
  unregisters : Text → Call
  updates : Text → Text → Call

unfoldable pub step : SessionManager → Call → SessionManager
step m (registers s) = register m s
step m (unregisters u) = (unregister m u).0
step m (updates u server) = update_server m u server

pub run : SessionManager → List Call → SessionManager
run m [] = m
run m (c ∷ cs) = run (step m c) cs

-- The specification: who is found under each name.
abbrev pub Registry : Type 0
Registry = Text → Option PlayerSession

pub spec_step : Registry → Call → Registry
spec_step r (registers s) u = if same_name s.username u then some s else r u
spec_step r (unregisters v) u = if same_name v u then none else r u
spec_step r (updates v server) u = if same_name v u then Option.map (moved server) (r u) else r u

pub spec_run : Registry → List Call → Registry
spec_run r [] = r
spec_run r (c ∷ cs) = spec_run (spec_step r c) cs

pub step_sound : (m : SessionManager) (c : Call) → m.poisoned ≡ false → (step m c).poisoned ≡ false
unfolding step register unregister update_server
step_sound m (registers s) p = ground arith
step_sound m (unregisters u) p = ground arith
step_sound m (updates u server) p = ground arith

step_refines :
    (m : SessionManager) (c : Call)
    → m.poisoned ≡ false
    → get_session (step m c) ≡ spec_step (get_session m) c
unfolding step spec_step
step_refines m (registers s) p = fun_ext λ u. get_session-register m p s u
step_refines m (unregisters v) p = fun_ext λ u. get_session-unregister m p v u
step_refines m (updates v server) p = fun_ext λ u. get_session-update_server m p v server u

-- After any history of registrations, removals and server updates of a registry whose lock is not
-- poisoned, every lookup answers as the specification, a function from names without case, does
-- after the same history.
pub run_refines :
    (m : SessionManager) (cs : List Call)
    → m.poisoned ≡ false
    → get_session (run m cs) ≡ spec_run (get_session m) cs
unfolding run spec_run
run_refines m [] p = refl
run_refines m (c ∷ cs) p =
    run_refines (step m c) cs (step_sound m c p) ∙ ap (λ r. spec_run r cs) (step_refines m c p)

step-IsValid : (m : SessionManager) (c : Call) → IsValid m → IsValid (step m c)
unfolding step
step-IsValid m (registers s) v = register-IsValid m s v
step-IsValid m (unregisters u) v = unregister-IsValid m u v
step-IsValid m (updates u server) v = update_server-IsValid m u server v

-- Any history of calls on a registry that holds each player once, under the player's name in lower
-- case, leaves such a registry.
pub run-IsValid : (m : SessionManager) (cs : List Call) → IsValid m → IsValid (run m cs)
unfolding run
run-IsValid m [] v = v
run-IsValid m (c ∷ cs) v = run-IsValid (step m c) cs (step-IsValid m c v)
