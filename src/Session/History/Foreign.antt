-- ===== src/Session/History/Foreign.antt =====
-- Calls on the registry of src/session.rs that are not about one player.
use vine.Base.{false, List, [], ◌∷◌, Text, All, ◌≡◌, refl, ap, ◌∙◌}
use vine.Session.{SessionManager, get_session}
use vine.Session.Laws.{same_name}
use vine.Session.History.{
  Call, registers, unregisters, updates, step, run, Registry, spec_step, spec_run, step_sound,
  run_refines,
}

-- A call about players of other names.
pub Spares : Text → Call → Type 0
Spares name (registers s) = same_name s.username name ≡ false
Spares name (unregisters other) = same_name other name ≡ false
Spares name (updates other server) = same_name other name ≡ false

pub run_sound :
    (m : SessionManager) (cs : List Call) → m.poisoned ≡ false → (run m cs).poisoned ≡ false
unfolding run
run_sound m [] p = p
run_sound m (c ∷ cs) p = run_sound (step m c) cs (step_sound m c p)

spec_step-Spares :
    (r : Registry) (c : Call) (name : Text) → Spares name c → spec_step r c name ≡ r name
unfolding spec_step Spares
spec_step-Spares r (registers s) name h = rw h refl
spec_step-Spares r (unregisters other) name h = rw h refl
spec_step-Spares r (updates other server) name h = rw h refl

spec_run-Spares :
    (r : Registry) (cs : List Call) (name : Text)
    → All (Spares name) cs
    → spec_run r cs name ≡ r name
unfolding spec_run
spec_run-Spares r [] name h = refl
spec_run-Spares r (c ∷ cs) name h =
    spec_run-Spares (spec_step r c) cs name h.1 ∙ spec_step-Spares r c name h.0

-- They leave the player's session.
pub run-Spares :
    (m : SessionManager) (cs : List Call) (name : Text)
    → m.poisoned ≡ false
    → All (Spares name) cs
    → get_session (run m cs) name ≡ get_session m name
run-Spares m cs name p h =
    ap (λ r. r name) (run_refines m cs p) ∙ spec_run-Spares (get_session m) cs name h
