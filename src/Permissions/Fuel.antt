-- ===== src/Permissions/Fuel.antt =====
-- The rounds of the search of the inherited groups, `collect_permissions` of src/permissions.rs.
use vine.Base.{
  ℕ, zero, suc, ◌+◌, ◌≤◌, true, false, if◌then◌else◌, List, [], ◌∷◌, some, length, length-append,
  Text, text_eq_refl, to_ascii_lowercase, to_ascii_lowercase_idem, eq_ignore_ascii_case,
  eq_ignore_ascii_case_iff, ◌≡◌, refl, arith, sym, ◌∙◌, Bool-cases, Option-cases, inl, inr,
}
use vine.Permissions.{
  GroupConfig, PermissionsConfig, find_ignore_case, contains, Search, expand, visit, resolve,
  inherits_total, rounds, search_permissions, initial_groups, initial_permissions,
  collect_permissions,
}

-- The names that unvisited groups may still queue.
pending : List (Text × GroupConfig) → List Text → ℕ
pending [] visited = 0
pending ((k, g) ∷ gs) visited =
    (if contains visited (to_ascii_lowercase k) then 0 else length g.inherits) + pending gs visited

pending_mono :
    (gs : List (Text × GroupConfig)) (n : Text) (visited : List Text)
    → pending gs (n ∷ visited) ≤ pending gs visited
unfolding pending contains
pending_mono [] n visited = omega arith
pending_mono ((k, g) ∷ gs) n visited = ground (arith, pending_mono gs n visited)

contains_self : (n : Text) (visited : List Text) → contains (n ∷ visited) n ≡ true
unfolding contains
contains_self n visited = rw (text_eq_refl n)

contains_cons :
    (n k : Text) (visited : List Text) → contains visited k ≡ true → contains (n ∷ visited) k ≡ true
unfolding contains
contains_cons n k visited h = ground arith

-- Expanding a group takes its names off.
pending_expand :
    (gs : List (Text × GroupConfig)) (n : Text) (visited : List Text) (cfg : GroupConfig)
    → n ≡ to_ascii_lowercase n
    → contains visited n ≡ false
    → find_ignore_case gs n ≡ some cfg
    → pending gs (n ∷ visited) + length cfg.inherits ≤ pending gs visited
unfolding pending find_ignore_case
pending_expand [] n visited cfg l c f = cc
pending_expand ((k, g) ∷ gs) n visited cfg l c f = elim (Bool-cases (eq_ignore_ascii_case k n)) [
  | inl e ↦
      let same : to_ascii_lowercase k ≡ n = (eq_ignore_ascii_case_iff k n).0 e ∙ sym l in
      rw same (ground (arith, pending_mono gs n visited, contains_self n visited))
  | inr e ↦
      ground
        (arith, pending_expand gs n visited cfg l c, contains_cons n (to_ascii_lowercase k) visited)
]

-- One round uses up at least one unit of the queue and of what may still be queued.
visit_measure :
    (gs : List (Text × GroupConfig)) (name : Text) (s : Search)
    → length (visit gs name s).queue + pending gs (visit gs name s).visited
      ≤ length s.queue + pending gs s.visited
unfolding visit expand
visit_measure gs name s = elim (Bool-cases (contains s.visited (to_ascii_lowercase name))) [
  | inl e ↦ ground arith
  | inr e ↦ elim (Option-cases (find_ignore_case gs (to_ascii_lowercase name))) [
    | inl f ↦ ground (arith, pending_mono gs (to_ascii_lowercase name) s.visited)
    | inr (cfg, f) ↦ ground (
      arith,
      length-append s.queue cfg.inherits,
      pending_expand gs (to_ascii_lowercase name) s.visited cfg (sym (to_ascii_lowercase_idem name))
          e f,
    )
  ]
]

resolve_total :
    (fuel : ℕ) (gs : List (Text × GroupConfig)) (queue visited result : List Text)
    → length queue + pending gs visited ≤ fuel
    → (perms : List Text) × (resolve fuel gs queue visited result ≡ some perms)
unfolding resolve
resolve_total fuel gs [] visited result h = (result, refl)
resolve_total zero gs (name ∷ queue) visited result h = absurd (omega arith)
resolve_total (suc fuel) gs (name ∷ queue) visited result h =
    let start : Search = record { queue = queue; visited = visited; result = result } in
    let s : Search = visit gs name start in
    resolve_total fuel gs s.queue s.visited s.result (omega (arith, visit_measure gs name start))

pending-nil : (gs : List (Text × GroupConfig)) → pending gs [] ≡ inherits_total gs
unfolding pending inherits_total contains
pending-nil [] = refl
pending-nil ((k, g) ∷ gs) = omega (arith, pending-nil gs)

-- For every configuration, cyclic inheritance included, and every user, the search of the groups
-- ends within one round for each assigned name and each inherited name of the configuration.
pub search_permissions_total :
    (c : PermissionsConfig) (username : Text)
    → search_permissions c username ≡ some (collect_permissions c username)
unfolding search_permissions collect_permissions rounds
search_permissions_total c username =
    let (perms, e) =
      resolve_total (rounds c username) c.groups (initial_groups c username) []
        (initial_permissions c username) (omega (arith, pending-nil c.groups)) in
    ground (arith, e)
