-- ===== src/Permissions/Collect.antt =====
-- `collect_permissions` of src/permissions.rs against the description in Reach: the invariants of
-- its loop.
use mathlib.Core.Option.{some-injective}
use vine.Base.{
  append-nil, ℕ, zero, suc, true, List, [], ◌∷◌, ◌++◌, none, some, In, In-append, In-append_left,
  In-append_right, Text, text_eq_iff, to_ascii_lowercase, subst, ◌≡◌, ◌↔◌, ◌⊎◌, refl, arith,
  Bool-cases, Option-cases, inl, inr,
}
use vine.Permissions.{
  GroupConfig, PermissionsConfig, find_ignore_case, contains, Search, expand, visit, resolve,
  rounds, search_permissions, initial_groups, initial_permissions, collect_permissions,
}
use vine.Permissions.Reach.{Effective, assigned, inherited, Holds, given, by_group, UserHolds}
use vine.Permissions.Fuel.{search_permissions_total}

contains_cases :
    (n x : Text) (visited : List Text)
    → contains (x ∷ visited) n ≡ true
    → (n ≡ x) ⊎ (contains visited n ≡ true)
unfolding contains
contains_cases n x visited h = ground (arith, text_eq_iff x n)

contains-cons :
    (n x : Text) (visited : List Text)
    → (n ≡ x) ⊎ (contains visited n ≡ true)
    → contains (x ∷ visited) n ≡ true
unfolding contains
contains-cons n x visited h = ground (arith, text_eq_iff x n)

-- What a round does, by cases.
visit_cases {ℓ} :
    (P : Search → Type ℓ) (gs : List (Text × GroupConfig)) (name : Text) (s : Search)
    → (contains s.visited (to_ascii_lowercase name) ≡ true → P s)
    → (find_ignore_case gs (to_ascii_lowercase name) ≡ none
        → P (record s { visited = to_ascii_lowercase name ∷ s.visited }))
    → ((cfg : GroupConfig)
        → find_ignore_case gs (to_ascii_lowercase name) ≡ some cfg
        → P (record {
          queue = s.queue ++ cfg.inherits;
          visited = to_ascii_lowercase name ∷ s.visited;
          result = s.result ++ cfg.permissions;
        }))
    → P (visit gs name s)
unfolding visit expand
visit_cases P gs name s old missing found =
    elim (Bool-cases (contains s.visited (to_ascii_lowercase name))) [
      | inl e ↦ rw (e, visit) (old e)
      | inr e ↦ elim (Option-cases (find_ignore_case gs (to_ascii_lowercase name))) [
        | inl f ↦ rw (e, f, expand) (missing f)
        | inr (cfg, f) ↦ rw (e, f, expand) (found cfg f)
      ]
    ]

-- The state before a round takes the name off the queue.
abbrev push_front : Text → Search → Search
push_front name s = record s { queue = name ∷ s.queue }

-- What every round keeps holds when the loop is left.
resolve_inv {ℓ} :
    (P : Search → Type ℓ) (gs : List (Text × GroupConfig))
    → ((name : Text) (s : Search) → P (push_front name s) → P (visit gs name s))
    → (fuel : ℕ) (queue visited result : List Text) {perms : List Text}
    → P (record { queue = queue; visited = visited; result = result })
    → resolve fuel gs queue visited result ≡ some perms
    → (seen : List Text) × P (record { queue = []; visited = seen; result = perms })
unfolding resolve
resolve_inv P gs keep fuel [] visited result {perms} h e = (
  visited,
  subst (λ r. P (record { queue = []; visited = visited; result = r }))
      (some-injective result perms e) h,
)
resolve_inv P gs keep zero (name ∷ queue) visited result h e = cc
resolve_inv P gs keep (suc fuel) (name ∷ queue) visited result h e =
    let s : Search = record { queue = queue; visited = visited; result = result } in
    resolve_inv P gs keep fuel (visit gs name s).queue (visit gs name s).visited
      (visit gs name s).result (keep name s h) e

module _ (gs : List (Text × GroupConfig)) (start direct : List Text) where
  -- All that is queued is effective, and all that is found is held.
  record Sound (s : Search) : Type 0 where
    queued : (g : Text) → In g s.queue → Effective gs start (to_ascii_lowercase g)
    found : (p : Text) → In p s.result → Holds gs start direct p

  visit-Sound : (name : Text) (s : Search) → Sound (push_front name s) → Sound (visit gs name s)
  visit-Sound name s h =
      let eff = h.queued name (inl refl) in
      visit_cases Sound gs name s
        (λ _. record { queued = λ g i. h.queued g (inr i); found = h.found })
        (λ _. record { queued = λ g i. h.queued g (inr i); found = h.found })
        (λ cfg f. record {
          queued = λ g i. elim (In-append g s.queue cfg.inherits i) [
            | inl j ↦ h.queued g (inr j)
            | inr j ↦ inherited (to_ascii_lowercase name) cfg g eff f j refl
          ];
          found = λ p i. elim (In-append p s.result cfg.permissions i) [
            | inl j ↦ h.found p j
            | inr j ↦ by_group (to_ascii_lowercase name) cfg eff f j
          ];
        })

  -- A name in lower case that is visited, or waits in the queue.
  abbrev Known : Text → Search → Type 0
  Known n s =
      (contains s.visited n ≡ true) ⊎ ((g : Text) × In g s.queue × (n ≡ to_ascii_lowercase g))

  -- What starts the search is known, and so is all that a visited group inherits, whose
  -- permissions are found.
  record Covers (s : Search) : Type 0 where
    kept : (p : Text) → In p direct → In p s.result
    starts : (g : Text) → In g start → Known (to_ascii_lowercase g) s
    inherits :
        (n : Text) (cfg : GroupConfig) (g : Text)
        → contains s.visited n ≡ true
        → find_ignore_case gs n ≡ some cfg
        → In g cfg.inherits
        → Known (to_ascii_lowercase g) s
    collects :
        (n : Text) (cfg : GroupConfig) (p : Text)
        → contains s.visited n ≡ true
        → find_ignore_case gs n ≡ some cfg
        → In p cfg.permissions
        → In p s.result

  -- A round keeps the names known: the one at the front is visited, the others wait.
  Known-visited :
      (n name : Text) (s : Search) (more found : List Text)
      → Known n (push_front name s)
      → Known n (record {
        queue = s.queue ++ more;
        visited = to_ascii_lowercase name ∷ s.visited;
        result = found;
      })
  Known-visited n name s more found (inl v) = inl (contains-cons n _ s.visited (inr v))
  Known-visited n name s more found (inr (g, inl e, l)) =
      inl (contains-cons n _ s.visited (inl (rw (← e) l)))
  Known-visited n name s more found (inr (g, inr i, l)) =
      inr (g, In-append_left g s.queue more i, l)

  Known-old :
      (n name : Text) (s : Search)
      → contains s.visited (to_ascii_lowercase name) ≡ true
      → Known n (push_front name s)
      → Known n s
  Known-old n name s old (inl v) = inl v
  Known-old n name s old (inr (g, inl e, l)) = inl (rw (l, e) old)
  Known-old n name s old (inr (g, inr i, l)) = inr (g, i, l)

  Covers-old :
      (name : Text) (s : Search)
      → contains s.visited (to_ascii_lowercase name) ≡ true
      → Covers (push_front name s)
      → Covers s
  Covers-old name s old h = record {
    kept = h.kept;
    starts = λ g i. Known-old _ name s old (h.starts g i);
    inherits = λ n cfg g v f i. Known-old _ name s old (h.inherits n cfg g v f i);
    collects = h.collects;
  }

  -- The group that the round expands has these names and permissions, none if it is missing.
  Covers-new :
      (name : Text) (s : Search) (names perms : List Text)
      → ((cfg : GroupConfig)
          → find_ignore_case gs (to_ascii_lowercase name) ≡ some cfg
          → (cfg.inherits ≡ names) × (cfg.permissions ≡ perms))
      → Covers (push_front name s)
      → Covers (record {
        queue = s.queue ++ names;
        visited = to_ascii_lowercase name ∷ s.visited;
        result = s.result ++ perms;
      })
  Covers-new name s names perms group h = record {
    kept = λ p i. In-append_left p s.result perms (h.kept p i);
    starts = λ g i. Known-visited _ name s names (s.result ++ perms) (h.starts g i);
    inherits = λ n cfg g v f i. elim (contains_cases n _ s.visited v) [
      | inl e ↦
          let (same, _) = group cfg (rw e at f) in
          inr (g, In-append_right g s.queue names (rw same at i), refl)
      | inr old ↦ Known-visited _ name s names (s.result ++ perms) (h.inherits n cfg g old f i)
    ];
    collects = λ n cfg p v f i. elim (contains_cases n _ s.visited v) [
      | inl e ↦
          let (_, same) = group cfg (rw e at f) in In-append_right p s.result perms (rw same at i)
      | inr old ↦ In-append_left p s.result perms (h.collects n cfg p old f i)
    ];
  }

  visit-Covers : (name : Text) (s : Search) → Covers (push_front name s) → Covers (visit gs name s)
  visit-Covers name s h =
      visit_cases Covers gs name s (λ old. Covers-old name s old h)
        (λ missing.
          rw (append-nil s.queue, append-nil s.result) at
            (Covers-new name s [] [] (λ cfg f. cc (missing, f)) h))
        (λ cfg f.
          Covers-new name s cfg.inherits cfg.permissions (λ cfg' f'. ground (arith, f, f')) h)

  -- When the queue is empty, every effective group has been visited.
  Effective-visited :
      {n : Text} (visited result : List Text)
      → Covers (record { queue = []; visited = visited; result = result })
      → Effective gs start n
      → contains visited n ≡ true
  Effective-visited visited result h (assigned g i l) =
      rw l (elim (h.starts g i) [ inl v ↦ v | inr (g', i', e) ↦ absurd i' ])
  Effective-visited visited result h (inherited m cfg g eff f i l) =
      rw l (elim (h.inherits m cfg g (Effective-visited visited result h eff) f i) [
        | inl v ↦ v
        | inr (g', i', e) ↦ absurd i'
      ])

  Holds-In :
      {p : Text} (visited result : List Text)
      → Covers (record { queue = []; visited = visited; result = result })
      → Holds gs start direct p
      → In p result
  Holds-In visited result h (given i) = h.kept _ i
  Holds-In visited result h (by_group n cfg eff f i) =
      h.collects n cfg _ (Effective-visited visited result h eff) f i

  initial-Sound : Sound (record { queue = start; visited = []; result = direct })
  initial-Sound = record { queued = λ g i. assigned g i refl; found = λ p i. given i }

  initial-Covers : Covers (record { queue = start; visited = []; result = direct })
  unfolding contains
  initial-Covers = record {
    kept = λ p i. i;
    starts = λ g i. inr (g, i, refl);
    inherits = λ n cfg g v f i. cc;
    collects = λ n cfg p v f i. cc;
  }

-- For every configuration and user: a permission is among those that `collect_permissions` returns
-- exactly if the user holds it, directly or by a group that follows by inheritance from the user's
-- groups and the default group.
pub collect_permissions_iff :
    (c : PermissionsConfig) (username p : Text)
    → In p (collect_permissions c username) ↔ UserHolds c username p
unfolding search_permissions
collect_permissions_iff c username p =
    let total = search_permissions_total c username in
    let start : List Text = initial_groups c username in
    let direct : List Text = initial_permissions c username in
    let (seen, sound) =
      resolve_inv (Sound c.groups start direct) c.groups (visit-Sound c.groups start direct)
        (rounds c username) start [] direct (initial-Sound c.groups start direct) total in
    let (seen', covers) =
      resolve_inv (Covers c.groups start direct) c.groups (visit-Covers c.groups start direct)
        (rounds c username) start [] direct (initial-Covers c.groups start direct) total in
    (
      λ i. sound.found p i,
      Holds-In c.groups start direct seen' (collect_permissions c username) covers,
    )
