-- ===== src/Permissions/Names.antt =====
-- How src/permissions.rs compares names, and the default group.
use mathlib.Core.Path.{fun_ext}
use vine.Base.{
  true, List, [], ◌∷◌, some, In, In-append_right, Text, codes, to_ascii_lowercase, ◌≡◌, refl, sym,
  arith, Bool-cases, Option-cases, inl, inr, strip_prefix, eq_ignore_ascii_case,
  eq_ignore_ascii_case_iff,
}
use vine.Permissions.{
  GroupConfig, PermissionsConfig, find_ignore_case, any_ignore_case, add_default, user_assigned,
  initial_groups, initial_permissions, collect_permissions, denies, grants, has_permission,
  matches_node, search_permissions, rounds,
}
use vine.Permissions.Reach.{Effective, assigned, by_group}
use vine.Permissions.Collect.{collect_permissions_iff}

find-case :
    {V : Type 0} (entries : List (Text × V)) (a b : Text)
    → to_ascii_lowercase a ≡ to_ascii_lowercase b
    → find_ignore_case entries a ≡ find_ignore_case entries b
unfolding find_ignore_case
find-case [] a b e = refl
find-case ((k, v) ∷ entries) a b e =
    ground
      (arith, find-case entries a b e, eq_ignore_ascii_case_iff k a, eq_ignore_ascii_case_iff k b)

collect-case :
    (c : PermissionsConfig) (u v : Text)
    → to_ascii_lowercase u ≡ to_ascii_lowercase v
    → collect_permissions c u ≡ collect_permissions c v
unfolding collect_permissions search_permissions rounds initial_groups initial_permissions
collect-case c u v e = rw (find-case c.users u v e)

module _ (m n : Text) (same : to_ascii_lowercase m ≡ to_ascii_lowercase n) where
  matches-case : (pattern : Text) → matches_node pattern m ≡ matches_node pattern n
  unfolding matches_node
  matches-case pattern = rw same

  denies-case : (p : Text) → denies m p ≡ denies n p
  unfolding denies
  denies-case p = elim (Option-cases (strip_prefix (codes "-") p)) [
    | inl e ↦ ground arith
    | inr (pattern, e) ↦ ground (arith, matches-case pattern)
  ]

  grants-case : (p : Text) → grants m p ≡ grants n p
  unfolding grants
  grants-case p = rw (matches-case p)

-- Two names that are the same without case get the same answer, and so do two nodes.
pub has_permission_case :
    (c : PermissionsConfig) (u v m n : Text)
    → to_ascii_lowercase u ≡ to_ascii_lowercase v
    → to_ascii_lowercase m ≡ to_ascii_lowercase n
    → has_permission c u m ≡ has_permission c v n
unfolding has_permission
has_permission_case c u v m n e f =
    rw (collect-case c u v e, fun_ext (denies-case m n f), fun_ext (grants-case m n f))

any_listed :
    (gs : List Text) (name : Text)
    → any_ignore_case gs name ≡ true
    → (g : Text) × In g gs × (to_ascii_lowercase g ≡ to_ascii_lowercase name)
unfolding any_ignore_case
any_listed [] name h = cc
any_listed (g ∷ gs) name h = elim (Bool-cases (eq_ignore_ascii_case g name)) [
  | inl e ↦ (g, inl refl, (eq_ignore_ascii_case_iff g name).0 e)
  | inr e ↦ let (g', i, l) = any_listed gs name (ground arith) in (g', inr i, l)
]

default-Effective :
    (c : PermissionsConfig) (username : Text)
    → Effective c.groups (initial_groups c username) (to_ascii_lowercase c.default_group)
unfolding initial_groups add_default
default-Effective c username =
    let gs = user_assigned (find_ignore_case c.users username) in
    elim (Bool-cases (any_ignore_case gs c.default_group)) [
      | inl e ↦ let (g, i, l) = any_listed gs c.default_group e in rw e (assigned g i (sym l))
      | inr e ↦
          rw e (assigned c.default_group (In-append_right c.default_group gs _ (inl refl)) refl)
    ]

-- Every permission of the default group is collected for every user, whatever groups the user's
-- entry names, where the default group is configured.
pub default_group_held :
    (c : PermissionsConfig) (username p : Text) (cfg : GroupConfig)
    → find_ignore_case c.groups (to_ascii_lowercase c.default_group) ≡ some cfg
    → In p cfg.permissions
    → In p (collect_permissions c username)
default_group_held c username p cfg f i =
    (collect_permissions_iff c username p).1
      (by_group (to_ascii_lowercase c.default_group) cfg (default-Effective c username) f i)
