-- ===== src/Permissions/Tests.antt =====
-- Permissions on concrete configurations.
use vine.Base.{
  true, false, [], ◌∷◌, some, In, Text, codes, to_ascii_lowercase, ◌≡◌, ◌↔◌, text_eq, strip_suffix,
  starts_with, eq_ignore_ascii_case, strip_prefix, any, refl, inl,
}
use vine.Permissions.{
  GroupConfig, detailed, PermissionsConfig, find_ignore_case, matches_node, search_permissions,
  collect_permissions, has_permission, default_config, matches_lower, below_prefix, has_dot_at,
  default_permission_groups, resolve, visit, expand, contains, initial_groups, initial_permissions,
  user_assigned, user_direct, user_groups, direct_permissions, add_default, any_ignore_case, rounds,
  inherits_total, denies, grants,
}
use vine.Permissions.Node.{Matches, matches_node_iff}
use vine.Permissions.Reach.{UserHolds}
use vine.Permissions.Fuel.{search_permissions_total}
use vine.Permissions.Collect.{collect_permissions_iff}
use vine.Permissions.Names.{default_group_held}
use vine.Permissions.Access.{Refuses, Allows, has_permission_iff}

-- Two groups that inherit each other, and a user whose entry takes a node back.
abbrev staff : GroupConfig
staff = record { inherits = codes "Mods" ∷ []; permissions = codes "vine.command.*" ∷ [] }

abbrev mods : GroupConfig
mods = record { inherits = codes "staff" ∷ []; permissions = codes "vine.kick" ∷ [] }

abbrev basics : GroupConfig
basics = record { inherits = []; permissions = codes "vine.help" ∷ [] }

abbrev cyclic : PermissionsConfig
cyclic = record {
  default_group = codes "default";
  groups = (codes "staff", staff) ∷ (codes "mods", mods) ∷ (codes "default", basics) ∷ [];
  users = (codes "Sam", detailed (codes "Staff" ∷ []) (codes "-vine.command.send" ∷ [])) ∷ [];
}

abbrev send : Text
send = codes "vine.command.send"

-- As the tests of the source: the wildcard, the admin of the default configuration and a user
-- without an entry.
wildcard :
    (matches_node (codes "vine.*") (codes "Vine.Command") ≡ true)
    × (matches_node (codes "vine.*") (codes "vine") ≡ false)
unfolding matches_node matches_lower text_eq to_ascii_lowercase below_prefix strip_suffix
    starts_with has_dot_at
wildcard = (refl, refl)

answers :
    (has_permission default_config (codes "alex") send ≡ true)
    × (has_permission default_config (codes "Steve") send ≡ false)
    × (has_permission cyclic (codes "sam") send ≡ false)
    × (has_permission cyclic (codes "sam") (codes "vine.kick") ≡ true)
unfolding matches_node matches_lower text_eq to_ascii_lowercase below_prefix strip_suffix
    starts_with has_dot_at has_permission default_config default_permission_groups
    collect_permissions search_permissions resolve visit expand contains initial_groups
    initial_permissions user_assigned user_direct user_groups direct_permissions add_default
    any_ignore_case find_ignore_case eq_ignore_ascii_case rounds inherits_total denies grants
    strip_prefix any
answers = (refl, refl, refl, refl)

matches_node_iff_example :
    (matches_node (codes "vine.*") (codes "Vine.Command") ≡ true)
    ↔ Matches (to_ascii_lowercase (codes "vine.*")) (to_ascii_lowercase (codes "Vine.Command"))
matches_node_iff_example = matches_node_iff (codes "vine.*") (codes "Vine.Command")

search_permissions_total_example :
    search_permissions cyclic (codes "sam") ≡ some (collect_permissions cyclic (codes "sam"))
search_permissions_total_example = search_permissions_total cyclic (codes "sam")

collect_permissions_iff_example :
    In (codes "vine.kick") (collect_permissions cyclic (codes "sam"))
    ↔ UserHolds cyclic (codes "sam") (codes "vine.kick")
collect_permissions_iff_example = collect_permissions_iff cyclic (codes "sam") (codes "vine.kick")

has_permission_iff_example : (has_permission cyclic (codes "sam") send ≡ true) ↔ (
    ((p : Text) × UserHolds cyclic (codes "sam") p × Allows send p)
    × ((p : Text) → UserHolds cyclic (codes "sam") p → ¬ Refuses send p))
has_permission_iff_example = has_permission_iff cyclic (codes "sam") send

default_group_held_example : In (codes "vine.help") (collect_permissions cyclic (codes "sam"))
unfolding find_ignore_case eq_ignore_ascii_case to_ascii_lowercase text_eq
default_group_held_example =
    default_group_held cyclic (codes "sam") (codes "vine.help") basics refl (inl refl)
