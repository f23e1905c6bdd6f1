-- ===== src/Permissions.antt =====
-- src/permissions.rs: permission nodes, the configuration of groups and users, and the search of
-- the inherited groups. A `HashMap` is the list of its entries in the order of its iterator; the
-- two lookups of this file compare keys without case and take the first entry that fits.
pub mod Node
pub mod Reach
pub mod Fuel
pub mod Collect
pub mod Access
pub mod Names
mod Tests
use mathlib.Core.Option
use vine.Base.{
  ℕ, zero, suc, any, ◌+◌, ◌==◌, ◌&&◌, ◌||◌, not, Bool, true, false, if◌then◌else◌, List, [], ◌∷◌,
  ◌++◌, Option, none, some, length, get_elem?, Text, codes, text_eq, to_ascii_lowercase,
  eq_ignore_ascii_case, strip_prefix, strip_suffix, starts_with,
}

-- `t.len() > prefix.len() && t.as_bytes()[prefix.len()] == b'.'`
has_dot_at : Text → ℕ → Bool
has_dot_at t n = elim (get_elem? t n) [ none ↦ false | some c ↦ c == b'.' ]

-- The test of a wildcard pattern, on what stands before its `.*`.
below_prefix : Text → Option Text → Bool
below_prefix t none = false
below_prefix t (some prefix) = starts_with prefix t && has_dot_at t (length prefix)

-- `matches_node`, on a pattern and a node in lower case.
matches_lower : Text → Text → Bool
matches_lower p t =
    (text_eq p (codes "*") || text_eq p t) || below_prefix t (strip_suffix (codes ".*") p)

pub matches_node : Text → Text → Bool
matches_node pattern target = matches_lower (to_ascii_lowercase pattern) (to_ascii_lowercase target)

pub record GroupConfig : Type 0 where
  pub inherits : List Text
  pub permissions : List Text

pub data UserPermissionConfig : Type 0 where
  groups : List Text → UserPermissionConfig
  detailed : List Text → List Text → UserPermissionConfig

pub user_groups : UserPermissionConfig → List Text
user_groups (groups gs) = gs
user_groups (detailed gs ps) = gs

pub direct_permissions : UserPermissionConfig → List Text
direct_permissions (groups gs) = []
direct_permissions (detailed gs ps) = ps

pub record PermissionsConfig : Type 0 where
  pub default_group : Text
  pub groups : List (Text × GroupConfig)
  pub users : List (Text × UserPermissionConfig)

-- `.iter().find(|(k, _)| k.eq_ignore_ascii_case(name))`
pub find_ignore_case : {V : Type 0} → List (Text × V) → Text → Option V
find_ignore_case [] name = none
find_ignore_case ((k, v) ∷ entries) name =
    if eq_ignore_ascii_case k name then some v else find_ignore_case entries name

-- `.iter().any(|g| g.eq_ignore_ascii_case(name))`
pub any_ignore_case : List Text → Text → Bool
any_ignore_case [] name = false
any_ignore_case (g ∷ gs) name = eq_ignore_ascii_case g name || any_ignore_case gs name

-- `HashSet::contains`, which is the negation of what `insert` returns.
pub contains : List Text → Text → Bool
contains [] name = false
contains (v ∷ vs) name = text_eq v name || contains vs name

-- The variables of the loop: the queue, the visited groups in lower case, the result.
pub record Search : Type 0 where
  pub queue : List Text
  pub visited : List Text
  pub result : List Text

-- What a round does with the group that it finds under an unvisited name.
expand : Search → Text → Option GroupConfig → Search
expand s name none = record s { visited = name ∷ s.visited }
expand s name (some grp) = record {
  queue = s.queue ++ grp.inherits;
  visited = name ∷ s.visited;
  result = s.result ++ grp.permissions;
}

-- One round, on the name at the front of the queue; `s.queue` is what stands behind it.
pub visit : List (Text × GroupConfig) → Text → Search → Search
unfolding expand
visit gs name s =
    if contains s.visited (to_ascii_lowercase name)
    then s
    else expand s (to_ascii_lowercase name) (find_ignore_case gs (to_ascii_lowercase name))

-- `while let Some(grp_name) = queue.pop_front()`; `none` means that the fuel ran out.
pub resolve : ℕ → List (Text × GroupConfig) → List Text → List Text → List Text → Option (List Text)
resolve fuel gs [] visited result = some result
resolve zero gs (name ∷ queue) visited result = none
resolve (suc fuel) gs (name ∷ queue) visited result =
    let s = visit gs name (record { queue = queue; visited = visited; result = result }) in
    resolve fuel gs s.queue s.visited s.result

-- The rounds that the loop can need: one for each name that is ever queued.
pub inherits_total : List (Text × GroupConfig) → ℕ
inherits_total [] = 0
inherits_total ((k, g) ∷ gs) = length g.inherits + inherits_total gs

user_direct : Option UserPermissionConfig → List Text
unfolding direct_permissions
user_direct none = []
user_direct (some user) = direct_permissions user

user_assigned : Option UserPermissionConfig → List Text
unfolding user_groups
user_assigned none = []
user_assigned (some user) = user_groups user

-- `result` before the loop.
pub initial_permissions : PermissionsConfig → Text → List Text
unfolding user_direct
initial_permissions c username = user_direct (find_ignore_case c.users username)

add_default : Text → List Text → List Text
add_default d gs = if any_ignore_case gs d then gs else gs ++ d ∷ []

-- `user_groups` before the loop, the default group included.
pub initial_groups : PermissionsConfig → Text → List Text
unfolding user_assigned add_default
initial_groups c username =
    add_default c.default_group (user_assigned (find_ignore_case c.users username))

pub rounds : PermissionsConfig → Text → ℕ
rounds c username = length (initial_groups c username) + inherits_total c.groups

pub search_permissions : PermissionsConfig → Text → Option (List Text)
search_permissions c username =
    resolve (rounds c username) c.groups (initial_groups c username) []
      (initial_permissions c username)

-- `rounds` is the fuel; the default stands for a loop that has not ended by then.
pub collect_permissions : PermissionsConfig → Text → List Text
collect_permissions c username = Option.get_or (search_permissions c username) []

-- `perm.strip_prefix('-')` and `matches_node`.
pub denies : Text → Text → Bool
denies node perm = elim (strip_prefix (codes "-") perm) [
  | none ↦ false
  | some negated ↦ matches_node negated node
]

pub grants : Text → Text → Bool
grants node perm = not (starts_with (codes "-") perm) && matches_node perm node

-- The two `for` loops, each of which returns at the first permission that passes its test.
pub has_permission : PermissionsConfig → Text → Text → Bool
has_permission c username node =
    let perms = collect_permissions c username in
    if any (denies node) perms then false else any (grants node) perms

-- The configuration that `Default` builds.
pub default_permission_groups : List (Text × GroupConfig)
default_permission_groups =
    (
      codes "default",
      record {
        inherits = [];
        permissions =
            codes "vine.command.server"
            ∷ codes "vine.command.glist"
            ∷ codes "vine.command.list"
            ∷ codes "vine.command.help"
            ∷ [];
      },
    )
    ∷ (
      codes "admin",
      record {
        inherits = codes "default" ∷ [];
        permissions = codes "vine.command.send" ∷ codes "vine.admin" ∷ codes "*" ∷ [];
      },
    )
    ∷ []

pub default_config : PermissionsConfig
default_config = record {
  default_group = codes "default";
  groups = default_permission_groups;
  users = (codes "Alex", UserPermissionConfig.groups (codes "admin" ∷ [])) ∷ [];
}
