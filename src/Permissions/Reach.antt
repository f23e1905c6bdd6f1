-- ===== src/Permissions/Reach.antt =====
-- What the search is meant to find: the groups that a user is in, and the permissions they give.
use vine.Base.{List, some, Text, In, to_ascii_lowercase, ◌≡◌}
use vine.Permissions.{
  GroupConfig, PermissionsConfig, find_ignore_case, initial_groups, initial_permissions,
}

-- The names, in lower case, that follow from `start` by inheritance.
pub data Effective (gs : List (Text × GroupConfig)) (start : List Text) : Text → Type 0 where
  assigned : {n : Text} (g : Text) → In g start → n ≡ to_ascii_lowercase g → Effective gs start n
  inherited :
      {n : Text} (m : Text) (cfg : GroupConfig) (g : Text)
      → Effective gs start m
      → find_ignore_case gs m ≡ some cfg
      → In g cfg.inherits
      → n ≡ to_ascii_lowercase g
      → Effective gs start n

-- A permission that is given directly, or by a group that follows from `start`.
pub data Holds (gs : List (Text × GroupConfig)) (start direct : List Text) (p : Text) : Type 0 where
  given : In p direct → Holds gs start direct p
  by_group :
      (n : Text) (cfg : GroupConfig)
      → Effective gs start n
      → find_ignore_case gs n ≡ some cfg
      → In p cfg.permissions
      → Holds gs start direct p

-- The permissions of a user of the proxy.
abbrev pub UserHolds : PermissionsConfig → Text → Text → Type 0
UserHolds c username = Holds c.groups (initial_groups c username) (initial_permissions c username)
