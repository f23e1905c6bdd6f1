-- ===== src/Backend/Router.antt =====
-- src/backend/mod.rs: which server a virtual host leads to.
pub mod Chooses
pub mod Default
use mathlib.Core.Option
use vine.Base.{List, [], ◌∷◌, Option, none, some, Text, lookup, text_key}
use vine.Config.{RoutingConfig, BackendConfig}

pub record Router : Type 0 where
  pub routing : RoutingConfig
  pub servers : List (Text × BackendConfig)

pub new : RoutingConfig → List (Text × BackendConfig) → Router
new routing servers = record { routing = routing; servers = servers }

-- An `if let` that returns, and what stands behind it.
abbrev pub or_else {ℓ} : {A : Type ℓ} → Option A → Option A → Option A
or_else none rest = rest
or_else (some a) rest = some a

-- `if let Some(cfg) = self.servers.get(name)`
with_config : Text → Option BackendConfig → Option (Text × BackendConfig)
with_config name none = none
with_config name (some cfg) = some (name, cfg)

named : Router → Option Text → Option (Text × BackendConfig)
unfolding with_config
named r none = none
named r (some name) = with_config name (lookup r.servers name)

-- `self.servers.iter().next()`
first_server : List (Text × BackendConfig) → Option (Text × BackendConfig)
first_server [] = none
first_server (entry ∷ entries) = some entry

unfoldable pub resolve_server : Router → Text → Option (Text × BackendConfig)
unfolding named first_server
resolve_server r virtual_host = or_else (named r (lookup r.routing.forced_hosts virtual_host)) (
    or_else (named r (some r.routing.default_server))
      (or_else (named r r.routing.fallback_server) (first_server r.servers)))
