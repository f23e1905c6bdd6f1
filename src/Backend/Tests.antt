-- ===== src/Backend/Tests.antt =====
-- The router on concrete hosts.
use vine.Base.{[], ◌∷◌, some, codes, ◌≡◌, ◌↔◌}
use vine.Config.Defaults.{default, survival}
use vine.Backend.Router.{Router, new, resolve_server}
use vine.Backend.Router.Chooses.{Chooses, resolve_server_iff}

-- A router whose default server is not among its servers.
abbrev half : Router
half = new default.routing ((codes "survival", survival) ∷ [])

resolve_server_iff_example :
    (resolve_server half (codes "play.example.com") ≡ some (codes "survival", survival))
    ↔ Chooses half (codes "play.example.com") (codes "survival", survival)
resolve_server_iff_example =
    resolve_server_iff half (codes "play.example.com") (codes "survival", survival)
