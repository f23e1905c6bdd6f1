-- ===== src/Backend/Router/Default.antt =====
-- The routes of the configuration that is written where there is none.
use vine.Base.{
  if◌then◌else◌, none, some, insert, Text, codes, text_eq, lookup, text_key, ◌≡◌, refl, ◌∙◌,
  Bool-cases, inl, inr,
}
use vine.Config.Defaults.{default, lobby, survival, vanilla}
use vine.Backend.Router.{Router, new, resolve_server}
use vine.Backend.Router.Chooses.{Chooses, forced, resolve_server_iff}

abbrev pub router : Router
router = new default.routing default.servers

forced_hosts :
    (host : Text)
    → lookup default.routing.forced_hosts host ≡ (
        if text_eq (codes "survival.example.com") host
        then some (codes "survival")
        else if text_eq (codes "vanilla.example.com") host
        then some (codes "vanilla")
        else none)
unfolding lookup insert text_eq
forced_hosts host = refl

survival_configured : lookup default.servers (codes "survival") ≡ some survival
unfolding lookup insert text_eq
survival_configured = refl

vanilla_configured : lookup default.servers (codes "vanilla") ≡ some vanilla
unfolding lookup insert text_eq
vanilla_configured = refl

lobby_configured : lookup default.servers (codes "lobby") ≡ some lobby
unfolding lookup insert text_eq
lobby_configured = refl

-- With the default configuration, the two forced hosts lead to the servers `survival` and
-- `vanilla`, and every other host leads to the lobby.
pub default_routes :
    (host : Text)
    → resolve_server router host
      ≡ some (
          if text_eq (codes "survival.example.com") host
          then (codes "survival", survival)
          else if text_eq (codes "vanilla.example.com") host
          then (codes "vanilla", vanilla)
          else (codes "lobby", lobby))
unfolding new
default_routes host = elim (Bool-cases (text_eq (codes "survival.example.com") host)) [
  | inl s ↦ rw s (
      (resolve_server_iff router host (codes "survival", survival)).1
        (forced (forced_hosts host ∙ rw s, survival_configured)))
  | inr s ↦ elim (Bool-cases (text_eq (codes "vanilla.example.com") host)) [
    | inl v ↦
        rw (s, v)
          ((resolve_server_iff router host (codes "vanilla", vanilla)).1
            (forced (forced_hosts host ∙ rw (s, v), vanilla_configured)))
    | inr v ↦
        let unforced : lookup default.routing.forced_hosts host ≡ none =
          forced_hosts host ∙ rw (s, v) in
        rw (s, v)
          ((resolve_server_iff router host (codes "lobby", lobby)).1
            (Chooses.default (λ n h. absurd cc) (refl, lobby_configured)))
  ]
]
