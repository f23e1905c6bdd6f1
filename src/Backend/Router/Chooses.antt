-- ===== src/Backend/Router/Chooses.antt =====
-- The server that the order of the routing rules names.
use mathlib.Core.Option.{some-injective}
use vine.Base.{
  List, [], ◌∷◌, Option, none, some, Text, lookup, text_key, ◌≡◌, ◌↔◌, ◌⊎◌, inl, inr, refl, sym,
  ◌∙◌, ap, arith,
}
use vine.Config.{BackendConfig}
use vine.Backend.Router.{Router, or_else, with_config, named, first_server, resolve_server}

-- The name leads to a server of the configuration.
abbrev Leads : Router → Option Text → Text × BackendConfig → Type 0
Leads r name (n, cfg) = (name ≡ some n) × (lookup r.servers n ≡ some cfg)

-- The name is missing, or no server has it.
abbrev Misses : Router → Option Text → Type 0
Misses r name = (n : Text) → name ≡ some n → lookup r.servers n ≡ none

-- The rules in their order: each applies only where those before it find no server.
pub data Chooses (r : Router) (host : Text) (target : Text × BackendConfig) : Type 0 where
  forced : Leads r (lookup r.routing.forced_hosts host) target → Chooses r host target
  default :
      Misses r (lookup r.routing.forced_hosts host)
      → Leads r (some r.routing.default_server) target
      → Chooses r host target
  fallback :
      Misses r (lookup r.routing.forced_hosts host)
      → Misses r (some r.routing.default_server)
      → Leads r r.routing.fallback_server target
      → Chooses r host target
  any_server :
      Misses r (lookup r.routing.forced_hosts host)
      → Misses r (some r.routing.default_server)
      → Misses r r.routing.fallback_server
      → (others : List (Text × BackendConfig)) → r.servers ≡ target ∷ others
      → Chooses r host target

with_config-some :
    (n : Text) (o : Option BackendConfig) (t : Text × BackendConfig)
    → (with_config n o ≡ some t) ↔ ((n ≡ t.0) × (o ≡ some t.1))
unfolding with_config
with_config-some n none t = ground arith
with_config-some n (some cfg) t = (
  λ h.
      let e : (n, cfg) ≡ t = some-injective (n, cfg) t h in (ap (λ p. p.0) e, ap (λ p. some p.1) e),
  λ (e, f). cc,
)

named_some :
    (r : Router) (o : Option Text) (t : Text × BackendConfig) → (named r o ≡ some t) ↔ Leads r o t
unfolding named
named_some r none t = ground arith
named_some r (some n) t = (
  λ h.
      let (e, l) = (with_config-some n (lookup r.servers n) t).0 h in
      (ap some e, ap (lookup r.servers) (sym e) ∙ l),
  λ (e, l).
      let same : n ≡ t.0 = some-injective n t.0 e in
      (with_config-some n (lookup r.servers n) t).1 (same, ap (lookup r.servers) same ∙ l),
)

with_config-none : (n : Text) (o : Option BackendConfig) → (with_config n o ≡ none) ↔ (o ≡ none)
unfolding with_config
with_config-none n none = ground arith
with_config-none n (some cfg) = ground arith

named_none : (r : Router) (o : Option Text) → (named r o ≡ none) ↔ Misses r o
unfolding named
named_none r none = (λ h n e. absurd cc, λ h. refl)
named_none r (some n) = (
  λ h m e.
      ap (lookup r.servers) (sym (some-injective n m e))
      ∙ (with_config-none n (lookup r.servers n)).0 h,
  λ h. (with_config-none n (lookup r.servers n)).1 (h n refl),
)

first_some :
    (m : List (Text × BackendConfig)) (t : Text × BackendConfig)
    → (first_server m ≡ some t) ↔ ((others : List (Text × BackendConfig)) × (m ≡ t ∷ others))
unfolding first_server
first_some [] t = (λ h. absurd cc, λ (o, e). absurd cc)
first_some (x ∷ m) t = (λ h. (m, cc), λ (o, e). cc)

or_else-some :
    {A : Type 0} (o rest : Option A) (a : A)
    → (or_else o rest ≡ some a) ↔ ((o ≡ some a) ⊎ ((o ≡ none) × (rest ≡ some a)))
or_else-some none rest a = ground arith
or_else-some (some b) rest a = ground arith

or_else-none :
    {A : Type 0} (o rest : Option A) → (or_else o rest ≡ none) ↔ ((o ≡ none) × (rest ≡ none))
or_else-none none rest = ground arith
or_else-none (some b) rest = ground arith

first_none : (m : List (Text × BackendConfig)) → first_server m ≡ none → m ≡ []
unfolding first_server
first_none [] h = refl
first_none (x ∷ m) h = absurd cc

Misses-all : (r : Router) (o : Option Text) → r.servers ≡ [] → Misses r o
unfolding lookup
Misses-all r o e n h = rw e refl

module _ (r : Router) (host : Text) (t : Text × BackendConfig) where
  chooses_resolved : resolve_server r host ≡ some t → Chooses r host t
  unfolding resolve_server
  chooses_resolved h =
      elim ((or_else-some (named r (lookup r.routing.forced_hosts host)) _ t).0 h) [
        | inl e ↦ forced ((named_some r _ t).0 e)
        | inr (f, h1) ↦ elim ((or_else-some (named r (some r.routing.default_server)) _ t).0 h1) [
          | inl e ↦ default ((named_none r _).0 f) ((named_some r _ t).0 e)
          | inr (d, h2) ↦ elim ((or_else-some (named r r.routing.fallback_server) _ t).0 h2) [
            | inl e ↦
                fallback ((named_none r _).0 f) ((named_none r _).0 d) ((named_some r _ t).0 e)
            | inr (k, h3) ↦
                let (others, e) = (first_some r.servers t).0 h3 in
                any_server ((named_none r _).0 f) ((named_none r _).0 d) ((named_none r _).0 k)
                  others e
          ]
        ]
      ]

  resolved_chosen : Chooses r host t → resolve_server r host ≡ some t
  unfolding resolve_server
  resolved_chosen (forced l) = (or_else-some _ _ t).1 (inl ((named_some r _ t).1 l))
  resolved_chosen (default f l) =
      (or_else-some _ _ t).1
        (inr ((named_none r _).1 f, (or_else-some _ _ t).1 (inl ((named_some r _ t).1 l))))
  resolved_chosen (fallback f d l) = (or_else-some _ _ t).1 (
      inr (
        (named_none r _).1 f,
        (or_else-some _ _ t).1
            (inr ((named_none r _).1 d, (or_else-some _ _ t).1 (inl ((named_some r _ t).1 l)))),
      ))
  resolved_chosen (any_server f d k others e) =
      rw ((named_none r _).1 f, (named_none r _).1 d, (named_none r _).1 k)
        ((first_some r.servers t).1 (others, e))

-- The router returns a server exactly if the rules choose it: the forced host if its server is
-- configured, else the default server, else the fallback, else the first entry of the map.
pub resolve_server_iff :
    (r : Router) (host : Text) (t : Text × BackendConfig)
    → (resolve_server r host ≡ some t) ↔ Chooses r host t
resolve_server_iff r host t = (chooses_resolved r host t, resolved_chosen r host t)

-- The router returns no server exactly if none is configured.
pub resolve_server-none :
    (r : Router) (host : Text) → (resolve_server r host ≡ none) ↔ (r.servers ≡ [])
unfolding resolve_server first_server
resolve_server-none r host = (
  λ h.
      let (f, h1) = (or_else-none (named r (lookup r.routing.forced_hosts host)) _).0 h in
      let (d, h2) = (or_else-none (named r (some r.routing.default_server)) _).0 h1 in
      let (k, h3) = (or_else-none (named r r.routing.fallback_server) _).0 h2 in
      first_none r.servers h3,
  λ e.
      rw
        (
          (named_none r (lookup r.routing.forced_hosts host)).1 (Misses-all r _ e),
          (named_none r (some r.routing.default_server)).1 (Misses-all r _ e),
          (named_none r r.routing.fallback_server).1 (Misses-all r _ e),
          e,
        )
        refl,
)
