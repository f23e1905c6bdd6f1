-- ===== src/Command/Named.antt =====
-- src/command: who is permitted, and which server a name means.
use vine.Base.{
  ℕ, true, List, [], ◌∷◌, some, Text, to_ascii_lowercase, eq_ignore_ascii_case,
  eq_ignore_ascii_case_iff, ◌≡◌, ◌≢◌, ◌↔◌, ◌⊎◌, inl, inr, refl, sym, ap, ◌∙◌, Bool-cases,
}
use vine.Permissions.{has_permission}
use vine.Command.{
  CommandSender, console, player, ProxyCommandSource, source_allowed, sender_allowed, find_server,
}

-- The console, or a player who has the permission.
abbrev pub Permitted : ProxyCommandSource → Text → Type 0
Permitted s node =
    (s.sender ≡ console)
    ⊎ ((username : Text) × (tx : ℕ) × (s.sender ≡ player username tx)
        × (has_permission s.config.permissions username node ≡ true))

-- `server` is the first of the names that is `name` without case.
unfoldable pub Means : {V : Type 0} → List (Text × V) → Text → Text → Type 0
Means [] name server = ⊥
Means ((k, v) ∷ m) name server =
    ((to_ascii_lowercase k ≡ to_ascii_lowercase name) × (k ≡ server))
    ⊎ ((to_ascii_lowercase k ≢ to_ascii_lowercase name) × Means m name server)

player_name : (u w : Text) (t x : ℕ) → player u t ≡ player w x → u ≡ w
player_name u w t x e = cc

sender_allowed_iff :
    (s : ProxyCommandSource) (sender : CommandSender) (node : Text)
    → s.sender ≡ sender
    → (sender_allowed s.config sender node ≡ true) ↔ Permitted s node
unfolding sender_allowed
sender_allowed_iff s console node e = (λ h. inl e, λ h. refl)
sender_allowed_iff s (player username tx) node e = (
  λ h. inr (username, tx, e, h),
  λ h. elim h [
    | inl c ↦ absurd (let other : player username tx ≡ console = sym e ∙ c in cc)
    | inr (u, t, same, allowed) ↦
        let who : player username tx ≡ player u t = sym e ∙ same in
        rw (player_name username u tx t who) allowed
  ],
)

pub source_allowed_iff :
    (s : ProxyCommandSource) (node : Text) → (source_allowed s node ≡ true) ↔ Permitted s node
unfolding source_allowed
source_allowed_iff s node = sender_allowed_iff s s.sender node refl

pub find_server_iff :
    {V : Type 0}
    → (m : List (Text × V)) (name server : Text)
    → (find_server m name ≡ some server) ↔ Means m name server
unfolding find_server Means
find_server_iff [] name server = (λ h. absurd cc, λ h. absurd h)
find_server_iff ((k, v) ∷ m) name server = elim (Bool-cases (eq_ignore_ascii_case k name)) [
  | inl y ↦
      let same = (eq_ignore_ascii_case_iff k name).0 y in
      rw y (
        λ h. inl (same, cc),
        λ h. elim h [ inl (e, f) ↦ ap some f | inr (n, later) ↦ absurd (n same) ],
      )
  | inr n ↦
      let differs : to_ascii_lowercase k ≢ to_ascii_lowercase name =
        λ e. absurd (let y = (eq_ignore_ascii_case_iff k name).1 e in cc) in
      rw n (
        λ h. inr (differs, (find_server_iff m name server).0 h),
        λ h. elim h [
          | inl (e, f) ↦ absurd (differs e)
          | inr (d, later) ↦ (find_server_iff m name server).1 later
        ],
      )
]
