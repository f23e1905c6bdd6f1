-- ===== src/Command/Send.antt =====
-- Whom `/send` sends where.
use vine.Base.{
  ℕ, true, List, [], ◌∷◌, Option, none, some, Text, codes, In, In-append, In-append_left,
  eq_ignore_ascii_case, to_ascii_lowercase, text_key, lookup, ◌≡◌, ◌↔◌, ◌⊎◌, inl, inr, refl, ◌∙◌,
  arith, Bool-cases, Option-cases,
}
use vine.Session.{PlayerAction, connect, PlayerSession, SessionManager, get_session, list_sessions}
use vine.Session.Invariant.{IsValid, list_sessions_iff}
use vine.Command.Named.{Permitted, Means, source_allowed_iff, find_server_iff}
use vine.Command.{
  CommandSender, ProxyCommandSource, source_allowed, action, deliveries, find_server, connect_each,
  send_all, send_one, send_to, execute_send,
}

-- The session that a name finds is found by its own name, too.
get_session_own :
    (m : SessionManager) (u : Text) (s : PlayerSession)
    → IsValid m
    → get_session m u ≡ some s
    → (get_session m s.username ≡ some s) × (to_ascii_lowercase u ≡ to_ascii_lowercase s.username)
unfolding get_session
get_session_own m u s v h = elim (Bool-cases m.poisoned) [
  | inl p ↦ ground arith
  | inr p ↦
      let found : lookup m.sessions (to_ascii_lowercase u) ≡ some s = ground arith in
      let same = v.named (to_ascii_lowercase u) s found in (rw p (rw same at found), same)
]

get_session-case :
    (m : SessionManager) (u w : Text)
    → to_ascii_lowercase u ≡ to_ascii_lowercase w
    → get_session m u ≡ get_session m w
unfolding get_session
get_session-case m u w e = rw e

connect_each-In :
    (server : Text) (ss : List PlayerSession) (ch : ℕ) (a : PlayerAction)
    → In (action ch a) (connect_each server ss)
      ↔ ((s : PlayerSession) × In s ss × (ch ≡ s.action_tx) × (a ≡ connect server))
unfolding connect_each
connect_each-In server [] ch a = (λ i. absurd i, λ (s, i, e, f). absurd i)
connect_each-In server (s ∷ ss) ch a = (
  λ i. elim i [
    | inl e ↦ (s, inl refl, cc, cc)
    | inr j ↦ let (t, k, e, f) = (connect_each-In server ss ch a).0 j in (t, inr k, e, f)
  ],
  λ (t, i, e, f). elim i [
    | inl g ↦ inl cc
    | inr j ↦ inr ((connect_each-In server ss ch a).1 (t, j, e, f))
  ],
)

-- An action that `/send` delivers: the sender is permitted, the server is configured, and the
-- session is registered and meant.
pub record Sends (s : ProxyCommandSource) (target name : Text) (ch : ℕ) (a : PlayerAction)
    : Type 0 where
  pub permitted : Permitted s (codes "vine.command.send")
  pub server : Text
  pub configured : Means s.config.servers name server
  pub connects : a ≡ connect server
  pub session : PlayerSession
  pub channel : ch ≡ session.action_tx
  pub registered : get_session s.session_manager session.username ≡ some session
  pub meant :
      (eq_ignore_ascii_case target (codes "all") ≡ true)
      ⊎ (to_ascii_lowercase target ≡ to_ascii_lowercase session.username)

send_all-In :
    (sender : CommandSender) (server : Text) (ss : List PlayerSession) (ch : ℕ) (a : PlayerAction)
    → In (action ch a) (deliveries (send_all sender server ss))
      ↔ In (action ch a) (connect_each server ss)
unfolding send_all
send_all-In sender server [] ch a = unfold connect_each in (λ i. i, λ i. i)
send_all-In sender server (s ∷ ss) ch a = (
  λ i. elim (In-append (action ch a) (connect_each server (s ∷ ss)) _ i) [
    | inl j ↦ j
    | inr j ↦ elim j [ inl e ↦ absurd cc | inr k ↦ absurd k ]
  ],
  λ i. In-append_left (action ch a) (connect_each server (s ∷ ss)) _ i,
)

send_one-In :
    (sender : CommandSender) (target server : Text) (o : Option PlayerSession) (ch : ℕ)
    (a : PlayerAction)
    → In (action ch a) (deliveries (send_one sender target server o))
      ↔ ((s : PlayerSession) × (o ≡ some s) × (ch ≡ s.action_tx) × (a ≡ connect server))
unfolding send_one
send_one-In sender target server none ch a = (λ i. absurd i, λ (s, e, f, g). absurd cc)
send_one-In sender target server (some s) ch a = (
  λ i. elim i [
    | inl e ↦ (s, refl, cc, cc)
    | inr j ↦ elim j [ inl e ↦ absurd cc | inr k ↦ absurd k ]
  ],
  λ (t, e, f, g). inl cc,
)

module _ (s : ProxyCommandSource) (valid : IsValid s.session_manager) (target name : Text) (ch : ℕ)
    (a : PlayerAction) where
  send_to-Sends :
      source_allowed s (codes "vine.command.send") ≡ true
      → In (action ch a) (deliveries (send_to s target name (find_server s.config.servers name)))
      → Sends s target name ch a
  unfolding send_to
  send_to-Sends p i = elim (Option-cases (find_server s.config.servers name)) [
    | inl n ↦ absurd (rw n at i)
    | inr (server, f) ↦ elim (Bool-cases (eq_ignore_ascii_case target (codes "all"))) [
      | inl all ↦
          let sent =
            (send_all-In s.sender server (list_sessions s.session_manager) ch a).0
              (rw (f, all) at i) in
          let (t, j, e, g) =
            (connect_each-In server (list_sessions s.session_manager) ch a).0 sent in
          record {
            permitted = (source_allowed_iff s (codes "vine.command.send")).0 p;
            server = server;
            configured = (find_server_iff s.config.servers name server).0 f;
            connects = g;
            session = t;
            channel = e;
            registered = (list_sessions_iff s.session_manager t valid).0 j;
            meant = inl all;
          }
      | inr one ↦
          let (t, j, e, g) =
            (send_one-In s.sender target server (get_session s.session_manager target) ch a).0
              (rw (f, one) at i) in
          let (own, same) = get_session_own s.session_manager target t valid j in
          record {
            permitted = (source_allowed_iff s (codes "vine.command.send")).0 p;
            server = server;
            configured = (find_server_iff s.config.servers name server).0 f;
            connects = g;
            session = t;
            channel = e;
            registered = own;
            meant = inr same;
          }
    ]
  ]

  Sends-send_to :
      (w : Sends s target name ch a)
      → In (action ch a) (deliveries (send_to s target name (some w.server)))
  unfolding send_to
  Sends-send_to w = elim (Bool-cases (eq_ignore_ascii_case target (codes "all"))) [
    | inl all ↦ rw all (
        (send_all-In s.sender w.server (list_sessions s.session_manager) ch a).1 (
          (connect_each-In w.server (list_sessions s.session_manager) ch a).1 (
            w.session,
            (list_sessions_iff s.session_manager w.session valid).1 w.registered,
            w.channel,
            w.connects,
          )))
    | inr one ↦
        let same : to_ascii_lowercase target ≡ to_ascii_lowercase w.session.username =
          ground arith in
        rw one (
          (send_one-In s.sender target w.server (get_session s.session_manager target) ch a).1 (
            w.session,
            get_session-case s.session_manager target w.session.username same ∙ w.registered,
            w.channel,
            w.connects,
          ))
  ]

-- `/send` delivers an action to a connection exactly if its sender is the console or a player with
-- the permission `vine.command.send`, the action is to connect to the first configured server of
-- that name without case, and the connection is that of a registered session which the target
-- means, every session for `all` and the one of that name otherwise: in a registry that holds each
-- player once, under the player's name in lower case.
pub execute_send_iff :
    (s : ProxyCommandSource) (target name : Text) (ch : ℕ) (a : PlayerAction)
    → IsValid s.session_manager
    → In (action ch a) (deliveries (execute_send s target name)) ↔ Sends s target name ch a
unfolding execute_send
execute_send_iff s target name ch a v =
    elim (Bool-cases (source_allowed s (codes "vine.command.send"))) [
      | inl p ↦ rw p (
        λ i. send_to-Sends s v target name ch a p i,
        λ w.
            rw ((find_server_iff s.config.servers name w.server).1 w.configured)
              (Sends-send_to s v target name ch a w),
      )
      | inr p ↦ rw p (
        λ i. absurd i,
        λ w.
            absurd (let q = (source_allowed_iff s (codes "vine.command.send")).1 w.permitted in cc),
      )
    ]
