-- ===== src/Command/Server.antt =====
-- Where `/server` sends its sender.
use vine.Base.{
  subst, sym, ℕ, true, false, Option, none, some, Text, codes, In, eq_ignore_ascii_case, ◌≡◌, ◌↔◌,
  inl, inr, refl, Bool-cases, Option-cases,
}
use vine.Session.{PlayerAction, connect, PlayerSession, get_session}
use vine.Command.Named.{Permitted, Means, source_allowed_iff, find_server_iff}
use vine.Command.{
  CommandSender, console, player, ProxyCommandSource, source_allowed, action, deliveries,
  find_server, is_on, switch_to, switch_by, execute_server_switch,
}

-- An action that `/server` delivers: to its own sender, a player with the permission who is not on
-- that server yet.
pub record Switches (s : ProxyCommandSource) (name : Text) (ch : ℕ) (a : PlayerAction)
    : Type 0 where
  pub permitted : Permitted s (codes "vine.command.server")
  pub username : Text
  pub sent_by : s.sender ≡ player username ch
  pub server : Text
  pub configured : Means s.config.servers name server
  pub connects : a ≡ connect server
  pub elsewhere :
      (t : PlayerSession)
      → get_session s.session_manager username ≡ some t
      → eq_ignore_ascii_case t.current_server server ≡ false

is_on_iff :
    (o : Option PlayerSession) (server : Text)
    → (is_on o server ≡ false)
      ↔ ((t : PlayerSession) → o ≡ some t → eq_ignore_ascii_case t.current_server server ≡ false)
unfolding is_on
is_on_iff none server = (λ h t e. absurd cc, λ h. refl)
is_on_iff (some t) server = (λ h u e. cc, λ h. h t refl)

switch_to-In :
    (s : ProxyCommandSource) (username : Text) (tx : ℕ) (name : Text) (ch : ℕ) (a : PlayerAction)
    → In
        (action ch a)
        (deliveries (switch_to s username tx name (find_server s.config.servers name)))
      ↔ ((server : Text) × (find_server s.config.servers name ≡ some server)
          × (ch ≡ tx)
          × (a ≡ connect server)
          × (is_on (get_session s.session_manager username) server ≡ false))
unfolding switch_to
switch_to-In s username tx name ch a = elim (Option-cases (find_server s.config.servers name)) [
  | inl n ↦ rw n (λ i. absurd i, λ (server, f, e, g, h). absurd cc)
  | inr (server, f) ↦ elim (Bool-cases (is_on (get_session s.session_manager username) server)) [
    | inl on ↦ rw (f, on) (λ i. absurd i, λ (server', f', e, g, h). absurd cc)
    | inr off ↦
        rw (f, off)
          (
            λ i. elim i [
              | inl e ↦ absurd cc
              | inr j ↦ elim j [ inl e ↦ (server, refl, cc, cc, off) | inr k ↦ absurd k ]
            ],
            λ (server', f', e, g, h). inr (inl cc),
          )
  ]
]

-- `/server` with a name delivers an action to a connection exactly if its sender is a player with
-- that connection and the permission `vine.command.server`, the action is to connect to the first
-- configured server of that name without case, and the player is not registered as on that server.
pub execute_server_switch_iff :
    (s : ProxyCommandSource) (name : Text) (ch : ℕ) (a : PlayerAction)
    → In (action ch a) (deliveries (execute_server_switch s name)) ↔ Switches s name ch a
unfolding execute_server_switch
execute_server_switch_iff s name ch a =
    elim (Bool-cases (source_allowed s (codes "vine.command.server"))) [
      | inl p ↦ rw p (
        λ i. by_sender p s.sender refl i,
        λ w.
            subst (λ sender. In (action ch a) (deliveries (switch_by s sender name)))
              (sym w.sent_by) (chosen w),
      )
      | inr p ↦ rw p (
        λ i. absurd i,
        λ w.
            absurd
              (let q = (source_allowed_iff s (codes "vine.command.server")).1 w.permitted in cc),
      )
    ]
  where
    by_sender :
        source_allowed s (codes "vine.command.server") ≡ true
        → (sender : CommandSender) → s.sender ≡ sender
        → In (action ch a) (deliveries (switch_by s sender name))
        → Switches s name ch a
    by_sender p console e i = absurd (unfold switch_by in i)
    by_sender p (player username tx) e i =
        let (server, f, c, g, off) =
          (switch_to-In s username tx name ch a).0 (unfold switch_by in i) in
        record {
          permitted = (source_allowed_iff s (codes "vine.command.server")).0 p;
          username = username;
          sent_by = rw c e;
          server = server;
          configured = (find_server_iff s.config.servers name server).0 f;
          connects = g;
          elsewhere = (is_on_iff (get_session s.session_manager username) server).0 off;
        }

    chosen :
        (w : Switches s name ch a)
        → In (action ch a) (deliveries (switch_by s (player w.username ch) name))
    chosen w =
        unfold switch_by in
        (switch_to-In s w.username ch name ch a).1 (
          w.server,
          (find_server_iff s.config.servers name w.server).1 w.configured,
          refl,
          w.connects,
          (is_on_iff (get_session s.session_manager w.username) w.server).1 w.elsewhere,
        )
