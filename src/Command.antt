-- ===== src/Command.antt =====
-- src/command: who runs a command, and the commands `/send`, `/server`, `/glist` and `/list`. The
-- arguments are handed in as the parser of pumpkin-command finds them. A text for a person is a
-- constructor with what stands in it.
pub mod Named
pub mod Send
pub mod Server
pub mod Glist
mod Tests
use mathlib.Core.Option
use vine.Base.{
  insert, lookup, text_key, ltb, ◌==◌, ◌&&◌, ◌||◌, ℕ, ℤ, pos, Bool, true, false, not, if◌then◌else◌,
  List, [], ◌∷◌, ◌++◌, map, Option, none, some, length, Text, codes, as_i32, eq_ignore_ascii_case,
}
use vine.Config.{Config}
use vine.Permissions.{has_permission}
use vine.Session.{PlayerAction, connect, PlayerSession, SessionManager, get_session, list_sessions}

-- A player's sender is the number of its channel.
pub data CommandSender : Type 0 where
  console : CommandSender
  player : Text → ℕ → CommandSender

pub record ProxyCommandSource : Type 0 where
  pub sender : CommandSender
  pub config : Config
  pub session_manager : SessionManager

sender_allowed : Config → CommandSender → Text → Bool
sender_allowed config console node = true
sender_allowed config (player username tx) node = has_permission config.permissions username node

pub source_allowed : ProxyCommandSource → Text → Bool
unfolding sender_allowed
source_allowed s node = sender_allowed s.config s.sender node

pub is_admin : ProxyCommandSource → Bool
is_admin s = source_allowed s (codes "vine.admin")

pub data Message : Type 0 where
  sent_all : ℕ → Text → Message
  sent_one : Text → Text → Message
  current_server : Text → List Text → Message
  all_servers : List Text → Message
  connecting : Text → Message
  nobody_online : Message
  online : List (Text × Text) → Message
  by_server : List (Text × List Text) → ℕ → Message

pub data CommandError : Type 0 where
  no_permission not_online already_connected : Text → CommandError
  unknown_server : Text → List Text → CommandError
  nobody_to_send console_cannot_switch : CommandError

-- What a command sends: an action to a player's connection, or a reply to its sender.
pub data Delivery : Type 0 where
  action : ℕ → PlayerAction → Delivery
  reply : CommandSender → Message → Delivery

-- The result of a command, and what it sends before it ends.
pub data Outcome : Type 0 where
  done : ℤ → List Delivery → Outcome
  failed : CommandError → Outcome

abbrev pub deliveries : Outcome → List Delivery
deliveries (done n ds) = ds
deliveries (failed e) = []

-- `servers.keys().find(|k| k.eq_ignore_ascii_case(name))`
pub find_server : {V : Type 0} → List (Text × V) → Text → Option Text
find_server [] name = none
find_server ((k, v) ∷ m) name = if eq_ignore_ascii_case k name then some k else find_server m name

-- The order of `String`, by bytes.
text_leb : Text → Text → Bool
text_leb [] t = true
text_leb (a ∷ s) [] = false
text_leb (a ∷ s) (b ∷ t) = ltb a b || (a == b && text_leb s t)

module _ {A : Type 0} (key : A → Text) where
  insert_sorted : A → List A → List A
  insert_sorted x [] = x ∷ []
  insert_sorted x (y ∷ ys) = if text_leb (key x) (key y) then x ∷ y ∷ ys else y ∷ insert_sorted x ys

  -- `sort`, by a key
  sort_by : List A → List A
  unfolding insert_sorted
  sort_by [] = []
  sort_by (x ∷ xs) = insert_sorted x (sort_by xs)

sort : List Text → List Text
sort ts = sort_by (λ t. t) ts

-- The names of the servers, as the messages list them.
available : ProxyCommandSource → List Text
available s = sort (map (λ e. e.0) s.config.servers)

-- The loop over the sessions.
connect_each : Text → List PlayerSession → List Delivery
connect_each server [] = []
connect_each server (s ∷ rest) = action s.action_tx (connect server) ∷ connect_each server rest

send_all : CommandSender → Text → List PlayerSession → Outcome
unfolding connect_each
send_all sender server [] = failed nobody_to_send
send_all sender server (s ∷ rest) =
    let count = length (s ∷ rest) in
    done (as_i32 count)
      (connect_each server (s ∷ rest) ++ reply sender (sent_all count server) ∷ [])

send_one : CommandSender → Text → Text → Option PlayerSession → Outcome
send_one sender target server none = failed (not_online target)
send_one sender target server (some s) =
    done (pos 1)
      (action s.action_tx (connect server) ∷ reply sender (sent_one s.username server) ∷ [])

-- Behind the choice of the server.
send_to : ProxyCommandSource → Text → Text → Option Text → Outcome
unfolding send_all send_one
send_to s target server_name none = failed (unknown_server server_name (available s))
send_to s target server_name (some server) =
    if eq_ignore_ascii_case target (codes "all")
    then send_all s.sender server (list_sessions s.session_manager)
    else send_one s.sender target server (get_session s.session_manager target)

-- `SendCommandExecutor`
pub execute_send : ProxyCommandSource → Text → Text → Outcome
unfolding send_to
execute_send s target server_name =
    if not (source_allowed s (codes "vine.command.send"))
    then failed (no_permission (codes "vine.command.send"))
    else send_to s target server_name (find_server s.config.servers server_name)

current_of : Option PlayerSession → Text
current_of none = codes "unknown"
current_of (some s) = s.current_server

server_info : ProxyCommandSource → CommandSender → Message
unfolding current_of
server_info s console = all_servers (available s)
server_info s (player username tx) =
    current_server (current_of (get_session s.session_manager username)) (available s)

-- `ServerInfoCommandExecutor`
pub execute_server_info : ProxyCommandSource → Outcome
unfolding server_info
execute_server_info s =
    if not (source_allowed s (codes "vine.command.server"))
    then failed (no_permission (codes "vine.command.server"))
    else done (pos 1) (reply s.sender (server_info s s.sender) ∷ [])

-- The player is on this server already.
is_on : Option PlayerSession → Text → Bool
is_on none server = false
is_on (some s) server = eq_ignore_ascii_case s.current_server server

switch_to : ProxyCommandSource → Text → ℕ → Text → Option Text → Outcome
unfolding is_on
switch_to s username tx server_name none = failed (unknown_server server_name (available s))
switch_to s username tx server_name (some server) =
    if is_on (get_session s.session_manager username) server
    then failed (already_connected server)
    else done (pos 1) (reply s.sender (connecting server) ∷ action tx (connect server) ∷ [])

switch_by : ProxyCommandSource → CommandSender → Text → Outcome
unfolding switch_to
switch_by s console server_name = failed console_cannot_switch
switch_by s (player username tx) server_name =
    switch_to s username tx server_name (find_server s.config.servers server_name)

-- `ServerSwitchCommandExecutor`
pub execute_server_switch : ProxyCommandSource → Text → Outcome
unfolding switch_by
execute_server_switch s server_name =
    if not (source_allowed s (codes "vine.command.server"))
    then failed (no_permission (codes "vine.command.server"))
    else switch_by s s.sender server_name

list_players : CommandSender → List PlayerSession → Outcome
list_players sender [] = done (pos 0) (reply sender nobody_online ∷ [])
list_players sender (s ∷ rest) =
    done (as_i32 (length (s ∷ rest)))
      (reply sender (online (map (λ t. (t.username, t.current_server)) (s ∷ rest))) ∷ [])

-- `ListCommandExecutor`
pub execute_list : ProxyCommandSource → Outcome
unfolding list_players
execute_list s = list_players s.sender (list_sessions s.session_manager)

or_default : Option (List Text) → List Text
or_default none = []
or_default (some names) = names

-- The first loop of `/glist`: every configured server has a group.
empty_groups : {V : Type 0} → List (Text × V) → List (Text × List Text) → List (Text × List Text)
unfolding or_default
empty_groups [] m = m
empty_groups ((k, v) ∷ servers) m = empty_groups servers (insert m k (or_default (lookup m k)))

-- The second loop: each player goes to the group of the player's server.
group_players : List PlayerSession → List (Text × List Text) → List (Text × List Text)
unfolding or_default
group_players [] m = m
group_players (s ∷ rest) m =
    group_players rest
      (insert m s.current_server (or_default (lookup m s.current_server) ++ s.username ∷ []))

-- The third loop: the groups in the order of the map, each in the order of its names.
rows : List (Text × List Text) → List (Text × List Text)
unfolding sort sort_by
rows m = sort_by (λ g. g.0) (map (λ g. (g.0, sort g.1)) m)

-- `GlistCommandExecutor`
pub glist_rows : ProxyCommandSource → List (Text × List Text)
unfolding rows empty_groups group_players
glist_rows s =
    rows (group_players (list_sessions s.session_manager) (empty_groups s.config.servers []))

pub execute_glist : ProxyCommandSource → Outcome
unfolding glist_rows
execute_glist s =
    let total = length (list_sessions s.session_manager) in
    if not (source_allowed s (codes "vine.command.glist"))
    then failed (no_permission (codes "vine.command.glist"))
    else done (as_i32 total) (reply s.sender (by_server (glist_rows s) total) ∷ [])
