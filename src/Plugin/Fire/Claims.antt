-- ===== src/Plugin/Fire/Claims.antt =====
-- What holds of every dispatcher of src/plugin/mod.rs.
use vine.Base.{Bool, false, List, ◌≡◌, ◌↔◌, refl, sym, true}
use vine.Plugin.Api.{
  Event, EventType, on_player_pre_login, on_player_login, on_server_connect, on_player_chat,
  on_player_command, on_plugin_message, player_pre_login, player_login, server_connect, player_chat,
  player_command, plugin_message, PlayerPreLoginEvent, PlayerLoginEvent, ServerConnectEvent,
  PlayerChatEvent, PlayerCommandEvent, PluginMessageEvent,
}
use vine.Plugin.Handlers.{PluginManager, handlers_of}
use vine.Plugin.Fire.{
  Answer, handled, Call, Plugins, merge_pre_login, merge_login, merge_server_connect, merge_chat,
  merge_command, merge_plugin_message, fire_player_pre_login, fire_player_login,
  fire_server_connect, fire_player_chat, fire_player_command, fire_plugin_message,
}
use vine.Plugin.Fire.Rules.{Stops, Made, Cancels, dispatch-Stops}

-- What an answer does to an event that can be cancelled: it is cancelled, and the loop is left, if
-- the answer cancels it, and only then.
abbrev Cancelling : {E : Type 0} → (E → Event) → (E → Bool) → (E → Answer → E × Bool) → Type 0
Cancelling {E} wrap cancelled merge =
    (e : E) (a : Answer)
    → cancelled e ≡ false
    → ((merge e a).1 ≡ cancelled (merge e a).0)
      × (((merge e a).1 ≡ true) ↔ Cancels wrap cancelled a)

same_pre_login :
    (r s : PlayerPreLoginEvent)
    → handled (player_pre_login r) ≡ handled (player_pre_login s)
    → r ≡ s
same_pre_login r s e = cc e

merge_pre_login-Cancelling : Cancelling player_pre_login (λ x. x.cancelled) merge_pre_login
unfolding merge_pre_login Cancels
merge_pre_login-Cancelling e (handled (player_pre_login r)) f =
    (refl, (λ t. (r, refl, t), λ (s, is, t). rw (same_pre_login r s is) t))
merge_pre_login-Cancelling e _ f = (sym f, (λ t. absurd cc, λ (s, is, t). absurd cc))

same_login : (r s : PlayerLoginEvent) → handled (player_login r) ≡ handled (player_login s) → r ≡ s
same_login r s e = cc e

merge_login-Cancelling : Cancelling player_login (λ x. x.cancelled) merge_login
unfolding merge_login Cancels
merge_login-Cancelling e (handled (player_login r)) f =
    (refl, (λ t. (r, refl, t), λ (s, is, t). rw (same_login r s is) t))
merge_login-Cancelling e _ f = (sym f, (λ t. absurd cc, λ (s, is, t). absurd cc))

same_server_connect :
    (r s : ServerConnectEvent) → handled (server_connect r) ≡ handled (server_connect s) → r ≡ s
same_server_connect r s e = cc e

merge_server_connect-Cancelling : Cancelling server_connect (λ x. x.cancelled) merge_server_connect
unfolding merge_server_connect Cancels
merge_server_connect-Cancelling e (handled (server_connect r)) f =
    (refl, (λ t. (r, refl, t), λ (s, is, t). rw (same_server_connect r s is) t))
merge_server_connect-Cancelling e _ f = (sym f, (λ t. absurd cc, λ (s, is, t). absurd cc))

same_chat : (r s : PlayerChatEvent) → handled (player_chat r) ≡ handled (player_chat s) → r ≡ s
same_chat r s e = cc e

merge_chat-Cancelling : Cancelling player_chat (λ x. x.cancelled) merge_chat
unfolding merge_chat Cancels
merge_chat-Cancelling e (handled (player_chat r)) f =
    (refl, (λ t. (r, refl, t), λ (s, is, t). rw (same_chat r s is) t))
merge_chat-Cancelling e _ f = (sym f, (λ t. absurd cc, λ (s, is, t). absurd cc))

same_command :
    (r s : PlayerCommandEvent) → handled (player_command r) ≡ handled (player_command s) → r ≡ s
same_command r s e = cc e

merge_command-Cancelling : Cancelling player_command (λ x. x.cancelled) merge_command
unfolding merge_command Cancels
merge_command-Cancelling e (handled (player_command r)) f =
    (refl, (λ t. (r, refl, t), λ (s, is, t). rw (same_command r s is) t))
merge_command-Cancelling e _ f = (sym f, (λ t. absurd cc, λ (s, is, t). absurd cc))

same_plugin_message :
    (r s : PluginMessageEvent) → handled (plugin_message r) ≡ handled (plugin_message s) → r ≡ s
same_plugin_message r s e = cc e

merge_plugin_message-Cancelling : Cancelling plugin_message (λ x. x.cancelled) merge_plugin_message
unfolding merge_plugin_message Cancels
merge_plugin_message-Cancelling e (handled (plugin_message r)) f =
    (refl, (λ t. (r, refl, t), λ (s, is, t). rw (same_plugin_message r s is) t))
merge_plugin_message-Cancelling e _ f = (sym f, (λ t. absurd cc, λ (s, is, t). absurd cc))

-- The calls behind `calls` are to the handlers of the type, up to the one that cancelled the event.
pub StopsAt :
    Plugins
    → {E : Type 0} → (E → Event)
    → (E → Bool)
    → PluginManager
    → EventType
    → List Call
    → List Call × E
    → Type 0
StopsAt handle_event wrap cancelled m t calls result =
    (made : List Call) × Made calls result.0 made
    × Stops handle_event wrap cancelled (handlers_of m t) calls made (cancelled result.1)

module _ (handle_event : Plugins) (m : PluginManager) (calls : List Call) where
  -- For each of the six kinds of event that can be cancelled, fired without being cancelled: either
  -- no answer cancels it, and every handler of its type was called, once and in order; or it ends
  -- up cancelled, and the handlers were called in order up to the first whose answer cancels it,
  -- and no more.
  pub cancelled_stops :
      (a : PlayerPreLoginEvent) (b : PlayerLoginEvent) (c : ServerConnectEvent)
      (d : PlayerChatEvent) (e : PlayerCommandEvent) (f : PluginMessageEvent)
      → a.cancelled ≡ false
      → b.cancelled ≡ false
      → c.cancelled ≡ false
      → d.cancelled ≡ false
      → e.cancelled ≡ false
      → f.cancelled ≡ false
      → StopsAt handle_event player_pre_login
          (λ x. x.cancelled)
          m
          on_player_pre_login
          calls
          (fire_player_pre_login handle_event m calls a)
        × StopsAt handle_event player_login
            (λ x. x.cancelled)
            m
            on_player_login
            calls
            (fire_player_login handle_event m calls b)
        × StopsAt handle_event server_connect
            (λ x. x.cancelled)
            m
            on_server_connect
            calls
            (fire_server_connect handle_event m calls c)
        × StopsAt handle_event player_chat
            (λ x. x.cancelled)
            m
            on_player_chat
            calls
            (fire_player_chat handle_event m calls d)
        × StopsAt handle_event player_command
            (λ x. x.cancelled)
            m
            on_player_command
            calls
            (fire_player_command handle_event m calls e)
        × StopsAt handle_event plugin_message
            (λ x. x.cancelled)
            m
            on_plugin_message
            calls
            (fire_plugin_message handle_event m calls f)
  unfolding StopsAt fire_player_pre_login fire_player_login fire_server_connect fire_player_chat
      fire_player_command fire_plugin_message
  cancelled_stops a b c d e f ha hb hc hd he hf = (
    dispatch-Stops handle_event player_pre_login merge_pre_login (λ x. x.cancelled)
        merge_pre_login-Cancelling calls (handlers_of m on_player_pre_login) a ha,
    dispatch-Stops handle_event player_login merge_login (λ x. x.cancelled) merge_login-Cancelling
        calls (handlers_of m on_player_login) b hb,
    dispatch-Stops handle_event server_connect merge_server_connect (λ x. x.cancelled)
        merge_server_connect-Cancelling calls (handlers_of m on_server_connect) c hc,
    dispatch-Stops handle_event player_chat merge_chat (λ x. x.cancelled) merge_chat-Cancelling
        calls (handlers_of m on_player_chat) d hd,
    dispatch-Stops handle_event player_command merge_command (λ x. x.cancelled)
        merge_command-Cancelling calls (handlers_of m on_player_command) e he,
    dispatch-Stops handle_event plugin_message merge_plugin_message (λ x. x.cancelled)
        merge_plugin_message-Cancelling calls (handlers_of m on_plugin_message) f hf,
  )
