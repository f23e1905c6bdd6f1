-- ===== src/Plugin/Handlers.antt =====
-- src/plugin/mod.rs: the registered handlers of each event type, kept in order of priority, and the
-- plugins that are loaded. A plugin is its name; what its code does is a parameter.
use vine.Base.{
  ℕ, Bool, true, false, leb, if◌then◌else◌, List, [], ◌∷◌, ◌++◌, Option, none, some, Text, lookup,
  insert, ◌+◌,
}
use mathlib.Core.Option
use vine.Plugin.Api.{EventPriority, EventType, rank, type_key}

pub record RegisteredEventHandler : Type 0 where
  pub handler_id : ℕ
  pub priority : EventPriority
  pub plugin : Text

pub record PluginManager : Type 0 where
  pub loaded_plugins : List Text
  pub event_handlers : List (EventType × List RegisteredEventHandler)

unfoldable pub new : PluginManager
new = record { loaded_plugins = []; event_handlers = [] }

unfoldable pub insert_by_priority :
    RegisteredEventHandler → List RegisteredEventHandler → List RegisteredEventHandler
insert_by_priority h [] = h ∷ []
insert_by_priority h (g ∷ gs) =
    let rest = insert_by_priority h gs in
    if leb (rank h.priority) (rank g.priority) then h ∷ g ∷ gs else g ∷ rest

-- `sort_by_key`, which is stable: a handler goes in front of those behind it that are not smaller.
unfoldable pub sort_by_priority : List RegisteredEventHandler → List RegisteredEventHandler
sort_by_priority [] = []
sort_by_priority (h ∷ hs) = insert_by_priority h (sort_by_priority hs)

-- The handlers of an event type, none of a type without an entry.
unfoldable pub handlers_of : PluginManager → EventType → List RegisteredEventHandler
handlers_of m t = Option.get_or (lookup m.event_handlers t) []

unfoldable pub register_event_handler :
    PluginManager → EventType → EventPriority → ℕ → Text → PluginManager
register_event_handler m t priority handler_id plugin =
    let h : RegisteredEventHandler = record {
      handler_id = handler_id;
      priority = priority;
      plugin = plugin;
    } in
    record m {
      event_handlers = insert m.event_handlers t (sort_by_priority (handlers_of m t ++ h ∷ []));
    }

-- What `on_load` asks the proxy to register.
pub record Registration : Type 0 where
  pub event_type : EventType
  pub event_priority : EventPriority
  pub handler : ℕ

-- The host's answer to each request of a plugin.
unfoldable pub register_all : PluginManager → Text → List Registration → PluginManager
register_all m plugin [] = m
register_all m plugin (r ∷ rs) =
    register_all (register_event_handler m r.event_type r.event_priority r.handler plugin) plugin rs

-- An entry of the plugin directory: whether it is a file that the loader takes, the plugin it loads
-- as, and what the plugin's `on_load` registers and whether it succeeds.
pub record Entry : Type 0 where
  pub can_load : Bool
  pub loaded : Option Text
  pub registers : List Registration
  pub on_load_ok : Bool

keep_loaded : PluginManager → Text → Bool → PluginManager × ℕ
keep_loaded m plugin true = (record m { loaded_plugins = m.loaded_plugins ++ plugin ∷ [] }, 1)
keep_loaded m plugin false = (m, 0)

load_found : PluginManager → Entry → Option Text → PluginManager × ℕ
unfolding keep_loaded
load_found m e none = (m, 0)
load_found m e (some plugin) = keep_loaded (register_all m plugin e.registers) plugin e.on_load_ok

load_entry : PluginManager → Entry → PluginManager × ℕ
unfolding load_found
load_entry m e = if e.can_load then load_found m e e.loaded else (m, 0)

pub load_entries : PluginManager → List Entry → PluginManager × ℕ
unfolding load_entry
load_entries m [] = (m, 0)
load_entries m (e ∷ es) =
    let step = load_entry m e in let rest = load_entries step.0 es in (rest.0, step.1 + rest.1)

-- A directory that is missing, which is created, or cannot be read has no entries.
pub load_plugins : PluginManager → Option (List Entry) → PluginManager × ℕ
unfolding load_entries
load_plugins m none = (m, 0)
load_plugins m (some es) = load_entries m es

-- With the plugins whose `on_unload` is called, in order; what those calls register is cleared too.
pub unload_plugins : PluginManager → PluginManager × List Text
unload_plugins m = (record { loaded_plugins = []; event_handlers = [] }, m.loaded_plugins)
