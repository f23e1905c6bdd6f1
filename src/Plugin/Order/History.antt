-- ===== src/Plugin/Order/History.antt =====
-- The handlers of src/plugin/mod.rs after any history of registrations.
use vine.Base.{
  if◌then◌else◌, List, [], ◌∷◌, ◌++◌, lookup, lookup-insert, Bool-cases, ◌≡◌, refl, sym, ap, ◌∙◌,
  inl, inr, arith, append_assoc, append-nil,
}
use vine.Plugin.Api.{EventPriority, EventType, same_type, same_type_iff, type_key}
use vine.Plugin.Handlers.{
  RegisteredEventHandler, PluginManager, new, sort_by_priority, handlers_of, register_event_handler,
}
use vine.Plugin.Order.{
  IsSorted, with_priority, sort_by_priority-IsSorted, with_priority-sort_by_priority,
  with_priority-append,
}

-- A registration: what `register_event_handler` is called with.
pub record Request : Type 0 where
  pub event_type : EventType
  pub handler : RegisteredEventHandler

unfoldable pub add_request : PluginManager → Request → PluginManager
add_request m r =
    register_event_handler m r.event_type r.handler.priority r.handler.handler_id r.handler.plugin

unfoldable pub run : PluginManager → List Request → PluginManager
run m [] = m
run m (r ∷ rs) = run (add_request m r) rs

-- The handlers of the requests for a type, in the order of the requests.
unfoldable pub requested : EventType → List Request → List RegisteredEventHandler
requested t [] = []
requested t (r ∷ rs) =
    let rest = requested t rs in if same_type r.event_type t then r.handler ∷ rest else rest

handlers_of-register :
    (m : PluginManager) (r : Request) (t : EventType)
    → handlers_of (add_request m r) t ≡ (
        if same_type r.event_type t
        then sort_by_priority (handlers_of m r.event_type ++ r.handler ∷ [])
        else handlers_of m t)
unfolding handlers_of add_request register_event_handler
handlers_of-register m r t = ground (
  arith,
  lookup-insert m.event_handlers r.event_type t
      (sort_by_priority (handlers_of m r.event_type ++ r.handler ∷ [])),
)

add_request-IsSorted :
    (m : PluginManager) (r : Request) (t : EventType)
    → IsSorted (handlers_of m t)
    → IsSorted (handlers_of (add_request m r) t)
add_request-IsSorted m r t s = elim (Bool-cases (same_type r.event_type t)) [
  | inl e ↦
      rw (handlers_of-register m r t, e)
        (sort_by_priority-IsSorted (handlers_of m r.event_type ++ r.handler ∷ []))
  | inr e ↦ rw (handlers_of-register m r t, e) s
]

with_priority-register :
    (p : EventPriority) (m : PluginManager) (r : Request) (t : EventType)
    → with_priority p (handlers_of (add_request m r) t)
      ≡ with_priority p (handlers_of m t ++ requested t (r ∷ []))
unfolding requested
with_priority-register p m r t = elim (Bool-cases (same_type r.event_type t)) [
  | inl e ↦
      rw
        (
          handlers_of-register m r t,
          e,
          with_priority-sort_by_priority p (handlers_of m r.event_type ++ r.handler ∷ []),
          (same_type_iff r.event_type t).0 e,
        )
        refl
  | inr e ↦ rw (handlers_of-register m r t, e, append-nil (handlers_of m t)) refl
]

requested-cons :
    (t : EventType) (r : Request) (rs : List Request)
    → requested t (r ∷ rs) ≡ requested t (r ∷ []) ++ requested t rs
unfolding requested
requested-cons t r rs = ground arith

run-stable :
    (p : EventPriority) (m : PluginManager) (rs : List Request) (t : EventType)
    → with_priority p (handlers_of (run m rs) t)
      ≡ with_priority p (handlers_of m t ++ requested t rs)
unfolding run requested
run-stable p m [] t = ap (with_priority p) (sym (append-nil (handlers_of m t)))
run-stable p m (r ∷ rs) t =
    run-stable p (add_request m r) rs t
    ∙ with_priority-append p (handlers_of (add_request m r) t) (requested t rs)
    ∙ ap (λ x. x ++ with_priority p (requested t rs)) (with_priority-register p m r t)
    ∙ sym (with_priority-append p (handlers_of m t ++ requested t (r ∷ [])) (requested t rs))
    ∙ ap (with_priority p) (append_assoc (handlers_of m t) (requested t (r ∷ [])) (requested t rs))
    ∙ ap (λ x. with_priority p (handlers_of m t ++ x)) (sym (requested-cons t r rs))

run-IsSorted :
    (m : PluginManager) (rs : List Request) (t : EventType)
    → IsSorted (handlers_of m t)
    → IsSorted (handlers_of (run m rs) t)
unfolding run
run-IsSorted m [] t s = s
run-IsSorted m (r ∷ rs) t s = run-IsSorted (add_request m r) rs t (add_request-IsSorted m r t s)

-- After any registrations, the handlers of an event type are in order of priority, and those of one
-- priority are the ones registered for the type, in the order of their registration.
pub run_ordered :
    (rs : List Request) (t : EventType)
    → IsSorted (handlers_of (run new rs) t)
      × ((p : EventPriority)
          → with_priority p (handlers_of (run new rs) t) ≡ with_priority p (requested t rs))
unfolding new handlers_of IsSorted lookup
run_ordered rs t = (run-IsSorted new rs t tt, λ p. run-stable p new rs t)
