-- ===== src/Plugin/Order.antt =====
-- The order of the handlers that src/plugin/mod.rs keeps for each event type.
pub mod History
use mathlib.Core.Option
use vine.Base.{
  ℕ, Bool, true, false, ◌≤◌, leb, ◌==◌, ==_iff, ◌&&◌, if◌then◌else◌, List, [], ◌∷◌, ◌++◌, Option,
  none, some, All, Text, lookup, insert, lookup-insert, Bool-cases, ◌≡◌, refl, sym, ap, ◌∙◌, inl,
  inr, arith, append_assoc,
}
use vine.Plugin.Api.{EventPriority, EventType, rank, same_type, type_key}
use vine.Plugin.Handlers.{
  RegisteredEventHandler, PluginManager, new, insert_by_priority, sort_by_priority, handlers_of,
  register_event_handler,
}

unfoldable pub IsSorted : List RegisteredEventHandler → Type 0
IsSorted [] = Unit
IsSorted (h ∷ hs) = All (λ g. rank h.priority ≤ rank g.priority) hs × IsSorted hs

unfoldable pub with_priority :
    EventPriority → List RegisteredEventHandler → List RegisteredEventHandler
with_priority p [] = []
with_priority p (h ∷ hs) =
    let rest = with_priority p hs in if rank h.priority == rank p then h ∷ rest else rest

All-insert :
    (n : ℕ) (h : RegisteredEventHandler) (hs : List RegisteredEventHandler)
    → n ≤ rank h.priority
    → All (λ g. n ≤ rank g.priority) hs
    → All (λ g. n ≤ rank g.priority) (insert_by_priority h hs)
unfolding insert_by_priority
All-insert n h [] l a = (l, tt)
All-insert n h (g ∷ gs) l a = ground (arith, All-insert n h gs l a.1)

All-le :
    (m n : ℕ) (hs : List RegisteredEventHandler)
    → m ≤ n
    → All (λ g. n ≤ rank g.priority) hs
    → All (λ g. m ≤ rank g.priority) hs
All-le m n [] l a = tt
All-le m n (g ∷ gs) l a = (omega (arith, a.0), All-le m n gs l a.1)

insert_by_priority-IsSorted :
    (h : RegisteredEventHandler) (hs : List RegisteredEventHandler)
    → IsSorted hs
    → IsSorted (insert_by_priority h hs)
unfolding insert_by_priority IsSorted
insert_by_priority-IsSorted h [] s = (tt, tt)
insert_by_priority-IsSorted h (g ∷ gs) s =
    elim (Bool-cases (leb (rank h.priority) (rank g.priority))) [
      | inl e ↦
          let l : rank h.priority ≤ rank g.priority = ground arith in
          rw e ((l, All-le (rank h.priority) (rank g.priority) gs l s.0), s)
      | inr e ↦
          let l : rank g.priority ≤ rank h.priority = ground arith in
          rw e (All-insert (rank g.priority) h gs l s.0, insert_by_priority-IsSorted h gs s.1)
    ]

pub sort_by_priority-IsSorted : (hs : List RegisteredEventHandler) → IsSorted (sort_by_priority hs)
unfolding sort_by_priority IsSorted
sort_by_priority-IsSorted [] = tt
sort_by_priority-IsSorted (h ∷ hs) =
    insert_by_priority-IsSorted h (sort_by_priority hs) (sort_by_priority-IsSorted hs)

with_priority-insert_by_priority :
    (p : EventPriority) (h : RegisteredEventHandler) (hs : List RegisteredEventHandler)
    → with_priority p (insert_by_priority h hs) ≡ with_priority p (h ∷ hs)
unfolding with_priority insert_by_priority
with_priority-insert_by_priority p h [] = refl
with_priority-insert_by_priority p h (g ∷ gs) =
    ground (arith, with_priority-insert_by_priority p h gs)

pub with_priority-sort_by_priority :
    (p : EventPriority) (hs : List RegisteredEventHandler)
    → with_priority p (sort_by_priority hs) ≡ with_priority p hs
unfolding with_priority sort_by_priority
with_priority-sort_by_priority p [] = refl
with_priority-sort_by_priority p (h ∷ hs) =
    rw
      (
        with_priority-insert_by_priority p h (sort_by_priority hs),
        with_priority-sort_by_priority p hs,
      )
      refl

pub with_priority-append :
    (p : EventPriority) (hs gs : List RegisteredEventHandler)
    → with_priority p (hs ++ gs) ≡ with_priority p hs ++ with_priority p gs
unfolding with_priority
with_priority-append p [] gs = refl
with_priority-append p (h ∷ hs) gs = ground (arith, with_priority-append p hs gs)
