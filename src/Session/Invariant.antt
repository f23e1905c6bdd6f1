-- ===== src/Session/Invariant.antt =====
-- Well-formed registries of src/session.rs, the list of the sessions and their count.
use vine.Base.{
  ℕ, ◌+◌, false, List, [], ◌∷◌, none, some, map, In, Text, to_ascii_lowercase, text_eq_iff,
  text_key, lookup, insert, remove, lookup-insert, lookup-remove, DistinctKeys, insert-DistinctKeys,
  remove-DistinctKeys, length-insert, length-remove, In-lookup, lookup-In, ◌≡◌, ◌↔◌, refl, arith,
  ap, Bool-cases, Option-cases, inl, inr,
}
use vine.Session.{
  PlayerSession, SessionManager, new, register, unregister, set_server, update_server, get_session,
  list_sessions, count,
}

-- Every entry stands under the name of its session.
abbrev NamedKeys : List (Text × PlayerSession) → Type 0
NamedKeys m =
    (k : Text) (s : PlayerSession) → lookup m k ≡ some s → k ≡ to_ascii_lowercase s.username

pub record IsValid (m : SessionManager) : Type 0 where
  pub distinct : DistinctKeys m.sessions
  pub named : NamedKeys m.sessions

pub new-IsValid : IsValid new
unfolding new lookup
new-IsValid = record { distinct = tt; named = λ k s h. cc }

insert-NamedKeys :
    (m : List (Text × PlayerSession)) (key : Text) (s : PlayerSession)
    → key ≡ to_ascii_lowercase s.username
    → NamedKeys m
    → NamedKeys (insert m key s)
insert-NamedKeys m key s own h k t e =
    ground (arith, lookup-insert m key k s, text_eq_iff key k, h k t)

remove-NamedKeys :
    (m : List (Text × PlayerSession)) (key : Text) → NamedKeys m → NamedKeys (remove m key)
remove-NamedKeys m key h k t e = ground (arith, lookup-remove m key k, h k t)

pub register-IsValid : (m : SessionManager) (s : PlayerSession) → IsValid m → IsValid (register m s)
unfolding register
register-IsValid m s v = elim (Bool-cases m.poisoned) [
  | inl p ↦ rw p (record { distinct = v.distinct; named = v.named })
  | inr p ↦
      let key = to_ascii_lowercase s.username in
      rw p (record {
        distinct = insert-DistinctKeys m.sessions key s v.distinct;
        named = insert-NamedKeys m.sessions key s refl v.named;
      })
]

pub unregister-IsValid : (m : SessionManager) (u : Text) → IsValid m → IsValid (unregister m u).0
unfolding unregister
unregister-IsValid m u v = elim (Bool-cases m.poisoned) [
  | inl p ↦ rw p (record { distinct = v.distinct; named = v.named })
  | inr p ↦
      let key = to_ascii_lowercase u in
      rw p (record {
        distinct = remove-DistinctKeys m.sessions key v.distinct;
        named = remove-NamedKeys m.sessions key v.named;
      })
]

pub update_server-IsValid :
    (m : SessionManager) (u server : Text) → IsValid m → IsValid (update_server m u server)
unfolding update_server set_server
update_server-IsValid m u server v = elim (Bool-cases m.poisoned) [
  | inl p ↦ rw p (record { distinct = v.distinct; named = v.named })
  | inr p ↦
      let key = to_ascii_lowercase u in
      elim (Option-cases (lookup m.sessions key)) [
        | inl e ↦ rw (p, e, set_server) (record { distinct = v.distinct; named = v.named })
        | inr (s, e) ↦
            let s' : PlayerSession = record s { current_server = server } in
            rw (p, e, set_server)
              (record {
                distinct = insert-DistinctKeys m.sessions key s' v.distinct;
                named = insert-NamedKeys m.sessions key s' (v.named key s e) v.named;
              })
      ]
]

In-values :
    (m : List (Text × PlayerSession)) (s : PlayerSession)
    → In s (map (λ e. e.1) m)
    → (k : Text) × In (k, s) m
In-values [] s i = absurd i
In-values ((k, t) ∷ m) s (inl e) = (k, inl (ap (λ x. (k, x)) e))
In-values ((k, t) ∷ m) s (inr i) = let (j, h) = In-values m s i in (j, inr h)

values-In :
    (m : List (Text × PlayerSession)) (k : Text) (s : PlayerSession)
    → In (k, s) m
    → In s (map (λ e. e.1) m)
values-In [] k s i = absurd i
values-In ((j, t) ∷ m) k s (inl e) = inl (ap (λ x. x.1) e)
values-In ((j, t) ∷ m) k s (inr i) = inr (values-In m k s i)

-- In a registry that holds each player once, under the player's name in lower case, a session is
-- listed exactly if a lookup by its own name finds it.
pub list_sessions_iff :
    (m : SessionManager) (s : PlayerSession)
    → IsValid m
    → In s (list_sessions m) ↔ (get_session m s.username ≡ some s)
unfolding list_sessions get_session
list_sessions_iff m s v = elim (Bool-cases m.poisoned) [
  | inl p ↦ rw p (λ i. absurd i, λ h. cc)
  | inr p ↦ rw p (
    λ i.
        let (k, j) = In-values m.sessions s i in
        let found = In-lookup m.sessions k s v.distinct j in rw (← v.named k s found) found,
    λ h. values-In m.sessions _ s (lookup-In m.sessions _ s h),
  )
]

-- A registration adds one to the count if no session of that name was there, and nothing otherwise,
-- where the lock is not poisoned.
pub count-register :
    (m : SessionManager) (s : PlayerSession)
    → m.poisoned ≡ false
    → count (register m s)
      ≡ count m + elim (get_session m s.username) as (λ _. ℕ) [ none ↦ 1 | some _ ↦ 0 ]
unfolding count register get_session
count-register m s p = rw p (length-insert m.sessions (to_ascii_lowercase s.username) s)

-- A removal takes one off the count if it returns a session, and nothing otherwise, for a registry
-- that holds each player once and whose lock is not poisoned.
pub count-unregister :
    (m : SessionManager) (u : Text)
    → m.poisoned ≡ false
    → IsValid m
    → count (unregister m u).0 + elim (unregister m u).1 as (λ _. ℕ) [ none ↦ 0 | some _ ↦ 1 ]
      ≡ count m
unfolding count unregister
count-unregister m u p v = rw p (length-remove m.sessions (to_ascii_lowercase u) v.distinct)
