-- ===== src/Session/Laws.antt =====
-- What each operation does to the lookups.
use mathlib.Core.Option
use vine.Base.{
  Bool, false, if◌then◌else◌, none, some, Text, to_ascii_lowercase, text_eq, text_eq_iff, text_key,
  lookup, lookup-insert, lookup-remove, ◌≡◌, arith, Option-cases, inl, inr,
}
use vine.Session.{
  PlayerSession, SessionManager, register, unregister, set_server, update_server, get_session,
}

-- The same player, up to case.
abbrev pub same_name : Text → Text → Bool
same_name u v = text_eq (to_ascii_lowercase u) (to_ascii_lowercase v)

abbrev pub moved : Text → PlayerSession → PlayerSession
moved server s = record s { current_server = server }

module _ (m : SessionManager) (sound : m.poisoned ≡ false) where
  pub get_session-register :
      (s : PlayerSession) (u : Text)
      → get_session (register m s) u ≡ (if same_name s.username u then some s else get_session m u)
  unfolding get_session register
  get_session-register s u =
      ground
        (arith, lookup-insert m.sessions (to_ascii_lowercase s.username) (to_ascii_lowercase u) s)

  pub get_session-unregister :
      (v u : Text)
      → get_session (unregister m v).0 u ≡ (if same_name v u then none else get_session m u)
  unfolding get_session unregister
  get_session-unregister v u =
      ground (arith, lookup-remove m.sessions (to_ascii_lowercase v) (to_ascii_lowercase u))

  -- What is taken out is what a lookup would have found.
  pub unregister_result : (v : Text) → (unregister m v).1 ≡ get_session m v
  unfolding get_session unregister
  unregister_result v = ground arith

  pub get_session-update_server :
      (v server u : Text)
      → get_session (update_server m v server) u
        ≡ (if same_name v u then Option.map (moved server) (get_session m u) else get_session m u)
  unfolding get_session update_server set_server
  get_session-update_server v server u =
      let key = to_ascii_lowercase v in
      elim (Option-cases (lookup m.sessions key)) [
        | inl e ↦ ground (arith, text_eq_iff key (to_ascii_lowercase u))
        | inr (s, e) ↦ ground (
          arith,
          text_eq_iff key (to_ascii_lowercase u),
          lookup-insert m.sessions key (to_ascii_lowercase u) (moved server s),
        )
      ]
