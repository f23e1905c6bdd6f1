-- ===== src/Backend/Bridge/Connect.antt =====
-- src/backend/bridge.rs, `connect_to_backend`: what each attempt finds is a parameter.
use mathlib.Core.Option
use vine.Base.{
  ℕ, zero, suc, ◌+◌, ◌-◌, ◌≤◌, ◌<◌, max, ltb, if◌then◌else◌, Option, none, some, Text, ◌≡◌, refl,
  sym, ap, ◌∙◌, arith,
}
use native.Mathlib.Decide.{dec_lt}
use vine.Backend.Bridge.{
  IoError, system, timed_out, connection_refused, BridgeError, connect_failed,
}

pub data Dialed (S : Type 0) : Type 0 where
  connected : S → Dialed S
  refused : Text → Dialed S
  -- no answer within the timeout
  silent : Dialed S

pub data Connected (S : Type 0) : Type 0 where
  stream : S → Connected S
  gave_up : BridgeError → Connected S

-- With the attempts and the pauses between them.
pub record Connection (S : Type 0) : Type 0 where
  pub result : Connected S
  pub attempts : ℕ
  pub pauses : ℕ

module _ {S : Type 0} (dial : ℕ → Dialed S) (server_name : Text) (timeout_secs retries : ℕ) where
  unfoldable pub pause_after : ℕ → ℕ → ℕ
  pause_after attempt pauses = if ltb attempt retries then suc pauses else pauses

  unfoldable pub next_attempt : ℕ → ℕ → Dialed S → (Option IoError → Connection S) → Connection S
  next_attempt attempt pauses (connected s) rest = record {
    result = stream s;
    attempts = attempt;
    pauses = pauses;
  }
  next_attempt attempt pauses (refused e) rest = rest (some (system e))
  next_attempt attempt pauses silent rest = rest (some (timed_out timeout_secs))

  -- The rounds that are left, the attempt that is next, the pauses so far and the last error.
  unfoldable pub try_connect : ℕ → ℕ → ℕ → Option IoError → Connection S
  unfolding pause_after next_attempt
  try_connect zero attempt pauses last_err = record {
    result = gave_up (connect_failed server_name (Option.get_or last_err connection_refused));
    attempts = attempt - 1;
    pauses = pauses;
  }
  try_connect (suc rounds) attempt pauses last_err =
      next_attempt attempt pauses (dial attempt)
        (try_connect rounds (suc attempt) (pause_after attempt pauses))

  unfoldable pub connect_to_backend : Connection S
  unfolding try_connect
  connect_to_backend = try_connect (max retries 1) 1 0 none

  -- The error of an attempt that found no stream.
  unfoldable pub error_of : Dialed S → Option IoError
  error_of (connected s) = none
  error_of (refused e) = some (system e)
  error_of silent = some (timed_out timeout_secs)

  unfoldable pub Fails : Dialed S → Type 0
  Fails (connected s) = ⊥
  Fails (refused e) = Unit
  Fails silent = Unit

  next_attempt-Fails :
      (attempt pauses : ℕ) (d : Dialed S) (rest : Option IoError → Connection S)
      → Fails d
      → next_attempt attempt pauses d rest ≡ rest (error_of d)
  unfolding next_attempt Fails error_of
  next_attempt-Fails attempt pauses (connected s) rest f = absurd f
  next_attempt-Fails attempt pauses (refused e) rest f = refl
  next_attempt-Fails attempt pauses silent rest f = refl

  pause_after_early : (i : ℕ) → suc i < max retries 1 → pause_after (suc i) i ≡ suc i
  unfolding pause_after
  pause_after_early i l = ground arith

  pause_after_last : (i : ℕ) → suc i ≡ max retries 1 → pause_after (suc i) i ≡ i
  unfolding pause_after
  pause_after_last i l = ground arith

  try_connect_found :
      (rounds i k : ℕ) (s : S) (last_err : Option IoError)
      → i ≤ k
      → k < i + rounds
      → i + rounds ≡ max retries 1
      → ((j : ℕ) → i ≤ j → j < k → Fails (dial (suc j)))
      → dial (suc k) ≡ connected s
      → try_connect rounds (suc i) i last_err
        ≡ record { result = stream s; attempts = suc k; pauses = k }
  unfolding try_connect next_attempt
  try_connect_found zero i k s last_err l b t fails found = absurd (omega (arith, l, b))
  try_connect_found (suc rounds) i k s last_err l b t fails found = elim (dec_lt i k) [
    | yes p ↦
        next_attempt-Fails (suc i) i (dial (suc i)) _ (fails i (omega arith) p)
        ∙ ap (λ x. try_connect rounds (suc (suc i)) x (error_of (dial (suc i))))
            (pause_after_early i (omega (arith, p, b, t)))
        ∙ try_connect_found rounds (suc i) k s (error_of (dial (suc i))) (omega (arith, p))
            (omega (arith, b)) (omega (arith, t)) (λ j m n. fails j (omega (arith, m)) n) found
    | no p ↦ let e : k ≡ i = omega (arith, p, l) in rw (← e, found) refl
  ]

  -- The result where the attempts up to `n` fail.
  pub failed_after : ℕ → Connection S
  failed_after n = record {
    result =
        gave_up (connect_failed server_name (Option.get_or (error_of (dial n)) connection_refused));
    attempts = n;
    pauses = n - 1;
  }

  last_failed :
      (i pauses : ℕ)
      → pauses ≡ i
      → try_connect zero (suc (suc i)) pauses (error_of (dial (suc i))) ≡ failed_after (suc i)
  unfolding try_connect failed_after
  last_failed i pauses e =
      let p : suc (suc i) - 1 ≡ suc i = omega arith in
      let q : suc i - 1 ≡ i = omega arith in rw (e, p, q) refl

  try_connect_failed :
      (rounds i : ℕ) (last_err : Option IoError)
      → i + suc rounds ≡ max retries 1
      → ((j : ℕ) → j < max retries 1 → Fails (dial (suc j)))
      → try_connect (suc rounds) (suc i) i last_err ≡ failed_after (max retries 1)
  unfolding try_connect
  try_connect_failed zero i last_err t fails =
      let e : suc i ≡ max retries 1 = omega (arith, t) in
      next_attempt-Fails (suc i) i (dial (suc i)) _ (fails i (omega (arith, t)))
      ∙ last_failed i (pause_after (suc i) i) (pause_after_last i e)
      ∙ ap failed_after e
  try_connect_failed (suc rounds) i last_err t fails =
      next_attempt-Fails (suc i) i (dial (suc i)) _ (fails i (omega (arith, t)))
      ∙ ap (λ x. try_connect (suc rounds) (suc (suc i)) x (error_of (dial (suc i))))
          (pause_after_early i (omega (arith, t)))
      ∙ try_connect_failed rounds (suc i) (error_of (dial (suc i))) (omega (arith, t)) fails

  -- A connection is tried at most as often as configured, and once if that is 0: the first attempt
  -- that finds the backend is the last, with a pause behind each one before, and if all fail the
  -- error is the one of the last.
  pub connect_to_backend_lem :
      ((k : ℕ) (s : S)
        → k < max retries 1
        → ((j : ℕ) → j < k → Fails (dial (suc j)))
        → dial (suc k) ≡ connected s
        → connect_to_backend ≡ record { result = stream s; attempts = suc k; pauses = k })
      × (((j : ℕ) → j < max retries 1 → Fails (dial (suc j)))
          → connect_to_backend ≡ failed_after (max retries 1))
  unfolding connect_to_backend
  connect_to_backend_lem = (
    λ k s b fails found.
        try_connect_found (max retries 1) 0 k s none (omega arith) (omega (arith, b)) (omega arith)
          (λ j m n. fails j n) found,
    λ fails.
        let n = max retries 1 in
        let e : suc (n - 1) ≡ n = omega arith in
        ap (λ x. try_connect x 1 0 none) (sym e)
        ∙ try_connect_failed (n - 1) 0 none (omega (arith, e)) fails,
  )
