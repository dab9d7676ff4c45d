-- ===== src/Linker/Retry.antt =====
-- ganymede-linker-gnu/src/reader/retry.rs: `Retry::run`. The attempt is a closure with a state of its own,
-- so it is the argument `attempt`, from that state to its result and the next state. The reasons and the
-- fatal error are types of the reader, `Busy`, `Inconsistent` and `Fatal`.
use ganymede.Common.{ℕ, zero, suc, ◌<◌, ◌≡◌, refl, ap, Option, none, some, arith}
use mathlib.Core.Path.{subst}
use ganymede.Common.Result.{Result, ok, err}
use ganymede.Common.Checked.{Checked, done, expect, and_then}

module _ (Snapshot Fatal Busy Inconsistent State : Type 0) where
  pub data AttemptError : Type 0 where
    fatal : Fatal → AttemptError
    busy : Busy → AttemptError
    inconsistent : Inconsistent → AttemptError

  pub data Outcome : Type 0 where
    was_busy : Busy → Outcome
    was_inconsistent : Inconsistent → Outcome

  -- The variants of `SnapshotError` that the retries make, and the others.
  pub data SnapshotError : Type 0 where
    other_error : Fatal → SnapshotError
    busy_error : ℕ → Busy → SnapshotError
    inconsistent_error : ℕ → Inconsistent → SnapshotError

  -- `Outcome::error`
  abbrev pub error : Outcome → ℕ → SnapshotError
  error (was_busy reason) attempts = busy_error attempts reason
  error (was_inconsistent reason) attempts = inconsistent_error attempts reason

  module _ (attempt : State → Result AttemptError Snapshot × State) where
    abbrev pub Ended : Type 0
    Ended = Checked (Result SnapshotError Snapshot) × State

    -- After the loop: `last.expect(…)`.
    abbrev pub exhausted : ℕ → Option Outcome → Checked (Result SnapshotError Snapshot)
    exhausted attempts last = and_then (expect last) λ outcome. done (err (error outcome attempts))

    -- The loop of `Retry::run`: the attempts that are left, and the last outcome.
    unfoldable pub retry_loop : ℕ → ℕ → Option Outcome → State → Ended
    retry_loop attempts zero last s = (exhausted attempts last, s)
    retry_loop attempts (suc left) last s =
        let tried = attempt s in
        elim (tried.0) [
          | ok snapshot ↦ (done (ok snapshot), tried.1)
          | err (fatal e) ↦ (done (err (other_error e)), tried.1)
          | err (busy reason) ↦ retry_loop attempts left (some (was_busy reason)) tried.1
          | err (inconsistent reason) ↦
              retry_loop attempts left (some (was_inconsistent reason)) tried.1
        ]

    -- `Retry::run`
    unfoldable pub run : ℕ → State → Ended
    run attempts s = retry_loop attempts attempts none s

    -- The state before the attempt of that number, counted from zero.
    abbrev pub state_at : ℕ → State → State
    state_at zero s = s
    state_at (suc k) s = state_at k (attempt s).1

    abbrev pub tried_at : ℕ → State → Result AttemptError Snapshot
    tried_at k s = (attempt (state_at k s)).0

    -- The attempt of that number failed in a way that may pass.
    abbrev pub Retryable : Result AttemptError Snapshot → Type 0
    Retryable (ok snapshot) = ⊥
    Retryable (err (fatal e)) = ⊥
    Retryable (err (busy reason)) = Unit
    Retryable (err (inconsistent reason)) = Unit

    -- What the attempt of that number says once no other follows.
    abbrev pub Final :
        ℕ → Result AttemptError Snapshot → Checked (Result SnapshotError Snapshot) → Type 0
    Final attempts (ok snapshot) result = result ≡ done (ok snapshot)
    Final attempts (err (fatal e)) result = result ≡ done (err (other_error e))
    Final attempts (err (busy reason)) result = result ≡ done (err (busy_error attempts reason))
    Final attempts (err (inconsistent reason)) result =
        result ≡ done (err (inconsistent_error attempts reason))

    -- The attempts before that number may pass, it is the last one or does not pass, and it decides.
    abbrev pub Decided : ℕ → ℕ → State → Ended → Type 0
    Decided attempts left s ended =
        (k : ℕ) × (k < left)
        × ((j : ℕ) → j < k → Retryable (tried_at j s))
        × (Retryable (tried_at k s) → suc k ≡ left)
        × (ended.1 ≡ state_at (suc k) s)
        × Final attempts (tried_at k s) ended.0

    later :
        (attempts left : ℕ) (s : State) (ended : Ended)
        → Retryable (attempt s).0
        → Decided attempts left (attempt s).1 ended
        → Decided attempts (suc left) s ended
    later attempts left s ended here (k, low, before, last, state, final) =
        (suc k, omega (arith, low), earlier, (λ r. omega (arith, last r)), state, final)
      where
        earlier : (j : ℕ) → j < suc k → Retryable (tried_at j s)
        earlier zero h = here
        earlier (suc j) h = before j (omega (arith, h))

    decided_at_once :
        (attempts left : ℕ) (s : State) (ended : Ended)
        → (Retryable (attempt s).0 → left ≡ 0)
        → ended.1 ≡ (attempt s).1
        → Final attempts (attempt s).0 ended.0
        → Decided attempts (suc left) s ended
    decided_at_once attempts left s ended last state final = (
      0,
      omega arith,
      (λ j h. absurd (omega (arith, h))),
      (λ r. omega (arith, last r)),
      state,
      final,
    )

    loop-Decided :
        (attempts left : ℕ) (last : Option Outcome) (s : State)
        → Decided attempts (suc left) s (retry_loop attempts (suc left) last s)
    unfolding retry_loop
    loop-Decided attempts zero last s = only (attempt s) refl
      where
        only :
            (tried : Result AttemptError Snapshot × State)
            → attempt s ≡ tried
            → Decided attempts 1 s (elim (tried.0) [
              | ok snapshot ↦ (done (ok snapshot), tried.1)
              | err (fatal e) ↦ (done (err (other_error e)), tried.1)
              | err (busy reason) ↦ retry_loop attempts 0 (some (was_busy reason)) tried.1
              | err (inconsistent reason) ↦
                  retry_loop attempts 0 (some (was_inconsistent reason)) tried.1
            ])
        only (ok snapshot, next) e =
            decided_at_once attempts 0 s _ (λ _. refl) (rw e refl) (rw e refl)
        only (err (fatal x), next) e =
            decided_at_once attempts 0 s _ (λ _. refl) (rw e refl) (rw e refl)
        only (err (busy r), next) e =
            decided_at_once attempts 0 s _ (λ _. refl) (rw e refl) (rw e refl)
        only (err (inconsistent r), next) e =
            decided_at_once attempts 0 s _ (λ _. refl) (rw e refl) (rw e refl)
    loop-Decided attempts (suc left) last s =
        first (attempt s) refl λ kept. loop-Decided attempts left kept (attempt s).1
      where
        first :
            (tried : Result AttemptError Snapshot × State)
            → attempt s ≡ tried
            → ((kept : Option Outcome)
                → Decided attempts
                    (suc left)
                    (attempt s).1
                    (retry_loop attempts (suc left) kept (attempt s).1))
            → Decided attempts (suc (suc left)) s (elim (tried.0) [
              | ok snapshot ↦ (done (ok snapshot), tried.1)
              | err (fatal e) ↦ (done (err (other_error e)), tried.1)
              | err (busy reason) ↦ retry_loop attempts (suc left) (some (was_busy reason)) tried.1
              | err (inconsistent reason) ↦
                  retry_loop attempts (suc left) (some (was_inconsistent reason)) tried.1
            ])
        first (ok snapshot, next) e onward =
            decided_at_once attempts (suc left) s _ (λ r. absurd (retryable e r)) (rw e refl)
              (rw e refl)
          where
            retryable : attempt s ≡ (ok snapshot, next) → Retryable (attempt s).0 → ⊥
            retryable e r = subst (λ (t : Result AttemptError Snapshot × State). Retryable t.0) e r
        first (err (fatal x), next) e onward =
            decided_at_once attempts (suc left) s _ (λ r. absurd (retryable e r)) (rw e refl)
              (rw e refl)
          where
            retryable : attempt s ≡ (err (fatal x), next) → Retryable (attempt s).0 → ⊥
            retryable e r = subst (λ (t : Result AttemptError Snapshot × State). Retryable t.0) e r
        first (err (busy r), next) e onward =
            let state : (attempt s).1 ≡ next = ap (λ t. t.1) e in
            rw (← state) (later attempts (suc left) s _ (rw e tt) (onward (some (was_busy r))))
        first (err (inconsistent r), next) e onward =
            let state : (attempt s).1 ≡ next = ap (λ t. t.1) e in
            rw (← state)
              (later attempts (suc left) s _ (rw e tt) (onward (some (was_inconsistent r))))

    -- A run with a nonzero budget makes attempts one after the other while each fails in a way that may
    -- pass and budget is left, and no more. It returns what the last attempt made says: its snapshot, its
    -- fatal error, or where the budget is spent its reason with the budget. It never panics.
    pub run-Decided :
        (attempts : ℕ) (s : State) → 0 < attempts → Decided attempts attempts s (run attempts s)
    unfolding run
    run-Decided zero s some_budget = absurd (omega (arith, some_budget))
    run-Decided (suc attempts) s some_budget = loop-Decided (suc attempts) attempts none s
