-- ===== src/Linker/Tests.antt =====
-- A run of retries for ganymede-linker-gnu/src/reader/retry.rs.
use ganymede.Common.{ℕ, ◌+◌, ◌≡◌, refl, ltb, if◌then◌else◌, arith}
use ganymede.Common.Result.{Result, ok, err}
use ganymede.Common.Checked.{done}
use ganymede.Linker.Retry.{AttemptError, busy, retry_loop, run, Decided, run-Decided, busy_error}

-- The attempts are busy until the third.
abbrev attempt : ℕ → Result (AttemptError ℕ ℕ ℕ ℕ ℕ) ℕ × ℕ
attempt k = if ltb k 2 then (err (busy k), k + 1) else (ok k, k + 1)

test-run : run ℕ ℕ ℕ ℕ ℕ attempt 5 0 ≡ (done (ok 2), 3)
unfolding run retry_loop
test-run = refl

test-spent : run ℕ ℕ ℕ ℕ ℕ attempt 2 0 ≡ (done (err (busy_error 2 1)), 2)
unfolding run retry_loop
test-spent = refl

run-Decided_example : Decided ℕ ℕ ℕ ℕ ℕ attempt 5 5 0 (run ℕ ℕ ℕ ℕ ℕ attempt 5 0)
run-Decided_example = run-Decided ℕ ℕ ℕ ℕ ℕ attempt 5 0 (omega arith)
