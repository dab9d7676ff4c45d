-- ===== src/Common/Checked.antt =====
-- Code that may panic: a failed `expect`, a slice out of range, a failed `assert!`. The model adds
-- `out_of_fuel` for a loop that did not end within its rounds.
use mathlib.Core.Option.{Option, none, some}
use mathlib.Core.Bool.{Bool, true, false}

pub data Checked {ℓ} (A : Type ℓ) : Type ℓ where
  panic : Checked A
  out_of_fuel : Checked A
  done : A → Checked A

abbrev pub and_then {ℓ κ} : {A : Type ℓ} {B : Type κ} → Checked A → (A → Checked B) → Checked B
and_then panic f = panic
and_then out_of_fuel f = out_of_fuel
and_then (done a) f = f a

-- `o.expect(…)`
abbrev pub expect {ℓ} : {A : Type ℓ} → Option A → Checked A
expect none = panic
expect (some a) = done a

-- `assert!(b)`
abbrev pub assert : Bool → Checked (Unit {0})
assert true = done tt
assert false = panic
