-- ===== src/Scan/Foreign.antt =====
-- ganymede-scan/src/lib.rs: `Assemble for Bytes` and `Assemble for CBytes`. The foreign handle is
-- catalejo's: its `sparse` and the manager's `refresh` are the field `refresh`, from a byte offset to
-- the bytes that are left there. The capacity of a vector is not modelled.
use ganymede.Common.{
  ℕ, zero, suc, ◌+◌, ◌-◌, ◌≤◌, ◌<◌, ◌≡◌, min, List, [], ◌∷◌, ◌++◌, Option, none, some, leb, ◌==◌,
  if◌then◌else◌, length, take, checked_add,
}
use mathlib.Core.Option
use ganymede.Common.Result.{Result, ok, err, try_then, ok_or}

pub data ByteCopyStatus : Type 0 where
  complete faulted : ByteCopyStatus

-- What one protected copy appended, and how it ended.
pub record Copy : Type 0 where
  pub bytes : List ℕ
  pub status : ByteCopyStatus

pub record Foreign : Type 0 where
  pub refresh : ℕ → Option ℕ
  pub append : ℕ → ℕ → Option Copy

-- The `n` bytes from `k` on.
abbrev pub cells : (ℕ → ℕ) → ℕ → ℕ → List ℕ
cells memory k zero = []
cells memory k (suc n) = memory k ∷ cells memory (suc k) n

-- What the code relies on: a handle leaves at least one byte, a complete copy appends all the bytes
-- that were asked for, and one that faulted appends the bytes before the fault.
pub record Faithful (f : Foreign) (memory : ℕ → ℕ) : Type 0 where
  pub leftover : (k n : ℕ) → f.refresh k ≡ some n → 0 < n
  pub whole :
      (k n : ℕ) (bytes : List ℕ)
      → f.append k n ≡ some (record { bytes = bytes; status = complete })
      → bytes ≡ cells memory k n
  pub prefix :
      (k n : ℕ) (bytes : List ℕ)
      → f.append k n ≡ some (record { bytes = bytes; status = faulted })
      → (c : ℕ) × (c ≤ n) × (bytes ≡ cells memory k c)

pub data ByteLiftError : Type 0 where
  unavailable fault missing_terminator : ByteLiftError

-- A loop on fuel: `none` where the fuel is spent.
abbrev pub Run {ℓ κ} : Type ℓ → Type κ → Type (ℓ ⊔ κ)
Run E A = Option (Result E A)

-- The copy of one round: from the offset, at most to the bound and to the end of the handle.
unfoldable pub copy_at : Foreign → ℕ → ℕ → Result ByteLiftError Copy
copy_at f bound offset =
    try_then (ok_or (f.refresh offset) unavailable)
      λ leftover. ok_or (f.append offset (min (bound - offset) leftover)) unavailable

-- What a loop goes on with, or what it returns.
pub data Progress : Type 0 where
  more : ℕ → List ℕ → Progress
  done : List ℕ → Progress

abbrev pub advance {ℓ} : {E : Type ℓ} → E → ℕ → List ℕ → List ℕ → Result E Progress
advance overflow offset bytes copied =
    try_then (ok_or (checked_add offset (length copied)) overflow)
      λ next. ok (more next (bytes ++ copied))

abbrev pub bytes_next : ℕ → List ℕ → List ℕ → ByteCopyStatus → Result ByteLiftError Progress
bytes_next offset bytes copied complete = advance unavailable offset bytes copied
bytes_next offset bytes copied faulted = err fault

-- One round of the loop of `Bytes`, where `count` bytes are wanted.
unfoldable pub bytes_round : Foreign → ℕ → ℕ → List ℕ → Result ByteLiftError Progress
bytes_round f count offset bytes =
    if leb count offset
    then ok (done bytes)
    else try_then (copy_at f count offset) λ copy. bytes_next offset bytes copy.bytes copy.status

-- `Iterator::position` of the first zero.
abbrev pub terminator : List ℕ → Option ℕ
terminator [] = none
terminator (byte ∷ bytes) = if byte == 0 then some 0 else Option.map suc (terminator bytes)

abbrev pub c_next : ℕ → List ℕ → List ℕ → Option ℕ → ByteCopyStatus → Result ByteLiftError Progress
c_next offset bytes copied (some k) status =
    ok (done (take (length bytes + k + 1) (bytes ++ copied)))
c_next offset bytes copied none complete = advance unavailable offset bytes copied
c_next offset bytes copied none faulted = err fault

-- One round of the loop of `CBytes`; the bytes are those with the terminator.
unfoldable pub c_round : Foreign → ℕ → ℕ → List ℕ → Result ByteLiftError Progress
c_round f limit offset bytes =
    if leb limit offset
    then err missing_terminator
    else try_then (copy_at f limit offset)
        λ copy. c_next offset bytes copy.bytes (terminator copy.bytes) copy.status

-- `loop`, by its round.
unfoldable pub loop {ℓ} :
    {E : Type ℓ} → (ℕ → List ℕ → Result E Progress) → ℕ → ℕ → List ℕ → Run E (List ℕ)
loop round zero offset bytes = none
loop round (suc fuel) offset bytes = elim (round offset bytes) [
  | err e ↦ some (err e)
  | ok (done all) ↦ some (ok all)
  | ok (more next rest) ↦ loop round fuel next rest
]

-- `Bytes::assemble_with`
unfoldable pub assemble_bytes : Foreign → ℕ → Run ByteLiftError (List ℕ)
assemble_bytes f count = loop (bytes_round f count) (suc count) 0 []

-- `CBytes::assemble_with`
unfoldable pub assemble_c_bytes : Foreign → ℕ → Run ByteLiftError (List ℕ)
assemble_c_bytes f limit = loop (c_round f limit) (suc limit) 0 []
