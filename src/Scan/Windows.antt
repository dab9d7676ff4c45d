-- ===== src/Scan/Windows.antt =====
-- `Scanner::scan_range` of ganymede-scan/src/lib.rs: the windows of a range.
use ganymede.Common.{
  ℕ, zero, suc, ◌+◌, ◌-◌, ◌≤◌, ◌<◌, ◌≡◌, inl, inr, refl, min, List, Option, none, some, false, not,
  ltb, length, checked_add, word_mod, arith, if_split, Bool-cases, All,
}
use ganymede.Common.Result.{Result, ok, err, try_then, ok_or}
use ganymede.Common.Sort.{is_empty, Any-elim, All-map}
use ganymede.Process.Snapshot.{Range}
use ganymede.Scan.Foreign.{cells, Run}
use ganymede.Scan.Matches.{
  Hit, Member, Occurs→Hit, Hit→Occurs, IsGreedy-Occurs, IsGreedy-Member, Pushed,
  push_offsets-Pushed,
}
use ganymede.Scan.Scanner.{
  Process, Occurs, IsGreedy, Memmem, ScanError, copy_too_small, access, lifting, address_overflow,
  run_then, address_at, copy_bytes, push_offsets, size_of, candidates, scan_round, scan_loop,
  scan_range,
}
use ganymede.Scan.Copies.{NotOpened, NotCopied, IsCopy, copy_bytes-IsCopy}

-- The needle stands at the address, and nowhere from the start on so shortly before it that the two overlap.
abbrev pub Isolated : (ℕ → ℕ) → List ℕ → ℕ → ℕ → Type 0
Isolated memory needle start a =
    Hit memory needle a
    × ((b : ℕ) → start ≤ b → b < a → a < b + length needle → ¬ Hit memory needle b)

module _ (finder : Memmem) (size : Range → Option ℕ) (process : Process) (needle : List ℕ)
    (copy_size : ℕ) (range : Range) where
  -- Every isolated place of the needle that starts before the offset is among the matches.
  abbrev pub Covered : ℕ → List ℕ → Type 0
  Covered upto matches =
      (offset : ℕ)
      → offset < upto
      → offset + length needle ≤ size_of finder size range
      → Isolated process.memory needle range.start_address (range.start_address + offset)
      → Member (range.start_address + offset) matches

  -- The bytes of the window at an offset of the range: as many as a copy takes, or fewer at its end.
  abbrev pub chunk : ℕ → ℕ
  chunk offset = min (size_of finder size range - offset) copy_size

  -- What an error of the range says: a window of it could not be opened, or could not be copied, or the
  -- range ends within one copy of the end of the address space.
  abbrev pub IsScanError : ScanError → Type 0
  IsScanError (copy_too_small a b) = ⊥
  IsScanError (access e) =
      (offset : ℕ) × (offset < size_of finder size range)
      × NotOpened process (range.start_address + offset) e
  IsScanError (lifting e) =
      (offset : ℕ) × (offset < size_of finder size range)
      × NotCopied process (range.start_address + offset) (chunk offset) e
  IsScanError (address_overflow a) =
      (a ≡ range.start_address)
      × (word_mod ≤ range.start_address + size_of finder size range + copy_size)

  module _ (step : ℕ) (P : ℕ → Type 0) where
    abbrev RoundEnds : ℕ → List ℕ → Run ScanError (ℕ × List ℕ) → Type 0
    RoundEnds offset matches none = ⊥
    RoundEnds offset matches (some (err e)) = IsScanError e
    RoundEnds offset matches (some (ok (next, pushed))) =
        (next ≡ offset + step)
        × All P pushed
        × ((a : ℕ) → Member a matches → Member a pushed)
        × Covered next pushed

    abbrev pub Holds : Type 0
    Holds =
        (offset : ℕ)
        → offset + length needle ≤ size_of finder size range
        → Hit process.memory needle (range.start_address + offset)
        → P (range.start_address + offset)

    shift : (offset k : ℕ) → range.start_address + offset + k ≡ range.start_address + (offset + k)
    shift offset k = omega arith

    found :
        (offset : ℕ) (ks : List ℕ)
        → is_empty needle ≡ false
        → offset < size_of finder size range
        → Holds
        → All
            (Occurs (cells process.memory (range.start_address + offset) (chunk offset)) needle)
            ks
        → All (λ k. P (range.start_address + (offset + k))) ks
    found offset ks full below holds occurs =
        All-map _ _ ks
          (λ k h.
            let (fits, hit) =
              Occurs→Hit process.memory needle (range.start_address + offset) (chunk offset) k full
                h in
            holds (offset + k) (omega (arith, fits, below)) (rw (← shift offset k) hit))
          occurs

    -- The needle is not empty, and the step and the needle overlap in one byte of the copy.
    abbrev pub Sized : Type 0
    Sized =
        (is_empty needle ≡ false)
        × (0 < length needle)
        × (0 < step)
        × (step + length needle ≡ suc copy_size)

    next_Covered :
        (offset : ℕ) (ks matches pushed : List ℕ)
        → Sized
        → offset < size_of finder size range
        → IsGreedy (cells process.memory (range.start_address + offset) (chunk offset)) needle 0 ks
        → ((a : ℕ) → Member a matches → Member a pushed)
        → ((k : ℕ)
            → Member k ks
            → k
              < candidates finder size process needle copy_size step
                  (size_of finder size range - offset)
            → Member (range.start_address + (offset + k)) pushed)
        → Covered offset matches
        → Covered (offset + step) pushed
    next_Covered offset ks matches pushed (full, some_byte, ahead, split) below greedy kept found
          covered at low fits (hit, alone) =
        elim (Bool-cases (ltb at offset)) [
          | inl earlier ↦ kept _ (covered at (ground (arith, earlier)) fits (hit, alone))
          | inr here ↦
              let back : offset + (at - offset) ≡ at = ground (arith, here) in
              let inside : at - offset + length needle ≤ chunk offset =
                ground (arith, here, low, split, fits, ahead) in
              let candidate = in_span (at - offset) (ground (arith, here, low)) inside in
              let occurs =
                Hit→Occurs process.memory needle (range.start_address + offset) (chunk offset)
                  (at - offset) inside (rw (shift offset (at - offset), back) hit) in
              let member =
                IsGreedy-Member _ needle 0 ks (at - offset) greedy (omega arith) occurs
                  λ j before near other.
                    let (_, there) =
                      Occurs→Hit process.memory needle (range.start_address + offset) (chunk offset)
                        j full other in
                    alone (range.start_address + offset + j) (omega arith)
                      (ground (arith, here, before)) (ground (arith, here, near)) there in
              rw (← back) (found (at - offset) member candidate)
        ]
      where
        in_span :
            (k : ℕ)
            → k < step
            → k + length needle ≤ chunk offset
            → k
              < candidates finder size process needle copy_size step
                  (size_of finder size range - offset)
        in_span k near inside =
            elim (Bool-cases (ltb copy_size (size_of finder size range - offset))) [
              | inl long ↦ rw long near
              | inr short ↦ rw short (omega (arith, inside, some_byte))
            ]

    after_copy :
        (offset : ℕ) (matches : List ℕ) (o : Run ScanError (List ℕ))
        → Sized
        → Holds
        → offset < size_of finder size range
        → All P matches
        → Covered offset matches
        → IsCopy process (range.start_address + offset) (chunk offset) o
        → RoundEnds offset matches (
            run_then o λ buffer.
              run_then
                (some (
                  push_offsets range.start_address offset
                    (candidates finder size process needle copy_size step
                      (size_of finder size range - offset))
                    (finder.find_iter buffer needle)
                    matches))
                λ pushed. some (
                  try_then
                    (ok_or (checked_add offset step) (address_overflow range.start_address))
                    λ next. ok (next, pushed)))
    unfolding IsCopy
    after_copy offset matches none sized holds below all covered copy = copy
    after_copy offset matches (some (err (access e))) sized holds below all covered copy =
        (offset, below, copy)
    after_copy offset matches (some (err (lifting e))) sized holds below all covered copy =
        (offset, below, copy)
    after_copy offset matches (some (err (copy_too_small a b))) sized holds below all covered copy =
        copy
    after_copy offset matches (some (err (address_overflow a))) sized holds below all covered copy =
        absurd copy
    after_copy offset matches (some (ok buffer)) sized holds below all covered copy =
        pushing _ result
      where
        span : ℕ
        span =
            candidates finder size process needle copy_size step
              (size_of finder size range - offset)

        ks : List ℕ
        ks = finder.find_iter buffer needle

        greedy :
            IsGreedy
              (cells process.memory (range.start_address + offset) (chunk offset))
              needle
              0
              ks
        greedy = rw (← copy) (finder.greedy buffer needle sized.0)

        result :
            Pushed P range.start_address offset span ks matches
              (push_offsets range.start_address offset span ks matches)
        result =
            push_offsets-Pushed P range.start_address offset span
              (cells process.memory (range.start_address + offset) (chunk offset)) needle 0 ks
              matches greedy all
              (found offset ks sized.0 below holds (IsGreedy-Occurs _ needle 0 ks greedy))

        in_range : (k : ℕ) → Member k ks → offset + k ≤ size_of finder size range
        in_range k h =
            Any-elim _ (offset + k ≤ size_of finder size range) ks
              (All-map _ _ ks
                (λ j occurs same.
                  let (fits, _) =
                    Occurs→Hit process.memory needle (range.start_address + offset) (chunk offset) j
                      sized.0 occurs in
                  omega (arith, fits, same, below))
                (IsGreedy-Occurs _ needle 0 ks greedy))
              h

        pushing :
            (o : Result ScanError (List ℕ))
            → Pushed P range.start_address offset span ks matches o
            → RoundEnds offset matches (
                run_then (some o) λ pushed. some (
                  try_then
                    (ok_or (checked_add offset step) (address_overflow range.start_address))
                    λ next. ok (next, pushed)))
        pushing (err e) (same, k, h, over) = rw same (refl, omega (arith, over, in_range k h))
        pushing (ok pushed) (sound, kept, found_all) =
            elim (Bool-cases (ltb (offset + step) word_mod)) [
              | inl fits ↦ rw fits (
                refl,
                sound,
                kept,
                next_Covered offset ks matches pushed sized below greedy kept found_all covered,
              )
              | inr past ↦ rw past (refl, ground (arith, past, below, sized.3, sized.1))
            ]

    round-RoundEnds :
        (offset : ℕ) (matches : List ℕ)
        → Sized
        → Holds
        → copy_size < word_mod
        → offset < size_of finder size range
        → All P matches
        → Covered offset matches
        → RoundEnds offset matches
            (scan_round finder size process needle copy_size step range offset matches)
    unfolding scan_round address_at
    round-RoundEnds offset matches sized holds word below all covered =
        elim (Bool-cases (ltb (range.start_address + offset) word_mod)) [
          | inl fits ↦ rw fits (
              after_copy offset matches
                (copy_bytes process (range.start_address + offset) (chunk offset)) sized holds below
                all covered
                (copy_bytes-IsCopy process (range.start_address + offset) (chunk offset)
                  (omega (arith, word))))
          | inr past ↦ rw past (refl, ground (arith, past, below))
        ]

    abbrev pub RangeEnds : List ℕ → Run ScanError (List ℕ) → Type 0
    RangeEnds matches none = ⊥
    RangeEnds matches (some (err e)) = IsScanError e
    RangeEnds matches (some (ok pushed)) =
        All P pushed
        × ((a : ℕ) → Member a matches → Member a pushed)
        × Covered (size_of finder size range) pushed

    loop-RangeEnds :
        (fuel offset : ℕ) (matches : List ℕ)
        → Sized
        → Holds
        → copy_size < word_mod
        → size_of finder size range - offset < fuel
        → All P matches
        → Covered offset matches
        → RangeEnds matches
            (scan_loop finder size process needle copy_size step range fuel offset matches)
    unfolding scan_loop
    loop-RangeEnds zero offset matches sized holds word enough all covered =
        absurd (omega (arith, enough))
    loop-RangeEnds (suc fuel) offset matches sized holds word enough all covered =
        if_split (RangeEnds matches) (not (ltb offset (size_of finder size range)))
          (λ over. (
            all,
            (λ a h. h),
            λ at low fits alone. covered at (ground (arith, over, low)) fits alone,
          ))
          λ inside.
            let below : offset < size_of finder size range = ground (arith, inside) in
            after (scan_round finder size process needle copy_size step range offset matches)
              (round-RoundEnds offset matches sized holds word below all covered)
              λ next pushed e each step_covered.
                loop-RangeEnds fuel next pushed sized holds word
                  (omega (arith, enough, e, below, sized.2)) each step_covered
      where
        after :
            (o : Run ScanError (ℕ × List ℕ))
            → RoundEnds offset matches o
            → ((next : ℕ) (pushed : List ℕ)
                → next ≡ offset + step
                → All P pushed
                → Covered next pushed
                → RangeEnds pushed
                    (scan_loop finder size process needle copy_size step range fuel next pushed))
            → RangeEnds matches (
                run_then o λ (next, pushed).
                  scan_loop finder size process needle copy_size step range fuel next pushed)
        after none h onward = h
        after (some (err e)) h onward = h
        after (some (ok (next, pushed))) (e, each, kept, step_covered) onward =
            widen (scan_loop finder size process needle copy_size step range fuel next pushed)
              (onward next pushed e each step_covered)
          where
            widen : (o : Run ScanError (List ℕ)) → RangeEnds pushed o → RangeEnds matches o
            widen none h = h
            widen (some (err x)) h = h
            widen (some (ok final)) (a, b, c) = (a, (λ x h. b x (kept x h)), c)

    pub scan_range-RangeEnds :
        (matches : List ℕ)
        → Sized
        → Holds
        → copy_size < word_mod
        → All P matches
        → RangeEnds matches (scan_range finder size process needle copy_size step range matches)
    unfolding scan_range
    scan_range-RangeEnds matches sized holds word all =
        loop-RangeEnds (suc (size_of finder size range)) 0 matches sized holds word (omega arith)
          all λ at low fits alone. absurd (omega (arith, low))
