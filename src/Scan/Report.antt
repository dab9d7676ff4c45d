-- ===== src/Scan/Report.antt =====
-- `Scanner::bytes` of ganymede-scan/src/lib.rs: the ranges in turn, then the sorted addresses.
use ganymede.Common.{
  ℕ, ◌+◌, ◌-◌, ◌≤◌, ◌<◌, ◌≡◌, inl, inr, refl, sym, ◌∙◌, List, [], ◌∷◌, Option, none, some, false,
  not, leb, ◌==◌, length, word_mod, arith, if_split, All, leb→le,
}
use ganymede.Common.Result.{ok, err}
use ganymede.Common.Sort.{
  is_empty, sort, Any, sort-Any, All-map, Pairwise, sort-Neighbours, Neighbours→Pairwise, sort-All,
}
use ganymede.Process.Snapshot.{Range}
use ganymede.Scan.Foreign.{Run}
use ganymede.Scan.Matches.{Hit, Member}
use ganymede.Scan.Windows.{Covered, IsScanError, Holds, Sized, RangeEnds, scan_range-RangeEnds}
use ganymede.Scan.Scanner.{
  Process, Memmem, ScanError, copy_too_small, access, lifting, address_overflow, run_then, size_of,
  scan_range, scan_ranges, dedup, bytes,
}

dedup-All : (P : ℕ → Type 0) (xs : List ℕ) → All P xs → All P (dedup xs)
dedup-All P [] h = tt
dedup-All P (x ∷ []) h = h
dedup-All P (x ∷ y ∷ xs) (p, h) =
    let rest = dedup-All P (y ∷ xs) h in if_split (All P) (x == y) (λ _. rest) λ _. (p, rest)

dedup-Pairwise : (xs : List ℕ) → Pairwise (λ x y. x ≤ y) xs → Pairwise (λ x y. x < y) (dedup xs)
dedup-Pairwise [] h = tt
dedup-Pairwise (x ∷ []) h = (tt, tt)
dedup-Pairwise (x ∷ y ∷ xs) ((low, _), (all, h)) =
    let rest = dedup-Pairwise (y ∷ xs) (all, h) in
    if_split (Pairwise λ x y. x < y) (x == y) (λ _. rest)
      λ differ.
        let above : x < y = ground (arith, low, differ) in
        (
          dedup-All (λ z. x < z) (y ∷ xs)
              (above, All-map _ _ xs (λ z later. omega (arith, above, later)) all),
          rest,
        )

dedup-Member : (a : ℕ) (xs : List ℕ) → Member a xs → Member a (dedup xs)
dedup-Member a [] h = h
dedup-Member a (x ∷ []) h = h
dedup-Member a (x ∷ y ∷ xs) h =
    if_split (Member a) (x == y)
      (λ same. dedup-Member a (y ∷ xs) (dropped (ground (arith, same)) h))
      λ differ. kept h (λ k. dedup-Member a (y ∷ xs) k)
  where
    dropped : x ≡ y → Member a (x ∷ y ∷ xs) → Member a (y ∷ xs)
    dropped same (inl e) = inl (sym same ∙ e)
    dropped same (inr k) = k

    kept :
        Member a (x ∷ y ∷ xs)
        → (Member a (y ∷ xs) → Member a (dedup (y ∷ xs)))
        → Member a (x ∷ dedup (y ∷ xs))
    kept (inl e) again = inl e
    kept (inr k) again = inr (again k)

sorted_up : (xs : List ℕ) → Pairwise (λ x y. x ≤ y) (sort leb xs)
sorted_up xs =
    Neighbours→Pairwise (λ _. Unit {0}) (λ x y. x ≤ y) (sort leb xs)
      (λ x y z _ a b. omega (arith, a, b)) (trivial (sort leb xs))
      (sort-Neighbours leb (λ x y. x ≤ y) xs (λ a b e. leb→le a b e) λ a b e. ground (arith, e))
  where
    trivial : (ys : List ℕ) → All (λ _. Unit {0}) ys
    trivial [] = tt
    trivial (y ∷ ys) = (tt, trivial ys)

module _ (finder : Memmem) (size : Range → Option ℕ) (process : Process) (needle : List ℕ)
    (copy_size : ℕ) where
  -- Every isolated place of the needle in the range is among the matches.
  abbrev pub Complete : List ℕ → Range → Type 0
  Complete matches range =
      Covered finder size process needle copy_size range (size_of finder size range) matches

  -- The needle stands at the address, within the range.
  abbrev pub IsMatch : ℕ → Range → Type 0
  IsMatch a range =
      (offset : ℕ) × (a ≡ range.start_address + offset)
      × (offset + length needle ≤ size_of finder size range)
      × Hit process.memory needle a

  abbrev pub Blamed : ScanError → Range → Type 0
  Blamed e range = IsScanError finder size process needle copy_size range e

  module _ (step : ℕ) (P : ℕ → Type 0) where
    abbrev RangesEnd : List Range → List ℕ → Run ScanError (List ℕ) → Type 0
    RangesEnd ranges matches none = ⊥
    RangesEnd ranges matches (some (err e)) = Any (Blamed e) ranges
    RangesEnd ranges matches (some (ok pushed)) =
        All P pushed × ((a : ℕ) → Member a matches → Member a pushed) × All (Complete pushed) ranges

    scan_ranges-RangesEnd :
        (ranges : List Range) (matches : List ℕ)
        → ((range : Range) → Sized finder size process needle copy_size range step P)
        → All (λ range. Holds finder size process needle copy_size range step P) ranges
        → copy_size < word_mod
        → All P matches
        → RangesEnd ranges matches
            (scan_ranges finder size process needle copy_size step ranges matches)
    unfolding scan_ranges
    scan_ranges-RangesEnd [] matches sized holds word all = (all, (λ a h. h), tt)
    scan_ranges-RangesEnd (range ∷ ranges) matches sized (here, holds) word all =
        after (scan_range finder size process needle copy_size step range matches)
          (scan_range-RangeEnds finder size process needle copy_size range step P matches
            (sized range) here word all)
          λ pushed each. scan_ranges-RangesEnd ranges pushed sized holds word each
      where
        after :
            (o : Run ScanError (List ℕ))
            → RangeEnds finder size process needle copy_size range step P matches o
            → ((pushed : List ℕ)
                → All P pushed
                → RangesEnd ranges pushed
                    (scan_ranges finder size process needle copy_size step ranges pushed))
            → RangesEnd (range ∷ ranges) matches (
                run_then o
                  λ pushed. scan_ranges finder size process needle copy_size step ranges pushed)
        after none h onward = h
        after (some (err e)) h onward = inl h
        after (some (ok pushed)) (each, kept, covered) onward =
            widen (scan_ranges finder size process needle copy_size step ranges pushed)
              (onward pushed each)
          where
            widen :
                (o : Run ScanError (List ℕ))
                → RangesEnd ranges pushed o
                → RangesEnd (range ∷ ranges) matches o
            widen none h = h
            widen (some (err e)) h = inr h
            widen (some (ok final)) (a, b, c) = (
              a,
              (λ x h. b x (kept x h)),
              ((λ at low fits alone. b _ (covered at low fits alone)), c),
            )

  -- What the scan of ranges for a nonempty needle returns.
  abbrev pub Reported : List Range → Run ScanError (List ℕ) → Type 0
  Reported ranges none = ⊥
  Reported ranges (some (ok addresses)) =
      (length needle ≤ copy_size)
      × Pairwise (λ a b. a < b) addresses
      × All (λ a. Any (IsMatch a) ranges) addresses
      × All (Complete addresses) ranges
  Reported ranges (some (err (copy_too_small c n))) =
      (c ≡ copy_size) × (n ≡ length needle) × (copy_size < length needle)
  Reported ranges (some (err (access e))) = Any (Blamed (access e)) ranges
  Reported ranges (some (err (lifting e))) = Any (Blamed (lifting e)) ranges
  Reported ranges (some (err (address_overflow a))) = Any (Blamed (address_overflow a)) ranges

  blame_none : (c n : ℕ) (ranges : List Range) → Any (Blamed (copy_too_small c n)) ranges → ⊥
  blame_none c n [] h = h
  blame_none c n (range ∷ ranges) (inl h) = h
  blame_none c n (range ∷ ranges) (inr h) = blame_none c n ranges h

  matching :
      (ranges others : List Range)
      → ((a : ℕ) → Any (IsMatch a) ranges → Any (IsMatch a) others)
      → All
          (λ range.
            (at : ℕ)
            → at + length needle ≤ size_of finder size range
            → Hit process.memory needle (range.start_address + at)
            → Any (IsMatch (range.start_address + at)) others)
          ranges
  matching [] others f = tt
  matching (range ∷ ranges) others f =
      ((λ at fits hit. f _ (inl (at, refl, fits, hit))), matching ranges others λ a h. f a (inr h))

  nonempty_length : (xs : List ℕ) → is_empty xs ≡ false → 0 < length xs
  nonempty_length [] e = cc
  nonempty_length (x ∷ xs) e = omega arith

  reported :
      (step : ℕ) (ranges : List Range) (o : Run ScanError (List ℕ))
      → length needle ≤ copy_size
      → RangesEnd step (λ a. Any (IsMatch a) ranges) ranges [] o
      → Reported ranges (run_then o λ matches. some (ok (dedup (sort leb matches))))
  reported step ranges none fits h = h
  reported step ranges (some (err (copy_too_small c n))) fits h = absurd (blame_none c n ranges h)
  reported step ranges (some (err (access e))) fits h = h
  reported step ranges (some (err (lifting e))) fits h = h
  reported step ranges (some (err (address_overflow a))) fits h = h
  reported step ranges (some (ok matches)) fits (all, kept, covered) = (
    fits,
    dedup-Pairwise (sort leb matches) (sorted_up matches),
    dedup-All _ (sort leb matches) (sort-All leb _ matches all),
    All-map _ _ ranges
        (λ range h at low inside alone.
          dedup-Member _ (sort leb matches) (sort-Any leb _ matches (h at low inside alone)))
        covered,
  )

  -- A scan for a nonempty needle ends. Either the addresses it reports ascend, the needle stands at each
  -- of them within one of the ranges, and each place of the needle within a range is reported unless
  -- another one of that memory overlaps it from before; or it fails: the copy is smaller than the
  -- needle; or, at an offset within one of the ranges, the process did not open at that address, with the
  -- error reported, or opened there and the copy of that window failed with the error reported; or one of
  -- the ranges ends within one copy of the end of the address space.
  pub bytes-Reported :
      (ranges : List Range)
      → is_empty needle ≡ false
      → copy_size < word_mod
      → Reported ranges (bytes finder size process copy_size ranges needle)
  unfolding bytes
  bytes-Reported ranges full word = rw full (
      if_split (Reported ranges) (not (leb (length needle) copy_size))
        (λ small. (refl, refl, ground (arith, small)))
        λ large.
          let fits : length needle ≤ copy_size = ground (arith, large) in
          let some_byte = nonempty_length needle full in
          reported (copy_size - (length needle - 1)) ranges _ fits (
            scan_ranges-RangesEnd (copy_size - (length needle - 1)) (λ a. Any (IsMatch a) ranges)
              ranges []
              (λ range.
                (full, some_byte, omega (arith, fits, some_byte), omega (arith, fits, some_byte)))
              (matching ranges ranges λ a h. h) word tt))
