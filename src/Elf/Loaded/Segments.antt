-- ===== src/Elf/Loaded/Segments.antt =====
-- `LoadedImage::executables` of ganymede-elf/src/loaded.rs.
use ganymede.Common.{
  ℕ, suc, ◌+◌, ◌^◌, ◌≤◌, ◌<◌, ◌≡◌, ◌≢◌, ◌⊎◌, inl, inr, refl, ap, List, [], ◌∷◌, ◌++◌, Option, none,
  some, true, not, ◌||◌, ltb, ◌==◌, length, bit_and, arith, if_split, Bool-cases,
}
use mathlib.Core.Option
use ganymede.Common.Result.{Result, ok, err, try_then, ok_or}
use ganymede.Process.Snapshot.{Range}
use ganymede.Elf.{ElfClass, bits, Binding, range}
use ganymede.Elf.Loaded.{
  ProgramHeader, LoadedImageError, file_exceeds_memory, address_overflow, executable, push,
  executables,
}

module _ (binding : Binding) (c : ElfClass) (load_bias : ℕ) where
  -- A load segment with bytes in the file that are mapped executable.
  abbrev pub IsExecutable : ProgramHeader → Type 0
  IsExecutable h =
      (h.kind ≡ binding.pt_load)
      × (h.file ≤ h.memory)
      × (bit_and h.flags binding.pf_x ≢ 0)
      × (0 < h.file)

  -- Not a load segment; or one whose file extent does not exceed its memory extent, and that is not
  -- executable or has no bytes in the file.
  abbrev pub IsSkipped : ProgramHeader → Type 0
  IsSkipped h =
      (h.kind ≢ binding.pt_load)
      ⊎ ((h.file ≤ h.memory) × ((bit_and h.flags binding.pf_x ≡ 0) ⊎ (h.file ≡ 0)))

  -- The range of the file bytes of a header, moved by the load bias within the word of the class.
  abbrev pub IsRange : ProgramHeader → Range → Type 0
  IsRange h r =
      (r.start_address ≡ load_bias + h.virtual_address)
      × (r.end_address ≡ r.start_address + h.file)
      × (r.end_address < 2 ^ bits c)

  abbrev pub IsFault : ℕ → ProgramHeader → LoadedImageError → Type 0
  IsFault index h (file_exceeds_memory i) =
      (i ≡ index) × (h.kind ≡ binding.pt_load) × (h.memory < h.file)
  IsFault index h address_overflow =
      IsExecutable h × (2 ^ bits c ≤ load_bias + h.virtual_address + h.file)

  abbrev pub Judged : ℕ → ProgramHeader → Result LoadedImageError (Option Range) → Type 0
  Judged index h (err e) = IsFault index h e
  Judged index h (ok none) = IsSkipped h
  Judged index h (ok (some r)) = IsExecutable h × IsRange h r

  range-Judged :
      (index : ℕ) (h : ProgramHeader)
      → IsExecutable h
      → Judged index h (
          try_then
            (ok_or (range c load_bias h.virtual_address h.file) address_overflow)
            λ r. ok (some r))
  unfolding range Option.bind
  range-Judged index h executable =
      elim (Bool-cases (ltb (load_bias + h.virtual_address) (2 ^ bits c))) [
        | inr past ↦ rw past (executable, ground (arith, past))
        | inl start ↦
            elim (Bool-cases (ltb (load_bias + h.virtual_address + h.file) (2 ^ bits c))) [
              | inr past ↦ rw (start, past) (executable, ground (arith, past))
              | inl fits ↦ rw (start, fits) (executable, (refl, refl, ground (arith, fits)))
            ]
      ]

  no_range :
      (h : ProgramHeader)
      → (bit_and h.flags binding.pf_x == 0 || h.file == 0) ≡ true
      → (bit_and h.flags binding.pf_x ≡ 0) ⊎ (h.file ≡ 0)
  no_range h skipped = elim (Bool-cases (h.file == 0)) [
    | inl empty ↦ inr (ground (arith, empty))
    | inr full ↦ inl (ground (arith, full, skipped))
  ]

  executable-Judged :
      (index : ℕ) (h : ProgramHeader) → Judged index h (executable binding c load_bias index h)
  unfolding executable
  executable-Judged index h =
      if_split (Judged index h) (not (h.kind == binding.pt_load))
        (λ other. inl λ load. ground (arith, other, load))
        λ load.
          if_split (Judged index h) (ltb h.memory h.file)
            (λ over. (refl, ground (arith, load), ground (arith, over)))
            λ fits.
              if_split (Judged index h) (bit_and h.flags binding.pf_x == 0 || h.file == 0)
                (λ skipped. inr (ground (arith, fits), no_range h skipped))
                λ kept. range-Judged index h (
                  ground (arith, load),
                  ground (arith, fits),
                  (λ clear. ground (arith, kept, clear)),
                  ground (arith, kept),
                )

  -- Each header is skipped or executable, and the ranges are those of the executable ones, in order.
  abbrev pub Selected : List ProgramHeader → List Range → Type 0
  Selected [] ranges = ranges ≡ []
  Selected (h ∷ headers) ranges =
      (IsSkipped h × Selected headers ranges)
      ⊎ ((r : Range) × (rest : List Range) × (ranges ≡ r ∷ rest)
          × IsExecutable h
          × IsRange h r
          × Selected headers rest)

  abbrev pub Table : ℕ → List ProgramHeader → Result LoadedImageError (List Range) → Type 0
  Table index headers (ok ranges) = Selected headers ranges
  Table index headers (err e) =
      (before : List ProgramHeader) × (h : ProgramHeader) × (after : List ProgramHeader)
      × (ranges : List Range) × (headers ≡ before ++ h ∷ after)
      × Selected before ranges
      × IsFault (index + length before) h e

  next_Table :
      (index : ℕ) (h : ProgramHeader) (headers : List ProgramHeader) (found : Option Range)
      (o : Result LoadedImageError (List Range))
      → Judged index h (ok found)
      → Table (suc index) headers o
      → Table index (h ∷ headers) (try_then o λ rest. ok (push binding c load_bias found rest))
  next_Table index h headers none (ok rest) skipped t = inl (skipped, t)
  next_Table index h headers (some r) (ok rest) (exec, at) t = inr (r, rest, refl, exec, at, t)
  next_Table index h headers none (err e) skipped (before, k, after, ranges, split, selected, bad) =
      let e : suc index + length before ≡ index + suc (length before) = omega arith in
      (h ∷ before, k, after, ranges, ap (◌∷◌ h) split, inl (skipped, selected), rw (← e) bad)
  next_Table index h headers (some r) (err e) (exec, at)
        (before, k, after, ranges, split, selected, bad) =
      let e : suc index + length before ≡ index + suc (length before) = omega arith in
      (
        h ∷ before,
        k,
        after,
        r ∷ ranges,
        ap (◌∷◌ h) split,
        inr (r, ranges, refl, exec, at, selected),
        rw (← e) bad,
      )

  -- `executables` returns, in the order of the headers, the range of the file bytes of each load segment
  -- that is executable and has some, moved by the load bias without overflow of the word, and then no load
  -- segment's file extent exceeds its memory extent; or it fails by the first header that is a load
  -- segment whose file extent exceeds its memory extent, with its index, or an executable one whose range
  -- overflows.
  pub executables-Table :
      (index : ℕ) (headers : List ProgramHeader)
      → Table index headers (executables binding c load_bias index headers)
  unfolding executables
  executables-Table index [] = refl
  executables-Table index (h ∷ headers) =
      first (executable binding c load_bias index h) (executable-Judged index h)
        (executables-Table (suc index) headers)
    where
      first :
          (o : Result LoadedImageError (Option Range))
          → Judged index h o
          → Table (suc index) headers (executables binding c load_bias (suc index) headers)
          → Table index (h ∷ headers) (
              try_then o λ found.
                try_then
                  (executables binding c load_bias (suc index) headers)
                  λ rest. ok (push binding c load_bias found rest))
      first (err e) bad again =
          let z : index + 0 ≡ index = omega arith in ([], h, headers, [], refl, refl, rw z bad)
      first (ok found) judged again = next_Table index h headers found _ judged again
