-- ===== src/Scan/Assembly.antt =====
-- `Bytes::assemble_with` and `CBytes::assemble_with` of ganymede-scan/src/lib.rs.
use ganymede.Common.{
  ℕ, zero, suc, ◌+◌, ◌-◌, ◌≤◌, ◌<◌, ◌≡◌, ◌≢◌, refl, sym, ◌∙◌, ap, min, List, [], ◌∷◌, ◌++◌, Option,
  none, some, leb, length, checked_add-some, word_mod, arith, if_split,
}
use ganymede.Common.Result.{Result, ok, err, try_then, ok_or}
use ganymede.Scan.Foreign.{
  ByteCopyStatus, complete, faulted, Copy, Foreign, cells, Faithful, ByteLiftError, unavailable,
  missing_terminator, Run, copy_at, Progress, more, done, advance, bytes_next, bytes_round, loop,
  assemble_bytes,
}

pub length-cells : (memory : ℕ → ℕ) (k n : ℕ) → length (cells memory k n) ≡ n
length-cells memory k zero = refl
length-cells memory k (suc n) = ap suc (length-cells memory (suc k) n)

pub cells-append :
    (memory : ℕ → ℕ) (k a b : ℕ)
    → cells memory k (a + b) ≡ cells memory k a ++ cells memory (k + a) b
cells-append memory k zero b =
    let e : k + 0 ≡ k = omega arith in let f : 0 + b ≡ b = omega arith in rw (e, f) refl
cells-append memory k (suc a) b =
    let e : suc a + b ≡ suc (a + b) = omega arith in
    let f : k + suc a ≡ suc k + a = omega arith in
    rw (e, f) (ap (◌∷◌ (memory k)) (cells-append memory (suc k) a b))

-- A copy from the offset: some bytes after it, at most to the bound, and one or more where it is whole.
unfoldable pub Copied : (ℕ → ℕ) → ℕ → ℕ → Result ByteLiftError Copy → Type 0
Copied memory bound offset (err e) = e ≡ unavailable
Copied memory bound offset (ok copy) =
    (n : ℕ) × (copy.bytes ≡ cells memory offset n)
    × (offset + n ≤ bound)
    × (copy.status ≡ complete → 0 < n)

pub copy_at-Copied :
    (f : Foreign) (memory : ℕ → ℕ) (bound offset : ℕ)
    → Faithful f memory
    → offset < bound
    → Copied memory bound offset (copy_at f bound offset)
unfolding copy_at Copied
copy_at-Copied f memory bound offset faithful below =
    refreshed (f.refresh offset) (λ n e. faithful.leftover offset n e)
  where
    copied :
        (requested : ℕ)
        → 0 < requested
        → offset + requested ≤ bound
        → (o : Option Copy) → f.append offset requested ≡ o
        → Copied memory bound offset (ok_or o unavailable)
    copied requested full fits none e = refl
    copied requested full fits (some copy) e = by_status copy.status refl
      where
        by_status : (s : ByteCopyStatus) → copy.status ≡ s → Copied memory bound offset (ok copy)
        by_status complete same =
            (requested, faithful.whole offset requested copy.bytes (rw (← same) e), fits, λ _. full)
        by_status faulted same =
            let (c, small, b) = faithful.prefix offset requested copy.bytes (rw (← same) e) in
            (c, b, omega (arith, small, fits), λ whole. cc)

    refreshed :
        (o : Option ℕ)
        → ((n : ℕ) → o ≡ some n → 0 < n)
        → Copied memory bound offset (
            try_then
              (ok_or o unavailable)
              λ leftover. ok_or (f.append offset (min (bound - offset) leftover)) unavailable)
    refreshed none positive = refl
    refreshed (some n) positive =
        let p = positive n refl in
        copied (min (bound - offset) n) (omega (arith, p, below)) (omega (arith, below))
          (f.append offset (min (bound - offset) n)) refl

-- A loop whose rounds keep an invariant and advance to a bound.
module _ {ℓ} {E : Type ℓ} (Inv : ℕ → List ℕ → Type 0) (Post : List ℕ → Type 0) (Bad : E → Type 0)
    (bound : ℕ) where
  abbrev pub Judged : ℕ → Result E Progress → Type 0
  Judged offset (err e) = Bad e
  Judged offset (ok (done all)) = Post all
  Judged offset (ok (more next bytes)) = (offset < next) × (next ≤ bound) × Inv next bytes

  abbrev pub Ends : Run E (List ℕ) → Type 0
  Ends none = ⊥
  Ends (some (err e)) = Bad e
  Ends (some (ok all)) = Post all

  pub loop-Ends :
      (round : ℕ → List ℕ → Result E Progress) (fuel offset : ℕ) (bytes : List ℕ)
      → ((o : ℕ) (bs : List ℕ) → o ≤ bound → Inv o bs → Judged o (round o bs))
      → bound - offset < fuel
      → offset ≤ bound
      → Inv offset bytes
      → Ends (loop round fuel offset bytes)
  unfolding loop
  loop-Ends round zero offset bytes judge enough low inv = absurd (omega (arith, enough))
  loop-Ends round (suc fuel) offset bytes judge enough low inv =
      after (round offset bytes) (judge offset bytes low inv)
        λ next rest fewer below kept. loop-Ends round fuel next rest judge fewer below kept
    where
      after :
          (o : Result E Progress)
          → Judged offset o
          → ((next : ℕ) (rest : List ℕ)
              → bound - next < fuel
              → next ≤ bound
              → Inv next rest
              → Ends (loop round fuel next rest))
          → Ends (elim o [
            | err e ↦ some (err e)
            | ok (done all) ↦ some (ok all)
            | ok (more next rest) ↦ loop round fuel next rest
          ])
      after (err e) j onward = j
      after (ok (done all)) j onward = j
      after (ok (more next rest)) (ahead, below, kept) onward =
          onward next rest (omega (arith, ahead, below, enough)) below kept

-- Whole copies extend the bytes to the next offset.
pub advance-Judged {ℓ} :
    {E : Type ℓ} (overflow : E) (Post : List ℕ → Type 0) (Bad : E → Type 0)
    (Inv : ℕ → List ℕ → Type 0) (bound offset n : ℕ) (bytes copied : List ℕ)
    → length copied ≡ n
    → 0 < n
    → offset + n ≤ bound
    → bound < word_mod
    → Inv (offset + n) (bytes ++ copied)
    → Judged Inv Post Bad bound offset (advance overflow offset bytes copied)
advance-Judged overflow Post Bad Inv bound offset n bytes copied long full fits word inv =
    let next = checked_add-some offset (length copied) (omega (arith, long, fits, word)) in
    rw (next, long) (omega (arith, full), fits, inv)

pub prefix-append :
    (memory : ℕ → ℕ) (offset n : ℕ) (bytes copied : List ℕ)
    → bytes ≡ cells memory 0 offset
    → copied ≡ cells memory offset n
    → bytes ++ copied ≡ cells memory 0 (offset + n)
prefix-append memory offset n bytes copied e f =
    rw (e, f)
      (sym
        (cells-append memory 0 offset n ∙ let z : 0 + offset ≡ offset = omega arith in rw z refl))

module _ (f : Foreign) (memory : ℕ → ℕ) (bound : ℕ) where
  abbrev pub BytesRead : Run ByteLiftError (List ℕ) → Type 0
  BytesRead none = ⊥
  BytesRead (some (ok bytes)) = bytes ≡ cells memory 0 bound
  BytesRead (some (err e)) = e ≢ missing_terminator

  abbrev BytesJudged : ℕ → Result ByteLiftError Progress → Type 0
  BytesJudged =
      Judged (λ offset bytes. bytes ≡ cells memory 0 offset) (λ all. all ≡ cells memory 0 bound)
        (λ e. e ≢ missing_terminator) bound

  Copied-BytesJudged :
      (offset : ℕ) (bytes : List ℕ) (o : Result ByteLiftError Copy)
      → bound < word_mod
      → bytes ≡ cells memory 0 offset
      → Copied memory bound offset o
      → BytesJudged offset (try_then o λ copy. bytes_next offset bytes copy.bytes copy.status)
  unfolding Copied
  Copied-BytesJudged offset bytes (err e) word inv unavailable_there = λ same. cc
  Copied-BytesJudged offset bytes (ok copy) word inv (n, e, fits, full) = by_status copy.status refl
    where
      by_status :
          (s : ByteCopyStatus)
          → copy.status ≡ s
          → BytesJudged offset (bytes_next offset bytes copy.bytes s)
      by_status complete whole =
          advance-Judged unavailable _ _ (λ offset bytes. bytes ≡ cells memory 0 offset) bound
            offset n bytes copy.bytes (rw e (length-cells memory offset n)) (full whole) fits word
            (prefix-append memory offset n bytes copy.bytes inv e)
      by_status faulted whole = λ same. cc

  -- Of a handle that is faithful to a memory `Bytes` assembles exactly the bytes that were asked for,
  -- or fails as unavailable or by a fault; its loop ends within the count of rounds.
  pub assemble_bytes-BytesRead :
      Faithful f memory → bound < word_mod → BytesRead (assemble_bytes f bound)
  unfolding assemble_bytes bytes_round
  assemble_bytes-BytesRead faithful word = read (loop (bytes_round f bound) (suc bound) 0 []) (
      loop-Ends _ _ _ bound (bytes_round f bound) (suc bound) 0 []
        (λ offset bytes low inv.
          if_split (BytesJudged offset) (leb bound offset)
            (λ reached. let same : offset ≡ bound = ground (arith, reached, low) in rw (← same) inv)
            λ short.
              Copied-BytesJudged offset bytes (copy_at f bound offset) word inv
                (copy_at-Copied f memory bound offset faithful (ground (arith, short))))
        (omega arith) (omega arith) refl)
    where
      read :
          (o : Run ByteLiftError (List ℕ))
          → Ends
              (λ offset bytes. bytes ≡ cells memory 0 offset)
              (λ all. all ≡ cells memory 0 bound)
              (λ e. e ≢ missing_terminator)
              bound
              o
          → BytesRead o
      read none h = h
      read (some (ok bytes)) h = h
      read (some (err e)) h = h
