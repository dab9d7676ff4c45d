-- ===== src/Scan/Scanner.antt =====
-- ganymede-scan/src/lib.rs: `Scanner`. A process is what `Process::open` answers at an address, with the
-- memory behind it; `find_iter` of memchr and `ViRange::size` of catalejo are arguments. The scratch
-- buffer is refilled before each use, so it is passed on as the bytes copied.
use ganymede.Common.{
  ℕ, zero, suc, ◌+◌, ◌-◌, ◌≤◌, ◌<◌, ◌≡◌, min, List, [], ◌∷◌, ◌++◌, Option, none, some, false, not,
  ltb, leb, ◌==◌, if◌then◌else◌, length, take, drop, checked_add,
}
use ganymede.Common.Result.{Result, ok, err, try_then, ok_or}
use ganymede.Common.Sort.{is_empty, sort}
use ganymede.Process.Snapshot.{Range}
use ganymede.Scan.Foreign.{Foreign, Faithful, ByteLiftError, Run, assemble_bytes}

-- `Process::open::<u8>`: a handle at the address, faithful to the memory from there on. An
-- `AccessError` is a number.
pub record Process : Type 0 where
  pub memory : ℕ → ℕ
  pub open_at : ℕ → Result ℕ Foreign
  pub faithful :
      (address : ℕ) (f : Foreign) → open_at address ≡ ok f → Faithful f (λ k. memory (address + k))

abbrev pub Occurs : List ℕ → List ℕ → ℕ → Type 0
Occurs hay needle k = take (length needle) (drop k hay) ≡ needle

-- All occurrences from `from` on, leftmost first, each after the end of the one before.
abbrev pub IsGreedy : List ℕ → List ℕ → ℕ → List ℕ → Type 0
IsGreedy hay needle from [] = (j : ℕ) → from ≤ j → ¬ Occurs hay needle j
IsGreedy hay needle from (k ∷ ks) =
    (from ≤ k)
    × Occurs hay needle k
    × ((j : ℕ) → from ≤ j → j < k → ¬ Occurs hay needle j)
    × IsGreedy hay needle (k + length needle) ks

-- `memmem::find_iter`, the non-overlapping occurrences of a nonempty needle.
pub record Memmem : Type 0 where
  pub find_iter : List ℕ → List ℕ → List ℕ
  pub greedy :
      (hay needle : List ℕ) → is_empty needle ≡ false → IsGreedy hay needle 0 (find_iter hay needle)

pub data ScanError : Type 0 where
  copy_too_small : ℕ → ℕ → ScanError
  access : ℕ → ScanError
  lifting : ByteLiftError → ScanError
  address_overflow : ℕ → ScanError

abbrev pub run_then {ℓ κ μ} :
    {E : Type ℓ} {A : Type κ} {B : Type μ} → Run E A → (A → Run E B) → Run E B
run_then none f = none
run_then (some (err e)) f = some (err e)
run_then (some (ok a)) f = f a

-- `Scanner::address_at`
unfoldable pub address_at : ℕ → ℕ → Result ScanError ℕ
address_at address offset = ok_or (checked_add address offset) (address_overflow address)

abbrev pub lifted : Run ByteLiftError (List ℕ) → Run ScanError (List ℕ)
lifted none = none
lifted (some (ok bytes)) = some (ok bytes)
lifted (some (err e)) = some (err (lifting e))

-- `Scanner::copy_bytes`
unfoldable pub copy_bytes : Process → ℕ → ℕ → Run ScanError (List ℕ)
copy_bytes process address count = elim (process.open_at address) [
  | err e ↦ some (err (access e))
  | ok f ↦ lifted (assemble_bytes f count)
]

-- The address of one match.
abbrev pub match_address : ℕ → ℕ → ℕ → Result ScanError ℕ
match_address start chunk_offset match_offset =
    try_then (ok_or (checked_add chunk_offset match_offset) (address_overflow start))
      λ absolute. address_at start absolute

-- The loop of `Scanner::push_matches` over the offsets of the matches.
unfoldable pub push_offsets : ℕ → ℕ → ℕ → List ℕ → List ℕ → Result ScanError (List ℕ)
push_offsets start chunk_offset candidate_end [] matches = ok matches
push_offsets start chunk_offset candidate_end (k ∷ offsets) matches =
    if leb candidate_end k
    then ok matches
    else try_then (match_address start chunk_offset k)
        λ address. push_offsets start chunk_offset candidate_end offsets (matches ++ address ∷ [])

-- `Vec::dedup`
abbrev pub dedup : List ℕ → List ℕ
dedup [] = []
dedup (x ∷ []) = x ∷ []
dedup (x ∷ y ∷ xs) = let rest = dedup (y ∷ xs) in if x == y then rest else x ∷ rest

module _ (finder : Memmem) (size : Range → Option ℕ) where
  -- `range.size().map_or(0, NonZeroUsize::get)`
  abbrev pub size_of : Range → ℕ
  size_of range = elim (size range) [ none ↦ 0 | some n ↦ n ]

  -- `Scanner::push_matches`
  abbrev pub push_matches : ℕ → ℕ → List ℕ → List ℕ → ℕ → List ℕ → Result ScanError (List ℕ)
  push_matches start chunk_offset buffer needle candidate_end matches =
      push_offsets start chunk_offset candidate_end (finder.find_iter buffer needle) matches

  module _ (process : Process) (needle : List ℕ) (copy_size step : ℕ) where
    -- The end of the candidates of a chunk.
    abbrev pub candidates : ℕ → ℕ
    candidates remaining = if ltb copy_size remaining then step else min remaining copy_size

    -- One round of the loop of `Scanner::scan_range`: the next offset, and the matches.
    unfoldable pub scan_round : Range → ℕ → List ℕ → Run ScanError (ℕ × List ℕ)
    scan_round range offset matches =
        let remaining = size_of range - offset in
        run_then (some (address_at range.start_address offset)) λ address.
          run_then (copy_bytes process address (min remaining copy_size)) λ buffer.
            run_then
              (some (
                push_matches range.start_address offset buffer needle (candidates remaining)
                  matches))
              λ pushed. some (
                try_then (ok_or (checked_add offset step) (address_overflow range.start_address))
                  λ next. ok (next, pushed))

    unfoldable pub scan_loop : Range → ℕ → ℕ → List ℕ → Run ScanError (List ℕ)
    scan_loop range zero offset matches = none
    scan_loop range (suc fuel) offset matches =
        if not (ltb offset (size_of range))
        then some (ok matches)
        else run_then (scan_round range offset matches)
            λ (next, pushed). scan_loop range fuel next pushed

    -- `Scanner::scan_range`
    unfoldable pub scan_range : Range → List ℕ → Run ScanError (List ℕ)
    scan_range range matches = scan_loop range (suc (size_of range)) 0 matches

    unfoldable pub scan_ranges : List Range → List ℕ → Run ScanError (List ℕ)
    scan_ranges [] matches = some (ok matches)
    scan_ranges (range ∷ ranges) matches =
        run_then (scan_range range matches) λ pushed. scan_ranges ranges pushed

  -- `Scanner::bytes`
  unfoldable pub bytes : Process → ℕ → List Range → List ℕ → Run ScanError (List ℕ)
  bytes process copy_size ranges needle =
      if is_empty needle
      then some (ok [])
      else if not (leb (length needle) copy_size)
      then some (err (copy_too_small copy_size (length needle)))
      else run_then
          (scan_ranges process needle copy_size (copy_size - (length needle - 1)) ranges [])
          λ matches. some (ok (dedup (sort leb matches)))
