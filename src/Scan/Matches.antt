-- ===== src/Scan/Matches.antt =====
-- `Scanner::push_matches` of ganymede-scan/src/lib.rs over the matches of one chunk.
use ganymede.Common.{
  ℕ, zero, suc, ◌+◌, ◌-◌, ◌≤◌, ◌<◌, ◌≡◌, inl, inr, refl, sym, ◌∙◌, ap, List, [], ◌∷◌, ◌++◌, false,
  ltb, leb, ◌==◌, length, take, drop, word_mod, arith, leb→le, if_split, Bool-cases, All,
}
use ganymede.Common.Result.{Result, ok, err, try_then}
use ganymede.Common.Sort.{is_empty, Any, All-append}
use ganymede.Scan.Foreign.{cells}
use ganymede.Scan.Assembly.{length-cells}
use ganymede.Scan.Strings.{take-cells}
use ganymede.Scan.Scanner.{
  Occurs, IsGreedy, ScanError, address_overflow, address_at, match_address, push_offsets,
}

-- The needle stands in the memory at the address.
abbrev pub Hit : (ℕ → ℕ) → List ℕ → ℕ → Type 0
Hit memory needle a = cells memory a (length needle) ≡ needle

abbrev pub Member : ℕ → List ℕ → Type 0
Member a xs = Any (λ x. x ≡ a) xs

pub Member-append_left : (a : ℕ) (xs ys : List ℕ) → Member a xs → Member a (xs ++ ys)
Member-append_left a [] ys h = absurd h
Member-append_left a (x ∷ xs) ys (inl e) = inl e
Member-append_left a (x ∷ xs) ys (inr h) = inr (Member-append_left a xs ys h)

pub Member-append_right : (a : ℕ) (xs ys : List ℕ) → Member a ys → Member a (xs ++ ys)
Member-append_right a [] ys h = h
Member-append_right a (x ∷ xs) ys h = inr (Member-append_right a xs ys h)

drop-cells : (memory : ℕ → ℕ) (a n k : ℕ) → drop k (cells memory a n) ≡ cells memory (a + k) (n - k)
drop-cells memory a n zero =
    let e : a + 0 ≡ a = omega arith in let f : n - 0 ≡ n = omega arith in rw (e, f) refl
drop-cells memory a zero (suc k) = let f : 0 - suc k ≡ 0 = omega arith in rw f refl
drop-cells memory a (suc n) (suc k) =
    let e : a + suc k ≡ suc a + k = omega arith in
    let f : suc n - suc k ≡ n - k = omega arith in rw (e, f) (drop-cells memory (suc a) n k)

length-take-le : (n : ℕ) (xs : List ℕ) → length (take n xs) ≤ length xs
length-take-le zero xs = omega arith
length-take-le (suc n) [] = omega arith
length-take-le (suc n) (x ∷ xs) = omega (arith, length-take-le n xs)

-- In a chunk of the memory the needle occurs at an offset exactly where it stands in the memory there,
-- within the chunk.
pub Occurs→Hit :
    (memory : ℕ → ℕ) (needle : List ℕ) (a n k : ℕ)
    → is_empty needle ≡ false
    → Occurs (cells memory a n) needle k
    → (k + length needle ≤ n) × Hit memory needle (a + k)
Occurs→Hit memory needle a n k full h =
    let cut = drop-cells memory a n k in
    let here : take (length needle) (cells memory (a + k) (n - k)) ≡ needle =
      ap (take (length needle)) (sym cut) ∙ h in
    let short = length-take-le (length needle) (cells memory (a + k) (n - k)) in
    let long : length (take (length needle) (cells memory (a + k) (n - k))) ≡ length needle =
      ap length here in
    let some_byte = is_empty-length needle full in
    let cellular = length-cells memory (a + k) (n - k) in
    let fits : length needle ≤ n - k = omega (arith, short, long, cellular) in
    (
      omega (arith, fits, some_byte),
      sym (take-cells memory (a + k) (length needle) (n - k) fits) ∙ here,
    )
  where
    is_empty-length : (xs : List ℕ) → is_empty xs ≡ false → 0 < length xs
    is_empty-length [] e = cc
    is_empty-length (x ∷ xs) e = omega arith

pub Hit→Occurs :
    (memory : ℕ → ℕ) (needle : List ℕ) (a n k : ℕ)
    → k + length needle ≤ n
    → Hit memory needle (a + k)
    → Occurs (cells memory a n) needle k
Hit→Occurs memory needle a n k fits h =
    ap (take (length needle)) (drop-cells memory a n k)
    ∙ take-cells memory (a + k) (length needle) (n - k) (omega (arith, fits))
    ∙ h

module _ (hay needle : List ℕ) where
  IsGreedy-low :
      (from : ℕ) (ks : List ℕ) (k : ℕ) → IsGreedy hay needle from ks → Member k ks → from ≤ k
  IsGreedy-low from [] k g h = absurd h
  IsGreedy-low from (j ∷ ks) k (low, _, _, g) (inl e) = omega (arith, low, e)
  IsGreedy-low from (j ∷ ks) k (low, _, _, g) (inr h) =
      omega (arith, low, IsGreedy-low (j + length needle) ks k g h)

  pub IsGreedy-Occurs :
      (from : ℕ) (ks : List ℕ) → IsGreedy hay needle from ks → All (Occurs hay needle) ks
  IsGreedy-Occurs from [] g = tt
  IsGreedy-Occurs from (k ∷ ks) (_, occurs, _, g) =
      (occurs, IsGreedy-Occurs (k + length needle) ks g)

  -- An occurrence is found where no other one starts less than the needle's length before it.
  pub IsGreedy-Member :
      (from : ℕ) (ks : List ℕ) (k : ℕ)
      → IsGreedy hay needle from ks
      → from ≤ k
      → Occurs hay needle k
      → ((j : ℕ) → j < k → k < j + length needle → ¬ Occurs hay needle j)
      → Member k ks
  IsGreedy-Member from [] k g low occurs alone = absurd (g k low occurs)
  IsGreedy-Member from (j ∷ ks) k (l, at, first, g) low occurs alone = elim (Bool-cases (ltb k j)) [
    | inl before ↦ absurd (first k low (ground (arith, before)) occurs)
    | inr after ↦ elim (Bool-cases (k == j)) [
      | inl same ↦ inl (ground (arith, same))
      | inr differ ↦ elim (Bool-cases (ltb k (j + length needle))) [
        | inl near ↦ absurd (alone j (ground (arith, after, differ)) (ground (arith, near)) at)
        | inr far ↦
            inr (IsGreedy-Member (j + length needle) ks k g (ground (arith, far)) occurs alone)
      ]
    ]
  ]

-- What the matches of a chunk add to those before, and what a failure says.
module _ (P : ℕ → Type 0) (start chunk_offset candidate_end : ℕ) where
  abbrev pub Pushed : List ℕ → List ℕ → Result ScanError (List ℕ) → Type 0
  Pushed ks matches (ok pushed) =
      All P pushed
      × ((a : ℕ) → Member a matches → Member a pushed)
      × ((k : ℕ) → Member k ks → k < candidate_end → Member (start + (chunk_offset + k)) pushed)
  Pushed ks matches (err e) =
      (e ≡ address_overflow start) × (k : ℕ) × Member k ks × (word_mod ≤ start + (chunk_offset + k))

  address_match :
      (k : ℕ) (Q : Result ScanError ℕ → Type 0)
      → Q (ok (start + (chunk_offset + k)))
      → (word_mod ≤ start + (chunk_offset + k) → Q (err (address_overflow start)))
      → Q (match_address start chunk_offset k)
  unfolding address_at
  address_match k Q fine over = elim (Bool-cases (ltb (chunk_offset + k) word_mod)) [
    | inl fits ↦ elim (Bool-cases (ltb (start + (chunk_offset + k)) word_mod)) [
      | inl both ↦ rw (fits, both) fine
      | inr past ↦ rw (fits, past) (over (ground (arith, past)))
    ]
    | inr past ↦ rw past (over (ground (arith, past)))
  ]

  pub push_offsets-Pushed :
      (hay needle : List ℕ) (from : ℕ) (ks matches : List ℕ)
      → IsGreedy hay needle from ks
      → All P matches
      → All (λ k. P (start + (chunk_offset + k))) ks
      → Pushed ks matches (push_offsets start chunk_offset candidate_end ks matches)
  unfolding push_offsets
  push_offsets-Pushed hay needle from [] matches g all each = (all, (λ a h. h), λ k h. absurd h)
  push_offsets-Pushed hay needle from (k ∷ ks) matches (low, at, first, g) all (p, each) =
      if_split (Pushed (k ∷ ks) matches) (leb candidate_end k)
        (λ past. (
          all,
          (λ a h. h),
          λ j h below. absurd (
              omega (
                arith,
                leb→le candidate_end k past,
                below,
                IsGreedy-low hay needle k (k ∷ ks) j
                    (omega arith, at, (λ i a b. absurd (omega (arith, a, b))), g) h,
              )),
        ))
        λ near.
          address_match k
            (λ o. Pushed (k ∷ ks) matches (
              try_then o λ address.
                push_offsets start chunk_offset candidate_end ks (matches ++ address ∷ [])))
            (more _ (
              push_offsets-Pushed hay needle (k + length needle) ks
                (matches ++ (start + (chunk_offset + k)) ∷ []) g
                (All-append P matches _ all (p, tt)) each))
            λ over. (refl, k, inl refl, over)
    where
      more :
          (o : Result ScanError (List ℕ))
          → Pushed ks (matches ++ (start + (chunk_offset + k)) ∷ []) o
          → Pushed (k ∷ ks) matches o
      more (ok pushed) (sound, kept, found) =
          (sound, (λ a h. kept a (Member-append_left a matches _ h)), λ j h below. chosen j h below)
        where
          chosen :
              (j : ℕ)
              → Member j (k ∷ ks)
              → j < candidate_end
              → Member (start + (chunk_offset + j)) pushed
          chosen j (inl e) below = rw (← e) (kept _ (Member-append_right _ matches _ (inl refl)))
          chosen j (inr h) below = found j h below
      more (err e) (same, j, h, over) = (same, j, inr h, over)
