-- ===== src/Pattern/Plan/Probes.antt =====
-- `SearchPlan::select_probes` of ganymede-pattern-core/src/pattern/fixed/plan.rs, and what a
-- probe of a pattern is.
use ganymede.Common.{
  ℕ, zero, suc, ◌+◌, ◌*◌, ◌≤◌, ◌<◌, ◌≡◌, ◌≢◌, refl, [], ◌∷◌, Option, none, some, Bool, true, false,
  not, ◌&&◌, ◌||◌, ltb, ◌==◌, if◌then◌else◌, length, get_elem?, get_or, drop, bit_and, arith,
  drop_cons-get_elem?, drop_cons-drop_next, drop_nil-get_elem?, get_elem?-lt, get_elem?-some, All,
  all_below→true, All-get_elem?, ltb→lt, sym, ◌∙◌,
}
use mathlib.Core.Option
use native.Mathlib.Decide.{dec_lt}
use ganymede.Pattern.Read.{Bytes}
use ganymede.Pattern.Plan.{
  Probe, count_ones, first_loop, second_loop, abs_diff, probe_at, select_probes,
}

-- A probe's position lies in the pattern, its mask is that position's and not empty, and its value
-- is the pattern byte under the mask.
pub record IsProbe (bytes masks : Bytes) (p : Probe) : Type 0 where
  pub in_range : get_elem? masks p.offset ≡ some p.mask
  pub constrains : p.mask ≢ 0
  pub value : p.value ≡ bit_and (get_or bytes p.offset 0) p.mask

count_ones-zero : (m : ℕ) → m < 256 → m ≢ 0 → count_ones m ≢ 0
unfolding count_ones
count_ones-zero m h ne e =
    ne (ground (arith, all_below→true 256 (λ b. not (count_ones b == 0) || b == 0) m refl h))

record IsBest (masks : Bytes) (index : ℕ) (best : ℕ × ℕ) : Type 0 where
  here : best.1 ≢ 0 → (m : ℕ) × (get_elem? masks best.0 ≡ some m) × (count_ones m ≡ best.1)
  most : (i m : ℕ) → i < index → get_elem? masks i ≡ some m → count_ones m ≤ best.1

first_step-IsBest :
    (masks : Bytes) (index offset bits mask : ℕ)
    → get_elem? masks index ≡ some mask
    → IsBest masks index (offset, bits)
    → (more : Bool) → ltb bits (count_ones mask) ≡ more
    → IsBest masks
        (index + 1)
        (if more then index else offset, if more then count_ones mask else bits)
first_step-IsBest masks index offset bits mask found b true h = record {
  here = λ _. (mask, found, refl);
  most = λ i m lt e. elim (dec_lt i index) [
    | yes before ↦ omega (arith, b.most i m before e, ltb→lt bits (count_ones mask) h)
    | no last ↦ let same : i ≡ index = omega arith in ground (arith, found, e, same)
  ];
}
first_step-IsBest masks index offset bits mask found b false h = record {
  here = b.here;
  most = λ i m lt e. elim (dec_lt i index) [
    | yes before ↦ b.most i m before e
    | no last ↦ let same : i ≡ index = omega arith in ground (arith, found, e, same, h)
  ];
}

first_loop-IsBest :
    (masks rest : Bytes) (index offset bits : ℕ)
    → drop index masks ≡ rest
    → index ≤ length masks
    → IsBest masks index (offset, bits)
    → IsBest masks (length masks) (first_loop index offset bits rest)
unfolding first_loop
first_loop-IsBest masks [] index offset bits d h b =
    let e : index ≡ length masks =
      ground (arith, get_elem?-some masks index, drop_nil-get_elem? index masks d) in
    rw (← e) b
first_loop-IsBest masks (m ∷ rest) index offset bits d h b =
    let found = drop_cons-get_elem? index masks rest d in
    first_loop-IsBest masks rest (index + 1) _ _ (drop_cons-drop_next index masks rest d)
      (omega (arith, get_elem?-lt masks index found))
      (first_step-IsBest masks index offset bits m found b (ltb bits (count_ones m)) refl)

-- The second position differs from the first and is constrained.
abbrev IsSecond : Bytes → ℕ → Option ℕ → Type 0
IsSecond masks first none = Unit {0}
IsSecond masks first (some j) =
    (j ≢ first) × ((m : ℕ) × (get_elem? masks j ≡ some m) × (count_ones m ≢ 0))

second_loop-IsSecond :
    (masks rest : Bytes) (width first index score : ℕ) (best : Option ℕ)
    → drop index masks ≡ rest
    → IsSecond masks first best
    → IsSecond masks first (second_loop width first index best score rest)
unfolding second_loop
second_loop-IsSecond masks [] width first index score best d b = b
second_loop-IsSecond masks (m ∷ rest) width first index score best d b =
    second_loop-IsSecond masks rest width first (index + 1) _ _
      (drop_cons-drop_next index masks rest d)
      (if_second
        (not (index == first)
          && (not (count_ones m == 0) && ltb score (count_ones m * width + abs_diff index first)))
        (λ e. (ground arith, (m, drop_cons-get_elem? index masks rest d, ground arith))))
  where
    if_second :
        (better : Bool)
        → (better ≡ true → IsSecond masks first (some index))
        → IsSecond masks first (if better then some index else best)
    if_second true h = h refl
    if_second false h = b

get_or-get_elem? : (xs : Bytes) (i : ℕ) {a : ℕ} → get_elem? xs i ≡ some a → get_or xs i 0 ≡ a
get_or-get_elem? [] i h = ground arith
get_or-get_elem? (x ∷ xs) zero h = ground arith
get_or-get_elem? (x ∷ xs) (suc i) h = get_or-get_elem? xs i h

count_ones-ne : (m : ℕ) → count_ones m ≢ 0 → m ≢ 0
unfolding count_ones
count_ones-ne m h e = h (rw e refl)

probe_at-IsProbe :
    (bytes masks : Bytes) (i m : ℕ)
    → get_elem? masks i ≡ some m
    → count_ones m ≢ 0
    → IsProbe bytes masks (probe_at bytes masks i)
probe_at-IsProbe bytes masks i m e h = rw' (get_or-get_elem? masks i e)
  where
    rw' : get_or masks i 0 ≡ m → IsProbe bytes masks (probe_at bytes masks i)
    rw' g = record {
      in_range = rw g e;
      constrains = λ z. count_ones-ne m h (sym g ∙ z);
      value = refl;
    }

nothing_yet : (masks : Bytes) → IsBest masks 0 (0, 0)
nothing_yet masks = record { here = λ h. absurd (h refl); most = λ i m h. absurd (omega arith) }

second_probe :
    (bytes masks : Bytes) (first : ℕ) (o : Option ℕ)
    → IsSecond masks first o
    → (p : Probe) → Option.map (probe_at bytes masks) o ≡ some p
    → IsProbe bytes masks p × (p.offset ≢ first)
second_probe bytes masks first none s p h = cc
second_probe bytes masks first (some j) (ne, (m, found, ones)) p h =
    let same : probe_at bytes masks j ≡ p = ground (arith, h) in
    (rw (← same) (probe_at-IsProbe bytes masks j m found ones), rw (← same) ne)

-- Where the masks are bytes and some mask is not empty, both probes of `select_probes` are probes
-- of the pattern, and they are at different positions.
pub select_probes-IsProbe :
    (bytes masks : Bytes) (i m : ℕ)
    → All (λ k. k < 256) masks
    → get_elem? masks i ≡ some m
    → m ≢ 0
    → IsProbe bytes masks (select_probes bytes masks).0
      × ((p : Probe)
          → (select_probes bytes masks).1 ≡ some p
          → IsProbe bytes masks p × (p.offset ≢ (select_probes bytes masks).0.offset))
unfolding select_probes
select_probes-IsProbe bytes masks i m bound e ne =
    let best = first_loop-IsBest masks masks 0 0 0 refl (omega arith) (nothing_yet masks) in
    let large = count_ones-zero m (All-get_elem? (λ k. k < 256) masks i bound e) ne in
    let (k, found, ones) = best.here (omega (arith, best.most i m (get_elem?-lt masks i e) e)) in
    (
      probe_at-IsProbe bytes masks _ k found
          (omega (arith, best.most i m (get_elem?-lt masks i e) e)),
      second_probe bytes masks _ _
          (second_loop-IsSecond masks masks (length masks) _ 0 0 none refl tt),
    )
