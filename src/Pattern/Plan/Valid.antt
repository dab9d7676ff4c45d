-- ===== src/Pattern/Plan/Valid.antt =====
-- `SearchPlan::compile` of ganymede-pattern-core/src/pattern/fixed/plan.rs, and what each
-- strategy says of the masks.
use ganymede.Common.{
  ℕ, zero, suc, ◌+◌, ◌≤◌, ◌<◌, ◌≡◌, ◌≢◌, refl, [], ◌∷◌, some, ◌&&◌, ltb, leb, ◌==◌, length,
  get_elem?, drop, arith, drop_cons-get_elem?, drop_cons-drop_next, drop_nil-get_elem?,
  get_elem?-lt, get_elem?-some, All, Bool-cases, ==_iff, if_split, leb→le, inl, inr, ◌⊎◌, ◌∙◌,
}
use native.Mathlib.Decide.{dec_lt}
use ganymede.Pattern.Read.{Bytes}
use ganymede.Pattern.Plan.Probes.{IsProbe, select_probes-IsProbe}
use ganymede.Pattern.Plan.{
  Probe, SearchPlan, minimum_anchor_bytes, Runs, no_runs, run_start, extend_run, count_run,
  runs_loop, choose_plan, plan_compile,
}

-- Every mask from `lo` to `hi` is `m`.
abbrev pub Constant : ℕ → Bytes → ℕ → ℕ → Type 0
Constant m masks lo hi = (i : ℕ) → lo ≤ i → i < hi → get_elem? masks i ≡ some m

Constant-extend :
    (m : ℕ) (masks : Bytes) (lo hi : ℕ)
    → Constant m masks lo hi
    → get_elem? masks hi ≡ some m
    → Constant m masks lo (hi + 1)
Constant-extend m masks lo hi c e i l h = elim (dec_lt i hi) [
  | yes below ↦ c i l below
  | no end ↦ let here : i ≡ hi = omega arith in rw here e
]

-- What the loop knows of the masks before `index`.
record IsRuns (masks : Bytes) (index : ℕ) (r : Runs) : Type 0 where
  exact_le : r.exact_count ≤ index
  exact : r.exact_count ≡ index → Constant 255 masks 0 index
  free : r.constrained_count ≡ 0 → Constant 0 masks 0 index
  current_end : 0 < r.current_length → r.current_start + r.current_length ≡ index
  current : 0 < r.current_length → Constant 255 masks r.current_start index
  best_end : r.best_start + r.best_length ≤ index
  best : Constant 255 masks r.best_start (r.best_start + r.best_length)

no_runs-IsRuns : (masks : Bytes) → IsRuns masks 0 no_runs
no_runs-IsRuns masks = record {
  exact_le = omega arith;
  exact = λ _ i l h. absurd (omega arith);
  free = λ _ i l h. absurd (omega arith);
  current_end = λ h. absurd (omega arith);
  current = λ _ i l h. absurd (omega arith);
  best_end = omega arith;
  best = λ i l h. absurd (omega arith);
}

module _ (masks : Bytes) (index mask : ℕ) (r : Runs) (found : get_elem? masks index ≡ some mask)
    (v : IsRuns masks index r) where
  count_run-exact_le : (count_run index mask r).exact_count ≤ index + 1
  unfolding count_run
  count_run-exact_le = ground (arith, v.exact_le)

  is_exact : (m : ℕ) → mask ≡ m → get_elem? masks index ≡ some m
  is_exact m e = rw (← e) found

  count_run-exact :
      (count_run index mask r).exact_count ≡ index + 1 → Constant 255 masks 0 (index + 1)
  unfolding count_run
  count_run-exact h =
      let m : mask ≡ 255 = ground (arith, v.exact_le) in
      let all : r.exact_count ≡ index = ground (arith, v.exact_le) in
      Constant-extend 255 masks 0 index (v.exact all) (is_exact 255 m)

  count_run-free : (count_run index mask r).constrained_count ≡ 0 → Constant 0 masks 0 (index + 1)
  unfolding count_run
  count_run-free h =
      let m : mask ≡ 0 = ground arith in
      let none_yet : r.constrained_count ≡ 0 = ground arith in
      Constant-extend 0 masks 0 index (v.free none_yet) (is_exact 0 m)

  run_start-Constant : Constant 255 masks (run_start index r) index
  run_start-Constant = elim (Bool-cases (r.current_length == 0)) [
    | inl fresh ↦ rw fresh (λ i l h. absurd (omega arith))
    | inr going ↦ rw going (v.current (ground arith))
  ]

  run_start_end : run_start index r + r.current_length ≡ index
  run_start_end = ground (arith, v.current_end)

  grown : mask ≡ 255 → Constant 255 masks (run_start index r) (index + 1)
  grown m = Constant-extend 255 masks (run_start index r) index run_start-Constant (is_exact 255 m)

  count_run-current :
      0 < (count_run index mask r).current_length
      → ((count_run index mask r).current_start + (count_run index mask r).current_length
          ≡ index + 1)
        × Constant 255 masks (count_run index mask r).current_start (index + 1)
  unfolding count_run
  count_run-current h =
      let m : mask ≡ 255 = ground arith in
      let start : (count_run index mask r).current_start ≡ run_start index r = ground arith in
      let len : (count_run index mask r).current_length ≡ r.current_length + 1 = ground arith in
      (omega (arith, run_start_end), rw start (grown m))

  count_run-best :
      ((count_run index mask r).best_start + (count_run index mask r).best_length ≤ index + 1)
      × Constant 255 masks
          (count_run index mask r).best_start
          ((count_run index mask r).best_start + (count_run index mask r).best_length)
  unfolding count_run
  count_run-best = elim (Bool-cases (mask == 255 && ltb r.best_length (r.current_length + 1))) [
    | inl longer ↦
        let m : mask ≡ 255 = ground arith in
        let start : (count_run index mask r).best_start ≡ run_start index r = ground arith in
        let len : (count_run index mask r).best_length ≡ r.current_length + 1 = ground arith in
        let end : run_start index r + (r.current_length + 1) ≡ index + 1 =
          omega (arith, run_start_end) in
        (omega (arith, run_start_end), rw (start, len, end) (grown m))
    | inr kept ↦
        let start : (count_run index mask r).best_start ≡ r.best_start = ground arith in
        let len : (count_run index mask r).best_length ≡ r.best_length = ground arith in
        (omega (arith, v.best_end), rw (start, len) v.best)
  ]

  count_run-IsRuns : IsRuns masks (index + 1) (count_run index mask r)
  count_run-IsRuns = record {
    exact_le = count_run-exact_le;
    exact = count_run-exact;
    free = count_run-free;
    current_end = λ h. (count_run-current h).0;
    current = λ h. (count_run-current h).1;
    best_end = count_run-best.0;
    best = count_run-best.1;
  }

runs_loop-IsRuns :
    (masks rest : Bytes) (index : ℕ) (r : Runs)
    → drop index masks ≡ rest
    → index ≤ length masks
    → IsRuns masks index r
    → IsRuns masks (length masks) (runs_loop index rest r)
unfolding runs_loop
runs_loop-IsRuns masks [] index r d h v =
    let e : index ≡ length masks =
      ground (arith, get_elem?-some masks index, drop_nil-get_elem? index masks d) in
    rw (← e) v
runs_loop-IsRuns masks (m ∷ rest) index r d h v =
    let found = drop_cons-get_elem? index masks rest d in
    runs_loop-IsRuns masks rest (index + 1) (count_run index m r)
      (drop_cons-drop_next index masks rest d) (omega (arith, get_elem?-lt masks index found))
      (count_run-IsRuns masks index m r found v)

-- What a strategy claims of the bytes and masks that it searches for.
abbrev pub IsPlan : Bytes → Bytes → SearchPlan → Type 0
IsPlan bytes masks SearchPlan.literal = Constant 255 masks 0 (length masks)
IsPlan bytes masks (SearchPlan.anchor offset len) =
    (2 ≤ len) × (offset + len ≤ length masks) × Constant 255 masks offset (offset + len)
IsPlan bytes masks (SearchPlan.probes first second) =
    IsProbe bytes masks first
    × ((p : Probe) → second ≡ some p → IsProbe bytes masks p × (p.offset ≢ first.offset))
IsPlan bytes masks SearchPlan.wildcard = Constant 0 masks 0 (length masks)

runs_loop-zero :
    (rest : Bytes) (index : ℕ) (r : Runs)
    → All (λ m. m ≡ 0) rest
    → (runs_loop index rest r).constrained_count ≡ r.constrained_count
unfolding runs_loop count_run extend_run
runs_loop-zero [] index r h = refl
runs_loop-zero (m ∷ rest) index r h =
    runs_loop-zero rest (index + 1) (count_run index m r) h.1 ∙ ground (arith, h.0)

-- Some mask is not empty, or all are.
find_constrained :
    (masks : Bytes)
    → All (λ m. m ≡ 0) masks ⊎ ((i : ℕ) × ((m : ℕ) × (get_elem? masks i ≡ some m) × (m ≢ 0)))
find_constrained [] = inl tt
find_constrained (zero ∷ masks) = elim (find_constrained masks) [
  | inl all ↦ inl (refl, all)
  | inr (i, (m, e, ne)) ↦ inr (suc i, (m, e, ne))
]
find_constrained (suc m ∷ masks) = inr (0, (suc m, refl, λ h. absurd (omega arith)))

-- The strategy that `SearchPlan::compile` derives from byte masks holds of them: a literal has
-- full masks only, an anchor is a run of two or more full masks inside the pattern, the probes are
-- constrained bytes of the pattern at different positions, and a wildcard constrains nothing.
pub plan_compile-IsPlan :
    (bytes masks : Bytes) → All (λ m. m < 256) masks → IsPlan bytes masks (plan_compile bytes masks)
unfolding plan_compile choose_plan
plan_compile-IsPlan bytes masks bound =
    let v = runs_loop-IsRuns masks masks 0 no_runs refl (omega arith) (no_runs-IsRuns masks) in
    chosen (runs_loop 0 masks no_runs) v (runs_loop-zero masks 0 no_runs)
  where
    chosen :
        (r : Runs)
        → IsRuns masks (length masks) r
        → (All (λ m. m ≡ 0) masks → r.constrained_count ≡ 0)
        → IsPlan bytes masks (choose_plan bytes masks r)
    chosen r v z =
        if_split (IsPlan bytes masks) (r.exact_count == length masks)
          (λ e. v.exact ((==_iff _ _).0 e))
          λ _.
            if_split (IsPlan bytes masks) (leb minimum_anchor_bytes r.best_length)
              (λ e. (leb→le 2 r.best_length e, v.best_end, v.best))
              λ _.
                if_split (IsPlan bytes masks) (r.constrained_count == 0)
                  (λ e. v.free ((==_iff _ _).0 e))
                  λ e. elim (find_constrained masks) [
                    | inl all ↦ absurd (ground (arith, z all, e))
                    | inr (i, (m, found, ne)) ↦ select_probes-IsProbe bytes masks i m bound found ne
                  ]
