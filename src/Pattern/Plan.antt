-- ===== src/Pattern/Plan.antt =====
-- ganymede-pattern-core/src/pattern/fixed/plan.rs: the choice of a search strategy, and `Probe` of
-- pattern/fixed.rs. Each `while` loop over the masks is a recursion on the masks that are left.
pub mod Valid
pub mod Probes
use ganymede.Common.{
  ℕ, zero, suc, ◌+◌, ◌-◌, ◌*◌, ◌/◌, ◌%◌, [], ◌∷◌, Option, none, some, not, ◌&&◌, ltb, leb, ◌==◌,
  if◌then◌else◌, length, get_or, bit_and,
}
use mathlib.Core.Option
use ganymede.Pattern.Read.{Bytes}

pub record Probe : Type 0 where
  pub offset : ℕ
  pub value : ℕ
  pub mask : ℕ

pub data SearchPlan : Type 0 where
  literal : SearchPlan
  anchor : ℕ → ℕ → SearchPlan
  probes : Probe → Option Probe → SearchPlan
  wildcard : SearchPlan

abbrev pub minimum_anchor_bytes : ℕ
minimum_anchor_bytes = 2

-- The mutable variables of the loop of `compile`.
pub record Runs : Type 0 where
  pub exact_count : ℕ
  pub constrained_count : ℕ
  pub current_start : ℕ
  pub current_length : ℕ
  pub best_start : ℕ
  pub best_length : ℕ

abbrev pub no_runs : Runs
no_runs = record {
  exact_count = 0;
  constrained_count = 0;
  current_start = 0;
  current_length = 0;
  best_start = 0;
  best_length = 0;
}

abbrev pub run_start : ℕ → Runs → ℕ
run_start index r = if r.current_length == 0 then index else r.current_start

-- One round: the mask at `index`, first its run, then the count of constrained bytes.
unfoldable pub extend_run : ℕ → ℕ → Runs → Runs
extend_run index mask r =
    if mask == 255
    then (let longest = ltb r.best_length (r.current_length + 1) in
        record {
          exact_count = r.exact_count + 1;
          constrained_count = r.constrained_count;
          current_start = run_start index r;
          current_length = r.current_length + 1;
          best_start = if longest then run_start index r else r.best_start;
          best_length = if longest then r.current_length + 1 else r.best_length;
        })
    else record r { current_length = 0 }

unfoldable pub count_run : ℕ → ℕ → Runs → Runs
unfolding extend_run
count_run index mask r =
    let r' = extend_run index mask r in
    if mask == 0 then r' else record r' { constrained_count = r'.constrained_count + 1 }

unfoldable pub runs_loop : ℕ → Bytes → Runs → Runs
runs_loop index [] r = r
runs_loop index (mask ∷ masks) r = runs_loop (index + 1) masks (count_run index mask r)

-- `u8::count_ones`
abbrev pub ones : ℕ → ℕ → ℕ
ones zero b = 0
ones (suc n) b = b % 2 + ones n (b / 2)

unfoldable pub count_ones : ℕ → ℕ
count_ones b = ones 8 b

-- The offset with the most bits, and that number of bits; the earliest of equals.
unfoldable pub first_loop : ℕ → ℕ → ℕ → Bytes → ℕ × ℕ
first_loop index offset bits [] = (offset, bits)
first_loop index offset bits (mask ∷ masks) =
    let more_selective = ltb bits (count_ones mask) in
    first_loop (index + 1) (if more_selective then index else offset)
      (if more_selective then count_ones mask else bits) masks

abbrev pub abs_diff : ℕ → ℕ → ℕ
abs_diff a b = if leb a b then b - a else a - b

-- The second position, if one was seen, with its score.
unfoldable pub second_loop : ℕ → ℕ → ℕ → Option ℕ → ℕ → Bytes → Option ℕ
second_loop width first_offset index best score [] = best
second_loop width first_offset index best score (mask ∷ masks) =
    let new_score = count_ones mask * width + abs_diff index first_offset in
    let better =
      not (index == first_offset) && (not (count_ones mask == 0) && ltb score new_score) in
    second_loop width first_offset (index + 1) (if better then some index else best)
      (if better then new_score else score) masks

abbrev pub probe_at : Bytes → Bytes → ℕ → Probe
probe_at bytes masks offset = record {
  offset = offset;
  value = bit_and (get_or bytes offset 0) (get_or masks offset 0);
  mask = get_or masks offset 0;
}

unfoldable pub select_probes : Bytes → Bytes → Probe × Option Probe
select_probes bytes masks =
    let first_offset = (first_loop 0 0 0 masks).0 in
    (
      probe_at bytes masks first_offset,
      Option.map (probe_at bytes masks) (second_loop (length masks) first_offset 0 none 0 masks),
    )

-- The final `match` on what the loop counted.
unfoldable pub choose_plan : Bytes → Bytes → Runs → SearchPlan
choose_plan bytes masks r =
    if r.exact_count == length masks
    then literal
    else if leb minimum_anchor_bytes r.best_length
    then anchor r.best_start r.best_length
    else if r.constrained_count == 0
    then wildcard
    else (let (first, second) = select_probes bytes masks in probes first second)

unfoldable pub plan_compile : Bytes → Bytes → SearchPlan
plan_compile bytes masks = choose_plan bytes masks (runs_loop 0 masks no_runs)
