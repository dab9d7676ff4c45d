-- ===== src/Pattern/Tests.antt =====
-- Concrete images, programs and sources for ganymede-pattern-core, run through its operations.
use ganymede.Common.{
  ◌+◌, ◌-◌, ◌≤◌, ◌<◌, ◌≡◌, ◌↔◌, ◌⊎◌, inl, inr, refl, List, [], ◌∷◌, none, some, Bool, true, ◌&&◌,
  ltb, length, min, word_mod, arith, All,
}
use ganymede.Common.Checked.{done}
use ganymede.Common.First.{first_from}
use ganymede.Pattern.Atom.{Atom, PointerWidth, capture_len}
use ganymede.Pattern.Atom.Slots.{SlotBelow, capture_len-SlotBelow}
use ganymede.Pattern.Read.{Bytes, absolute, write}
use ganymede.Pattern.Exec.{
  Context, Outcome, run, exec, next, match_byte, dispatch, capture, many, many_from,
}
use ganymede.Pattern.Exec.Total.{run_total, exec_total}
use ganymede.Pattern.Plan.{plan_compile, choose_plan, runs_loop, count_run, extend_run, SearchPlan}
use ganymede.Pattern.Plan.Valid.{IsPlan, plan_compile-IsPlan}
use ganymede.Pattern.Fixed.{
  fixed_new, valid_for, valid_loop, zero_span, width_loop, project_loop, fixed_compile,
}
use ganymede.Pattern.Fixed.Run.{masked_at, exec-valid_for}
use ganymede.Pattern.Fixed.Compile.{fixed_compile-valid_for}
use ganymede.Pattern.Compiled.{compile, emitted_parts, from_static_parts}
use ganymede.Pattern.Compiled.Static.{from_static_parts-fixed_parts}
use ganymede.Pattern.FixedScan.{occurs_at}
use ganymede.Pattern.Search.{Scanner, context, prefix, find_in, finds, matches_in, collect}
use ganymede.Pattern.Search.Filter.{direct}
use ganymede.Pattern.Search.Prefix.{IsByte, AtomFits, direct-prefix}
use ganymede.Pattern.FixedScan.{scanner_new, fixed_find}
use ganymede.Pattern.FixedScan.Exact.{fixed_find-exact}
use ganymede.Pattern.Search.Projected.{Projects}
use ganymede.Pattern.Search.Answers.{
  all_from, MatchesOnce, find_in-first, collect-all, finds-MatchesOnce,
}
use ganymede.Pattern.Syntax.{ParseError, Parser, failed, parsed}
use ganymede.Pattern.Syntax.Grammar.{parse}
use ganymede.Pattern.Syntax.Fits.{Fits}
use ganymede.Pattern.Syntax.Sequence.{parse_total}
use ganymede.Pattern.Naive.{naive, one_lane}

abbrev image : Bytes
image = 65 ∷ 66 ∷ 65 ∷ 67 ∷ 144 ∷ []

image-IsByte : All IsByte image
image-IsByte = (omega arith, (omega arith, (omega arith, (omega arith, (omega arith, tt)))))

-- `41 [0-2] 43`, which has no fixed projection.
abbrev program : List Atom
program = Atom.save 0 ∷ Atom.byte 65 ∷ Atom.many 2 ∷ Atom.byte 67 ∷ []

program-AtomFits : All AtomFits program
program-AtomFits = (tt, (omega arith, (tt, (omega arith, tt))))

abbrev scanner : Scanner
scanner = record {
  pattern = record { atoms = program; save_len = 1; fixed = none };
  fixed = none;
  pointer_width = PointerWidth.u64;
  base = 4096;
}

-- `41 43`, whose projection is a literal.
abbrev literal_program : List Atom
literal_program = Atom.save 0 ∷ Atom.byte 65 ∷ Atom.byte 67 ∷ []

abbrev literal_bytes : Bytes
literal_bytes = 65 ∷ 67 ∷ []

abbrev literal_masks : Bytes
literal_masks = 255 ∷ 255 ∷ []

literal_plan : plan_compile literal_bytes literal_masks ≡ SearchPlan.literal
unfolding plan_compile choose_plan runs_loop count_run extend_run
literal_plan = refl

literal_valid : valid_for literal_program literal_bytes literal_masks ≡ true
unfolding valid_for valid_loop
literal_valid = refl

literal_bytes-IsByte : All (λ b. b < 256) literal_bytes
literal_bytes-IsByte = (omega arith, (omega arith, tt))

literal_masks-IsByte : All (λ b. b < 256) literal_masks
literal_masks-IsByte = (omega arith, (omega arith, tt))

abbrev literal_scanner : Scanner
literal_scanner = record {
  pattern = record {
    atoms = literal_program;
    save_len = 1;
    fixed = some (fixed_new literal_bytes literal_masks);
  };
  fixed = some (scanner_new (fixed_new literal_bytes literal_masks));
  pointer_width = PointerWidth.u64;
  base = 4096;
}

literal-Projects : Projects literal_program literal_scanner.fixed
literal-Projects = record {
  bytes = literal_bytes;
  masks = literal_masks;
  is_fixed = refl;
  valid = literal_valid;
  bytes_fit = literal_bytes-IsByte;
  masks_fit = literal_masks-IsByte;
  plan = inl literal_plan;
}

literal-AtomFits : All AtomFits literal_program
literal-AtomFits = (tt, (omega arith, (omega arith, tt)))

fixed_find-exact_example :
    fixed_find naive one_lane (scanner_new (fixed_new literal_bytes literal_masks)) image 1 5
    ≡ done (first_from (λ i. masked_at image i literal_bytes literal_masks) 1 (5 - 1))
fixed_find-exact_example =
    fixed_find-exact naive one_lane image literal_bytes literal_masks refl 1 5 image-IsByte
      literal_bytes-IsByte literal_masks-IsByte (inl literal_plan) (omega arith) (omega arith)

collect-all_example :
    collect naive one_lane literal_scanner image 6 (matches_in image 0 5)
    ≡ done (all_from (direct (context literal_scanner image)) 0 (min 5 (length image) - 0))
collect-all_example =
    collect-all naive one_lane literal_scanner image image-IsByte literal-AtomFits (omega arith)
      (inr literal-Projects) 0 5 6 (omega arith)

find_in-first_example :
    find_in naive one_lane scanner image 1 5
    ≡ done (first_from (direct (context scanner image)) 1 (min 5 (length image) - 1))
find_in-first_example =
    find_in-first naive one_lane scanner image image-IsByte program-AtomFits (omega arith)
      (inl refl) 1 5

finds-MatchesOnce_example :
    (b : Bool) × (finds naive one_lane scanner image [] ≡ done (b, []))
    × ((b ≡ true)
        ↔ MatchesOnce naive one_lane scanner image image-IsByte program-AtomFits
            (omega arith)
            (inl refl))
finds-MatchesOnce_example =
    finds-MatchesOnce naive one_lane scanner image image-IsByte program-AtomFits (omega arith)
      (inl refl)

first_match : direct (context scanner image) 2 ≡ true
unfolding exec run next match_byte dispatch capture many many_from absolute write
first_match = refl

direct-prefix_example : (2 ≤ length image) × (occurs_at image (prefix program) 2 ≡ true)
direct-prefix_example =
    direct-prefix (context scanner image) image-IsByte 2 program-AtomFits first_match

run_total_example :
    (o : Outcome) × (run (context scanner image) 4 (record { cursor = 2; pc = 1 }) (0 ∷ []) 255
      ≡ some o)
    × (1 ≤ o.exec.pc)
    × (length o.saves ≡ 1)
run_total_example =
    run_total (context scanner image) 4 (record { cursor = 2; pc = 1 }) (0 ∷ []) 255 (omega arith)

exec_total_example :
    (o : Outcome) × (run (context scanner image) 5 (record { cursor = 2; pc = 0 }) (0 ∷ []) 255
      ≡ some o)
    × (exec (context scanner image) 2 (0 ∷ []) ≡ (o.valid, o.saves))
    × (length o.saves ≡ 1)
exec_total_example = exec_total (context scanner image) 2 (0 ∷ []) (omega arith)

-- `41 ? 4?`
abbrev fixed_program : List Atom
fixed_program = Atom.save 0 ∷ Atom.byte 65 ∷ Atom.skip 1 ∷ Atom.fuzzy 240 ∷ Atom.byte 64 ∷ []

abbrev fixed_context : Context
fixed_context = record {
  pointer_width = PointerWidth.u64;
  base = 4096;
  atoms = fixed_program;
  haystack = image;
}

abbrev fixed_bytes : Bytes
fixed_bytes = 65 ∷ 0 ∷ 64 ∷ []

abbrev fixed_masks : Bytes
fixed_masks = 255 ∷ 0 ∷ 240 ∷ []

valid : valid_for fixed_program fixed_bytes fixed_masks ≡ true
unfolding valid_for valid_loop zero_span
valid = refl

exec-valid_for_example :
    (exec fixed_context 0 []).0
    ≡ (ltb (4096 + 0) word_mod && masked_at image 0 fixed_bytes fixed_masks)
exec-valid_for_example =
    exec-valid_for fixed_context fixed_bytes fixed_masks 0 [] (omega arith) (omega arith) valid

compiled : fixed_compile fixed_program ≡ some (fixed_new fixed_bytes fixed_masks)
unfolding fixed_compile width_loop project_loop
compiled = refl

fixed_compile-valid_for_example :
    (valid_for fixed_program
        (fixed_new fixed_bytes fixed_masks).bytes
        (fixed_new fixed_bytes fixed_masks).masks
      ≡ true)
    × (fixed_new fixed_bytes fixed_masks
        ≡ fixed_new
            (fixed_new fixed_bytes fixed_masks).bytes
            (fixed_new fixed_bytes fixed_masks).masks)
fixed_compile-valid_for_example =
    fixed_compile-valid_for fixed_program (fixed_new fixed_bytes fixed_masks) compiled

masks-bound : All (λ m. m < 256) fixed_masks
masks-bound = (omega arith, (omega arith, (omega arith, tt)))

plan_compile-IsPlan_example : IsPlan fixed_bytes fixed_masks (plan_compile fixed_bytes fixed_masks)
plan_compile-IsPlan_example = plan_compile-IsPlan fixed_bytes fixed_masks masks-bound

-- `(41|4?)`
abbrev source : Bytes
source = 40 ∷ 52 ∷ 49 ∷ 124 ∷ 52 ∷ 63 ∷ 41 ∷ []

source-IsByte : All (λ b. b < 256) source
source-IsByte = (
  omega arith,
  (omega arith, (omega arith, (omega arith, (omega arith, (omega arith, (omega arith, tt)))))),
)

parse_total_example :
    ((e : ParseError) × (parse source ≡ failed e) × (e.offset ≤ length source))
    ⊎ ((a : Atom) × (rest : List Atom) × (p : Parser) × (parse source
          ≡ parsed (Atom.save 0 ∷ a ∷ rest) p)
        × (p.offset ≡ length source)
        × Fits (a ∷ rest))
parse_total_example = parse_total source source-IsByte

capture_len-SlotBelow_example : (capture_len fixed_program ≤ 1) ↔ All (SlotBelow 1) fixed_program
capture_len-SlotBelow_example = capture_len-SlotBelow fixed_program 1

from_static_parts-fixed_parts_example :
    from_static_parts fixed_program
      (emitted_parts (compile fixed_program)).0
      (emitted_parts (compile fixed_program)).1
    ≡ done (compile fixed_program)
from_static_parts-fixed_parts_example =
    from_static_parts-fixed_parts (Atom.save 0)
      (Atom.byte 65 ∷ Atom.skip 1 ∷ Atom.fuzzy 240 ∷ Atom.byte 64 ∷ [])
