-- ===== src/Pattern/Search.antt =====
-- ganymede-pattern-core/src/pattern/scan.rs: `Scanner` and `Matches`, the candidate searches over
-- one byte image. A function that takes `target_saves` returns the slots after the search.
pub mod Filter
pub mod Prefix
pub mod First
pub mod Projected
pub mod Answers
use ganymede.Common.{
  ℕ, zero, suc, ◌+◌, ◌-◌, List, [], ◌∷◌, Option, none, some, Bool, true, false, not, ltb, leb, ◌==◌,
  if◌then◌else◌, length, get_range, checked_add, saturating_add, min,
}
use ganymede.Common.Checked.{Checked, panic, out_of_fuel, done, and_then}
use mathlib.Core.Option
use ganymede.Pattern.Atom.{Atom, PointerWidth}
use ganymede.Pattern.Read.{Bytes, Saves}
use ganymede.Pattern.Exec.{Context, exec}
use ganymede.Pattern.Vector.{Simd}
use ganymede.Pattern.FixedScan.{Memchr, FixedScanner, scanner_new, fixed_find}
use ganymede.Pattern.Compiled.{Pattern}

pub record Scanner : Type 0 where
  pub pattern : Pattern
  pub fixed : Option FixedScanner
  pub pointer_width : PointerWidth
  pub base : ℕ

unfoldable pub with_base : Pattern → PointerWidth → ℕ → Scanner
with_base pattern width base = record {
  pattern = pattern;
  fixed = Option.map scanner_new pattern.fixed;
  pointer_width = width;
  base = base;
}

abbrev pub context : Scanner → Bytes → Context
context s haystack = record {
  pointer_width = s.pointer_width;
  base = s.base;
  atoms = s.pattern.atoms;
  haystack = haystack;
}

abbrev pub prefix_bytes : ℕ
prefix_bytes = 16

-- The exact bytes that every match begins with, `count` of them found already.
unfoldable pub prefix_loop : ℕ → List Atom → Bytes
prefix_loop count (Atom.byte b ∷ atoms) =
    let rest = prefix_loop (count + 1) atoms in if ltb count prefix_bytes then b ∷ rest else []
prefix_loop count (Atom.save _ ∷ atoms) = prefix_loop count atoms
prefix_loop count (Atom.aligned _ ∷ atoms) = prefix_loop count atoms
prefix_loop count (Atom.nop ∷ atoms) = prefix_loop count atoms
prefix_loop count _ = []

unfoldable pub prefix : List Atom → Bytes
prefix atoms = prefix_loop 0 atoms

abbrev pub Found : Type 0
Found = Option ℕ × Saves

-- The candidate's verdict ends the search, or `onward` goes on with the slots that it left.
abbrev pub try_candidate : Context → ℕ → Saves → (Saves → Checked Found) → Checked Found
try_candidate c candidate saves onward =
    let (valid, saves') = exec c candidate saves in
    elim valid [ true ↦ done (some candidate, saves') | false ↦ onward saves' ]

unfoldable pub brute_loop : Context → ℕ → ℕ → Saves → Checked Found
brute_loop c candidate zero saves = done (none, saves)
brute_loop c candidate (suc count) saves =
    try_candidate c candidate saves (brute_loop c (candidate + 1) count)

module _ (lib : Memchr) (c : Context) where
  unfoldable pub byte_loop : ℕ → ℕ → ℕ → ℕ → Saves → Checked Found
  byte_loop byte end zero next saves = if ltb next end then out_of_fuel else done (none, saves)
  byte_loop byte end (suc fuel) next saves = elim (ltb next end) [
    | false ↦ done (none, saves)
    | true ↦ elim (get_range c.haystack next end) [
      | none ↦ done (none, saves)
      | some slice ↦ elim (lib.memchr byte slice) [
        | none ↦ done (none, saves)
        | some relative ↦ elim (checked_add next relative) [
          | none ↦ done (none, saves)
          | some candidate ↦
              try_candidate c candidate saves (byte_loop byte end fuel (saturating_add candidate 1))
        ]
      ]
    ]
  ]

  -- A candidate before `end` may carry its prefix past `end`, up to `search_end`.
  unfoldable pub prefix_search : Bytes → ℕ → ℕ → ℕ → ℕ → Saves → Checked Found
  prefix_search needle search_end end zero next saves =
      if ltb next end then out_of_fuel else done (none, saves)
  prefix_search needle search_end end (suc fuel) next saves = elim (ltb next end) [
    | false ↦ done (none, saves)
    | true ↦ elim (get_range c.haystack next search_end) [
      | none ↦ done (none, saves)
      | some slice ↦ elim (lib.find slice needle) [
        | none ↦ done (none, saves)
        | some relative ↦ elim (checked_add next relative) [
          | none ↦ done (none, saves)
          | some candidate ↦ elim (leb end candidate) [
            | true ↦ done (none, saves)
            | false ↦
                try_candidate c candidate saves
                  (prefix_search needle search_end end fuel (saturating_add candidate 1))
          ]
        ]
      ]
    ]
  ]

module _ (lib : Memchr) (simd : Simd) where
  unfoldable pub fixed_loop : Context → FixedScanner → ℕ → ℕ → ℕ → Saves → Checked Found
  fixed_loop c f end zero next saves = if ltb next end then out_of_fuel else done (none, saves)
  fixed_loop c f end (suc fuel) next saves = elim (ltb next end) [
    | false ↦ done (none, saves)
    | true ↦ elim (fixed_find lib simd f c.haystack next end) [
      | panic ↦ panic
      | out_of_fuel ↦ out_of_fuel
      | done none ↦ done (none, saves)
      | done (some candidate) ↦
          try_candidate c candidate saves (fixed_loop c f end fuel (saturating_add candidate 1))
    ]
  ]

  -- The search by the length of the exact prefix.
  unfoldable pub find_filtered : Context → Bytes → ℕ → ℕ → Saves → Checked Found
  find_filtered c [] start end saves = brute_loop c start (end - start) saves
  find_filtered c (b ∷ []) start end saves = byte_loop lib c b end (end - start) start saves
  find_filtered c (b ∷ b' ∷ needle) start end saves =
      let extension = length (b ∷ b' ∷ needle) - 1 in
      prefix_search lib c (b ∷ b' ∷ needle) (min (saturating_add end extension) (length c.haystack))
        end (end - start) start saves

  unfoldable pub find_from : Scanner → Bytes → ℕ → ℕ → Saves → Checked Found
  find_from s haystack start end saves =
      if leb end start then done (none, saves) else elim s.fixed [
        | some f ↦ fixed_loop (context s haystack) f end (end - start) start saves
        | none ↦ find_filtered (context s haystack) (prefix s.pattern.atoms) start end saves
      ]

  unfoldable pub find_with_in : Scanner → Bytes → ℕ → ℕ → Saves → Checked Found
  find_with_in s haystack start end saves =
      find_from s haystack start (min end (length haystack)) saves

  unfoldable pub find_with : Scanner → Bytes → Saves → Checked Found
  find_with s haystack saves = find_from s haystack 0 (length haystack) saves

  unfoldable pub find_in : Scanner → Bytes → ℕ → ℕ → Checked (Option ℕ)
  find_in s haystack start end =
      and_then (find_from s haystack start (min end (length haystack)) []) λ r. done r.0

  unfoldable pub find : Scanner → Bytes → Checked (Option ℕ)
  find s haystack = and_then (find_from s haystack 0 (length haystack) []) λ r. done r.0

  abbrev pub none_after : Scanner → Bytes → ℕ → ℕ → Saves → Checked (Bool × Saves)
  none_after s haystack first end saves =
      and_then (find_from s haystack (saturating_add first 1) end [])
        λ second. done (elim second.0 [ none ↦ true | some _ ↦ false ], saves)

  -- The second probe has no slots, so the captures of the first match stay.
  unfoldable pub finds_in : Scanner → Bytes → ℕ → ℕ → Saves → Checked (Bool × Saves)
  finds_in s haystack start end saves =
      let end' = min end (length haystack) in
      and_then (find_from s haystack start end' saves) λ r. elim r.0 [
        | none ↦ done (false, r.1)
        | some first ↦ none_after s haystack first end' r.1
      ]

  unfoldable pub finds : Scanner → Bytes → Saves → Checked (Bool × Saves)
  finds s haystack saves = and_then (find_with s haystack saves) λ r. elim r.0 [
    | none ↦ done (false, r.1)
    | some first ↦ none_after s haystack first (length haystack) r.1
  ]

-- The iterator's own state; its scanner and image do not change.
pub record Matches : Type 0 where
  pub next_offset : ℕ
  pub end_offset : ℕ

unfoldable pub matches_in : Bytes → ℕ → ℕ → Matches
matches_in haystack start end = record {
  next_offset = start;
  end_offset = min end (length haystack);
}

module _ (lib : Memchr) (simd : Simd) (s : Scanner) (haystack : Bytes) where
  unfoldable pub next_with : Matches → Saves → Checked (Option ℕ × Matches × Saves)
  next_with m saves = and_then (find_from lib simd s haystack m.next_offset m.end_offset saves) λ r.
      done (elim r.0 [
        | none ↦ (none, m, r.1)
        | some k ↦ (some k, record m { next_offset = saturating_add k 1 }, r.1)
      ])

  -- `collect` of the iterator.
  unfoldable pub collect : ℕ → Matches → Checked (List ℕ)
  collect zero m = out_of_fuel
  collect (suc fuel) m = and_then (next_with m []) λ r. elim r.0 [
    | none ↦ done []
    | some k ↦ and_then (collect fuel r.1) λ rest. done (k ∷ rest)
  ]
