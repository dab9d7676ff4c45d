-- ===== src/Pattern/Search/Prefix.antt =====
-- `Scanner::prefix` of ganymede-pattern-core/src/pattern/scan.rs, and what the interpreter reads
-- at the start of a match.
use ganymede.Common.{
  ℕ, zero, suc, ◌+◌, ◌≤◌, ◌<◌, ◌≡◌, refl, List, [], ◌∷◌, Option, true, length, get_elem?, drop,
  arith, All, All-get_elem?, bit_and-255, drop_cons-get_elem?, drop_cons-drop_next, get_elem?-lt,
  Option-cases, Bool-cases, inl, inr,
}
use native.Mathlib.Decide.{dec_le}
use ganymede.Pattern.Atom.{Atom}
use ganymede.Pattern.Read.{Saves}
use ganymede.Pattern.Exec.{
  Context, Exec, Outcome, match_byte, capture, proceed, dispatch, run, exec,
}
use ganymede.Pattern.Exec.Total.{run_step}
use ganymede.Pattern.Fixed.Run.{verdict, exec-verdict}
use ganymede.Pattern.FixedScan.{occurs_at}
use ganymede.Pattern.Search.{prefix_loop, prefix}
use ganymede.Pattern.Search.Filter.{direct}

abbrev pub IsByte : ℕ → Type 0
IsByte b = b < 256

-- The byte of an exact match is a `u8`.
abbrev pub AtomFits : Atom → Type 0
AtomFits (Atom.byte b) = IsByte b
AtomFits _ = Unit

run-zero :
    (c : Context) (x : Exec) (s : Saves) (mask : ℕ) → verdict (run c zero x s mask) ≡ true → ⊥
unfolding run verdict
run-zero c x s mask v = cc

module _ (c : Context) (image : All IsByte c.haystack) where
  -- A match of the rest of the program, from the cursor on, begins with the rest of the prefix.
  Begins : List Atom → ℕ → ℕ → Option Outcome → Type 0
  Begins rest count cursor r =
      verdict r ≡ true → occurs_at c.haystack (prefix_loop count rest) cursor ≡ true

  byte-Begins :
      (rest : List Atom) (fuel count b : ℕ) (x : Exec) (s : Saves)
      → IsByte b
      → x.cursor ≤ length c.haystack
      → ((y : Exec)
          → y.pc ≡ x.pc
          → y.cursor ≤ length c.haystack
          → Begins rest (count + 1) y.cursor (run c fuel y s 255))
      → Begins (Atom.byte b ∷ rest) count x.cursor (dispatch c (run c fuel) (Atom.byte b) x s 255)
  unfolding Begins dispatch match_byte verdict prefix_loop occurs_at
  byte-Begins rest fuel count b x s fits h ih v =
      elim (Option-cases (get_elem? c.haystack x.cursor)) [
        | inl past ↦ ground (arith, past, v)
        | inr (t, found) ↦
            let full = bit_and-255 t (All-get_elem? IsByte c.haystack x.cursor image found) in
            let wanted = bit_and-255 b fits in
            let lt = get_elem?-lt c.haystack x.cursor found in
            ground (arith, found, full, wanted, v, ih (record x { cursor = x.cursor + 1 }) refl)
      ]

  -- A capture atom that matched leaves the cursor and the program counter.
  stay-Begins :
      (fuel : ℕ) (x : Exec) (s : Saves) (a : Atom)
      → ((capture c x s a).exec ≡ x)
      → verdict (proceed (run c fuel) 255 (capture c x s a)) ≡ true
      → (s' : Saves) × (verdict (run c fuel x s' 255) ≡ true)
  unfolding verdict
  stay-Begins fuel x s a same v = (
    (capture c x s a).saves,
    elim (Bool-cases (capture c x s a).valid) [ inl hit ↦ rw (hit, same) at v | inr miss ↦ cc ],
  )

  capture_save : (n : ℕ) (x : Exec) (s : Saves) → (capture c x s (Atom.save n)).exec ≡ x
  unfolding capture
  capture_save n x s = ground arith

  capture-aligned : (n : ℕ) (x : Exec) (s : Saves) → (capture c x s (Atom.aligned n)).exec ≡ x
  unfolding capture
  capture-aligned n x s = ground arith

  prefix_run :
      (rest : List Atom) (fuel count : ℕ) (x : Exec) (s : Saves)
      → All AtomFits rest
      → drop x.pc c.atoms ≡ rest
      → x.cursor ≤ length c.haystack
      → Begins rest count x.cursor (run c fuel x s 255)
  unfolding Begins verdict dispatch prefix_loop occurs_at
  prefix_run rest zero count x s fit d h v = absurd (run-zero c x s 255 v)
  prefix_run [] (suc fuel) count x s fit d h v = ground (arith, h)
  prefix_run (Atom.byte b ∷ rest) (suc fuel) count x s (f, fit) d h v =
      byte-Begins rest fuel count b (record x { pc = x.pc + 1 }) s f h
        (λ y e k.
          prefix_run rest fuel (count + 1) y s fit (rw e (drop_cons-drop_next x.pc c.atoms rest d))
            k)
        (rw (run_step c fuel x s 255 (drop_cons-get_elem? x.pc c.atoms rest d)) at v)
  prefix_run (Atom.save n ∷ rest) (suc fuel) count x s (f, fit) d h v =
      let ran = rw (run_step c fuel x s 255 (drop_cons-get_elem? x.pc c.atoms rest d)) at v in
      let y = record x { pc = x.pc + 1 } in
      let (s', ok) = stay-Begins fuel y s (Atom.save n) (capture_save n y s) ran in
      prefix_run rest fuel count y s' fit (drop_cons-drop_next x.pc c.atoms rest d) h ok
  prefix_run (Atom.aligned n ∷ rest) (suc fuel) count x s (f, fit) d h v =
      let ran = rw (run_step c fuel x s 255 (drop_cons-get_elem? x.pc c.atoms rest d)) at v in
      let y = record x { pc = x.pc + 1 } in
      let (s', ok) = stay-Begins fuel y s (Atom.aligned n) (capture-aligned n y s) ran in
      prefix_run rest fuel count y s' fit (drop_cons-drop_next x.pc c.atoms rest d) h ok
  prefix_run (Atom.nop ∷ rest) (suc fuel) count x s (f, fit) d h v =
      prefix_run rest fuel count (record x { pc = x.pc + 1 }) s fit
        (drop_cons-drop_next x.pc c.atoms rest d) h
        (rw (run_step c fuel x s 255 (drop_cons-get_elem? x.pc c.atoms rest d)) at v)
  prefix_run (a ∷ rest) (suc fuel) count x s fit d h v = ground (arith, h)

  -- On an image of bytes, for a program whose byte atoms are bytes: where direct execution
  -- matches, the position is inside the image or at its end, and the exact prefix of the program
  -- stands there.
  pub direct-prefix :
      (i : ℕ)
      → All AtomFits c.atoms
      → direct c i ≡ true
      → (i ≤ length c.haystack) × (occurs_at c.haystack (prefix c.atoms) i ≡ true)
  unfolding prefix Begins exec
  direct-prefix i fit hit = elim (dec_le i (length c.haystack)) [
    | no past ↦ ground (arith, hit)
    | yes inside ↦ (
      inside,
      prefix_run c.atoms (suc (length c.atoms)) 0 (record { cursor = i; pc = 0 }) [] fit refl inside
          (rw (exec-verdict c i [] inside) at hit),
    )
  ]
