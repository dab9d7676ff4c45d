-- ===== src/Pattern/Fixed/Run.antt =====
-- The interpreter of ganymede-pattern-core/src/pattern/scan.rs on an atom stream that
-- `Fixed::valid_for` accepts, beside the byte by byte comparison with the projection.
use ganymede.Common.{
  ℕ, zero, suc, ◌+◌, ◌≤◌, ◌<◌, ◌≡◌, refl, ◌∙◌, sym, List, [], ◌∷◌, Option, none, some, Bool, true,
  false, ◌&&◌, leb, ltb, ◌==◌, ==_iff, length, get_elem?, drop, bit_and, bit_xor, word_mod,
  Bool_ext, Option-cases, inl, inr, arith, bit_xor_masked, bit_and_twice, bit_and-zero, drop-eq-nil,
  drop-eq-cons, drop_nil-get_elem?, drop_cons-get_elem?, drop_cons-drop_next, get_elem?-lt,
  get_elem?-some,
}
use native.Mathlib.Nat.{add-zero}
use ganymede.Pattern.Atom.{Atom}
use ganymede.Pattern.Read.{Bytes, Saves, movement, absolute, write}
use ganymede.Pattern.Exec.{
  Context, Exec, Outcome, match_byte, move_cursor, capture, dispatch, run, exec,
}
use ganymede.Pattern.Exec.Total.{run_step, run_end}
use ganymede.Pattern.Fixed.{starts_with_save, zero_span, byte_agrees, valid_loop, valid_for}

abbrev pub byte_ok : Option ℕ → ℕ → ℕ → Bool
byte_ok none b m = false
byte_ok (some t) b m = bit_and (bit_xor t b) m == 0

-- The image holds, from the cursor on, one byte for each pattern byte, equal to it under its mask.
unfoldable pub masked_at : Bytes → ℕ → Bytes → Bytes → Bool
masked_at haystack cursor (b ∷ bytes) (m ∷ masks) =
    byte_ok (get_elem? haystack cursor) b m && masked_at haystack (cursor + 1) bytes masks
masked_at haystack cursor _ _ = true

-- Comparing `t` with a stored byte under its mask is comparing it with the atom's byte.
pub byte_test :
    (t b m : ℕ) → (bit_and t m == bit_and b m) ≡ (bit_and (bit_xor t (bit_and b m)) m == 0)
byte_test t b m =
    Bool_ext _ _
      (λ e.
        (==_iff _ _).1
          ((bit_xor_masked t (bit_and b m) m).1 ((==_iff _ _).0 e ∙ sym (bit_and_twice b m))))
      (λ e.
        (==_iff _ _).1
          ((bit_xor_masked t (bit_and b m) m).0 ((==_iff _ _).0 e) ∙ bit_and_twice b m))

unfoldable pub verdict : Option Outcome → Bool
verdict none = false
verdict (some o) = o.valid

module _ (haystack : Bytes) (bytes masks : Bytes) where
  masked_at_step :
      (cursor at : ℕ) {b m : ℕ}
      → get_elem? bytes at ≡ some b
      → get_elem? masks at ≡ some m
      → masked_at haystack cursor (drop at bytes) (drop at masks)
        ≡ byte_ok (get_elem? haystack cursor) b m
          && masked_at haystack (cursor + 1) (drop (at + 1) bytes) (drop (at + 1) masks)
  unfolding masked_at
  masked_at_step cursor at hb hm = rw (drop-eq-cons at bytes hb, drop-eq-cons at masks hm) refl

  zero_span-inv :
      (at n : ℕ)
      → zero_span bytes masks at (suc n) ≡ true
      → (get_elem? bytes at ≡ some 0)
        × (get_elem? masks at ≡ some 0)
        × (zero_span bytes masks (at + 1) n ≡ true)
  unfolding zero_span
  zero_span-inv at n z = ground arith

  -- A span of zeros constrains only the length of the image.
  masked_at-zero_span :
      (n cursor at : ℕ)
      → cursor ≤ length haystack
      → zero_span bytes masks at n ≡ true
      → masked_at haystack cursor (drop at bytes) (drop at masks)
        ≡ leb (cursor + n) (length haystack)
          && masked_at haystack (cursor + n) (drop (at + n) bytes) (drop (at + n) masks)
  masked_at-zero_span zero cursor at h z = rw (add-zero cursor, add-zero at) (ground arith)
  masked_at-zero_span (suc n) cursor at h z =
      let (hb, hm, z') = zero_span-inv at n z in
      let e : cursor + suc n ≡ cursor + 1 + n = omega arith in
      let e' : at + suc n ≡ at + 1 + n = omega arith in
      elim (Option-cases (get_elem? haystack cursor)) [
        | inl past ↦
            rw (masked_at_step cursor at hb hm, past)
              (ground (arith, get_elem?-some haystack cursor))
        | inr (t, found) ↦
            rw (masked_at_step cursor at hb hm, found, bit_and-zero, e, e')
              (masked_at-zero_span n (cursor + 1) (at + 1)
                (omega (arith, get_elem?-lt haystack cursor found)) z')
      ]

module _ (c : Context) (bytes masks : Bytes) (short : length c.haystack < word_mod) where
  -- What the interpreter and the projection say of the rest of the program.
  Agrees : ℕ → Exec → Saves → ℕ → ℕ → Type 0
  Agrees fuel x s at mask =
      verdict (run c fuel x s mask) ≡ masked_at c.haystack x.cursor (drop at bytes) (drop at masks)

  byte_agrees-inv :
      (at b mask : ℕ)
      → byte_agrees bytes masks at b mask ≡ true
      → (get_elem? bytes at ≡ some (bit_and b mask)) × (get_elem? masks at ≡ some mask)
  byte_agrees-inv at b mask h = ground arith

  byte-Agrees :
      (fuel at b mask : ℕ) (x : Exec) (s : Saves)
      → byte_agrees bytes masks at b mask ≡ true
      → ((y : Exec) → y.pc ≡ x.pc → y.cursor ≤ length c.haystack → Agrees fuel y s (at + 1) 255)
      → verdict (dispatch c (run c fuel) (Atom.byte b) x s mask)
        ≡ masked_at c.haystack x.cursor (drop at bytes) (drop at masks)
  unfolding Agrees dispatch match_byte verdict
  byte-Agrees fuel at b mask x s ok ih =
      let (hb, hm) = byte_agrees-inv at b mask ok in
      let onward = ih (record x { cursor = x.cursor + 1 }) refl in
      elim (Option-cases (get_elem? c.haystack x.cursor)) [
        | inl past ↦
            rw (masked_at_step c.haystack bytes masks x.cursor at hb hm, past)
              (ground (arith, past))
        | inr (t, found) ↦
            rw
              (masked_at_step c.haystack bytes masks x.cursor at hb hm, found, ← byte_test t b mask)
              (ground (arith, found, get_elem?-lt c.haystack x.cursor found, onward))
      ]

  skip-Agrees :
      (fuel at n mask : ℕ) (x : Exec) (s : Saves)
      → 0 < n
      → x.cursor ≤ length c.haystack
      → zero_span bytes masks at n ≡ true
      → ((y : Exec) → y.pc ≡ x.pc → y.cursor ≤ length c.haystack → Agrees fuel y s (at + n) mask)
      → verdict (dispatch c (run c fuel) (Atom.skip n) x s mask)
        ≡ masked_at c.haystack x.cursor (drop at bytes) (drop at masks)
  unfolding Agrees dispatch move_cursor movement verdict
  skip-Agrees fuel at zero mask x s pos h z ih = absurd (omega arith)
  skip-Agrees fuel at (suc n) mask x s pos h z ih =
      rw (masked_at-zero_span c.haystack bytes masks (suc n) x.cursor at h z)
        (ground (arith, ih (record x { cursor = x.cursor + suc n }) refl))

  linear_run :
      (rest : List Atom) (fuel index at mask : ℕ) (x : Exec) (s : Saves)
      → 0 < index
      → length rest < fuel
      → drop x.pc c.atoms ≡ rest
      → x.cursor ≤ length c.haystack
      → valid_loop bytes masks index at mask rest ≡ true
      → Agrees fuel x s at mask
  unfolding Agrees valid_loop dispatch match_byte masked_at verdict
  linear_run [] zero index at mask x s i f d h v = absurd (omega arith)
  linear_run (a ∷ rest) zero index at mask x s i f d h v = absurd (omega arith)
  linear_run [] (suc fuel) index at mask x s i f d h v =
      rw
        (
          run_end c fuel x s mask (drop_nil-get_elem? x.pc c.atoms d),
          drop-eq-nil at bytes (ground arith),
        )
        refl
  linear_run (Atom.nop ∷ rest) (suc fuel) index at mask x s i f d h v =
      rw (run_step c fuel x s mask (drop_cons-get_elem? x.pc c.atoms rest d)) (
        linear_run rest fuel (index + 1) at mask (record x { pc = x.pc + 1 }) s (omega arith)
          (omega arith) (drop_cons-drop_next x.pc c.atoms rest d) h v)
  linear_run (Atom.fuzzy m ∷ rest) (suc fuel) index at mask x s i f d h v =
      rw (run_step c fuel x s mask (drop_cons-get_elem? x.pc c.atoms rest d)) (
        linear_run rest fuel (index + 1) at m (record x { pc = x.pc + 1 }) s (omega arith)
          (omega arith) (drop_cons-drop_next x.pc c.atoms rest d) h (ground arith))
  linear_run (Atom.byte b ∷ rest) (suc fuel) index at mask x s i f d h v =
      rw (run_step c fuel x s mask (drop_cons-get_elem? x.pc c.atoms rest d)) (
        byte-Agrees fuel at b mask (record x { pc = x.pc + 1 }) s (ground arith)
          λ y e k.
            linear_run rest fuel (index + 1) (at + 1) 255 y s (omega arith) (omega arith)
              (rw e (drop_cons-drop_next x.pc c.atoms rest d)) k (ground arith))
  linear_run (Atom.skip n ∷ rest) (suc fuel) index at mask x s i f d h v =
      rw (run_step c fuel x s mask (drop_cons-get_elem? x.pc c.atoms rest d)) (
        skip-Agrees fuel at n mask (record x { pc = x.pc + 1 }) s (ground arith) h (ground arith)
          λ y e k.
            linear_run rest fuel (index + 1) (at + n) mask y s (omega arith) (omega arith)
              (rw e (drop_cons-drop_next x.pc c.atoms rest d)) k (ground arith))
  linear_run (Atom.save zero ∷ rest) (suc fuel) index at mask x s i f d h v = ground arith
  linear_run (_ ∷ rest) (suc fuel) index at mask x s i f d h v = cc

starts_with_save-inv :
    (atoms : List Atom)
    → starts_with_save atoms ≡ true
    → (rest : List Atom) × (atoms ≡ Atom.save 0 ∷ rest)
starts_with_save-inv [] h = cc
starts_with_save-inv (Atom.save zero ∷ rest) h = (rest, refl)
starts_with_save-inv (_ ∷ rest) h = cc

pub exec-verdict :
    (c : Context) (start : ℕ) (s : Saves)
    → start ≤ length c.haystack
    → (exec c start s).0
      ≡ verdict (run c (suc (length c.atoms)) (record { cursor = start; pc = 0 }) s 255)
unfolding exec verdict
exec-verdict c start s h = ground arith

saved_run :
    (c : Context) (bytes masks : Bytes)
    → length c.haystack < word_mod
    → (rest : List Atom) (start : ℕ) (s : Saves) → c.atoms ≡ Atom.save 0 ∷ rest
    → start ≤ length c.haystack
    → valid_loop bytes masks 0 0 255 (Atom.save 0 ∷ rest) ≡ true
    → verdict (run c (suc (length c.atoms)) (record { cursor = start; pc = 0 }) s 255)
      ≡ (ltb (c.base + start) word_mod && masked_at c.haystack start bytes masks)
unfolding dispatch capture absolute verdict valid_loop Agrees
saved_run c bytes masks short rest start s e h v =
    rw
      (run_step c (length c.atoms) (record { cursor = start; pc = 0 }) s 255 {a = Atom.save 0}
        (rw e))
      (ground (
        arith,
        linear_run c bytes masks short rest (length c.atoms) 1 0 255
            (record { cursor = start; pc = 1 }) (write s 0 (c.base + start)) (omega arith)
            (rw e (omega arith)) (rw e) h v,
      ))

-- On an image shorter than 2 ^ 64 and an atom stream that `valid_for` accepts for some bytes and
-- masks, the interpreter started at an offset of the image matches exactly when the image holds,
-- from there on, one byte for each pattern byte that agrees with it under its mask, and the offset
-- has a virtual address.
pub exec-valid_for :
    (c : Context) (bytes masks : Bytes) (start : ℕ) (s : Saves)
    → length c.haystack < word_mod
    → start ≤ length c.haystack
    → valid_for c.atoms bytes masks ≡ true
    → (exec c start s).0 ≡ (ltb (c.base + start) word_mod && masked_at c.haystack start bytes masks)
unfolding valid_for
exec-valid_for c bytes masks start s short h v =
    let (rest, e) = starts_with_save-inv c.atoms (ground arith) in
    let loop_valid : valid_loop bytes masks 0 0 255 c.atoms ≡ true = ground arith in
    rw (exec-verdict c start s h)
      (saved_run c bytes masks short rest start s e h (rw e at loop_valid))
