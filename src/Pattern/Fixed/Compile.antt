-- ===== src/Pattern/Fixed/Compile.antt =====
-- `FixedBuf::compile` of ganymede-pattern-core/src/pattern/fixed.rs beside `Fixed::valid_for`,
-- the check of static parts.
use ganymede.Common.{
  ℕ, zero, suc, ◌+◌, ◌≤◌, ◌<◌, ◌≡◌, ◌≢◌, refl, List, [], ◌∷◌, ◌++◌, Option, none, some, Bool, true,
  false, ◌==◌, if◌then◌else◌, length, get_elem?, replicate, bit_and, checked_add, arith,
  length-append, length-replicate, get_elem?-append_left, get_elem?-append_right,
  get_elem?-replicate, ◌∙◌,
}
use native.Mathlib.Nat.{add-zero}
use mathlib.Core.Path.{subst}
use ganymede.Pattern.Atom.{Atom}
use ganymede.Pattern.Read.{Bytes, ◌>>=◌}
use ganymede.Pattern.Fixed.{
  Fixed, fixed_new, starts_with_save, zero_span, valid_loop, valid_for, width_loop, project_loop,
  finish_projection, fixed_compile,
}

-- `later` begins with `first`.
record Extends (first later : Bytes) : Type 0 where
  longer : length first ≤ length later
  same : (i : ℕ) → i < length first → get_elem? later i ≡ get_elem? first i

Extends-refl : (xs : Bytes) → Extends xs xs
Extends-refl xs = record { longer = omega arith; same = λ i h. refl }

Extends-append : (xs ys later : Bytes) → Extends (xs ++ ys) later → Extends xs later
Extends-append xs ys later e = record {
  longer = omega (arith, length-append xs ys, e.longer);
  same = λ i h. e.same i (omega (arith, length-append xs ys)) ∙ get_elem?-append_left xs ys i h;
}

Extends-here :
    (xs ys later : Bytes) (i : ℕ)
    → Extends (xs ++ ys) later
    → i < length ys
    → get_elem? later (length xs + i) ≡ get_elem? ys i
Extends-here xs ys later i e h =
    e.same (length xs + i) (omega (arith, length-append xs ys)) ∙ get_elem?-append_right xs ys i

-- The loop only appends, and to both arrays alike.
abbrev Grows : Bytes → Bytes → Option (Bytes × Bytes × ℕ) → Type 0
Grows bytes masks none = Unit {0}
Grows bytes masks (some (b, m, mask)) = Extends bytes b × Extends masks m × (length b ≡ length m)

Grows-append :
    (bytes masks bs ms : Bytes) (r : Option (Bytes × Bytes × ℕ))
    → Grows (bytes ++ bs) (masks ++ ms) r
    → Grows bytes masks r
Grows-append bytes masks bs ms none g = tt
Grows-append bytes masks bs ms (some (b, m, mask)) (gb, gm, e) =
    (Extends-append bytes bs b gb, Extends-append masks ms m gm, e)

Grows-if :
    (bytes masks : Bytes) (b : Bool) (o : Option ℕ) (r : Option (Bytes × Bytes × ℕ))
    → Grows bytes masks r
    → Grows bytes masks (if b then none else (o >>= λ _. r))
Grows-if bytes masks true o r g = tt
Grows-if bytes masks false none r g = tt
Grows-if bytes masks false (some _) r g = g

project_loop-Grows :
    (atoms : List Atom) (index mask : ℕ) (bytes masks : Bytes)
    → length bytes ≡ length masks
    → Grows bytes masks (project_loop index mask bytes masks atoms)
unfolding project_loop
project_loop-Grows [] index mask bytes masks e = (Extends-refl bytes, Extends-refl masks, e)
project_loop-Grows (Atom.save zero ∷ atoms) index mask bytes masks e =
    ground (arith, project_loop-Grows atoms (index + 1) mask bytes masks e)
project_loop-Grows (Atom.nop ∷ atoms) index mask bytes masks e =
    project_loop-Grows atoms (index + 1) mask bytes masks e
project_loop-Grows (Atom.fuzzy m ∷ atoms) index mask bytes masks e =
    project_loop-Grows atoms (index + 1) m bytes masks e
project_loop-Grows (Atom.byte b ∷ atoms) index mask bytes masks e =
    Grows-append bytes masks (bit_and b mask ∷ []) (mask ∷ []) _ (
      project_loop-Grows atoms (index + 1) 255 (bytes ++ bit_and b mask ∷ []) (masks ++ mask ∷ [])
        (omega (arith, length-append bytes (bit_and b mask ∷ []), length-append masks (mask ∷ []))))
project_loop-Grows (Atom.skip n ∷ atoms) index mask bytes masks e =
    Grows-if bytes masks (n == 0) (checked_add (length bytes) n) _ (
      Grows-append bytes masks (replicate n 0) (replicate n 0) _ (
        project_loop-Grows atoms (index + 1) 255 (bytes ++ replicate n 0) (masks ++ replicate n 0) (
          omega (arith, length-append bytes (replicate n 0), length-append masks (replicate n 0)))))
project_loop-Grows (_ ∷ atoms) index mask bytes masks e = tt

zero_span-intro :
    (bytes masks : Bytes) (n at : ℕ)
    → ((i : ℕ) → i < n → (get_elem? bytes (at + i) ≡ some 0) × (get_elem? masks (at + i) ≡ some 0))
    → zero_span bytes masks at n ≡ true
unfolding zero_span
zero_span-intro bytes masks zero at h = refl
zero_span-intro bytes masks (suc n) at h =
    let here : (get_elem? bytes at ≡ some 0) × (get_elem? masks at ≡ some 0) =
      rw (add-zero at) at (h 0 (omega arith)) in
    ground (
      arith,
      here,
      zero_span-intro bytes masks n (at + 1)
          λ i lt. let e : at + 1 + i ≡ at + suc i = omega arith in rw e (h (suc i) (omega arith)),
    )

Grows-of :
    {bytes masks b m : Bytes} {mask : ℕ} {r : Option (Bytes × Bytes × ℕ)}
    → Grows bytes masks r
    → r ≡ some (b, m, mask)
    → Extends bytes b × Extends masks m × (length b ≡ length m)
Grows-of {bytes} {masks} g p = subst (Grows bytes masks) p g

Extends-next :
    (bytes : Bytes) (x : ℕ) (b : Bytes)
    → Extends (bytes ++ x ∷ []) b
    → get_elem? b (length bytes) ≡ some x
Extends-next bytes x b e =
    rw (add-zero (length bytes)) at (Extends-here bytes (x ∷ []) b 0 e (omega arith))

-- What the rest of the loops found is what `valid_loop` checks.
project_loop-valid_loop :
    (atoms : List Atom) (index mask width total : ℕ) (fuzzy : Bool) (bytes masks b m : Bytes)
    → length bytes ≡ length masks
    → length bytes ≡ width
    → (fuzzy ≡ false → mask ≡ 255)
    → project_loop index mask bytes masks atoms ≡ some (b, m, 255)
    → width_loop index width fuzzy atoms ≡ some total
    → valid_loop b m index (length bytes) mask atoms ≡ true
unfolding project_loop width_loop valid_loop
project_loop-valid_loop [] index mask width total fuzzy bytes masks b m e w k p q = ground arith
project_loop-valid_loop (Atom.save zero ∷ atoms) index mask width total fuzzy bytes masks b m e w k
      p q =
    ground (
      arith,
      project_loop-valid_loop atoms (index + 1) mask width total fuzzy bytes masks b m e w k,
    )
project_loop-valid_loop (Atom.nop ∷ atoms) index mask width total fuzzy bytes masks b m e w k p q =
    project_loop-valid_loop atoms (index + 1) mask width total fuzzy bytes masks b m e w k p q
project_loop-valid_loop (Atom.fuzzy n ∷ atoms) index mask width total fuzzy bytes masks b m e w k p
      q =
    ground (
      arith,
      k,
      project_loop-valid_loop atoms (index + 1) n width total true bytes masks b m e w (λ h. cc) p,
    )
project_loop-valid_loop (Atom.byte n ∷ atoms) index mask width total fuzzy bytes masks b m e w k p
      q =
    let len = length-append bytes (bit_and n mask ∷ []) in
    let len' = length-append masks (mask ∷ []) in
    let p' : project_loop (index + 1) 255 (bytes ++ bit_and n mask ∷ []) (masks ++ mask ∷ []) atoms
        ≡ some (b, m, 255) =
      p in
    let (gb, gm, _) =
      Grows-of
        (project_loop-Grows atoms (index + 1) 255 (bytes ++ bit_and n mask ∷ [])
          (masks ++ mask ∷ []) (omega arith))
        p' in
    let onward : width_loop (index + 1) (width + 1) false atoms ≡ some total = ground arith in
    let rest =
      project_loop-valid_loop atoms (index + 1) 255 (width + 1) total false
        (bytes ++ bit_and n mask ∷ []) (masks ++ mask ∷ []) b m (omega arith) (omega arith)
        (λ _. refl) p onward in
    let next : length (bytes ++ bit_and n mask ∷ []) ≡ length bytes + 1 = omega arith in
    let rest' : valid_loop b m (index + 1) (length bytes + 1) 255 atoms ≡ true = rw next at rest in
    let hb = Extends-next bytes (bit_and n mask) b gb in
    let hm : get_elem? m (length bytes) ≡ some mask = rw e (Extends-next masks mask m gm) in
    ground (arith, hb, hm, rest')
project_loop-valid_loop (Atom.skip n ∷ atoms) index mask width total fuzzy bytes masks b m e w k p
      q =
    let bytes' = bytes ++ replicate n 0 in
    let masks' = masks ++ replicate n 0 in
    let len = length-append bytes (replicate n 0) in
    let len' = length-append masks (replicate n 0) in
    let size : length (replicate {A = ℕ} n 0) ≡ n = length-replicate n 0 in
    let p' : project_loop (index + 1) 255 bytes' masks' atoms ≡ some (b, m, 255) = ground arith in
    let (gb, gm, _) =
      Grows-of (project_loop-Grows atoms (index + 1) 255 bytes' masks' (omega arith)) p' in
    let onward : width_loop (index + 1) (width + n) false atoms ≡ some total = ground arith in
    let unfuzzed : mask ≡ 255 = ground (arith, k) in
    let rest =
      project_loop-valid_loop atoms (index + 1) 255 (width + n) total false bytes' masks' b m
        (omega arith) (omega arith) (λ _. refl) p' onward in
    let next : length bytes' ≡ length bytes + n = omega arith in
    let rest' : valid_loop b m (index + 1) (length bytes + n) 255 atoms ≡ true = rw next at rest in
    let span : zero_span b m (length bytes) n ≡ true = zero_span-intro b m n (length bytes) (λ i lt.
      (
        Extends-here bytes (replicate n 0) b i gb (omega arith) ∙ get_elem?-replicate n 0 i lt,
        rw e (
            Extends-here masks (replicate n 0) m i gm (omega arith) ∙ get_elem?-replicate n 0 i lt),
      )) in
    ground (arith, Extends.longer gb, span, rest', unfuzzed)
project_loop-valid_loop (_ ∷ atoms) index mask width total fuzzy bytes masks b m e w k p q = cc

finish_projection-inv :
    (r : Bytes × Bytes × ℕ) (f : Fixed)
    → finish_projection r ≡ some f
    → (r ≡ (f.bytes, f.masks, 255)) × (length f.bytes ≢ 0) × (f ≡ fixed_new f.bytes f.masks)
unfolding fixed_new
finish_projection-inv (b, m, mask) f h = ground arith

fixed_compile-inv :
    (atoms : List Atom) (f : Fixed)
    → fixed_compile atoms ≡ some f
    → (starts_with_save atoms ≡ true)
      × ((total : ℕ) × (width_loop 0 0 false atoms ≡ some total))
      × ((r : Bytes × Bytes × ℕ) × (project_loop 0 255 [] [] atoms ≡ some r)
          × (finish_projection r ≡ some f))
unfolding fixed_compile
fixed_compile-inv atoms f h =
    let saved : starts_with_save atoms ≡ true = ground arith in (saved, ground arith, ground arith)

-- The projection that `FixedBuf::compile` derives from an atom stream passes `Fixed::valid_for` on
-- that stream, and its plan is the one that `Fixed::new` derives again from its bytes and masks.
pub fixed_compile-valid_for :
    (atoms : List Atom) (f : Fixed)
    → fixed_compile atoms ≡ some f
    → (valid_for atoms f.bytes f.masks ≡ true) × (f ≡ fixed_new f.bytes f.masks)
unfolding valid_for
fixed_compile-valid_for atoms f h =
    let (saved, (total, w), (r, p, q)) = fixed_compile-inv atoms f h in
    let (e, nonempty, planned) = finish_projection-inv r f q in
    let p' : project_loop 0 255 [] [] atoms ≡ some (f.bytes, f.masks, 255) = rw (← e) p in
    let (_, _, same) = Grows-of (project_loop-Grows atoms 0 255 [] [] refl) p' in
    let loop : valid_loop f.bytes f.masks 0 0 255 atoms ≡ true =
      project_loop-valid_loop atoms 0 255 0 total false [] [] f.bytes f.masks refl refl (λ _. refl)
        p' w in
    (ground arith, planned)
