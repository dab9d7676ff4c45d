-- ===== src/Pattern/Exec/Total.antt =====
-- The rounds, the program counter and the slots of the interpreter of
-- ganymede-pattern-core/src/pattern/scan.rs.
use ganymede.Common.{
  ℕ, zero, suc, ◌+◌, ◌-◌, ◌≤◌, ◌<◌, ◌≡◌, Option, none, some, Bool, true, length, arith, length-set,
  get_elem?, get_elem?-lt, Option-cases, inl, inr,
}
use ganymede.Pattern.Atom.{Atom}
use ganymede.Pattern.Read.{Saves, write, ◌>>=◌}
use ganymede.Pattern.Exec.{
  Context, Exec, Outcome, outcome, move_to, Loop, next, match_byte, read_into, capture_relative,
  capture, break_branch, case, push, many_from, many, retry, proceed, proceed_masked, dispatch, run,
  exec,
}

-- The program counter does not fall, and no capture slot is added or lost.
abbrev pub Keeps : Exec → Saves → Outcome → Type 0
Keeps x s o = (x.pc ≤ o.exec.pc) × (length o.saves ≡ length s)

abbrev pub Ends : Exec → Saves → Option Outcome → Type 0
Ends x s none = ⊥
Ends x s (some o) = Keeps x s o

move_to-Keeps : (x : Exec) (s : Saves) (o : Option ℕ) → Keeps x s (move_to x s o)
move_to-Keeps x s none = omega arith
move_to-Keeps x s (some _) = omega arith

length-write : (s : Saves) (slot v : ℕ) → length (write s slot v) ≡ length s
unfolding write
length-write s slot v = length-set s slot v

Ends-weaken : (x y : Exec) (s : Saves) (o : Option Outcome) → x.pc ≤ y.pc → Ends y s o → Ends x s o
Ends-weaken x y s none h k = k
Ends-weaken x y s (some o) h k = omega arith

retry-Ends :
    (x : Exec) (s : Saves) (o : Option Outcome) (onward : Saves → Option Outcome)
    → Ends x s o
    → ((s' : Saves) → Ends x s' (onward s'))
    → Ends x s (o >>= retry onward)
retry-Ends x s none onward k ih = k
retry-Ends x s (some o) onward k ih = ground (arith, ih o.saves, k)

module _ (c : Context) where
  read_into-Keeps :
      (x : Exec) (s : Saves) (slot n : ℕ) (v : Option ℕ) → Keeps x s (read_into c x s slot n v)
  unfolding read_into
  read_into-Keeps x s slot n none = omega arith
  read_into-Keeps x s slot n (some v) = ground (arith, length-write s slot v)

  capture_relative-Keeps :
      (x : Exec) (s : Saves) (slot : ℕ) → Keeps x s (capture_relative c x s slot)
  unfolding capture_relative
  capture_relative-Keeps x s slot = grind (arith, length-write)

  capture-Keeps : (a : Atom) (x : Exec) (s : Saves) → Keeps x s (capture c x s a)
  unfolding capture
  capture-Keeps (Atom.save slot) x s = grind (arith, length-write)
  capture-Keeps (Atom.check slot) x s = ground arith
  capture-Keeps (Atom.aligned e) x s = ground arith
  capture-Keeps (Atom.read_i8 slot) x s = read_into-Keeps x s slot 1 _
  capture-Keeps (Atom.read_u8 slot) x s = read_into-Keeps x s slot 1 _
  capture-Keeps (Atom.read_i16 slot) x s = read_into-Keeps x s slot 2 _
  capture-Keeps (Atom.read_u16 slot) x s = read_into-Keeps x s slot 2 _
  capture-Keeps (Atom.read_i32 slot) x s = read_into-Keeps x s slot 4 _
  capture-Keeps (Atom.read_u32 slot) x s = read_into-Keeps x s slot 4 _
  capture-Keeps (Atom.read_rel32 slot) x s = capture_relative-Keeps x s slot
  capture-Keeps (Atom.zero_slot slot) x s = ground (arith, length-write s slot 0)
  capture-Keeps _ x s = ground arith

  match_byte-Keeps : (a : Atom) (x : Exec) (m : ℕ) → x.pc ≤ (match_byte c x a m).1.pc
  unfolding match_byte
  match_byte-Keeps (Atom.byte b) x m = ground arith
  match_byte-Keeps (Atom.fuzzy b) x m = ground arith
  match_byte-Keeps _ x m = ground arith

  break_branch-Keeps : (x : Exec) (s : Saves) (n : ℕ) → Keeps x s (break_branch c x s n)
  unfolding break_branch
  break_branch-Keeps x s n = ground arith

  module _ (loop : Loop) (p : ℕ)
      (ends : (x : Exec) (s : Saves) (m : ℕ) → p ≤ x.pc → Ends x s (loop x s m)) where
    proceed-Ends :
        (x : Exec) (s : Saves) (m : ℕ) (o : Outcome)
        → p ≤ x.pc
        → Keeps x s o
        → Ends x s (proceed loop m o)
    proceed-Ends x s m o h k = ground (arith, ends o.exec o.saves m)

    masked-Ends :
        (x : Exec) (s : Saves) (r : Bool × Exec × ℕ)
        → p ≤ x.pc
        → x.pc ≤ r.1.pc
        → Ends x s (proceed_masked loop s r)
    masked-Ends x s (valid, y, m) h k = ground (arith, ends y s m)

    bind-Ends :
        (x : Exec) (s : Saves) (m : ℕ) (o : Option Outcome)
        → p ≤ x.pc
        → Ends x s o
        → Ends x s (o >>= proceed loop m)
    bind-Ends x s m none h k = k
    bind-Ends x s m (some o) h k = proceed-Ends x s m o h k

    case-Ends : (x : Exec) (s : Saves) (n : ℕ) → p ≤ x.pc → Ends x s (case c loop x s n)
    unfolding case
    case-Ends x s n h = grind (arith, ends x s 255 h, break_branch-Keeps)

    push-Ends : (x : Exec) (s : Saves) (n : ℕ) → p ≤ x.pc → Ends x s (push c loop x s n)
    unfolding push
    push-Ends x s n h = ground (arith, ends x s 255 h)

    many_from-Ends :
        (x : Exec) (rounds offset : ℕ) (s : Saves)
        → p ≤ x.pc
        → Ends x s (many_from c loop x rounds offset s)
    unfolding many_from
    many_from-Ends x zero offset s h = omega arith
    many_from-Ends x (suc rounds) offset s h = ground (
      arith,
      retry-Ends x s (loop (record x { cursor = x.cursor + offset }) s 255)
          (many_from c loop x rounds (offset + 1))
          (ends (record x { cursor = x.cursor + offset }) s 255 h)
          (λ s'. many_from-Ends x rounds (offset + 1) s' h),
    )

    many-Ends : (x : Exec) (s : Saves) (n : ℕ) → p ≤ x.pc → Ends x s (many c loop x s n)
    unfolding many
    many-Ends x s n h = many_from-Ends x _ 0 s h

    dispatch-Ends :
        (a : Atom) (x : Exec) (s : Saves) (m : ℕ) → p ≤ x.pc → Ends x s (dispatch c loop a x s m)
    unfolding dispatch
    dispatch-Ends (Atom.byte b) x s m h =
        masked-Ends x s (match_byte c x (Atom.byte b) m) h (match_byte-Keeps (Atom.byte b) x m)
    dispatch-Ends (Atom.fuzzy b) x s m h =
        masked-Ends x s (match_byte c x (Atom.fuzzy b) m) h (match_byte-Keeps (Atom.fuzzy b) x m)
    dispatch-Ends (Atom.push n) x s m h =
        bind-Ends x s 255 (push c loop x s n) h (push-Ends x s n h)
    dispatch-Ends Atom.pop x s m h = omega arith
    dispatch-Ends (Atom.skip n) x s m h = proceed-Ends x s m _ h (move_to-Keeps x s _)
    dispatch-Ends (Atom.back n) x s m h = proceed-Ends x s m _ h (move_to-Keeps x s _)
    dispatch-Ends (Atom.many n) x s m h = many-Ends x s n h
    dispatch-Ends Atom.jump1 x s m h = proceed-Ends x s m _ h (move_to-Keeps x s _)
    dispatch-Ends Atom.jump4 x s m h = proceed-Ends x s m _ h (move_to-Keeps x s _)
    dispatch-Ends Atom.pointer x s m h = proceed-Ends x s m _ h (move_to-Keeps x s _)
    dispatch-Ends (Atom.pir n) x s m h = proceed-Ends x s m _ h (move_to-Keeps x s _)
    dispatch-Ends (Atom.case n) x s m h = bind-Ends x s m (case c loop x s n) h (case-Ends x s n h)
    dispatch-Ends (Atom.break n) x s m h = break_branch-Keeps x s n
    dispatch-Ends Atom.nop x s m h = ends x s m h
    dispatch-Ends a x s m h = proceed-Ends x s m (capture c x s a) h (capture-Keeps a x s)

  -- One round of the loop, where an atom is left and where none is.
  pub run_step :
      (fuel : ℕ) (x : Exec) (s : Saves) (m : ℕ) {a : Atom}
      → get_elem? c.atoms x.pc ≡ some a
      → run c (suc fuel) x s m ≡ dispatch c (run c fuel) a (record x { pc = x.pc + 1 }) s m
  unfolding run next
  run_step fuel x s m e = rw (run, e)

  pub run_end :
      (fuel : ℕ) (x : Exec) (s : Saves) (m : ℕ)
      → get_elem? c.atoms x.pc ≡ none
      → run c (suc fuel) x s m ≡ some (outcome true x s)
  unfolding run next
  run_end fuel x s m e = rw (run, e)

  -- The fuel exceeds the number of atoms that are left.
  run-Ends :
      (fuel : ℕ) (x : Exec) (s : Saves) (m : ℕ)
      → length c.atoms - x.pc < fuel
      → Ends x s (run c fuel x s m)
  unfolding run
  run-Ends zero x s m h = omega arith
  run-Ends (suc fuel) x s m h = elim (Option-cases (get_elem? c.atoms x.pc)) [
    | inl e ↦ rw (run_end fuel x s m e) (omega arith)
    | inr (a, e) ↦ rw (run_step fuel x s m e) (
        Ends-weaken x (record x { pc = x.pc + 1 }) s
          (dispatch c (run c fuel) a (record x { pc = x.pc + 1 }) s m) (omega arith)
          (dispatch-Ends (run c fuel) (x.pc + 1)
            (λ y t k b. run-Ends fuel y t k (omega (arith, get_elem?-lt c.atoms x.pc e))) a
            (record x { pc = x.pc + 1 }) s m (omega arith)))
  ]

  -- From any branch state, with more fuel than there are atoms left, `run` returns an outcome; its
  -- program counter is not below the one it started from, and it has as many capture slots.
  pub run_total :
      (fuel : ℕ) (x : Exec) (s : Saves) (mask : ℕ)
      → length c.atoms - x.pc < fuel
      → (o : Outcome) × (run c fuel x s mask ≡ some o)
        × (x.pc ≤ o.exec.pc)
        × (length o.saves ≡ length s)
  run_total fuel x s mask h = ground (arith, run-Ends fuel x s mask h)

  -- From a start inside the image, or at its end, `exec` answers by a finished run: its verdict
  -- and slots are those of a run from the first atom that used no more rounds than its fuel, and
  -- it has as many slots as it was given.
  pub exec_total :
      (start : ℕ) (s : Saves)
      → start ≤ length c.haystack
      → (o : Outcome) × (run c (suc (length c.atoms)) (record { cursor = start; pc = 0 }) s 255
          ≡ some o)
        × (exec c start s ≡ (o.valid, o.saves))
        × (length o.saves ≡ length s)
  unfolding exec
  exec_total start s h =
      let (o, e, _, k) =
        run_total (suc (length c.atoms)) (record { cursor = start; pc = 0 }) s 255 (omega arith) in
      (o, e, ground arith, k)
