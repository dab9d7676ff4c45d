-- ===== src/Pattern/Exec.antt =====
-- ganymede-pattern-core/src/pattern/scan.rs: `Exec` and the interpreter `run` with its helpers.
-- `Context` holds what no branch changes: the program, the image, and the two fields of the
-- scanner that the interpreter reads. A helper that calls `run` takes it as the argument `loop`.
pub mod Total
use mathlib.Core.Option
use ganymede.Common.{
  ℕ, zero, suc, ◌+◌, ◌-◌, ◌^◌, ◌%◌, min, List, Option, none, some, Bool, true, false, ltb, leb,
  ◌==◌, if◌then◌else◌, length, get_elem?, checked_add, checked_sub, bit_and, cast_unsigned, signed,
}
use ganymede.Pattern.Atom.{Atom, PointerWidth}
use ganymede.Pattern.Read.{
  Bytes, Saves, ◌>>=◌, read_i16, read_u16, read_i32, read_u32, read_pointer, relative, absolute,
  offset_of, movement, write,
}

pub record Context : Type 0 where
  pub pointer_width : PointerWidth
  pub base : ℕ
  pub atoms : List Atom
  pub haystack : Bytes

pub record Exec : Type 0 where
  pub cursor : ℕ
  pub pc : ℕ

-- What a step or a run returns: the verdict, with the branch state and the capture slots after it.
pub record Outcome : Type 0 where
  pub valid : Bool
  pub exec : Exec
  pub saves : Saves

abbrev pub outcome : Bool → Exec → Saves → Outcome
outcome valid x s = record { valid = valid; exec = x; saves = s }

-- The cursor set to a checked position, or a mismatch.
abbrev pub move_to : Exec → Saves → Option ℕ → Outcome
move_to x s none = outcome false x s
move_to x s (some cursor) = outcome true (record x { cursor = cursor }) s

-- `run` at a smaller fuel: from a branch state, capture slots and a byte mask.
abbrev pub Loop : Type 0
Loop = Exec → Saves → ℕ → Option Outcome

-- The loop goes on after a step that matched.
abbrev pub proceed : Loop → ℕ → Outcome → Option Outcome
proceed loop mask o = elim o.valid [ true ↦ loop o.exec o.saves mask | false ↦ some o ]

abbrev pub proceed_masked : Loop → Saves → Bool × Exec × ℕ → Option Outcome
proceed_masked loop s (valid, x, mask) = proceed loop mask (outcome valid x s)

-- The first offset whose branch matches ends the loop of `many`; captures are kept in between.
abbrev pub retry : (Saves → Option Outcome) → Outcome → Option Outcome
retry onward branch = elim branch.valid [ true ↦ some branch | false ↦ onward branch.saves ]

-- `1u64.checked_shl(exponent)`
abbrev pub checked_shl_one : ℕ → Option ℕ
checked_shl_one exponent = if ltb exponent 64 then some (2 ^ exponent) else none

module _ (c : Context) where
  unfoldable pub next : Exec → Option (Atom × Exec)
  next x = do atom ← get_elem? c.atoms x.pc; some (atom, record x { pc = x.pc + 1 })

  -- The verdict, the branch state and the mask for the next byte.
  unfoldable pub match_byte : Exec → Atom → ℕ → Bool × Exec × ℕ
  match_byte x (Atom.byte expected) mask = elim (get_elem? c.haystack x.cursor) [
    | none ↦ (false, x, mask)
    | some found ↦
        if bit_and found mask == bit_and expected mask
        then elim (checked_add x.cursor 1) [
          | none ↦ (false, x, 255)
          | some cursor ↦ (true, record x { cursor = cursor }, 255)
        ]
        else (false, x, mask)
  ]
  match_byte x (Atom.fuzzy next_mask) mask = (true, x, next_mask)
  match_byte x _ mask = (false, x, mask)

  unfoldable pub move_cursor : Exec → Atom → Option ℕ
  move_cursor x (Atom.skip n) = do
    cursor ← checked_add x.cursor (movement c.pointer_width n)
    if leb cursor (length c.haystack) then some cursor else none
  move_cursor x (Atom.back n) = do
    cursor ← checked_sub x.cursor (movement c.pointer_width n)
    if leb cursor (length c.haystack) then some cursor else none
  move_cursor x _ = none

  unfoldable pub follow_target : Exec → Saves → Atom → Option ℕ
  follow_target x s Atom.jump1 = do
    byte ← get_elem? c.haystack x.cursor
    resume ← checked_add x.cursor 1
    relative resume (signed 128 byte)
  follow_target x s Atom.jump4 = do
    displacement ← read_i32 c.haystack x.cursor
    resume ← checked_add x.cursor 4
    relative resume displacement
  follow_target x s Atom.pointer = do
    address ← read_pointer c.pointer_width c.haystack x.cursor
    offset_of c.base address (length c.haystack)
  follow_target x s (Atom.pir slot) = do
    displacement ← read_i32 c.haystack x.cursor
    current ← absolute c.base x.cursor
    target ← relative (Option.get_or (get_elem? s slot) current) displacement
    offset_of c.base target (length c.haystack)
  follow_target x s _ = none

  unfoldable pub follow : Exec → Saves → Atom → Option ℕ
  follow x s atom = do
    cursor ← follow_target x s atom
    if leb cursor (length c.haystack) then some cursor else none

  -- An integer read of `n` bytes: the value is stored before the cursor moves.
  unfoldable pub read_into : Exec → Saves → ℕ → ℕ → Option ℕ → Outcome
  read_into x s slot n none = outcome false x s
  read_into x s slot n (some value) = move_to x (write s slot value) (checked_add x.cursor n)

  unfoldable pub capture_relative : Exec → Saves → ℕ → Outcome
  capture_relative x s slot =
      let resolved : Option (ℕ × ℕ) = do
        displacement ← read_i32 c.haystack x.cursor
        resume_offset ← checked_add x.cursor 4
        resume ← absolute c.base resume_offset
        value ← relative resume displacement
        some (resume_offset, value)
      in elim resolved [
        | none ↦ outcome false x s
        | some (resume_offset, value) ↦
            outcome true (record x { cursor = resume_offset }) (write s slot value)
      ]

  -- The seven atoms that read an integer, `Save`, `Check`, `Aligned` and `Zero`.
  unfoldable pub capture : Exec → Saves → Atom → Outcome
  capture x s (Atom.save slot) = elim (absolute c.base x.cursor) [
    | none ↦ outcome false x s
    | some value ↦ outcome true x (write s slot value)
  ]
  capture x s (Atom.check slot) = elim (get_elem? s slot) [
    | none ↦ outcome true x s
    | some saved ↦ elim (absolute c.base x.cursor) [
      | none ↦ outcome false x s
      | some current ↦ outcome (saved == current) x s
    ]
  ]
  capture x s (Atom.aligned exponent) = elim (checked_shl_one exponent) [
    | none ↦ outcome false x s
    | some alignment ↦ elim (absolute c.base x.cursor) [
      | none ↦ outcome false x s
      | some current ↦ outcome (current % alignment == 0) x s
    ]
  ]
  capture x s (Atom.read_i8 slot) =
      read_into x s slot 1
        (Option.map (λ b. cast_unsigned (signed 128 b)) (get_elem? c.haystack x.cursor))
  capture x s (Atom.read_u8 slot) = read_into x s slot 1 (get_elem? c.haystack x.cursor)
  capture x s (Atom.read_i16 slot) =
      read_into x s slot 2 (Option.map cast_unsigned (read_i16 c.haystack x.cursor))
  capture x s (Atom.read_u16 slot) = read_into x s slot 2 (read_u16 c.haystack x.cursor)
  capture x s (Atom.read_i32 slot) =
      read_into x s slot 4 (Option.map cast_unsigned (read_i32 c.haystack x.cursor))
  capture x s (Atom.read_u32 slot) = read_into x s slot 4 (read_u32 c.haystack x.cursor)
  capture x s (Atom.read_rel32 slot) = capture_relative x s slot
  capture x s (Atom.zero_slot slot) = outcome true x (write s slot 0)
  capture x s _ = outcome false x s

  unfoldable pub break_branch : Exec → Saves → ℕ → Outcome
  break_branch x s n = elim (checked_add x.pc n) [
    | none ↦ outcome false x s
    | some pc ↦
        if leb pc (length c.atoms) then outcome true (record x { pc = pc }) s else outcome false x s
  ]

  -- A failed first branch leaves its captures; the sibling starts at the same cursor.
  unfoldable pub case : Loop → Exec → Saves → ℕ → Option Outcome
  case loop x s n = do
    branch ← loop x s 255
    if branch.valid then some branch else some (break_branch x branch.saves n)

  unfoldable pub push : Loop → Exec → Saves → ℕ → Option Outcome
  push loop x s n = elim (checked_add x.cursor (movement c.pointer_width n)) [
    | none ↦ some (outcome false x s)
    | some resume ↦ do
      nested ← loop x s 255
      some (
          if nested.valid
          then outcome true (record { cursor = resume; pc = nested.exec.pc }) nested.saves
          else outcome false x nested.saves)
  ]

  -- The loop of `many`: `rounds` offsets are left to try, the next one at `offset`.
  unfoldable pub many_from : Loop → Exec → ℕ → ℕ → Saves → Option Outcome
  many_from loop x zero offset s = some (outcome false x s)
  many_from loop x (suc rounds) offset s = elim (checked_add x.cursor offset) [
    | none ↦ some (outcome false x s)
    | some cursor ↦
        loop (record x { cursor = cursor }) s 255 >>= retry (many_from loop x rounds (offset + 1))
  ]

  abbrev pub extent : Exec → ℕ → ℕ
  extent x limit =
      let available = length c.haystack - x.cursor in
      if limit == 0 then available else min limit available

  unfoldable pub many : Loop → Exec → Saves → ℕ → Option Outcome
  many loop x s limit = many_from loop x (extent x limit) 0 s

  -- One round of `run` after `next`; the last argument is the current mask.
  unfoldable pub dispatch : Loop → Atom → Exec → Saves → ℕ → Option Outcome
  dispatch loop (Atom.byte b) x s mask = proceed_masked loop s (match_byte x (Atom.byte b) mask)
  dispatch loop (Atom.fuzzy m) x s mask = proceed_masked loop s (match_byte x (Atom.fuzzy m) mask)
  dispatch loop (Atom.push n) x s mask = do o ← push loop x s n; proceed loop 255 o
  dispatch loop Atom.pop x s mask = some (outcome true x s)
  dispatch loop (Atom.skip n) x s mask =
      proceed loop mask (move_to x s (move_cursor x (Atom.skip n)))
  dispatch loop (Atom.back n) x s mask =
      proceed loop mask (move_to x s (move_cursor x (Atom.back n)))
  dispatch loop (Atom.many limit) x s mask = many loop x s limit
  dispatch loop Atom.jump1 x s mask = proceed loop mask (move_to x s (follow x s Atom.jump1))
  dispatch loop Atom.jump4 x s mask = proceed loop mask (move_to x s (follow x s Atom.jump4))
  dispatch loop Atom.pointer x s mask = proceed loop mask (move_to x s (follow x s Atom.pointer))
  dispatch loop (Atom.pir n) x s mask = proceed loop mask (move_to x s (follow x s (Atom.pir n)))
  dispatch loop (Atom.case n) x s mask = do o ← case loop x s n; proceed loop mask o
  dispatch loop (Atom.break n) x s mask = some (break_branch x s n)
  dispatch loop Atom.nop x s mask = loop x s mask
  dispatch loop atom x s mask = proceed loop mask (capture x s atom)

  unfoldable pub run : ℕ → Loop
  run zero x s mask = none
  run (suc fuel) x s mask = elim (next x) [
    | none ↦ some (outcome true x s)
    | some (atom, x') ↦ dispatch (run fuel) atom x' s mask
  ]

  -- Each atom is passed at most once on a branch, so one round more than there are atoms is enough.
  unfoldable pub exec : ℕ → Saves → Bool × Saves
  exec start s =
      if ltb (length c.haystack) start
      then (false, s)
      else elim (run (suc (length c.atoms)) (record { cursor = start; pc = 0 }) s 255) [
        | none ↦ (false, s)
        | some o ↦ (o.valid, o.saves)
      ]
