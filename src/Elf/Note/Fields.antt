-- ===== src/Elf/Note/Fields.antt =====
-- `Notes::word` and `Notes::field` of ganymede-elf/src/note.rs.
use ganymede.Common.{
  ℕ, ◌+◌, ◌-◌, ◌≤◌, ◌<◌, ◌≡◌, ◌⊎◌, inl, inr, refl, List, none, some, ◌&&◌, ltb, leb, length, take,
  drop, get_range, checked_add, word_mod, arith, Bool-cases,
}
use ganymede.Common.Result.{Result, ok, err}
use ganymede.Elf.Note.{BuildIdError, malformed_note, from_le_bytes, word, field}
use ganymede.Elf.Note.Alignment.{padded_size, aligned-cases}

-- A read up to an end: of the value there, or malformed where the bytes end before.
abbrev pub Reads : {A : Type 0} → A → List ℕ → ℕ → Result BuildIdError (A × ℕ) → Type 0
Reads value bytes end (err e) = (e ≡ malformed_note) × (length bytes < end)
Reads value bytes end (ok (read, next)) = (read ≡ value) × (next ≡ end) × (end ≤ length bytes)

checked :
    (a b : ℕ) → ((checked_add a b ≡ none) × (word_mod ≤ a + b)) ⊎ (checked_add a b ≡ some (a + b))
checked a b = elim (Bool-cases (ltb (a + b) word_mod)) [
  | inl h ↦ rw h (inr refl)
  | inr h ↦ rw h (inl (refl, ground (arith, h)))
]

ranged :
    (bytes : List ℕ) (a b : ℕ)
    → ((get_range bytes a b ≡ none) × (a ≤ b → length bytes < b))
      ⊎ ((get_range bytes a b ≡ some (take (b - a) (drop a bytes))) × (a ≤ b) × (b ≤ length bytes))
ranged bytes a b = elim (Bool-cases (leb a b && leb b (length bytes))) [
  | inl h ↦ inr (ground (arith, h), ground (arith, h), ground (arith, h))
  | inr h ↦ inl (ground (arith, h), λ order. ground (arith, h, order))
]

-- The word of 32 bits at an offset.
abbrev pub word_at : List ℕ → ℕ → ℕ
word_at bytes offset = from_le_bytes (take 4 (drop offset bytes))

pub word-Reads :
    (bytes : List ℕ) (offset : ℕ)
    → length bytes < word_mod
    → Reads (word_at bytes offset) bytes (offset + 4) (word bytes offset)
unfolding word
word-Reads bytes offset small = elim (checked offset 4) [
  | inl (e, over) ↦ rw e (refl, omega (arith, over, small))
  | inr e ↦ elim (ranged bytes offset (offset + 4)) [
    | inl (f, short) ↦ rw (e, f) (refl, short (omega arith))
    | inr (f, _, fits) ↦
        let four : offset + 4 - offset ≡ 4 = omega arith in rw (e, f, four) (refl, refl, fits)
  ]
]

pub field-Reads :
    (bytes : List ℕ) (offset size : ℕ)
    → length bytes < word_mod
    → Reads
        (take size (drop offset bytes))
        bytes
        (offset + padded_size size)
        (field bytes offset size)
unfolding field
field-Reads bytes offset size small = elim (aligned-cases size) [
  | inl (a, over) ↦ rw a (refl, omega (arith, over, small))
  | inr a ↦ elim (checked offset size) [
    | inl (e, over) ↦ rw (a, e) (refl, omega (arith, over, small))
    | inr e ↦ elim (checked offset (padded_size size)) [
      | inl (p, over) ↦ rw (a, e, p) (refl, omega (arith, over, small))
      | inr p ↦ elim (ranged bytes offset (offset + size)) [
        | inl (f, short) ↦ rw (a, e, p, f) (refl, omega (arith, short (omega arith)))
        | inr (f, _, fits) ↦ elim (ranged bytes (offset + size) (offset + padded_size size)) [
          | inl (g, short) ↦ rw (a, e, p, f, g) (refl, short (omega arith))
          | inr (g, order, inside) ↦
              let all : offset + size - offset ≡ size = omega arith in
              rw (a, e, p, f, g, all) (refl, refl, inside)
        ]
      ]
    ]
  ]
]
