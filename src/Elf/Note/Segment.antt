-- ===== src/Elf/Note/Segment.antt =====
-- The loop of `GnuBuildId::extract` of ganymede-elf/src/note.rs over the notes of one segment.
use ganymede.Common.{
  ℕ, zero, suc, ◌<◌, ◌≡◌, ◌⊎◌, inl, inr, refl, List, Option, none, some, length, word_mod, arith,
}
use ganymede.Common.Result.{ok, err}
use ganymede.Scan.Foreign.{Run}
use ganymede.Elf.Note.{
  BuildIdError, ambiguous, Next, yielded, ended, spent, failed, next_note, segment_id,
}
use ganymede.Elf.Note.Records.{Advances, next_note-Advances}

module _ (bytes : List ℕ) where
  -- From the offset on stands another identifier.
  abbrev pub HasNext : ℕ → Type 0
  HasNext offset = (d : List ℕ) × (next : ℕ) × Advances bytes offset (yielded d next)

  -- What the loop says from an offset on, after an identifier or none was found before.
  abbrev pub Extracted : Option (List ℕ) → ℕ → Run BuildIdError (Option (List ℕ)) → Type 0
  Extracted found offset none = ⊥
  Extracted none offset (some (ok none)) = Advances bytes offset ended
  Extracted none offset (some (ok (some d))) =
      (next : ℕ) × Advances bytes offset (yielded d next) × Advances bytes next ended
  Extracted none offset (some (err e)) =
      Advances bytes offset (failed e)
      ⊎ ((d : List ℕ) × (next : ℕ) × Advances bytes offset (yielded d next)
          × (Advances bytes next (failed e) ⊎ ((e ≡ ambiguous) × HasNext next)))
  Extracted (some d) offset (some (ok o)) = (o ≡ some d) × Advances bytes offset ended
  Extracted (some d) offset (some (err e)) =
      Advances bytes offset (failed e) ⊎ ((e ≡ ambiguous) × HasNext offset)

  again-Extracted :
      (d : List ℕ) (fuel offset : ℕ)
      → length bytes < word_mod
      → Extracted (some d) offset (segment_id bytes (suc fuel) (some d) offset)
  unfolding segment_id
  again-Extracted d fuel offset small =
      judged (next_note bytes (suc (length bytes)) offset)
        (next_note-Advances bytes (suc (length bytes)) offset small (omega arith))
    where
      judged :
          (o : Next)
          → Advances bytes offset o
          → Extracted (some d) offset (elim o [
            | spent ↦ none
            | ended ↦ some (ok (some d))
            | failed e ↦ some (err e)
            | yielded descriptor next ↦ some (err ambiguous)
          ])
      judged spent (n, end, path, found) = found
      judged ended h = (refl, h)
      judged (failed e) h = inl h
      judged (yielded descriptor next) h = inr (refl, (descriptor, next, h))

  -- In a segment of fewer bytes than a word can count, two rounds are enough for the loop over its notes.
  -- After no identifier, it returns none where only other records stand before the zeros at the end, and
  -- the descriptor of the identifier where one stands; or it fails with the error of the notes before or
  -- after the first identifier, or as ambiguous where a second one stands. After an identifier, it returns
  -- that one where no other stands from the offset on; or it fails with the error of the notes, or as
  -- ambiguous where another stands.
  pub segment_id-Extracted :
      (found : Option (List ℕ)) (fuel offset : ℕ)
      → length bytes < word_mod
      → 1 < fuel
      → Extracted found offset (segment_id bytes fuel found offset)
  unfolding segment_id
  segment_id-Extracted found zero offset small enough = absurd (omega (arith, enough))
  segment_id-Extracted found (suc zero) offset small enough = absurd (omega (arith, enough))
  segment_id-Extracted (some d) (suc (suc fuel)) offset small enough =
      again-Extracted d (suc fuel) offset small
  segment_id-Extracted none (suc (suc fuel)) offset small enough =
      judged (next_note bytes (suc (length bytes)) offset)
        (next_note-Advances bytes (suc (length bytes)) offset small (omega arith))
    where
      first :
          (d : List ℕ) (next : ℕ)
          → Advances bytes offset (yielded d next)
          → (o : Run BuildIdError (Option (List ℕ))) → Extracted (some d) next o
          → Extracted none offset o
      first d next h none bad = bad
      first d next h (some (ok none)) (same, rest) = cc
      first d next h (some (ok (some kept))) (same, rest) =
          let e : d ≡ kept = cc in (next, rw (← e) h, rest)
      first d next h (some (err e)) rest = inr (d, next, h, rest)

      judged :
          (o : Next)
          → Advances bytes offset o
          → Extracted none offset (elim o [
            | spent ↦ none
            | ended ↦ some (ok none)
            | failed e ↦ some (err e)
            | yielded d next ↦ segment_id bytes (suc fuel) (some d) next
          ])
      judged spent (n, end, path, found) = found
      judged ended h = h
      judged (failed e) h = inl h
      judged (yielded d next) h =
          first d next h (segment_id bytes (suc fuel) (some d) next)
            (again-Extracted d fuel next small)
