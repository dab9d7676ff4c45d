-- ===== src/Elf/Note/Records.antt =====
-- `Notes::next` of ganymede-elf/src/note.rs.
use ganymede.Common.{
  ℕ, zero, suc, ◌+◌, ◌-◌, ◌≤◌, ◌<◌, ◌≡◌, ◌≢◌, inl, inr, refl, List, [], ◌∷◌, Option, none, some,
  true, false, not, ◌||◌, ltb, ◌==◌, length, take, drop, word_mod, arith, if_split, All, ap,
  Bool-cases,
}
use ganymede.Common.Result.{Result, ok, err, try_then}
use ganymede.Common.Sort.{is_empty, Any}
use ganymede.Text.{bytes_eq}
use ganymede.Text.Basename.{bytes_eq_lem}
use ganymede.Elf.Note.{
  gnu_name, BuildIdError, access, fault, unavailable, address_overflow, malformed_note,
  empty_build_id, missing, ambiguous, word, strip_zero, judge, record_at, all_zero, at_end, Next,
  yielded, ended, spent, failed, next_note,
}
use ganymede.Elf.Note.Alignment.{padded_size}
use ganymede.Elf.Note.Fields.{Reads, word_at, word-Reads, field-Reads}

module _ (bytes : List ℕ) where
  -- The parts of the record at an offset: three words, the name, and the descriptor, the last two padded.
  abbrev pub type_at : ℕ → ℕ
  type_at offset = word_at bytes (offset + 8)

  abbrev pub name_at : ℕ → List ℕ
  name_at offset = take (word_at bytes offset) (drop (offset + 12) bytes)

  abbrev pub name_end : ℕ → ℕ
  name_end offset = offset + 12 + padded_size (word_at bytes offset)

  abbrev pub descriptor_at : ℕ → List ℕ
  descriptor_at offset = take (word_at bytes (offset + 4)) (drop (name_end offset) bytes)

  abbrev pub record_end : ℕ → ℕ
  record_end offset = name_end offset + padded_size (word_at bytes (offset + 4))

  -- The record is of type 3, and its name is GNU, but for a zero after it.
  abbrev pub IsIdentifier : ℕ → Type 0
  IsIdentifier offset = (type_at offset ≡ 3) × (strip_zero (name_at offset) ≡ gnu_name)

  abbrev pub IsRecordError : ℕ → BuildIdError → Type 0
  IsRecordError offset (access e) = ⊥
  IsRecordError offset (fault a) = ⊥
  IsRecordError offset (unavailable a) = ⊥
  IsRecordError offset address_overflow = ⊥
  IsRecordError offset malformed_note = length bytes < record_end offset
  IsRecordError offset empty_build_id =
      (record_end offset ≤ length bytes) × IsIdentifier offset × (descriptor_at offset ≡ [])
  IsRecordError offset missing = ⊥
  IsRecordError offset ambiguous = ⊥

  abbrev Recorded : ℕ → Result BuildIdError (Option (List ℕ) × ℕ) → Type 0
  Recorded offset (err e) = IsRecordError offset e
  Recorded offset (ok (none, next)) =
      (next ≡ record_end offset) × (next ≤ length bytes) × ¬ IsIdentifier offset
  Recorded offset (ok (some d, next)) =
      (next ≡ record_end offset)
      × (next ≤ length bytes)
      × IsIdentifier offset
      × (d ≡ descriptor_at offset)
      × (d ≢ [])

  Reads-then :
      {A : Type 0} (value : A) (start end : ℕ)
      (f : A × ℕ → Result BuildIdError (Option (List ℕ) × ℕ)) (o : Result BuildIdError (A × ℕ))
      → end ≤ record_end start
      → Reads value bytes end o
      → (end ≤ length bytes → Recorded start (f (value, end)))
      → Recorded start (try_then o f)
  Reads-then value start end f (err e) below (same, short) onward =
      rw same (omega (arith, below, short))
  Reads-then value start end f (ok (v, n)) below (read, next, fits) onward =
      rw (read, next) (onward fits)

  empty_list : (xs : List ℕ) → is_empty xs ≡ true → xs ≡ []
  empty_list [] e = refl
  empty_list (x ∷ xs) e = cc

  judged :
      (offset : ℕ)
      → record_end offset ≤ length bytes
      → Recorded offset (
          try_then
            (judge (type_at offset) (name_at offset) (descriptor_at offset))
            λ result. ok (result, record_end offset))
  judged offset fits =
      let Judged : Result BuildIdError (Option (List ℕ)) → Type 0 =
        λ o. Recorded offset (try_then o λ result. ok (result, record_end offset)) in
      if_split Judged
        (not (type_at offset == 3) || not (bytes_eq (strip_zero (name_at offset)) gnu_name))
        (λ other. (
          refl,
          fits,
          λ (three, gnu).
              let same = (bytes_eq_lem (strip_zero (name_at offset)) gnu_name).1 gnu in
              ground (arith, other, three, same),
        ))
        λ is_id.
          let three : type_at offset ≡ 3 = ground (arith, is_id) in
          let same : bytes_eq (strip_zero (name_at offset)) gnu_name ≡ true =
            ground (arith, is_id) in
          let gnu = (bytes_eq_lem (strip_zero (name_at offset)) gnu_name).0 same in
          if_split Judged (is_empty (descriptor_at offset))
            (λ nothing. (fits, (three, gnu), empty_list (descriptor_at offset) nothing))
            λ full. (refl, fits, (three, gnu), refl, λ nothing. let e = ap is_empty nothing in cc)

  record_at-Recorded :
      (offset : ℕ) → length bytes < word_mod → Recorded offset (record_at bytes offset)
  unfolding record_at
  record_at-Recorded offset small =
      let o2 : offset + 4 + 4 ≡ offset + 8 = omega arith in
      let o3 : offset + 8 + 4 ≡ offset + 12 = omega arith in
      let third : Reads (type_at offset) bytes (offset + 12) (word bytes (offset + 4 + 4)) =
        rw (o2, ← o3) (word-Reads bytes (offset + 8) small) in
      Reads-then _ offset _ _ _ (omega arith) (word-Reads bytes offset small) λ _.
        Reads-then _ offset _ _ _ (omega arith) (word-Reads bytes (offset + 4) small) λ _.
          Reads-then _ offset _ _ _ (omega arith) third λ _.
            Reads-then _ offset _ _ _ (omega arith)
              (field-Reads bytes (offset + 12) (word_at bytes offset) small)
              λ _.
                Reads-then _ offset _ _ _ (omega arith)
                  (field-Reads bytes (name_end offset) (word_at bytes (offset + 4)) small)
                  λ fits. judged offset fits

  -- Some byte from the offset on is not zero.
  abbrev pub IsLeft : ℕ → Type 0
  IsLeft offset = Any (λ byte. byte ≢ 0) (drop offset bytes)

  -- So many whole records that are not identifiers stand from one offset to another, each one before a
  -- byte that is not zero.
  abbrev pub Passes : ℕ → ℕ → ℕ → Type 0
  Passes zero offset end = end ≡ offset
  Passes (suc n) offset end =
      IsLeft offset
      × (record_end offset ≤ length bytes)
      × (¬ IsIdentifier offset)
      × Passes n (record_end offset) end

  -- What the search for the next identifier says, after the records that it passes.
  abbrev pub Found : ℕ → Next → Type 0
  Found end spent = ⊥
  Found end ended = All (λ byte. byte ≡ 0) (drop end bytes)
  Found end (failed e) = IsLeft end × IsRecordError end e
  Found end (yielded d next) =
      IsLeft end
      × (next ≡ record_end end)
      × (next ≤ length bytes)
      × IsIdentifier end
      × (d ≡ descriptor_at end)
      × (d ≢ [])

  abbrev pub Advances : ℕ → Next → Type 0
  Advances offset o = (passed : ℕ) × (end : ℕ) × Passes passed offset end × Found end o

  all_zero-All : (xs : List ℕ) → all_zero xs ≡ true → All (λ byte. byte ≡ 0) xs
  all_zero-All [] e = tt
  all_zero-All (x ∷ xs) e = (ground (arith, e), all_zero-All xs (ground (arith, e)))

  all_zero-Any : (xs : List ℕ) → all_zero xs ≡ false → Any (λ byte. byte ≢ 0) xs
  all_zero-Any [] e = cc
  all_zero-Any (x ∷ xs) e = elim (Bool-cases (x == 0)) [
    | inl zeroed ↦ inr (all_zero-Any xs (ground (arith, e, zeroed)))
    | inr some_bit ↦ inl λ same. ground (arith, some_bit, same)
  ]

  drop-past : (n : ℕ) (xs : List ℕ) → length xs < n → drop n xs ≡ []
  drop-past zero xs h = absurd (omega (arith, h))
  drop-past (suc n) [] h = refl
  drop-past (suc n) (x ∷ xs) h = drop-past n xs (omega (arith, h))

  at_end-All :
      (offset : ℕ) → at_end bytes offset ≡ true → All (λ byte. byte ≡ 0) (drop offset bytes)
  at_end-All offset e = elim (Bool-cases (ltb (length bytes) offset)) [
    | inl past ↦ let none_left = drop-past offset bytes (ground (arith, past)) in rw none_left tt
    | inr within ↦ all_zero-All (drop offset bytes) (ground (arith, e, within))
  ]

  at_end-IsLeft : (offset : ℕ) → at_end bytes offset ≡ false → IsLeft offset
  at_end-IsLeft offset e = all_zero-Any (drop offset bytes) (ground (arith, e))

  -- In a segment of fewer bytes than a word can count, the search for the next identifier ends within one
  -- round for each byte that is left. It passes whole records that are not identifiers, and then it ends
  -- where all bytes that are left are zero; or it fails, on a record that goes past the end of the segment
  -- or on an identifier without a descriptor; or it yields the descriptor of an identifier, not empty, and
  -- the offset after its record, which ends within the segment.
  pub next_note-Advances :
      (fuel offset : ℕ)
      → length bytes < word_mod
      → length bytes - offset < fuel
      → Advances offset (next_note bytes fuel offset)
  unfolding next_note
  next_note-Advances zero offset small enough = absurd (omega (arith, enough))
  next_note-Advances (suc fuel) offset small enough =
      if_split (Advances offset) (at_end bytes offset)
        (λ over. (0, offset, refl, at_end-All offset over))
        λ more.
          after (at_end-IsLeft offset more) (record_at bytes offset)
            (record_at-Recorded offset small)
            λ fits. next_note-Advances fuel (record_end offset) small (omega (arith, enough, fits))
    where
      after :
          IsLeft offset
          → (o : Result BuildIdError (Option (List ℕ) × ℕ)) → Recorded offset o
          → (record_end offset ≤ length bytes
              → Advances (record_end offset) (next_note bytes fuel (record_end offset)))
          → Advances offset (elim o [
            | err e ↦ failed e
            | ok (some descriptor, next) ↦ yielded descriptor next
            | ok (none, next) ↦ next_note bytes fuel next
          ])
      after left (err e) h onward = (0, offset, refl, (left, h))
      after left (ok (some d, next)) (same, fits, is_id, read, full) onward =
          (0, offset, refl, (left, same, fits, is_id, read, full))
      after left (ok (none, next)) (same, fits, other) onward =
          let inside : record_end offset ≤ length bytes = rw (← same) fits in
          let (passed, end, path, found) = onward inside in
          rw same (suc passed, end, (left, inside, other, path), found)
