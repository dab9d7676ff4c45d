-- ===== src/Elf/Note/Encoding.antt =====
-- The layout of a note record that `Notes::next` of ganymede-elf/src/note.rs reads.
use ganymede.Common.{
  ℕ, ◌+◌, ◌-◌, ◌/◌, ◌%◌, ◌^◌, ◌<◌, ◌≡◌, refl, sym, ◌∙◌, ap, List, [], ◌∷◌, ◌++◌, append_assoc, some,
  true, leb, length, length-append, length-replicate, replicate, take, drop, get_range, checked_add,
  word_mod, arith,
}
use ganymede.Common.Result.{ok, try_then}
use ganymede.Elf.Note.{from_le_bytes, word, field, judge, record_at}
use ganymede.Elf.Note.Alignment.{padded_size, aligned-some}

abbrev pub le_bytes : ℕ → List ℕ
le_bytes n = n % 256 ∷ n / 256 % 256 ∷ n / 65536 % 256 ∷ n / 16777216 % 256 ∷ []

-- The bytes of a field, and zeros up to the next multiple of four.
abbrev pub padded : List ℕ → List ℕ
padded bytes = bytes ++ replicate (padded_size (length bytes) - length bytes) 0

-- The record of a note of a type, with a name and a descriptor.
abbrev pub encode : ℕ → List ℕ → List ℕ → List ℕ
encode note_type name descriptor =
    le_bytes (length name)
    ++ (le_bytes (length descriptor) ++ (le_bytes note_type ++ (padded name ++ padded descriptor)))

from_le_bytes-le_bytes : (n : ℕ) → n < 2 ^ 32 → from_le_bytes (le_bytes n) ≡ n
from_le_bytes-le_bytes n h = omega (arith, h)

drop-append : (pre xs : List ℕ) → drop (length pre) (pre ++ xs) ≡ xs
drop-append [] xs = refl
drop-append (x ∷ pre) xs = drop-append pre xs

take-append : (mid post : List ℕ) → take (length mid) (mid ++ post) ≡ mid
take-append [] post = refl
take-append (x ∷ mid) post = ap (◌∷◌ x) (take-append mid post)

-- The part of the bytes between two others.
get_range-middle :
    (bytes pre mid post : List ℕ)
    → bytes ≡ pre ++ (mid ++ post)
    → get_range bytes (length pre) (length pre + length mid) ≡ some mid
get_range-middle bytes pre mid post e =
    let long = length-append pre (mid ++ post) in
    let rest = length-append mid post in
    let order : leb (length pre) (length pre + length mid) ≡ true = ground arith in
    let inside : leb (length pre + length mid) (length (pre ++ (mid ++ post))) ≡ true =
      ground (arith, long, rest) in
    let size : length pre + length mid - length pre ≡ length mid = omega arith in
    rw (e, order, inside, size, drop-append pre (mid ++ post), take-append mid post) refl

get_range-between :
    (bytes pre mid post : List ℕ) (a b : ℕ)
    → bytes ≡ pre ++ (mid ++ post)
    → a ≡ length pre
    → b ≡ length pre + length mid
    → get_range bytes a b ≡ some mid
get_range-between bytes pre mid post a b e f g = rw (f, g) (get_range-middle bytes pre mid post e)

word-middle :
    (bytes pre post : List ℕ) (n : ℕ)
    → bytes ≡ pre ++ (le_bytes n ++ post)
    → length bytes < word_mod
    → n < 2 ^ 32
    → word bytes (length pre) ≡ ok (n, length (pre ++ le_bytes n))
unfolding word
word-middle bytes pre post n e small h =
    let long = length-append pre (le_bytes n ++ post) in
    let total : length bytes ≡ length (pre ++ (le_bytes n ++ post)) = ap length e in
    let sum : checked_add (length pre) 4 ≡ some (length pre + 4) =
      ground (arith, small, long, total) in
    let read = get_range-middle bytes pre (le_bytes n) post e in
    let value = from_le_bytes-le_bytes n h in
    let end = length-append pre (le_bytes n) in rw (sum, read, value, end) refl

field-middle :
    (bytes pre value post : List ℕ)
    → bytes ≡ pre ++ (padded value ++ post)
    → length bytes < word_mod
    → length value < 2 ^ 32
    → field bytes (length pre) (length value) ≡ ok (value, length (pre ++ padded value))
unfolding field
field-middle bytes pre value post e small h =
    let zeros : List ℕ = replicate (padded_size (length value) - length value) 0 in
    let long = length-append pre (padded value ++ post) in
    let field_long = length-append (padded value) post in
    let padding : length {A = ℕ} zeros ≡ padded_size (length value) - length value =
      length-replicate _ 0 in
    let whole = length-append value zeros in
    let total : length bytes ≡ length (pre ++ (padded value ++ post)) = ap length e in
    let al = aligned-some (length value) (omega (arith, h)) in
    let first : checked_add (length pre) (length value) ≡ some (length pre + length value) =
      ground (arith, small, long, total, field_long, whole) in
    let second : checked_add (length pre) (padded_size (length value))
        ≡ some (length pre + padded_size (length value)) =
      ground (arith, small, long, total, field_long, whole, padding) in
    let one =
      get_range-middle bytes pre value (zeros ++ post)
        (e ∙ ap (λ xs. pre ++ xs) (append_assoc value zeros post)) in
    let at : length (pre ++ value) ≡ length pre + length value = length-append pre value in
    let two : get_range bytes (length pre + length value) (length pre + padded_size (length value))
        ≡ some zeros =
      get_range-between bytes (pre ++ value) zeros post _ _
        ((e ∙ ap (λ xs. pre ++ xs) (append_assoc value zeros post))
          ∙ sym (append_assoc pre value (zeros ++ post)))
        (sym at) (omega (arith, at, padding)) in
    let last : length (pre ++ padded value) ≡ length pre + padded_size (length value) =
      omega (arith, length-append pre (padded value), whole, padding) in
    rw (al, first, second, one, two, last) refl

regroup :
    (a b c p q after : List ℕ)
    → (a ++ (b ++ (c ++ (p ++ q)))) ++ after ≡ a ++ (b ++ (c ++ (p ++ (q ++ after))))
regroup a b c p q after =
    append_assoc a (b ++ (c ++ (p ++ q))) after
    ∙ ap (λ xs. a ++ xs)
        (append_assoc b (c ++ (p ++ q)) after
          ∙ ap (λ xs. b ++ xs)
              (append_assoc c (p ++ q) after ∙ ap (λ xs. c ++ xs) (append_assoc p q after)))

length-regroup :
    (before a b c p q : List ℕ)
    → length ((((before ++ a) ++ b) ++ c) ++ p ++ q)
      ≡ length before + length (a ++ (b ++ (c ++ (p ++ q))))
length-regroup before a b c p q = omega (
  arith,
  length-append ((((before ++ a) ++ b) ++ c) ++ p) q,
  length-append (((before ++ a) ++ b) ++ c) p,
  length-append ((before ++ a) ++ b) c,
  length-append (before ++ a) b,
  length-append before a,
  length-append a (b ++ (c ++ (p ++ q))),
  length-append b (c ++ (p ++ q)),
  length-append c (p ++ q),
  length-append p q,
)

-- Reading the record that encodes a note gives what the note's type, name and descriptor ask for, and the
-- offset after the record, wherever it stands in the segment. The sizes are of 32 bits.
pub record_at-encode :
    (before after name descriptor : List ℕ) (note_type : ℕ)
    → length (before ++ (encode note_type name descriptor ++ after)) < word_mod
    → length name < 2 ^ 32
    → length descriptor < 2 ^ 32
    → note_type < 2 ^ 32
    → record_at (before ++ (encode note_type name descriptor ++ after)) (length before)
      ≡ try_then
          (judge note_type name descriptor)
          λ result. ok (result, length before + length (encode note_type name descriptor))
unfolding record_at
record_at-encode before after name descriptor note_type small n d t =
    let a = le_bytes (length name) in
    let b = le_bytes (length descriptor) in
    let c = le_bytes note_type in
    let p = padded name in
    let q = padded descriptor in
    let bytes = before ++ ((a ++ (b ++ (c ++ (p ++ q)))) ++ after) in
    let e1 : bytes ≡ before ++ (a ++ (b ++ (c ++ (p ++ (q ++ after))))) =
      ap (λ xs. before ++ xs) (regroup a b c p q after) in
    let s1 = before ++ a in
    let e2 : bytes ≡ s1 ++ (b ++ (c ++ (p ++ (q ++ after)))) = e1 ∙ sym (append_assoc before a _) in
    let s2 = s1 ++ b in
    let e3 : bytes ≡ s2 ++ (c ++ (p ++ (q ++ after))) = e2 ∙ sym (append_assoc s1 b _) in
    let s3 = s2 ++ c in
    let e4 : bytes ≡ s3 ++ (p ++ (q ++ after)) = e3 ∙ sym (append_assoc s2 c _) in
    let s4 = s3 ++ p in
    let e5 : bytes ≡ s4 ++ (q ++ after) = e4 ∙ sym (append_assoc s3 p _) in
    let w1 = word-middle bytes before _ (length name) e1 small n in
    let w2 = word-middle bytes s1 _ (length descriptor) e2 small d in
    let w3 = word-middle bytes s2 _ note_type e3 small t in
    let f1 = field-middle bytes s3 name _ e4 small n in
    let f2 = field-middle bytes s4 descriptor _ e5 small d in
    let end : length (s4 ++ q) ≡ length before + length (a ++ (b ++ (c ++ (p ++ q)))) =
      length-regroup before a b c p q in
    rw (w1, w2, w3, f1, f2, end) refl
