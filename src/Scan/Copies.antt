-- ===== src/Scan/Copies.antt =====
-- `Scanner::copy_bytes` of ganymede-scan/src/lib.rs.
use ganymede.Common.{
  ℕ, zero, suc, ◌+◌, ◌<◌, ◌≡◌, ◌≢◌, refl, ◌∙◌, ap, List, ◌∷◌, none, some, word_mod, arith,
}
use ganymede.Common.Result.{Result, ok, err}
use ganymede.Scan.Foreign.{Foreign, cells, ByteLiftError, missing_terminator, Run, assemble_bytes}
use ganymede.Scan.Assembly.{BytesRead, assemble_bytes-BytesRead}
use ganymede.Scan.Scanner.{
  Process, ScanError, copy_too_small, access, lifting, address_overflow, lifted, copy_bytes,
}

cells-shift :
    (memory : ℕ → ℕ) (a k n : ℕ) → cells (λ j. memory (a + j)) k n ≡ cells memory (a + k) n
cells-shift memory a k zero = refl
cells-shift memory a k (suc n) =
    let e : a + suc k ≡ suc (a + k) = omega arith in
    ap (◌∷◌ (memory (a + k))) (cells-shift memory a (suc k) n ∙ ap (λ b. cells memory b n) e)

-- The process could not be opened at the address.
abbrev pub NotOpened : Process → ℕ → ℕ → Type 0
NotOpened process address e = process.open_at address ≡ err e

-- The process was opened at the address, and the copy of that many bytes failed.
abbrev pub NotCopied : Process → ℕ → ℕ → ByteLiftError → Type 0
NotCopied process address count e =
    (f : Foreign) × (process.open_at address ≡ ok f)
    × (assemble_bytes f count ≡ some (err e))
    × (e ≢ missing_terminator)

unfoldable pub IsCopy : Process → ℕ → ℕ → Run ScanError (List ℕ) → Type 0
IsCopy process address count none = ⊥
IsCopy process address count (some (ok buffer)) = buffer ≡ cells process.memory address count
IsCopy process address count (some (err (access e))) = NotOpened process address e
IsCopy process address count (some (err (lifting e))) = NotCopied process address count e
IsCopy process address count (some (err (copy_too_small a b))) = ⊥
IsCopy process address count (some (err (address_overflow a))) = ⊥

pub copy_bytes-IsCopy :
    (process : Process) (address count : ℕ)
    → count < word_mod
    → IsCopy process address count (copy_bytes process address count)
unfolding copy_bytes IsCopy
copy_bytes-IsCopy process address count word = opened (process.open_at address) refl
  where
    read :
        (f : Foreign) (o : Run ByteLiftError (List ℕ))
        → process.open_at address ≡ ok f
        → assemble_bytes f count ≡ o
        → BytesRead f (λ k. process.memory (address + k)) count o
        → IsCopy process address count (lifted o)
    read f none at e h = h
    read f (some (ok buffer)) at made h =
        h
        ∙ cells-shift process.memory address 0 count
        ∙ let e : address + 0 ≡ address = omega arith in rw e refl
    read f (some (err e)) at made h = (f, at, made, h)

    opened :
        (o : Result ℕ Foreign)
        → process.open_at address ≡ o
        → IsCopy process address count
            (elim o [ err e ↦ some (err (access e)) | ok f ↦ lifted (assemble_bytes f count) ])
    opened (err e) h = h
    opened (ok f) h = read f (assemble_bytes f count) h refl (
        assemble_bytes-BytesRead f (λ k. process.memory (address + k)) count
          (process.faithful address f h) word)
