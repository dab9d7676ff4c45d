-- ===== src/Elf/Dynamic/Links.antt =====
-- One round of the loop in `DynamicSymbols::chain` of ganymede-elf/src/dynamic.rs.
use ganymede.Common.{
  ℕ, suc, ◌+◌, ◌-◌, ◌^◌, ◌≤◌, ◌<◌, ◌≡◌, ◌≢◌, ◌⊎◌, inl, inr, refl, ◌∙◌, ap, List, none, some, true,
  false, not, ltb, leb, ◌==◌, if◌then◌else◌, bit_and, arith, if_split, Bool-cases,
}
use ganymede.Common.Result.{Result, ok, err, try_then}
use ganymede.Text.{bytes_eq}
use ganymede.Text.Basename.{bytes_eq_lem}
use ganymede.Elf.Dynamic.{
  DynamicSymbolsError, invalid_hash, DynamicSymbol, Memory, Tables, GnuTable, symbol_at, chain_word,
  candidate, ChainStep, found, absent, onward, after_candidate, chain_step, gnu_hash,
}

module _ (memory : Memory) (tables : Tables) (table : GnuTable) (chains : ℕ) (name : List ℕ) where
  -- Each chain word keeps the hash of its symbol's name, but for the low bit.
  abbrev pub Hashed : Type 0
  Hashed =
      (symbol word : ℕ) (s : DynamicSymbol)
      → chain_word memory tables table chains symbol ≡ ok word
      → symbol_at memory tables symbol ≡ ok s
      → bit_and word 4294967294 ≡ bit_and (gnu_hash s.name) 4294967294

  -- The symbol of that number has another name.
  abbrev pub Passed : ℕ → Type 0
  Passed symbol = (s : DynamicSymbol) → symbol_at memory tables symbol ≡ ok s → s.name ≢ name

  abbrev pub IsNamed : ℕ → DynamicSymbol → Type 0
  IsNamed symbol s = (symbol_at memory tables symbol ≡ ok s) × (s.name ≡ name)

  -- The chain ends at that symbol.
  abbrev pub IsLast : ℕ → Type 0
  IsLast symbol =
      (word : ℕ) × (chain_word memory tables table chains symbol ≡ ok word) × (bit_and word 1 ≢ 0)

  -- The chain goes on after that symbol.
  abbrev pub Continues : ℕ → Type 0
  Continues symbol =
      (word : ℕ) × (chain_word memory tables table chains symbol ≡ ok word) × (bit_and word 1 ≡ 0)

  -- The error at that symbol: of the read of its chain word; of the read of the symbol, where the hash of
  -- its chain word is that of the name; or an invalid hash, where the chain goes on past the last number
  -- that a symbol can have.
  abbrev pub Broken : ℕ → DynamicSymbolsError → Type 0
  Broken symbol e =
      (chain_word memory tables table chains symbol ≡ err e)
      ⊎ ((word : ℕ) × (chain_word memory tables table chains symbol ≡ ok word)
          × (bit_and word 4294967294 ≡ bit_and (gnu_hash name) 4294967294)
          × (symbol_at memory tables symbol ≡ err e))
      ⊎ ((e ≡ invalid_hash) × Passed symbol × Continues symbol × (2 ^ 32 ≤ symbol + 1))

  abbrev pub Judged : ℕ → Result DynamicSymbolsError ChainStep → Type 0
  Judged symbol (err e) = Broken symbol e
  Judged symbol (ok (found s)) = IsNamed symbol s
  Judged symbol (ok absent) = Passed symbol × IsLast symbol
  Judged symbol (ok (onward next)) =
      Passed symbol
      × (next ≡ suc symbol)
      × Continues symbol
      × (symbol < table.symbol_offset + table.chain_words)

  Here : ℕ → ℕ → Type 0
  Here symbol word =
      (chain_word memory tables table chains symbol ≡ ok word)
      × (table.symbol_offset ≤ symbol)
      × (symbol < table.symbol_offset + table.chain_words)

  unnamed :
      (symbol word : ℕ)
      → Passed symbol
      → Here symbol word
      → Judged symbol (after_candidate word symbol none)
  unfolding Here
  unnamed symbol word passed (here, _, low) =
      if_split (Judged symbol) (not (bit_and word 1 == 0))
        (λ last. (passed, (word, here, λ clear. ground (arith, last, clear))))
        λ more.
          let goes_on : Continues symbol = (word, here, ground (arith, more)) in
          if_split (Judged symbol) (ltb (symbol + 1) (2 ^ 32))
            (λ _. (passed, omega arith, goes_on, low))
            λ past. inr (inr (refl, passed, goes_on, ground (arith, past)))

  named :
      (symbol word : ℕ) (o : Result DynamicSymbolsError DynamicSymbol)
      → symbol_at memory tables symbol ≡ o
      → Here symbol word
      → bit_and word 4294967294 ≡ bit_and (gnu_hash name) 4294967294
      → Judged symbol (
          try_then
            (try_then o λ s. ok (if bytes_eq s.name name then some s else none))
            λ matched. after_candidate word symbol matched)
  unfolding Here
  named symbol word (err e) at here hash = inr (inl (word, here.0, hash, at))
  named symbol word (ok s) at here hash = elim (Bool-cases (bytes_eq s.name name)) [
    | inl same ↦ rw same (at, (bytes_eq_lem s.name name).0 same)
    | inr differ ↦ rw differ (unnamed symbol word (other differ) here)
  ]
    where
      other : bytes_eq s.name name ≡ false → Passed symbol
      other differ t there same =
          let st : s ≡ t = cc in
          let names : s.name ≡ name = ap (λ u. u.name) st ∙ same in
          let yes_equal = (bytes_eq_lem s.name name).1 names in ground (arith, differ, yes_equal)

  mismatched :
      (symbol word : ℕ)
      → Hashed
      → Here symbol word
      → (bit_and word 4294967294 == bit_and (gnu_hash name) 4294967294) ≡ false
      → Passed symbol
  unfolding Here
  mismatched symbol word hashed (here, _, _) differ s at same =
      let kept = hashed symbol word s here at in
      let moved : bit_and (gnu_hash s.name) 4294967294 ≡ bit_and (gnu_hash name) 4294967294 =
        ap (λ n. bit_and (gnu_hash n) 4294967294) same in
      ground (arith, kept, moved, differ)

  chain_word-Here :
      (symbol word : ℕ) → chain_word memory tables table chains symbol ≡ ok word → Here symbol word
  unfolding Here chain_word
  chain_word-Here symbol word e = elim (Bool-cases (leb table.symbol_offset symbol)) [
    | inr below ↦ absurd (let bad = outside below in cc)
    | inl fits ↦ elim (Bool-cases (leb table.chain_words (symbol - table.symbol_offset))) [
      | inl over ↦ absurd (let bad = past fits over in cc)
      | inr inside ↦ (e, ground (arith, fits), ground (arith, fits, inside))
    ]
  ]
    where
      outside :
          leb table.symbol_offset symbol ≡ false
          → chain_word memory tables table chains symbol ≡ err invalid_hash
      outside below = rw below refl

      past :
          leb table.symbol_offset symbol ≡ true
          → leb table.chain_words (symbol - table.symbol_offset) ≡ true
          → chain_word memory tables table chains symbol ≡ err invalid_hash
      past fits over = rw (fits, over) refl

  pub chain_word-lt :
      (symbol word : ℕ)
      → chain_word memory tables table chains symbol ≡ ok word
      → symbol < table.symbol_offset + table.chain_words
  unfolding Here
  chain_word-lt symbol word e = (chain_word-Here symbol word e).2

  pub step-Judged :
      (symbol : ℕ)
      → Hashed
      → Judged symbol (chain_step memory tables table name (gnu_hash name) chains symbol)
  unfolding chain_step
  step-Judged symbol hashed = at_word (chain_word memory tables table chains symbol) refl
    where
      at_word :
          (o : Result DynamicSymbolsError ℕ)
          → chain_word memory tables table chains symbol ≡ o
          → Judged symbol (
              try_then o λ word.
                try_then
                  (candidate memory tables name (gnu_hash name) word symbol)
                  λ matched. after_candidate word symbol matched)
      at_word (err e) h = inl h
      at_word (ok word) h =
          let here = chain_word-Here symbol word h in
          if_split (λ o. Judged symbol (try_then o λ matched. after_candidate word symbol matched))
            (bit_and word 4294967294 == bit_and (gnu_hash name) 4294967294)
            (λ hash.
              named symbol word (symbol_at memory tables symbol) refl here (ground (arith, hash)))
            λ differ. unnamed symbol word (mismatched symbol word hashed here differ) here
