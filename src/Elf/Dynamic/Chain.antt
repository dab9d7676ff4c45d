-- ===== src/Elf/Dynamic/Chain.antt =====
-- `DynamicSymbols::chain` of ganymede-elf/src/dynamic.rs.
use ganymede.Common.{
  ℕ, zero, suc, ◌+◌, ◌-◌, ◌≤◌, ◌<◌, ◌≡◌, inl, inr, List, Option, none, some, ◌==◌, arith,
  Bool-cases,
}
use ganymede.Common.Result.{Result, ok, err}
use ganymede.Scan.Foreign.{Run}
use ganymede.Elf.Dynamic.{
  DynamicSymbolsError, DynamicSymbol, Memory, Tables, GnuTable, GnuBucket, ChainStep, found, absent,
  onward, chain_step, chain_loop, chain, gnu_hash,
}
use ganymede.Elf.Dynamic.Links.{
  Hashed, Passed, IsNamed, IsLast, Continues, Broken, Judged, step-Judged,
}

module _ (memory : Memory) (tables : Tables) (table : GnuTable) (chains : ℕ) (name : List ℕ) where
  -- The symbols from one number on below another have other names, and the chain goes on after each.
  abbrev pub Before : ℕ → ℕ → Type 0
  Before start end =
      (j : ℕ)
      → start ≤ j
      → j < end
      → Passed memory tables table chains name j × Continues memory tables table chains name j

  -- What the walk from a symbol on says.
  abbrev pub Walked : ℕ → Run DynamicSymbolsError (Option DynamicSymbol) → Type 0
  Walked start none = ⊥
  Walked start (some (err e)) =
      (i : ℕ) × (start ≤ i) × Before start i × Broken memory tables table chains name i e
  Walked start (some (ok none)) =
      (last : ℕ) × (start ≤ last)
      × Before start last
      × (Passed memory tables table chains name last × IsLast memory tables table chains name last)
  Walked start (some (ok (some s))) =
      (i : ℕ) × (start ≤ i) × Before start i × IsNamed memory tables table chains name i s

  Before-none : (start : ℕ) → Before start start
  Before-none start j a b = absurd (omega (arith, a, b))

  Before-step :
      (start end : ℕ)
      → Passed memory tables table chains name start
      → Continues memory tables table chains name start
      → Before (suc start) end
      → Before start end
  Before-step start end passed goes_on all j a b = elim (Bool-cases (j == start)) [
    | inl same ↦ let e : start ≡ j = ground (arith, same) in rw (← e) (passed, goes_on)
    | inr later ↦ all j (ground (arith, a, later)) b
  ]

  further :
      (start : ℕ) (o : Run DynamicSymbolsError (Option DynamicSymbol))
      → Passed memory tables table chains name start
      → Continues memory tables table chains name start
      → Walked (suc start) o
      → Walked start o
  further start none passed goes_on h = h
  further start (some (err e)) passed goes_on (i, low, all, broken) =
      (i, omega (arith, low), Before-step start i passed goes_on all, broken)
  further start (some (ok none)) passed goes_on (last, low, all, rest) =
      (last, omega (arith, low), Before-step start last passed goes_on all, rest)
  further start (some (ok (some s))) passed goes_on (i, low, all, is_named) =
      (i, omega (arith, low), Before-step start i passed goes_on all, is_named)

  loop-Walked :
      (fuel symbol : ℕ)
      → Hashed memory tables table chains name
      → table.symbol_offset + table.chain_words - symbol < fuel
      → Walked symbol (chain_loop memory tables table name (gnu_hash name) chains fuel symbol)
  unfolding chain_loop
  loop-Walked zero symbol hashed enough = absurd (omega (arith, enough))
  loop-Walked (suc fuel) symbol hashed enough =
      after (chain_step memory tables table name (gnu_hash name) chains symbol)
        (step-Judged memory tables table chains name symbol hashed)
        λ low. loop-Walked fuel (suc symbol) hashed (omega (arith, enough, low))
    where
      after :
          (o : Result DynamicSymbolsError ChainStep)
          → Judged memory tables table chains name symbol o
          → (symbol < table.symbol_offset + table.chain_words
              → Walked
                  (suc symbol)
                  (chain_loop memory tables table name (gnu_hash name) chains fuel (suc symbol)))
          → Walked symbol (elim o [
            | err e ↦ some (err e)
            | ok (found s) ↦ some (ok (some s))
            | ok absent ↦ some (ok none)
            | ok (onward next) ↦
                chain_loop memory tables table name (gnu_hash name) chains fuel next
          ])
      after (err e) broken again = (symbol, omega arith, Before-none symbol, broken)
      after (ok (found s)) is_named again = (symbol, omega arith, Before-none symbol, is_named)
      after (ok absent) last again = (symbol, omega arith, Before-none symbol, last)
      after (ok (onward next)) (passed, e, goes_on, low) again =
          rw e (further symbol _ passed goes_on (again low))

  -- In a table whose chain words keep the hashes of their symbols' names, the walk of a chain, from a
  -- bucket not below the first symbol of the table, ends within one round for each chain word. It returns
  -- the first symbol of that name from the bucket on, where the chain goes on after each symbol before it;
  -- or none, where the chain ends for the first time and no symbol up to its end that can be read has that
  -- name; or the error of the first symbol, within the chain and with no symbol of that name before it,
  -- whose chain word cannot be read, or that cannot be read although its hash is that of the name, or after
  -- which the chain goes on past the numbers of 32 bits.
  pub chain-Walked :
      (bucket : GnuBucket)
      → bucket.chains ≡ chains
      → Hashed memory tables table chains name
      → table.symbol_offset ≤ bucket.symbol
      → Walked bucket.symbol (chain memory tables table name (gnu_hash name) bucket)
  unfolding chain
  chain-Walked bucket same hashed low =
      rw same (loop-Walked (suc table.chain_words) bucket.symbol hashed (omega (arith, low)))
