-- ===== src/Elf/Dynamic/Sysv.antt =====
-- The walk of a chain in `DynamicSymbols::sysv` of ganymede-elf/src/dynamic.rs.
use ganymede.Common.{
  ℕ, zero, suc, ◌+◌, ◌≤◌, ◌<◌, ◌≡◌, ◌≢◌, ◌⊎◌, inl, inr, refl, List, [], ◌∷◌, Option, none, some,
  not, ltb, ◌==◌, if◌then◌else◌, length, arith, if_split,
}
use ganymede.Common.Result.{Result, ok, err, try_then}
use ganymede.Text.{bytes_eq}
use ganymede.Text.Basename.{bytes_eq_lem}
use ganymede.Elf.Dynamic.{
  DynamicSymbolsError, invalid_hash, DynamicSymbol, Memory, Tables, SysvTable, symbol_at, sysv_next,
  sysv_walk,
}

module _ (memory : Memory) (tables : Tables) (table : SysvTable) (name : List ℕ) where
  abbrev pub InTable : ℕ → Type 0
  InTable index = (index ≢ 0) × (index < table.symbols)

  abbrev pub IsNamed : ℕ → DynamicSymbol → Type 0
  IsNamed index s = (symbol_at memory tables index ≡ ok s) × (s.name ≡ name)

  -- A symbol of the table with another name.
  abbrev pub IsOther : ℕ → Type 0
  IsOther index =
      InTable index × (s : DynamicSymbol) × (symbol_at memory tables index ≡ ok s) × (s.name ≢ name)

  -- The chain leads from an index over those symbols, all of another name, to another index.
  abbrev pub Leads : ℕ → List ℕ → ℕ → Type 0
  Leads index [] end = index ≡ end
  Leads index (i ∷ rest) end =
      (index ≡ i)
      × IsOther i
      × (next : ℕ) × (sysv_next memory tables table i ≡ ok next)
      × Leads next rest end

  -- Why the walk fails at an index after some steps.
  abbrev pub IsFailure : DynamicSymbolsError → ℕ → ℕ → Type 0
  IsFailure e index steps =
      ((e ≡ invalid_hash) × (steps ≡ 0))
      ⊎ (((e ≡ invalid_hash) × (index ≢ 0) × (table.symbols ≤ index))
          ⊎ ((InTable index × (symbol_at memory tables index ≡ err e))
              ⊎ (IsOther index × (sysv_next memory tables table index ≡ err e))))

  abbrev pub Walked : ℕ → ℕ → Result DynamicSymbolsError (Option DynamicSymbol) → Type 0
  Walked steps index (ok none) = (path : List ℕ) × Leads index path 0
  Walked steps index (ok (some s)) =
      (path : List ℕ) × (end : ℕ) × Leads index path end × InTable end × IsNamed end s
  Walked steps index (err e) =
      (path : List ℕ) × (end : ℕ) × (left : ℕ) × Leads index path end
      × (length path + left ≡ steps)
      × IsFailure e end left

  onward :
      (steps index next : ℕ) (o : Result DynamicSymbolsError (Option DynamicSymbol))
      → IsOther index
      → sysv_next memory tables table index ≡ ok next
      → Walked steps next o
      → Walked (suc steps) index o
  onward steps index next (ok none) other e (path, leads) =
      (index ∷ path, (refl, other, next, e, leads))
  onward steps index next (ok (some s)) other e (path, end, leads, inside, named) =
      (index ∷ path, end, (refl, other, next, e, leads), inside, named)
  onward steps index next (err x) other e (path, end, left, leads, count, why) =
      (index ∷ path, end, left, (refl, other, next, e, leads), omega (arith, count), why)

  -- The walk ends after at most the steps it is given. It returns the first symbol of that name along the
  -- chain, or none where the chain leads to the index zero over symbols of other names only. Where it
  -- fails, the chain led to an index that is outside the table, or whose symbol or next index cannot be
  -- read, or the steps are spent.
  pub sysv_walk-Walked :
      (steps index : ℕ) → Walked steps index (sysv_walk memory tables table name steps index)
  unfolding sysv_walk
  sysv_walk-Walked zero index = ([], index, 0, refl, omega arith, inl (refl, refl))
  sysv_walk-Walked (suc steps) index =
      if_split (Walked (suc steps) index) (index == 0)
        (λ zero_index. ([], ground (arith, zero_index)))
        λ some_index.
          if_split (Walked (suc steps) index) (not (ltb index table.symbols))
            (λ outside. (
              [],
              index,
              suc steps,
              refl,
              omega arith,
              inr (inl (refl, (λ e. ground (arith, some_index, e)), ground (arith, outside))),
            ))
            λ inside.
              let here : InTable index =
                ((λ e. ground (arith, some_index, e)), ground (arith, inside)) in
              at_symbol here (symbol_at memory tables index) refl
                λ next. sysv_walk-Walked steps next
    where
      at_next :
          IsOther index
          → (o : Result DynamicSymbolsError ℕ) → sysv_next memory tables table index ≡ o
          → ((next : ℕ) → Walked steps next (sysv_walk memory tables table name steps next))
          → Walked
              (suc steps)
              index
              (try_then o λ next. sysv_walk memory tables table name steps next)
      at_next other (err e) h again =
          ([], index, suc steps, refl, omega arith, inr (inr (inr (other, h))))
      at_next other (ok next) h again = onward steps index next _ other h (again next)

      at_symbol :
          InTable index
          → (o : Result DynamicSymbolsError DynamicSymbol) → symbol_at memory tables index ≡ o
          → ((next : ℕ) → Walked steps next (sysv_walk memory tables table name steps next))
          → Walked (suc steps) index (
              try_then o λ s.
                if bytes_eq s.name name
                then ok (some s)
                else try_then
                    (sysv_next memory tables table index)
                    λ next. sysv_walk memory tables table name steps next)
      at_symbol here (err e) h again =
          ([], index, suc steps, refl, omega arith, inr (inr (inl (here, h))))
      at_symbol here (ok s) h again =
          if_split (Walked (suc steps) index) (bytes_eq s.name name)
            (λ same. ([], index, refl, here, (h, (bytes_eq_lem s.name name).0 same)))
            λ differ.
              let other : s.name ≢ name =
                λ e. let same = (bytes_eq_lem s.name name).1 e in ground (arith, same, differ) in
              at_next (here, s, h, other) (sysv_next memory tables table index) refl again
