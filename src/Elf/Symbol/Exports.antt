-- ===== src/Elf/Symbol/Exports.antt =====
-- `Symbol::location` and `Export::new` of ganymede-elf/src/symbol.rs.
use ganymede.Common.{
  ℕ, ◌+◌, ◌^◌, ◌≤◌, ◌<◌, ◌≡◌, ◌≢◌, ◌⊎◌, inl, inr, refl, Option, none, some, true, false, ltb, ◌==◌,
  arith, if_split, Bool-cases,
}
use ganymede.Common.Result.{Result, ok, err, try_then}
use ganymede.Elf.{ElfClass, bits, Binding, address}
use ganymede.Elf.Symbol.{
  Symbol, type_of, externally_visible, is_thread_local, is_indirect_function, SymbolLocation,
  SymbolError, placed, location, promoted, export,
}

module _ (binding : Binding) (c : ElfClass) (load_bias : ℕ) where
  -- Defined at a fixed address: in a section of its own or absolute, not thread-local.
  abbrev pub IsFixed : Symbol → Type 0
  IsFixed s =
      (s.section_index ≢ binding.shn_undef)
      × (s.section_index ≢ binding.shn_common)
      × (s.section_index ≢ binding.shn_xindex)
      × (is_thread_local (type_of s.information) ≡ false)

  abbrev pub IsAt : Symbol → ℕ → Type 0
  IsAt s a =
      ((s.section_index ≡ binding.shn_abs) × (a ≡ s.value))
      ⊎ ((s.section_index ≢ binding.shn_abs) × (a ≡ load_bias + s.value) × (a < 2 ^ bits c))

  abbrev pub IsExport : Symbol → ℕ → Type 0
  IsExport s a =
      (externally_visible s ≡ true)
      × IsFixed s
      × (is_indirect_function (type_of s.information) ≡ false)
      × IsAt s a

  abbrev pub Promoted : Symbol → Result SymbolError (Option ℕ) → Type 0
  Promoted s (ok (some a)) = IsExport s a
  Promoted s (ok none) = (a : ℕ) → ¬ IsExport s a
  Promoted s (err e) =
      IsFixed s × (s.section_index ≢ binding.shn_abs) × (2 ^ bits c ≤ load_bias + s.value)

  placed-Promoted :
      (s : Symbol) (a : ℕ)
      → IsFixed s
      → IsAt s a
      → Promoted s (ok (promoted binding c load_bias (externally_visible s) (placed s a)))
  placed-Promoted s a fixed at = elim (Bool-cases (is_indirect_function (type_of s.information))) [
    | inl indirect ↦ rw indirect (λ b (_, _, direct, _). ground (arith, indirect, direct))
    | inr direct ↦ rw direct (elim (Bool-cases (externally_visible s)) [
      | inl visible ↦ rw visible (visible, fixed, direct, at)
      | inr hid ↦ rw hid (λ b (visible, _, _, _). ground (arith, hid, visible))
    ])
  ]

  -- `Export::new` promotes exactly the symbols that are externally visible, defined in a section or
  -- absolute, not thread-local and not indirect functions, at the value moved by the load bias, or at the
  -- value where absolute. It fails only where a symbol in a section has a value that overflows the word.
  pub export-Promoted : (s : Symbol) → Promoted s (export binding c load_bias s)
  unfolding export location address
  export-Promoted s =
      let Judged : Result SymbolError SymbolLocation → Type 0 = λ o.
        Promoted s (try_then o λ at. ok (promoted binding c load_bias (externally_visible s) at)) in
      if_split Judged (s.section_index == binding.shn_undef)
        (λ e b (_, (defined, _, _, _), _, _). defined (ground (arith, e)))
        λ defined.
          if_split Judged (s.section_index == binding.shn_common)
            (λ e b (_, (_, allotted, _, _), _, _). allotted (ground (arith, e)))
            λ allotted.
              if_split Judged (s.section_index == binding.shn_xindex)
                (λ e b (_, (_, _, indexed, _), _, _). indexed (ground (arith, e)))
                λ indexed.
                  if_split Judged (is_thread_local (type_of s.information))
                    (λ e b (_, (_, _, _, shared), _, _). ground (arith, e, shared))
                    λ shared.
                      let fixed : IsFixed s = (
                        (λ e. ground (arith, e, defined)),
                        (λ e. ground (arith, e, allotted)),
                        (λ e. ground (arith, e, indexed)),
                        shared,
                      ) in
                      if_split Judged (s.section_index == binding.shn_abs)
                        (λ e. placed-Promoted s s.value fixed (inl (ground (arith, e), refl)))
                        λ relative.
                          let moved : s.section_index ≢ binding.shn_abs =
                            λ e. ground (arith, e, relative) in
                          elim (Bool-cases (ltb (load_bias + s.value) (2 ^ bits c))) [
                            | inl fits ↦ rw fits (
                                placed-Promoted s (load_bias + s.value) fixed
                                  (inr (moved, refl, ground (arith, fits))))
                            | inr past ↦ rw past (fixed, moved, ground (arith, past))
                          ]
