-- ===== src/Elf/Loaded/Pointers.antt =====
-- `resolve_pointer`, `load_bytes` and `dynamic_range` of ganymede-elf/src/loaded.rs.
use ganymede.Common.{
  ℕ, ◌+◌, ◌-◌, ◌^◌, ◌≤◌, ◌<◌, ◌≡◌, ◌⊎◌, ◌↔◌, inl, inr, refl, sym, ◌∙◌, ap, List, [], ◌∷◌, Option,
  none, some, true, false, not, ◌||◌, ltb, ◌==◌, if◌then◌else◌, checked_sub, arith, if_split,
  Bool-cases,
}
use mathlib.Core.Option
use ganymede.Common.Sort.{Any}
use ganymede.Process.Snapshot.{Range}
use ganymede.Elf.{ElfClass, bits, Binding, address, range}
use ganymede.Elf.Loaded.{
  ProgramHeader, within, loads, contains_load, resolve_pointer, bytes_in, segment_bytes, or_next,
  load_bytes, replace_once, dynamic_from, dynamic_range,
}

module _ (binding : Binding) (c : ElfClass) (load_bias : ℕ) where
  abbrev pub Resolved : List ProgramHeader → ℕ → Option ℕ → Type 0
  Resolved headers pointer none =
      (contains_load binding c load_bias headers pointer ≡ false)
      × (load_bias + pointer < 2 ^ bits c
          → contains_load binding c load_bias headers (load_bias + pointer) ≡ false)
  Resolved headers pointer (some target) =
      (contains_load binding c load_bias headers target ≡ true)
      × ((target ≡ pointer)
          ⊎ ((contains_load binding c load_bias headers pointer ≡ false)
              × (target ≡ load_bias + pointer)
              × (target < 2 ^ bits c)))

  -- `resolve_pointer` returns an address of a load segment: the pointer itself where it is one, or else
  -- its translation by the load bias within the word of the class. It returns none only where neither is.
  pub resolve_pointer-Resolved :
      (headers : List ProgramHeader) (pointer : ℕ)
      → Resolved headers pointer (resolve_pointer binding c load_bias headers pointer)
  unfolding resolve_pointer address
  resolve_pointer-Resolved headers pointer =
      if_split (Resolved headers pointer) (contains_load binding c load_bias headers pointer)
        (λ e. (e, inl refl))
        λ absolute. elim (Bool-cases (ltb (load_bias + pointer) (2 ^ bits c))) [
          | inl fits ↦ rw fits (
              if_split (Resolved headers pointer)
                (contains_load binding c load_bias headers (load_bias + pointer))
                (λ e. (e, inr (absolute, refl, ground (arith, fits)))) λ e. (absolute, λ _. e))
          | inr past ↦ rw past (absolute, λ below. ground (arith, past, below))
        ]

  -- The header is of a load segment that holds the address and ends `n` bytes above it.
  abbrev pub Extends : ℕ → ℕ → ProgramHeader → Type 0
  Extends target n h =
      (h.kind ≡ binding.pt_load)
      × (r : Range) × (range c load_bias h.virtual_address h.memory ≡ some r)
      × (within binding c load_bias r target ≡ true)
      × (target + n ≡ r.end_address)

  abbrev pub Extent : List ProgramHeader → ℕ → Option ℕ → Type 0
  Extent headers target none = contains_load binding c load_bias headers target ≡ false
  Extent headers target (some n) =
      (contains_load binding c load_bias headers target ≡ true)
      × (0 < n)
      × Any (Extends target n) headers

  abbrev HeaderExtent : ProgramHeader → ℕ → Option ℕ → Type 0
  HeaderExtent h target none = loads binding c load_bias h target ≡ false
  HeaderExtent h target (some n) =
      (loads binding c load_bias h target ≡ true) × (0 < n) × Extends target n h

  segment_bytes-HeaderExtent :
      (h : ProgramHeader) (target : ℕ)
      → HeaderExtent h target (segment_bytes binding c load_bias h target)
  segment_bytes-HeaderExtent h target = elim (Bool-cases (h.kind == binding.pt_load)) [
    | inl load ↦ rw load (in_range load (range c load_bias h.virtual_address h.memory) refl)
    | inr other ↦ rw (other, HeaderExtent) (rw other refl)
  ]
    where
      in_range :
          (h.kind == binding.pt_load) ≡ true
          → (o : Option Range) → range c load_bias h.virtual_address h.memory ≡ o
          → HeaderExtent h target (bytes_in binding c load_bias o target)
      in_range load none e = rw (load, e) refl
      in_range load (some r) e = elim (Bool-cases (within binding c load_bias r target)) [
        | inr outside ↦ rw outside (rw (load, e) outside)
        | inl inside ↦
            let below : target < r.end_address = ground (arith, inside) in
            let sub : checked_sub r.end_address target ≡ some (r.end_address - target) =
              ground (arith, below) in
            rw (inside, sub)
              (
                rw (load, e) inside,
                omega (arith, below),
                (ground (arith, load), r, e, inside, omega (arith, below)),
              )
      ]

  Extent-next :
      (h : ProgramHeader) (headers : List ProgramHeader) (target : ℕ) (o p : Option ℕ)
      → HeaderExtent h target o
      → Extent headers target p
      → Extent (h ∷ headers) target (or_next binding c load_bias o p)
  unfolding contains_load
  Extent-next h headers target none none miss rest = ground (arith, miss, rest)
  Extent-next h headers target none (some n) miss (hit, full, found) =
      (ground (arith, miss, hit), full, inr found)
  Extent-next h headers target (some n) p (hit, full, found) rest =
      (ground (arith, hit), full, inl found)

  -- `load_bytes` returns none exactly where no load segment holds the address, and otherwise how many
  -- bytes, at least one, a load segment that holds the address has from there to its end.
  pub load_bytes-Extent :
      (headers : List ProgramHeader) (target : ℕ)
      → Extent headers target (load_bytes binding c load_bias headers target)
  unfolding load_bytes contains_load
  load_bytes-Extent [] target = refl
  load_bytes-Extent (h ∷ headers) target =
      Extent-next h headers target (segment_bytes binding c load_bias h target) _
        (segment_bytes-HeaderExtent h target) (load_bytes-Extent headers target)

  -- The headers of the dynamic kind.
  abbrev pub dynamics : List ProgramHeader → List ProgramHeader
  dynamics [] = []
  dynamics (h ∷ headers) =
      let rest = dynamics headers in if h.kind == binding.pt_dynamic then h ∷ rest else rest

  -- The header has a nonempty extent in memory that its file extent does not exceed, at that range.
  abbrev pub IsTable : ProgramHeader → Range → Type 0
  IsTable h r =
      (h.file ≤ h.memory) × (0 < h.memory) × (range c load_bias h.virtual_address h.memory ≡ some r)

  abbrev Chosen : Option Range → List ProgramHeader → Range → Type 0
  Chosen (some found) headers r = (found ≡ r) × (dynamics headers ≡ [])
  Chosen none headers r = (h : ProgramHeader) × (dynamics headers ≡ h ∷ []) × IsTable h r

  replaced :
      (found : Option Range) (h : ProgramHeader) (headers : List ProgramHeader) (r : Range)
      → dynamics (h ∷ headers) ≡ h ∷ dynamics headers
      → h.file ≤ h.memory
      → 0 < h.memory
      → ((f : Option Range)
          → (dynamic_from binding c load_bias f headers ≡ some r) ↔ Chosen f headers r)
      → (o : Option Range) → range c load_bias h.virtual_address h.memory ≡ o
      → (Option.bind o (λ s.
            replace_once binding c load_bias found s
              λ next. dynamic_from binding c load_bias next headers)
          ≡ some r)
        ↔ Chosen found (h ∷ headers) r
  unfolding Option.bind
  replaced none h headers r cons file memory again none e = (
    (λ f. cc),
    λ (h', only, (_, _, at)).
        let all : h ∷ dynamics headers ≡ h' ∷ [] = sym cons ∙ only in
        let same : h ≡ h' = cc in
        let there : range c load_bias h.virtual_address h.memory ≡ some r = rw same at in cc,
  )
  replaced (some f) h headers r cons file memory again none e =
      ((λ f. cc), λ (_, empty). let all : h ∷ dynamics headers ≡ [] = sym cons ∙ empty in cc)
  replaced none h headers r cons file memory again (some s) e = (
    (λ f.
        let (same, empty) = (again (some s)).0 f in
        (h, cons ∙ ap (◌∷◌ h) empty, (file, memory, e ∙ ap some same))),
    λ (h', only, (_, _, at)).
        let all : h ∷ dynamics headers ≡ h' ∷ [] = sym cons ∙ only in
        let same : h ≡ h' = cc in
        let empty : dynamics headers ≡ [] = cc in
        let there : range c load_bias h.virtual_address h.memory ≡ some r = rw same at in
        let equal : s ≡ r = cc in (again (some s)).1 (equal, empty),
  )
  replaced (some f) h headers r cons file memory again (some s) e =
      ((λ f. cc), λ (_, empty). let all : h ∷ dynamics headers ≡ [] = sym cons ∙ empty in cc)

  refused :
      (found : Option Range) (h : ProgramHeader) (headers : List ProgramHeader) (r : Range)
      → dynamics (h ∷ headers) ≡ h ∷ dynamics headers
      → (ltb h.memory h.file || h.memory == 0) ≡ true
      → Chosen found (h ∷ headers) r
      → ⊥
  refused (some f) h headers r cons bad (_, empty) =
      let all : h ∷ dynamics headers ≡ [] = sym cons ∙ empty in cc
  refused none h headers r cons bad (h', only, (file, memory, _)) =
      let all : h ∷ dynamics headers ≡ h' ∷ [] = sym cons ∙ only in
      let same : h ≡ h' = cc in
      let file' : h.file ≤ h.memory = rw same file in
      let memory' : 0 < h.memory = rw same memory in ground (arith, bad, file', memory')

  passed :
      (found : Option Range) (h : ProgramHeader) (headers : List ProgramHeader) (r : Range)
      → dynamics (h ∷ headers) ≡ dynamics headers
      → Chosen found (h ∷ headers) r ↔ Chosen found headers r
  passed (some f) h headers r same =
      ((λ (e, empty). (e, sym same ∙ empty)), λ (e, empty). (e, same ∙ empty))
  passed none h headers r same =
      ((λ (k, only, t). (k, sym same ∙ only, t)), λ (k, only, t). (k, same ∙ only, t))

  dynamic_from-Chosen :
      (found : Option Range) (headers : List ProgramHeader) (r : Range)
      → (dynamic_from binding c load_bias found headers ≡ some r) ↔ Chosen found headers r
  unfolding dynamic_from
  dynamic_from-Chosen none [] r = ((λ e. cc), λ (h, e, _). cc)
  dynamic_from-Chosen (some f) [] r = ((λ e. (cc, refl)), λ (e, _). ap some e)
  dynamic_from-Chosen found (h ∷ headers) r =
      if_split (λ o. (o ≡ some r) ↔ Chosen found (h ∷ headers) r)
        (not (h.kind == binding.pt_dynamic))
        (λ other.
          let kind : (h.kind == binding.pt_dynamic) ≡ false = ground (arith, other) in
          let onward = passed found h headers r (rw kind refl) in
          let again = dynamic_from-Chosen found headers r in
          ((λ e. onward.1 (again.0 e)), λ k. again.1 (onward.0 k)))
        λ dynamic.
          let kind : (h.kind == binding.pt_dynamic) ≡ true = ground (arith, dynamic) in
          let cons : dynamics (h ∷ headers) ≡ h ∷ dynamics headers = rw kind refl in
          if_split (λ o. (o ≡ some r) ↔ Chosen found (h ∷ headers) r)
            (ltb h.memory h.file || h.memory == 0)
            (λ bad. ((λ e. cc), λ k. absurd (refused found h headers r cons bad k)))
            λ good.
              replaced found h headers r cons (ground (arith, good)) (ground (arith, good))
                (λ f. dynamic_from-Chosen f headers r)
                (range c load_bias h.virtual_address h.memory) refl

  -- `dynamic_range` returns a range exactly when one header alone is of the dynamic kind, with a nonempty
  -- memory extent that its file extent does not exceed, and that is its range.
  pub dynamic_range-IsTable :
      (headers : List ProgramHeader) (r : Range)
      → (dynamic_range binding c load_bias headers ≡ some r)
        ↔ ((h : ProgramHeader) × (dynamics headers ≡ h ∷ []) × IsTable h r)
  unfolding dynamic_range
  dynamic_range-IsTable headers r = dynamic_from-Chosen none headers r
