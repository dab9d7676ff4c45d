-- ===== src/Process/Snapshot/Lookup.antt =====
-- `Snapshot::region_at` and `Snapshot::readable_bytes` of ganymede-process/src/snapshot.rs.
use ganymede.Common.{
  ℕ, zero, suc, ◌+◌, ◌≤◌, ◌<◌, ◌≡◌, ◌↔◌, refl, ap, sym, List, [], ◌∷◌, Option, none, some, true,
  false, leb, get_elem?, arith, Bool-cases, Option-cases, inl, inr,
}
use ganymede.Process.Snapshot.{
  Region, contains, Flags, has, partition_point, filtered, region_at, readable_bytes,
}
use ganymede.Process.Snapshot.Regions.{Follows}

-- The region stands in the list and contains the address.
abbrev pub Holds : List Region → ℕ → Region → Type 0
Holds regions address r = (i : ℕ) × (get_elem? regions i ≡ some r) × (contains r address ≡ true)

-- No region from `lo` on contains an address below it.
Follows-above :
    (regions : List Region) (lo i : ℕ) {r : Region}
    → Follows lo regions
    → get_elem? regions i ≡ some r
    → lo ≤ r.range.start_address
Follows-above [] lo i f e = cc
Follows-above (r ∷ regions) lo zero (low, _, f) e = ground (arith, e)
Follows-above (r ∷ regions) lo (suc i) (low, nonempty, f) e =
    omega (arith, Follows-above regions r.range.end_address i f e)

abbrev at_point : List Region → ℕ → Option Region
at_point regions address =
    filtered (get_elem? regions (partition_point (λ r. leb r.range.end_address address) regions))
      address

Found : List Region → ℕ → Option Region → Type 0
Found regions address none = (r : Region) → ¬ Holds regions address r
Found regions address (some r) =
    Holds regions address r × ((s : Region) → Holds regions address s → s ≡ r)

outside :
    (r : Region) (address : ℕ) → leb r.range.end_address address ≡ true → contains r address ≡ false
unfolding contains
outside r address past = ground (arith, past)

inside :
    (r : Region) (address : ℕ)
    → contains r address ≡ true
    → (r.range.start_address ≤ address) × (address < r.range.end_address)
unfolding contains
inside r address h = ground (arith, h)

-- A region at the head that does not contain the address is passed.
cons-Found :
    (r : Region) (regions : List Region) (address : ℕ) (o : Option Region)
    → contains r address ≡ false
    → Found regions address o
    → Found (r ∷ regions) address o
unfolding Found
cons-Found r regions address none miss f = absent
  where
    absent : (s : Region) → ¬ Holds (r ∷ regions) address s
    absent s (zero, e, h) = ground (arith, e, h, miss)
    absent s (suc i, e, h) = f s (i, e, h)
cons-Found r regions address (some t) miss ((i, e, h), only) = ((suc i, e, h), unique)
  where
    unique : (s : Region) → Holds (r ∷ regions) address s → s ≡ t
    unique s (zero, e', h') = ground (arith, e', h', miss)
    unique s (suc j, e', h') = only s (j, e', h')

-- The head ends above the address, so no later region contains it.
head-Found :
    (r : Region) (regions : List Region) (address : ℕ)
    → Follows r.range.end_address regions
    → address < r.range.end_address
    → Found (r ∷ regions) address (filtered (some r) address)
unfolding Found
head-Found r regions address f below = elim (Bool-cases (contains r address)) [
  | inl hit ↦ rw (Found, hit) ((0, refl, hit), unique)
  | inr miss ↦ rw (Found, miss) (nothing miss)
]
  where
    later : (s : Region) (i : ℕ) → get_elem? regions i ≡ some s → contains s address ≡ true → ⊥
    later s i e h =
        omega (arith, inside s address h, Follows-above regions r.range.end_address i f e)

    unique : (s : Region) → Holds (r ∷ regions) address s → s ≡ r
    unique s (zero, e, h) = cc
    unique s (suc i, e, h) = absurd (later s i e h)

    nothing : contains r address ≡ false → (s : Region) → ¬ Holds (r ∷ regions) address s
    nothing miss s (zero, e, h) = ground (arith, e, h, miss)
    nothing miss s (suc i, e, h) = later s i e h

at_point-Found :
    (regions : List Region) (address lo : ℕ)
    → Follows lo regions
    → Found regions address (at_point regions address)
unfolding Found
at_point-Found [] address lo f = λ r (i, e, h). cc
at_point-Found (r ∷ regions) address lo (low, nonempty, f) =
    elim (Bool-cases (leb r.range.end_address address)) [
      | inl past ↦ rw past (
          cons-Found r regions address (at_point regions address) (outside r address past)
            (at_point-Found regions address r.range.end_address f))
      | inr here ↦ rw here (head-Found r regions address f (ground (arith, here)))
    ]

region_at-Found :
    (regions : List Region) (address : ℕ)
    → Follows 0 regions
    → Found regions address (region_at regions address)
unfolding region_at
region_at-Found regions address f = at_point-Found regions address 0 f

-- On regions that are nonempty, ascending and not overlapping: `region_at` returns a region exactly
-- when it stands in the list and contains the address. So there is at most one such region.
pub region_at-Holds :
    (regions : List Region) (address : ℕ) (r : Region)
    → Follows 0 regions
    → (region_at regions address ≡ some r) ↔ Holds regions address r
unfolding Found
region_at-Holds regions address r f =
    either (region_at regions address) (region_at-Found regions address f)
  where
    either : (o : Option Region) → Found regions address o → (o ≡ some r) ↔ Holds regions address r
    either none absent = ((λ e. cc), λ h. absurd (absent r h))
    either (some s) (h, only) =
        ((λ e. let same : s ≡ r = cc in rw (← same) h), λ k. ap some (sym (only r k)))

-- On such regions `readable_bytes` returns the extent exactly when a region that is readable contains
-- the address and ends that many bytes above it.
pub readable_bytes-Holds :
    (flags : Flags) (regions : List Region) (address n : ℕ)
    → Follows 0 regions
    → (readable_bytes flags regions address ≡ some n) ↔ (
        (r : Region) × Holds regions address r
        × (has r.attributes flags.read ≡ true)
        × (address + n ≡ r.range.end_address))
unfolding readable_bytes
readable_bytes-Holds flags regions address n f = elim (Option-cases (region_at regions address)) [
  | inl unmapped ↦ (
    (λ e. ground (arith, e, unmapped)),
    λ (r, h, _, _). let found = (region_at-Holds regions address r f).1 h in cc,
  )
  | inr (s, found) ↦
      let here = (region_at-Holds regions address s f).0 found in
      (
        λ e. (s, here, ground (arith, e, found), ground (arith, e, found, inside s address here.2)),
        λ (r, h, readable, extent).
            let held = (region_at-Holds regions address r f).1 h in
            ground (arith, held, readable, extent),
      )
]
