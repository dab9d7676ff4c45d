-- ===== src/Pattern/Atom/Slots.antt =====
-- `Pattern::capture_len` of ganymede-pattern-core/src/pattern.rs: the number of slots a caller needs.
use ganymede.Common.{ℕ, ◌≤◌, ◌<◌, ◌↔◌, List, [], ◌∷◌, Option, none, some, All, arith}
use ganymede.Pattern.Atom.{Atom, slot, widen, capture_loop, capture_len}

abbrev pub OptionBelow : ℕ → Option ℕ → Type 0
OptionBelow n none = Unit
OptionBelow n (some s) = s < n

-- The slot that the atom names, if it names one, is among the first `n`.
abbrev pub SlotBelow : ℕ → Atom → Type 0
SlotBelow n a = OptionBelow n (slot a)

widen-le : (w n : ℕ) (o : Option ℕ) → (widen w o ≤ n) ↔ (w ≤ n) × OptionBelow n o
widen-le w n none = (λ h. (h, tt), λ h. h.0)
widen-le w n (some s) = (λ h. ground (arith, h), λ h. ground (arith, h))

capture_loop-le :
    (atoms : List Atom) (w n : ℕ) → (capture_loop w atoms ≤ n) ↔ (w ≤ n) × All (SlotBelow n) atoms
capture_loop-le [] w n = (λ h. (h, tt), λ h. h.0)
capture_loop-le (a ∷ atoms) w n =
    let (to, from) = capture_loop-le atoms (widen w (slot a)) n in
    let (split, join) = widen-le w n (slot a) in
    (
      λ h. let (bound, all) = to h in let (low, here) = split bound in (low, (here, all)),
      λ (low, (here, all)). from (join (low, here), all),
    )

-- `capture_len` is the least number of slots that holds every slot the atoms name: it is at most `n`
-- exactly when each named slot is below `n`.
pub capture_len-SlotBelow :
    (atoms : List Atom) (n : ℕ) → (capture_len atoms ≤ n) ↔ All (SlotBelow n) atoms
unfolding capture_len
capture_len-SlotBelow atoms n =
    let (to, from) = capture_loop-le atoms 0 n in (λ h. (to h).1, λ all. from (omega arith, all))
