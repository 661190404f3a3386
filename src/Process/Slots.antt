-- ===== src/Process/Slots.antt =====
-- Changes of one slot of the process table, seen from every slot.
use rockos.Prelude.{
  ℕ, zero, suc, ◌≡◌, refl, ap, Option, none, some, [], ◌∷◌, arith, length, ◌==◌, if◌then◌else◌,
}
use rockos.Process.{Process, ProcessTable, process_at, update_at}

abbrev pub change : (Process → Process) → Option Process → Option Process
change f none = none
change f (some p) = some (f p)

pub length-update_at :
    (t : ProcessTable) (slot : ℕ) (f : Process → Process) → length (update_at t slot f) ≡ length t
unfolding update_at
length-update_at [] slot f = refl
length-update_at (none ∷ t) zero f = refl
length-update_at (some p ∷ t) zero f = refl
length-update_at (none ∷ t) (suc slot) f = ap suc (length-update_at t slot f)
length-update_at (some p ∷ t) (suc slot) f = ap suc (length-update_at t slot f)

pub process_at-update_at :
    (t : ProcessTable) (slot j : ℕ) (f : Process → Process)
    → process_at (update_at t slot f) j
      ≡ (if slot == j then change f (process_at t j) else process_at t j)
unfolding update_at
process_at-update_at [] slot j f = ground arith
process_at-update_at (none ∷ t) zero zero f = refl
process_at-update_at (some p ∷ t) zero zero f = refl
process_at-update_at (none ∷ t) zero (suc j) f = ground arith
process_at-update_at (some p ∷ t) zero (suc j) f = ground arith
process_at-update_at (none ∷ t) (suc slot) zero f = ground arith
process_at-update_at (some p ∷ t) (suc slot) zero f = ground arith
process_at-update_at (none ∷ t) (suc slot) (suc j) f =
    ground (arith, process_at-update_at t slot j f)
process_at-update_at (some p ∷ t) (suc slot) (suc j) f =
    ground (arith, process_at-update_at t slot j f)
