-- ===== src/Process/Areas.antt =====
-- The memory that the current process owns: `covers_brk_heap`, `covers_mmap_read` and
-- `covers_mmap_write` of src/process.rs.
use rockos.Prelude.{
  ℕ, ◌+◌, ◌*◌, ◌≤◌, ◌≡◌, Bool, true, false, ◌&&◌, Option, none, some, List, [], ◌∷◌, arith, All,
  leb, if◌then◌else◌,
}
use rockos.Process.{
  VmArea, Process, ProcessTable, process_at, user_brk_base, user_brk_limit, user_mmap_base,
  user_mmap_limit,
}

abbrev pub area_end : VmArea → ℕ
area_end a = a.virt_start + a.pages * 4096

unfoldable pub covers_brk_heap : ProcessTable → (current_slot addr end : ℕ) → Bool
covers_brk_heap t current_slot addr end = elim (process_at t current_slot) [
  | none ↦ false
  | some p ↦ leb user_brk_base addr && (leb end p.brk_end && leb end user_brk_limit)
]

-- The loop over the areas; a write skips those that are not writable.
unfoldable pub covered : (write : Bool) → List VmArea → (addr end : ℕ) → Bool
covered write [] addr end = false
covered write (a ∷ areas) addr end =
    let rest = covered write areas addr end in
    if (if write then a.writable else true) && (leb a.virt_start addr && leb end (area_end a))
    then true
    else rest

unfoldable pub covers_mmap_read : ProcessTable → (current_slot addr end : ℕ) → Bool
covers_mmap_read t current_slot addr end = elim (process_at t current_slot) [
  | none ↦ false
  | some p ↦ covered false p.vm_areas addr end
]

unfoldable pub covers_mmap_write : ProcessTable → (current_slot addr end : ℕ) → Bool
covers_mmap_write t current_slot addr end = elim (process_at t current_slot) [
  | none ↦ false
  | some p ↦ covered true p.vm_areas addr end
]

-- An area of the window for `mmap`.
abbrev pub InWindow : VmArea → Type 0
InWindow a = (user_mmap_base ≤ a.virt_start) × (area_end a ≤ user_mmap_limit)

-- What may be written may be read.
pub covered-read :
    (areas : List VmArea) (addr end : ℕ)
    → covered true areas addr end ≡ true
    → covered false areas addr end ≡ true
unfolding covered
covered-read [] addr end h = cc
covered-read (a ∷ areas) addr end h = ground (arith, covered-read areas addr end)

pub covered_bounds :
    (write : Bool) (areas : List VmArea) (addr end : ℕ)
    → All InWindow areas
    → covered write areas addr end ≡ true
    → (user_mmap_base ≤ addr) × (end ≤ user_mmap_limit)
unfolding covered
covered_bounds write [] addr end w h = cc
covered_bounds write (a ∷ areas) addr end w h =
    ground (arith, covered_bounds write areas addr end w.1)

-- A process whose areas lie in the window for `mmap`.
abbrev pub OwnsWindow : Option Process → Type 0
OwnsWindow none = Unit {0}
OwnsWindow (some p) = All InWindow p.vm_areas
