-- ===== src/Scheduler/Queue.antt =====
-- The operations of the run queue as a list without repetition.
use rockos.Prelude.{
  ℕ, ◌≡◌, refl, true, false, ◌||◌, List, [], ◌∷◌, ◌++◌, arith, ◌==◌, if◌then◌else◌, Bool-cases, inl,
  inr,
}
use rockos.Process.{ProcessTable, slot_is_alive_runnable}
use rockos.Scheduler.{contains, rotate, remove, drop_dead}

-- No slot stands in the queue twice.
abbrev pub Distinct : List ℕ → Type 0
Distinct [] = Unit
Distinct (c ∷ q) = (contains q c ≡ false) × Distinct q

pub contains-append : (q r : List ℕ) (j : ℕ) → contains (q ++ r) j ≡ (contains q j || contains r j)
unfolding contains
contains-append [] r j = refl
contains-append (c ∷ q) r j = ground (arith, contains-append q r j)

pub contains-rotate : (q : List ℕ) (j : ℕ) → contains (rotate q) j ≡ contains q j
unfolding contains rotate
contains-rotate [] j = refl
contains-rotate (c ∷ q) j = ground (arith, contains-append q (c ∷ []) j)

pub contains-remove :
    (q : List ℕ) (slot j : ℕ)
    → contains (remove q slot) j ≡ (if slot == j then false else contains q j)
unfolding contains remove
contains-remove [] slot j = ground arith
contains-remove (c ∷ q) slot j = ground (arith, contains-remove q slot j)

Distinct-snoc : (q : List ℕ) (c : ℕ) → contains q c ≡ false → Distinct q → Distinct (q ++ c ∷ [])
unfolding contains
Distinct-snoc [] c h d = (refl, tt)
Distinct-snoc (x ∷ q) c h d =
    (ground (arith, contains-append q (c ∷ []) x, h, d.0), Distinct-snoc q c (ground arith) d.1)

pub Distinct-append_one :
    (q : List ℕ) (c : ℕ) → contains q c ≡ false → Distinct q → Distinct (q ++ c ∷ [])
Distinct-append_one = Distinct-snoc

pub Distinct-rotate : (q : List ℕ) → Distinct q → Distinct (rotate q)
unfolding rotate
Distinct-rotate [] d = tt
Distinct-rotate (c ∷ q) d = Distinct-snoc q c d.0 d.1

pub Distinct-remove : (q : List ℕ) (slot : ℕ) → Distinct q → Distinct (remove q slot)
unfolding remove
Distinct-remove [] slot d = tt
Distinct-remove (c ∷ q) slot d = elim (Bool-cases (c == slot)) [
  | inl gone ↦ rw gone (Distinct-remove q slot d.1)
  | inr kept ↦ rw kept (ground (arith, contains-remove q slot c, d.0), Distinct-remove q slot d.1)
]

-- A queue of live tasks loses nothing at its front.
pub drop_dead-alive :
    (t : ProcessTable) (q : List ℕ)
    → ((j : ℕ) → contains q j ≡ true → slot_is_alive_runnable t j ≡ true)
    → drop_dead t q ≡ q
unfolding drop_dead contains
drop_dead-alive t [] h = refl
drop_dead-alive t (c ∷ q) h = ground (arith, h c)
