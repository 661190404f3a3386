-- ===== src/Fork/Placing.antt =====
-- The slot that `alloc_slot` of src/process.rs finds for a child.
use rockos.Prelude.{
  ℕ, zero, suc, ◌+◌, ◌≤◌, ◌<◌, ◌≡◌, ◌∙◌, refl, sym, ap, subst, none, some, [], ◌∷◌, ◌++◌, arith,
  length, length-append, set, get_or-set_self, get_or-set_ne, ltb, ◌==◌, if◌then◌else◌, Bool-cases,
  Option-cases, inl, inr,
}
use rockos.Process.{Process, ProcessTable, process_at, first_empty, alloc_slot, max_procs}

first_empty-some :
    (t : ProcessTable) (i s : ℕ)
    → first_empty i t ≡ some s
    → (k : ℕ) × (s ≡ i + k) × (k < length t) × (process_at t k ≡ none)
unfolding first_empty
first_empty-some [] i s e = cc
first_empty-some (none ∷ t) i s e = (0, ground arith, omega arith, refl)
first_empty-some (some p ∷ t) i s e =
    let (k, at, inside, absent) = first_empty-some t (i + 1) s e in
    (suc k, omega arith, omega arith, absent)

process_at-grown : (t : ProcessTable) (j : ℕ) → process_at (t ++ none ∷ []) j ≡ process_at t j
process_at-grown [] zero = refl
process_at-grown [] (suc j) = refl
process_at-grown (o ∷ t) zero = refl
process_at-grown (o ∷ t) (suc j) = process_at-grown t j

process_at-outside : (t : ProcessTable) (j : ℕ) → length t ≤ j → process_at t j ≡ none
process_at-outside [] j h = refl
process_at-outside (o ∷ t) zero h = absurd (omega arith)
process_at-outside (o ∷ t) (suc j) h = process_at-outside t j (omega arith)

-- The slot that `alloc_slot` gives, in the table that it leaves.
pub record FreeSlot (t : ProcessTable) (i : ℕ) (t' : ProcessTable) : Type 0 where
  pub inside : i < length t'
  pub absent : process_at t i ≡ none
  pub same : (j : ℕ) → process_at t' j ≡ process_at t j

pub alloc_slot-FreeSlot :
    (t : ProcessTable) (i : ℕ) → (alloc_slot t).0 ≡ some i → FreeSlot t i (alloc_slot t).1
unfolding alloc_slot
alloc_slot-FreeSlot t i e = elim (Option-cases (first_empty 0 t)) [
  | inr (s, found) ↦
      let (k, at, inside, absent) = first_empty-some t 0 s found in
      let step : alloc_slot t ≡ (some s, t) = rw (alloc_slot, found) refl in
      let same : some i ≡ some s = sym e ∙ ap (λ r. r.0) step in
      let index : k ≡ i = ground arith in
      rw step (record {
        inside = subst (λ n. n < length t) index inside;
        absent = subst (λ n. process_at t n ≡ none) index absent;
        same = λ j. refl;
      })
  | inl full ↦ elim (Bool-cases (ltb (length t) max_procs)) [
    | inl room ↦
        let step : alloc_slot t ≡ (some (length t), t ++ none ∷ []) =
          rw (alloc_slot, full) (rw room refl) in
        let same : some i ≡ some (length t) = sym e ∙ ap (λ r. r.0) step in
        let index : length t ≡ i = ground arith in
        rw step (record {
          inside = omega (arith, index, length-append t (none ∷ []));
          absent = process_at-outside t i (omega (arith, index));
          same = λ j. process_at-grown t j;
        })
    | inr none_left ↦
        let step : alloc_slot t ≡ (none, t) = rw (alloc_slot, full) (rw none_left refl) in
        let same : some i ≡ none = sym e ∙ ap (λ r. r.0) step in cc
  ]
]

pub process_at-set :
    (t : ProcessTable) (i j : ℕ) (p : Process)
    → i < length t
    → process_at (set t i (some p)) j ≡ (if i == j then some p else process_at t j)
process_at-set t i j p h = elim (Bool-cases (i == j)) [
  | inl here ↦
      let e : i ≡ j = ground arith in
      rw here (ap (process_at (set t i (some p))) (sym e) ∙ get_or-set_self t i (some p) none h)
  | inr away ↦ rw away (get_or-set_ne t i j (some p) none (ground arith))
]
