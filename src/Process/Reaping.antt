-- ===== src/Process/Reaping.antt =====
-- What `wait_reap` of src/process.rs takes out of the table, and what keeps it from doing so.
use rockos.Prelude.{
  ℕ, zero, suc, subst, ◌<◌, ◌≡◌, ◌≢◌, refl, ap, Bool, true, false, ◌&&◌, not, Option, none, some,
  [], ◌∷◌, arith, set, Bool-cases, inl, inr, Option-cases,
}
use rockos.Process.{
  Process, ProcessTable, process_at, has_parent, is_target, is_running, reap_from, current_pid,
  wait_reap,
}

-- A slot with a child of `me` that has exited and fits the target; one with a child that runs.
abbrev pub reapable : (me target : ℕ) → Option Process → Bool
reapable me target none = false
reapable me target (some p) = has_parent p me && (not (is_running p) && is_target target p.pid)

abbrev pub running_child : (me : ℕ) → Option Process → Bool
running_child me none = false
running_child me (some p) = has_parent p me && is_running p

-- The slot from which the reaped process was taken.
record Taken (me target : ℕ) (t : ProcessTable) (pid code : ℕ) (t' : ProcessTable) : Type 0 where
  slot : ℕ
  child : Process
  there : process_at t slot ≡ some child
  reaped_pid : child.pid ≡ pid
  of_me : has_parent child me ≡ true
  exited : child.exit_code ≡ some code
  fits : is_target target pid ≡ true
  emptied : t' ≡ set t slot none

abbrev Outcome : (me target : ℕ) → ProcessTable → Option (ℕ × ℕ) × ProcessTable → Type 0
Outcome me target t (none, t') = t' ≡ t
Outcome me target t (some (pid, code), t') = Taken me target t pid code t'

-- A slot that the loop passes over.
Outcome-cons :
    (me target : ℕ) (o : Option Process) (t : ProcessTable) (out : Option (ℕ × ℕ) × ProcessTable)
    → Outcome me target t out
    → Outcome me target (o ∷ t) (out.0, o ∷ out.1)
Outcome-cons me target o t (none, t') h = ap (λ l. o ∷ l) h
Outcome-cons me target o t (some (pid, code), t') h = record {
  slot = suc h.slot;
  child = h.child;
  there = h.there;
  reaped_pid = h.reaped_pid;
  of_me = h.of_me;
  exited = h.exited;
  fits = h.fits;
  emptied = ap (λ l. o ∷ l) h.emptied;
}

reap_from-Outcome : (me target : ℕ) (t : ProcessTable) → Outcome me target t (reap_from me target t)
unfolding reap_from
reap_from-Outcome me target [] = refl
reap_from-Outcome me target (none ∷ t) =
    Outcome-cons me target none t (reap_from me target t) (reap_from-Outcome me target t)
reap_from-Outcome me target (some p ∷ t) =
    let pass =
      Outcome-cons me target (some p) t (reap_from me target t) (reap_from-Outcome me target t) in
    elim (Bool-cases (has_parent p me)) [
      | inr other ↦ rw other pass
      | inl mine ↦ elim (Option-cases p.exit_code) [
        | inl running ↦ simp (mine, running) refl
        | inr (code, exited) ↦ elim (Bool-cases (is_target target p.pid)) [
          | inr unfit ↦ simp (mine, exited, unfit) pass
          | inl fit ↦
              simp (mine, exited, fit)
                (record {
                  slot = 0;
                  child = p;
                  there = refl;
                  reaped_pid = refl;
                  of_me = mine;
                  exited = exited;
                  fits = fit;
                  emptied = refl;
                })
        ]
      ]
    ]

-- A successful `wait_reap` takes one process out of the table: a child of the caller that has
-- exited and fits the target, whose pid and exit code are the result. Its slot is emptied and no
-- other slot changes.
pub wait_reap-some :
    (t : ProcessTable) (current_slot target : ℕ) {pid code : ℕ} {t' : ProcessTable}
    → wait_reap t current_slot target ≡ (some (pid, code), t')
    → (slot : ℕ) × (child : Process) × (process_at t slot ≡ some child)
      × (child.pid ≡ pid)
      × (child.exit_code ≡ some code)
      × (has_parent child (current_pid t current_slot) ≡ true)
      × (is_target target pid ≡ true)
      × (t' ≡ set t slot none)
unfolding wait_reap
wait_reap-some t current_slot target e =
    let me = current_pid t current_slot in
    let h = subst (Outcome me target t) e (reap_from-Outcome me target t) in
    (h.slot, h.child, h.there, h.reaped_pid, h.exited, h.of_me, h.fits, h.emptied)

reap_from-running :
    (me target : ℕ) (t : ProcessTable) (slot : ℕ)
    → ((i : ℕ) → i < slot → reapable me target (process_at t i) ≡ false)
    → running_child me (process_at t slot) ≡ true
    → reap_from me target t ≡ (none, t)
unfolding reap_from
reap_from-running me target [] slot none_before h = cc
reap_from-running me target (none ∷ t) zero none_before h = cc
reap_from-running me target (some p ∷ t) zero none_before h = ground arith
reap_from-running me target (none ∷ t) (suc slot) none_before h =
    ground (arith, reap_from-running me target t slot (λ i hi. none_before (suc i) (omega arith)) h)
reap_from-running me target (some p ∷ t) (suc slot) none_before h = ground (
  arith,
  none_before 0 (omega arith),
  reap_from-running me target t slot (λ i hi. none_before (suc i) (omega arith)) h,
)

-- A running child hides every exited child in a later slot: if the first slots up to that of a
-- running child of the caller hold no child to reap, `wait_reap` reports none and changes nothing,
-- whatever the slots behind it hold.
pub wait_reap_blocked :
    (t : ProcessTable) (current_slot target slot : ℕ)
    → ((i : ℕ) → i < slot → reapable (current_pid t current_slot) target (process_at t i) ≡ false)
    → running_child (current_pid t current_slot) (process_at t slot) ≡ true
    → wait_reap t current_slot target ≡ (none, t)
unfolding wait_reap
wait_reap_blocked t current_slot target slot none_before h =
    reap_from-running (current_pid t current_slot) target t slot none_before h

reap_from-all_exited :
    (me target : ℕ) (t : ProcessTable) (slot : ℕ)
    → ((i : ℕ) → running_child me (process_at t i) ≡ false)
    → reapable me target (process_at t slot) ≡ true
    → (reap_from me target t).0 ≢ none
unfolding reap_from
reap_from-all_exited me target [] slot none_running h = cc
reap_from-all_exited me target (none ∷ t) zero none_running h = cc
reap_from-all_exited me target (some p ∷ t) zero none_running h = ground arith
reap_from-all_exited me target (none ∷ t) (suc slot) none_running h =
    reap_from-all_exited me target t slot (λ i. none_running (suc i)) h
reap_from-all_exited me target (some p ∷ t) (suc slot) none_running h =
    ground
      (arith, none_running 0, reap_from-all_exited me target t slot (λ i. none_running (suc i)) h)

-- Where no child of the caller runs, `wait_reap` finds a child if there is one to reap.
pub wait_reap_finds :
    (t : ProcessTable) (current_slot target slot : ℕ)
    → ((i : ℕ) → running_child (current_pid t current_slot) (process_at t i) ≡ false)
    → reapable (current_pid t current_slot) target (process_at t slot) ≡ true
    → (wait_reap t current_slot target).0 ≢ none
unfolding wait_reap
wait_reap_finds t current_slot target slot none_running h =
    reap_from-all_exited (current_pid t current_slot) target t slot none_running h
