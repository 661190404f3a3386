-- ===== src/Process/Pid.antt =====
-- `alloc_pid` finds a fresh pid whenever the table has room for one more process.
use rockos.Prelude.{
  ℕ, zero, suc, ◌+◌, ◌≤◌, ◌<◌, ◌≡◌, refl, true, false, none, some, [], ◌∷◌, arith, length, leb,
  if◌then◌else◌, Bool-cases, inl, inr,
}
use rockos.Process.{ProcessTable, pid_used, alloc_pid_from, alloc_pid}

-- How many processes have a pid of at least `c`.
count_from : ProcessTable → ℕ → ℕ
count_from [] c = 0
count_from (none ∷ t) c = count_from t c
count_from (some p ∷ t) c = (if leb c p.pid then 1 else 0) + count_from t c

count_from-le : (t : ProcessTable) (c : ℕ) → count_from t c ≤ length t
unfolding count_from
count_from-le [] c = omega arith
count_from-le (none ∷ t) c = omega (arith, count_from-le t c)
count_from-le (some p ∷ t) c = ground (arith, count_from-le t c)

count_from_mono : (t : ProcessTable) (c : ℕ) → count_from t (c + 1) ≤ count_from t c
unfolding count_from
count_from_mono [] c = omega arith
count_from_mono (none ∷ t) c = count_from_mono t c
count_from_mono (some p ∷ t) c = ground (arith, count_from_mono t c)

-- A used pid makes the count fall.
count_from-pid_used :
    (t : ProcessTable) (c : ℕ) → pid_used t c ≡ true → count_from t (c + 1) < count_from t c
unfolding count_from pid_used
count_from-pid_used [] c h = cc
count_from-pid_used (none ∷ t) c h = count_from-pid_used t c h
count_from-pid_used (some p ∷ t) c h = ground (arith, count_from-pid_used t c, count_from_mono t c)

-- More candidates than pids from `cand` on: one of them is fresh, and it is the first such.
alloc_pid_from_total :
    (t : ProcessTable) (n cand : ℕ)
    → count_from t cand < n
    → (pid : ℕ) × (alloc_pid_from t n cand ≡ some pid)
      × (cand ≤ pid)
      × (pid < cand + n)
      × (pid_used t pid ≡ false)
unfolding alloc_pid_from
alloc_pid_from_total t zero cand h = absurd (omega arith)
alloc_pid_from_total t (suc n) cand h = elim (Bool-cases (pid_used t cand)) [
  | inl used ↦
      let r =
        alloc_pid_from_total t n (cand + 1) (omega (arith, count_from-pid_used t cand used)) in
      rw used (r.0, r.1, omega (arith, r.2), omega (arith, r.3), r.4)
  | inr fresh ↦ rw fresh (cand, refl, omega arith, omega arith, fresh)
]

-- In a table of at most 32 slots `alloc_pid` always finds a pid, which lies between 2 and 1023 and
-- belongs to no process of the table.
pub alloc_pid_total :
    (t : ProcessTable)
    → length t ≤ 32
    → (pid : ℕ) × (alloc_pid t ≡ some pid) × (2 ≤ pid) × (pid < 1024) × (pid_used t pid ≡ false)
unfolding alloc_pid
alloc_pid_total t h = alloc_pid_from_total t 1022 2 (omega (arith, count_from-le t 2))
