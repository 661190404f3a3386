-- ===== src/Mmap/Owning.antt =====
-- The areas of every process stay in the window for `mmap`.
use rockos.Prelude.{
  ℕ, zero, suc, ◌+◌, ◌*◌, ◌/◌, ◌%◌, ◌^◌, ◌≤◌, ◌<◌, ◌≡◌, refl, sym, subst, not, ◌||◌, none, some,
  List, [], ◌∷◌, ◌++◌, All, All-append, arith, ◌==◌, ltb, ◌-◌, Bool-cases, Option-cases, inl, inr,
}
use rockos.Memory.{BitmapFrameAllocator, page_size}
use rockos.Process.{
  VmArea, Process, ProcessTable, process_at, update_at, user_mmap_base, user_mmap_limit,
}
use rockos.Process.Areas.{InWindow, OwnsWindow}
use rockos.Brk.{Mapper, Space}
use rockos.Mmap.{
  MmapState, sys_mmap, sys_munmap, saturating_add, retain, hit, is_area, map_at,
  map_user_anon_pages, area_flags, writes, executes,
}
use rockos.Mmap.Windows.{Outcome, refused, mapped, sys_mmap-Outcome}

abbrev pub AllOwn : ProcessTable → Type 0
AllOwn t = All OwnsWindow t

update_at-All :
    (t : ProcessTable) (slot : ℕ) (f : Process → Process)
    → ((p : Process) → All InWindow p.vm_areas → All InWindow ((f p).vm_areas))
    → AllOwn t
    → AllOwn (update_at t slot f)
unfolding update_at
update_at-All [] slot f keep h = tt
update_at-All (none ∷ t) zero f keep h = h
update_at-All (some p ∷ t) zero f keep h = (keep p h.0, h.1)
update_at-All (none ∷ t) (suc slot) f keep h = (h.0, update_at-All t slot f keep h.1)
update_at-All (some p ∷ t) (suc slot) f keep h = (h.0, update_at-All t slot f keep h.1)

retain-All :
    (addr end : ℕ) (areas : List VmArea) → All InWindow areas → All InWindow (retain addr end areas)
unfolding retain
retain-All addr end [] h = tt
retain-All addr end (a ∷ areas) h = elim (Bool-cases (is_area addr end a)) [
  | inl same ↦ rw same (retain-All addr end areas h.1)
  | inr other ↦ rw other (h.0, retain-All addr end areas h.1)
]

module _ {T : Type 0} (M : Mapper T) where
  Outcome-AllOwn :
      (a : Space T) (len : ℕ) (out : ℕ × MmapState T)
      → Outcome M a len out
      → AllOwn a.procs
      → AllOwn out.1.space.procs
  Outcome-AllOwn a len out (refused e same) h = subst AllOwn (sym same) h
  Outcome-AllOwn a len out (mapped area starts inside holds procs pages kept) h =
      subst AllOwn (sym procs) (
        update_at-All a.procs a.current_slot (λ p. record p { vm_areas = p.vm_areas ++ area ∷ [] })
          (λ p w. All-append InWindow p.vm_areas (area ∷ []) w (inside, tt)) h)

  sys_munmap-AllOwn :
      (a : Space T) (addr len : ℕ) → AllOwn a.procs → AllOwn (sys_munmap M a addr len).1.procs
  unfolding sys_munmap
  sys_munmap-AllOwn a addr len h = elim (Bool-cases (not (addr % page_size == 0) || len == 0)) [
    | inl unfit ↦ rw unfit h
    | inr fit ↦ elim (Option-cases (process_at a.procs a.current_slot)) [
      | inl absent ↦ rw (fit, absent) h
      | inr (p, there) ↦
          let end = saturating_add addr len in
          elim (Bool-cases (hit addr end p.vm_areas)) [
            | inr miss ↦ rw (fit, there, miss) h
            | inl found ↦
                rw (fit, there, found)
                  (update_at-All a.procs a.current_slot
                    (λ q. record q { vm_areas = retain addr end q.vm_areas })
                    (λ q w. retain-All addr end q.vm_areas w) h)
          ]
    ]
  ]

  -- NEXT_MMAP is the start of a page from the window's start on, and all areas lie in the window.
  pub record IsValid (m : MmapState T) : Type 0 where
    pub aligned : m.next_mmap % page_size ≡ 0
    pub from : user_mmap_base ≤ m.next_mmap
    pub owned : AllOwn m.space.procs

  next_mmap-map_at :
      (m : MmapState T) (addr n_pages prot : ℕ)
      → (map_at M m addr n_pages prot).1.next_mmap ≡ m.next_mmap
  unfolding map_at
  next_mmap-map_at m addr n_pages prot =
      let s : T × BitmapFrameAllocator = (m.space.pages, m.space.allocator) in
      elim (Bool-cases
        (map_user_anon_pages M n_pages addr (area_flags (writes prot) (executes prot)) s).0) [
          | inl ok ↦ rw ok refl
          | inr failed ↦ rw failed refl
        ]

  -- A value that NEXT_MMAP may go on to from `n`.
  abbrev pub Follows : (n n' : ℕ) → Type 0
  Follows n n' = (n' % page_size ≡ 0) × (n ≤ n')

  next_mmap-sys_mmap :
      (m : MmapState T) (addr len prot : ℕ)
      → m.next_mmap < 2 ^ 63
      → m.next_mmap % page_size ≡ 0
      → Follows m.next_mmap (sys_mmap M m addr len prot).1.next_mmap
  unfolding sys_mmap
  next_mmap-sys_mmap m addr len prot small aligned =
      let n_pages = (len + page_size - 1) / page_size in
      let next = (m.next_mmap + n_pages * page_size) % 2 ^ 64 in
      let m' : MmapState T = record m { next_mmap = next } in
      let moved = next_mmap-map_at m' m.next_mmap n_pages prot in
      let kept = next_mmap-map_at m addr n_pages prot in
      elim (Bool-cases (len == 0 || ltb (user_mmap_limit - user_mmap_base) len)) [
        | inl unfit ↦ rw unfit (aligned, omega arith)
        | inr fits ↦
            let small_len : len ≤ user_mmap_limit - user_mmap_base = ground arith in
            let follows : Follows m.next_mmap next = (omega arith, omega arith) in
            rw fits (ground (arith, moved, kept, follows, aligned))
      ]

  -- Calls of the owner of the current slot. An `mmap` counts while NEXT_MMAP does not wrap.
  pub data Step : MmapState T → MmapState T → Type 0 where
    maps :
        (m : MmapState T) (addr len prot : ℕ)
        → m.next_mmap < 2 ^ 63
        → Step m (sys_mmap M m addr len prot).1
    unmaps :
        (m : MmapState T) (addr len : ℕ)
        → Step m (record m { space = (sys_munmap M m.space addr len).1 })

  -- Any number of calls, in any order.
  pub data Calls : MmapState T → MmapState T → Type 0 where
    done : (m : MmapState T) → Calls m m
    step : {m m' m'' : MmapState T} → Step m m' → Calls m' m'' → Calls m m''

  Step-IsValid : {m m' : MmapState T} → Step m m' → IsValid m → IsValid m'
  Step-IsValid (maps m addr len prot small) v =
      let (aligned, follows) = next_mmap-sys_mmap m addr len prot small v.aligned in
      record {
        aligned = aligned;
        from = omega (arith, v.from);
        owned =
            Outcome-AllOwn m.space len (sys_mmap M m addr len prot)
              (sys_mmap-Outcome M m addr len prot v.aligned v.from) v.owned;
      }
  Step-IsValid (unmaps m addr len) v = record {
    aligned = v.aligned;
    from = v.from;
    owned = sys_munmap-AllOwn m.space addr len v.owned;
  }

  -- Whatever is mapped and unmapped, in any order and with any arguments and results, the areas of
  -- every process stay in the window for `mmap` while NEXT_MMAP does not wrap.
  pub Calls-IsValid : {m m' : MmapState T} → Calls m m' → IsValid m → IsValid m'
  Calls-IsValid (done m) v = v
  Calls-IsValid (step first rest) v = Calls-IsValid rest (Step-IsValid first v)
