-- ===== src/Brk/Heap.antt =====
-- The heap that the process table records lies in mapped pages.
use rockos.Prelude.{
  ℕ, ◌≤◌, ◌<◌, ◌≡◌, ◌⊎◌, ◌∙◌, refl, sym, ap, subst, true, none, some, arith, ◌==◌, ltb,
  if◌then◌else◌, Bool-cases, Option-cases, inl, inr, ltb→lt, ◌||◌,
}
use rockos.Memory.{BitmapFrameAllocator}
use rockos.Process.{Process, ProcessTable, process_at, update_at, user_brk_base, user_brk_limit}
use rockos.Process.Slots.{change, process_at-update_at}
use rockos.Process.Areas.{covers_brk_heap}
use rockos.Fs.{errno}
use rockos.Brk.{
  Mapper, Space, is_some, containing_address, map_brk_grow, map_brk_shrink, with_pages,
  with_brk_end, brk_from, sys_brk, heap_flags,
}
use rockos.Brk.Growing.{IsMapped, map_brk_grow-Grown}
use rockos.Brk.Shrinking.{map_brk_shrink-keeps}

-- The end of the heap of the current process; without a process the heap is empty.
module _ {T : Type 0} where
  abbrev pub heap_end : Space T → ℕ
  heap_end a = elim (process_at a.procs a.current_slot) [
    | some p ↦ p.brk_end
    | none ↦ user_brk_base
  ]

module _ {T : Type 0} (M : Mapper T) where
  -- The heap ends in its window, and every address in it lies in a mapped page.
  pub record IsValid (a : Space T) : Type 0 where
    pub starts : user_brk_base ≤ heap_end a
    pub ends : heap_end a ≤ user_brk_limit
    pub mapped :
        (addr : ℕ)
        → user_brk_base ≤ addr
        → addr < heap_end a
        → IsMapped M a.pages (containing_address addr)

  update_at_self :
      (t : ProcessTable) (slot : ℕ) (f : Process → Process) (p : Process)
      → process_at t slot ≡ some p
      → process_at (update_at t slot f) slot ≡ some (f p)
  update_at_self t slot f p there =
      let same : (slot == slot) ≡ true = ground arith in
      process_at-update_at t slot slot f
      ∙ ap (λ b. if b then change f (process_at t slot) else process_at t slot) same
      ∙ ap (change f) there

  heap_end-with_brk_end :
      (a : Space T) (addr : ℕ) (p : Process)
      → process_at a.procs a.current_slot ≡ some p
      → heap_end (with_brk_end M a addr) ≡ addr
  heap_end-with_brk_end a addr p there =
      ap (λ o. elim o [ some q ↦ q.brk_end | none ↦ user_brk_base ])
        (update_at_self a.procs a.current_slot (λ q. record q { brk_end = addr }) p there)

  -- `brk` answers with the end of the heap afterwards, or with ENOMEM and the end as it was; the
  -- heap stays valid.
  pub record Moved (a : Space T) (out : ℕ × Space T) : Type 0 where
    pub answer : (out.0 ≡ heap_end out.1) ⊎ ((out.0 ≡ errno 12) × (heap_end out.1 ≡ heap_end a))
    pub valid : IsValid out.1

  stays : (a : Space T) → IsValid a → Moved a (errno 12, a)
  stays a v = record { answer = inr (refl, refl); valid = v }

  with_end :
      (a : Space T) (t : T) (fa : BitmapFrameAllocator) (addr : ℕ) (p : Process)
      → process_at a.procs a.current_slot ≡ some p
      → user_brk_base ≤ addr
      → addr ≤ user_brk_limit
      → ((x : ℕ) → user_brk_base ≤ x → x < addr → IsMapped M t (containing_address x))
      → Moved a (addr, with_brk_end M (with_pages M a (t, fa)) addr)
  with_end a t fa addr p there lo hi all =
      let a' = with_pages M a (t, fa) in
      let e = heap_end-with_brk_end a' addr p there in
      record {
        answer = inl (sym e);
        valid = record {
          starts = omega (arith, e);
          ends = omega (arith, e);
          mapped = λ x base_x x_end. all x base_x (omega (arith, e));
        };
      }

  heap_end_of :
      (a : Space T) (p : Process)
      → process_at a.procs a.current_slot ≡ some p
      → heap_end a ≡ p.brk_end
  heap_end_of a p there = ap (λ o. elim o [ some q ↦ q.brk_end | none ↦ user_brk_base ]) there

  grown :
      (a : Space T) (p : Process) (addr : ℕ)
      → process_at a.procs a.current_slot ≡ some p
      → IsValid a
      → heap_end a ≤ addr
      → addr ≤ user_brk_limit
      → let (done, s) = map_brk_grow M p.brk_end addr heap_flags (a.pages, a.allocator) in
        Moved a (
          if done
          then (addr, with_brk_end M (with_pages M a s) addr)
          else (errno 12, with_pages M a s))
  grown a p addr there v lo hi =
      let e = heap_end_of a p there in
      let out = map_brk_grow M p.brk_end addr heap_flags (a.pages, a.allocator) in
      let (keeps, maps) = map_brk_grow-Grown M p.brk_end addr heap_flags (a.pages, a.allocator) in
      elim (Bool-cases out.0) [
        | inl ok ↦ rw ok (
            with_end a out.1.0 out.1.1 addr p there (omega (arith, v.starts)) hi (λ x base_x x_end.
              elim (Bool-cases (ltb x p.brk_end)) [
                | inl below ↦
                    keeps (containing_address x)
                      (v.mapped x base_x (omega (arith, e, ltb→lt x p.brk_end below)))
                | inr above ↦ maps ok x (ground arith) x_end
              ]))
        | inr failed ↦ rw failed (record {
          answer = inr (refl, refl);
          valid = record {
            starts = v.starts;
            ends = v.ends;
            mapped = λ x base_x x_end. keeps (containing_address x) (v.mapped x base_x x_end);
          };
        })
      ]

  shrunk :
      (a : Space T) (p : Process) (addr : ℕ)
      → process_at a.procs a.current_slot ≡ some p
      → IsValid a
      → user_brk_base ≤ addr
      → addr < heap_end a
      → Moved a (
        addr,
        with_brk_end M
            (with_pages M a (map_brk_shrink M addr p.brk_end (a.pages, a.allocator)))
            addr,
      )
  shrunk a p addr there v lo hi =
      let s = map_brk_shrink M addr p.brk_end (a.pages, a.allocator) in
      with_end a s.0 s.1 addr p there lo (omega (arith, v.ends)) (λ x base_x x_end.
        ap is_some (map_brk_shrink-keeps M addr p.brk_end x (a.pages, a.allocator) x_end)
        ∙ v.mapped x base_x (omega arith))

  brk_from-Moved :
      (a : Space T) (p : Process) (addr : ℕ)
      → process_at a.procs a.current_slot ≡ some p
      → IsValid a
      → Moved a (brk_from M a p.brk_end addr)
  unfolding brk_from
  brk_from-Moved a p addr there v =
      let e = heap_end_of a p there in
      let asked : Moved a (p.brk_end, a) = record { answer = inl (sym e); valid = v } in
      elim (Bool-cases (addr == 0)) [
        | inl zero_addr ↦ rw zero_addr asked
        | inr asks ↦ elim (Bool-cases (ltb addr user_brk_base || ltb user_brk_limit addr)) [
          | inl outside ↦ rw (asks, outside) (stays a v)
          | inr inside ↦ elim (Bool-cases (ltb addr p.brk_end)) [
            | inl below ↦
                rw (asks, inside, below)
                  (shrunk a p addr there v (ground arith)
                    (omega (arith, ltb→lt addr p.brk_end below)))
            | inr above ↦ elim (Bool-cases (addr == p.brk_end)) [
              | inl same ↦
                  let at_end : p.brk_end ≡ addr = ground arith in
                  rw (asks, inside, above, same) (subst (λ k. Moved a (k, a)) at_end asked)
              | inr other ↦
                  rw (asks, inside, above, other)
                    (grown a p addr there v (ground arith) (ground arith))
            ]
          ]
        ]
      ]

  -- On a valid heap `brk` answers with the end of the heap that it leaves, or with ENOMEM and leaves
  -- the end as it was; in each case the heap stays in its window and every address in it lies in a
  -- mapped page.
  pub sys_brk-Moved : (a : Space T) (addr : ℕ) → IsValid a → Moved a (sys_brk M a addr)
  unfolding sys_brk
  sys_brk-Moved a addr v = elim (Option-cases (process_at a.procs a.current_slot)) [
    | inl absent ↦ rw (absent, sys_brk) (stays a v)
    | inr (p, there) ↦ rw (there, sys_brk) (brk_from-Moved a p addr there v)
  ]

  covers_brk_heap-bounds :
      (a : Space T) (addr end : ℕ)
      → covers_brk_heap a.procs a.current_slot addr end ≡ true
      → (user_brk_base ≤ addr) × (end ≤ heap_end a)
  unfolding covers_brk_heap
  covers_brk_heap-bounds a addr end covered = ground arith

  -- On a valid heap every address of a range that `covers_brk_heap` accepts lies in a mapped page.
  pub covers_brk_heap-IsMapped :
      (a : Space T) (addr end x : ℕ)
      → IsValid a
      → covers_brk_heap a.procs a.current_slot addr end ≡ true
      → addr ≤ x
      → x < end
      → IsMapped M a.pages (containing_address x)
  unfolding covers_brk_heap
  covers_brk_heap-IsMapped a addr end x v covered lo hi =
      let (from, to) = covers_brk_heap-bounds a addr end covered in
      v.mapped x (omega arith) (omega arith)
