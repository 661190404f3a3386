-- ===== src/Mmap/Windows.antt =====
-- What `mmap` and `munmap` answer, and that the areas stay in their window.
use rockos.Prelude.{
  ℕ, ◌+◌, ◌-◌, ◌*◌, ◌/◌, ◌%◌, ◌^◌, ◌≤◌, ◌<◌, ◌≡◌, refl, false, ◌||◌, [], ◌∷◌, ◌++◌, arith, ltb,
  ◌==◌, Bool-cases, inl, inr,
}
use rockos.Memory.{BitmapFrameAllocator, page_size}
use rockos.Process.{VmArea, update_at, user_mmap_base, user_mmap_limit}
use rockos.Process.Areas.{area_end, InWindow}
use rockos.Fs.{errno}
use rockos.Brk.{Mapper, Space, containing_address}
use rockos.Brk.Growing.{IsMapped}
use rockos.Mmap.{
  MmapState, saturating_add, area_flags, writes, executes, new_area, map_user_anon_pages, map_at,
  sys_mmap,
}
use rockos.Mmap.Mapping.{map_user_anon_pages-Mapped}

in_window : (a b : ℕ) → ltb user_mmap_limit (saturating_add a b) ≡ false → a + b ≤ user_mmap_limit
in_window a b h = ground arith

-- The limit lies at the start of a page.
rounded :
    (addr len : ℕ)
    → addr % page_size ≡ 0
    → ltb user_mmap_limit (saturating_add addr len) ≡ false
    → addr + (len + page_size - 1) / page_size * page_size ≤ user_mmap_limit
rounded addr len aligned h = let room = in_window addr len h in omega arith

module _ {T : Type 0} (M : Mapper T) where
  -- The two outcomes of `mmap`. `refused`: an error, and no process has changed. `mapped`: the
  -- address of a range in the window whose every byte lies in a mapped page, no page being lost,
  -- and the caller owns a new area of the window that starts there.
  pub data Outcome (a : Space T) (len : ℕ) (out : ℕ × MmapState T) : Type 0 where
    refused : 2 ^ 64 - 4096 ≤ out.0 → out.1.space.procs ≡ a.procs → Outcome a len out
    mapped :
        (area : VmArea)
        → area.virt_start ≡ out.0
        → InWindow area
        → out.0 + len ≤ area_end area
        → out.1.space.procs
          ≡ update_at a.procs a.current_slot (λ p. record p { vm_areas = p.vm_areas ++ area ∷ [] })
        → ((x : ℕ)
            → out.0 ≤ x
            → x < area_end area
            → IsMapped M out.1.space.pages (containing_address x))
        → ((other : ℕ) → IsMapped M a.pages other → IsMapped M out.1.space.pages other)
        → Outcome a len out

  map_at-Outcome :
      (m : MmapState T) (addr len n_pages prot : ℕ)
      → addr % page_size ≡ 0
      → user_mmap_base ≤ addr
      → addr + n_pages * page_size ≤ user_mmap_limit
      → len ≤ n_pages * page_size
      → Outcome m.space len (map_at M m addr n_pages prot)
  unfolding map_at
  map_at-Outcome m addr len n_pages prot aligned lo hi room =
      let fl = area_flags (writes prot) (executes prot) in
      let s : T × BitmapFrameAllocator = (m.space.pages, m.space.allocator) in
      let out = map_user_anon_pages M n_pages addr fl s in
      elim (Bool-cases out.0) [
        | inr failed ↦ rw failed (refused (omega arith) refl)
        | inl ok ↦
            let pages = map_user_anon_pages-Mapped M n_pages addr fl s aligned ok in
            rw ok (
              mapped (new_area m.vm_area_next_id addr n_pages prot) refl (lo, hi) (omega arith) refl
                (λ x from to. pages.maps (containing_address x) (x, from, to, refl)) pages.keeps)
      ]

  -- From a NEXT_MMAP that is the start of a page in or behind the window, `mmap` refuses with an
  -- error and leaves every process as it was, or gives a range of the window that holds `len` bytes,
  -- all in mapped pages, which a new area of the caller records, and keeps every page that was
  -- mapped.
  pub sys_mmap-Outcome :
      (m : MmapState T) (addr len prot : ℕ)
      → m.next_mmap % page_size ≡ 0
      → user_mmap_base ≤ m.next_mmap
      → Outcome m.space len (sys_mmap M m addr len prot)
  unfolding sys_mmap
  sys_mmap-Outcome m addr len prot aligned lo =
      let n_pages = (len + page_size - 1) / page_size in
      let base = m.next_mmap in
      let m' = record m { next_mmap = (base + n_pages * page_size) % 2 ^ 64 } in
      let bad : Outcome m.space len (errno 22, m) = refused (omega arith) refl in
      let full : Outcome m.space len (errno 12, m') = refused (omega arith) refl in
      elim (Bool-cases (len == 0 || ltb (user_mmap_limit - user_mmap_base) len)) [
        | inl unfit ↦ rw unfit bad
        | inr fits ↦ elim (Bool-cases (addr == 0)) [
          | inl anywhere ↦
              elim (Bool-cases (ltb user_mmap_limit (saturating_add base (n_pages * page_size)))) [
                | inl over ↦ rw (fits, anywhere, over) full
                | inr room ↦
                    rw (fits, anywhere, room)
                      (map_at-Outcome m' base len n_pages prot aligned lo
                        (in_window base (n_pages * page_size) room) (omega arith))
              ]
          | inr fixed ↦ elim (Bool-cases (addr % page_size == 0)) [
            | inr crooked ↦ rw (fits, fixed, crooked) bad
            | inl straight ↦
                elim (Bool-cases
                  (ltb addr user_mmap_base || ltb user_mmap_limit (saturating_add addr len))) [
                    | inl outside ↦ rw (fits, fixed, straight, outside) bad
                    | inr inside ↦
                        rw (fits, fixed, straight, inside)
                          (map_at-Outcome m addr len n_pages prot (ground arith) (ground arith)
                            (rounded addr len (ground arith) (ground arith)) (omega arith))
                  ]
          ]
        ]
      ]
