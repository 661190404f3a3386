-- ===== src/Fork/Copied.antt =====
-- What `map_child_stack_and_copy` of src/process.rs leaves in user memory.
use rockos.Prelude.{
  ℕ, ◌+◌, ◌-◌, ◌≤◌, ◌<◌, ◌≡◌, ◌≢◌, ◌∙◌, refl, sym, ap, Bool, true, false, Option, none, some, arith,
  leb, if◌then◌else◌, Bool-cases, Option-cases, inl, inr,
}
use rockos.Memory.{BitmapFrameAllocator, allocate_frame_inner, page_size}
use rockos.Memory.Freeing.{allocate_frame_inner-Handed}
use rockos.Task.{SyscallSaved}
use rockos.Process.{user_stack_top}
use rockos.User.{stack_lo}
use rockos.Brk.{Mapper, containing_address, heap_flags, map_page}
use rockos.Paging.{Machine, read_user, copy_user_pages}
use rockos.Paging.Copying.{copied_at, read_user-copy_user_pages}
use rockos.Elf.Loader.Frames.{TakesFrames, Owned, Extends, read_user-same}
use rockos.Elf.Loader.Pages.{Extends-Owned, Handed-fresh}
use rockos.Fork.{child_stack_lo, child_rsp, map_child_stack_and_copy}

module _ {T : Type 0} (M : Mapper T) (frames : TakesFrames M) where
  -- A page that is mapped where none was, or was mapped before.
  record MapsPage (m : Machine T) (page : ℕ) (s : T × BitmapFrameAllocator) : Type 0 where
    owned : Owned M (record { pages = s.0; allocator = s.1; ram = m.ram })
    others : (other : ℕ) → other ≢ page → M.translate s.0 other ≡ M.translate m.pages other

  abbrev with_frame :
      Machine T
      → (page flags : ℕ) → Option ℕ × BitmapFrameAllocator
      → Bool × (T × BitmapFrameAllocator)
  with_frame m page flags a = elim a.0 [
    | none ↦ (false, (m.pages, a.1))
    | some frame ↦ M.map_to m.pages page frame flags a.1
  ]

  with_frame-none :
      (m : Machine T) (page flags : ℕ) (a : Option ℕ × BitmapFrameAllocator)
      → a.0 ≡ none
      → with_frame m page flags a ≡ (false, (m.pages, a.1))
  with_frame-none m page flags a e = rw e refl

  with_frame-some :
      (m : Machine T) (page flags : ℕ) (a : Option ℕ × BitmapFrameAllocator) (frame : ℕ)
      → a.0 ≡ some frame
      → with_frame m page flags a ≡ M.map_to m.pages page frame flags a.1
  with_frame-some m page flags a frame e = rw e refl

  map_page-MapsPage :
      (m : Machine T) (page flags : ℕ)
      → Owned M m
      → (map_page M page flags (m.pages, m.allocator)).0 ≡ true
      → MapsPage m page (map_page M page flags (m.pages, m.allocator)).1
  unfolding map_page
  map_page-MapsPage m page flags o okay = elim (Option-cases (M.translate m.pages page)) [
    | inr (f, e) ↦
        let step : map_page M page flags (m.pages, m.allocator) ≡ (true, (m.pages, m.allocator)) =
          rw (map_page, e) refl in
        rw step (record {
          owned = record { valid = o.valid; distinct = o.distinct; held = o.held };
          others = λ other off. refl;
        })
    | inl e ↦
        let a = allocate_frame_inner m.allocator in
        let step : map_page M page flags (m.pages, m.allocator) ≡ with_frame m page flags a =
          rw (map_page, e) refl in
        let done = sym (ap (λ r. r.0) step) ∙ okay in
        elim (Option-cases a.0) [
          | inl none_left ↦
              (let r = sym (ap (λ r. r.0) (with_frame-none m page flags a none_left)) ∙ done in cc)
          | inr (frame, given) ↦
              let shape = with_frame-some m page flags a frame given in
              let okay' = sym (ap (λ r. r.0) shape) ∙ done in
              let t' = (M.map_to m.pages page frame flags a.1).1.0 in
              let fa' = (M.map_to m.pages page frame flags a.1).1.1 in
              let h =
                allocate_frame_inner-Handed m.allocator o.valid
                  (ap (λ (g : Option ℕ). (g, a.1)) given) in
              let x : Extends M m.pages page frame t' = record {
                there = M.map_to_ok m.pages page frame flags a.1 okay';
                others = λ other off. M.map_to_other m.pages page frame flags a.1 other off;
                fresh = λ other. Handed-fresh M m frame a.1 other o h;
                aligned = omega (arith, h.aligned);
              } in
              rw (step ∙ shape) (record {
                owned =
                    Extends-Owned M m page frame t' a.1 fa' m.ram o h
                      (frames.keeps_valid m.pages page frame flags a.1 h.valid)
                      (λ j u. frames.keeps_used m.pages page frame flags a.1 j u) x;
                others = x.others;
              })
        ]
  ]

  -- The child's stack once it was copied: it reads as the parent's, a page higher, from the stack
  -- pointer up to the top; every address outside the child's page reads as before.
  pub record ChildStack (m : Machine T) (user_rsp : ℕ) (m' : Machine T) : Type 0 where
    pub owned : Owned M m'
    pub mirrored :
        (va : ℕ)
        → user_rsp ≤ va
        → va < user_stack_top
        → read_user M m'.pages m'.ram (va + page_size) ≡ read_user M m.pages m.ram va
    pub kept :
        (va : ℕ)
        → containing_address va ≢ child_stack_lo
        → read_user M m'.pages m'.ram va ≡ read_user M m.pages m.ram va

  copied-ChildStack :
      (m : Machine T) (user_rsp : ℕ) (t : T) (fa : BitmapFrameAllocator)
      → MapsPage m child_stack_lo (t, fa)
      → stack_lo ≤ user_rsp
      → let c =
          copy_user_pages M t m.ram user_rsp
            (child_stack_lo + (user_rsp - stack_lo))
            (user_stack_top - user_rsp) in
        c.0 ≡ true → ChildStack m user_rsp (record { pages = t; allocator = fa; ram = c.1 })
  unfolding copied_at
  copied-ChildStack m user_rsp t fa p low okay =
      let dst = child_stack_lo + (user_rsp - stack_lo) in
      let len = user_stack_top - user_rsp in
      let ram' = (copy_user_pages M t m.ram user_rsp dst len).1 in
      let reads = λ (va : ℕ).
        read_user-copy_user_pages M t len m.ram user_rsp dst va p.owned.distinct (inl (omega arith))
          okay in
      let before : (va : ℕ)
          → containing_address va ≢ child_stack_lo
          → read_user M t m.ram va ≡ read_user M m.pages m.ram va =
        λ va off. read_user-same M m.pages t m.ram va (p.others (containing_address va) off) in
      record {
        owned = record { valid = p.owned.valid; distinct = p.owned.distinct; held = p.owned.held };
        mirrored = λ va from to.
            let r = reads (va + page_size) in
            let off : containing_address va ≢ child_stack_lo = omega arith in
            let b = before va off in
            let at : user_rsp + (va + page_size - dst) ≡ va = omega arith in
            let g = ap (read_user M t m.ram) at in ground (arith, r, b, g);
        kept = λ va off. let r = reads va in let b = before va off in ground (arith, r, b);
      }

  child_rsp-shift :
      (user_rsp : ℕ)
      → stack_lo ≤ user_rsp
      → user_rsp < user_stack_top
      → child_rsp user_rsp ≡ user_rsp + page_size
  child_rsp-shift user_rsp low high = omega arith

  abbrev after_page :
      Machine T → (user_rsp : ℕ) → Bool × (T × BitmapFrameAllocator) → Bool × Machine T
  after_page m user_rsp s =
      let (copied, ram) =
        copy_user_pages M s.1.0 m.ram user_rsp (child_stack_lo + (user_rsp - stack_lo))
          (user_stack_top - user_rsp) in
      if s.0
      then (if leb user_stack_top user_rsp
          then (false, record m { pages = s.1.0; allocator = s.1.1 })
          else (copied, record { pages = s.1.0; allocator = s.1.1; ram = ram }))
      else (false, record m { pages = s.1.0; allocator = s.1.1 })

  after_page-ChildStack :
      (m : Machine T) (user_rsp : ℕ) (s : Bool × (T × BitmapFrameAllocator))
      → (s.0 ≡ true → MapsPage m child_stack_lo s.1)
      → stack_lo ≤ user_rsp
      → (after_page m user_rsp s).0 ≡ true
      → (child_rsp user_rsp ≡ user_rsp + page_size)
        × ChildStack m user_rsp (after_page m user_rsp s).1
  after_page-ChildStack m user_rsp (false, (t, fa)) maps low okay = cc
  after_page-ChildStack m user_rsp (true, (t, fa)) maps low okay =
      elim (Bool-cases (leb user_stack_top user_rsp)) [
        | inl empty ↦ ground (arith, empty, okay)
        | inr below ↦
            let inside : user_rsp < user_stack_top = ground arith in
            let step : after_page m user_rsp (true, (t, fa)) ≡ (
                let (copied, ram) =
                  copy_user_pages M t m.ram user_rsp (child_stack_lo + (user_rsp - stack_lo))
                    (user_stack_top - user_rsp) in
                (copied, record { pages = t; allocator = fa; ram = ram })) =
              rw below refl in
            (
              child_rsp-shift user_rsp low inside,
              rw step (
                  copied-ChildStack m user_rsp t fa (maps refl) low
                    (sym (ap (λ r. r.0) step) ∙ okay)),
            )
      ]

  -- A copy of the stack for a child that succeeds, with the parent's stack pointer in its stack
  -- page or above and pages that have frames of their own: the child's stack, from the child's
  -- stack pointer on, reads as the parent's did from the parent's on; every address outside the
  -- child's stack page reads as before; and pages still have frames of their own.
  pub map_child_stack_and_copy-ChildStack :
      (m : Machine T) (saved : SyscallSaved)
      → Owned M m
      → stack_lo ≤ saved.user_rsp
      → (map_child_stack_and_copy M saved m).0 ≡ true
      → (child_rsp saved.user_rsp ≡ saved.user_rsp + page_size)
        × ChildStack m saved.user_rsp (map_child_stack_and_copy M saved m).1
  unfolding map_child_stack_and_copy
  map_child_stack_and_copy-ChildStack m saved o low okay =
      after_page-ChildStack m saved.user_rsp
        (map_page M child_stack_lo heap_flags (m.pages, m.allocator))
        (λ e. map_page-MapsPage m child_stack_lo heap_flags o e) low okay
