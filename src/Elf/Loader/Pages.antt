-- ===== src/Elf/Loader/Pages.antt =====
-- What `map_zeroed_pages`, the page loop of `load_elf_mapped` in src/elf.rs, leaves in user memory.
use rockos.Prelude.{
  ℕ, zero, suc, ◌+◌, ◌/◌, ◌%◌, ◌≡◌, ◌≢◌, ◌∙◌, refl, ap, true, false, Option, none, some, arith,
  if◌then◌else◌, Bool-cases, inl, inr,
}
use rockos.Memory.{BitmapFrameAllocator, is_free, allocate_frame_inner, page_size}
use rockos.Memory.Laws.{
  IsValid, Handed, AllocateSpec, allocate_frame_inner-AllocateSpec, is_free-Takes,
}
use rockos.Brk.{Mapper}
use rockos.Paging.{Physical, Machine, zero_frame, read_user}
use rockos.Elf.{frame_oom, map_to_failed, Result, ok, err, panicked}
use rockos.Elf.Loader.{map_zeroed_page, map_zeroed_pages}
use rockos.Elf.Loader.Frames.{
  zeroed_at, zeroed_at-suc, TakesFrames, Owned, Extends, translate-Extends, Distinct-Extends,
  read_user-Extends,
}

module _ {T : Type 0} (M : Mapper T) where
  -- A page more, as the program sees it, with the invariant kept.
  pub record Zeroed (s : Machine T) (page n : ℕ) (s' : Machine T) : Type 0 where
    pub owned : Owned M s'
    pub reads :
        (va : ℕ) → read_user M s'.pages s'.ram va ≡ zeroed_at page n (read_user M s.pages s.ram) va

  pub Extends-Owned :
      (s : Machine T) (page frame : ℕ) (t' : T) (fa fa' : BitmapFrameAllocator) (ram : Physical)
      → Owned M s
      → Handed s.allocator frame fa
      → IsValid fa'
      → ((j : ℕ) → is_free fa.bitmap j ≡ false → is_free fa'.bitmap j ≡ false)
      → Extends M s.pages page frame t'
      → Owned M (record { pages = t'; allocator = fa'; ram = ram })
  Extends-Owned s page frame t' fa fa' ram o h v keeps x = record {
    valid = v;
    distinct = Distinct-Extends M s.pages t' page frame o.distinct x;
    held = λ p f e.
        let taken =
          is_free-Takes s.allocator.bitmap (frame / page_size) fa.bitmap (f / page_size)
            o.valid.bitmap h.takes in
        elim (translate-Extends M s.pages t' page frame p f x e) [
          | inl (at, same) ↦ keeps (f / page_size) (
              let i : f / page_size ≡ frame / page_size = ap (λ k. k / page_size) same in
              ground (arith, taken, i))
          | inr (off, old) ↦
              keeps (f / page_size) (let u = o.held p f old in ground (arith, taken, u))
        ];
  }

  pub Handed-fresh :
      (s : Machine T) (frame : ℕ) (fa : BitmapFrameAllocator) (other : ℕ)
      → Owned M s
      → Handed s.allocator frame fa
      → M.translate s.pages other ≢ some frame
  Handed-fresh s frame fa other o h e = let u = o.held other frame e in let f = h.takes.free in cc

  module _ (frames : TakesFrames M) where
    map_to-Zeroed :
        (s : Machine T) (page frame flags : ℕ) (fa : BitmapFrameAllocator)
        → Owned M s
        → page % page_size ≡ 0
        → Handed s.allocator frame fa
        → (M.map_to s.pages page frame flags fa).0 ≡ true
        → Zeroed s page 1 (record {
          pages = (M.map_to s.pages page frame flags fa).1.0;
          allocator = (M.map_to s.pages page frame flags fa).1.1;
          ram = zero_frame s.ram frame;
        })
    map_to-Zeroed s page frame flags fa o start h okay =
        let t' = (M.map_to s.pages page frame flags fa).1.0 in
        let fa' = (M.map_to s.pages page frame flags fa).1.1 in
        let x : Extends M s.pages page frame t' = record {
          there = M.map_to_ok s.pages page frame flags fa okay;
          others = λ other off. M.map_to_other s.pages page frame flags fa other off;
          fresh = λ other. Handed-fresh s frame fa other o h;
          aligned = omega (arith, h.aligned);
        } in
        record {
          owned =
              Extends-Owned s page frame t' fa fa' (zero_frame s.ram frame) o h
                (frames.keeps_valid s.pages page frame flags fa h.valid)
                (λ j u. frames.keeps_used s.pages page frame flags fa j u) x;
          reads = λ va. read_user-Extends M s.pages t' s.ram page frame va o.distinct x start;
        }

    -- The rest of `map_zeroed_page` once the allocator has answered.
    abbrev with_frame :
        Machine T
        → (page flags : ℕ) → Option ℕ × BitmapFrameAllocator
        → Result (Unit {0}) × Machine T
    with_frame s page flags a = elim a.0 [
      | none ↦ (err frame_oom, record s { allocator = a.1 })
      | some frame ↦ (
        (if (M.map_to s.pages page frame flags a.1).0 then ok tt else err map_to_failed),
        record {
          pages = (M.map_to s.pages page frame flags a.1).1.0;
          allocator = (M.map_to s.pages page frame flags a.1).1.1;
          ram = zero_frame s.ram frame;
        },
      )
    ]

    map_zeroed_page-Zeroed :
        (s : Machine T) (page flags : ℕ)
        → Owned M s
        → page % page_size ≡ 0
        → (map_zeroed_page M page flags s).0 ≡ ok tt
        → Zeroed s page 1 (map_zeroed_page M page flags s).1
    unfolding map_zeroed_page
    map_zeroed_page-Zeroed s page flags o start okay =
        answer (allocate_frame_inner s.allocator)
          (allocate_frame_inner-AllocateSpec s.allocator o.valid) okay
      where
        answer :
            (a : Option ℕ × BitmapFrameAllocator)
            → AllocateSpec s.allocator a
            → (with_frame s page flags a).0 ≡ ok tt
            → Zeroed s page 1 (with_frame s page flags a).1
        answer (none, fa) spec done = cc
        answer (some frame, fa) spec done =
            map_to-Zeroed s page frame flags fa o start spec
              (elim (Bool-cases (M.map_to s.pages page frame flags fa).0) [
                | inl mapped ↦ mapped
                | inr failed ↦ ground (arith, failed, done)
              ])

    abbrev continue_pages :
        (n page flags : ℕ) → Result (Unit {0}) × Machine T → Result (Unit {0}) × Machine T
    continue_pages n page flags r = elim r.0 [
      | ok u ↦ map_zeroed_pages M n (page + page_size) flags r.1
      | err e ↦ (err e, r.1)
      | panicked ↦ (panicked, r.1)
    ]

    pub map_zeroed_pages-Zeroed :
        (n : ℕ) (s : Machine T) (page flags : ℕ)
        → Owned M s
        → page % page_size ≡ 0
        → (map_zeroed_pages M n page flags s).0 ≡ ok tt
        → Zeroed s page n (map_zeroed_pages M n page flags s).1
    unfolding map_zeroed_pages zeroed_at
    map_zeroed_pages-Zeroed zero s page flags o start okay = record {
      owned = o;
      reads = λ va. ground arith;
    }
    map_zeroed_pages-Zeroed (suc n) s page flags o start okay =
        let r = map_zeroed_page M page flags s in
        after r (λ e. map_zeroed_page-Zeroed s page flags o start e)
          (λ s' o' done.
            map_zeroed_pages-Zeroed n s' (page + page_size) flags o' (omega arith) done)
          okay
      where
        after :
            (r : Result (Unit {0}) × Machine T)
            → (r.0 ≡ ok tt → Zeroed s page 1 r.1)
            → ((s' : Machine T)
                → Owned M s'
                → (map_zeroed_pages M n (page + page_size) flags s').0 ≡ ok tt
                → Zeroed s'
                    (page + page_size)
                    n
                    (map_zeroed_pages M n (page + page_size) flags s').1)
            → (continue_pages n page flags r).0 ≡ ok tt
            → Zeroed s page (suc n) (continue_pages n page flags r).1
        after (ok u, s') first rest done =
            let f = first refl in
            let z = rest s' f.owned done in
            record {
              owned = z.owned;
              reads = λ va.
                  z.reads va
                  ∙ zeroed_at-suc page n va (read_user M s.pages s.ram)
                      (read_user M s'.pages s'.ram) (f.reads va);
            }
        after (err e, s') first rest done = cc
        after (panicked, s') first rest done = cc
