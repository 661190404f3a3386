-- ===== src/Elf/Loader/Segments.antt =====
-- What one segment of a program leaves in user memory: `load_segment` of Loader against a description
-- of the segment by its program header.
use rockos.Prelude.{
  ℕ, zero, suc, ◌+◌, ◌-◌, ◌*◌, ◌%◌, ◌^◌, ◌<◌, ◌≡◌, ◌≢◌, ◌∙◌, refl, sym, ap, Bool, true, false, not,
  ◌&&◌, Option, none, some, List, arith, length, get_or, ltb, leb, ◌==◌, if◌then◌else◌, Bool-cases,
  inl, inr,
}
use rockos.Memory.{page_size}
use rockos.Brk.{Mapper, containing_address, pages_between}
use rockos.Paging.{Physical, Machine, read_user, write_user_byte}
use rockos.Paging.Access.{Distinct, read_user-write_user_byte}
use rockos.Elf.{segment_file_oob, translate_failed, Result, ok, err, panicked, ◌>>=◌}
use rockos.Elf.Headers.{
  ProgramHeader, Loaded, Plan, plan_pages, note_writable, max, virt_addr, checked, segment_flags,
}
use rockos.Elf.Loader.{copy_segment, place_segment, map_zeroed_pages}
use rockos.Elf.Loader.Frames.{zeroed_at, TakesFrames, Owned}
use rockos.Elf.Loader.Pages.{Zeroed, map_zeroed_pages-Zeroed}

-- `VirtAddr::new` takes an address of the low half as it is.
abbrev pub KeepsLow : (ℕ → Option ℕ) → Type 0
KeepsLow virt_new = (a : ℕ) → a < 2 ^ 47 → virt_new a ≡ some a

-- User memory with `n` bytes of the file, from `file_off` on, at `va`.
unfoldable pub file_at : (image : List ℕ) (va n file_off : ℕ) → (read : ℕ → Option ℕ) → ℕ → Option ℕ
file_at image va n file_off read other =
    if leb va other && ltb other (va + n)
    then some (get_or image (file_off + (other - va)) 0)
    else read other

file_at-suc :
    (image : List ℕ) (va n off other : ℕ) (read read' : ℕ → Option ℕ)
    → read' other ≡ (if other == va then some (get_or image off 0) else read other)
    → file_at image (va + 1) n (off + 1) read' other ≡ file_at image va (suc n) off read other
unfolding file_at
file_at-suc image va n off other read read' h = elim (Bool-cases (other == va)) [
  | inl at ↦
      let z : off + (other - va) ≡ off = ground arith in
      let g = ap (λ k. get_or image k 0) z in ground (arith, h, g)
  | inr away ↦ elim (Bool-cases (leb (va + 1) other && ltb other (va + 1 + n))) [
    | inl inside ↦
        let back : off + 1 + (other - (va + 1)) ≡ off + (other - va) = ground arith in
        let g = ap (λ k. get_or image k 0) back in ground (arith, g)
    | inr outside ↦ ground (arith, h)
  ]
]

-- A program header that asks for memory, and where its segment starts.
abbrev pub is_loadable : ProgramHeader → Bool
is_loadable h = h.p_type == 1 && not (h.p_memsz == 0)

abbrev pub segment_start : ProgramHeader → (bias : ℕ) → ℕ
segment_start h bias = (h.p_vaddr + bias) % 2 ^ 64

-- User memory with a segment: the bytes of the file, zeros in the rest of its pages, and what was
-- there before elsewhere.
unfoldable pub segment_at :
    (image : List ℕ) (bias : ℕ) → ProgramHeader → (read : ℕ → Option ℕ) → ℕ → Option ℕ
segment_at image bias h read va =
    let seg = segment_start h bias in
    if leb seg va && ltb va (seg + h.p_filesz)
    then some (get_or image (h.p_offset + (va - seg)) 0)
    else if leb (containing_address seg) va
        && leb (containing_address va) (containing_address (seg + h.p_memsz - 1))
    then some 0
    else read va

segment_at-parts :
    (image : List ℕ) (bias : ℕ) (h : ProgramHeader) (va : ℕ) (read read1 read2 : ℕ → Option ℕ)
    → h.p_memsz ≢ 0
    → read1 va
      ≡ zeroed_at
          (containing_address (segment_start h bias))
          (pages_between
            (containing_address (segment_start h bias))
            (containing_address (segment_start h bias + h.p_memsz - 1)))
          read
          va
    → read2 va ≡ file_at image (segment_start h bias) h.p_filesz h.p_offset read1 va
    → read2 va ≡ segment_at image bias h read va
unfolding segment_at zeroed_at file_at
segment_at-parts image bias h va read read1 read2 ne e1 e2 =
    let seg = segment_start h bias in
    let first = containing_address seg in
    let last = containing_address (seg + h.p_memsz - 1) in
    let same : (leb first va && ltb va (first + pages_between first last * page_size))
        ≡ (leb first va && leb (containing_address va) last) =
      ground arith in
    ground (arith, e1, e2, same)

module _ {T : Type 0} (M : Mapper T) (virt_new : ℕ → Option ℕ) (low : KeepsLow virt_new) where
  virt_addr-low : (va : ℕ) → va < 2 ^ 47 → (checked va >>= virt_addr virt_new) ≡ ok va
  virt_addr-low va h =
      let in_range : ltb va (2 ^ 64) ≡ true = ground arith in
      ap (λ b. (if b then ok va else panicked) >>= virt_addr virt_new) in_range
      ∙ ap (λ o. elim o [ none ↦ panicked | some v ↦ ok v ]) (low va h)

  abbrev continue_copy :
      (image : List ℕ) (n va off : ℕ) → T → Bool × Physical → Result (Unit {0}) × Physical
  continue_copy image n va off t w = elim w.0 [
    | true ↦ copy_segment M virt_new image n (va + 1) (off + 1) t w.1
    | false ↦ (err translate_failed, w.1)
  ]

  continue_copy-file_at :
      (image : List ℕ) (n : ℕ) (t : T) (ram : Physical) (va off other : ℕ) (w : Bool × Physical)
      → (w.0 ≡ true
          → read_user M t w.1 other
            ≡ (if other == va then some (get_or image off 0) else read_user M t ram other))
      → ((ram' : Physical)
          → (copy_segment M virt_new image n (va + 1) (off + 1) t ram').0 ≡ ok tt
          → read_user M t (copy_segment M virt_new image n (va + 1) (off + 1) t ram').1 other
            ≡ file_at image (va + 1) n (off + 1) (read_user M t ram') other)
      → (continue_copy image n va off t w).0 ≡ ok tt
      → read_user M t (continue_copy image n va off t w).1 other
        ≡ file_at image va (suc n) off (read_user M t ram) other
  continue_copy-file_at image n t ram va off other (true, ram') byte rest okay =
      rest ram' okay
      ∙ file_at-suc image va n off other (read_user M t ram) (read_user M t ram') (byte refl)
  continue_copy-file_at image n t ram va off other (false, ram') byte rest okay = cc

  -- The bytes of the file in the segment read back, every other address as before.
  copy_segment-file_at :
      (image : List ℕ) (n : ℕ) (t : T) (ram : Physical) (va off other : ℕ)
      → Distinct M t
      → va + n < 2 ^ 47
      → (copy_segment M virt_new image n va off t ram).0 ≡ ok tt
      → read_user M t (copy_segment M virt_new image n va off t ram).1 other
        ≡ file_at image va n off (read_user M t ram) other
  unfolding copy_segment file_at
  copy_segment-file_at image zero t ram va off other d h okay = ground arith
  copy_segment-file_at image (suc n) t ram va off other d h okay =
      elim (Bool-cases (leb (2 ^ 64) off)) [
        | inl over ↦
            let stopped : copy_segment M virt_new image (suc n) va off t ram ≡ (panicked, ram) =
              rw (copy_segment, over) refl in
            (let r = ap (λ c. c.0) stopped in cc)
        | inr fits ↦ elim (Bool-cases (leb (length image) off)) [
          | inl over ↦
              let stopped : copy_segment M virt_new image (suc n) va off t ram
                  ≡ (err segment_file_oob, ram) =
                rw (copy_segment, fits) (rw (copy_segment, over) refl) in
              (let r = ap (λ c. c.0) stopped in cc)
          | inr within ↦
              let step : copy_segment M virt_new image (suc n) va off t ram
                  ≡ continue_copy image n va off t
                      (write_user_byte M t ram va (get_or image off 0)) =
                rw (copy_segment, fits)
                  (rw (copy_segment, within) (rw (virt_addr-low va (omega arith)) refl)) in
              rw step (
                continue_copy-file_at image n t ram va off other
                  (write_user_byte M t ram va (get_or image off 0))
                  (λ w. read_user-write_user_byte M t ram va (get_or image off 0) other d w)
                  (λ ram' e.
                    copy_segment-file_at image n t ram' (va + 1) (off + 1) other d (omega arith) e)
                  (sym (ap (λ c. c.0) step) ∙ okay))
        ]
      ]

  virt_addr-keeps : (a : ℕ) → a < 2 ^ 47 → virt_addr virt_new a ≡ ok a
  virt_addr-keeps a h = ap (λ o. elim o [ none ↦ panicked | some v ↦ ok v ]) (low a h)

  checked-keeps : (a : ℕ) → a < 2 ^ 47 → checked a ≡ ok a
  checked-keeps a h = ground arith

  -- The plan of a segment in the low half.
  abbrev pub planned : (h : ProgramHeader) (seg : ℕ) → Loaded → Plan
  planned h seg l =
      let l' = note_writable h.p_flags seg l in
      record {
        seg = seg;
        first = containing_address seg;
        last = containing_address (seg + h.p_memsz - 1);
        loaded = record l' { image_end = max l'.image_end (seg + h.p_memsz) };
      }

  pub plan_pages-planned :
      (h : ProgramHeader) (seg : ℕ) (l : Loaded)
      → seg + h.p_memsz < 2 ^ 47
      → plan_pages virt_new h seg l ≡ ok (planned h seg l)
  unfolding plan_pages
  plan_pages-planned h seg l fits =
      let end = seg + h.p_memsz in
      let a = low seg (omega arith) in
      let b = low end fits in
      let c = low (end - 1) (omega arith) in
      let in_range : ltb end (2 ^ 64) ≡ true = ground arith in ground (arith, a, b, c, in_range)

  abbrev continue_place :
      (image : List ℕ)
      → ProgramHeader
      → (seg : ℕ) → Result (Unit {0}) × Machine T
      → Result (Unit {0}) × Machine T
  continue_place image h seg r = elim r.0 [
    | ok u ↦
        let (c, ram) = copy_segment M virt_new image h.p_filesz seg h.p_offset r.1.pages r.1.ram in
        (c, record r.1 { ram = ram })
    | err e ↦ (err e, r.1)
    | panicked ↦ (panicked, r.1)
  ]

  -- What a step of the loader does to user memory, with the invariant kept.
  pub record Loads (read' : ℕ → Option ℕ) (s' : Machine T) : Type 0 where
    pub owned : Owned M s'
    pub reads : (va : ℕ) → read_user M s'.pages s'.ram va ≡ read' va

  module _ (frames : TakesFrames M) where
    pub place_segment-Loads :
        (image : List ℕ) (bias : ℕ) (h : ProgramHeader) (l : Loaded) (s : Machine T)
        → Owned M s
        → h.p_memsz ≢ 0
        → segment_start h bias + h.p_filesz < 2 ^ 47
        → (place_segment M virt_new image h (planned h (segment_start h bias) l) s).0 ≡ ok tt
        → Loads
            (segment_at image bias h (read_user M s.pages s.ram))
            (place_segment M virt_new image h (planned h (segment_start h bias) l) s).1
    unfolding place_segment
    place_segment-Loads image bias h l s o ne fits okay =
        after (map_zeroed_pages M n first (segment_flags h.p_flags) s)
          (λ e.
            map_zeroed_pages-Zeroed M frames n s first (segment_flags h.p_flags) o (omega arith) e)
          okay
      where
        seg : ℕ
        seg = segment_start h bias

        first : ℕ
        first = containing_address seg

        n : ℕ
        n = pages_between first (containing_address (seg + h.p_memsz - 1))

        after :
            (r : Result (Unit {0}) × Machine T)
            → (r.0 ≡ ok tt → Zeroed M s first n r.1)
            → (continue_place image h seg r).0 ≡ ok tt
            → Loads
                (segment_at image bias h (read_user M s.pages s.ram))
                (continue_place image h seg r).1
        after (ok u, s') z done =
            let ram' =
              (copy_segment M virt_new image h.p_filesz seg h.p_offset s'.pages s'.ram).1 in
            let o' = (z refl).owned in
            record {
              owned = record { valid = o'.valid; distinct = o'.distinct; held = o'.held };
              reads = λ va.
                  segment_at-parts image bias h va (read_user M s.pages s.ram)
                    (read_user M s'.pages s'.ram) (read_user M s'.pages ram') ne ((z refl).reads va)
                    (copy_segment-file_at image h.p_filesz s'.pages s'.ram seg h.p_offset va
                      o'.distinct fits done);
            }
        after (err e, s') z done = cc
        after (panicked, s') z done = cc
