-- ===== src/Elf/Loader/Notes.antt =====
-- How one program header moves `image_end` and `rw_min` in src/elf.rs.
use Prim.Native.Nat.{bit_and}
use rockos.Prelude.{
  ℕ, ◌+◌, ◌≤◌, ◌≡◌, ◌≢◌, sym, subst, true, false, Option, none, some, arith, ◌==◌, Bool-cases, inl,
  inr,
}
use rockos.Elf.{ok, >>=-ok}
use rockos.Elf.Headers.{
  ProgramHeader, Loaded, Plan, plan_pages, plan_segment, note_headers, note_writable, lower_of, max,
}
use rockos.Elf.Loader.Segments.{is_loadable, segment_start}

-- `rw_min` is at most an address.
abbrev pub Lowers : Option ℕ → ℕ → Type 0
Lowers none a = ⊥
Lowers (some m) a = m ≤ a

-- How a program header moves the accumulators.
pub record Noted (bias : ℕ) (h : ProgramHeader) (l l' : Loaded) : Type 0 where
  pub grows : l.image_end ≤ l'.image_end
  pub covers : is_loadable h ≡ true → segment_start h bias + h.p_memsz ≤ l'.image_end
  pub lowers :
      is_loadable h ≡ true → bit_and h.p_flags 2 ≢ 0 → Lowers l'.rw_min (segment_start h bias)
  pub keeps : (a : ℕ) → Lowers l.rw_min a → Lowers l'.rw_min a

plan_pages-loaded :
    (virt_new : ℕ → Option ℕ) (h : ProgramHeader) (seg : ℕ) (l : Loaded) (p : Plan)
    → plan_pages virt_new h seg l ≡ ok p
    → (p.loaded.image_end ≡ max l.image_end (seg + h.p_memsz))
      × (p.loaded.rw_min ≡ (note_writable h.p_flags seg l).rw_min)
unfolding plan_pages
plan_pages-loaded virt_new h seg l p e = (ground arith, ground arith)

note_headers-keeps :
    (h : ProgramHeader) (e_phoff seg : ℕ) (l l1 : Loaded)
    → note_headers h e_phoff seg l ≡ ok l1
    → (l1.image_end ≡ l.image_end) × (l1.rw_min ≡ l.rw_min)
note_headers-keeps h e_phoff seg l l1 e = (ground arith, ground arith)

lower_of-Lowers : (o : Option ℕ) (seg : ℕ) → Lowers (lower_of o seg) seg
lower_of-Lowers none seg = omega arith
lower_of-Lowers (some m) seg = omega arith

lower_of-keeps : (o : Option ℕ) (seg a : ℕ) → Lowers o a → Lowers (lower_of o seg) a
lower_of-keeps none seg a h = absurd h
lower_of-keeps (some m) seg a h = omega arith

note_writable-Lowers :
    (flags seg : ℕ) (l : Loaded)
    → bit_and flags 2 ≢ 0
    → Lowers (note_writable flags seg l).rw_min seg
note_writable-Lowers flags seg l set =
    let w : (bit_and flags 2 == 0) ≡ false = ground arith in rw w (lower_of-Lowers l.rw_min seg)

note_writable-keeps :
    (flags seg a : ℕ) (l : Loaded) → Lowers l.rw_min a → Lowers (note_writable flags seg l).rw_min a
note_writable-keeps flags seg a l h = elim (Bool-cases (bit_and flags 2 == 0)) [
  | inl clear ↦ rw clear h
  | inr set ↦ rw set (lower_of-keeps l.rw_min seg a h)
]

pub plan_segment-Noted :
    (virt_new : ℕ → Option ℕ) (e_phoff bias : ℕ) (h : ProgramHeader) (l : Loaded) (p : Plan)
    → plan_segment virt_new e_phoff bias h l ≡ ok p
    → Noted bias h l p.loaded
unfolding plan_segment
plan_segment-Noted virt_new e_phoff bias h l p e =
    let seg = segment_start h bias in
    let (l1, noted, paged) = >>=-ok (note_headers h e_phoff seg l) (plan_pages virt_new h seg) e in
    let (same_end, same_min) = note_headers-keeps h e_phoff seg l l1 noted in
    let (end, low) = plan_pages-loaded virt_new h seg l1 p paged in
    record {
      grows = ground (arith, end, same_end);
      covers = λ loadable. ground (arith, end);
      lowers = λ loadable set.
          subst (λ o. Lowers o seg) (sym low) (note_writable-Lowers h.p_flags seg l1 set);
      keeps = λ a k.
          subst (λ o. Lowers o a) (sym low)
            (note_writable-keeps h.p_flags seg a l1 (subst (λ o. Lowers o a) (sym same_min) k));
    }
