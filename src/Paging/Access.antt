-- ===== src/Paging/Access.antt =====
-- Reading user memory after writing it.
use rockos.Prelude.{
  ℕ, zero, suc, ◌+◌, ◌-◌, ◌%◌, ◌≡◌, ◌≢◌, ltb→lt, ◌∙◌, refl, sym, ap, true, false, Option, none,
  some, List, [], ◌∷◌, arith, length, get_or, ltb, leb, ◌==◌, ◌&&◌, if◌then◌else◌, Bool-cases,
  Option-cases, inl, inr,
}
use rockos.Memory.{page_size}
use rockos.Brk.{Mapper, containing_address}
use rockos.Paging.{Physical, poke, translate_addr, read_user, write_user_byte, write_user_bytes}

-- Bytes in a row: the `i`th byte at `va + i`, and elsewhere what was there before.
unfoldable pub written_at : (va : ℕ) → List ℕ → (read : ℕ → Option ℕ) → ℕ → Option ℕ
written_at va bs read other =
    if leb va other && ltb other (va + length bs)
    then some (get_or bs (other - va) 0)
    else read other

get_or-cons : (b : ℕ) (bs : List ℕ) (i : ℕ) → i ≢ 0 → get_or (b ∷ bs) i 0 ≡ get_or bs (i - 1) 0
get_or-cons b bs zero h = absurd (h refl)
get_or-cons b bs (suc i) h = ap (λ n. get_or bs n 0) (omega arith)

written_at-nil : (va other : ℕ) (read : ℕ → Option ℕ) → written_at va [] read other ≡ read other
unfolding written_at
written_at-nil va other read = ground arith

written_at-cons :
    (va b : ℕ) (bs : List ℕ) (other : ℕ) (read read' : ℕ → Option ℕ)
    → read' other ≡ (if other == va then some b else read other)
    → written_at (va + 1) bs read' other ≡ written_at va (b ∷ bs) read other
unfolding written_at
written_at-cons va b bs other read read' h = elim (Bool-cases (ltb va other)) [
  | inl later ↦
      let shift : other - va - 1 ≡ other - (va + 1) = omega arith in
      let later' : other - va ≢ 0 = (let l = ltb→lt va other later in omega arith) in
      let g = get_or-cons b bs (other - va) later' ∙ ap (λ n. get_or bs n 0) shift in
      ground (arith, h, g)
  | inr early ↦ elim (Bool-cases (other == va)) [
    | inl at ↦
        (let z : other - va ≡ 0 = ground arith in
          let g : get_or (b ∷ bs) (other - va) 0 ≡ b = ap (λ n. get_or (b ∷ bs) n 0) z in
          ground (arith, h, g))
    | inr before ↦ ground (arith, h)
  ]
]

module _ {T : Type 0} (M : Mapper T) where
  -- Frames start at a multiple of their size, and no two pages share one.
  pub record Distinct (t : T) : Type 0 where
    pub aligned : (page frame : ℕ) → M.translate t page ≡ some frame → frame % page_size ≡ 0
    pub unshared :
        (page other frame : ℕ)
        → M.translate t page ≡ some frame
        → M.translate t other ≡ some frame
        → page ≡ other

  -- Then two addresses that share a physical address are the same.
  translate_addr-some :
      (t : T) (va phys : ℕ)
      → translate_addr M t va ≡ some phys
      → (frame : ℕ) × (M.translate t (containing_address va) ≡ some frame)
        × (phys ≡ frame + va % page_size)
  unfolding translate_addr
  translate_addr-some t va phys e = elim (Option-cases (M.translate t (containing_address va))) [
    | inl absent ↦
        (let r : translate_addr M t va ≡ none = rw (absent, translate_addr) refl in absurd cc)
    | inr (frame, there) ↦
        (let r : translate_addr M t va ≡ some (frame + va % page_size) =
            rw (there, translate_addr) refl in
          (frame, there, ground arith))
  ]

  unaliased :
      (t : T) (va other phys : ℕ)
      → Distinct t
      → translate_addr M t va ≡ some phys
      → translate_addr M t other ≡ some phys
      → va ≡ other
  unaliased t va other phys d e e' =
      let (f, there, at) = translate_addr-some t va phys e in
      let (g, there', at') = translate_addr-some t other phys e' in
      let fa = d.aligned (containing_address va) f there in
      let ga = d.aligned (containing_address other) g there' in
      let same : f ≡ g = omega arith in
      let pages : containing_address va ≡ containing_address other =
        d.unshared (containing_address va) (containing_address other) g (there ∙ ap some same)
          there' in
      omega arith

  pub write_user_byte-some :
      (t : T) (ram : Physical) (va b phys : ℕ)
      → translate_addr M t va ≡ some phys
      → write_user_byte M t ram va b ≡ (true, poke ram phys b)
  unfolding write_user_byte
  write_user_byte-some t ram va b phys e = rw (write_user_byte, e) refl

  pub write_user_byte-none :
      (t : T) (ram : Physical) (va b : ℕ)
      → translate_addr M t va ≡ none
      → write_user_byte M t ram va b ≡ (false, ram)
  unfolding write_user_byte
  write_user_byte-none t ram va b e = rw (write_user_byte, e) refl

  pub read_user-some :
      (t : T) (ram : Physical) (va phys : ℕ)
      → translate_addr M t va ≡ some phys
      → read_user M t ram va ≡ some (ram phys)
  unfolding read_user
  read_user-some t ram va phys e = rw (read_user, e) refl

  read_user-none :
      (t : T) (ram : Physical) (va : ℕ) → translate_addr M t va ≡ none → read_user M t ram va ≡ none
  unfolding read_user
  read_user-none t ram va e = rw (read_user, e) refl

  poke-some :
      (t : T) (ram : Physical) (va b other phys : ℕ)
      → Distinct t
      → translate_addr M t va ≡ some phys
      → read_user M t (poke ram phys b) other
        ≡ (if other == va then some b else read_user M t ram other)
  unfolding poke
  poke-some t ram va b other phys d e = elim (Option-cases (translate_addr M t other)) [
    | inl e' ↦
        let differ : ¬ (other ≡ va) =
          λ p. (let r : none ≡ some phys = sym e' ∙ ap (translate_addr M t) p ∙ e in cc) in
        ground (
          arith,
          differ,
          read_user-none t ram other e',
          read_user-none t (poke ram phys b) other e',
        )
    | inr (phys', e') ↦
        let alias : phys' ≡ phys → va ≡ other =
          λ p. unaliased t va other phys d e (e' ∙ ap some p) in
        let there : other ≡ va → phys' ≡ phys = λ p.
          (let r : some phys' ≡ some phys = sym e' ∙ ap (translate_addr M t) p ∙ e in
            ground arith) in
        ground (
          arith,
          alias,
          there,
          read_user-some t ram other phys' e',
          read_user-some t (poke ram phys b) other phys' e',
        )
  ]

  -- A byte that has been written is read back, and every other is read as before.
  pub read_user-write_user_byte :
      (t : T) (ram : Physical) (va b other : ℕ)
      → Distinct t
      → (write_user_byte M t ram va b).0 ≡ true
      → read_user M t (write_user_byte M t ram va b).1 other
        ≡ (if other == va then some b else read_user M t ram other)
  read_user-write_user_byte t ram va b other d okay = elim (Option-cases (translate_addr M t va)) [
    | inl e ↦ (let w = ap (λ r. r.0) (write_user_byte-none t ram va b e) in cc)
    | inr (phys, e) ↦
        rw (write_user_byte-some t ram va b phys e) (poke-some t ram va b other phys d e)
  ]

  pub write_user_bytes-true :
      (t : T) (ram : Physical) (va b : ℕ) (bs : List ℕ)
      → (write_user_byte M t ram va b).0 ≡ true
      → write_user_bytes M t ram va (b ∷ bs)
        ≡ write_user_bytes M t (write_user_byte M t ram va b).1 (va + 1) bs
  unfolding write_user_bytes
  write_user_bytes-true t ram va b bs e = rw (write_user_bytes, e) refl

  write_user_bytes-false :
      (t : T) (ram : Physical) (va b : ℕ) (bs : List ℕ)
      → (write_user_byte M t ram va b).0 ≡ false
      → (write_user_bytes M t ram va (b ∷ bs)).0 ≡ false
  unfolding write_user_bytes
  write_user_bytes-false t ram va b bs e = rw (write_user_bytes, e) refl

  -- After the bytes of `bs` have been written at `va`, the addresses from `va` on read as `bs`, and
  -- every other one as before.
  pub read_user-write_user_bytes :
      (t : T) (bs : List ℕ) (ram : Physical) (va other : ℕ)
      → Distinct t
      → (write_user_bytes M t ram va bs).0 ≡ true
      → read_user M t (write_user_bytes M t ram va bs).1 other
        ≡ written_at va bs (read_user M t ram) other
  unfolding write_user_bytes
  read_user-write_user_bytes t [] ram va other d okay =
      rw (written_at-nil va other (read_user M t ram)) refl
  read_user-write_user_bytes t (b ∷ bs) ram va other d okay =
      elim (Bool-cases (write_user_byte M t ram va b).0) [
        | inl e ↦
            let ram' : Physical = (write_user_byte M t ram va b).1 in
            let step = write_user_bytes-true t ram va b bs e in
            rw step (
              read_user-write_user_bytes t bs ram' (va + 1) other d
                (sym (ap (λ r. r.0) step) ∙ okay)
              ∙ written_at-cons va b bs other (read_user M t ram) (read_user M t ram')
                  (read_user-write_user_byte t ram va b other d e))
        | inr e ↦ (let stopped = write_user_bytes-false t ram va b bs e in cc)
      ]
