-- ===== src/Paging/Copying.antt =====
-- Reading user memory after `copy_user_pages` of src/process.rs.
use rockos.Prelude.{
  ℕ, zero, suc, ◌+◌, ◌-◌, ◌≤◌, ◌≡◌, ◌⊎◌, ◌∙◌, refl, sym, ap, true, false, Option, none, some, arith,
  ltb, leb, ◌==◌, ◌&&◌, if◌then◌else◌, Bool-cases, Option-cases, inl, inr,
}
use rockos.Brk.{Mapper}
use rockos.Paging.{Physical, translate_addr, read_user, write_user_byte, copy_user_pages}
use rockos.Paging.Access.{Distinct, read_user-some, read_user-write_user_byte}

-- A run of `len` addresses from `dst` on that reads as the one from `src` on did before.
unfoldable pub copied_at : (src dst len : ℕ) → (read : ℕ → Option ℕ) → ℕ → Option ℕ
copied_at src dst len read other =
    if leb dst other && ltb other (dst + len) then read (src + (other - dst)) else read other

copied_at-zero :
    (src dst other : ℕ) (read : ℕ → Option ℕ) → copied_at src dst 0 read other ≡ read other
unfolding copied_at
copied_at-zero src dst other read = ground arith

-- The two runs do not overlap.
abbrev pub Apart : (src dst len : ℕ) → Type 0
Apart src dst len = (src + len ≤ dst) ⊎ (dst + len ≤ src)

module _ (src dst len : ℕ) (read read' : ℕ → Option ℕ) (apart : Apart src dst (suc len))
    (h : (x : ℕ) → read' x ≡ (if x == dst then read src else read x)) where
  copied_at-suc :
      (other : ℕ)
      → copied_at (src + 1) (dst + 1) len read' other ≡ copied_at src dst (suc len) read other
  unfolding copied_at
  copied_at-suc other = elim (Bool-cases (other == dst)) [
    | inl at ↦
        let z : src + (other - dst) ≡ src = ground arith in
        let g : read (src + (other - dst)) ≡ read src = ap read z in ground (arith, h other, g)
    | inr off ↦ elim (Bool-cases (leb (dst + 1) other && ltb other (dst + 1 + len))) [
      | inl inside ↦
          let back : src + 1 + (other - (dst + 1)) ≡ src + (other - dst) = ground (arith) in
          let off' : (src + 1 + (other - (dst + 1)) == dst) ≡ false = ground (arith) in
          let g = ap read back in ground (arith, g, off', h (src + 1 + (other - (dst + 1))))
      | inr outside ↦ ground (arith, h other)
    ]
  ]

module _ {T : Type 0} (M : Mapper T) where
  copy_user_pages-step :
      (t : T) (ram : Physical) (src dst len phys : ℕ)
      → translate_addr M t src ≡ some phys
      → (write_user_byte M t ram dst (ram phys)).0 ≡ true
      → copy_user_pages M t ram src dst (suc len)
        ≡ copy_user_pages M t (write_user_byte M t ram dst (ram phys)).1 (src + 1) (dst + 1) len
  unfolding copy_user_pages
  copy_user_pages-step t ram src dst len phys e w = rw (copy_user_pages, e) (rw w refl)

  copy_user_pages-stop :
      (t : T) (ram : Physical) (src dst len phys : ℕ)
      → translate_addr M t src ≡ some phys
      → (write_user_byte M t ram dst (ram phys)).0 ≡ false
      → (copy_user_pages M t ram src dst (suc len)).0 ≡ false
  unfolding copy_user_pages
  copy_user_pages-stop t ram src dst len phys e w = rw (copy_user_pages, e) (rw w refl)

  copy_user_pages-none :
      (t : T) (ram : Physical) (src dst len : ℕ)
      → translate_addr M t src ≡ none
      → (copy_user_pages M t ram src dst (suc len)).0 ≡ false
  unfolding copy_user_pages
  copy_user_pages-none t ram src dst len e = rw (copy_user_pages, e) refl

  -- After a copy between two runs that do not overlap the target reads as the source did before, and
  -- every address outside the target reads as before.
  pub read_user-copy_user_pages :
      (t : T) (len : ℕ) (ram : Physical) (src dst other : ℕ)
      → Distinct M t
      → Apart src dst len
      → (copy_user_pages M t ram src dst len).0 ≡ true
      → read_user M t (copy_user_pages M t ram src dst len).1 other
        ≡ copied_at src dst len (read_user M t ram) other
  unfolding copy_user_pages
  read_user-copy_user_pages t zero ram src dst other d apart okay =
      sym (copied_at-zero src dst other (read_user M t ram))
  read_user-copy_user_pages t (suc len) ram src dst other d apart okay =
      elim (Option-cases (translate_addr M t src)) [
        | inl e ↦ (let stopped = copy_user_pages-none t ram src dst len e in cc)
        | inr (phys, e) ↦ elim (Bool-cases (write_user_byte M t ram dst (ram phys)).0) [
          | inr w ↦ (let stopped = copy_user_pages-stop t ram src dst len phys e w in cc)
          | inl w ↦
              let ram' : Physical = (write_user_byte M t ram dst (ram phys)).1 in
              let step = copy_user_pages-step t ram src dst len phys e w in
              let source = read_user-some M t ram src phys e in
              let written : (x : ℕ)
                  → read_user M t ram' x
                    ≡ (if x == dst then read_user M t ram src else read_user M t ram x) =
                λ x.
                  read_user-write_user_byte M t ram dst (ram phys) x d w
                  ∙ ap (λ r. if x == dst then r else read_user M t ram x) (sym source) in
              let apart' : Apart (src + 1) (dst + 1) len = ground arith in
              rw step (
                read_user-copy_user_pages t len ram' (src + 1) (dst + 1) other d apart'
                  (sym (ap (λ r. r.0) step) ∙ okay)
                ∙ copied_at-suc src dst len (read_user M t ram) (read_user M t ram') apart written
                    other)
        ]
      ]
