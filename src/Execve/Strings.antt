-- ===== src/Execve/Strings.antt =====
-- What `read_user_cstring` of src/process.rs reads.
use mathlib.Core.List.{append_assoc, append-nil}
use rockos.Prelude.{
  ℕ, suc, ◌+◌, ◌-◌, ◌<◌, ◌≡◌, ◌≢◌, ◌⊎◌, ◌∙◌, refl, sym, ap, ap₂, subst, Bool, true, false, Option,
  some, List, [], ◌∷◌, ◌++◌, arith, length, length-append, ◌==◌, if◌then◌else◌, inl, inr,
}
use rockos.Fs.{errno}
use rockos.Fs.Utf8.{is_utf8}
use rockos.Execve.{parsed, refused, ◌>>=◌, read_bytes, read_user_cstring}

module _ (readable : (addr len : ℕ) → Bool) (read : ℕ → Option ℕ) where
  -- The bytes of `bs` stand at `addr`, none of them zero, each in a region that the caller may read.
  abbrev pub Stands : (addr : ℕ) → List ℕ → Type 0
  Stands addr [] = Unit {0}
  Stands addr (b ∷ bs) =
      (b ≢ 0) × (read addr ≡ some b) × (readable addr 1 ≡ true) × Stands (addr + 1) bs

  read_bytes-step :
      (cap ptr c : ℕ) (v : List ℕ)
      → readable (ptr + length v) 1 ≡ true
      → read (ptr + length v) ≡ some c
      → read_bytes readable read (suc cap) ptr v ≡ (elim (c == 0) [
        | true ↦ parsed v
        | false ↦ read_bytes readable read cap ptr (v ++ c ∷ [])
      ])
  unfolding read_bytes
  read_bytes-step cap ptr c v may there = rw (read_bytes, may) (rw there refl)

  read_bytes-zero : (ptr : ℕ) (v : List ℕ) → read_bytes readable read 0 ptr v ≡ parsed v
  unfolding read_bytes
  read_bytes-zero ptr v = refl

  -- As many rounds as there are bytes add just these bytes.
  read_bytes-Stands :
      (bs : List ℕ) (rounds ptr : ℕ) (v : List ℕ)
      → Stands (ptr + length v) bs
      → read_bytes readable read (length bs + rounds) ptr v
        ≡ read_bytes readable read rounds ptr (v ++ bs)
  read_bytes-Stands [] rounds ptr v h =
      ap₂ (λ n l. read_bytes readable read n ptr l) (omega arith) (sym (append-nil v))
  read_bytes-Stands (b ∷ bs) rounds ptr v (non_zero, there, may, rest) =
      let fuel : length (b ∷ bs) + rounds ≡ suc (length bs + rounds) = omega arith in
      let more : (b == 0) ≡ false = ground arith in
      let moved : ptr + length v + 1 ≡ ptr + length (v ++ b ∷ []) =
        omega (arith, length-append v (b ∷ [])) in
      ap (λ n. read_bytes readable read n ptr v) fuel
      ∙ read_bytes-step (length bs + rounds) ptr b v may there
      ∙ ap
          (λ t. elim t [
            | true ↦ parsed v
            | false ↦ read_bytes readable read (length bs + rounds) ptr (v ++ b ∷ [])
          ])
          more
      ∙ read_bytes-Stands bs rounds ptr (v ++ b ∷ []) (subst (λ a. Stands a bs) moved rest)
      ∙ ap (read_bytes readable read rounds ptr) (append_assoc v (b ∷ []) bs)

  -- A string of bytes that are not zero and may be read is read whole where its terminator may be
  -- read and comes within `cap` bytes, and also where it has exactly `cap` bytes, terminated or
  -- not; it is refused where it is no UTF-8.
  pub read_user_cstring-Stands :
      (bs : List ℕ) (ptr cap : ℕ)
      → Stands ptr bs
      → ((length bs < cap)
          × (readable (ptr + length bs) 1 ≡ true)
          × (read (ptr + length bs) ≡ some 0))
        ⊎ (length bs ≡ cap)
      → read_user_cstring readable read ptr cap
        ≡ (if is_utf8 bs then parsed bs else refused (errno 22))
  unfolding read_user_cstring
  read_user_cstring-Stands bs ptr cap h end =
      let start : ptr ≡ ptr + length {A = ℕ} [] = omega arith in
      let whole : read_bytes readable read cap ptr [] ≡ parsed bs = elim end [
        | inr full ↦
            ap (λ n. read_bytes readable read n ptr []) (sym full ∙ omega arith)
            ∙ read_bytes-Stands bs 0 ptr [] (subst (λ a. Stands a bs) start h)
            ∙ read_bytes-zero ptr bs
        | inl (short, may, there) ↦
            let left : cap ≡ length bs + suc (cap - length bs - 1) = omega arith in
            ap (λ n. read_bytes readable read n ptr []) left
            ∙ read_bytes-Stands bs (suc (cap - length bs - 1)) ptr []
                (subst (λ a. Stands a bs) start h)
            ∙ read_bytes-step (cap - length bs - 1) ptr 0 bs may there
      ] in
      ap (λ r. r >>= λ v. (if is_utf8 v then parsed v else refused (errno 22))) whole
