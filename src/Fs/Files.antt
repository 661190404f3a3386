-- ===== src/Fs/Files.antt =====
-- The laws of the map of files.
use rockos.Prelude.{
  ℕ, ◌≤◌, ◌<◌, ◌≡◌, refl, none, some, List, [], ◌∷◌, arith, ◌==◌, if◌then◌else◌, Bool-cases, inl,
  inr,
}
use rockos.Fs.{get, insert, remove}

abbrev pub Map : Type 0
Map = List (ℕ × List ℕ)

-- Each descriptor has one entry.
abbrev pub Keyed : Map → Type 0
Keyed [] = Unit {0}
Keyed ((k, v) ∷ m) = (get m k ≡ none) × Keyed m

-- The descriptors lie from 4 on and below `n`.
abbrev pub Below : ℕ → Map → Type 0
Below n [] = Unit {0}
Below n ((k, v) ∷ m) = (4 ≤ k) × (k < n) × Below n m

pub get-insert :
    (m : Map) (fd j : ℕ) (v : List ℕ)
    → get (insert m fd v) j ≡ (if fd == j then some v else get m j)
unfolding get insert
get-insert [] fd j v = ground arith
get-insert ((k, w) ∷ m) fd j v = ground (arith, get-insert m fd j v)

pub get-remove :
    (m : Map) (fd j : ℕ) → Keyed m → get (remove m fd) j ≡ (if fd == j then none else get m j)
unfolding get remove
get-remove [] fd j h = ground arith
get-remove ((k, w) ∷ m) fd j h = elim (Bool-cases (k == fd)) [
  | inl gone ↦ let e : k ≡ fd = ground arith in rw gone (ground (arith, h.0))
  | inr kept ↦ rw kept (ground (arith, get-remove m fd j h.1))
]

pub insert-Keyed : (m : Map) (fd : ℕ) (v : List ℕ) → Keyed m → Keyed (insert m fd v)
unfolding get insert
insert-Keyed [] fd v h = (refl, tt)
insert-Keyed ((k, w) ∷ m) fd v h = elim (Bool-cases (k == fd)) [
  | inl same ↦ rw same h
  | inr other ↦ rw other (ground (arith, get-insert m fd k v, h.0), insert-Keyed m fd v h.1)
]

pub remove-Keyed : (m : Map) (fd : ℕ) → Keyed m → Keyed (remove m fd)
unfolding get remove
remove-Keyed [] fd h = tt
remove-Keyed ((k, w) ∷ m) fd h = elim (Bool-cases (k == fd)) [
  | inl gone ↦ rw gone h.1
  | inr kept ↦ rw kept (ground (arith, get-remove m fd k h.1, h.0), remove-Keyed m fd h.1)
]

pub insert-Below :
    (n : ℕ) (m : Map) (fd : ℕ) (v : List ℕ) → 4 ≤ fd → fd < n → Below n m → Below n (insert m fd v)
unfolding insert
insert-Below n [] fd v lo hi b = (lo, hi, tt)
insert-Below n ((k, w) ∷ m) fd v lo hi b = elim (Bool-cases (k == fd)) [
  | inl same ↦ rw same b
  | inr other ↦ rw other (b.0, b.1, insert-Below n m fd v lo hi b.2)
]

pub remove-Below : (n : ℕ) (m : Map) (fd : ℕ) → Below n m → Below n (remove m fd)
unfolding remove
remove-Below n [] fd b = tt
remove-Below n ((k, w) ∷ m) fd b = elim (Bool-cases (k == fd)) [
  | inl gone ↦ rw gone b.2
  | inr kept ↦ rw kept (b.0, b.1, remove-Below n m fd b.2)
]

pub Below-mono : (n n' : ℕ) (m : Map) → n ≤ n' → Below n m → Below n' m
Below-mono n n' [] h b = tt
Below-mono n n' ((k, v) ∷ m) h b = (b.0, omega arith, Below-mono n n' m h b.2)

-- No entry at or above the bound, nor below 4.
pub get-Below : (n : ℕ) (m : Map) (fd : ℕ) → n ≤ fd → Below n m → get m fd ≡ none
unfolding get
get-Below n [] fd h b = refl
get-Below n ((k, v) ∷ m) fd h b = ground (arith, get-Below n m fd h b.2)

pub some-Below :
    (n : ℕ) (m : Map) (fd : ℕ) (v : List ℕ) → Below n m → get m fd ≡ some v → (4 ≤ fd) × (fd < n)
unfolding get
some-Below n [] fd v b h = cc
some-Below n ((k, w) ∷ m) fd v b h = ground (arith, some-Below n m fd v b.2)
