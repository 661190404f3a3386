-- ===== src/Elf.antt =====
-- The types of src/elf.rs: its errors, what the loader learns of a program, the arguments of a
-- program. A String is the list of its bytes.
pub mod Stack
pub mod Headers
pub mod Loader
pub mod Exec
pub mod Samples
mod Tests
use rockos.Prelude.{ℕ, ◌≡◌, refl, Bool, true, false, List}

-- One constructor for each text that the source returns as an error.
pub data ElfError : Type 0 where
  truncated bad_elf not_exec_dyn not_x86_64 unexpected_phdr_size : ElfError
  phdr_oob unsupported_align frame_oom map_to_failed segment_file_oob : ElfError
  translate_failed no_phdr_in_load no_map stack_ovf aux_ovf : ElfError

-- `panicked` is an arithmetic overflow or an address that `VirtAddr::new` refuses.
pub data Result {ℓ} (Value : Type ℓ) : Type ℓ where
  panicked : Result Value
  err : (error : ElfError) → Result Value
  ok : (value : Value) → Result Value

infixl 5 ◌>>=◌
abbrev pub ◌>>=◌ {m n} :
    {From : Type m} {To : Type n} (step : Result From) (next : From → Result To) → Result To
panicked >>= next = panicked
err error >>= next = err error
ok value >>= next = next value

infixl 5 ◌>>◌
abbrev pub ◌>>◌ {n} : {To : Type n} (check : Result (Unit {0})) (next : Result To) → Result To
check >> next = check >>= (λ passed. next)

-- What a successful chain has passed through.
pub >>=-ok {m n} :
    {From : Type m} {To : Type n} (step : Result From) (next : From → Result To) {end : To}
    → (step >>= next) ≡ ok end
    → (value : From) × (step ≡ ok value) × (next value ≡ ok end)
>>=-ok panicked next e = cc
>>=-ok (err error) next e = cc
>>=-ok (ok value) next e = (value, refl, e)

-- An early return with an error where the test holds.
abbrev pub fail_if : Bool → ElfError → Result (Unit {0})
fail_if true e = err e
fail_if false e = ok tt

pub record ExecArgs : Type 0 where
  pub argv : List (List ℕ)
  pub envp : List (List ℕ)

pub record ElfLoadedMeta : Type 0 where
  pub entry : ℕ
  pub phdr : ℕ
  pub phnum : ℕ
  pub phent : ℕ
  pub image_end : ℕ
  pub rw_min : ℕ
