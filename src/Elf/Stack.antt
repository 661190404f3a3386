-- ===== src/Elf/Stack.antt =====
-- The first stack of a program: `build_exec_stack` of src/elf.rs up to the copy into user memory.
pub mod Padding
pub mod Tables
pub mod Layout
pub mod Reference
use rockos.Prelude.{
  ℕ, zero, suc, ◌+◌, ◌-◌, ◌*◌, ◌/◌, ◌%◌, Bool, true, false, List, [], ◌∷◌, ◌++◌, length, take, drop,
  get_or, ltb, leb, ◌==◌, if◌then◌else◌,
}
use rockos.Bytes.{to_le_bytes}
use rockos.Process.{user_stack_top}
use rockos.User.{stack_lo}
use rockos.Elf.{
  ElfError, stack_ovf, aux_ovf, Result, ok, err, ◌>>=◌, ◌>>◌, fail_if, ExecArgs, ElfLoadedMeta,
}

-- The loops that append `n` words of zero.
unfoldable pub extend_zeros : (n : ℕ) → List ℕ → List ℕ
extend_zeros zero v = v
extend_zeros (suc n) v = extend_zeros n (v ++ to_le_bytes 8 0)

-- `while v.len() % k != 0 { v.push(0) }`, on fuel; a round less than `k` is enough.
unfoldable pub pad : (fuel k : ℕ) → List ℕ → List ℕ
pad zero k v = v
pad (suc fuel) k v = elim (length v % k == 0) [ true ↦ v | false ↦ pad fuel k (v ++ 0 ∷ []) ]

abbrev pub align_up : ℕ → ℕ → ℕ
align_up x a = (x + a - 1) / a * a

-- `while v.len() < str0 { v.push(0) }`, on fuel.
unfoldable pub push_until : (fuel str0 : ℕ) → List ℕ → List ℕ
push_until zero str0 v = v
push_until (suc fuel) str0 v = elim (ltb (length v) str0) [
  | true ↦ push_until fuel str0 (v ++ 0 ∷ [])
  | false ↦ v
]

-- The loop over the strings of `envp`, or of `argv`, on `v` and `str_off`.
unfoldable pub push_strings : List (List ℕ) → List ℕ × List ℕ → List ℕ × List ℕ
push_strings [] s = s
push_strings (e ∷ es) (v, str_off) =
    push_strings es (pad 8 8 (v ++ e ++ 0 ∷ []), str_off ++ (stack_lo + length v) ∷ [])

-- `v[o..o + 8].copy_from_slice(&w.to_le_bytes())`.
unfoldable pub write_word : List ℕ → (o w : ℕ) → List ℕ
write_word v o w = take o v ++ to_le_bytes 8 w ++ drop (o + 8) v

-- The loops that fill a table of pointers: `n` rounds from index `i` on. The table starts at `tab`,
-- and its strings stand in `str_off` from index `first` on.
unfoldable pub fill_table : (n i tab first : ℕ) → (str_off v : List ℕ) → List ℕ
fill_table zero i tab first str_off v = v
fill_table (suc n) i tab first str_off v =
    fill_table n (i + 1) tab first str_off
      (write_word v (tab + i * 8) (get_or str_off (first + i) 0))

-- The loop over `aux`.
unfoldable pub fill_aux : List (ℕ × ℕ) → (ao : ℕ) → List ℕ → Result (List ℕ)
fill_aux [] ao v = ok v
fill_aux ((tag, val) ∷ aux) ao v =
    let rest = fill_aux aux (ao + 16) (write_word (write_word v ao tag) (ao + 8) val) in
    if ltb (length v) (ao + 16) then err aux_ovf else rest

abbrev pub aux_table : ElfLoadedMeta → List (ℕ × ℕ)
aux_table meta =
    (3, meta.phdr) ∷ (4, meta.phent) ∷ (5, meta.phnum) ∷ (6, 4096) ∷ (9, meta.entry) ∷ (0, 0) ∷ []

-- `argc` and room for the tables, up to the first string.
pub record StackHead : Type 0 where
  pub argv_tab : ℕ
  pub env_tab : ℕ
  pub bytes : List ℕ

unfoldable pub stack_head : (argc envc : ℕ) → StackHead
stack_head argc envc =
    let v0 = to_le_bytes 8 argc in
    let v1 = extend_zeros argc v0 ++ to_le_bytes 8 0 in
    let v2 = extend_zeros envc v1 ++ to_le_bytes 8 0 in
    let v3 = pad 16 16 (extend_zeros (2 * 6) v2) in
    record {
      argv_tab = length v0;
      env_tab = length v1;
      bytes = push_until 16 (align_up (length v3) 16) v3;
    }

-- The rest of the function once the strings are in place.
unfoldable pub patch_tables :
    ElfLoadedMeta → (argc envc : ℕ) → StackHead → List ℕ × List ℕ → Result (List ℕ)
patch_tables meta argc envc head (v, str_off) = do
  fail_if (ltb user_stack_top (stack_lo + length v)) stack_ovf
  let v1 = fill_table envc 0 head.env_tab 0 str_off v
  let v2 = fill_table argc 0 head.argv_tab envc str_off v1
  fill_aux (aux_table meta) (head.env_tab + (envc + 1) * 8) v2

-- The bytes of the new stack page: `v` before its copy into user memory.
unfoldable pub stack_image : ElfLoadedMeta → ExecArgs → Result (List ℕ)
stack_image meta args =
    let argc = length args.argv in
    let envc = length args.envp in
    let head = stack_head argc envc in
    patch_tables meta argc envc head
      (push_strings args.argv (push_strings args.envp (head.bytes, [])))
