-- ===== src/Fs/Descriptors.antt =====
-- Opening, writing, reading and closing a descriptor.
use rockos.Prelude.{
  ℕ, ◌+◌, ◌%◌, ◌^◌, ◌≤◌, ◌<◌, ◌≡◌, Bool, true, List, [], ◌++◌, arith, Option-cases, inl, inr,
}
use rockos.Fs.{FsState, get, insert, remove, add_file, open_path, sys_close, write_fd_any}
use rockos.Fs.Files.{
  Map, Keyed, Below, insert-Keyed, remove-Keyed, insert-Below, remove-Below, Below-mono, some-Below,
}

-- Every open descriptor was handed out by NEXT_FD, has one entry, and is at least 4.
pub record IsValid (fs : FsState) : Type 0 where
  pub keyed : Keyed fs.files
  pub handed_out : Below fs.next_fd fs.files
  pub first : 4 ≤ fs.next_fd

add_file-IsValid : (fs : FsState) → fs.next_fd + 1 < 2 ^ 64 → IsValid fs → IsValid (add_file fs).1
unfolding add_file
add_file-IsValid fs room v =
    let next : (fs.next_fd + 1) % 2 ^ 64 ≡ fs.next_fd + 1 = omega arith in
    record {
      keyed = insert-Keyed fs.files fs.next_fd [] v.keyed;
      handed_out = rw next (
          insert-Below (fs.next_fd + 1) fs.files fs.next_fd [] v.first (omega arith)
            (Below-mono fs.next_fd (fs.next_fd + 1) fs.files (omega arith) v.handed_out));
      first = rw next (omega (arith, v.first));
    }

set-IsValid :
    (fs : FsState) (nonblock : Bool)
    → IsValid fs
    → IsValid (record fs { stdin_nonblock = nonblock })
set-IsValid fs nonblock v = record { keyed = v.keyed; handed_out = v.handed_out; first = v.first }

-- While NEXT_FD does not wrap, opening a path keeps the descriptors well formed.
pub open_path-IsValid :
    (fs : FsState) (path : List ℕ) (flags : ℕ)
    → fs.next_fd + 1 < 2 ^ 64
    → IsValid fs
    → IsValid (open_path fs path flags).1
unfolding open_path
open_path-IsValid fs path flags room v =
    ground (arith, add_file-IsValid fs room v, set-IsValid fs true v, v)

with_files :
    (fs : FsState) (m : Map)
    → Keyed m
    → Below fs.next_fd m
    → IsValid fs
    → IsValid (record fs { files = m })
with_files fs m k b v = record { keyed = k; handed_out = b; first = v.first }

-- Closing a descriptor keeps them well formed.
pub sys_close-IsValid : (fs : FsState) (fd : ℕ) → IsValid fs → IsValid (sys_close fs fd).1
unfolding sys_close
sys_close-IsValid fs fd v =
    let closed =
      with_files fs (remove fs.files fd) (remove-Keyed fs.files fd v.keyed)
        (remove-Below fs.next_fd fs.files fd v.handed_out) v in
    ground (arith, closed, v)

-- So does writing.
pub write_fd_any-IsValid :
    (fs : FsState) (fd : ℕ) (slice : List ℕ) → IsValid fs → IsValid (write_fd_any fs fd slice).1
unfolding write_fd_any
write_fd_any-IsValid fs fd slice v =
    let printed : IsValid (record fs { serial_out = fs.serial_out ++ slice }) = record {
      keyed = v.keyed;
      handed_out = v.handed_out;
      first = v.first;
    } in
    elim (Option-cases (get fs.files fd)) [
      | inr (old, found) ↦
          let (lo, hi) = some-Below fs.next_fd fs.files fd old v.handed_out found in
          let written =
            with_files fs (insert fs.files fd (old ++ slice))
              (insert-Keyed fs.files fd (old ++ slice) v.keyed)
              (insert-Below fs.next_fd fs.files fd (old ++ slice) lo hi v.handed_out) v in
          rw found (ground (arith, written, printed, v))
      | inl absent ↦ rw absent (ground (arith, printed, v))
    ]

-- The calls that change the table. An opening counts while NEXT_FD does not wrap.
pub data Step : FsState → FsState → Type 0 where
  opens :
      (fs : FsState) (path : List ℕ) (flags : ℕ)
      → fs.next_fd + 1 < 2 ^ 64
      → Step fs (open_path fs path flags).1
  closes : (fs : FsState) (fd : ℕ) → Step fs (sys_close fs fd).1
  writes : (fs : FsState) (fd : ℕ) (slice : List ℕ) → Step fs (write_fd_any fs fd slice).1

-- Any number of calls, in any order.
pub data Steps : FsState → FsState → Type 0 where
  done : (fs : FsState) → Steps fs fs
  step : {fs fs' fs'' : FsState} → Step fs fs' → Steps fs' fs'' → Steps fs fs''

Step-IsValid : {fs fs' : FsState} → Step fs fs' → IsValid fs → IsValid fs'
Step-IsValid (opens fs path flags room) v = open_path-IsValid fs path flags room v
Step-IsValid (closes fs fd) v = sys_close-IsValid fs fd v
Step-IsValid (writes fs fd slice) v = write_fd_any-IsValid fs fd slice v

-- Whatever is opened, closed and written, in any order and with any result, every open descriptor
-- stays one that NEXT_FD has handed out, from 4 on, with one file each.
pub Steps-IsValid : {fs fs' : FsState} → Steps fs fs' → IsValid fs → IsValid fs'
Steps-IsValid (done fs) v = v
Steps-IsValid (step first rest) v = Steps-IsValid rest (Step-IsValid first v)
