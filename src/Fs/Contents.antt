-- ===== src/Fs/Contents.antt =====
-- What opening, writing and closing a descriptor do to what is read from it.
use rockos.Prelude.{
  ℕ, ◌+◌, ◌-◌, ◌^◌, ◌≤◌, ◌<◌, ◌≡◌, ◌≢◌, refl, ap, ◌∙◌, Bool, true, false, none, some, List, [], ◌∷◌,
  ◌++◌, arith, min, length, take, ◌==◌, if◌then◌else◌, length-append,
}
use rockos.Fs.{
  FsState, Wake, returned, get, insert, remove, add_file, open_path, sys_close, write_fd_any,
  read_file, errno, sys_read, bytes_eq, dev_null,
}
use rockos.Fs.Utf8.{is_utf8}
use rockos.Fs.Files.{Map, get-insert, get-remove, get-Below, some-Below}
use rockos.Fs.Descriptors.{IsValid}

-- A descriptor from opening is one that was not in use; its file is empty and no other is touched.
pub add_file_lem :
    (fs : FsState)
    → IsValid fs
    → let (fd, fs') = add_file fs in
      (get fs.files fd ≡ none)
      × ((j : ℕ) → get fs'.files j ≡ (if fd == j then some [] else get fs.files j))
unfolding add_file
add_file_lem fs v = (
  get-Below fs.next_fd fs.files fs.next_fd (omega arith) v.handed_out,
  λ j. get-insert fs.files fs.next_fd j [],
)

-- The three outcomes of opening a path: an error that changes nothing; the terminal, with the files
-- as they were; or a descriptor that was not in use, with an empty file, no other being touched.
pub data Opened (fs : FsState) (out : ℕ × FsState) : Type 0 where
  failed : 2 ^ 64 - 4096 ≤ out.0 → out.1 ≡ fs → Opened fs out
  terminal : out.0 ≡ 0 → out.1.files ≡ fs.files → Opened fs out
  fresh :
      get fs.files out.0 ≡ none
      → ((j : ℕ) → get out.1.files j ≡ (if out.0 == j then some [] else get fs.files j))
      → Opened fs out

-- Opening a path gives an error and changes nothing, or names the terminal and leaves the files as
-- they were, or gives a descriptor that was not in use, with an empty file, and touches no other.
pub open_path-Opened :
    (fs : FsState) (path : List ℕ) (flags : ℕ) → IsValid fs → Opened fs (open_path fs path flags)
unfolding open_path
open_path-Opened fs path flags v =
    let (unused, others) = add_file_lem fs v in
    let added : Opened fs (add_file fs) = fresh unused others in
    let not_utf8 : Opened fs (errno 22, fs) = failed (omega arith) refl in
    let no_name : Opened fs (errno 2, fs) = failed (omega arith) refl in
    let too_many : Opened fs (errno 24, fs) = failed (omega arith) refl in
    let tty : Opened fs (0, fs) = terminal refl refl in
    let tty_nonblock : Opened fs (0, record fs { stdin_nonblock = true }) = terminal refl refl in
    ground (arith, added, not_utf8, no_name, too_many, tty, tty_nonblock)

length-insert : (m : Map) (fd : ℕ) (v : List ℕ) → length (insert m fd v) ≤ length m + 1
unfolding insert
length-insert [] fd v = omega arith
length-insert ((k, w) ∷ m) fd v = ground (arith, length-insert m fd v)

-- Opening any path but /dev/null leaves at most 65 files, if there were no more before.
pub open_path_limit :
    (fs : FsState) (path : List ℕ) (flags : ℕ)
    → bytes_eq path dev_null ≡ false
    → length fs.files ≤ 65
    → length (open_path fs path flags).1.files ≤ 65
unfolding open_path add_file
open_path_limit fs path flags other few =
    ground (arith, other, few, length-insert fs.files fs.next_fd [])

-- Opening /dev/null has no such limit: the descriptor is given whatever the number of files.
pub open_dev_null : (fs : FsState) (flags : ℕ) → open_path fs dev_null flags ≡ add_file fs
unfolding open_path bytes_eq is_utf8
open_dev_null fs flags = refl

write_some :
    (fs : FsState) (fd : ℕ) (old slice : List ℕ)
    → 4 ≤ fd
    → get fs.files fd ≡ some old
    → write_fd_any fs fd slice
      ≡ (length slice, record fs { files = insert fs.files fd (old ++ slice) })
unfolding write_fd_any
write_some fs fd old slice lo found = rw found (ground arith)

read_some :
    (files : Map) (fd len : ℕ) (l : List ℕ)
    → get files fd ≡ some l
    → 0 < length l
    → read_file files fd len ≡ returned (min (length l) len) (take (min (length l) len) l)
unfolding read_file
read_some files fd len [] found pos = absurd (omega arith)
read_some files fd len (b ∷ l) found pos = rw (found, read_file) refl

read_none :
    (files : Map) (fd len : ℕ)
    → get files fd ≡ none
    → read_file files fd len ≡ returned (errno 9) []
unfolding read_file
read_none files fd len absent = rw (absent, read_file) refl

close_some :
    (fs : FsState) (fd : ℕ) (old : List ℕ)
    → 4 ≤ fd
    → get fs.files fd ≡ some old
    → sys_close fs fd ≡ (0, record fs { files = remove fs.files fd })
unfolding sys_close
close_some fs fd old lo found = rw found (ground arith)

close_none : (fs : FsState) (fd : ℕ) → get fs.files fd ≡ none → sys_close fs fd ≡ (errno 9, fs)
unfolding sys_close
close_none fs fd absent = rw absent (ground arith)

module _ (writable : (addr len : ℕ) → Bool) where
  sys_read-read_file :
      (fs : FsState) (fd buf len : ℕ) (wakes : List Wake)
      → 4 ≤ fd
      → len ≤ 8192
      → writable buf len ≡ true
      → sys_read writable fs fd buf len wakes ≡ (read_file fs.files fd len, fs)
  unfolding sys_read
  sys_read-read_file fs fd buf len wakes lo room ok = rw ok (ground arith)

  -- What is read after a write is the file from its first byte on, with the written bytes at its
  -- end: as much of it as the buffer holds. Earlier reads have taken nothing away.
  pub write-read :
      (fs : FsState) (fd buf len : ℕ) (old slice : List ℕ) (wakes : List Wake)
      → IsValid fs
      → get fs.files fd ≡ some old
      → 0 < length slice
      → len ≤ 8192
      → writable buf len ≡ true
      → let (written, fs') = write_fd_any fs fd slice in
        let n = min (length (old ++ slice)) len in
        (written ≡ length slice)
        × (sys_read writable fs' fd buf len wakes ≡ (returned n (take n (old ++ slice)), fs'))
  write-read fs fd buf len old slice wakes v found some_bytes room ok =
      let (lo, hi) = some-Below fs.next_fd fs.files fd old v.handed_out found in
      let fs' = record fs { files = insert fs.files fd (old ++ slice) } in
      let now : get fs'.files fd ≡ some (old ++ slice) =
        ground (arith, get-insert fs.files fd fd (old ++ slice)) in
      rw (write_some fs fd old slice lo found) (
        refl,
        sys_read-read_file fs' fd buf len wakes lo room ok
            ∙ ap (λ r. (r, fs'))
                (read_some fs'.files fd len (old ++ slice) now
                  (omega (arith, length-append old slice))),
      )

  -- A closed descriptor is refused, by reading and by closing it again, and every other keeps its
  -- file.
  pub close-read :
      (fs : FsState) (fd buf len : ℕ) (old : List ℕ) (wakes : List Wake)
      → IsValid fs
      → get fs.files fd ≡ some old
      → len ≤ 8192
      → writable buf len ≡ true
      → let (closed, fs') = sys_close fs fd in
        (closed ≡ 0)
        × (sys_read writable fs' fd buf len wakes ≡ (returned (errno 9) [], fs'))
        × (sys_close fs' fd ≡ (errno 9, fs'))
        × ((j : ℕ) → fd ≢ j → get fs'.files j ≡ get fs.files j)
  close-read fs fd buf len old wakes v found room ok =
      let (lo, hi) = some-Below fs.next_fd fs.files fd old v.handed_out found in
      let fs' = record fs { files = remove fs.files fd } in
      let gone : get fs'.files fd ≡ none = ground (arith, get-remove fs.files fd fd v.keyed) in
      rw (close_some fs fd old lo found) (
        refl,
        sys_read-read_file fs' fd buf len wakes lo room ok
            ∙ ap (λ r. (r, fs')) (read_none fs'.files fd len gone),
        close_none fs' fd gone,
        λ j other. ground (arith, get-remove fs.files fd j v.keyed),
      )
