-- ===== src/Fs.antt =====
-- The file descriptors of src/fs.rs. STDIN_NONBLOCK, NEXT_FD and FILES are the fields of a record,
-- with the terminal and the bytes sent to the serial port; FILES, a map, is a list of pairs with
-- distinct keys. The checks of user pointers are answered by a function, and user memory is read
-- through one.
pub mod Utf8
pub mod Files
pub mod Descriptors
pub mod Contents
pub mod Attempts
pub mod Blocking
mod Tests
use Prim.Native.Nat.{bit_and}
use rockos.Prelude.{
  ℕ, zero, suc, ◌+◌, ◌-◌, ◌%◌, ◌^◌, Bool, true, false, not, ◌&&◌, ◌||◌, Option, none, some, List,
  [], ◌∷◌, ◌++◌, min, length, take, ltb, leb, ◌==◌, if◌then◌else◌,
}
use rockos.Tty.{TtyState, ReadResult, ok, err, feed_all}
use rockos.Tty
use rockos.Fs.Utf8.{is_utf8}

-- A negative error number as a u64.
abbrev pub errno : ℕ → ℕ
errno e = 2 ^ 64 - e

pub record FsState : Type 0 where
  pub stdin_nonblock : Bool
  pub next_fd : ℕ
  pub files : List (ℕ × List ℕ)
  pub tty : TtyState
  pub serial_out : List ℕ

unfoldable pub get : List (ℕ × List ℕ) → ℕ → Option (List ℕ)
get [] fd = none
get ((k, v) ∷ m) fd = if k == fd then some v else get m fd

unfoldable pub insert : List (ℕ × List ℕ) → ℕ → List ℕ → List (ℕ × List ℕ)
insert [] fd v = (fd, v) ∷ []
insert ((k, w) ∷ m) fd v = let rest = insert m fd v in if k == fd then (k, v) ∷ m else (k, w) ∷ rest

unfoldable pub remove : List (ℕ × List ℕ) → ℕ → List (ℕ × List ℕ)
remove [] fd = []
remove ((k, v) ∷ m) fd = let rest = remove m fd in if k == fd then m else (k, v) ∷ rest

-- What a read returns and the bytes it has copied to the buffer. `blocked`: it waits for ever on the
-- interrupts it is given. `deadlocked`: a keyboard interrupt waits for ever for the lock that the
-- attempt it has interrupted holds.
pub data Reading : Type 0 where
  blocked : Reading
  deadlocked : Reading
  returned : (ret : ℕ) → (copied : List ℕ) → Reading

-- The `match` of the blocking loop on one attempt; none means another round.
unfoldable pub finished : ReadResult → Option Reading
finished (ok []) = none
finished (ok (b ∷ bs)) = some (returned (length (b ∷ bs)) (b ∷ bs))
finished (err e) = some (returned (errno 4) [])

-- `more` goes on with the loop.
unfoldable pub after_attempt :
    ReadResult × TtyState → (more : TtyState → Reading × TtyState) → Reading × TtyState
unfolding finished
after_attempt (result, s) more = elim (finished result) [
  | some reading ↦ (reading, s)
  | none ↦ more s
]

-- The keyboard interrupts from one `hlt` on. A system call starts with interrupts off; the first
-- `enable_and_hlt` turns them on and nothing turns them off again. `woken`: the scan codes that come
-- in before the next attempt takes the lock of the terminal. `locked`: one comes while it holds the
-- lock. `late`: those that come after it has let go of the lock and before the next `hlt`.
pub record Wake : Type 0 where
  pub woken : List ℕ
  pub locked : Bool
  pub late : List ℕ

-- The loop of a blocking read from the terminal, from an attempt on; `late` come in behind it. Under
-- `deadlocked` the terminal is given as the attempt found it.
unfoldable pub read_round :
    TtyState → (len : ℕ) → (late : List ℕ) → (wakes : List Wake) → Reading × TtyState
unfolding after_attempt
read_round s len late [] = after_attempt (Tty.read s len false) (λ s'. (blocked, feed_all s' late))
read_round s len late (w ∷ wakes) = after_attempt (Tty.read s len false) (λ s'.
    let found = feed_all (feed_all s' late) w.woken in
    elim w.locked [ true ↦ (deadlocked, found) | false ↦ read_round found len w.late wakes ])

-- No interrupt comes behind the first attempt before its `enable_and_hlt`.
unfoldable pub read_blocking : TtyState → (len : ℕ) → (wakes : List Wake) → Reading × TtyState
unfolding read_round
read_blocking s len wakes = read_round s len [] wakes

-- `Err(e) => e as u64` widens the negative i32.
unfoldable pub read_nonblocking : TtyState → ℕ → Reading × TtyState
read_nonblocking s len =
    let (result, s') = Tty.read s len true in
    elim result [ ok l ↦ (returned (length l) l, s') | err e ↦ (returned (errno e) [], s') ]

unfoldable pub read_file : List (ℕ × List ℕ) → (fd len : ℕ) → Reading
unfolding get
read_file files fd len = elim (get files fd) [
  | none ↦ returned (errno 9) []
  | some [] ↦ returned (errno 11) []
  | some (b ∷ bs) ↦ let n = min (length (b ∷ bs)) len in returned n (take n (b ∷ bs))
]

unfoldable pub read_stdin : FsState → (len : ℕ) → (wakes : List Wake) → Reading × TtyState
unfolding read_blocking read_nonblocking
read_stdin fs len wakes =
    if fs.stdin_nonblock then read_nonblocking fs.tty len else read_blocking fs.tty len wakes

module _ (writable : (addr len : ℕ) → Bool) where
  unfoldable pub sys_read : FsState → (fd buf len : ℕ) → (wakes : List Wake) → Reading × FsState
  unfolding read_stdin read_file
  sys_read fs fd buf len wakes =
      if ltb 8192 len
      then (returned (errno 22) [], fs)
      else if not (writable buf len)
      then (returned (errno 14) [], fs)
      else if fd == 0
      then (let (reading, tty') = read_stdin fs len wakes in (reading, record fs { tty = tty' }))
      else if fd == 1 || fd == 2
      then (returned (errno 9) [], fs)
      else (read_file fs.files fd len, fs)

-- `n` bytes of user memory from `addr` on.
unfoldable pub bytes_at : (mem : ℕ → ℕ) → (addr n : ℕ) → List ℕ
bytes_at mem addr zero = []
bytes_at mem addr (suc n) = mem addr ∷ bytes_at mem (addr + 1) n

unfoldable pub until_nul : List ℕ → List ℕ
until_nul [] = []
until_nul (b ∷ l) = let rest = until_nul l in if b == 0 then [] else b ∷ rest

unfoldable pub bytes_eq : List ℕ → List ℕ → Bool
bytes_eq [] [] = true
bytes_eq (a ∷ l) (b ∷ m) = a == b && bytes_eq l m
bytes_eq _ _ = false

abbrev dev : List ℕ → List ℕ
dev name = b'/' ∷ b'd' ∷ b'e' ∷ b'v' ∷ b'/' ∷ name

abbrev pub dev_stdin : List ℕ
dev_stdin = dev (b's' ∷ b't' ∷ b'd' ∷ b'i' ∷ b'n' ∷ [])

abbrev pub dev_tty : List ℕ
dev_tty = dev (b't' ∷ b't' ∷ b'y' ∷ [])

abbrev pub dev_null : List ℕ
dev_null = dev (b'n' ∷ b'u' ∷ b'l' ∷ b'l' ∷ [])

-- A new empty file under the next descriptor. NEXT_FD is 64 bits wide and wraps.
unfoldable pub add_file : FsState → ℕ × FsState
unfolding insert
add_file fs = (
  fs.next_fd,
  record fs { next_fd = (fs.next_fd + 1) % 2 ^ 64; files = insert fs.files fs.next_fd [] },
)

-- `sys_open` behind its check of the pointer, over the path up to the first NUL of 128 bytes.
unfoldable pub open_path : FsState → List ℕ → (flags : ℕ) → ℕ × FsState
unfolding bytes_eq add_file is_utf8
open_path fs path flags =
    if not (is_utf8 path)
    then (errno 22, fs)
    else if bytes_eq path dev_stdin || bytes_eq path dev_tty
    then (0, if bit_and flags 0x800 == 0 then fs else record fs { stdin_nonblock = true })
    else if bytes_eq path dev_null
    then add_file fs
    else if length path == 0
    then (errno 2, fs)
    else if ltb 64 (length fs.files)
    then (errno 24, fs)
    else add_file fs

module _ (readable : (addr len : ℕ) → Bool) (mem : ℕ → ℕ) where
  unfoldable pub sys_open : FsState → (path_ptr flags : ℕ) → ℕ × FsState
  unfolding until_nul bytes_at open_path
  sys_open fs path_ptr flags =
      if not (readable path_ptr 128)
      then (errno 14, fs)
      else open_path fs (until_nul (bytes_at mem path_ptr 128)) flags

unfoldable pub sys_close : FsState → (fd : ℕ) → ℕ × FsState
unfolding get remove
sys_close fs fd = if leb fd 2 then (errno 9, fs) else elim (get fs.files fd) [
  | none ↦ (errno 9, fs)
  | some old ↦ (0, record fs { files = remove fs.files fd })
]

unfoldable pub write_fd_any : FsState → (fd : ℕ) → List ℕ → ℕ × FsState
unfolding get insert
write_fd_any fs fd slice =
    if fd == 1 || fd == 2
    then (length slice, record fs { serial_out = fs.serial_out ++ slice })
    else if ltb 2 fd
    then elim (get fs.files fd) [
      | some v ↦ (length slice, record fs { files = insert fs.files fd (v ++ slice) })
      | none ↦ (errno 9, fs)
    ]
    else (errno 9, fs)

-- `sys_write` of src/syscall.rs.
module _ (readable : (addr len : ℕ) → Bool) (mem : ℕ → ℕ) where
  unfoldable pub sys_write : FsState → (fd buf_addr len : ℕ) → ℕ × FsState
  unfolding bytes_at write_fd_any
  sys_write fs fd buf_addr len =
      if ltb 8192 len
      then (errno 28, fs)
      else if not (readable buf_addr len)
      then (errno 14, fs)
      else write_fd_any fs fd (bytes_at mem buf_addr len)
