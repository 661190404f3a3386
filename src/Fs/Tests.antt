-- ===== src/Fs/Tests.antt =====
-- The descriptor table with one file open and a terminal with one line ready.
use rockos.Prelude.{ℕ, ◌≡◌, refl, Bool, true, false, List, [], ◌∷◌, arith, All, if◌then◌else◌}
use rockos.Tty.{TtyState}
use rockos.Keyboard.Layout.{scancode_to_char}
use rockos.Tty
use rockos.Tty.Invariant.{new-IsValid}
use rockos.Fs.{
  FsState, Wake, returned, blocked, deadlocked, read_round, get, insert, remove, open_path,
  sys_close, write_fd_any, sys_read, errno, dev_tty, read_blocking,
}
use rockos.Fs.Descriptors.{IsValid, opens, closes, writes, Steps, done, step, Steps-IsValid}
use rockos.Fs.Contents.{write-read}
use rockos.Fs.Blocking.{Codes, any_locked, Waited, read_blocking-Waited, sys_read-blocked}

abbrev hello : List ℕ
hello = b'h' ∷ b'i' ∷ []

abbrev one_file : FsState
one_file = record {
  stdin_nonblock = false;
  next_fd = 5;
  files = (4, hello) ∷ [];
  tty = Tty.new;
  serial_out = [];
}

program : Unit {0}
unfolding open_path sys_close write_fd_any sys_read read_blocking read_round get insert remove
    Tty.read Tty.feed_all Tty.feed_scancode Tty.key_down Tty.feed_char Tty.push_bytes
    Tty.encode_utf8 scancode_to_char
program = tt

one_file-IsValid : IsValid one_file
unfolding program
one_file-IsValid = record {
  keyed = (refl, tt);
  handed_out = (omega arith, omega arith, tt);
  first = omega arith;
}

abbrev everything : (addr len : ℕ) → Bool
everything addr len = true

opened_new : (open_path one_file hello 0).0 ≡ 5
unfolding program
opened_new = refl

opened_tty : (open_path one_file dev_tty 0x800).1.stdin_nonblock ≡ true
unfolding program
opened_tty = refl

opened_empty : open_path one_file [] 0 ≡ (errno 2, one_file)
unfolding program
opened_empty = refl

abbrev opened : FsState
opened = (open_path one_file hello 0).1

abbrev written : FsState
written = (write_fd_any opened 5 hello).1

abbrev closed : FsState
closed = (sys_close written 4).1

calls : Steps one_file closed
calls =
    step (opens one_file hello 0 (omega arith))
      (step (writes opened 5 hello) (step (closes written 4) (done closed)))

Steps-IsValid_example : IsValid closed
Steps-IsValid_example = Steps-IsValid calls one_file-IsValid

write-read_example :
    let (written, fs') = write_fd_any one_file 4 hello in
    (written ≡ 2)
    × (sys_read everything fs' 4 0x400000 3 [] ≡ (returned 3 (b'h' ∷ b'i' ∷ b'h' ∷ []), fs'))
unfolding get
write-read_example =
    write-read everything one_file 4 0x400000 3 hello hello [] one_file-IsValid refl (omega arith)
      (omega arith) refl

-- The keys a and Enter, each behind a `hlt`.
abbrev typed : List Wake
typed =
    record { woken = 0x1e ∷ []; locked = false; late = [] }
    ∷ record { woken = 0x1c ∷ []; locked = false; late = [] }
    ∷ []

typed_a_line : (read_blocking Tty.new 16 typed).0 ≡ returned 2 (b'a' ∷ 10 ∷ [])
unfolding program
typed_a_line = refl

typed-Codes : All Codes typed
typed-Codes = (((omega arith, tt), tt), (((omega arith, tt), tt), tt))

read_blocking-Waited_example : Waited Tty.new [] 16 typed (read_blocking Tty.new 16 typed)
read_blocking-Waited_example =
    read_blocking-Waited Tty.new 16 typed typed-Codes new-IsValid (omega arith)

-- Enter behind the attempt that follows a: the line waits for the next interrupt.
typed_late :
    (read_blocking Tty.new 16
      (record { woken = 0x1e ∷ []; locked = false; late = 0x1c ∷ [] } ∷ [])).0
    ≡ blocked
unfolding program
typed_late = refl

-- Enter while the attempt that follows a holds the lock.
typed_within :
    (read_blocking Tty.new 16
      (record { woken = 0x1e ∷ []; locked = true; late = 0x1c ∷ [] } ∷ [])).0
    ≡ deadlocked
unfolding program
typed_within = refl

sys_read-blocked_example :
    (sys_read everything one_file 0 0x400000 0 typed).0
    ≡ (if any_locked typed then deadlocked else blocked)
sys_read-blocked_example =
    sys_read-blocked everything one_file 0x400000 typed typed-Codes new-IsValid refl refl
