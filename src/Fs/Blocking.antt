-- ===== src/Fs/Blocking.antt =====
-- Reading from the terminal until a line comes.
use rockos.Prelude.{
  ℕ, ◌≤◌, ◌<◌, ◌≡◌, refl, sym, ap, subst, ◌∙◌, Bool, true, false, ◌||◌, List, [], ◌∷◌, ◌++◌, length,
  All, if◌then◌else◌, Bool-cases, inl, inr,
}
use rockos.Tty.{TtyState, ReadResult, ok, err, feed_all}
use rockos.Tty
use rockos.Tty.Invariant.{IsValid, feed_scancode-IsValid}
use rockos.Tty.Reading.{read_empty_buffer, pending}
use rockos.Fs.Attempts.{Attempt, no_line, took, attempt, after_attempt-took}
use rockos.Fs.{
  FsState, Wake, after_attempt, Reading, returned, blocked, deadlocked, finished, read_round,
  read_blocking, sys_read, read_stdin,
}

-- Scan codes are bytes.
abbrev AreBytes : List ℕ → Type 0
AreBytes codes = All (λ code. code < 256) codes

abbrev pub Codes : Wake → Type 0
Codes w = AreBytes w.woken × AreBytes w.late

-- Whether an interrupt comes while an attempt holds the lock.
abbrev pub any_locked : List Wake → Bool
any_locked [] = false
any_locked (w ∷ wakes) = w.locked || any_locked wakes

-- The terminal stays well formed while scan codes come in.
feed_all-IsValid :
    (s : TtyState) (codes : List ℕ) → AreBytes codes → IsValid s → IsValid (feed_all s codes)
unfolding feed_all
feed_all-IsValid s [] h v = v
feed_all-IsValid s (code ∷ codes) h v =
    feed_all-IsValid (Tty.feed_scancode s code) codes h.1 (feed_scancode-IsValid s code h.0 v)

wake-IsValid :
    (s : TtyState) (late codes : List ℕ)
    → AreBytes late
    → AreBytes codes
    → IsValid s
    → IsValid (feed_all (feed_all s late) codes)
wake-IsValid s late codes l h v =
    feed_all-IsValid (feed_all s late) codes h (feed_all-IsValid s late l v)

-- What an attempt without a line leads to.
abbrev next_round : (len : ℕ) (late : List ℕ) → Wake → List Wake → TtyState → Reading × TtyState
next_round len late w wakes s =
    let found = feed_all (feed_all s late) w.woken in
    elim w.locked [ true ↦ (deadlocked, found) | false ↦ read_round found len w.late wakes ]

read_round_empty :
    (s : TtyState) (late : List ℕ) (wakes : List Wake)
    → AreBytes late
    → All Codes wakes
    → IsValid s
    → (read_round s 0 late wakes).0 ≡ (if any_locked wakes then deadlocked else blocked)
unfolding read_round after_attempt finished
read_round_empty s late [] l h v =
    ap (λ r. (after_attempt r (λ s'. (blocked, feed_all s' late))).0) (read_empty_buffer s v)
read_round_empty s late (w ∷ wakes) l h v =
    let found = λ (s' : TtyState). feed_all (feed_all s' late) w.woken in
    ap (λ r. (after_attempt r (next_round 0 late w wakes)).0) (read_empty_buffer s v)
    ∙ elim (Bool-cases w.locked) [
      | inl stuck ↦ rw stuck refl
      | inr free ↦ rw free (
          read_round_empty (found s) w.late wakes h.0.1 h.1 (wake-IsValid s late w.woken l h.0.0 v))
    ]

-- The terminal as the attempt after `wakes` finds it, and what comes in behind that attempt; `late`
-- come in behind the first one.
abbrev pub fed : TtyState → (late : List ℕ) → List Wake → TtyState
fed s late [] = s
fed s late (w ∷ wakes) = fed (feed_all (feed_all s late) w.woken) w.late wakes

abbrev pub last_late : (late : List ℕ) → List Wake → List ℕ
last_late late [] = late
last_late late (w ∷ wakes) = last_late w.late wakes

-- Of the attempts up to the one after `wakes`, none but this one finds a line, and the keyboard
-- interrupts none.
abbrev pub Quiet : TtyState → (late : List ℕ) → List Wake → Type 0
Quiet s late [] = Unit {0}
Quiet s late (w ∷ wakes) =
    (s.ready_lines ≡ [])
    × (w.locked ≡ false)
    × Quiet (feed_all (feed_all s late) w.woken) w.late wakes

-- The three outcomes of a blocking read. `waiting`: no attempt finds a line, and the terminal has
-- taken in every scan code. `delivered`: the first attempt that finds a line takes bytes from the
-- front of the finished lines, at least one and no more than the buffer holds. `stuck`: a keyboard
-- interrupt comes within an attempt, the one after `w`, and no attempt before found a line.
pub data Waited (s : TtyState) (late : List ℕ) (len : ℕ) (wakes : List Wake)
    (out : Reading × TtyState) : Type 0 where
  waiting :
      Quiet s late wakes
      → (fed s late wakes).ready_lines ≡ []
      → out ≡ (blocked, feed_all (fed s late wakes) (last_late late wakes))
      → Waited s late len wakes out
  delivered :
      (before rest : List Wake) (bs : List ℕ)
      → wakes ≡ before ++ rest
      → Quiet s late before
      → out.0 ≡ returned (length bs) bs
      → 0 < length bs
      → length bs ≤ len
      → pending (fed s late before) ≡ bs ++ pending out.1
      → Waited s late len wakes out
  stuck :
      (before rest : List Wake) (w : Wake)
      → wakes ≡ before ++ w ∷ rest
      → Quiet s late before
      → (fed s late before).ready_lines ≡ []
      → w.locked ≡ true
      → out.0 ≡ deadlocked
      → Waited s late len wakes out

Waited-wake :
    (s : TtyState) (late : List ℕ) (len : ℕ) (w : Wake) (wakes : List Wake)
    (out : Reading × TtyState)
    → s.ready_lines ≡ []
    → w.locked ≡ false
    → Waited (feed_all (feed_all s late) w.woken) w.late len wakes out
    → Waited s late len (w ∷ wakes) out
Waited-wake s late len w wakes out none_ready free (waiting q last e) =
    waiting (none_ready, free, q) last e
Waited-wake s late len w wakes out none_ready free
      (delivered before rest bs e q r pos fits stream) =
    delivered (w ∷ before) rest bs (ap (λ l. w ∷ l) e) (none_ready, free, q) r pos fits stream
Waited-wake s late len w wakes out none_ready free (stuck before rest x e q last held r) =
    stuck (w ∷ before) rest x (ap (λ l. w ∷ l) e) (none_ready, free, q) last held r

-- One turn of the loop, if its continuation keeps the claim.
Attempt-Waited :
    (s : TtyState) (late : List ℕ) (len : ℕ) (wakes : List Wake)
    (more : TtyState → Reading × TtyState)
    → Attempt s len
    → (s.ready_lines ≡ [] → Waited s late len wakes (more s))
    → Waited s late len wakes (after_attempt (Tty.read s len false) more)
unfolding after_attempt finished
Attempt-Waited s late len wakes more (no_line e r) go_on =
    subst (λ x. Waited s late len wakes (after_attempt x more)) (sym r) (go_on e)
Attempt-Waited s late len wakes more (took bs s' r some_bytes fits stream) go_on =
    subst (Waited s late len wakes)
      (sym (ap (λ x. after_attempt x more) r ∙ after_attempt-took bs s' more some_bytes))
      (delivered [] wakes bs refl tt refl some_bytes fits stream)

-- An attempt without a line, if the rounds behind it keep the claim.
next_round-Waited :
    (s : TtyState) (late : List ℕ) (len : ℕ) (w : Wake) (wakes : List Wake)
    → (let found = feed_all (feed_all s late) w.woken in
        Waited found w.late len wakes (read_round found len w.late wakes))
    → s.ready_lines ≡ []
    → Waited s late len (w ∷ wakes) (next_round len late w wakes s)
next_round-Waited s late len w wakes rest e =
    let found = feed_all (feed_all s late) w.woken in
    let next : Bool → Reading × TtyState =
      λ b. elim b [ true ↦ (deadlocked, found) | false ↦ read_round found len w.late wakes ] in
    elim (Bool-cases w.locked) [
      | inl held ↦ stuck [] wakes w refl tt e held (ap (λ b. (next b).0) held)
      | inr free ↦
          subst (Waited s late len (w ∷ wakes)) (sym (ap next free))
            (Waited-wake s late len w wakes (next false) e free rest)
    ]

read_round-Waited :
    (s : TtyState) (late : List ℕ) (len : ℕ) (wakes : List Wake)
    → AreBytes late
    → All Codes wakes
    → IsValid s
    → 0 < len
    → Waited s late len wakes (read_round s len late wakes)
unfolding read_round
read_round-Waited s late len [] l h v pos =
    Attempt-Waited s late len [] (λ s'. (blocked, feed_all s' late))
      (attempt s len s.ready_lines refl v pos) (λ e. waiting tt e refl)
read_round-Waited s late len (w ∷ wakes) l h v pos =
    Attempt-Waited s late len (w ∷ wakes) (next_round len late w wakes)
      (attempt s len s.ready_lines refl v pos)
      (next_round-Waited s late len w wakes (
        read_round-Waited (feed_all (feed_all s late) w.woken) w.late len wakes h.0.1 h.1
          (wake-IsValid s late w.woken l h.0.0 v) pos))

-- A blocking read into a buffer that is not empty, over any keyboard interrupts, on a well-formed
-- terminal: the first attempt that finds a line returns bytes from the front of the finished lines;
-- or a keyboard interrupt within an attempt, with no line found before, stops the kernel for ever; or
-- no attempt finds a line, none is interrupted by the keyboard, and the read goes on waiting.
pub read_blocking-Waited :
    (s : TtyState) (len : ℕ) (wakes : List Wake)
    → All Codes wakes
    → IsValid s
    → 0 < len
    → Waited s [] len wakes (read_blocking s len wakes)
unfolding read_blocking
read_blocking-Waited s len wakes h v pos = read_round-Waited s [] len wakes tt h v pos

module _ (writable : (addr len : ℕ) → Bool) where
  -- A blocking read of 0 bytes from the terminal never returns, whatever is typed: also where a
  -- line is complete, it takes the count 0 for the lack of one. It waits for ever, or a keyboard
  -- interrupt within one of its attempts stops the kernel.
  pub sys_read-blocked :
      (fs : FsState) (buf : ℕ) (wakes : List Wake)
      → All Codes wakes
      → IsValid fs.tty
      → fs.stdin_nonblock ≡ false
      → writable buf 0 ≡ true
      → (sys_read writable fs 0 buf 0 wakes).0 ≡ (if any_locked wakes then deadlocked else blocked)
  unfolding sys_read read_stdin read_blocking
  sys_read-blocked fs buf wakes h v blocking may_write =
      rw (may_write, blocking) (read_round_empty fs.tty [] wakes tt h v)
