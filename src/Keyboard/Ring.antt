-- ===== src/Keyboard/Ring.antt =====
-- The ring of src/keyboard.rs refines the bounded queue.
use rockos.Prelude.{
  ℕ, zero, suc, ◌+◌, ◌-◌, ◌%◌, ◌<◌, ◌≡◌, refl, ap, ◌≢◌, ◌∙◌, List, [], ◌∷◌, ◌++◌, arith, length,
  get_or, set, length-set, get_or-set_self, get_or-set_ne,
}
use rockos.Keyboard.{ScancodeQueue, new, try_push, try_pop}
use rockos.Keyboard.Fifo

-- Both indices lie in the buffer, which keeps its 256 bytes.
pub record IsValid (q : ScancodeQueue) : Type 0 where
  pub size : length q.buf ≡ 256
  pub head_in : q.head < 256
  pub tail_in : q.tail < 256

-- The `n` bytes from index `h` on, round the end of the buffer.
abbrev pub bytes_from : List ℕ → ℕ → ℕ → List ℕ
bytes_from buf h zero = []
bytes_from buf h (suc n) = get_or buf h 0 ∷ bytes_from buf ((h + 1) % 256) n

abbrev pub count : ScancodeQueue → ℕ
count q = (q.tail + 256 - q.head) % 256

-- The queued bytes, oldest first.
abbrev pub contents : ScancodeQueue → List ℕ
contents q = bytes_from q.buf q.head (count q)

length-bytes_from : (buf : List ℕ) (h n : ℕ) → length (bytes_from buf h n) ≡ n
length-bytes_from buf h zero = refl
length-bytes_from buf h (suc n) = ap suc (length-bytes_from buf ((h + 1) % 256) n)

-- A write behind the last byte appends it.
bytes_from-set :
    (buf : List ℕ) (b n h t : ℕ)
    → length buf ≡ 256
    → h < 256
    → n < 256
    → t ≡ (h + n) % 256
    → bytes_from (set buf t b) h (suc n) ≡ bytes_from buf h n ++ b ∷ []
bytes_from-set buf b zero h t size hh hn e =
    let at_h : t ≡ h = omega arith in
    ap (λ x. x ∷ [])
      (ap (λ i. get_or (set buf t b) i 0) (omega arith) ∙ get_or-set_self buf t b 0 (omega arith))
bytes_from-set buf b (suc n) h t size hh hn e = ground (
  arith,
  get_or-set_ne buf t h b 0 (omega arith),
  bytes_from-set buf b n ((h + 1) % 256) t size (omega arith) (omega arith) (omega arith),
)

bytes_from_pos :
    (buf : List ℕ) (h n : ℕ)
    → n ≢ 0
    → bytes_from buf h n ≡ get_or buf h 0 ∷ bytes_from buf ((h + 1) % 256) (n - 1)
bytes_from_pos buf h zero p = absurd (p refl)
bytes_from_pos buf h (suc n) p = ap (λ k. bytes_from buf h (suc k)) (omega arith)

pub new-IsValid : IsValid new × (contents new ≡ [])
unfolding new
new-IsValid = (omega arith, refl)

pub try_push-IsValid : (q : ScancodeQueue) (b : ℕ) → IsValid q → IsValid (try_push q b).1
unfolding try_push
try_push-IsValid q b v = ground (arith, length-set q.buf q.tail b)

pub try_pop-IsValid : (q : ScancodeQueue) → IsValid q → IsValid (try_pop q).1
unfolding try_pop
try_pop-IsValid q v = ground arith

-- On a valid ring `try_push` answers as the bounded queue does, leaves the ring holding what the
-- queue then holds, and keeps the ring valid.
pub try_push_refines :
    (q : ScancodeQueue) (b : ℕ)
    → IsValid q
    → let (pushed, q') = try_push q b in
      ((pushed, contents q') ≡ Fifo.push (contents q) b) × IsValid q'
unfolding try_push Fifo.push
try_push_refines q b v = (
  ground (
    arith,
    length-bytes_from q.buf q.head (count q),
    bytes_from-set q.buf b (count q) q.head q.tail v.size v.head_in (omega arith) (omega arith),
  ),
  try_push-IsValid q b v,
)

-- On a valid ring `try_pop` answers as the bounded queue does, leaves the ring holding the rest,
-- and keeps the ring valid.
pub try_pop_refines :
    (q : ScancodeQueue)
    → IsValid q
    → let (popped, q') = try_pop q in ((popped, contents q') ≡ Fifo.pop (contents q)) × IsValid q'
unfolding try_pop Fifo.pop
try_pop_refines q v = (ground (arith, bytes_from_pos q.buf q.head (count q)), try_pop-IsValid q v)
