-- ===== src/CanBuffer/Inv.antt =====
-- The representation invariant of `can_buf_t`: the indices stay in the array, and no `size_t`
-- operation wraps.
use socanmatic.Base.{ℕ, ◌+◌, ◌-◌, ◌%◌, ◌^◌, ◌≤◌, ◌<◌, ◌≡◌, Bool, true, false, some}
use socanmatic.Base.{
  Option, none, ◌==◌, Bool-cases, inl, inr, arith, dec_lt, length, set, length-set,
}
use socanmatic.CanBuffer.{CanBuf, TaggedFrame, max_size, clear, head, tail, push, pop}

pub record IsValid (b : CanBuf) : Type 0 where
  pub storage : length b.frames ≡ max_size
  pub head_in : b.head < max_size
  pub size_in : b.size ≤ max_size

-- Any buffer whose array has its 256 slots is valid after `can_buf_clear`.
pub clear-IsValid : (b : CanBuf) → length b.frames ≡ max_size → IsValid (clear b)
unfolding clear
clear-IsValid b h = ground arith

-- The buffer after a push that finds room.
abbrev pub pushed : CanBuf → TaggedFrame → CanBuf
pushed b tf = record b { size = b.size + 1; frames = set b.frames ((b.head + b.size) % 2 ^ 8) tf }

pub push_room :
    (b : CanBuf) (tf : TaggedFrame)
    → IsValid b
    → b.size < max_size
    → push b tf ≡ some (true, pushed b tf)
unfolding push tail
push_room b tf v room = ground arith

pub push_full : (b : CanBuf) (tf : TaggedFrame) → max_size ≤ b.size → push b tf ≡ some (false, b)
unfolding push
push_full b tf full = ground arith

pub pushed-IsValid :
    (b : CanBuf) (tf : TaggedFrame) → IsValid b → b.size < max_size → IsValid (pushed b tf)
pushed-IsValid b tf v room = ground (arith, length-set b.frames ((b.head + b.size) % 2 ^ 8) tf)

-- On a valid buffer `can_buf_push` never stores through NULL, and keeps the buffer valid.
pub push-IsValid :
    (b : CanBuf) (tf : TaggedFrame)
    → IsValid b
    → (r : Bool) × (b' : CanBuf) × (push b tf ≡ some (r, b')) × IsValid b'
push-IsValid b tf v = elim (dec_lt b.size max_size) [
  | yes room ↦ (true, pushed b tf, push_room b tf v room, pushed-IsValid b tf v room)
  | no full ↦ (false, b, push_full b tf (omega arith), v)
]

-- The buffer after a pop that finds a frame.
abbrev pub popped : CanBuf → CanBuf
popped b = record b { head = (b.head + 1) % 2 ^ 64 % 2 ^ 8; size = b.size - 1 }

pub popped-IsValid : (b : CanBuf) → IsValid b → 0 < b.size → IsValid (popped b)
popped-IsValid b v h = ground arith

-- `can_buf_pop` keeps the buffer valid.
pub pop-IsValid : (b : CanBuf) → IsValid b → IsValid (pop b).1
unfolding pop
pop-IsValid b v = ground arith

-- The pointer is NULL or points into the array.
abbrev pub Points : CanBuf → Option ℕ → Type 0
Points b none = Unit {0}
Points b (some i) = i < length b.frames

-- On a valid buffer the pointers that `can_buf_head` and `can_buf_tail` return are NULL or point
-- into the array.
pub pointers_in_bounds : (b : CanBuf) → IsValid b → Points b (head b) × Points b (tail b)
unfolding head tail
pointers_in_bounds b v = elim (Bool-cases (b.size == 0)) [
  | inl t ↦ rw (t) (tt, tt)
  | inr t ↦ rw (t) (omega (arith, v), omega (arith, v))
]
