-- ===== src/CanBuffer.antt =====
-- The ring buffer of tagged CAN frames (src/can_buffer.c, include/socanmatic/can_buffer.h).
-- A function that changes `*buf` returns the new buffer beside its result, and a pointer into
-- `data` is its index, with `none` for NULL.
pub mod Queue
pub mod Inv
pub mod Refine
pub mod Client
mod Tests
use socanmatic.Base.{ℕ, ◌+◌, ◌-◌, ◌%◌, ◌^◌, Bool, true, false, Option, none, some, List, set}
use socanmatic.Base.{leb, ◌==◌, if◌then◌else◌}
use socanmatic.Can.{CanFrame}

-- `sequence_no` is an `int`, only stored here: its bit pattern.
pub record TaggedFrame : Type 0 where
  pub frame : CanFrame
  pub sequence_no : ℕ

-- `can_buf_t`; `frames` is the array `data`.
pub record CanBuf : Type 0 where
  pub head : ℕ
  pub size : ℕ
  pub frames : List TaggedFrame

abbrev pub max_size : ℕ
max_size = 256

-- `x & (size_t)CAN_BUFFER_MOD_MASK`, after an addition of `size_t`
abbrev pub wrap_index : ℕ → ℕ
wrap_index x = x % 2 ^ 64 % 2 ^ 8

unfoldable pub clear : CanBuf → CanBuf
clear buf = record buf { head = 0; size = 0 }

unfoldable pub isempty : CanBuf → Bool
isempty buf = buf.size == 0

unfoldable pub isfull : CanBuf → Bool
isfull buf = buf.size == max_size

unfoldable pub head : CanBuf → Option ℕ
head buf = if buf.size == 0 then none else some buf.head

-- The subtraction is of `size_t`, at a size that is not 0.
unfoldable pub tail : CanBuf → Option ℕ
tail buf = if buf.size == 0 then none else some (wrap_index (buf.head + buf.size - 1))

-- The frame and its number are stored through the pointer of `tail`; `none` is a store through
-- NULL.
store_at : CanBuf → TaggedFrame → Option ℕ → Option (Bool × CanBuf)
store_at buf tf none = none
store_at buf tf (some i) = some (true, record buf { frames = set buf.frames i tf })

unfoldable pub push : CanBuf → TaggedFrame → Option (Bool × CanBuf)
unfolding store_at
push buf tf =
    if leb max_size buf.size
    then some (false, buf)
    else let grown = record buf { size = (buf.size + 1) % 2 ^ 64 } in store_at grown tf (tail grown)

unfoldable pub pop : CanBuf → Bool × CanBuf
pop buf =
    if buf.size == 0
    then (false, buf)
    else (true, record buf { head = wrap_index (buf.head + 1); size = buf.size - 1 })
