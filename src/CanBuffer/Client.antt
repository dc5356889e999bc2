-- ===== src/CanBuffer/Client.antt =====
-- Sequences of calls of src/can_buffer.c, on the ring buffer and on the queue that it stands for.
use socanmatic.Base.{◌≡◌, refl, Bool, Option, none, some, List, [], ◌∷◌, arith}
use socanmatic.Base.{length, ◌==◌}
use socanmatic.CanBuffer.{CanBuf, TaggedFrame, max_size, clear, isempty, isfull}
use socanmatic.CanBuffer.{head, tail, push, pop}
use socanmatic.CanBuffer.Inv.{clear-IsValid}
use socanmatic.CanBuffer.Refine.{Represents, deref, push_refines, pop_refines, peek_refines}
use socanmatic.CanBuffer.Queue.{first?, last?, enqueue, dequeue}

pub data Op : Type 0 where
  put : TaggedFrame → Op
  get oldest newest empty full reset : Op

-- What a call shows its caller.
pub data Reply : Type 0 where
  flag : Bool → Reply
  seen : Option TaggedFrame → Reply
  done : Reply

-- One call; `none` is a store through NULL.
pub step : CanBuf → Op → Option (Reply × CanBuf)
step b (put tf) = elim (push b tf) [ none ↦ none | some (r, b') ↦ some (flag r, b') ]
step b get = let (r, b') = pop b in some (flag r, b')
step b oldest = some (seen (deref b (head b)), b)
step b newest = some (seen (deref b (tail b)), b)
step b empty = some (flag (isempty b), b)
step b full = some (flag (isfull b), b)
step b reset = some (done, clear b)

pub run : CanBuf → List Op → Option (List Reply)
run b [] = some []
run b (op ∷ ops) = elim (step b op) [
  | none ↦ none
  | some (r, b') ↦ elim (run b' ops) [ none ↦ none | some rs ↦ some (r ∷ rs) ]
]

-- The same calls on a queue of at most 256 frames.
unfoldable pub queue_step : List TaggedFrame → Op → Reply × List TaggedFrame
queue_step q (put tf) = let (r, q') = enqueue max_size q tf in (flag r, q')
queue_step q get = let (r, q') = dequeue q in (flag r, q')
queue_step q oldest = (seen (first? q), q)
queue_step q newest = (seen (last? q), q)
queue_step q empty = (flag (length q == 0), q)
queue_step q full = (flag (length q == max_size), q)
queue_step q reset = (done, [])

unfoldable pub queue_run : List TaggedFrame → List Op → List Reply
queue_run q [] = []
queue_run q (op ∷ ops) = let (r, q') = queue_step q op in r ∷ queue_run q' ops

pub clear-Represents : (b : CanBuf) → length b.frames ≡ max_size → Represents (clear b) []
clear-Represents b h = record {
  valid = clear-IsValid b h;
  count = unfold clear in refl;
  slots = λ i lt. unfold clear in absurd (omega arith);
}

step_refines :
    (b : CanBuf) (q : List TaggedFrame) (op : Op)
    → Represents b q
    → (b' : CanBuf) × (step b op ≡ some ((queue_step q op).0, b'))
      × Represents b' (queue_step q op).1
unfolding step queue_step
step_refines b q (put tf) r = let (b', e, r') = push_refines b q tf r in (b', rw (e, step), r')
step_refines b q get r = let (e, r') = pop_refines b q r in ((pop b).1, rw (e, step), r')
step_refines b q oldest r = (b, rw (peek_refines b q r).0, r)
step_refines b q newest r = (b, rw (peek_refines b q r).1, r)
step_refines b q empty r = (b, unfold isempty in rw r.count, r)
step_refines b q full r = (b, unfold isfull in rw r.count, r)
step_refines b q reset r = (clear b, refl, clear-Represents b r.valid.storage)

-- No sequence of calls tells a ring buffer from the bounded queue that it represents: every reply
-- is the queue's, and no call stores through NULL.
pub run_refines :
    (b : CanBuf) (q : List TaggedFrame) (ops : List Op)
    → Represents b q
    → run b ops ≡ some (queue_run q ops)
unfolding run queue_run
run_refines b q [] r = refl
run_refines b q (op ∷ ops) r =
    let (b', e, r') = step_refines b q op r in
    rw (e, run, run_refines b' (queue_step q op).1 ops r')
