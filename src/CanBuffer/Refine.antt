-- ===== src/CanBuffer/Refine.antt =====
-- A valid ring buffer behaves as the bounded FIFO of the frames that it holds.
use socanmatic.Base.{ℕ, zero, suc, ◌+◌, ◌-◌, ◌%◌, ◌^◌, ◌≤◌, ◌<◌, ◌≡◌, refl, ap, sym, ◌∙◌}
use socanmatic.Base.{true, false, Option, none, some, List, [], ◌∷◌, ◌++◌, arith, dec_lt}
use socanmatic.Base.{length, get_elem?, length-append, get_elem?-set_self, get_elem?-set_ne}
use socanmatic.Base.{get_elem?-append_left, get_elem?-append_last}
use socanmatic.CanBuffer.{CanBuf, TaggedFrame, max_size, head, tail, push, pop}
use socanmatic.CanBuffer.Inv.{
  IsValid, pushed, popped, push_room, push_full, pushed-IsValid, popped-IsValid,
}
use socanmatic.CanBuffer.Queue.{first?, last?, enqueue, dequeue}

-- The buffer is valid, and its slots from `head` on, going round, hold the queue in order.
pub record Represents (b : CanBuf) (q : List TaggedFrame) : Type 0 where
  pub valid : IsValid b
  pub count : length q ≡ b.size
  pub slots : (i : ℕ) → i < b.size → get_elem? b.frames ((b.head + i) % 2 ^ 8) ≡ get_elem? q i

newest :
    (b : CanBuf) (q : List TaggedFrame) (tf : TaggedFrame)
    → Represents b q
    → (i : ℕ) → i ≡ b.size
    → get_elem? (pushed b tf).frames ((b.head + i) % 2 ^ 8) ≡ get_elem? (q ++ tf ∷ []) i
newest b q tf r i e =
    rw (get_elem?-append_last q tf i (omega (arith, r.count)), e)
      (get_elem?-set_self b.frames ((b.head + b.size) % 2 ^ 8) tf (omega (arith, r.valid)))

pushed-slots :
    (b : CanBuf) (q : List TaggedFrame) (tf : TaggedFrame) (r : Represents b q)
    → b.size < max_size
    → (i : ℕ) → i < b.size + 1
    → get_elem? (pushed b tf).frames ((b.head + i) % 2 ^ 8) ≡ get_elem? (q ++ tf ∷ []) i
pushed-slots b q tf r room i h = elim (dec_lt i b.size) [
  | yes old ↦
      get_elem?-set_ne b.frames ((b.head + b.size) % 2 ^ 8) ((b.head + i) % 2 ^ 8) tf
        (λ e. omega (arith, r.valid))
      ∙ (r.slots i old ∙ sym (get_elem?-append_left q (tf ∷ []) i (omega (arith, r.count))))
  | no new ↦ newest b q tf r i (omega arith)
]

enqueue_room :
    (q : List TaggedFrame) (tf : TaggedFrame)
    → length q < max_size
    → enqueue max_size q tf ≡ (true, q ++ tf ∷ [])
enqueue_room q tf h = ground arith

enqueue_full :
    (q : List TaggedFrame) (tf : TaggedFrame)
    → max_size ≤ length q
    → enqueue max_size q tf ≡ (false, q)
enqueue_full q tf h = ground arith

-- `can_buf_push` appends the frame and returns 1 while the buffer holds fewer than 256, and
-- otherwise returns 0 and changes nothing; it never stores through NULL.
pub push_refines :
    (b : CanBuf) (q : List TaggedFrame) (tf : TaggedFrame)
    → Represents b q
    → (b' : CanBuf) × (push b tf ≡ some ((enqueue max_size q tf).0, b'))
      × Represents b' (enqueue max_size q tf).1
push_refines b q tf r = elim (dec_lt b.size max_size) [
  | yes room ↦ rw (enqueue_room q tf (omega (arith, r.count))) (
    pushed b tf,
    push_room b tf r.valid room,
    record {
      valid = pushed-IsValid b tf r.valid room;
      count = omega (arith, r.count, length-append {0} q (tf ∷ []));
      slots = pushed-slots b q tf r room;
    },
  )
  | no full ↦ rw (enqueue_full q tf (omega (arith, r.count))) (b, push_full b tf (omega arith), r)
]

pop-slots :
    (b : CanBuf) (x : TaggedFrame) (q : List TaggedFrame)
    → Represents b (x ∷ q)
    → (i : ℕ) → i < b.size - 1
    → get_elem? b.frames (((b.head + 1) % 2 ^ 64 % 2 ^ 8 + i) % 2 ^ 8) ≡ get_elem? q i
pop-slots b x q r i h =
    ap (λ (j : ℕ). get_elem? b.frames j) (omega (arith, r.valid)) ∙ r.slots (suc i) (omega arith)

pop_some : (b : CanBuf) → 0 < b.size → pop b ≡ (true, popped b)
unfolding pop
pop_some b h = ground arith

pop_none : (b : CanBuf) → b.size ≡ 0 → pop b ≡ (false, b)
unfolding pop
pop_none b h = ground arith

-- `can_buf_pop` removes the oldest frame and returns 1, and returns 0 on an empty buffer, which
-- it leaves unchanged.
pub pop_refines :
    (b : CanBuf) (q : List TaggedFrame)
    → Represents b q
    → ((pop b).0 ≡ (dequeue q).0) × Represents (pop b).1 (dequeue q).1
pop_refines b [] r = rw (pop_none b (omega (arith, r.count))) (refl, r)
pop_refines b (x ∷ q) r = rw (pop_some b (omega (arith, r.count))) (
  refl,
  record {
    valid = popped-IsValid b r.valid (omega (arith, r.count));
    count = omega (arith, r.count);
    slots = pop-slots b x q r;
  },
)

-- What a client reads through a pointer that `can_buf_head` or `can_buf_tail` returned.
abbrev pub deref : CanBuf → Option ℕ → Option TaggedFrame
deref b none = none
deref b (some i) = get_elem? b.frames i

last?-eq-get_elem? : (q : List TaggedFrame) (n : ℕ) → length q ≡ suc n → last? q ≡ get_elem? q n
last?-eq-get_elem? [] n e = absurd (omega arith)
last?-eq-get_elem? (x ∷ []) zero e = refl
last?-eq-get_elem? (x ∷ []) (suc n) e = absurd (omega arith)
last?-eq-get_elem? (x ∷ y ∷ q) zero e = absurd (omega arith)
last?-eq-get_elem? (x ∷ y ∷ q) (suc n) e = last?-eq-get_elem? (y ∷ q) n (omega arith)

head-some : (b : CanBuf) → 0 < b.size → head b ≡ some b.head
unfolding head
head-some b h = ground arith

tail-some : (b : CanBuf) → IsValid b → 0 < b.size → tail b ≡ some ((b.head + (b.size - 1)) % 2 ^ 8)
unfolding tail
tail-some b v h = ground arith

-- The pointers of `can_buf_head` and `can_buf_tail` lead to the oldest and the newest frame, and
-- are NULL when there is none.
pub peek_refines :
    (b : CanBuf) (q : List TaggedFrame)
    → Represents b q
    → (deref b (head b) ≡ first? q) × (deref b (tail b) ≡ last? q)
peek_refines b [] r = unfold head tail in ground (arith, r.count)
peek_refines b (x ∷ q) r =
    rw (head-some b (omega (arith, r.count)), tail-some b r.valid (omega (arith, r.count)))
      (
        ap (λ (j : ℕ). get_elem? b.frames j) (omega (arith, r.valid))
            ∙ r.slots 0 (omega (arith, r.count)),
        r.slots (b.size - 1) (omega (arith, r.count))
            ∙ sym (last?-eq-get_elem? (x ∷ q) (b.size - 1) (omega (arith, r.count))),
      )
