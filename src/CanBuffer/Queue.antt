-- ===== src/CanBuffer/Queue.antt =====
-- What a client of src/can_buffer.c may rely on: a FIFO of at most 256 tagged frames.
use socanmatic.Base.{ℕ, Bool, true, false, Option, none, some, List, [], ◌∷◌, ◌++◌}
use socanmatic.Base.{length, leb, if◌then◌else◌}

module _ {ℓ} {A : Type ℓ} where
  abbrev pub first? : List A → Option A
  first? [] = none
  first? (x ∷ q) = some x

  abbrev pub last? : List A → Option A
  last? [] = none
  last? (x ∷ []) = some x
  last? (x ∷ y ∷ q) = last? (y ∷ q)

  abbrev pub rest : List A → List A
  rest [] = []
  rest (x ∷ q) = q

  abbrev pub enqueue : ℕ → List A → A → Bool × List A
  enqueue cap q x = if leb cap (length q) then (false, q) else (true, q ++ x ∷ [])

  abbrev pub dequeue : List A → Bool × List A
  dequeue [] = (false, [])
  dequeue (x ∷ q) = (true, q)
