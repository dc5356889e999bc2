-- ===== src/CanBuffer/Tests.antt =====
-- Runs of the ring buffer, and each theorem on it at a concrete buffer.
use socanmatic.Base.{ℕ, zero, suc, ◌≡◌, refl, ap, true, false, some, List, [], ◌∷◌, length}
use socanmatic.Can.{zero_frame}
use socanmatic.CanBuffer.{CanBuf, TaggedFrame, clear}
use socanmatic.CanBuffer.Refine.{Represents}
use socanmatic.CanBuffer.Client.{
  Op, put, get, oldest, newest, empty, full, reset, flag, seen, done, run, queue_run, queue_step,
  clear-Represents, run_refines,
}

abbrev tagged : ℕ → TaggedFrame
tagged n = record { frame = zero_frame; sequence_no = n }

repeated : ℕ → List TaggedFrame
repeated zero = []
repeated (suc n) = tagged 0 ∷ repeated n

length-repeated : (n : ℕ) → length (repeated n) ≡ n
unfolding repeated
length-repeated zero = refl
length-repeated (suc n) = ap suc (length-repeated n)

-- A buffer that is cleared when its indices are the last ones.
abbrev used : CanBuf
used = record { head = 255; size = 256; frames = repeated 256 }

abbrev fresh : CanBuf
fresh = clear used

abbrev calls : List Op
calls =
    empty
    ∷ put (tagged 1)
    ∷ put (tagged 2)
    ∷ oldest
    ∷ newest
    ∷ get
    ∷ oldest
    ∷ full
    ∷ reset
    ∷ get
    ∷ []

fresh-Represents : Represents fresh []
fresh-Represents = clear-Represents used (length-repeated 256)

run_refines_example : run fresh calls ≡ some (queue_run [] calls)
run_refines_example = run_refines fresh [] calls fresh-Represents

-- What the calls show.
calls_replies :
    queue_run [] calls
    ≡ flag true
      ∷ flag true
      ∷ flag true
      ∷ seen (some (tagged 1))
      ∷ seen (some (tagged 2))
      ∷ flag true
      ∷ seen (some (tagged 2))
      ∷ flag false
      ∷ done
      ∷ flag false
      ∷ []
unfolding queue_run queue_step
calls_replies = refl
