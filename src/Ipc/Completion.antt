-- ===== src/Ipc/Completion.antt =====
-- The exchange can always be brought to its end.
use dpdk_for_beginners.Base.{ℕ, zero, suc, ◌+◌, ◌-◌, ◌<◌, ◌≡◌, refl, ap, ◌∙◌, List, [], ◌∷◌, arith}
use dpdk_for_beginners.Ipc.{
  start, primary_turn, secondary_turn, Turn, primary_runs, secondary_runs, turn, run,
}
use dpdk_for_beginners.Ipc.Stages.{
  Stage, ready, asked, misread, heard, allocating, answering, answered, mistaken, returned, leaving,
  last, over, state_of, IsStage, ready-returned, allocating-heard, asked-ready, run-Staged,
  start-Staged,
}
use dpdk_for_beginners.Ipc.Exchange.{IsOver}

abbrev Finishes : Stage → Type 0
Finishes g = (ts : List Turn) × (run ts (state_of g) ≡ state_of over)

-- A turn from one stage to another that can be finished.
via : (t : Turn) (g h : Stage) → turn t (state_of g) ≡ state_of h → Finishes h → Finishes g
via t g h e (ts, f) = (t ∷ ts, ap (run ts) e ∙ f)

-- From each stage of an exchange to the next one.
module _ (i : ℕ) (h : i < 10) (next : Finishes (ready (suc i))) where
  from_returned : Finishes (returned i)
  from_returned = via primary_runs (returned i) (ready (suc i)) (ready-returned i h) next

  from_answered : Finishes (answered i)
  unfolding primary_turn
  from_answered = via primary_runs (answered i) (returned i) refl from_returned

  from_answering : Finishes (answering i)
  unfolding secondary_turn
  from_answering = via secondary_runs (answering i) (answered i) refl from_answered

  from_allocating : Finishes (allocating i)
  unfolding secondary_turn
  from_allocating = via secondary_runs (allocating i) (answering i) refl from_answering

  from_mistaken : Finishes (mistaken i)
  unfolding secondary_turn
  from_mistaken = via secondary_runs (mistaken i) (answered i) refl from_answered

  from_heard : Finishes (heard i)
  from_heard = via secondary_runs (heard i) (allocating i) (allocating-heard i) from_allocating

  from_asked : Finishes (asked i)
  unfolding secondary_turn
  from_asked = via secondary_runs (asked i) (heard i) refl from_heard

  from_misread : Finishes (misread i)
  unfolding primary_turn
  from_misread = via primary_runs (misread i) (asked i) refl from_asked

  from_ready : Finishes (ready i)
  from_ready = via primary_runs (ready i) (asked i) (asked-ready i h) from_asked

from_last : Finishes last
unfolding secondary_turn
from_last = via secondary_runs last over refl ([], refl)

from_leaving : Finishes leaving
unfolding secondary_turn
from_leaving = via secondary_runs leaving last refl from_last

from_end : Finishes (ready 10)
unfolding primary_turn
from_end = via primary_runs (ready 10) leaving refl from_leaving

-- with `k` requests still to come
rest : (k i : ℕ) → i + k ≡ 10 → Finishes (ready i)
rest zero i e = let ten : i ≡ 10 = omega arith in rw ten from_end
rest (suc k) i e = from_ready i (omega arith) (rest k (suc i) (omega arith))

after : (i : ℕ) → i < 10 → Finishes (ready (suc i))
after i h = rest (9 - i) (suc i) (omega arith)

finish : (g : Stage) → IsStage g → Finishes g
finish (ready i) h = rest (10 - i) i (omega arith)
finish (asked i) h = from_asked i h (after i h)
finish (misread i) h = from_misread i h (after i h)
finish (heard i) h = from_heard i h (after i h)
finish (allocating i) h = from_allocating i h (after i h)
finish (answering i) h = from_answering i h (after i h)
finish (answered i) h = from_answered i h (after i h)
finish (mistaken i) h = from_mistaken i h (after i h)
finish (returned i) h = from_returned i h (after i h)
finish leaving h = from_leaving
finish last h = from_last
finish over h = ([], refl)

-- Whatever turns have been taken, the processes are not stuck: there are turns after which both have come
-- to their end.
pub run-finishes : (ts : List Turn) → (more : List Turn) × IsOver (run more (run ts start))
run-finishes ts =
    let (g, h, e) = run-Staged ts start start-Staged in
    let (more, f) = finish g h in (more, rw (e, f) (refl, refl))
