-- ===== src/Ipc/Exchange.antt =====
-- What the two processes guarantee, in whichever order they run.
use dpdk_for_beginners.Base.{ℕ, ◌+◌, ◌≤◌, ◌≡◌, refl, List, length, arith}
use dpdk_for_beginners.Ipc.{System, done, exited, start, Turn, run}
use dpdk_for_beginners.Ipc.Stages.{
  Stage, ready, asked, misread, heard, allocating, answering, answered, mistaken, returned, leaving,
  last, over, tens, state_of, IsStage, run-Staged, start-Staged,
}

-- the end of both processes
abbrev pub IsOver : System → Type 0
IsOver s = (s.primary ≡ done) × (s.secondary ≡ exited)

-- What holds at all times.
abbrev pub Promise : System → Type 0
Promise s =
    ((n : ℕ) × (n ≤ 10) × (s.received ≡ tens n))
    × (length s.ring ≤ 1)
    × (s.freed ≤ s.allocated)
    × (s.allocated ≤ s.freed + 2)
    × (IsOver s → (s.received ≡ tens 10) × (s.allocated ≡ s.freed))

stage-Promise : (g : Stage) → IsStage g → Promise (state_of g)
stage-Promise (ready i) h = ((i, h, refl), omega arith, omega arith, omega arith, λ e. cc)
stage-Promise (asked i) h = ((i, omega arith, refl), omega arith, omega arith, omega arith, λ e. cc)
stage-Promise (misread i) h =
    ((i, omega arith, refl), omega arith, omega arith, omega arith, λ e. cc)
stage-Promise (heard i) h = ((i, omega arith, refl), omega arith, omega arith, omega arith, λ e. cc)
stage-Promise (allocating i) h =
    ((i, omega arith, refl), omega arith, omega arith, omega arith, λ e. cc)
stage-Promise (answering i) h =
    ((i, omega arith, refl), omega arith, omega arith, omega arith, λ e. cc)
stage-Promise (answered i) h =
    ((i, omega arith, refl), omega arith, omega arith, omega arith, λ e. cc)
stage-Promise (mistaken i) h =
    ((i, omega arith, refl), omega arith, omega arith, omega arith, λ e. cc)
stage-Promise (returned i) h =
    ((i, omega arith, refl), omega arith, omega arith, omega arith, λ e. cc)
stage-Promise leaving h = ((10, omega arith, refl), omega arith, omega arith, omega arith, λ e. cc)
stage-Promise last h = ((10, omega arith, refl), omega arith, omega arith, omega arith, λ e. cc)
stage-Promise over h =
    ((10, omega arith, refl), omega arith, omega arith, omega arith, λ e. (refl, refl))

-- In whichever order the processes run, the primary has received the answers 0, 10, 20 and so on in
-- their order, ten at most, never more than one message is in the ring, and never more than two
-- are allocated and not yet freed: a request and its answer. When both have ended, the primary has all ten answers and every message has been freed.
pub run-Promise : (ts : List Turn) → Promise (run ts start)
run-Promise ts = let (g, h, e) = run-Staged ts start start-Staged in rw e (stage-Promise g h)
