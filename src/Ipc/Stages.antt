-- ===== src/Ipc/Stages.antt =====
-- The states that the two processes can get into.
use dpdk_for_beginners.Base.{
  ℕ, zero, suc, ◌+◌, ◌*◌, ◌≤◌, ◌<◌, ◌≡◌, refl, true, List, [], ◌∷◌, ◌++◌, arith, ltb, Bool-cases,
  inl, inr,
}
use dpdk_for_beginners.Ipc.{
  Msg, System, Primary, sending, waiting, holding, done, Secondary, listening, reading, releasing,
  replying, exited, start, request, exit_msg, answer, primary_turn, secondary_turn, Turn,
  primary_runs, secondary_runs, turn, run,
}

-- Before the request `i`; the request in the ring, in the hand of the primary, in that of the secondary; the request and
-- the answer both allocated; the answer on its way into the ring, in the ring, in the hand of the secondary, in that of the primary; the
-- last message in the ring, and in the hand of the secondary; the end.
pub data Stage : Type 0 where
  ready asked misread heard allocating answering answered mistaken returned : ℕ → Stage
  leaving last over : Stage

-- the multiples of 10 below `10 * n`
abbrev pub tens : ℕ → List ℕ
tens zero = []
tens (suc n) = tens n ++ (n * 10 ∷ [])

abbrev system : Primary → Secondary → List Msg → ℕ → ℕ → ℕ → System
system p s ring i allocated freed = record {
  primary = p;
  secondary = s;
  ring = ring;
  received = tens i;
  allocated = allocated;
  freed = freed;
}

abbrev pub state_of : Stage → System
state_of (ready i) = system (sending i) listening [] i (2 * i) (2 * i)
state_of (asked i) = system (waiting i) listening (request i ∷ []) i (2 * i + 1) (2 * i)
state_of (misread i) = system (holding i (request i)) listening [] i (2 * i + 1) (2 * i)
state_of (heard i) = system (waiting i) (reading (request i)) [] i (2 * i + 1) (2 * i)
state_of (allocating i) = system (waiting i) (releasing (request i)) [] i (2 * i + 2) (2 * i)
state_of (answering i) =
    system (waiting i) (replying (answer (request i))) [] i (2 * i + 2) (2 * i + 1)
state_of (answered i) =
    system (waiting i) listening (answer (request i) ∷ []) i (2 * i + 2) (2 * i + 1)
state_of (mistaken i) =
    system (waiting i) (reading (answer (request i))) [] i (2 * i + 2) (2 * i + 1)
state_of (returned i) =
    system (holding i (answer (request i))) listening [] i (2 * i + 2) (2 * i + 1)
state_of leaving = system done listening (exit_msg ∷ []) 10 21 20
state_of last = system done (reading exit_msg) [] 10 21 20
state_of over = system done exited [] 10 21 21

abbrev pub IsStage : Stage → Type 0
IsStage (ready i) = i ≤ 10
IsStage (asked i) = i < 10
IsStage (misread i) = i < 10
IsStage (heard i) = i < 10
IsStage (allocating i) = i < 10
IsStage (answering i) = i < 10
IsStage (answered i) = i < 10
IsStage (mistaken i) = i < 10
IsStage (returned i) = i < 10
IsStage leaving = Unit
IsStage last = Unit
IsStage over = Unit

-- the turns that count on
pub ready-returned :
    (i : ℕ) → i < 10 → turn primary_runs (state_of (returned i)) ≡ state_of (ready (suc i))
unfolding primary_turn
ready-returned i h =
    let double : 2 * suc i ≡ 2 * i + 2 = omega arith in
    let two : 2 * i + 1 + 1 ≡ 2 * i + 2 = omega arith in
    let one : i + 1 ≡ suc i = omega arith in rw (two, double, one) refl

pub allocating-heard : (i : ℕ) → turn secondary_runs (state_of (heard i)) ≡ state_of (allocating i)
unfolding secondary_turn
allocating-heard i = let two : 2 * i + 1 + 1 ≡ 2 * i + 2 = omega arith in rw two refl

pub asked-ready : (i : ℕ) → i < 10 → turn primary_runs (state_of (ready i)) ≡ state_of (asked i)
unfolding primary_turn
asked-ready i h = let y : ltb i 10 ≡ true = ground arith in rw y refl

abbrev Staged : System → Type 0
Staged s = (g : Stage) × IsStage g × (s ≡ state_of g)

primary-Staged : (g : Stage) → IsStage g → Staged (turn primary_runs (state_of g))
unfolding primary_turn
primary-Staged (ready i) h = elim (Bool-cases (ltb i 10)) [
  | inl y ↦ let h : i < 10 = ground arith in (asked i, h, asked-ready i h)
  | inr n ↦ let e : i ≡ 10 = ground arith in (leaving, tt, rw e refl)
]
primary-Staged (asked i) h = (misread i, h, refl)
primary-Staged (misread i) h = (asked i, h, refl)
primary-Staged (heard i) h = (heard i, h, refl)
primary-Staged (allocating i) h = (allocating i, h, refl)
primary-Staged (answering i) h = (answering i, h, refl)
primary-Staged (answered i) h = (returned i, h, refl)
primary-Staged (mistaken i) h = (mistaken i, h, refl)
primary-Staged (returned i) h = (ready (suc i), omega arith, ready-returned i h)
primary-Staged leaving h = (leaving, tt, refl)
primary-Staged last h = (last, tt, refl)
primary-Staged over h = (over, tt, refl)

secondary-Staged : (g : Stage) → IsStage g → Staged (turn secondary_runs (state_of g))
unfolding secondary_turn
secondary-Staged (ready i) h = (ready i, h, refl)
secondary-Staged (asked i) h = (heard i, h, refl)
secondary-Staged (misread i) h = (misread i, h, refl)
secondary-Staged (heard i) h = (allocating i, h, allocating-heard i)
secondary-Staged (allocating i) h = (answering i, h, refl)
secondary-Staged (answering i) h = (answered i, h, refl)
secondary-Staged (answered i) h = (mistaken i, h, refl)
secondary-Staged (mistaken i) h = (answered i, h, refl)
secondary-Staged (returned i) h = (returned i, h, refl)
secondary-Staged leaving h = (last, tt, refl)
secondary-Staged last h = (over, tt, refl)
secondary-Staged over h = (over, tt, refl)

turn-Staged : (t : Turn) (s : System) → Staged s → Staged (turn t s)
turn-Staged primary_runs s (g, h, e) = rw e (primary-Staged g h)
turn-Staged secondary_runs s (g, h, e) = rw e (secondary-Staged g h)

-- Every sequence of turns leads to one of these states.
pub run-Staged :
    (ts : List Turn) (s : System)
    → (g : Stage) × IsStage g × (s ≡ state_of g)
    → (g : Stage) × IsStage g × (run ts s ≡ state_of g)
run-Staged [] s v = v
run-Staged (t ∷ ts) s v = run-Staged ts (turn t s) (turn-Staged t s v)

pub start-Staged : (g : Stage) × IsStage g × (start ≡ state_of g)
start-Staged = (ready 0, omega arith, refl)
