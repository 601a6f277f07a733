-- ===== src/Ports.antt =====
-- The set-up of a port, which most programs do in a function `init_port` or `port_init` and some in `main`:
-- the calls in their order, and what the program does when one of them fails.
pub mod Checked
pub mod Unchecked
pub mod Rss
pub mod Order
use dpdk_for_beginners.Base.{
  ℕ, zero, suc, ◌≡◌, Bool, true, false, Option, none, some, List, [], ◌∷◌, ltb, ◌==◌, ◌&&◌, ◌||◌,
  not, if◌then◌else◌,
}

-- The calls of `rte_ethdev` on the port, with their arguments: numbers of queues, and a queue with its
-- number of descriptors.
pub data Call : Type 0 where
  is_valid_port dev_info_get dev_start promiscuous_enable : Call
  dev_configure rx_queue_setup tx_queue_setup : ℕ → ℕ → Call

-- What the documentation lets a program rely on: the numbers of queues that were configured, the queues
-- that were set up, and whether the port runs.
pub record Dev : Type 0 where
  pub queues : Option (ℕ × ℕ)
  pub rx_ready : List ℕ
  pub tx_ready : List ℕ
  pub started : Bool

abbrev pub fresh : Dev
fresh = record { queues = none; rx_ready = []; tx_ready = []; started = false }

abbrev pub has : ℕ → List ℕ → Bool
has q [] = false
has q (x ∷ xs) = (q == x) || has q xs

-- all queues below a number
abbrev pub has_all : ℕ → List ℕ → Bool
has_all zero xs = true
has_all (suc n) xs = has n xs && has_all n xs

abbrev pub all_ready : Dev → Bool
all_ready d = elim d.queues [
  | none ↦ false
  | some n ↦ has_all n.0 d.rx_ready && has_all n.1 d.tx_ready
]

-- A port that packets can be received from and sent through.
abbrev pub is_ready : Dev → Bool
is_ready d = d.started && all_ready d

-- The order of the calls that rte_ethdev.h demands: a port is configured while it is stopped, then its
-- queues are set up, each below the number of them, and it is started when all of them are.
unfoldable pub allowed : Dev → Call → Bool
allowed d (dev_configure rx tx) = not d.started
allowed d (rx_queue_setup q n) = elim d.queues [
  | none ↦ false
  | some m ↦ ltb q m.0 && not d.started
]
allowed d (tx_queue_setup q n) = elim d.queues [
  | none ↦ false
  | some m ↦ ltb q m.1 && not d.started
]
allowed d dev_start = all_ready d && not d.started
allowed d is_valid_port = true
allowed d dev_info_get = true
allowed d promiscuous_enable = true

-- what a call changes that succeeds
unfoldable pub apply : Dev → Call → Dev
apply d (dev_configure rx tx) = record d { queues = some (rx, tx); rx_ready = []; tx_ready = [] }
apply d (rx_queue_setup q n) = record d { rx_ready = q ∷ d.rx_ready }
apply d (tx_queue_setup q n) = record d { tx_ready = q ∷ d.tx_ready }
apply d dev_start = record d { started = true }
apply d is_valid_port = d
apply d dev_info_get = d
apply d promiscuous_enable = d

-- How a set-up ends: it is done, it has left for the failure of a call (by `rte_exit`, or with an error that
-- makes its caller leave), or it makes a call that the documentation does not allow.
pub data Outcome {ℓ} (A : Type ℓ) : Type ℓ where
  finished : A → Outcome A
  stopped misused : Call → Outcome A

infixl 5 ◌>>=◌
abbrev pub ◌>>=◌ {ℓ κ} : {A : Type ℓ} {B : Type κ} → Outcome A → (A → Outcome B) → Outcome B
finished a >>= f = f a
stopped c >>= f = stopped c
misused c >>= f = misused c

-- A call, and whether the program looks at its result.
pub record Stmt : Type 0 where
  pub call : Call
  pub checked : Bool

abbrev pub must : Call → Stmt
must c = record { call = c; checked = true }

abbrev pub may : Call → Stmt
may c = record { call = c; checked = false }

-- The driver is the set of the calls that fail; no set-up makes a call twice.
abbrev pub Driver : Type 0
Driver = Call → Bool

unfoldable pub perform : Driver → Stmt → Dev → Outcome Dev
unfolding allowed apply
perform fails s d =
    if allowed d s.call
    then (if fails s.call
        then (if s.checked then stopped s.call else finished d)
        else finished (apply d s.call))
    else misused s.call

unfoldable pub run : Driver → List Stmt → Dev → Outcome Dev
unfolding perform
run fails [] d = finished d
run fails (s ∷ ss) d = do e ← perform fails s d; run fails ss e
