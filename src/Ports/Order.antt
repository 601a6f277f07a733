-- ===== src/Ports/Order.antt =====
-- When a set-up keeps to the order of rte_ethdev.h, whatever the driver answers: it is enough to look at
-- the run without failures.
use dpdk_for_beginners.Base.{
  ◌≡◌, ◌⊎◌, refl, Bool, true, false, List, [], ◌∷◌, ◌&&◌, ◌||◌, Bool-cases, inl, inr,
}
use dpdk_for_beginners.Ports.{
  Call, is_valid_port, dev_info_get, dev_start, promiscuous_enable, dev_configure, rx_queue_setup,
  tx_queue_setup, Dev, is_ready, allowed, apply, Outcome, finished, stopped, misused, Stmt, Driver,
  perform, run,
}

-- the calls whose result a program may pass over
abbrev pub is_optional : Call → Bool
is_optional dev_info_get = true
is_optional promiscuous_enable = true
is_optional is_valid_port = true
is_optional dev_start = false
is_optional (dev_configure rx tx) = false
is_optional (rx_queue_setup q n) = false
is_optional (tx_queue_setup q n) = false

abbrev pub is_orderly : List Stmt → Dev → Bool
is_orderly [] d = is_ready d
is_orderly (s ∷ ss) d =
    allowed d s.call && ((s.checked || is_optional s.call) && is_orderly ss (apply d s.call))

-- A set-up that is done has left the port ready, one that has left has done so for a call that failed, and
-- none makes a call that is not allowed.
abbrev pub IsSafe : Driver → Outcome Dev → Type 0
IsSafe fails (finished d) = is_ready d ≡ true
IsSafe fails (stopped c) = fails c ≡ true
IsSafe fails (misused c) = ⊥

pub &&-split : (a b : Bool) → (a && b) ≡ true → (a ≡ true) × (b ≡ true)
&&-split true true h = (refl, refl)
&&-split true false h = (refl, h)
&&-split false b h = absurd cc

apply-optional : (d : Dev) (c : Call) → is_optional c ≡ true → apply d c ≡ d
unfolding apply
apply-optional d dev_info_get h = refl
apply-optional d promiscuous_enable h = refl
apply-optional d is_valid_port h = refl
apply-optional d dev_start h = absurd cc
apply-optional d (dev_configure rx tx) h = absurd cc
apply-optional d (rx_queue_setup q n) h = absurd cc
apply-optional d (tx_queue_setup q n) h = absurd cc

||-split : (a b : Bool) → (a || b) ≡ true → a ≡ false → b ≡ true
||-split a b h e = rw e at h

perform-cases :
    (fails : Driver) (s : Stmt) (d : Dev)
    → allowed d s.call ≡ true
    → (s.checked || is_optional s.call) ≡ true
    → ((perform fails s d ≡ stopped s.call) × (fails s.call ≡ true))
      ⊎ (perform fails s d ≡ finished (apply d s.call))
unfolding perform
perform-cases fails s d a c = elim (Bool-cases (fails s.call)) [
  | inr works ↦ inr (rw (a, works) refl)
  | inl failed ↦ elim (Bool-cases s.checked) [
    | inl strict ↦ inl (rw (a, failed, strict) refl, failed)
    | inr lax ↦
        let same = apply-optional d s.call (||-split s.checked _ c lax) in
        inr (rw (a, failed, lax, same) refl)
  ]
]

pub run-IsSafe :
    (fails : Driver) (ss : List Stmt) (d : Dev)
    → is_orderly ss d ≡ true
    → IsSafe fails (run fails ss d)
unfolding run
run-IsSafe fails [] d h = h
run-IsSafe fails (s ∷ ss) d h =
    let (a, t) = &&-split (allowed d s.call) _ h in
    let (c, r) = &&-split (s.checked || is_optional s.call) _ t in
    elim (perform-cases fails s d a c) [
      | inl stop ↦ rw (stop.0) (stop.1)
      | inr go ↦ rw go (run-IsSafe fails ss (apply d s.call) r)
    ]

-- It is done if no call fails.
pub run-finished :
    (fails : Driver) (ss : List Stmt) (d : Dev)
    → is_orderly ss d ≡ true
    → ((c : Call) → fails c ≡ false)
    → (e : Dev) × (run fails ss d ≡ finished e)
unfolding run
run-finished fails [] d h works = (d, refl)
run-finished fails (s ∷ ss) d h works =
    let (a, t) = &&-split (allowed d s.call) _ h in
    let (c, r) = &&-split (s.checked || is_optional s.call) _ t in
    let (e, q) = run-finished fails ss (apply d s.call) r works in
    elim (perform-cases fails s d a c) [
      | inl stop ↦ absurd (cc (stop.1, works s.call))
      | inr go ↦ (e, rw go q)
    ]
