-- ===== src/Telemetry/Counters.antt =====
-- What the counters of telementry/advanced_stats/main.c have to do with each other.
use dpdk_for_beginners.Base.{
  ℕ, zero, suc, ◌+◌, ◌-◌, ◌%◌, ◌^◌, ◌≤◌, ◌<◌, ◌≡◌, refl, List, [], ◌∷◌, ◌++◌, map, All, arith,
}
use dpdk_for_beginners.Telemetry.{
  Phase, counting, adding, storing, Core, Stats, count_loop, load_total, store_total, Step, counts,
  loads, stores, idle, Reach, launched, next, adv_summary_handler, adv_lcore_stats_handler,
}

abbrev pub sum : List ℕ → ℕ
sum [] = 0
sum (x ∷ xs) = x + sum xs

-- the loops that a worker has put into the shared counter
abbrev added_in : ℕ → Phase → ℕ
added_in n counting = n
added_in n adding = n - 1
added_in n (storing v) = n - 1

abbrev added : Core → ℕ
added c = added_in c.loops c.phase

abbrev all_added : List Core → ℕ
all_added [] = 0
all_added (c ∷ cs) = added c + all_added cs

-- A worker that has counted a loop has one to add; what it has loaded is not more than what has been added.
abbrev IsSoundIn : ℕ → ℕ → ℕ → Phase → Type 0
IsSoundIn k total n counting = (n ≤ k) × Unit
IsSoundIn k total n adding = (n ≤ k) × (1 ≤ n)
IsSoundIn k total n (storing v) = (n ≤ k) × ((1 ≤ n) × (v ≤ total))

abbrev IsSound : ℕ → ℕ → Core → Type 0
IsSound k total c = IsSoundIn k total c.loops c.phase

all_added-append : (xs ys : List Core) → all_added (xs ++ ys) ≡ all_added xs + all_added ys
all_added-append [] ys = omega arith
all_added-append (c ∷ xs) ys = omega (arith, all_added-append xs ys)

abbrev Inv : ℕ → Stats → Type 0
Inv k s =
    (s.total ≤ all_added s.cores)
    × (all_added s.cores ≤ k)
    × All (IsSound k (all_added s.cores)) s.cores

IsSound-mono : (j k a b n : ℕ) (p : Phase) → j ≤ k → a ≤ b → IsSoundIn j a n p → IsSoundIn k b n p
IsSound-mono j k a b n counting h g s = (omega arith, tt)
IsSound-mono j k a b n adding h g s = (omega arith, s.1)
IsSound-mono j k a b n (storing v) h g s = (omega arith, (s.1.0, omega arith))

All-mono :
    (j k a b : ℕ) (cs : List Core) → j ≤ k → a ≤ b → All (IsSound j a) cs → All (IsSound k b) cs
All-mono j k a b [] h g all = tt
All-mono j k a b (c ∷ cs) h g all =
    (IsSound-mono j k a b c.loops c.phase h g all.0, All-mono j k a b cs h g all.1)

-- One worker gets further, and the others are as they were.
All-replace :
    (j k a b : ℕ) (c d : Core) (pre post : List Core)
    → j ≤ k
    → a ≤ b
    → IsSound k b d
    → All (IsSound j a) (pre ++ (c ∷ post))
    → All (IsSound k b) (pre ++ (d ∷ post))
All-replace j k a b c d [] post h g s all = (s, All-mono j k a b post h g all.1)
All-replace j k a b c d (x ∷ pre) post h g s all =
    (IsSound-mono j k a b x.loops x.phase h g all.0, All-replace j k a b c d pre post h g s all.1)

at : (P : Core → Type 0) (c : Core) (pre post : List Core) → All P (pre ++ (c ∷ post)) → P c
at P c [] post all = all.0
at P c (x ∷ pre) post all = at P c pre post all.1

replace-Inv :
    (k t u : ℕ) (c d : Core) (pre post : List Core)
    → Inv k (record { total = t; cores = pre ++ (c ∷ post) })
    → added c ≤ added d
    → added d ≤ suc (added c)
    → u ≤ all_added (pre ++ (d ∷ post))
    → IsSound (suc k) (all_added (pre ++ (d ∷ post))) d
    → Inv (suc k) (record { total = u; cores = pre ++ (d ∷ post) })
replace-Inv k t u c d pre post (a, b, all) low high le s =
    let x = all_added-append pre (c ∷ post) in
    let y = all_added-append pre (d ∷ post) in
    (
      le,
      omega (arith, x, y, b),
      All-replace k (suc k) _ _ c d pre post (omega arith) (omega (arith, x, y)) s all,
    )

Step-Inv : (k : ℕ) {s t : Stats} → Step s t → suc k < 2 ^ 64 → Inv k s → Inv (suc k) t
unfolding count_loop load_total store_total
Step-Inv k (counts t n pre post) small v =
    let c : Core = record { loops = n; phase = counting } in
    let d : Core = record { loops = (n + 1) % 2 ^ 64; phase = adding } in
    let here = at _ c pre post v.2 in
    let same : (n + 1) % 2 ^ 64 ≡ suc n = omega (arith, here.0) in
    let x = all_added-append pre (c ∷ post) in
    let y = all_added-append pre (d ∷ post) in
    replace-Inv k t t c d pre post v (omega (arith, same)) (omega (arith, same))
      (omega (arith, v.0, x, y, same)) (omega (arith, same, here.0), omega (arith, same))
Step-Inv k (loads t n pre post) small v =
    let c : Core = record { loops = n; phase = adding } in
    let d : Core = record { loops = n; phase = storing t } in
    let here = at _ c pre post v.2 in
    let x = all_added-append pre (c ∷ post) in
    let y = all_added-append pre (d ∷ post) in
    replace-Inv k t t c d pre post v (omega arith) (omega arith) (omega (arith, v.0, x, y))
      (omega (arith, here.0), (here.1, omega (arith, v.0, x, y)))
Step-Inv k (stores t n w pre post) small v =
    let c : Core = record { loops = n; phase = storing w } in
    let d : Core = record { loops = n; phase = counting } in
    let here = at _ c pre post v.2 in
    let x = all_added-append pre (c ∷ post) in
    let y = all_added-append pre (d ∷ post) in
    let no_wrap : (w + 1) % 2 ^ 64 ≡ suc w = omega (arith, here.1.1, v.1) in
    replace-Inv k t _ c d pre post v (omega arith) (omega arith)
      (omega (arith, no_wrap, here.1.0, here.1.1, x, y)) (omega (arith, here.0), tt)

idle-Inv : (n : ℕ) → (all_added (idle n) ≡ 0) × All (IsSound 0 0) (idle n)
idle-Inv zero = (refl, tt)
idle-Inv (suc n) = let (a, b) = idle-Inv n in (omega (arith, a), ((omega arith, tt), b))

Reach-Inv : (n k : ℕ) {s : Stats} → k < 2 ^ 64 → Reach n k s → Inv k s
Reach-Inv n zero small launched =
    let (a, b) = idle-Inv n in (omega (arith, a), omega (arith, a), rw a b)
Reach-Inv n (suc k) small (next r s) = Step-Inv k s small (Reach-Inv n k (omega arith) r)

added_in-le : (n : ℕ) (p : Phase) → added_in n p ≤ n
added_in-le n counting = omega arith
added_in-le n adding = omega arith
added_in-le n (storing v) = omega arith

added-le : (cs : List Core) → all_added cs ≤ sum (map (λ c. c.loops) cs)
added-le [] = omega arith
added-le (c ∷ cs) = omega (arith, added_in-le c.loops c.phase, added-le cs)

-- After fewer than 2 ^ 64 steps of any number of workers, in any order, the total that is reported is at most
-- the sum of the loops that are reported for the cores.
pub summary-le :
    (n k : ℕ) {s : Stats} (start now hz : ℕ)
    → k < 2 ^ 64
    → Reach n k s
    → (adv_summary_handler start now hz s).2 ≤ sum (adv_lcore_stats_handler s)
unfolding adv_summary_handler adv_lcore_stats_handler
summary-le n k {s} start now hz small r =
    let v = Reach-Inv n k small r in omega (arith, v.0, added-le s.cores)
