-- ===== src/Telemetry.antt =====
-- telementry/advanced_stats/main.c: workers that count their loops, each in a counter of its own and all in
-- one that they share, and what the two handlers report.
pub mod Counters
use dpdk_for_beginners.Base.{
  ℕ, zero, suc, ◌+◌, ◌-◌, ◌/◌, ◌%◌, ◌^◌, List, [], ◌∷◌, ◌++◌, map, length, ◌==◌, if◌then◌else◌,
}

-- Where a worker is in its loop: `g_total_loops++` is a load and a store.
pub data Phase : Type 0 where
  counting adding : Phase
  storing : ℕ → Phase

-- a worker, with its entry of `g_lcore_stats`
pub record Core : Type 0 where
  pub loops : ℕ
  pub phase : Phase

pub record Stats : Type 0 where
  pub total : ℕ  -- g_total_loops
  pub cores : List Core

unfoldable pub count_loop : Core → Core
count_loop c = record { loops = (c.loops + 1) % 2 ^ 64; phase = adding }

unfoldable pub load_total : ℕ → Core → Core
load_total total c = record c { phase = storing total }

unfoldable pub store_total : ℕ → ℕ
store_total v = (v + 1) % 2 ^ 64

-- A worker makes a step; the others, before and behind it, stay where they are.
pub data Step : Stats → Stats → Type 0 where
  counts :
      (t n : ℕ) (pre post : List Core)
      → Step
          (record { total = t; cores = pre ++ (record { loops = n; phase = counting } ∷ post) })
          (record {
            total = t;
            cores = pre ++ (count_loop (record { loops = n; phase = counting }) ∷ post);
          })
  loads :
      (t n : ℕ) (pre post : List Core)
      → Step
          (record { total = t; cores = pre ++ (record { loops = n; phase = adding } ∷ post) })
          (record {
            total = t;
            cores = pre ++ (load_total t (record { loops = n; phase = adding }) ∷ post);
          })
  stores :
      (t n v : ℕ) (pre post : List Core)
      → Step
          (record { total = t; cores = pre ++ (record { loops = n; phase = storing v } ∷ post) })
          (record {
            total = store_total v;
            cores = pre ++ (record { loops = n; phase = counting } ∷ post);
          })

abbrev pub idle : ℕ → List Core
idle zero = []
idle (suc n) = record { loops = 0; phase = counting } ∷ idle n

-- what a number of steps leads to, with `n` workers
pub data Reach (n : ℕ) : ℕ → Stats → Type 0 where
  launched : Reach n 0 (record { total = 0; cores = idle n })
  next : {k : ℕ} {s t : Stats} → Reach n k s → Step s t → Reach n (suc k) t

-- `adv_summary_handler`: the uptime in seconds, the number of cores with the main core, and `g_total_loops`
unfoldable pub adv_summary_handler : ℕ → ℕ → ℕ → Stats → ℕ × ℕ × ℕ
adv_summary_handler start now hz s =
    (if hz == 0 then 0 else (now + (2 ^ 64 - start)) % 2 ^ 64 / hz, suc (length s.cores), s.total)

-- `adv_lcore_stats_handler`: the counters of all cores; that of the main core stays 0
unfoldable pub adv_lcore_stats_handler : Stats → List ℕ
adv_lcore_stats_handler s = 0 ∷ map (λ c. c.loops) s.cores
