-- ===== src/Rcu.antt =====
-- rcu/sample/main.c: a writer replaces a structure five times and frees the old one each time, while a reader
-- reads it. A structure is known by the number of its allocation, which is also its value: the writer stores
-- `i + 1` in the one that it allocates in round `i`. The quiescent-state library is taken as
-- `rte_rcu_qsbr.h` documents it: `rte_rcu_qsbr_synchronize` returns when every reader is offline, or has
-- reported a quiescent state, or come online, since the call.
pub mod Safety
use dpdk_for_beginners.Base.{ℕ, zero, suc, ◌+◌, ◌<◌, ◌≡◌, Bool, true, false, List, [], ◌∷◌, ◌++◌}

-- `writer`: before round `i`; with the new structure in place; in `rte_rcu_qsbr_synchronize`; behind it. Then
-- `main`: waiting for the reader, and at the end.
pub data Writer : Type 0 where
  updating swapped synchronizing freeing : ℕ → Writer
  joining cleaned : Writer

-- `reader`: before it is online; at the head of its loop; with the pointer that it has loaded; behind the
-- unlock; offline at the end
pub data Reader : Type 0 where
  offline online : Reader
  reading : ℕ → Reader
  unlocked gone : Reader

pub record System : Type 0 where
  pub writer : Writer
  pub reader : Reader
  pub gdata : ℕ
  pub reported : Bool  -- whether the library has heard of the reader since the last call
  pub stop : Bool
  pub freed : List ℕ
  pub printed : List ℕ  -- by the reader, the last value in front

abbrev pub start : System
start = record {
  writer = updating 0;
  reader = offline;
  gdata = 0;
  reported = false;
  stop = false;
  freed = [];
  printed = [];
}

unfoldable pub exchange : System → ℕ → System
exchange s i = record s { writer = swapped i; gdata = i + 1 }

unfoldable pub call_synchronize : System → ℕ → System
call_synchronize s i = record s { writer = synchronizing i; reported = false }

-- The old structure is the one that round `i` has found.
unfoldable pub free_old : System → ℕ → System
free_old s i = record s { writer = updating (i + 1); freed = i ∷ s.freed }

unfoldable pub clean_up : System → System
clean_up s = record s { writer = cleaned; freed = s.gdata ∷ s.freed }

unfoldable pub print_value : System → ℕ → System
print_value s v = record s { reader = unlocked; printed = v ∷ s.printed }

-- A thread's next access to what the threads share.
pub data Step : System → System → Type 0 where
  writer_exchanges : (s : System) (i : ℕ) → s.writer ≡ updating i → i < 5 → Step s (exchange s i)
  writer_synchronizes : (s : System) (i : ℕ) → s.writer ≡ swapped i → Step s (call_synchronize s i)
  writer_returns :
      (s : System) (i : ℕ)
      → s.writer ≡ synchronizing i
      → s.reported ≡ true
      → Step s (record s { writer = freeing i })
  writer_returns_early :
      (s : System) (i : ℕ)
      → s.writer ≡ synchronizing i
      → s.reader ≡ offline
      → Step s (record s { writer = freeing i })
  writer_frees : (s : System) (i : ℕ) → s.writer ≡ freeing i → Step s (free_old s i)
  writer_stops :
      (s : System) → s.writer ≡ updating 5 → Step s (record s { writer = joining; stop = true })
  main_cleans_up : (s : System) → s.writer ≡ joining → s.reader ≡ gone → Step s (clean_up s)
  reader_comes_online :
      (s : System) → s.reader ≡ offline → Step s (record s { reader = online; reported = true })
  reader_loads : (s : System) → s.reader ≡ online → Step s (record s { reader = reading s.gdata })
  reader_prints : (s : System) (v : ℕ) → s.reader ≡ reading v → Step s (print_value s v)
  reader_reports :
      (s : System) → s.reader ≡ unlocked → Step s (record s { reader = online; reported = true })
  reader_leaves :
      (s : System) → s.reader ≡ online → s.stop ≡ true → Step s (record s { reader = gone })

pub data Reach : System → Type 0 where
  begin : Reach start
  next : {s t : System} → Reach s → Step s t → Reach t
