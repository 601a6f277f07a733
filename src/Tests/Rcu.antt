-- ===== src/Tests/Rcu.antt =====
-- A first round of rcu/sample/main.c, in which the reader still holds the old structure when the writer has
-- replaced it.
use dpdk_for_beginners.Base.{ℕ, ◌≡◌, ◌≢◌, refl, true, All, arith}
use dpdk_for_beginners.Rcu.{
  System, start, exchange, call_synchronize, cleaned, reading, online, writer_exchanges,
  writer_synchronizes, reader_comes_online, reader_loads, Reach, begin, next,
}
use dpdk_for_beginners.Rcu.Safety.{below, Rising, reader_safe}

abbrev holding : System
holding =
    exchange (record (record start { reader = online }) { reader = reading 0; reported = true }) 0

abbrev replaced : System
replaced = call_synchronize holding 0

holding-Reach : Reach replaced
unfolding exchange call_synchronize
holding-Reach =
    next
      (next (next (next begin (reader_comes_online start refl)) (reader_loads _ refl))
        (writer_exchanges _ 0 refl (omega arith)))
      (writer_synchronizes holding 0 refl)

reader_safe_example :
    ((v : ℕ) → replaced.reader ≡ reading v → All (λ f. f ≢ v) replaced.freed)
    × ((n : ℕ) × (replaced.freed ≡ below n))
    × (replaced.writer ≡ cleaned → replaced.freed ≡ below 6)
    × Rising replaced.gdata replaced.printed
reader_safe_example = reader_safe holding-Reach
