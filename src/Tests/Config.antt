-- ===== src/Tests/Config.antt =====
-- Runs of the readers of configuration of nat_project.
use dpdk_for_beginners.Base.{
  ℕ, ◌≡◌, All, inl, inr, arith, refl, true, Option, none, some, List, [], ◌∷◌, ℕ_discrete,
}
use dpdk_for_beginners.Dpdk.{HashTable}
use dpdk_for_beginners.Dpdk.Sample.{assoc, little_endian, plain_sums}
use dpdk_for_beginners.NatPool.State.{InboundEntry, Pool}
use dpdk_for_beginners.NatPool.Start.{
  max_inbound_entries, asked, start_pool, choose_pool, with_inbound,
}
use dpdk_for_beginners.NatPool.Start.Ready.{all_resources, PublicIn, Starts, start_pool_lem}
use dpdk_for_beginners.Lease.Start.{choose_lease, Opens, choose_lease_lem}
use dpdk_for_beginners.Config.{
  Text, read_line, is_skipped, first_valid, nat_load_from_file, create_from, nat_add_mapping,
}
use dpdk_for_beginners.Config.Lines.{LineOk}
use dpdk_for_beginners.Config.Manual.{same_text, enter_mappings, finished, typed}
use dpdk_for_beginners.Tests.Data.{
  assoc-HasEntries, two_texts, address, lines, static_table, loaded_table,
}

abbrev table : HashTable ℕ ℕ
table = assoc ℕ_discrete

abbrev inbound_table : HashTable ℕ InboundEntry
inbound_table = assoc ℕ_discrete

abbrev text_and_range : Text → Option (Text × ℕ)
text_and_range (a ∷ b ∷ []) = some (a ∷ [], b)
text_and_range _ = none

abbrev pool_file : List Text
pool_file = (35 ∷ []) ∷ (7 ∷ []) ∷ (0 ∷ 1 ∷ []) ∷ (5 ∷ 9 ∷ []) ∷ []

abbrev by_default : Option (Pool table inbound_table)
by_default =
    start_pool table inbound_table little_endian address 0 text_and_range two_texts
      (all_resources table inbound_table little_endian address 0 plain_sums text_and_range two_texts
        [] [])
      0 none (some lines) 10

lines_ok :
    All
      (λ l.
        LineOk
          (PublicIn table inbound_table little_endian address 0 plain_sums text_and_range two_texts
            [] []
            (assoc-HasEntries ℕ_discrete max_inbound_entries)
            (100 ∷ 200 ∷ [])
            (omega arith))
          l.0
          (read_line two_texts l.1))
      lines
unfolding is_skipped
lines_ok = (tt, (inl refl, (tt, (inr (inl refl), (inl refl, tt)))))

start_pool_lem_example :
    Starts table inbound_table little_endian address 0 plain_sums text_and_range two_texts
      (asked text_and_range 0 none)
      10
      by_default
start_pool_lem_example =
    start_pool_lem table inbound_table little_endian address 0 plain_sums text_and_range two_texts
      [] [] (assoc-HasEntries ℕ_discrete max_inbound_entries) (100 ∷ 200 ∷ []) (omega arith) 0 10
      none lines (λ k. refl) (λ k. refl) lines_ok

-- a file without a valid line
no_pool :
    start_pool table inbound_table little_endian address 0 text_and_range two_texts
      (all_resources table inbound_table little_endian address 0 plain_sums text_and_range two_texts
        [] [])
      1
      (some ((35 ∷ []) ∷ []))
      (some lines)
      10
    ≡ none
unfolding start_pool choose_pool with_inbound nat_load_from_file first_valid create_from is_skipped
no_pool = refl

abbrev text_address : Text → ℕ
text_address text = address text 0

choose_lease_lem_example :
    Opens table little_endian text_address plain_sums inbound_table [] []
      (λ k. refl)
      (λ k. refl)
      (asked text_and_range 2 (some pool_file))
      (choose_lease table little_endian text_address true true
        (some [])
        text_and_range
        10
        2
        (some pool_file))
choose_lease_lem_example =
    choose_lease_lem table little_endian text_address plain_sums inbound_table [] [] (λ k. refl)
      (λ k. refl) text_and_range 2 10 (some pool_file)

-- the mappings of `lines`, entered by hand
entered :
    enter_mappings address static_table (typed address static_table two_texts lines) []
    ≡ finished loaded_table
unfolding enter_mappings same_text nat_add_mapping is_skipped
entered = refl
