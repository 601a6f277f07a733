-- ===== src/PacketChange.antt =====
-- packet_change/main.c: a packet is made longer and shorter at both ends, and its sizes are printed.
pub mod Edit
use dpdk_for_beginners.Base.{ℕ, ◌-◌, Option, none, some, List, [], ◌∷◌, ◌++◌, length, take, drop}
use dpdk_for_beginners.Mbuf.{Segment, PktMbuf}

-- "DPDK-MBUF" with the zero at its end
abbrev pub msg : List ℕ
msg = 68 ∷ 80 ∷ 68 ∷ 75 ∷ 45 ∷ 77 ∷ 66 ∷ 85 ∷ 70 ∷ 0 ∷ []

-- what `memset` writes
abbrev pub hdr : List ℕ
hdr = 72 ∷ 72 ∷ 72 ∷ 72 ∷ 72 ∷ 72 ∷ 72 ∷ 72 ∷ 72 ∷ 72 ∷ []

-- the printed sizes: data_len, headroom and tailroom (pkt_len is data_len, and data_off the headroom)
abbrev pub Sizes : Type 0
Sizes = ℕ × ℕ × ℕ

abbrev pub sizes : Segment → Sizes
sizes m = (length m.bytes, length m.headroom, length m.tailroom)

-- `memcpy(data, msg, len)`, where `data` points to the last `len` bytes
abbrev pub copy_to_end : List ℕ → Segment → Segment
copy_to_end xs m = record m { bytes = take (length m.bytes - length xs) m.bytes ++ xs }

-- `memset` at the start of the packet
abbrev pub copy_to_start : List ℕ → Segment → Segment
copy_to_start xs m = record m { bytes = xs ++ drop (length xs) m.bytes }

module _ (M : PktMbuf) where
  open M use {append, prepend, adj, trim}

  -- `if (hdr) memset(...)`
  unfoldable pub add_header : Segment → Segment
  add_header m = elim (prepend 10 m) [ some p ↦ copy_to_start hdr p | none ↦ m ]

  -- `operations`: the packet and what is printed; `none` is `rte_exit`
  unfoldable pub operations : Segment → Option (Segment × List Sizes)
  unfolding add_header
  operations m = elim (append (length msg) m) [
    | none ↦ none
    | some extended ↦
        let appended = copy_to_end msg extended in
        let prepended = add_header appended in
        let adjusted = adj 5 prepended in
        let trimmed = trim 4 adjusted in
        some (
          trimmed,
          sizes m ∷ sizes appended ∷ sizes prepended ∷ sizes adjusted ∷ sizes trimmed ∷ [],
        )
  ]

  -- mempool_membuff/append_prependops.c, on the packet without data that `rte_pktmbuf_alloc` gives
  unfoldable pub append_prependops : Segment → Option (Segment × List Sizes)
  unfolding operations
  append_prependops m = operations (record m { bytes = [] })
