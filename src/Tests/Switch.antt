-- ===== src/Tests/Switch.antt =====
-- The packets of l2_forwarding/main.c.
use dpdk_for_beginners.Base.{
  ℕ, ◌+◌, ◌≡◌, refl, inl, inr, none, some, List, [], ◌∷◌, ◌==◌, count, ltb, if◌then◌else◌, ite,
  ℕ_discrete, arith,
}
use dpdk_for_beginners.Dpdk.Sample.{assoc}
use dpdk_for_beginners.Switch.{
  Packet, max_ports, hash_entries, forward, flood, process_packet, process_all,
}
use dpdk_for_beginners.Tests.Data.{assoc-HasEntries}
use dpdk_for_beginners.Switch.Learning.{last_port, process_packet-last_port}

-- the address AA:BB:CC:DD:EE:01 with another last byte
abbrev mac : ℕ → ℕ
mac i = 0xAABBCCDDEE00 + i

abbrev first : Packet
first = record { src = mac 1; dst = mac 3; in_port = 0 }

abbrev back : Packet
back = record { src = mac 3; dst = mac 1; in_port = 2 }

process_packet-last_port_example :
    let seen =
      ite
        (ℕ_discrete back.src back.dst)
        (some back.in_port)
        (last_port none (first ∷ []) back.dst) in
    let out =
      (process_packet (assoc ℕ_discrete) (process_all (assoc ℕ_discrete) [] (first ∷ [])) back).1 in
    ((q : ℕ) → seen ≡ some q → out ≡ forward q)
    × (seen ≡ none
        → (ports : List ℕ) × (out ≡ flood ports)
          × ((q : ℕ)
              → count (λ x. x == q) ports
                ≡ (if q == back.in_port then 0 else if ltb q max_ports then 1 else 0)))
process_packet-last_port_example =
    process_packet-last_port (assoc ℕ_discrete) (assoc-HasEntries ℕ_discrete hash_entries)
      (mac 1 ∷ mac 3 ∷ []) (omega arith) (first ∷ []) back [] (inr (inl refl), (inl refl, tt))
      (λ a. refl) (omega arith, (omega arith, tt))
