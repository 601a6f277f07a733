-- ===== src/Napt/Drops.antt =====
-- Which packets nat_project/version6 drops, and that its main loop loses none.
use dpdk_for_beginners.Base.{
  ℕ, ◌+◌, ◌≡◌, ◌≢◌, refl, ap, inl, inr, Option, none, some, List, [], ◌∷◌, length, length-append,
  take, drop as list_drop, take-append-drop, arith, ◌==◌, ◌||◌, ==_iff, ==_ne, Bool-cases, ◌⊎◌, ◌↔◌,
  true, ℕ_discrete,
}
use dpdk_for_beginners.Dpdk.{HashTable, ByteOrder}
use dpdk_for_beginners.Packet.{Packet, Checksums, ether_type_ipv4, ipproto_tcp, ipproto_udp}
use dpdk_for_beginners.Napt.State.{NatKey, NatEntry, Nat}
use dpdk_for_beginners.Napt.Process.{
  Verdict, drop, forward, fault, parse, found, inbound, outbound_new, outbound, process,
  nat_process_packet,
}
use dpdk_for_beginners.Napt.Main.{Arrival, Burst, sort_out, process_all, round}

module _ (H : HashTable NatKey ℕ) (B : ByteOrder) (C : Checksums) (hz : ℕ) where
  -- TCP or UDP over IPv4
  abbrev pub HasPorts : Packet → Type 0
  HasPorts m =
      (m.ether_type ≡ B.be16 ether_type_ipv4)
      × ((m.next_proto_id ≡ ipproto_tcp) ⊎ (m.next_proto_id ≡ ipproto_udp))

  abbrev pub flow_of : Packet → NatKey
  flow_of m = record {
    src_ip = m.src_addr;
    dst_ip = m.dst_addr;
    src_port = m.src_port;
    dst_port = m.dst_port;
    proto = m.next_proto_id;
  }

  parse_ports : (m : Packet) → HasPorts m → parse B m ≡ some (flow_of m)
  unfolding parse
  parse_ports m (ip, p) =
      let y : (m.next_proto_id == ipproto_tcp || m.next_proto_id == ipproto_udp) ≡ true =
        ground arith in
      rw ((==_iff _ _).1 ip, y) refl

  parse_other : (m : Packet) → (HasPorts m → ⊥) → parse B m ≡ none
  unfolding parse
  parse_other m other = elim (Bool-cases (m.ether_type == B.be16 ether_type_ipv4)) [
    | inr n ↦ rw n refl
    | inl y ↦ elim (Bool-cases (m.next_proto_id == ipproto_tcp || m.next_proto_id == ipproto_udp)) [
      | inr n ↦ rw (y, n) refl
      | inl p ↦
          let ports : (m.next_proto_id ≡ ipproto_tcp) ⊎ (m.next_proto_id ≡ ipproto_udp) =
            ground arith in
          absurd (other ((==_iff _ _).0 y, ports))
    ]
  ]

  HasPorts-cases : (m : Packet) → HasPorts m ⊎ (HasPorts m → ⊥)
  HasPorts-cases m = elim (ℕ_discrete m.ether_type (B.be16 ether_type_ipv4)) [
    | no n ↦ inr (λ h. n h.0)
    | yes e ↦ elim (ℕ_discrete m.next_proto_id ipproto_tcp) [
      | yes t ↦ inl (e, inl t)
      | no n ↦ elim (ℕ_discrete m.next_proto_id ipproto_udp) [
        | yes u ↦ inl (e, inr u)
        | no o ↦ inr (λ h. neither n o h.1)
      ]
    ]
  ]
    where
      neither :
          m.next_proto_id ≢ ipproto_tcp
          → m.next_proto_id ≢ ipproto_udp
          → (m.next_proto_id ≡ ipproto_tcp) ⊎ (m.next_proto_id ≡ ipproto_udp)
          → ⊥
      neither n o (inl t) = n t
      neither n o (inr u) = o u

  -- Why a packet is dropped: it is no TCP or UDP over IPv4, it comes to the public address with no
  -- entry for it, or it would open a flow and there is no memory.
  pub data Dropped (malloc : Option ℕ) (m : Packet) (n : Nat H) : Type 0 where
    other : (HasPorts m → ⊥) → Dropped malloc m n
    unsolicited :
        HasPorts m
        → m.dst_addr ≡ n.public_ip
        → H.lookup n.rev_hash (flow_of m) ≡ none
        → Dropped malloc m n
    no_memory :
        HasPorts m
        → m.dst_addr ≢ n.public_ip
        → H.lookup n.fwd_hash (flow_of m) ≡ none
        → malloc ≡ none
        → Dropped malloc m n

  module _ (now : ℕ) where
    found_keeps :
        (f : Packet → NatEntry → Packet) (a : ℕ) (o : Option NatEntry) (m : Packet) (n : Nat H)
        → (found H B C hz now f a o m n).1 ≢ drop
    unfolding found
    found_keeps f a none m n e = cc
    found_keeps f a (some x) m n e = cc

    inbound_drops :
        (o : Option ℕ) (m : Packet) (n : Nat H)
        → (inbound H B C hz now o m n).1 ≡ drop
        → (o ≡ none) × ((inbound H B C hz now o m n).0 ≡ n)
    unfolding inbound
    inbound_drops none m n e = (refl, refl)
    inbound_drops (some a) m n e = absurd (found_keeps _ a (n.heap a) m n e)

    outbound_drops :
        (malloc o : Option ℕ) (k : NatKey) (m : Packet) (n : Nat H)
        → (outbound H B C hz now malloc o k m n).1 ≡ drop
        → (o ≡ none) × (malloc ≡ none) × ((outbound H B C hz now malloc o k m n).0 ≡ n)
    unfolding outbound outbound_new
    outbound_drops none none k m n e = (refl, refl, refl)
    outbound_drops (some a) none k m n e = cc
    outbound_drops malloc (some a) k m n e = absurd (found_keeps _ a (n.heap a) m n e)

    process_drops :
        (malloc : Option ℕ) (m : Packet) (n : Nat H)
        → HasPorts m
        → (process H B C hz now malloc (some (flow_of m)) m n).1 ≡ drop
        → Dropped malloc m n × ((process H B C hz now malloc (some (flow_of m)) m n).0 ≡ n)
    unfolding process
    process_drops malloc m n p e = elim (Bool-cases (m.dst_addr == n.public_ip)) [
      | inl own ↦
          let d = inbound_drops (H.lookup n.rev_hash (flow_of m)) m n (rw own at e) in
          (unsolicited p ((==_iff _ _).0 own) d.0, rw own d.1)
      | inr far ↦
          let d =
            outbound_drops malloc (H.lookup n.fwd_hash (flow_of m)) (flow_of m) m n (rw far at e) in
          (no_memory p (λ q. cc ((==_iff _ _).1 q)) d.0 d.1, rw far d.2)
    ]

    -- A packet is dropped exactly for one of three reasons: it is not TCP or UDP over IPv4; it comes to the
    -- public address, and there is no entry for its flow; or it goes elsewhere, there is no entry for its flow,
    -- and no memory for one. A dropped packet leaves the state as it was.
    pub nat_process_packet-drops :
        (malloc : Option ℕ) (m : Packet) (n : Nat H)
        → let r = nat_process_packet H B C hz now malloc m n in
          (r.1 ≡ drop) ↔ (Dropped malloc m n × (r.0 ≡ n))
    unfolding nat_process_packet process inbound outbound outbound_new
    nat_process_packet-drops malloc m n = (forth, λ d. back d.0)
      where
        forth :
            (nat_process_packet H B C hz now malloc m n).1 ≡ drop
            → Dropped malloc m n × ((nat_process_packet H B C hz now malloc m n).0 ≡ n)
        forth e = elim (HasPorts-cases m) [
          | inl p ↦ rw (parse_ports m p) (process_drops malloc m n p (rw (parse_ports m p) at e))
          | inr o ↦ (other o, rw (parse_other m o) refl)
        ]

        back : Dropped malloc m n → (nat_process_packet H B C hz now malloc m n).1 ≡ drop
        back (other o) = rw (parse_other m o) refl
        back (unsolicited p own missing) = rw (parse_ports m p, (==_iff _ _).1 own, missing) refl
        back (no_memory p far missing none_left) =
            rw (parse_ports m p, ==_ne _ _ far, missing, none_left) refl

  sort_out-length :
      (v : Verdict) (m : Packet) (b : Burst)
      → length (sort_out v m b).kept + length (sort_out v m b).freed
        ≡ length b.kept + length b.freed + 1
  unfolding sort_out
  sort_out-length drop m b = omega arith
  sort_out-length (forward x) m b = omega arith
  sort_out-length fault m b = omega arith

  process_all-length :
      (rs : List Arrival) (n : Nat H)
      → let b = (process_all H B C hz rs n).1 in length b.kept + length b.freed ≡ length rs
  unfolding process_all
  process_all-length [] n = refl
  process_all-length (r ∷ rs) n = omega (
    arith,
    process_all-length rs _,
    sort_out-length (nat_process_packet H B C hz r.now r.malloc r.mbuf n).1 r.mbuf
        (process_all H B C hz rs (nat_process_packet H B C hz r.now r.malloc r.mbuf n).0).1,
  )

  -- Of the packets of a burst each is sent or freed, and none is both, however many the port takes.
  pub round-length :
      (sent : ℕ) (fired : List ℕ) (rs : List Arrival) (n : Nat H)
      → let r = round H B C hz sent fired rs n in length r.1 + length r.2 ≡ length rs
  unfolding round
  round-length sent fired rs n =
      let b = (process_all H B C hz rs n).1 in
      omega (
        arith,
        process_all-length rs n,
        length-append b.freed (list_drop sent b.kept),
        length-append (take sent b.kept) (list_drop sent b.kept),
        ap length (take-append-drop sent b.kept),
      )
