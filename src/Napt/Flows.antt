-- ===== src/Napt/Flows.antt =====
-- What nat_project/version6/static_nat.c does to the packets of a flow.
use dpdk_for_beginners.Base.{
  ℕ, ◌≡◌, ◌≢◌, sym, ◌∙◌, ap, Option, none, some, arith, some-inj, ==_iff, ==_ne,
}
use dpdk_for_beginners.Dpdk.{HashTable, ByteOrder}
use dpdk_for_beginners.Dpdk.Table.{lookup-add_quietly}
use dpdk_for_beginners.Packet.{Packet, Checksums}
use dpdk_for_beginners.Napt.State.{
  NatKey, NatKey-discrete, NatEntry, Nat, refresh, new_entry, next_port, create_entry,
}
use dpdk_for_beginners.Napt.Process.{
  Verdict, forward, parse, rewrite_out, rewrite_in, found, inbound, outbound_new, outbound, process,
  nat_process_packet,
}
use dpdk_for_beginners.Napt.Memory.{update_self}

-- the flow seen from its other end
abbrev pub mirror : NatKey → NatKey
mirror k = record {
  src_ip = k.dst_ip;
  dst_ip = k.src_ip;
  src_port = k.dst_port;
  dst_port = k.src_port;
  proto = k.proto;
}

forward-inj : {p q : Packet} → forward p ≡ forward q → p ≡ q
forward-inj e = cc

module _ (B : ByteOrder) (C : Checksums) where
  -- `parse` reads a rewritten packet as the flow with the new private or public end.
  pub parse-rewrite_out :
      (m : Packet) (e : NatEntry) (k : NatKey)
      → parse B m ≡ some k
      → parse B (rewrite_out C m e)
        ≡ some (record k { src_ip = e.public_ip; src_port = e.public_port })
  unfolding parse rewrite_out
  parse-rewrite_out m e k h = ground arith

  pub parse-rewrite_in :
      (m : Packet) (e : NatEntry) (k : NatKey)
      → parse B m ≡ some k
      → parse B (rewrite_in C m e)
        ≡ some (record k { dst_ip = e.private_ip; dst_port = e.private_port })
  unfolding parse rewrite_in
  parse-rewrite_in m e k h = ground arith

module _ (H : HashTable NatKey ℕ) (B : ByteOrder) (C : Checksums) (hz : ℕ) where
  process_new :
      (now a : ℕ) (m : Packet) (n : Nat H) (flow : NatKey)
      → parse B m ≡ some flow
      → flow.dst_ip ≢ n.public_ip
      → H.lookup n.fwd_hash flow ≡ none
      → nat_process_packet H B C hz now (some a) m n ≡ (
        create_entry H B hz now a flow n,
        forward
            (rewrite_out C m (new_entry H B hz now n.public_ip (next_port n.current_port) flow)),
      )
  unfolding nat_process_packet process outbound outbound_new
  process_new now a m n flow p out new = rw (p, ==_ne flow.dst_ip n.public_ip out, new)

  process_reply :
      (now a : ℕ) (malloc : Option ℕ) (m : Packet) (n : Nat H) (flow : NatKey) (e : NatEntry)
      → parse B m ≡ some flow
      → flow.dst_ip ≡ n.public_ip
      → H.lookup n.rev_hash flow ≡ some a
      → n.heap a ≡ some e
      → nat_process_packet H B C hz now malloc m n
        ≡ (refresh H hz now a e n, forward (rewrite_in C m e))
  unfolding nat_process_packet process inbound found
  process_reply now a malloc m n flow e p own hit at = rw (p, (==_iff _ _).1 own, hit, at)

  process_again :
      (now a : ℕ) (malloc : Option ℕ) (m : Packet) (n : Nat H) (flow : NatKey) (e : NatEntry)
      → parse B m ≡ some flow
      → flow.dst_ip ≢ n.public_ip
      → H.lookup n.fwd_hash flow ≡ some a
      → n.heap a ≡ some e
      → nat_process_packet H B C hz now malloc m n
        ≡ (refresh H hz now a e n, forward (rewrite_out C m e))
  unfolding nat_process_packet process outbound found
  process_again now a malloc m n flow e p far hit at =
      rw (p, ==_ne flow.dst_ip n.public_ip far, hit, at)

  out_key :
      (now a : ℕ) (m out : Packet) (n : Nat H) (flow k : NatKey)
      → parse B m ≡ some flow
      → flow.dst_ip ≢ n.public_ip
      → H.lookup n.fwd_hash flow ≡ none
      → (nat_process_packet H B C hz now (some a) m n).1 ≡ forward out
      → parse B out ≡ some k
      → let e = new_entry H B hz now n.public_ip (next_port n.current_port) flow in
        k ≡ record flow { src_ip = e.public_ip; src_port = e.public_port }
  out_key now a m out n flow k p far new sent pk = some-inj (
      sym pk
      ∙ ap (parse B) (
          forward-inj
            (sym sent ∙ ap (λ (x : Nat H × Verdict). x.1) (process_new now a m n flow p far new)))
      ∙ parse-rewrite_out B C m _ flow p)

  -- A packet of a new flow leaves with the public address and the next port, and the answer to what
  -- left, its ends exchanged, comes back to the host as the answer to what the host had sent, if the
  -- reverse table took the new key. Between the two nothing else is processed.
  pub reply_returns :
      (now later a : ℕ) (malloc : Option ℕ) (m reply out : Packet) (n : Nat H) (flow k : NatKey)
      → parse B m ≡ some flow
      → flow.dst_ip ≢ n.public_ip
      → H.lookup n.fwd_hash flow ≡ none
      → ((j : NatKey) → H.add n.rev_hash j a ≢ none)
      → (nat_process_packet H B C hz now (some a) m n).1 ≡ forward out
      → parse B out ≡ some k
      → parse B reply ≡ some (mirror k)
      → (r : Packet) × ((nat_process_packet H B C hz later malloc reply
            (nat_process_packet H B C hz now (some a) m n).0).1
          ≡ forward r)
        × (parse B r ≡ some (mirror flow))
        × (k.src_ip ≡ n.public_ip)
        × (k.src_port ≡ B.be16 (next_port n.current_port))
  unfolding create_entry new_entry
  reply_returns now later a malloc m reply out n flow k p far new room sent pk pr = (
    rewrite_in C reply e,
    (rw step (
        ap (λ (x : Nat H × Verdict). x.1)
          (process_reply later a malloc reply (create_entry H B hz now a flow n) (mirror k) e pr
            (ap (λ (x : NatKey). x.src_ip) key)
            (rw key (lookup-add_quietly H NatKey-discrete n.rev_hash e.rev_key a (room e.rev_key)))
            (update_self n.heap a (some e))))),
    (parse-rewrite_in B C reply e (mirror k) pr ∙ rw key),
    ap (λ (x : NatKey). x.src_ip) key,
    ap (λ (x : NatKey). x.src_port) key,
  )
    where
      e : NatEntry
      e = new_entry H B hz now n.public_ip (next_port n.current_port) flow

      step :
          nat_process_packet H B C hz now (some a) m n
          ≡ (create_entry H B hz now a flow n, forward (rewrite_out C m e))
      step = process_new now a m n flow p far new

      key : k ≡ record flow { src_ip = e.public_ip; src_port = e.public_port }
      key = out_key now a m out n flow k p far new sent pk

  -- A flow keeps its port: the next packet of the flow leaves with the public address and port of the
  -- first one, whatever `rte_malloc` says, and no port is allocated for it.
  pub flow_keeps_port :
      (now later a : ℕ) (malloc : Option ℕ) (m again out : Packet) (n : Nat H) (flow k : NatKey)
      → parse B m ≡ some flow
      → parse B again ≡ some flow
      → flow.dst_ip ≢ n.public_ip
      → H.lookup n.fwd_hash flow ≡ none
      → ((j : NatKey) → H.add n.fwd_hash j a ≢ none)
      → (nat_process_packet H B C hz now (some a) m n).1 ≡ forward out
      → parse B out ≡ some k
      → let q = (nat_process_packet H B C hz now (some a) m n).0 in
        (r : Packet) × ((nat_process_packet H B C hz later malloc again q).1 ≡ forward r)
        × (parse B r ≡ some k)
        × ((nat_process_packet H B C hz later malloc again q).0.current_port ≡ q.current_port)
  unfolding create_entry new_entry refresh
  flow_keeps_port now later a malloc m again out n flow k p pa far new room sent pk =
      let hit =
        process_again later a malloc again (create_entry H B hz now a flow n) flow e pa far
          (lookup-add_quietly H NatKey-discrete n.fwd_hash flow a (room flow))
          (update_self n.heap a (some e)) in
      (
        rewrite_out C again e,
        rw step (ap (λ (x : Nat H × Verdict). x.1) hit),
        parse-rewrite_out B C again e flow pa ∙ ap some (sym key),
        rw step (ap (λ (x : Nat H × Verdict). x.0.current_port) hit),
      )
    where
      e : NatEntry
      e = new_entry H B hz now n.public_ip (next_port n.current_port) flow

      step :
          nat_process_packet H B C hz now (some a) m n
          ≡ (create_entry H B hz now a flow n, forward (rewrite_out C m e))
      step = process_new now a m n flow p far new

      key : k ≡ record flow { src_ip = e.public_ip; src_port = e.public_port }
      key = out_key now a m out n flow k p far new sent pk

  -- When a port comes round again towards the same remote end, the new flow takes over the answers of
  -- the old one: an answer to the entry `old` is sent to the host of the new flow.
  pub port_reuse_steals :
      (now later a : ℕ) (malloc : Option ℕ) (m reply : Packet) (n : Nat H) (flow : NatKey)
      (old : NatEntry)
      → parse B m ≡ some flow
      → flow.dst_ip ≢ n.public_ip
      → H.lookup n.fwd_hash flow ≡ none
      → ((j : NatKey) → H.add n.rev_hash j a ≢ none)
      → old.rev_key ≡ record {
        src_ip = flow.dst_ip;
        dst_ip = n.public_ip;
        src_port = flow.dst_port;
        dst_port = B.be16 (next_port n.current_port);
        proto = flow.proto;
      }
      → parse B reply ≡ some old.rev_key
      → (r : Packet) × ((nat_process_packet H B C hz later malloc reply
            (nat_process_packet H B C hz now (some a) m n).0).1
          ≡ forward r)
        × (parse B r ≡ some (mirror flow))
  unfolding new_entry
  port_reuse_steals now later a malloc m reply n flow old p far new room same pr =
      let e = new_entry H B hz now n.public_ip (next_port n.current_port) flow in
      let step = process_new now a m n flow p far new in
      let out = rewrite_out C m e in
      let (r, got, back, _, _) =
        reply_returns now later a malloc m reply out n flow (mirror old.rev_key) p far new room
          (ap (λ (x : Nat H × Verdict). x.1) step)
          (parse-rewrite_out B C m e flow p ∙ ap some (sym (ap mirror same))) pr in
      (r, got, back)
