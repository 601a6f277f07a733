-- ===== src/Napt/Memory.antt =====
-- The tables of nat_project/version6/static_nat.c never lead to memory that was freed.
use dpdk_for_beginners.Base.{
  ℕ, ◌≡◌, ◌≢◌, refl, ◌∙◌, inl, inr, Option, none, some, List, [], ◌∷◌, arith, ◌==◌, ℕ_discrete,
  Bool-cases,
}
use dpdk_for_beginners.Dpdk.{HashTable, ByteOrder, add_quietly}
use dpdk_for_beginners.Dpdk.Table.{add_quietly-keys, del-keys}
use dpdk_for_beginners.Packet.{Packet, Checksums}
use dpdk_for_beginners.Napt.State.{
  NatKey, NatKey-discrete, NatEntry, Heap, update, Nat, nat_entry_expire, refresh, create_entry,
}
use dpdk_for_beginners.Napt.Process.{
  Verdict, fault, rewrite_out, rewrite_in, found, inbound, outbound_new, outbound, process,
  nat_process_packet,
}
use dpdk_for_beginners.Napt.Main.{fire, nat_timer_manage}

-- an entry of which `key` is the key `k` lies at the address `a`
abbrev pub Points : Heap → (NatEntry → NatKey) → NatKey → ℕ → Type 0
Points h key k a = (e : NatEntry) × (h a ≡ some e) × (key e ≡ k)

update_ne : (h : Heap) (a b : ℕ) (c : Option NatEntry) → a ≢ b → update h a c b ≡ h b
update_ne h a b c n = ground arith

pub update_self : (h : Heap) (a : ℕ) (c : Option NatEntry) → update h a c a ≡ c
update_self h a c = ground arith

module _ (H : HashTable NatKey ℕ) where
  -- Each address in a table is that of a live entry, whose key of that direction leads to it.
  pub record IsLive (n : Nat H) : Type 0 where
    pub fwd :
        (k : NatKey) (a : ℕ) → H.lookup n.fwd_hash k ≡ some a → Points n.heap (λ e. e.fwd_key) k a
    pub rev :
        (k : NatKey) (a : ℕ) → H.lookup n.rev_hash k ≡ some a → Points n.heap (λ e. e.rev_key) k a

  module _ (key : NatEntry → NatKey) (h : Heap) (t : H.Table)
      (live : (k : NatKey) (b : ℕ) → H.lookup t k ≡ some b → Points h key k b) (a : ℕ)
      (e : NatEntry) where
    -- the deletion of an entry's key together with its memory
    del-Points :
        h a ≡ some e
        → (k : NatKey) (b : ℕ) → H.lookup (H.del t (key e)) k ≡ some b
        → Points (update h a none) key k b
    del-Points at k b q =
        let (ne, old) = del-keys H NatKey-discrete t (key e) k b q in
        let (f, hb, kf) = live k b old in (f, update_ne h a b none (λ s. ne (cc)) ∙ hb, kf)

    -- an insertion for an entry in fresh memory
    add-Points :
        h a ≡ none
        → (k : NatKey) (b : ℕ) → H.lookup (add_quietly H t (key e) a) k ≡ some b
        → Points (update h a (some e)) key k b
    add-Points fresh k b q = elim (add_quietly-keys H NatKey-discrete t (key e) a k b q) [
      | inl (own, s) ↦ (e, rw (← s) (update_self h a (some e)), own)
      | inr old ↦ let (f, hb, kf) = live k b old in (f, update_ne h a b (some e) (λ s. cc) ∙ hb, kf)
    ]

    -- a change of an entry that keeps its keys
    same-Points :
        (f : NatEntry)
        → h a ≡ some f
        → key e ≡ key f
        → (k : NatKey) (b : ℕ) → H.lookup t k ≡ some b
        → Points (update h a (some e)) key k b
    same-Points f at same k b q = elim (ℕ_discrete a b) [
      | yes s ↦ let (g, hb, kg) = live k b q in (e, rw (← s) (update_self h a (some e)), cc)
      | no n ↦ let (g, hb, kg) = live k b q in (g, update_ne h a b (some e) n ∙ hb, kg)
    ]

  pub nat_entry_expire-IsLive :
      (a : ℕ) (e : NatEntry) (n : Nat H)
      → n.heap a ≡ some e
      → IsLive n
      → IsLive (nat_entry_expire H a e n)
  unfolding nat_entry_expire
  nat_entry_expire-IsLive a e n at v = record {
    fwd = del-Points (λ e. e.fwd_key) n.heap n.fwd_hash v.fwd a e at;
    rev = del-Points (λ e. e.rev_key) n.heap n.rev_hash v.rev a e at;
  }

  fire-IsLive :
      (a : ℕ) (o : Option NatEntry) (n : Nat H) → n.heap a ≡ o → IsLive n → IsLive (fire H a o n)
  unfolding fire
  fire-IsLive a none n e v = v
  fire-IsLive a (some f) n e v = nat_entry_expire-IsLive a f n e v

  -- Whichever timers fire, and in whichever order, no table is left with a freed entry.
  pub nat_timer_manage-IsLive :
      (fired : List ℕ) (n : Nat H) → IsLive n → IsLive (nat_timer_manage H fired n)
  unfolding nat_timer_manage
  nat_timer_manage-IsLive [] n v = v
  nat_timer_manage-IsLive (a ∷ fired) n v =
      nat_timer_manage-IsLive fired _ (fire-IsLive a _ n refl v)

  module _ (B : ByteOrder) (C : Checksums) (hz now : ℕ) where
    refresh-IsLive :
        (a : ℕ) (e : NatEntry) (n : Nat H)
        → n.heap a ≡ some e
        → IsLive n
        → IsLive (refresh H hz now a e n)
    unfolding refresh
    refresh-IsLive a e n at v = record {
      fwd = same-Points (λ e. e.fwd_key) n.heap n.fwd_hash v.fwd a _ e at refl;
      rev = same-Points (λ e. e.rev_key) n.heap n.rev_hash v.rev a _ e at refl;
    }

    -- what a step leaves: live tables, and a verdict that is no fault
    abbrev pub Safe : Nat H × Verdict → Type 0
    Safe r = IsLive r.0 × (r.1 ≢ fault)

    found-Safe :
        (rewrite : Packet → NatEntry → Packet) (a : ℕ) (e : NatEntry) (m : Packet) (n : Nat H)
        → n.heap a ≡ some e
        → IsLive n
        → Safe (found H B C hz now rewrite a (n.heap a) m n)
    unfolding found
    found-Safe rewrite a e m n at v = rw at (refresh-IsLive a e n at v, (λ q. cc))

    create_entry-IsLive :
        (a : ℕ) (flow : NatKey) (n : Nat H)
        → n.heap a ≡ none
        → IsLive n
        → IsLive (create_entry H B hz now a flow n)
    unfolding create_entry
    create_entry-IsLive a flow n fresh v = record {
      fwd = add-Points (λ e. e.fwd_key) n.heap n.fwd_hash v.fwd a _ fresh;
      rev = add-Points (λ e. e.rev_key) n.heap n.rev_hash v.rev a _ fresh;
    }

    inbound-Safe :
        (o : Option ℕ) (flow : NatKey) (m : Packet) (n : Nat H)
        → H.lookup n.rev_hash flow ≡ o
        → IsLive n
        → Safe (inbound H B C hz now o m n)
    unfolding inbound
    inbound-Safe none flow m n e v = (v, (λ q. cc))
    inbound-Safe (some a) flow m n e v =
        let (f, at, _) = v.rev flow a e in found-Safe (rewrite_in C) a f m n at v

    outbound-Safe :
        (malloc o : Option ℕ) (flow : NatKey) (m : Packet) (n : Nat H)
        → H.lookup n.fwd_hash flow ≡ o
        → ((a : ℕ) → malloc ≡ some a → n.heap a ≡ none)
        → IsLive n
        → Safe (outbound H B C hz now malloc o flow m n)
    unfolding outbound outbound_new
    outbound-Safe none none flow m n e fresh v = (v, (λ q. cc))
    outbound-Safe (some a) none flow m n e fresh v =
        (create_entry-IsLive a flow n (fresh a refl) v, (λ q. cc))
    outbound-Safe malloc (some a) flow m n e fresh v =
        let (f, at, _) = v.fwd flow a e in found-Safe (rewrite_out C) a f m n at v

    process-Safe :
        (malloc : Option ℕ) (o : Option NatKey) (m : Packet) (n : Nat H)
        → ((a : ℕ) → malloc ≡ some a → n.heap a ≡ none)
        → IsLive n
        → Safe (process H B C hz now malloc o m n)
    unfolding process
    process-Safe malloc none m n fresh v = (v, (λ q. cc))
    process-Safe malloc (some flow) m n fresh v = elim (Bool-cases (flow.dst_ip == n.public_ip)) [
      | inl e ↦ rw e (inbound-Safe _ flow m n refl v)
      | inr e ↦ rw e (outbound-Safe malloc _ flow m n refl fresh v)
    ]

    -- A packet is processed without a read of freed memory, and no table is left with a freed entry,
    -- if `rte_malloc` returns memory that is not in use.
    pub nat_process_packet-Safe :
        (malloc : Option ℕ) (m : Packet) (n : Nat H)
        → ((a : ℕ) → malloc ≡ some a → n.heap a ≡ none)
        → IsLive n
        → IsLive (nat_process_packet H B C hz now malloc m n).0
          × ((nat_process_packet H B C hz now malloc m n).1 ≢ fault)
    unfolding nat_process_packet
    nat_process_packet-Safe malloc m n fresh v = process-Safe malloc _ m n fresh v
