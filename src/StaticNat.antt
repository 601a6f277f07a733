-- ===== src/StaticNat.antt =====
-- nat_project/version3, a NAT by a table of static mappings, and hash.c of nat_project, which keeps the
-- sources that it has seen.
pub mod Laws
pub mod Simulate
use dpdk_for_beginners.Base.{
  ℕ, Bool, true, false, Option, none, some, List, [], ◌∷◌, take, drop, ℕ_discrete, ◌==◌, ◌||◌,
  if◌then◌else◌,
}
use dpdk_for_beginners.Dpdk.{HashTable, ByteOrder, add_quietly}
use dpdk_for_beginners.Packet.{Packet, Checksums, ether_type_ipv4, ipproto_tcp, ipproto_udp}
use dpdk_for_beginners.NatPool.Apply.{rewrite_and_recalc}
use dpdk_for_beginners.Config.{StaticEntry}

module _ (H : HashTable ℕ StaticEntry) (B : ByteOrder) (C : Checksums) where
  -- an IPv4 packet, with what the table holds for its source; version3 sets the address and the
  -- checksums by the assignments that `rewrite_and_recalc` of version5 is made of
  unfoldable pub static_ipv4 : Option StaticEntry → Packet → Packet
  static_ipv4 none m = m
  static_ipv4 (some e) m = rewrite_and_recalc C m e.public_ip true

  -- the body of the loop of `nat_apply`
  unfoldable pub static_one : H.Table → Packet → Packet
  unfolding static_ipv4
  static_one t m =
      if m.ether_type == B.be16 ether_type_ipv4 then static_ipv4 (H.lookup t m.src_addr) m else m

  unfoldable pub nat_apply : H.Table → List Packet → List Packet
  unfolding static_one
  nat_apply t [] = []
  nat_apply t (m ∷ ms) = static_one t m ∷ nat_apply t ms

  -- What main.c does with a burst of which the port takes `nb_tx` packets: what is sent and what is
  -- freed.
  unfoldable pub static_round : ℕ → H.Table → List Packet → List Packet × List Packet
  unfolding nat_apply
  static_round nb_tx t ms = let outs = nat_apply t ms in (take nb_tx outs, drop nb_tx outs)

-- `struct ip_port_key` of hash.c
pub record IpPortKey : Type 0 where
  pub ip : ℕ
  pub port : ℕ

pub IpPortKey-discrete : Discrete IpPortKey
IpPortKey-discrete = hlevel ℕ_discrete

-- the key of a packet, if it is TCP or UDP over IPv4
unfoldable pub src_key : ByteOrder → Packet → Option IpPortKey
src_key B m =
    if m.ether_type == B.be16 ether_type_ipv4
    then if m.next_proto_id == ipproto_tcp || m.next_proto_id == ipproto_udp
      then some (record { ip = m.src_addr; port = m.src_port })
      else none
    else none

module _ (H : HashTable IpPortKey ℕ) where
  -- a key that is not yet there is stored with the number 1; the result of the insertion is not
  -- looked at
  unfoldable pub store : H.Table → IpPortKey → Option ℕ → H.Table
  store t k none = add_quietly H t k 1
  store t k (some v) = t

  unfoldable pub track : H.Table → Option IpPortKey → H.Table
  unfolding store
  track t none = t
  track t (some k) = store t k (H.lookup t k)

  unfoldable pub hash_ips : ByteOrder → H.Table → List Packet → H.Table
  unfolding track src_key
  hash_ips B t [] = t
  hash_ips B t (m ∷ ms) = hash_ips B (track t (src_key B m)) ms

  -- `reset_ip_hash`, which does nothing without a table
  unfoldable pub reset_ip_hash : Option H.Table → Option H.Table
  reset_ip_hash none = none
  reset_ip_hash (some t) = some (H.reset t)
