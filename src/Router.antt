-- ===== src/Router.antt =====
-- longest_prefix_match_lpm/simple/main.c: a table of routes, and the loop that looks the destination of
-- each packet up in it. The table is the longest-prefix library, a parameter.
pub mod Routes
use dpdk_for_beginners.Base.{
  ℕ, ◌+◌, ◌-◌, ◌*◌, ◌/◌, ◌%◌, ◌^◌, ◌<◌, ◌≤◌, ◌≡◌, Bool, true, false, Option, none, some, List, [],
  ◌∷◌, length, take, drop, ltb, ◌==◌, if◌then◌else◌,
}
use dpdk_for_beginners.Dpdk.{ByteOrder}
use dpdk_for_beginners.Packet.{ether_type_ipv4}
use dpdk_for_beginners.Frame.{Memory, load16, load32}

pub record Route : Type 0 where
  pub ip : ℕ
  pub depth : ℕ
  pub next_hop : ℕ

-- The first `depth` bits are those of the route.
abbrev pub covers : Route → ℕ → Bool
covers r ip = ip / 2 ^ (32 - r.depth) == r.ip / 2 ^ (32 - r.depth)

abbrev pub better : Option Route → Route → Option Route
better none r = some r
better (some s) r = if ltb r.depth s.depth then some s else some r

-- the longest of the routes that cover an address, the newest of those with one prefix
abbrev pub longest : ℕ → List Route → Option Route
longest ip [] = none
longest ip (r ∷ rs) = let rest = longest ip rs in if covers r ip then better rest r else rest

abbrev pub hop_of : Option Route → Option ℕ
hop_of none = none
hop_of (some r) = some r.next_hop

-- The library rte_lpm, on a table that is not full. `routes` are those that were added, the newest
-- first; a depth of more than 24 would need one of the tables of the second stage.
pub record Lpm : Type 1 where
  pub Table : Type 0
  pub create : Table
  pub add : Table → ℕ → ℕ → ℕ → Table
  pub lookup : Table → ℕ → Option ℕ
  pub routes : Table → List Route
  pub routes-create : routes create ≡ []
  pub routes-add :
      (t : Table) (a d n : ℕ)
      → 1 ≤ d
      → d ≤ 24
      → length (routes t) < 1024
      → routes (add t a d n) ≡ record { ip = a; depth = d; next_hop = n } ∷ routes t
  pub lookup-longest : (t : Table) (ip : ℕ) → lookup t ip ≡ hop_of (longest ip (routes t))

-- IPv4
abbrev pub ipv4_address : ℕ → ℕ → ℕ → ℕ → ℕ
ipv4_address a b c d = (a % 256) * 2 ^ 24 + (b % 256) * 2 ^ 16 + (c % 256) * 2 ^ 8 + d % 256

-- what the loop prints about a packet
pub data Line : Type 0 where
  ignored : Line
  next : ℕ → ℕ → Line
  no_route : ℕ → Line

-- What a burst leaves: what was printed, the packets that the port took, and those whose buffers never
-- return to the pool, since neither a packet that is ignored nor one that the port refuses is freed.
pub record Routed : Type 0 where
  pub printed : List Line
  pub sent : List Memory
  pub lost : List Memory

abbrev pub after_packet : Line → Memory → Bool → Routed → Routed
after_packet ignored pkt taken rest = record rest {
  printed = ignored ∷ rest.printed;
  lost = pkt ∷ rest.lost;
}
after_packet line pkt true rest = record rest {
  printed = line ∷ rest.printed;
  sent = pkt ∷ rest.sent;
}
after_packet line pkt false rest = record rest {
  printed = line ∷ rest.printed;
  lost = pkt ∷ rest.lost;
}

module _ (O : ByteOrder) (L : Lpm) where
  open L use {Table, create, add, lookup}

  unfoldable pub init_lpm : Table
  init_lpm =
      add
        (add (add (add create (ipv4_address 10 1 2 0) 24 1) (ipv4_address 10 1 0 0) 16 2)
          (ipv4_address 192 0 0 0) 8 3)
        (ipv4_address 172 0 0 0) 4 4

  abbrev pub line_of : ℕ → Option ℕ → Line
  line_of ip (some n) = next ip n
  line_of ip none = no_route ip

  -- the body of the loop, up to the call that sends the packet
  unfoldable pub route_packet : Table → Memory → Line
  route_packet t pkt =
      if load16 O pkt 12 == O.be16 ether_type_ipv4
      then (let dst_ip = O.be32 (load32 O pkt 30) in line_of dst_ip (lookup t dst_ip))
      else ignored

  -- the loop over a burst, each packet with the answer of the port, should it be sent
  unfoldable pub route_burst : Table → List (Memory × Bool) → Routed
  unfolding route_packet
  route_burst t [] = record { printed = []; sent = []; lost = [] }
  route_burst t ((pkt, taken) ∷ pkts) =
      after_packet (route_packet t pkt) pkt taken (route_burst t pkts)
