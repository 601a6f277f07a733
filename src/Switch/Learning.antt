-- ===== src/Switch/Learning.antt =====
-- What the switch has learned from the packets that it has seen.
use dpdk_for_beginners.Base.{
  ℕ, zero, suc, ◌+◌, ◌%◌, ◌^◌, ◌<◌, ◌≤◌, length, ◌≡◌, refl, ap, ◌∙◌, Option, none, some, List, [],
  ◌∷◌, All, count, ltb, ◌==◌, if◌then◌else◌, ite, if_pos, if_neg, ℕ_discrete, some-inj, arith,
}
use dpdk_for_beginners.Dpdk.{HashTable, add_quietly}
use dpdk_for_beginners.Dpdk.Capacity.{In, Known, HasEntries, KeysIn, add-ne-none, KeysIn-add}
use dpdk_for_beginners.Dpdk.Table.{lookup-add_quietly, lookup-add_quietly_ne}
use dpdk_for_beginners.Switch.{
  max_ports, hash_entries, Packet, forward, flood, flood_from, flood_packet, mac_learn, mac_lookup,
  process_packet, process_all,
}

-- the port of the last packet with this source address, among packets that came after a port had
-- perhaps been known
abbrev pub last_port : Option ℕ → List Packet → ℕ → Option ℕ
last_port known [] a = known
last_port known (p ∷ ps) a = last_port (ite (ℕ_discrete p.src a) (some p.in_port) known) ps a

abbrev pub IsPort : Packet → Type 0
IsPort p = p.in_port < 2 ^ 16

-- The ports of a flood are those of the switch but the one where the packet came in, each of them once.
count-flood_from :
    (left p in_port q : ℕ)
    → count (λ x. x == q) (flood_from left p in_port)
      ≡ (if q == in_port then 0 else if ltb q p then 0 else if ltb q (p + left) then 1 else 0)
unfolding flood_from
count-flood_from zero p in_port q = ground arith
count-flood_from (suc left) p in_port q = ground (arith, count-flood_from left (suc p) in_port q)

count-flood_packet :
    (in_port q : ℕ)
    → count (λ x. x == q) (flood_packet in_port)
      ≡ (if q == in_port then 0 else if ltb q max_ports then 1 else 0)
unfolding flood_packet
count-flood_packet in_port q = ground (arith, count-flood_from max_ports 0 in_port q)

not_some : {k : ℕ} → none ≡ some k → ⊥
not_some e = cc

last_port-IsPort :
    (ps : List Packet) (known : Option ℕ) (a q : ℕ)
    → All IsPort ps
    → ((k : ℕ) → known ≡ some k → k < 2 ^ 16)
    → last_port known ps a ≡ some q
    → q < 2 ^ 16
last_port-IsPort [] known a q h k e = k q e
last_port-IsPort (p ∷ ps) known a q h k e = elim (ℕ_discrete p.src a) [
  | yes y ↦
      last_port-IsPort ps (some p.in_port) a q h.1 (λ j f. rw (← some-inj f) h.0)
        (rw (if_pos (ℕ_discrete p.src a) y) at e)
  | no n ↦ last_port-IsPort ps known a q h.1 k (rw (if_neg (ℕ_discrete p.src a) n) at e)
]

-- the source addresses of packets are among those of a list
abbrev pub SourcesIn : List ℕ → List Packet → Type 0
SourcesIn us ps = All (λ p. In p.src us) ps

module _ (H : HashTable ℕ ℕ) (c : HasEntries H hash_entries) (us : List ℕ)
    (few : length us ≤ hash_entries) where
  lookup-learn :
      (t : H.Table) (p : Packet) (a : ℕ)
      → KeysIn H us t
      → In p.src us
      → H.lookup (mac_learn H t p.src p.in_port) a
        ≡ ite (ℕ_discrete p.src a) (some p.in_port) (H.lookup t a)
  unfolding mac_learn
  lookup-learn t p a inside here = elim (ℕ_discrete p.src a) [
    | yes e ↦
        rw (if_pos (ℕ_discrete p.src a) e, ← e)
          (lookup-add_quietly H ℕ_discrete t p.src p.in_port
            (add-ne-none H ℕ_discrete hash_entries c us few t p.src p.in_port inside here))
    | no n ↦
        rw (if_neg (ℕ_discrete p.src a) n)
          (lookup-add_quietly_ne H ℕ_discrete t p.src p.in_port a n)
  ]

  process_all-last_port :
      (ps : List Packet) (t : H.Table) (a : ℕ)
      → KeysIn H us t
      → SourcesIn us ps
      → (H.lookup (process_all H t ps) a ≡ last_port (H.lookup t a) ps a)
        × KeysIn H us (process_all H t ps)
  unfolding process_all process_packet mac_learn
  process_all-last_port [] t a inside from = (refl, inside)
  process_all-last_port (p ∷ ps) t a inside (here, from) =
      let learned = KeysIn-add H ℕ_discrete hash_entries c us few t p.src p.in_port inside here in
      let (later, all) =
        process_all-last_port ps (mac_learn H t p.src p.in_port) a (learned_keys t p learned)
          from in
      (later ∙ ap (λ k. last_port k ps a) (lookup-learn t p a inside here), all)
    where
      learned_keys :
          (t : H.Table) (p : Packet)
          → KeysIn H us (add_quietly H t p.src p.in_port)
          → KeysIn H us (mac_learn H t p.src p.in_port)
      learned_keys t p h = h

  -- The switch starts with an empty table, which refuses a new address only when it holds 1024 others, and no
  -- more than 1024 addresses send packets. A packet that comes after the packets `ps` is forwarded to the port where the last packet from its destination came in, itself included, if there
  -- has been one; otherwise it is flooded to the other ports of the switch, to each of them once.
  pub process_packet-last_port :
      (ps : List Packet) (p : Packet) (t : H.Table)
      → SourcesIn us (p ∷ ps)
      → ((a : ℕ) → H.lookup t a ≡ none)
      → All IsPort (p ∷ ps)
      → let seen = ite (ℕ_discrete p.src p.dst) (some p.in_port) (last_port none ps p.dst) in
        let out = (process_packet H (process_all H t ps) p).1 in
        ((q : ℕ) → seen ≡ some q → out ≡ forward q)
        × (seen ≡ none
            → (ports : List ℕ) × (out ≡ flood ports)
              × ((q : ℕ)
                  → count (λ x. x == q) ports
                    ≡ (if q == p.in_port then 0 else if ltb q max_ports then 1 else 0)))
  unfolding process_packet mac_lookup flood_packet
  process_packet-last_port ps p t from empty small =
      let (known_at, inside) =
        process_all-last_port ps t p.dst (λ k h. absurd (unknown k h)) from.1 in
      let known = known_at ∙ ap (λ k. last_port k ps p.dst) (empty p.dst) in
      let now = lookup-learn (process_all H t ps) p p.dst inside from.0 in
      let both = now ∙ ap (λ k. ite (ℕ_discrete p.src p.dst) (some p.in_port) k) known in
      (
        (λ q e.
            rw (both, e)
              (let w = fits q e in let r : q % 2 ^ 16 ≡ q = omega arith in ap forward r)),
        (λ e. rw (both, e) (flood_packet p.in_port, refl, count-flood_packet p.in_port)),
      )
    where
      unknown : (k : ℕ) → Known H t k → ⊥
      unknown k (v, h) = cc (empty k, h)

      fits :
          (q : ℕ)
          → ite (ℕ_discrete p.src p.dst) (some p.in_port) (last_port none ps p.dst) ≡ some q
          → q < 2 ^ 16
      fits q e = elim (ℕ_discrete p.src p.dst) [
        | yes y ↦ let g = some-inj (rw (if_pos (ℕ_discrete p.src p.dst) y) at e) in rw (← g) small.0
        | no n ↦
            last_port-IsPort ps none p.dst q small.1 (λ k f. absurd (not_some f))
              (rw (if_neg (ℕ_discrete p.src p.dst) n) at e)
      ]
