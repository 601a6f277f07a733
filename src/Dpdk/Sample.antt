-- ===== src/Dpdk/Sample.antt =====
-- Concrete functions that meet what the interfaces ask for, on which the examples run: a table as an
-- association list that is never full, a little-endian processor, and checksums by a plain sum.
use dpdk_for_beginners.Base.{
  ℕ, ◌+◌, ◌-◌, ◌*◌, ◌/◌, ◌%◌, ◌^◌, ◌<◌, ◌≡◌, ◌≢◌, refl, sym, subst, ◌∙◌, true, Option, none, some,
  List, [], ◌∷◌, ◌==◌, ==_iff, some-inj, ite, if_pos, if_neg, arith, length, ltb, Bool-cases, inl,
  inr, if◌then◌else◌,
}
use dpdk_for_beginners.Dpdk.{HashTable, ByteOrder}
use dpdk_for_beginners.Packet.{Packet, Checksums}

module _ {K V : Type 0} (d : Discrete K) where
  abbrev pub find : List (K × V) → K → Option V
  find [] k = none
  find ((j, v) ∷ t) k = ite (d j k) (some v) (find t k)

  abbrev pub remove : List (K × V) → K → List (K × V)
  remove [] k = []
  remove ((j, v) ∷ t) k = ite (d j k) (remove t k) ((j, v) ∷ remove t k)

  pub find-cons_self : (t : List (K × V)) (k : K) (v : V) → find ((k, v) ∷ t) k ≡ some v
  find-cons_self t k v = rw (if_pos (d k k) refl)

  pub find-cons_ne :
      (t : List (K × V)) (k : K) (v : V) (j : K) → k ≢ j → find ((k, v) ∷ t) j ≡ find t j
  find-cons_ne t k v j h = rw (if_neg (d k j) h)

  pub find-remove_self : (t : List (K × V)) (k : K) → find (remove t k) k ≡ none
  find-remove_self [] k = refl
  find-remove_self ((j, v) ∷ t) k = elim (d j k) [
    | yes e ↦ rw (if_pos (d j k) e) (find-remove_self t k)
    | no n ↦ rw (if_neg (d j k) n, if_neg (d j k) n) (find-remove_self t k)
  ]

  pub find-remove_ne : (t : List (K × V)) (k j : K) → k ≢ j → find (remove t k) j ≡ find t j
  find-remove_ne [] k j h = refl
  find-remove_ne ((i, v) ∷ t) k j h = elim (d i k) [
    | yes e ↦ rw (if_pos (d i k) e, if_neg (d i j) (λ q. h (sym e ∙ q))) (find-remove_ne t k j h)
    | no n ↦ rw (if_neg (d i k) n, find-remove_ne t k j h) refl
  ]

  pub assoc-add_self :
      (t : List (K × V)) (k : K) (v : V) (u : List (K × V))
      → some ((k, v) ∷ t) ≡ some u
      → find u k ≡ some v
  assoc-add_self t k v u e = subst (λ w. find w k ≡ some v) (some-inj e) (find-cons_self t k v)

  pub assoc-add_ne :
      (t : List (K × V)) (k : K) (v : V) (u : List (K × V)) (j : K)
      → some ((k, v) ∷ t) ≡ some u
      → k ≢ j
      → find u j ≡ find t j
  assoc-add_ne t k v u j e h =
      subst (λ w. find w j ≡ find t j) (some-inj e) (find-cons_ne t k v j h)

  pub assoc-reset : (t : List (K × V)) (k : K) → find [] k ≡ none
  assoc-reset t k = refl

  abbrev pub assoc : HashTable K V
  assoc = record {
    Table = List (K × V);
    lookup = find;
    add = λ t k v. some ((k, v) ∷ t);
    del = remove;
    reset = λ t. [];
    lookup-add_self = assoc-add_self;
    lookup-add_ne = assoc-add_ne;
    lookup-del_self = find-remove_self;
    lookup-del_ne = find-remove_ne;
    lookup-reset = assoc-reset;
  }

-- The bytes the other way round.
abbrev pub swap16 : ℕ → ℕ
swap16 x = (x % 256) * 256 + (x / 256) % 256

abbrev pub join : ℕ → ℕ → ℕ → ℕ → ℕ
join a b c d = a * 2 ^ 24 + b * 2 ^ 16 + c * 2 ^ 8 + d

pub join_bytes :
    (a b c d : ℕ)
    → a < 256
    → b < 256
    → c < 256
    → d < 256
    → (join a b c d % 256 ≡ d)
      × (join a b c d / 2 ^ 8 % 256 ≡ c)
      × (join a b c d / 2 ^ 16 % 256 ≡ b)
      × (join a b c d / 2 ^ 24 % 256 ≡ a)
join_bytes a b c d ha hb hc hd = (omega arith, omega arith, omega arith, omega arith)

abbrev pub swap32 : ℕ → ℕ
swap32 x = join (x % 256) (x / 2 ^ 8 % 256) (x / 2 ^ 16 % 256) (x / 2 ^ 24 % 256)

pub swap16-lt : (x : ℕ) → x < 2 ^ 16 → swap16 x < 2 ^ 16
swap16-lt x h = omega arith

pub swap32-lt : (x : ℕ) → x < 2 ^ 32 → swap32 x < 2 ^ 32
swap32-lt x h = omega arith

pub swap16-swap16 : (x : ℕ) → x < 2 ^ 16 → swap16 (swap16 x) ≡ x
swap16-swap16 x h = omega arith

whole :
    (x : ℕ)
    → x < 2 ^ 32
    → join (x / 2 ^ 24 % 256) (x / 2 ^ 16 % 256) (x / 2 ^ 8 % 256) (x % 256) ≡ x
whole x h = omega arith

pub swap32-swap32 : (x : ℕ) → x < 2 ^ 32 → swap32 (swap32 x) ≡ x
swap32-swap32 x h =
    let b =
      join_bytes (x % 256) (x / 2 ^ 8 % 256) (x / 2 ^ 16 % 256) (x / 2 ^ 24 % 256) (omega arith)
        (omega arith) (omega arith) (omega arith) in
    rw (b.0, b.1, b.2, b.3) (whole x h)

abbrev pub little_endian : ByteOrder
little_endian = record {
  be16 = swap16;
  be32 = swap32;
  be16-lt = swap16-lt;
  be32-lt = swap32-lt;
  be16-be16 = swap16-swap16;
  be32-be32 = swap32-swap32;
}

-- What is missing from `x` to a multiple of 2 ^ 16.
abbrev complement : ℕ → ℕ
complement x = (2 ^ 16 - x % 2 ^ 16) % 2 ^ 16

abbrev ip_sum : Packet → ℕ
ip_sum p = p.next_proto_id + p.src_addr + p.dst_addr + p.hdr_checksum

abbrev l4_sum : Packet → ℕ
l4_sum p =
    p.next_proto_id + p.src_addr + p.dst_addr + p.src_port + p.dst_port + p.tcp_cksum + p.udp_cksum

pub complement_ok : (x y : ℕ) → y ≡ x + complement x → (y % 2 ^ 16 == 0) ≡ true
complement_ok x y e = (==_iff _ 0).1 (omega arith)

abbrev pub plain_sums : Checksums
plain_sums = record {
  ipv4_cksum = λ p. complement (ip_sum p);
  udptcp_cksum = λ p. complement (l4_sum p);
  ip_ok = λ p. ip_sum p % 2 ^ 16 == 0;
  l4_ok = λ p. l4_sum p % 2 ^ 16 == 0;
  ip_ok-ipv4_cksum = λ p z. complement_ok (ip_sum p) _ (omega arith);
  ip_ok-tcp = λ p c. refl;
  ip_ok-udp = λ p c. refl;
  l4_ok-tcp = λ p t z. complement_ok (l4_sum p) _ (omega arith);
  l4_ok-udp = λ p u z. complement_ok (l4_sum p) _ (omega arith);
  l4_ok-hdr = λ p c. refl;
}

-- The same table with room for `capacity` keys, which refuses a key when it is full.
module _ {K V : Type 0} (d : Discrete K) (capacity : ℕ) where
  abbrev pub add_within : List (K × V) → K → V → Option (List (K × V))
  add_within t k v = if ltb (length t) capacity then some ((k, v) ∷ t) else none

  pub add_within-cons :
      (t : List (K × V)) (k : K) (v : V) (u : List (K × V))
      → add_within t k v ≡ some u
      → some ((k, v) ∷ t) ≡ some u
  add_within-cons t k v u e = elim (Bool-cases (ltb (length t) capacity)) [
    | inl y ↦ rw y at e
    | inr n ↦ absurd (not_some (rw n at e))
  ]
    where
      not_some : none ≡ some u → ⊥
      not_some q = cc

  abbrev pub bounded : HashTable K V
  bounded = record {
    Table = List (K × V);
    lookup = find d;
    add = add_within;
    del = remove d;
    reset = λ t. [];
    lookup-add_self = λ t k v u e. assoc-add_self d t k v u (add_within-cons t k v u e);
    lookup-add_ne = λ t k v u j e h. assoc-add_ne d t k v u j (add_within-cons t k v u e) h;
    lookup-del_self = find-remove_self d;
    lookup-del_ne = find-remove_ne d;
    lookup-reset = assoc-reset d;
  }
