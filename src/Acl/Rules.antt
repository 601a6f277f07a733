-- ===== src/Acl/Rules.antt =====
-- The rule sets of ACL/dual_rule_implementation/main.c and ACL/muti_rule/main.c.
use mathlib.Core.Bool.{true≢false}
use dpdk_for_beginners.Base.{
  sym, ◌∙◌, ℕ, ◌<◌, ◌≤◌, ◌≡◌, ◌≢◌, ◌↔◌, refl, Bool-cases, inl, inr, Bool, true, false, none, List,
  [], ◌∷◌, arith, if◌then◌else◌,
}
use dpdk_for_beginners.Dpdk.{ByteOrder}
use dpdk_for_beginners.Packet.{ipproto_tcp, ipproto_udp}
use dpdk_for_beginners.Frame.{Memory, IsBytes, be16_at, be16_at-lt, be32_at-lt}
use dpdk_for_beginners.Acl.Field.{
  Rule, FieldDef, bitmask, mask, range, no_field, rule_matches, best, userdata_of, bit_and_ones,
  best_first, best_skip, one_rule,
}
use dpdk_for_beginners.Acl.Key.{
  PktKey, Fits, rte_ipv4, field_defs, key_bytes, rule_matches-key_bytes,
}

abbrev pub action_allow : ℕ
action_allow = 777

abbrev pub action_drop : ℕ
action_drop = 0

-- the rule of one TCP flow
unfoldable pub allow_rule : Rule
allow_rule = record {
  priority = 100;
  category_mask = 1;
  userdata = action_allow;
  field =
      record { value = ipproto_tcp; mask_range = 0xFF }
      ∷ record { value = rte_ipv4 140 82 112 21; mask_range = 32 }
      ∷ record { value = rte_ipv4 172 17 166 200; mask_range = 32 }
      ∷ record { value = 443; mask_range = 443 }
      ∷ record { value = 42960; mask_range = 42960 }
      ∷ [];
}

-- the rule in which every value and every mask or range is 0
unfoldable pub drop_rule : Rule
drop_rule = record {
  priority = 1;
  category_mask = 1;
  userdata = action_drop;
  field = no_field ∷ no_field ∷ no_field ∷ no_field ∷ no_field ∷ [];
}

-- `field_defs` of muti_rule/main.c, whose offsets are those of an IPv4 header without options and of the
-- ports behind it
abbrev pub header_defs : List FieldDef
header_defs =
    record { kind = bitmask; size = 1; field_index = 0; input_index = 0; offset = 9 }
    ∷ record { kind = mask; size = 4; field_index = 1; input_index = 1; offset = 12 }
    ∷ record { kind = mask; size = 4; field_index = 2; input_index = 2; offset = 16 }
    ∷ record { kind = range; size = 2; field_index = 3; input_index = 3; offset = 20 }
    ∷ record { kind = range; size = 2; field_index = 4; input_index = 4; offset = 22 }
    ∷ []

unfoldable pub add_rule : ℕ → ℕ × ℕ → ℕ × ℕ → ℕ × ℕ → ℕ × ℕ → ℕ → ℕ → Rule
add_rule proto (src, src_mask) (dst, dst_mask) (sport_low, sport_high) (dport_low, dport_high)
      priority userdata =
    record {
      priority = priority;
      category_mask = 1;
      userdata = userdata;
      field =
          record { value = proto; mask_range = 0xFF }
          ∷ record { value = src; mask_range = src_mask }
          ∷ record { value = dst; mask_range = dst_mask }
          ∷ record { value = sport_low; mask_range = sport_high }
          ∷ record { value = dport_low; mask_range = dport_high }
          ∷ [];
    }

unfoldable pub dns_rule : Rule
unfolding add_rule
dns_rule = add_rule ipproto_udp (0, 0) (0, 0) (0, 65535) (53, 53) 100 1

unfoldable pub http_rule : Rule
unfolding add_rule
http_rule = add_rule ipproto_tcp (0, 0) (0, 0) (0, 65535) (80, 80) 90 2

unfoldable pub default_rule : Rule
unfolding add_rule
default_rule = add_rule 0 (0, 0) (0, 0) (0, 65535) (0, 65535) 1 0

-- A rule of `add_rule` for any address and source port matches a header by its protocol and its
-- destination port.
add_rule_iff :
    (hdr : Memory) (proto low high priority userdata : ℕ)
    → IsBytes hdr
    → proto < 256
    → (rule_matches header_defs
          (add_rule proto (0, 0) (0, 0) (0, 65535) (low, high) priority userdata)
          hdr
        ≡ true)
      ↔ ((hdr 9 ≡ proto) × (low ≤ be16_at hdr 22) × (be16_at hdr 22 ≤ high))
unfolding add_rule
add_rule_iff hdr proto low high priority userdata b p =
    rw (bit_and_ones (hdr 9) (b 9), bit_and_ones proto p)
      (
        (λ h. (ground arith, ground arith, ground arith)),
        (λ h. ground (arith, be32_at-lt hdr 12 b, be32_at-lt hdr 16 b, be16_at-lt hdr 20 b)),
      )

never_777 : (b : Bool) → (if b then action_drop else 0) ≡ action_allow → ⊥
never_777 true h = omega arith
never_777 false h = omega arith

module _ (O : ByteOrder) where
  -- The first rule matches the key of one flow, given in the byte order of the network.
  allow_rule_iff :
      (k : PktKey)
      → Fits k
      → (rule_matches (field_defs 4) allow_rule (key_bytes O k) ≡ true) ↔ (
          (k.proto ≡ ipproto_tcp)
          × (O.be32 k.src_ip ≡ rte_ipv4 140 82 112 21)
          × (O.be32 k.dst_ip ≡ rte_ipv4 172 17 166 200)
          × (O.be16 k.src_port ≡ 443)
          × (O.be16 k.dst_port ≡ 42960))
  unfolding allow_rule
  allow_rule_iff k w =
      rw (rule_matches-key_bytes O allow_rule k 4 w, bit_and_ones k.proto w.proto_fits)
        (
          (λ h. (ground arith, ground arith, ground arith, ground arith, ground arith)),
          (λ h. ground arith),
        )

  -- Between these two rules, a key gets the action 777 exactly if it is the key of that flow.
  pub dual_rules_iff :
      (k : PktKey)
      → Fits k
      → (userdata_of (best (field_defs 4) (allow_rule ∷ drop_rule ∷ []) (key_bytes O k))
          ≡ action_allow)
        ↔ ((k.proto ≡ ipproto_tcp)
            × (O.be32 k.src_ip ≡ rte_ipv4 140 82 112 21)
            × (O.be32 k.dst_ip ≡ rte_ipv4 172 17 166 200)
            × (O.be16 k.src_port ≡ 443)
            × (O.be16 k.dst_port ≡ 42960))
  unfolding allow_rule drop_rule
  dual_rules_iff k w =
      let q = allow_rule_iff k w in
      elim (Bool-cases (rule_matches (field_defs 4) allow_rule (key_bytes O k))) [
        | inl y ↦
            rw
              (best_first (field_defs 4) allow_rule (drop_rule ∷ []) (key_bytes O k) y
                (omega arith, tt))
              ((λ h. q.0 y), (λ h. refl))
        | inr n ↦
            rw
              (
                best_skip (field_defs 4) allow_rule (drop_rule ∷ []) (key_bytes O k) n,
                one_rule (field_defs 4) drop_rule (key_bytes O k),
              )
              ((λ h. absurd (never_777 _ h)), (λ h. absurd (true≢false (sym (q.1 h) ∙ n))))
      ]

abbrev pub IsDns : Memory → Type 0
IsDns hdr = (hdr 9 ≡ ipproto_udp) × (be16_at hdr 22 ≡ 53)

abbrev pub IsHttp : Memory → Type 0
IsHttp hdr = (hdr 9 ≡ ipproto_tcp) × (be16_at hdr 22 ≡ 80)

-- For a header without options, the three rules give 1 exactly for UDP to port 53 and 2 exactly for TCP to
-- port 80. Of the other headers, those whose protocol is not 0 match no rule.
pub three_rules_lem :
    (hdr : Memory)
    → IsBytes hdr
    → let r = best header_defs (dns_rule ∷ http_rule ∷ default_rule ∷ []) hdr in
      ((userdata_of r ≡ 1) ↔ IsDns hdr)
      × ((userdata_of r ≡ 2) ↔ IsHttp hdr)
      × ((r ≡ none) ↔ ((IsDns hdr → ⊥) × (IsHttp hdr → ⊥) × (hdr 9 ≢ 0)))
unfolding dns_rule http_rule default_rule
three_rules_lem hdr b =
    let dns = add_rule_iff hdr ipproto_udp 53 53 100 1 b (omega arith) in
    let http = add_rule_iff hdr ipproto_tcp 80 80 90 2 b (omega arith) in
    let other = add_rule_iff hdr 0 0 65535 1 0 b (omega arith) in
    elim (Bool-cases (rule_matches header_defs dns_rule hdr)) [
      | inl y ↦
          let w = dns.0 y in
          rw
            (best_first header_defs dns_rule (http_rule ∷ default_rule ∷ []) hdr y
              (omega arith, (omega arith, tt)))
            (
              (ground arith, ground arith),
              (ground arith, ground arith),
              (ground arith, ground arith),
            )
      | inr n ↦ elim (Bool-cases (rule_matches header_defs http_rule hdr)) [
        | inl y ↦
            let w = http.0 y in
            rw
              (
                best_skip header_defs dns_rule (http_rule ∷ default_rule ∷ []) hdr n,
                best_first header_defs http_rule (default_rule ∷ []) hdr y (omega arith, tt),
              )
              (
                (ground arith, ground arith),
                (ground arith, ground arith),
                (ground arith, ground arith),
              )
        | inr m ↦ elim (Bool-cases (rule_matches header_defs default_rule hdr)) [
          | inl y ↦
              let w = other.0 y in
              rw
                (
                  best_skip header_defs dns_rule (http_rule ∷ default_rule ∷ []) hdr n,
                  best_skip header_defs http_rule (default_rule ∷ []) hdr m,
                  best_first header_defs default_rule [] hdr y tt,
                )
                (
                  (ground arith, ground arith),
                  (ground arith, ground arith),
                  (ground arith, ground arith),
                )
          | inr o ↦
              let small = be16_at-lt hdr 22 b in
              let zero : hdr 9 ≢ 0 =
                λ z. true≢false (sym (other.1 (z, omega arith, omega arith)) ∙ o) in
              rw
                (
                  best_skip header_defs dns_rule (http_rule ∷ default_rule ∷ []) hdr n,
                  best_skip header_defs http_rule (default_rule ∷ []) hdr m,
                  best_skip header_defs default_rule [] hdr o,
                )
                (
                  (ground arith, ground arith),
                  (ground arith, ground arith),
                  ((λ h. (ground arith, ground arith, zero)), (λ h. refl)),
                )
        ]
      ]
    ]
