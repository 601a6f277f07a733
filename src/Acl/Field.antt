-- ===== src/Acl/Field.antt =====
-- `rte_acl.h`, which is not part of the repository: field definitions, rules, and the documented
-- meaning of a rule, on the bytes of the data that is classified.
use Prim.Native.Nat.{bit_and}
use dpdk_for_beginners.Base.{
  ℕ, all_below, all_below-true, ◌+◌, ◌-◌, ◌*◌, ◌/◌, ◌^◌, ◌<◌, ◌≡◌, refl, arith, ==_iff, All, ap,
  some-inj, Option-cases, Bool-cases, inl, inr, Bool, true, false, Option, none, some, List, [],
  ◌∷◌, ltb, leb, ◌==◌, ◌&&◌, if◌then◌else◌, get_or,
}
use dpdk_for_beginners.Frame.{Memory, be16_at, be32_at}

pub data FieldType : Type 0 where
  bitmask mask range : FieldType

-- `rte_acl_field_def`
pub record FieldDef : Type 0 where
  pub kind : FieldType
  pub size : ℕ
  pub field_index : ℕ
  pub input_index : ℕ
  pub offset : ℕ

-- `rte_acl_field`
pub record AclField : Type 0 where
  pub value : ℕ
  pub mask_range : ℕ

abbrev pub no_field : AclField
no_field = record { value = 0; mask_range = 0 }

-- a rule of RTE_ACL_RULE_DEF
pub record Rule : Type 0 where
  pub priority : ℕ
  pub category_mask : ℕ
  pub userdata : ℕ
  pub field : List AclField

-- The library takes the bytes of a field for a number in network byte order.
abbrev pub input : Memory → ℕ → ℕ → ℕ
input bytes size offset =
    if size == 1
    then bytes offset
    else if size == 2
    then be16_at bytes offset
    else be32_at bytes offset

-- For a BITMASK the bits under the mask agree, for a MASK the first `mask_range` bits, and a RANGE
-- goes from `value` to `mask_range`.
abbrev pub field_matches : FieldType → ℕ → AclField → ℕ → Bool
field_matches bitmask size f x = bit_and x f.mask_range == bit_and f.value f.mask_range
field_matches mask size f x =
    x / 2 ^ (8 * size - f.mask_range) == f.value / 2 ^ (8 * size - f.mask_range)
field_matches range size f x = leb f.value x && leb x f.mask_range

-- All the fields match.
abbrev pub rule_matches : List FieldDef → Rule → Memory → Bool
rule_matches [] r bytes = true
rule_matches (d ∷ ds) r bytes =
    field_matches d.kind d.size (get_or r.field d.field_index no_field)
      (input bytes d.size d.offset)
    && rule_matches ds r bytes

-- of the rules that match, one of the highest priority
abbrev higher : Rule → Option Rule → Rule
higher r none = r
higher r (some s) = if ltb r.priority s.priority then s else r

abbrev pub best : List FieldDef → List Rule → Memory → Option Rule
best defs [] bytes = none
best defs (r ∷ rs) bytes =
    let rest = best defs rs bytes in
    if rule_matches defs r bytes then some (higher r rest) else rest

-- its user data, or 0 where no rule matches
abbrev pub userdata_of : Option Rule → ℕ
userdata_of none = 0
userdata_of (some r) = r.userdata

-- What a single rule gives.
pub one_rule :
    (defs : List FieldDef) (r : Rule) (bytes : Memory)
    → userdata_of (best defs (r ∷ []) bytes) ≡ (if rule_matches defs r bytes then r.userdata else 0)
one_rule defs r bytes = elim (Bool-cases (rule_matches defs r bytes)) [
  | inl y ↦ rw y refl
  | inr n ↦ rw n refl
]

-- A rule that does not match plays no part.
pub best_skip :
    (defs : List FieldDef) (r : Rule) (rs : List Rule) (bytes : Memory)
    → rule_matches defs r bytes ≡ false
    → best defs (r ∷ rs) bytes ≡ best defs rs bytes
best_skip defs r rs bytes n = rw n refl

higher-All :
    (P : Rule → Type 0) (r : Rule) (o : Option Rule)
    → P r
    → ((s : Rule) → o ≡ some s → P s)
    → P (higher r o)
higher-All P r none p h = p
higher-All P r (some s) p h = elim (Bool-cases (ltb r.priority s.priority)) [
  | inl y ↦ rw y (h s refl)
  | inr n ↦ rw n p
]

best-All :
    (P : Rule → Type 0) (defs : List FieldDef) (rs : List Rule) (bytes : Memory) (s : Rule)
    → All P rs
    → best defs rs bytes ≡ some s
    → P s
best-All P defs [] bytes s h e = cc
best-All P defs (r ∷ rs) bytes s h e = elim (Bool-cases (rule_matches defs r bytes)) [
  | inl y ↦
      let q : higher r (best defs rs bytes) ≡ s = some-inj (rw y at e) in
      rw (← q) (higher-All P r (best defs rs bytes) h.0 (λ t d. best-All P defs rs bytes t h.1 d))
  | inr n ↦ best-All P defs rs bytes s h.1 (rw n at e)
]

-- A rule that matches is chosen before those of lower priority behind it.
pub best_first :
    (defs : List FieldDef) (r : Rule) (rs : List Rule) (bytes : Memory)
    → rule_matches defs r bytes ≡ true
    → All (λ s. s.priority < r.priority) rs
    → best defs (r ∷ rs) bytes ≡ some r
best_first defs r rs bytes y h = elim (Option-cases (best defs rs bytes)) [
  | inl e ↦ rw (y, e) refl
  | inr (s, e) ↦
      let lower = best-All (λ s. s.priority < r.priority) defs rs bytes s h e in
      rw (y, e) (ap some (ground arith))
]

-- "All subsequent fields has to be grouped into sets of 4 consecutive bytes": the first field has one
-- byte, and each of the inputs behind it is a field of four bytes or two neighbours of two bytes.
abbrev words : List FieldDef → Bool
words [] = true
words (d ∷ []) = d.size == 4
words (d ∷ e ∷ ds) =
    let one = words (e ∷ ds) in
    let two = words ds in
    if d.size == 4
    then one
    else (d.size == 2)
      && (e.size == 2)
      && (e.input_index == d.input_index)
      && (e.offset == d.offset + 2)
      && two

abbrev pub grouped : List FieldDef → Bool
grouped [] = false
grouped (d ∷ ds) = (d.size == 1) && words ds

-- no two rules of the same priority
abbrev apart : ℕ → List Rule → Bool
apart p [] = true
apart p (r ∷ rs) = (if p == r.priority then false else true) && apart p rs

abbrev pub ranked : List Rule → Bool
ranked [] = true
ranked (r ∷ rs) = apart r.priority rs && ranked rs

-- A context: `build` stands for `rte_acl_create`, `rte_acl_add_rules` and `rte_acl_build`, where
-- `none` is a failure, after which the programs exit. `classify` is `rte_acl_classify` of one packet
-- in one category.
pub record Acl : Type 1 where
  pub Ctx : Type 0
  pub build : List FieldDef → List Rule → Option Ctx
  pub classify : Ctx → Memory → ℕ
  pub classify-build :
      (defs : List FieldDef) (rules : List Rule) (ctx : Ctx) (bytes : Memory)
      → grouped defs ≡ true
      → ranked rules ≡ true
      → build defs rules ≡ some ctx
      → classify ctx bytes ≡ userdata_of (best defs rules bytes)

low_byte : all_below 256 (λ x. bit_and x 0xFF == x) ≡ true
low_byte = refl

-- A byte is kept by the mask of all its bits.
pub bit_and_ones : (x : ℕ) → x < 256 → bit_and x 0xFF ≡ x
bit_and_ones x h = (==_iff _ x).0 (all_below-true 256 (λ y. bit_and y 0xFF == y) x low_byte h)
