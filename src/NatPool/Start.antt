-- ===== src/NatPool/Start.antt =====
-- The start of `main` in nat_project/version5/main.c: the pool that the program gets, and its inbound
-- mappings.
pub mod Ready
use dpdk_for_beginners.Base.{ℕ, Bool, Option, none, some, List, [], ◌∷◌, ◌==◌, if◌then◌else◌}
use dpdk_for_beginners.Dpdk.{HashTable, ByteOrder}
use dpdk_for_beginners.NatPool.State.{InboundEntry, Pool, Resources, nat_pool_create}
use dpdk_for_beginners.Config.{
  first_valid, Text, Malloc, Loaded, null, exited, loaded, outcome, nat_inbound_load_from_file,
  nat_load_from_file,
}

-- "203.0.113.10"
abbrev pub nat_pool_start : Text
nat_pool_start = 50 ∷ 48 ∷ 51 ∷ 46 ∷ 48 ∷ 46 ∷ 49 ∷ 49 ∷ 51 ∷ 46 ∷ 49 ∷ 48 ∷ []

-- MAX_INBOUND_ENTRIES of static_nat.c, the entries of the inbound table
abbrev pub max_inbound_entries : ℕ
max_inbound_entries = 256

abbrev pub nat_pool_range : ℕ
nat_pool_range = 5

-- The range that a file of the pool asks for: that of its first valid line, and 0 without one.
abbrev pub line_range : Option (Text × ℕ) → ℕ
line_range none = 0
line_range (some (start_ip, range)) = range

abbrev pub file_range : (Text → Option (Text × ℕ)) → Option (List Text) → ℕ
file_range sscanf none = 0
file_range sscanf (some lines) = line_range (first_valid sscanf lines)

-- the number of addresses that is asked for
abbrev pub asked : (Text → Option (Text × ℕ)) → ℕ → Option (List Text) → ℕ
asked sscanf option file = if option == 0 then nat_pool_range else file_range sscanf file

module _ (O : HashTable ℕ ℕ) (I : HashTable ℕ InboundEntry) (B : ByteOrder)
    (inet_pton : Text → ℕ → ℕ) (stack : ℕ) where
  -- what `inet_pton` leaves in the variable of `nat_pool_create`, where `stack` lay before
  abbrev pub address : Text → ℕ
  address text = inet_pton text stack

  -- the pool by the `option` that was entered: 0 for the one that is written in the program
  unfoldable pub choose_pool :
      (Text → Option (Text × ℕ)) → Resources O I → ℕ → Option (List Text) → ℕ → Loaded O I
  choose_pool sscanf r option file hz =
      if option == 0
      then outcome O I (nat_pool_create O I B r (address nat_pool_start) nat_pool_range hz)
      else nat_load_from_file address O I B sscanf r file hz

  -- `none` is the exit of the program, also when `pool` is NULL
  unfoldable pub with_inbound :
      (Text → Option (Text × Text)) → Option (List (Malloc × Text)) → Loaded O I → Option (Pool O I)
  with_inbound sscanf inbound null = none
  with_inbound sscanf inbound exited = none
  with_inbound sscanf inbound (loaded p) =
      elim (nat_inbound_load_from_file inet_pton O I sscanf inbound p) [
        | none ↦ none
        | some (q, count) ↦ some q
      ]

  -- the pool with which the main loop starts
  unfoldable pub start_pool :
      (Text → Option (Text × ℕ))
      → (Text → Option (Text × Text))
      → Resources O I
      → ℕ
      → Option (List Text)
      → Option (List (Malloc × Text))
      → ℕ
      → Option (Pool O I)
  unfolding choose_pool with_inbound
  start_pool pool_line inbound_line r option file inbound hz =
      with_inbound inbound_line inbound (choose_pool pool_line r option file hz)
