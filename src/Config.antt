-- ===== src/Config.antt =====
-- The files of configuration of nat_project: the loops over their lines in version3/config.c,
-- version5/config.c and version5/static_nat.c. A line is what `fgets` returns. `sscanf` and
-- `inet_pton` are parameters.
pub mod Lines
pub mod Mappings
pub mod PoolFile
pub mod Manual
use dpdk_for_beginners.Base.{
  ℕ, ◌+◌, Bool, true, false, Option, none, some, List, [], ◌∷◌, ◌==◌, ◌||◌, if◌then◌else◌,
}
use dpdk_for_beginners.Dpdk.{HashTable, ByteOrder}
use dpdk_for_beginners.NatPool.State.{
  InboundEntry, Pool, Resources, nat_inbound_add, nat_pool_create,
}

abbrev pub Text : Type 0
Text = List ℕ

-- What `malloc` gives for a structure of two addresses: no memory, or memory with what lies in the two fields.
abbrev pub Malloc : Type 0
Malloc = Option (ℕ × ℕ)

-- a blank line or a comment
unfoldable pub is_skipped : Text → Bool
is_skipped [] = false
is_skipped (c ∷ cs) = c == 10 || c == 35

-- what `sscanf` makes of a line, if it is neither blank nor a comment
abbrev pub read_line : {A : Type 0} → (Text → Option A) → Text → Option A
read_line sscanf line = if is_skipped line then none else sscanf line

-- `struct nat_entry` of version3/source.h
pub record StaticEntry : Type 0 where
  pub private_ip : ℕ
  pub public_ip : ℕ

module _ {S : Type 0} (sscanf : Text → Option (Text × Text))
    (add : Malloc → Text → Text → S → Option S) where
  abbrev counted : ℕ → Option S → Option (S × ℕ)
  counted count none = none
  counted count (some s) = some (s, count + 1)

  -- the body of the loop, on what the line says, and `count`; `none` is the exit of the program in
  -- `add`
  unfoldable pub take_line : Malloc → Option (Text × Text) → S → ℕ → Option (S × ℕ)
  take_line memory none s count = some (s, count)
  take_line memory (some (a, b)) s count = counted count (add memory a b s)

  -- the loop over the lines, each with what `malloc` gives
  unfoldable pub load_lines : List (Malloc × Text) → S → ℕ → Option (S × ℕ)
  unfolding take_line
  load_lines [] s count = some (s, count)
  load_lines ((memory, line) ∷ lines) s count =
      elim (take_line memory (read_line sscanf line) s count) [
        | none ↦ none
        | some (r, n) ↦ load_lines lines r n
      ]

  -- the whole function; a file that cannot be opened is no list
  unfoldable pub load_file : Option (List (Malloc × Text)) → S → Option (S × ℕ)
  unfolding load_lines
  load_file none s = some (s, 0)
  load_file (some lines) s = load_lines lines s 0

-- the loop of `nat_load_from_file` of version5/config.c: `start_ip` and `range` of the first valid
-- line
unfoldable pub first_valid : (Text → Option (Text × ℕ)) → List Text → Option (Text × ℕ)
first_valid sscanf [] = none
first_valid sscanf (line ∷ lines) = elim (read_line sscanf line) [
  | none ↦ first_valid sscanf lines
  | some pool ↦ some pool
]

module _ (O : HashTable ℕ ℕ) (I : HashTable ℕ InboundEntry) where
  -- What `nat_load_from_file` returns: NULL, or the pool, if the program does not exit on the way.
  pub data Loaded : Type 0 where
    null : Loaded
    exited : Loaded
    loaded : Pool O I → Loaded

  abbrev pub outcome : Option (Pool O I) → Loaded
  outcome none = exited
  outcome (some p) = loaded p

-- `inet_pton(AF_INET, text, &x)`, whose result no program looks at: what `x` holds after the call, by what it
-- held before.
module _ (inet_pton : Text → ℕ → ℕ) where
  abbrev pub static_entry : ℕ × ℕ → Text → Text → StaticEntry
  static_entry (x, y) private_ip public_ip = record {
    private_ip = inet_pton private_ip x;
    public_ip = inet_pton public_ip y;
  }

  -- `nat_add_mapping` of version3/static_nat.c
  unfoldable pub nat_add_mapping :
      (H : HashTable ℕ StaticEntry) → Malloc → Text → Text → H.Table → Option H.Table
  nat_add_mapping H none private_ip public_ip t = none
  nat_add_mapping H (some (x, y)) private_ip public_ip t =
      H.add t (inet_pton private_ip x) (static_entry (x, y) private_ip public_ip)

  -- `nat_load_from_file` of version3/config.c
  unfoldable pub nat_load_mappings :
      (H : HashTable ℕ StaticEntry)
      → (Text → Option (Text × Text))
      → Option (List (Malloc × Text))
      → H.Table
      → Option (H.Table × ℕ)
  unfolding load_file nat_add_mapping
  nat_load_mappings H sscanf file t = load_file sscanf (nat_add_mapping H) file t

  module _ (O : HashTable ℕ ℕ) (I : HashTable ℕ InboundEntry) where
    abbrev pub inbound_add : Malloc → Text → Text → Pool O I → Option (Pool O I)
    inbound_add none public_ip private_ip p = none
    inbound_add (some (x, y)) public_ip private_ip p =
        nat_inbound_add O I true (inet_pton public_ip x) (inet_pton private_ip y) p

    -- `nat_inbound_load_from_file` of version5/static_nat.c
    unfoldable pub nat_inbound_load_from_file :
        (Text → Option (Text × Text))
        → Option (List (Malloc × Text))
        → Pool O I
        → Option (Pool O I × ℕ)
    unfolding load_file
    nat_inbound_load_from_file sscanf file p = load_file sscanf inbound_add file p

-- `address` is what `inet_pton` leaves in the variable of `nat_pool_create` for a text.
module _ (address : Text → ℕ) where
  module _ (O : HashTable ℕ ℕ) (I : HashTable ℕ InboundEntry) where
    -- the end of `nat_load_from_file`; `range` is 0 where there was no valid line
    unfoldable pub create_from : ByteOrder → Resources O I → Option (Text × ℕ) → ℕ → Loaded O I
    create_from B r none hz = null
    create_from B r (some (start_ip, range)) hz =
        if range == 0
        then null
        else outcome O I (nat_pool_create O I B r (address start_ip) range hz)

    -- `nat_load_from_file` of version5/config.c
    unfoldable pub nat_load_from_file :
        ByteOrder → (Text → Option (Text × ℕ)) → Resources O I → Option (List Text) → ℕ → Loaded O I
    unfolding first_valid create_from
    nat_load_from_file B sscanf r none hz = null
    nat_load_from_file B sscanf r (some lines) hz = create_from B r (first_valid sscanf lines) hz
