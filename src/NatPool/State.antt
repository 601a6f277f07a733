-- ===== src/NatPool/State.antt =====
-- nat_project/version5/source.h and the life of a pool in static_nat.c: its creation, the reset of
-- its slots and the table of inbound mappings.
use dpdk_for_beginners.Base.{
  ℕ, zero, suc, ◌+◌, ◌*◌, ◌%◌, ◌^◌, Bool, true, false, Option, none, some, List, [], ◌∷◌, get_or,
  set, rounds,
}
use dpdk_for_beginners.Dpdk.{HashTable, ByteOrder}

-- `struct nat_pool_entry`
pub record Entry : Type 0 where
  pub private_ip : ℕ
  pub public_ip : ℕ
  pub last_seen_tsc : ℕ
  pub in_use : Bool

-- `struct nat_inbound_entry`
pub record InboundEntry : Type 0 where
  pub public_ip : ℕ
  pub private_ip : ℕ

-- what `calloc` leaves in a slot
abbrev pub blank : Entry
blank = record { private_ip = 0; public_ip = 0; last_seen_tsc = 0; in_use = false }

abbrev pub idle_timeout_sec : ℕ
idle_timeout_sec = 5

abbrev pub table_timeout_sec : ℕ
table_timeout_sec = 10

-- the assignments that free a slot; `public_ip` stays
unfoldable pub clear : Entry → Entry
clear e = record e { in_use = false; private_ip = 0; last_seen_tsc = 0 }

module _ (O : HashTable ℕ ℕ) (I : HashTable ℕ InboundEntry) where
  -- `struct nat_pool`. `table_timer` is the tick at which it is to fire, if it is armed; the periodic
  -- timer is armed from the creation on and is not stopped.
  pub record Pool : Type 0 where
    pub entries : List Entry
    pub pool_start_ip : ℕ
    pub pool_size : ℕ
    pub idle_tsc : ℕ
    pub outbound_map : O.Table
    pub inbound_map : I.Table
    pub table_timer : Option ℕ
    pub started : Bool

  -- `pool->entries[i]`
  abbrev pub entry : Pool → ℕ → Entry
  entry p i = get_or p.entries i blank

  abbrev pub write : Pool → ℕ → Entry → Pool
  write p i e = record p { entries = set p.entries i e }

  unfoldable pub clear_slot : ℕ → Pool → Pool
  clear_slot i p = write p i (clear (entry p i))

  -- the loop that clears every slot, the reset of the outbound table and of `started`
  unfoldable pub clear_all : Pool → Pool
  unfolding clear_slot
  clear_all p =
      let q = rounds clear_slot p.pool_size 0 p in
      record q { outbound_map = O.reset q.outbound_map; started = false }

  -- `nat_pool_reset`, which stops the table timer first
  unfoldable pub nat_pool_reset : Pool → Pool
  unfolding clear_all
  nat_pool_reset p = clear_all (record p { table_timer = none })

  -- `nat_inbound_add`, for the addresses that `inet_pton` made of its texts. `none` is the exit of the
  -- program, when there is no memory or the table refuses the key.
  unfoldable pub nat_inbound_add : Bool → ℕ → ℕ → Pool → Option Pool
  nat_inbound_add false public_ip private_ip p = none
  nat_inbound_add true public_ip private_ip p =
      elim (I.add p.inbound_map public_ip
        record { public_ip = public_ip; private_ip = private_ip }) [
          | none ↦ none
          | some t ↦ some (record p { inbound_map = t })
        ]

  -- What `nat_pool_create` asks of the system: memory for the pool and for its slots, and the tables.
  pub record Resources : Type 0 where
    pub pool_memory : Bool
    pub entries_memory : Bool
    pub outbound_table : Option O.Table
    pub inbound_table : Option I.Table

  module _ (B : ByteOrder) where
    -- the public address of slot `i`, in the byte order of the network
    abbrev pub slot_address : ℕ → ℕ → ℕ
    slot_address start i = B.be32 ((start + i) % 2 ^ 32)

    -- the loop that fills in the addresses, over `left` slots from `i` on
    unfoldable pub fill : ℕ → ℕ → ℕ → List Entry
    fill start zero i = []
    fill start (suc left) i =
        record blank { public_ip = slot_address start i } ∷ fill start left (suc i)

    abbrev pub new_pool : ℕ → ℕ → ℕ → O.Table → I.Table → Pool
    new_pool s_addr range hz o t = record {
      entries = fill (B.be32 s_addr) range 0;
      pool_start_ip = B.be32 s_addr;
      pool_size = range;
      idle_tsc = (hz * idle_timeout_sec) % 2 ^ 64;
      outbound_map = o;
      inbound_map = t;
      table_timer = none;
      started = false;
    }

    -- the early exits of `nat_pool_create`
    unfoldable pub create_with :
        Bool → Bool → Option O.Table → Option I.Table → ℕ → ℕ → ℕ → Option Pool
    unfolding fill
    create_with true true (some o) (some t) s_addr range hz = some (new_pool s_addr range hz o t)
    create_with _ _ _ _ s_addr range hz = none

    -- `nat_pool_create`, for the address `s_addr` that `inet_pton` made of `start_ip`. `none` is the
    -- exit of the program.
    unfoldable pub nat_pool_create : Resources → ℕ → ℕ → ℕ → Option Pool
    unfolding create_with
    nat_pool_create r = create_with r.pool_memory r.entries_memory r.outbound_table r.inbound_table
