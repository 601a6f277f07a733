-- ===== src/Napt/State.antt =====
-- nat_project/version6/source.h, and the life of an entry in static_nat.c: ports, creation, refresh
-- and expiry.
use dpdk_for_beginners.Base.{
  ℕ, ◌+◌, ◌*◌, ◌%◌, ◌^◌, Option, none, some, leb, ◌==◌, if◌then◌else◌, ℕ_discrete,
}
use dpdk_for_beginners.Dpdk.{HashTable, ByteOrder, add_quietly}

abbrev pub nat_timeout_sec : ℕ
nat_timeout_sec = 30

abbrev pub max_port : ℕ
max_port = 65535

abbrev pub min_port : ℕ
min_port = 1024

-- `struct nat_key`
pub record NatKey : Type 0 where
  pub src_ip : ℕ
  pub dst_ip : ℕ
  pub src_port : ℕ
  pub dst_port : ℕ
  pub proto : ℕ

pub NatKey-discrete : Discrete NatKey
NatKey-discrete = hlevel ℕ_discrete

-- `struct nat_entry`; `timer` is the tick at which its timer is to fire.
pub record NatEntry : Type 0 where
  pub fwd_key : NatKey
  pub rev_key : NatKey
  pub private_ip : ℕ
  pub private_port : ℕ
  pub public_ip : ℕ
  pub public_port : ℕ
  pub remote_ip : ℕ
  pub remote_port : ℕ
  pub proto : ℕ
  pub timer : ℕ

-- The memory that `rte_malloc` hands out: what lies at an address, if it is allocated.
abbrev pub Heap : Type 0
Heap = ℕ → Option NatEntry

abbrev pub update : Heap → ℕ → Option NatEntry → Heap
update h a c b = if a == b then c else h b

-- the static variables of static_nat.c; the tables hold addresses of entries
pub record Nat (H : HashTable NatKey ℕ) : Type 0 where
  pub heap : Heap
  pub fwd_hash : H.Table
  pub rev_hash : H.Table
  pub public_ip : ℕ
  pub current_port : ℕ

-- `current_port` after a call of `allocate_port`
unfoldable pub next_port : ℕ → ℕ
next_port c = let d = (c + 1) % 2 ^ 16 in if leb max_port d then min_port else d

-- the tick at which a timer that is set at `now` fires
unfoldable pub deadline : ℕ → ℕ → ℕ
deadline hz now = (now + (nat_timeout_sec * hz) % 2 ^ 64) % 2 ^ 64

module _ (H : HashTable NatKey ℕ) where
  -- `nat_init`, from what `rte_hash_create` returned; `none` is -1
  unfoldable pub nat_init : Option H.Table → Option H.Table → ℕ → Option (Nat H)
  nat_init (some f) (some r) public_ip = some (record {
    heap = λ a. none;
    fwd_hash = f;
    rev_hash = r;
    public_ip = public_ip;
    current_port = min_port;
  })
  nat_init _ _ public_ip = none

  -- `nat_entry_expire` on the entry `e` at `a`: both keys go, and the memory is freed
  unfoldable pub nat_entry_expire : ℕ → NatEntry → Nat H → Nat H
  nat_entry_expire a e n = record n {
    fwd_hash = H.del n.fwd_hash e.fwd_key;
    rev_hash = H.del n.rev_hash e.rev_key;
    heap = update n.heap a none;
  }

  -- `refresh` on the entry `e` at `a`
  unfoldable pub refresh : ℕ → ℕ → ℕ → NatEntry → Nat H → Nat H
  refresh hz now a e n = record n {
    heap = update n.heap a (some (record e { timer = deadline hz now }));
  }

  module _ (B : ByteOrder) (hz : ℕ) where
    -- the entry that `create_entry` fills in for a flow, when `current_port` has become `port`
    unfoldable pub new_entry : ℕ → ℕ → ℕ → NatKey → NatEntry
    unfolding deadline
    new_entry now public_ip port flow = record {
      fwd_key = flow;
      rev_key = record {
        src_ip = flow.dst_ip;
        dst_ip = public_ip;
        src_port = flow.dst_port;
        dst_port = B.be16 port;
        proto = flow.proto;
      };
      private_ip = flow.src_ip;
      private_port = flow.src_port;
      public_ip = public_ip;
      public_port = B.be16 port;
      remote_ip = flow.dst_ip;
      remote_port = flow.dst_port;
      proto = flow.proto;
      timer = deadline hz now;
    }

    -- `create_entry`, when `rte_malloc` returned the address `a`; the results of the insertions are
    -- not looked at
    unfoldable pub create_entry : ℕ → ℕ → NatKey → Nat H → Nat H
    unfolding new_entry next_port
    create_entry now a flow n =
        let port = next_port n.current_port in
        let e = new_entry now n.public_ip port flow in
        record n {
          current_port = port;
          heap = update n.heap a (some e);
          fwd_hash = add_quietly H n.fwd_hash e.fwd_key a;
          rev_hash = add_quietly H n.rev_hash e.rev_key a;
        }
