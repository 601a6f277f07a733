-- ===== src/Dpdk.antt =====
-- What the programs take from DPDK and the C library, which are not part of the repository: each
-- record holds the functions that the code calls and the documented behaviour that it relies on.
pub mod Sample
pub mod Table
pub mod Capacity
use dpdk_for_beginners.Base.{ℕ, ◌^◌, ◌<◌, ◌≡◌, ◌≢◌, Option, none, some}

-- `rte_hash` with data, as `rte_hash.h` documents it. `add` is `rte_hash_add_key_data`; `none` is
-- its negative result, after which the caller still has the table that it had.
pub record HashTable (K V : Type 0) : Type 1 where
  pub Table : Type 0
  pub lookup : Table → K → Option V
  pub add : Table → K → V → Option Table
  pub del : Table → K → Table
  pub reset : Table → Table
  pub lookup-add_self :
      (t : Table) (k : K) (v : V) (u : Table) → add t k v ≡ some u → lookup u k ≡ some v
  pub lookup-add_ne :
      (t : Table) (k : K) (v : V) (u : Table) (j : K)
      → add t k v ≡ some u
      → k ≢ j
      → lookup u j ≡ lookup t j
  pub lookup-del_self : (t : Table) (k : K) → lookup (del t k) k ≡ none
  pub lookup-del_ne : (t : Table) (k j : K) → k ≢ j → lookup (del t k) j ≡ lookup t j
  pub lookup-reset : (t : Table) (k : K) → lookup (reset t) k ≡ none

-- `rte_byteorder.h`: between the byte order of the processor and that of the network. The same
-- function goes both ways.
pub record ByteOrder : Type 0 where
  pub be16 : ℕ → ℕ
  pub be32 : ℕ → ℕ
  pub be16-lt : (x : ℕ) → x < 2 ^ 16 → be16 x < 2 ^ 16
  pub be32-lt : (x : ℕ) → x < 2 ^ 32 → be32 x < 2 ^ 32
  pub be16-be16 : (x : ℕ) → x < 2 ^ 16 → be16 (be16 x) ≡ x
  pub be32-be32 : (x : ℕ) → x < 2 ^ 32 → be32 (be32 x) ≡ x

module _ {K V : Type 0} (H : HashTable K V) where
  open H use {Table, add}

  abbrev or_same : Table → Option Table → Table
  or_same t none = t
  or_same t (some u) = u

  -- A call of `rte_hash_add_key_data` whose result the code ignores.
  abbrev pub add_quietly : Table → K → V → Table
  add_quietly t k v = or_same t (add t k v)
