-- ===== src/Lease/Start.antt =====
-- The start of `main` in nat_project/version4/main.c, and `nat_load_from_file` of its config.c, which reads a
-- file as that of version5 does. Unlike version5, `main` does not test the pool.
use dpdk_for_beginners.Base.{
  ℕ, ◌≡◌, ◌≢◌, ◌⊎◌, refl, inl, inr, Bool, true, Option, none, some, List, [], ◌∷◌, arith, ◌==◌,
  ==_ne, ℕ_discrete, Bool-cases, if◌then◌else◌,
}
use dpdk_for_beginners.Dpdk.{HashTable, ByteOrder}
use dpdk_for_beginners.Packet.{Packet, Checksums}
use dpdk_for_beginners.NatPool.State.{InboundEntry}
use dpdk_for_beginners.NatPool.Sound.{IsSound}
use dpdk_for_beginners.NatPool.Start.{nat_pool_range, line_range, file_range, asked}
use dpdk_for_beginners.Config.{Text, first_valid}
use dpdk_for_beginners.Lease.{Lease, lease_create, lease_all}
use dpdk_for_beginners.Lease.Pass.{as_pool}
use dpdk_for_beginners.Lease.Refine.{lease_run-IsSound}

-- "203.0.113.1"
abbrev pub nat_pool_start : Text
nat_pool_start = 50 ∷ 48 ∷ 51 ∷ 46 ∷ 48 ∷ 46 ∷ 49 ∷ 49 ∷ 51 ∷ 46 ∷ 49 ∷ []

-- `address` is what `inet_pton` leaves in the variable of `lease_create` for a text.
module _ (O : HashTable ℕ ℕ) (B : ByteOrder) (address : Text → ℕ) where
  -- what `pool` is, if the program does not exit
  pub data Opened : Type 0 where
    null : Opened
    exited : Opened
    opened : Lease O → Opened

  abbrev opening : Option (Lease O) → Opened
  opening none = exited
  opening (some p) = opened p

  module _ (pool_memory entries_memory : Bool) (table : Option O.Table)
      (sscanf : Text → Option (Text × ℕ)) (hz : ℕ) where
    -- the end of `nat_load_from_file`
    unfoldable pub lease_from : Option (Text × ℕ) → Opened
    lease_from none = null
    lease_from (some (start_ip, range)) =
        if range == 0
        then null
        else opening (lease_create O B pool_memory entries_memory table (address start_ip) range hz)

    unfoldable pub lease_load_from_file : Option (List Text) → Opened
    unfolding lease_from
    lease_load_from_file none = null
    lease_load_from_file (some lines) = lease_from (first_valid sscanf lines)

    -- the pool by the `option` that was entered
    unfoldable pub choose_lease : ℕ → Option (List Text) → Opened
    unfolding lease_load_from_file
    choose_lease option file =
        if option == 1
        then lease_load_from_file file
        else if option == 0
        then opening (
            lease_create O B pool_memory entries_memory table (address nat_pool_start)
              nat_pool_range hz)
        else lease_load_from_file file

  module _ (C : Checksums) (I : HashTable ℕ InboundEntry) (o : O.Table) (t : I.Table)
      (empty : (k : ℕ) → O.lookup o k ≡ none) (no_statics : (k : ℕ) → I.lookup t k ≡ none) where
    -- `pool` is NULL where no address is asked for, and otherwise a pool of that size which is sound, seen as
    -- one of version5 without static mappings, after any packets.
    abbrev pub Opens : ℕ → Opened → Type 0
    Opens n pool =
        ((n ≡ 0) × (pool ≡ null))
        ⊎ ((n ≢ 0)
            × ((p : Lease O) × (pool ≡ opened p)
                × (p.pool_size ≡ n)
                × ((ms : List (ℕ × ℕ × Packet))
                    → IsSound O I B (as_pool O I t (lease_all O B C p ms).0))))

    lease_create-Opens :
        (s_addr range hz : ℕ)
        → range ≢ 0
        → Opens range (opening (lease_create O B true true (some o) s_addr range hz))
    unfolding lease_create
    lease_create-Opens s_addr range hz n = inr (
      n,
      (
        _,
        refl,
        refl,
        λ ms. lease_run-IsSound O I B C t o s_addr range hz _ ms empty no_statics refl,
      ),
    )

    lease_from-Opens :
        (sscanf : Text → Option (Text × ℕ)) (hz : ℕ) (x : Option (Text × ℕ))
        → Opens (line_range x) (lease_from true true (some o) sscanf hz x)
    unfolding lease_from
    lease_from-Opens sscanf hz none = inl (refl, refl)
    lease_from-Opens sscanf hz (some (start_ip, range)) = elim (ℕ_discrete range 0) [
      | yes z ↦ inl (z, rw z refl)
      | no n ↦ rw (==_ne range 0 n) (lease_create-Opens (address start_ip) range hz n)
    ]

    lease_load_from_file-Opens :
        (sscanf : Text → Option (Text × ℕ)) (hz : ℕ) (file : Option (List Text))
        → Opens (file_range sscanf file) (lease_load_from_file true true (some o) sscanf hz file)
    unfolding lease_load_from_file
    lease_load_from_file-Opens sscanf hz none = inl (refl, refl)
    lease_load_from_file-Opens sscanf hz (some lines) =
        lease_from-Opens sscanf hz (first_valid sscanf lines)

    -- Where the system refuses nothing and the table is empty, `main` starts its loop without a pool exactly if
    -- a file was asked for that gives no range but 0. Otherwise the pool has the size that was asked for, and is
    -- sound after any packets.
    pub choose_lease_lem :
        (sscanf : Text → Option (Text × ℕ)) (option hz : ℕ) (file : Option (List Text))
        → Opens (asked sscanf option file) (choose_lease true true (some o) sscanf hz option file)
    unfolding choose_lease
    choose_lease_lem sscanf option hz file =
        let from = lease_load_from_file-Opens sscanf hz file in
        elim (Bool-cases (option == 0)) [
          | inl z ↦
              let zero_option : option ≡ 0 = ground arith in
              rw zero_option (
                lease_create-Opens (address nat_pool_start) nat_pool_range hz
                  (λ q. omega (arith, q)))
          | inr n ↦ elim (Bool-cases (option == 1)) [
            | inl one ↦ rw (n, one) from
            | inr other ↦ rw (n, other) from
          ]
        ]
