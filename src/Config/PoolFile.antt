-- ===== src/Config/PoolFile.antt =====
-- The pool that `nat_load_from_file` of nat_project/version5/config.c makes of a file.
use dpdk_for_beginners.Base.{
  ℕ, ◌≡◌, ◌≢◌, refl, sym, ap, inl, inr, Bool, true, Option, none, some, List, arith, ◌==◌,
  Bool-cases, some-inj,
}
use dpdk_for_beginners.Dpdk.{HashTable, ByteOrder}
use dpdk_for_beginners.NatPool.State.{InboundEntry, Pool, Resources, create_with, nat_pool_create}
use dpdk_for_beginners.Config.{
  Text, first_valid, Loaded, null, loaded, outcome, create_from, nat_load_from_file,
}

module _ (O : HashTable ℕ ℕ) (I : HashTable ℕ InboundEntry) (B : ByteOrder)
    (inet_pton : Text → ℕ) where
  loaded-inj : {p q : Pool O I} → ◌≡◌ {A = Loaded O I} (loaded p) (loaded q) → p ≡ q
  loaded-inj e = cc

  pub outcome_loaded :
      (o : Option (Pool O I)) (p : Pool O I) → outcome O I o ≡ loaded p → o ≡ some p
  outcome_loaded none p e = cc
  outcome_loaded (some q) p e = ap some (loaded-inj e)

  pub size-create_with :
      (a b : Bool) (o : Option O.Table) (t : Option I.Table) (s_addr range hz : ℕ) (p : Pool O I)
      → create_with O I B a b o t s_addr range hz ≡ some p
      → p.pool_size ≡ range
  unfolding create_with
  size-create_with true true (some o) (some t) s_addr range hz p e =
      ap (λ (x : Pool O I). x.pool_size) (sym (some-inj e))
  size-create_with _ _ _ _ s_addr range hz p e = cc

  create_from_loaded :
      (r : Resources O I) (o : Option (Text × ℕ)) (hz : ℕ) (p : Pool O I)
      → create_from inet_pton O I B r o hz ≡ loaded p
      → (start_ip : Text) × (range : ℕ) × (o ≡ some (start_ip, range))
        × (range ≢ 0)
        × (p.pool_size ≡ range)
        × (nat_pool_create O I B r (inet_pton start_ip) range hz ≡ some p)
  unfolding create_from nat_pool_create
  create_from_loaded r none hz p e = cc
  create_from_loaded r (some (start_ip, range)) hz p e = elim (Bool-cases (range == 0)) [
    | inl z ↦ absurd (null_loaded (rw z at e))
    | inr n ↦
        let made =
          outcome_loaded (nat_pool_create O I B r (inet_pton start_ip) range hz) p (rw n at e) in
        (start_ip, range, refl, ground arith, created made, made)
  ]
    where
      null_loaded : ◌≡◌ {A = Loaded O I} null (loaded p) → ⊥
      null_loaded x = cc

      created : nat_pool_create O I B r (inet_pton start_ip) range hz ≡ some p → p.pool_size ≡ range
      created x =
          size-create_with r.pool_memory r.entries_memory r.outbound_table r.inbound_table
            (inet_pton start_ip) range hz p x

  -- A pool that a file gives is the one of its first valid line, and has a slot at least: lines that
  -- are blank, comments or not valid are passed over, and a file without a valid line, or with the
  -- range 0 in it, gives none.
  pub nat_load_from_file_lem :
      (sscanf : Text → Option (Text × ℕ)) (r : Resources O I) (lines : List Text) (hz : ℕ)
      (p : Pool O I)
      → nat_load_from_file inet_pton O I B sscanf r (some lines) hz ≡ loaded p
      → (start_ip : Text) × (range : ℕ) × (first_valid sscanf lines ≡ some (start_ip, range))
        × (range ≢ 0)
        × (p.pool_size ≡ range)
        × (nat_pool_create O I B r (inet_pton start_ip) range hz ≡ some p)
  unfolding nat_load_from_file
  nat_load_from_file_lem sscanf r lines hz p e = create_from_loaded r _ hz p e
