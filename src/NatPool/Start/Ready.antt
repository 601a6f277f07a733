-- ===== src/NatPool/Start/Ready.antt =====
-- The main loop of nat_project/version5 starts with a sound pool of the size that was asked for.
use dpdk_for_beginners.Base.{
  ℕ, ◌≤◌, length, sym, ◌∙◌, ◌≡◌, ◌≢◌, ◌⊎◌, All, refl, subst, inl, inr, true, Option, none, some,
  List, [], arith, ◌==◌, ==_ne, ℕ_discrete, Bool-cases, Option-cases, some-inj,
}
use dpdk_for_beginners.Dpdk.{HashTable, ByteOrder}
use dpdk_for_beginners.Packet.{Checksums}
use dpdk_for_beginners.NatPool.State.{
  InboundEntry, Pool, Resources, create_with, nat_pool_create, new_pool, nat_inbound_add,
}
use dpdk_for_beginners.NatPool.Main.{Round, main_loop}
use dpdk_for_beginners.NatPool.Sound.{IsSound}
use dpdk_for_beginners.NatPool.Sound.Loop.{main_loop-IsSound, run-IsSound}
use dpdk_for_beginners.Config.Lines.{nothing_loaded, LineOk, load_lines_keeps, load_lines_total}
use dpdk_for_beginners.Dpdk.Capacity.{In, Known, HasEntries, KeysIn, add-ne-none, KeysIn-add}
use dpdk_for_beginners.Config.PoolFile.{size-create_with, outcome_loaded, nat_load_from_file_lem}
use dpdk_for_beginners.Config.{
  first_valid, create_from, Text, Malloc, read_line, Loaded, null, exited, loaded, load_lines,
  load_file, inbound_add, nat_inbound_load_from_file, nat_load_from_file,
}
use dpdk_for_beginners.NatPool.Start.{
  nat_pool_start, nat_pool_range, line_range, file_range, asked, choose_pool, with_inbound,
  start_pool, max_inbound_entries,
}

module _ (O : HashTable ℕ ℕ) (I : HashTable ℕ InboundEntry) (B : ByteOrder)
    (inet_pton : Text → ℕ → ℕ) (stack : ℕ) where
  abbrev addr : Text → ℕ
  addr text = inet_pton text stack

  -- sound, and of that size
  abbrev Ready : ℕ → Pool O I → Type 0
  Ready n p = IsSound O I B p × (p.pool_size ≡ n)

  nat_inbound_add-Ready :
      (n a b : ℕ) (p q : Pool O I) → nat_inbound_add O I true a b p ≡ some q → Ready n p → Ready n q
  unfolding nat_inbound_add
  nat_inbound_add-Ready n a b p q e v =
      elim (Option-cases (I.add p.inbound_map a record { public_ip = a; private_ip = b })) [
        | inl none_added ↦ absurd (refuse (rw (nat_inbound_add, none_added) at e))
        | inr (t, y) ↦ subst (Ready n) (some-inj (rw (nat_inbound_add, y) at e)) (put t)
      ]
    where
      refuse : none ≡ some q → ⊥
      refuse x = cc

      put : (t : I.Table) → Ready n (record p { inbound_map = t })
      put t = (
        record {
          laid_out = record { sized = v.0.laid_out.sized; addressed = v.0.laid_out.addressed };
          backed = v.0.backed;
        },
        v.1,
      )

  inbound_add-Ready :
      (n : ℕ) (memory : Malloc) (a b : Text) (p q : Pool O I)
      → inbound_add inet_pton O I memory a b p ≡ some q
      → Ready n p
      → Ready n q
  inbound_add-Ready n none a b p q e v = cc
  inbound_add-Ready n (some (x, y)) a b p q e v =
      nat_inbound_add-Ready n (inet_pton a x) (inet_pton b y) p q e v

  module _ (C : Checksums) (pool_line : Text → Option (Text × ℕ))
      (inbound_line : Text → Option (Text × Text)) where
    created-Ready :
        (r : Resources O I) (s_addr range hz : ℕ) (p : Pool O I)
        → ((u : O.Table) (k : ℕ) → r.outbound_table ≡ some u → O.lookup u k ≡ none)
        → nat_pool_create O I B r s_addr range hz ≡ some p
        → Ready range p
    unfolding main_loop nat_pool_create
    created-Ready r s_addr range hz p empty e = (
      run-IsSound O I B C r s_addr range hz [] p empty e,
      size-create_with O I B addr r.pool_memory r.entries_memory r.outbound_table r.inbound_table
          s_addr range hz p e,
    )

    choose_pool-Ready :
        (r : Resources O I) (option : ℕ) (file : Option (List Text)) (hz : ℕ) (p : Pool O I)
        → ((u : O.Table) (k : ℕ) → r.outbound_table ≡ some u → O.lookup u k ≡ none)
        → choose_pool O I B inet_pton stack pool_line r option file hz ≡ loaded p
        → Ready (asked pool_line option file) p
    unfolding choose_pool nat_load_from_file
    choose_pool-Ready r option file hz p empty e = elim (Bool-cases (option == 0)) [
      | inl z ↦ rw z (
          created-Ready r _ nat_pool_range hz p empty
            (outcome_loaded O I B addr _ p (rw (choose_pool, z) at e)))
      | inr n ↦ rw n (from_file file (rw (choose_pool, n) at e))
    ]
      where
        from_file :
            (f : Option (List Text))
            → nat_load_from_file addr O I B pool_line r f hz ≡ loaded p
            → Ready (file_range pool_line f) p
        from_file none x = cc
        from_file (some lines) x =
            let (start_ip, range, valid, some_slots, size, made) =
              nat_load_from_file_lem O I B addr pool_line r lines hz p x in
            rw valid (created-Ready r (addr start_ip) range hz p empty made)

    with_inbound-Ready :
        (n : ℕ) (inbound : Option (List (Malloc × Text))) (c : Loaded O I) (p : Pool O I)
        → ((q : Pool O I) → c ≡ loaded q → Ready n q)
        → with_inbound O I B inet_pton stack inbound_line inbound c ≡ some p
        → Ready n p
    unfolding with_inbound nat_inbound_load_from_file load_file
    with_inbound-Ready n inbound null p ready e = cc
    with_inbound-Ready n inbound exited p ready e = cc
    with_inbound-Ready n none (loaded q) p ready e = subst (Ready n) (some-inj e) (ready q refl)
    with_inbound-Ready n (some lines) (loaded q) p ready e =
        elim (Option-cases (load_lines inbound_line (inbound_add inet_pton O I) lines q 0)) [
          | inl n ↦
              absurd
                (nothing_loaded (rw (with_inbound, nat_inbound_load_from_file, load_file, n) at e))
          | inr (y, t) ↦
              subst (Ready n)
                (some-inj (rw (with_inbound, nat_inbound_load_from_file, load_file, t) at e))
                (load_lines_keeps (Ready n) inbound_line (inbound_add inet_pton O I)
                  (inbound_add-Ready n) lines q 0 y t (ready q refl))
        ]

    -- The pool with which the main loop starts is sound after any rounds, and has the size that was asked for,
    -- whatever the files hold and whatever the system refuses.
    pub start_pool-IsSound :
        (r : Resources O I) (option hz : ℕ) (file : Option (List Text))
        (inbound : Option (List (Malloc × Text))) (rs : List Round) (p : Pool O I)
        → ((u : O.Table) (k : ℕ) → r.outbound_table ≡ some u → O.lookup u k ≡ none)
        → start_pool O I B inet_pton stack pool_line inbound_line r option file inbound hz ≡ some p
        → IsSound O I B (main_loop O I B C hz rs p) × (p.pool_size ≡ asked pool_line option file)
    unfolding start_pool
    start_pool-IsSound r option hz file inbound rs p empty e =
        let ready =
          with_inbound-Ready (asked pool_line option file) inbound
            (choose_pool O I B inet_pton stack pool_line r option file hz) p
            (λ q c. choose_pool-Ready r option file hz q empty c) e in
        (main_loop-IsSound O I B C hz rs p ready.0, ready.1)

    -- What `main` gets to where the system refuses nothing.
    abbrev pub Starts : ℕ → (hz : ℕ) → Option (Pool O I) → Type 0
    Starts n hz start =
        ((n ≡ 0) × (start ≡ none))
        ⊎ ((n ≢ 0)
            × ((p : Pool O I) × (start ≡ some p)
                × (p.pool_size ≡ n)
                × ((rs : List Round) → IsSound O I B (main_loop O I B C hz rs p))))

    module _ (o : O.Table) (t : I.Table) where
      abbrev pub all_resources : Resources O I
      all_resources = record {
        pool_memory = true;
        entries_memory = true;
        outbound_table = some o;
        inbound_table = some t;
      }

      null_line :
          (hz : ℕ) (x : Option (Text × ℕ))
          → line_range x ≡ 0
          → create_from addr O I B all_resources x hz ≡ null
      unfolding create_from
      null_line hz none z = refl
      null_line hz (some (start_ip, range)) z = rw z refl

      loaded_line :
          (hz : ℕ) (x : Option (Text × ℕ))
          → line_range x ≢ 0
          → (p : Pool O I) × (create_from addr O I B all_resources x hz ≡ loaded p)
            × (p.inbound_map ≡ t)
      unfolding create_from nat_pool_create create_with
      loaded_line hz none n = absurd (n refl)
      loaded_line hz (some (start_ip, range)) n =
          (new_pool O I B (addr start_ip) range hz o t, rw (==_ne range 0 n) refl, refl)

      null_start :
          (option hz : ℕ) (file : Option (List Text))
          → asked pool_line option file ≡ 0
          → choose_pool O I B inet_pton stack pool_line all_resources option file hz ≡ null
      unfolding choose_pool nat_load_from_file
      null_start option hz file z = elim (Bool-cases (option == 0)) [
        | inl y ↦ absurd (omega (arith, rw y at z))
        | inr m ↦ rw (choose_pool, m) (from file (rw m at z))
      ]
        where
          from :
              (f : Option (List Text))
              → file_range pool_line f ≡ 0
              → nat_load_from_file addr O I B pool_line all_resources f hz ≡ null
          from none e = refl
          from (some lines) e = null_line hz (first_valid pool_line lines) e

      loaded_start :
          (option hz : ℕ) (file : Option (List Text))
          → asked pool_line option file ≢ 0
          → (p : Pool O I) × (choose_pool O I B inet_pton stack pool_line all_resources option file
                hz
              ≡ loaded p)
            × (p.inbound_map ≡ t)
      unfolding choose_pool nat_load_from_file nat_pool_create create_with
      loaded_start option hz file n = elim (Bool-cases (option == 0)) [
        | inl y ↦ (new_pool O I B (addr nat_pool_start) nat_pool_range hz o t, rw y refl, refl)
        | inr m ↦ let (p, e, same) = from file (rw m at n) in (p, rw (choose_pool, m) e, same)
      ]
        where
          from :
              (f : Option (List Text))
              → file_range pool_line f ≢ 0
              → (p : Pool O I) × (nat_load_from_file addr O I B pool_line all_resources f hz
                  ≡ loaded p)
                × (p.inbound_map ≡ t)
          from none k = absurd (k refl)
          from (some lines) k = loaded_line hz (first_valid pool_line lines) k

      module _ (room : HasEntries I max_inbound_entries) (us : List ℕ)
          (few : length us ≤ max_inbound_entries) where
        -- the first text of the line is one of those addresses
        abbrev pub PublicIn : ℕ × ℕ → Text → Text → Type 0
        PublicIn x a b = In (inet_pton a x.0) us

        inbound_total :
            (x : ℕ × ℕ) (a b : Text) (p : Pool O I)
            → PublicIn x a b
            → KeysIn I us p.inbound_map
            → (q : Pool O I) × (inbound_add inet_pton O I (some x) a b p ≡ some q)
              × KeysIn I us q.inbound_map
        unfolding nat_inbound_add
        inbound_total x a b p here inside =
            let k = inet_pton a x.0 in
            let v : InboundEntry = record {
              public_ip = inet_pton a x.0;
              private_ip = inet_pton b x.1;
            } in
            elim (Option-cases (I.add p.inbound_map k v)) [
              | inl full ↦ absurd (
                  add-ne-none I ℕ_discrete max_inbound_entries room us few p.inbound_map k v inside
                    here full)
              | inr (u, e) ↦ (
                record p { inbound_map = u },
                rw (nat_inbound_add, e) refl,
                subst (KeysIn I us) (rw e refl) (
                    KeysIn-add I ℕ_discrete max_inbound_entries room us few p.inbound_map k v inside
                      here),
              )
            ]

        -- Where the two tables are empty at first, there is memory for the pool and for each line of inbound
        -- mappings, the table of these refuses a new address only when it holds 256 others, and the valid lines
        -- name no more than 256 public addresses, the program leaves exactly if a file was asked for that gives
        -- no range but 0; otherwise its loop starts with a pool of the size that was asked for, which is sound
        -- after any rounds.
        pub start_pool_lem :
            (option hz : ℕ) (file : Option (List Text)) (lines : List (Malloc × Text))
            → ((k : ℕ) → O.lookup o k ≡ none)
            → ((k : ℕ) → I.lookup t k ≡ none)
            → All (λ l. LineOk PublicIn l.0 (read_line inbound_line l.1)) lines
            → Starts (asked pool_line option file) hz (
                start_pool O I B inet_pton stack pool_line inbound_line all_resources option file
                  (some lines)
                  hz)
        unfolding start_pool with_inbound nat_inbound_load_from_file load_file
        start_pool_lem option hz file lines empty no_mappings memory =
            elim (ℕ_discrete (asked pool_line option file) 0) [
              | yes z ↦ inl (z, rw (null_start option hz file z) refl)
              | no n ↦
                  let (p, e, same) = loaded_start option hz file n in
                  let nothing : KeysIn I us t = λ k h. absurd (unknown k h) in
                  let (x, f) =
                    load_lines_total inbound_line (inbound_add inet_pton O I)
                      (λ (q : Pool O I). KeysIn I us q.inbound_map) PublicIn inbound_total lines p 0
                      memory (subst (KeysIn I us) (sym same) nothing) in
                  let whole : start_pool O I B inet_pton stack pool_line inbound_line all_resources
                        option file (some lines) hz
                      ≡ some x.0 =
                    rw (start_pool, e, with_inbound, nat_inbound_load_from_file, load_file, f)
                      refl in
                  let sound = λ (rs : List Round).
                    start_pool-IsSound all_resources option hz file (some lines) rs x.0
                      (λ u k q. subst (λ y. O.lookup y k ≡ none) (some-inj q) (empty k)) whole in
                  inr (n, (x.0, whole, (sound []).1, λ rs. (sound rs).0))
            ]
          where
            unknown : (k : ℕ) → Known I t k → ⊥
            unknown k (v, h) = nothing_loaded (sym (no_mappings k) ∙ h)
