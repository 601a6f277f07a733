-- ===== src/Config/Mappings.antt =====
-- What the mappings of a file of configuration are: the last line for an address counts.
use dpdk_for_beginners.Base.{
  ℕ, ◌≡◌, sym, subst, ◌∙◌, ap, inl, inr, true, Option, none, some, List, [], ◌∷◌, ◌==◌, ==_iff,
  ==_ne, Option-cases, some-inj, if◌then◌else◌, ℕ_discrete,
}
use dpdk_for_beginners.Dpdk.{HashTable}
use dpdk_for_beginners.NatPool.State.{InboundEntry, Pool, nat_inbound_add}
use dpdk_for_beginners.Config.Lines.{nothing_loaded}
use dpdk_for_beginners.Config.{
  Text, Malloc, static_entry, read_line, StaticEntry, load_lines, load_file, take_line,
  nat_add_mapping, nat_load_mappings, inbound_add, nat_inbound_load_from_file,
}

-- What a line says: the address that it is about, and the entry for it. Where a text is no address, it is what
-- lay in the memory of the entry. Without memory the program ends.
abbrev pub static_said : (Text → ℕ → ℕ) → Malloc → Text → Text → Option (ℕ × StaticEntry)
static_said inet_pton none a b = none
static_said inet_pton (some x) a b = let e = static_entry inet_pton x a b in some (e.private_ip, e)

abbrev pub inbound_said : (Text → ℕ → ℕ) → Malloc → Text → Text → Option (ℕ × InboundEntry)
inbound_said inet_pton none a b = none
inbound_said inet_pton (some (x, y)) a b =
    some (inet_pton a x, record { public_ip = inet_pton a x; private_ip = inet_pton b y })

abbrev update : {V : Type 0} → ℕ → Option (ℕ × V) → Option V → Option V
update k none before = before
update k (some (j, v)) before = if j == k then some v else before

module _ {V : Type 0} (sscanf : Text → Option (Text × Text))
    (says : Malloc → Text → Text → Option (ℕ × V)) where
  abbrev said_by : ℕ → Malloc → Option (Text × Text) → Option V → Option V
  said_by k memory none before = before
  said_by k memory (some (a, b)) before = update k (says memory a b) before

  -- What the lines say of the address `k`, where `before` held for it before the first of them.
  abbrev pub said : ℕ → List (Malloc × Text) → Option V → Option V
  said k [] before = before
  said k ((memory, line) ∷ lines) before =
      said k lines (said_by k memory (read_line sscanf line) before)

  module _ {S : Type 0} (add : Malloc → Text → Text → S → Option S) (look : S → ℕ → Option V)
      (look-add : (memory : Malloc) (a b : Text) (s r : S) (k : ℕ)
        → add memory a b s ≡ some r
        → look r k ≡ update k (says memory a b) (look s k)) where
    look-take_line :
        (memory : Malloc) (o : Option (Text × Text)) (s : S) (count : ℕ) (x : S × ℕ) (k : ℕ)
        → take_line sscanf add memory o s count ≡ some x
        → look x.0 k ≡ said_by k memory o (look s k)
    unfolding take_line
    look-take_line memory none s count x k e = ap (λ (y : S × ℕ). look y.0 k) (sym (some-inj e))
    look-take_line memory (some (a, b)) s count x k e = elim (Option-cases (add memory a b s)) [
      | inl n ↦ absurd (nothing_loaded (rw n at e))
      | inr (r, y) ↦
          ap (λ (z : S × ℕ). look z.0 k) (sym (some-inj (rw y at e))) ∙ look-add memory a b s r k y
    ]

    look-load_lines :
        (lines : List (Malloc × Text)) (s : S) (count : ℕ) (x : S × ℕ) (k : ℕ)
        → load_lines sscanf add lines s count ≡ some x
        → look x.0 k ≡ said k lines (look s k)
    unfolding load_lines
    look-load_lines [] s count x k e = ap (λ (y : S × ℕ). look y.0 k) (sym (some-inj e))
    look-load_lines ((memory, line) ∷ lines) s count x k e =
        elim (Option-cases (take_line sscanf add memory (read_line sscanf line) s count)) [
          | inl n ↦ absurd (nothing_loaded (rw (load_lines, n) at e))
          | inr (y, t) ↦
              look-load_lines lines y.0 y.1 x k (rw (load_lines, t) at e)
              ∙ ap (said k lines) (look-take_line memory (read_line sscanf line) s count y k t)
        ]

module _ (H : HashTable ℕ StaticEntry) (sscanf : Text → Option (Text × Text))
    (inet_pton : Text → ℕ → ℕ) where
  lookup-nat_add_mapping :
      (memory : Malloc) (a b : Text) (t u : H.Table) (k : ℕ)
      → nat_add_mapping inet_pton H memory a b t ≡ some u
      → H.lookup u k ≡ update k (static_said inet_pton memory a b) (H.lookup t k)
  unfolding nat_add_mapping
  lookup-nat_add_mapping none a b t u k e = cc
  lookup-nat_add_mapping (some (x, y)) a b t u k e = elim (ℕ_discrete (inet_pton a x) k) [
    | yes q ↦ rw ((==_iff _ _).1 q) (
        subst (λ j. H.lookup u j ≡ some (static_entry inet_pton (x, y) a b)) q
          (H.lookup-add_self t (inet_pton a x) _ u e))
    | no n ↦ rw (==_ne _ _ n) (H.lookup-add_ne t (inet_pton a x) _ u k e n)
  ]

  pub lookup-nat_load_mappings :
      (lines : List (Malloc × Text)) (t u : H.Table) (n k : ℕ)
      → nat_load_mappings inet_pton H sscanf (some lines) t ≡ some (u, n)
      → H.lookup u k ≡ said sscanf (static_said inet_pton) k lines (H.lookup t k)
  unfolding nat_load_mappings load_file
  lookup-nat_load_mappings lines t u n k e =
      look-load_lines sscanf (static_said inet_pton) (nat_add_mapping inet_pton H) H.lookup
        lookup-nat_add_mapping lines t 0 (u, n) k e

module _ (O : HashTable ℕ ℕ) (I : HashTable ℕ InboundEntry) (sscanf : Text → Option (Text × Text))
    (inet_pton : Text → ℕ → ℕ) where
  lookup-nat_inbound_add :
      (a b : ℕ) (p q : Pool O I) (k : ℕ)
      → nat_inbound_add O I true a b p ≡ some q
      → I.lookup q.inbound_map k
        ≡ update k (some (a, record { public_ip = a; private_ip = b })) (I.lookup p.inbound_map k)
  unfolding nat_inbound_add
  lookup-nat_inbound_add a b p q k e = elim (Option-cases added) [
    | inl n ↦ absurd (refuse (rw (nat_inbound_add, n) at e))
    | inr (t, y) ↦
        ap (λ (x : Pool O I). I.lookup x.inbound_map k)
          (sym (some-inj (rw (nat_inbound_add, y) at e)))
        ∙ elim (ℕ_discrete a k) [
          | yes s ↦ rw ((==_iff _ _).1 s) (
              subst (λ j. I.lookup t j ≡ some (record { public_ip = a; private_ip = b })) s
                (I.lookup-add_self p.inbound_map a _ t y))
          | no n ↦ rw (==_ne _ _ n) (I.lookup-add_ne p.inbound_map a _ t k y n)
        ]
  ]
    where
      added : Option I.Table
      added = I.add p.inbound_map a (record { public_ip = a; private_ip = b })

      refuse : none ≡ some q → ⊥
      refuse x = cc

  lookup-inbound_add :
      (memory : Malloc) (a b : Text) (p q : Pool O I) (k : ℕ)
      → inbound_add inet_pton O I memory a b p ≡ some q
      → I.lookup q.inbound_map k
        ≡ update k (inbound_said inet_pton memory a b) (I.lookup p.inbound_map k)
  lookup-inbound_add none a b p q k e = cc
  lookup-inbound_add (some (x, y)) a b p q k e =
      lookup-nat_inbound_add (inet_pton a x) (inet_pton b y) p q k e

  -- After the inbound mappings of a file have been loaded, a packet to a public address is for the host
  -- that the last valid line about that address names, or for the one before where there is no such line.
  pub lookup-nat_inbound_load_from_file :
      (lines : List (Malloc × Text)) (p q : Pool O I) (n k : ℕ)
      → nat_inbound_load_from_file inet_pton O I sscanf (some lines) p ≡ some (q, n)
      → I.lookup q.inbound_map k
        ≡ said sscanf (inbound_said inet_pton) k lines (I.lookup p.inbound_map k)
  unfolding nat_inbound_load_from_file load_file
  lookup-nat_inbound_load_from_file lines p q n k e =
      look-load_lines sscanf (inbound_said inet_pton) (inbound_add inet_pton O I)
        (λ (x : Pool O I). I.lookup x.inbound_map) lookup-inbound_add lines p 0 (q, n) k e
