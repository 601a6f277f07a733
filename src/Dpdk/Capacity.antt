-- ===== src/Dpdk/Capacity.antt =====
-- The number of entries of a table, and why no insertion is refused as long as the keys that come are no more.
use dpdk_for_beginners.Base.{
  ℕ, suc, ◌≤◌, ◌≡◌, ◌≢◌, sym, ◌∙◌, ◌⊎◌, inl, inr, subst, ite, if_pos, if_neg, none, some, List, [],
  ◌∷◌, length, All, arith,
}
use dpdk_for_beginners.Dpdk.{HashTable, add_quietly}
use dpdk_for_beginners.Dpdk.Table.{add_quietly-keys}

abbrev pub In : {K : Type 0} → K → List K → Type 0
In k [] = ⊥
In k (x ∷ xs) = (x ≡ k) ⊎ In k xs

abbrev pub Distinct : {K : Type 0} → List K → Type 0
Distinct [] = Unit
Distinct (x ∷ xs) = (In x xs → ⊥) × Distinct xs

module _ {K : Type 0} (d : Discrete K) where
  without : K → List K → List K
  without x [] = []
  without x (y ∷ ys) = ite (d y x) ys (y ∷ without x ys)

  length-without : (x : K) (ys : List K) → In x ys → suc (length (without x ys)) ≤ length ys
  unfolding without
  length-without x [] h = elim h [ ]
  length-without x (y ∷ ys) h = elim (d y x) [
    | yes e ↦ rw (if_pos (d y x) e) (omega arith)
    | no n ↦ rw (if_neg (d y x) n) (omega (arith, length-without x ys (later n h)))
  ]
    where
      later : y ≢ x → In x (y ∷ ys) → In x ys
      later n (inl e) = absurd (n e)
      later n (inr i) = i

  In-without : (x y : K) (zs : List K) → x ≢ y → In y zs → In y (without x zs)
  unfolding without
  In-without x y [] n h = h
  In-without x y (z ∷ zs) n (inl e) = elim (d z x) [
    | yes q ↦ absurd (n (sym q ∙ e))
    | no m ↦ rw (if_neg (d z x) m) (inl e)
  ]
  In-without x y (z ∷ zs) n (inr h) = elim (d z x) [
    | yes q ↦ rw (if_pos (d z x) q) h
    | no m ↦ rw (if_neg (d z x) m) (inr (In-without x y zs n h))
  ]

  -- Distinct members of a list are no more than its length.
  Distinct-length : (xs ys : List K) → Distinct xs → All (λ x. In x ys) xs → length xs ≤ length ys
  Distinct-length [] ys h m = omega arith
  Distinct-length (x ∷ xs) ys h m =
      let rest = Distinct-length xs (without x ys) h.1 (others x xs ys h.0 m.1) in
      omega (arith, rest, length-without x ys m.0)
    where
      others :
          (x : K) (zs ys : List K)
          → (In x zs → ⊥)
          → All (λ z. In z ys) zs
          → All (λ z. In z (without x ys)) zs
      others x [] ys n m = tt
      others x (z ∷ zs) ys n m =
          (In-without x z ys (λ e. n (inl (sym e))) m.0, others x zs ys (λ i. n (inr i)) m.1)

module _ {K V : Type 0} (H : HashTable K V) where
  -- a key that a table holds
  abbrev pub Known : H.Table → K → Type 0
  Known t k = (v : V) × (H.lookup t k ≡ some v)

  -- The `entries` of `rte_hash_parameters`: an insertion is refused only where the table holds that many keys,
  -- none of which is the new one.
  pub record HasEntries (entries : ℕ) : Type 0 where
    pub refused :
        (t : H.Table) (k : K) (v : V)
        → H.add t k v ≡ none
        → (ks : List K) × (entries ≤ length ks) × Distinct (k ∷ ks) × All (Known t) ks

  -- All keys of the table are among those of a list.
  abbrev pub KeysIn : List K → H.Table → Type 0
  KeysIn us t = (k : K) → Known t k → In k us

  module _ (d : Discrete K) (entries : ℕ) (c : HasEntries entries) (us : List K)
      (few : length us ≤ entries) where
    -- With no more keys than entries there is room for each of them.
    pub add-ne-none : (t : H.Table) (k : K) (v : V) → KeysIn us t → In k us → H.add t k v ≢ none
    add-ne-none t k v inside here e =
        let (ks, many, distinct, known) = c.refused t k v e in
        absurd (
          omega
            (arith, few, many, Distinct-length d (k ∷ ks) us distinct (here, all_inside ks known)))
      where
        all_inside : (ks : List K) → All (Known t) ks → All (λ j. In j us) ks
        all_inside [] h = tt
        all_inside (j ∷ js) h = (inside j h.0, all_inside js h.1)

    pub KeysIn-add :
        (t : H.Table) (k : K) (v : V) → KeysIn us t → In k us → KeysIn us (add_quietly H t k v)
    KeysIn-add t k v inside here j (w, h) = elim (add_quietly-keys H d t k v j w h) [
      | inl (e, _) ↦ subst (λ x. In x us) e here
      | inr old ↦ inside j (w, old)
    ]
