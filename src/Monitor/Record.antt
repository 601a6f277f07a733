-- ===== src/Monitor/Record.antt =====
-- Which keys a burst puts on record.
use dpdk_for_beginners.Base.{
  ℕ, All, length, ◌≤◌, ◌≡◌, ◌↔◌, ◌⊎◌, subst, inl, inr, some, List, [], ◌∷◌, Option-cases,
}
use dpdk_for_beginners.Dpdk.{HashTable, add_quietly}
use dpdk_for_beginners.Dpdk.Capacity.{In, Known, HasEntries, KeysIn, add-ne-none}
use dpdk_for_beginners.Dpdk.Table.{lookup-add_quietly, lookup-add_quietly_ne}
use dpdk_for_beginners.Packet.{Packet}
use dpdk_for_beginners.StaticNat.Laws.{chain}
use dpdk_for_beginners.Monitor.{note, note_keys, hash_packets}

module _ {K : Type 0} (keys : Packet → List K) where
  -- a packet of the list has this key
  abbrev pub Met : K → List Packet → Type 0
  Met k [] = ⊥
  Met k (m ∷ ms) = In k (keys m) ⊎ Met k ms

  -- the keys of the packets are among those of a list
  abbrev pub MetIn : List K → List Packet → Type 0
  MetIn us ms = All (λ m. All (λ k. In k us) (keys m)) ms

module _ {K : Type 0} (d : Discrete K) (H : HashTable K ℕ) (data_of : K → ℕ)
    (keys : Packet → List K) (entries : ℕ) (c : HasEntries H entries) (us : List K)
    (few : length us ≤ entries) where
  add_quietly-Known :
      (t : H.Table) (j k : K)
      → KeysIn H us t
      → In j us
      → Known H (add_quietly H t j (data_of j)) k ↔ (Known H t k ⊎ (j ≡ k))
  add_quietly-Known t j k inside here = elim (d j k) [
    | yes e ↦ (
      (λ h. inr e),
      λ h. (
        data_of j,
        subst (λ x. H.lookup (add_quietly H t j (data_of j)) x ≡ some (data_of j)) e
            (lookup-add_quietly H d t j (data_of j)
              (add-ne-none H d entries c us few t j (data_of j) inside here)),
      ),
    )
    | no n ↦
        let same = lookup-add_quietly_ne H d t j (data_of j) k n in
        ((λ h. inl (rw same at h)), λ h. elim h [ inl v ↦ rw same v | inr e ↦ absurd (n e) ])
  ]

  note-Known :
      (t : H.Table) (j k : K)
      → KeysIn H us t
      → In j us
      → Known H (note H data_of keys t j) k ↔ (Known H t k ⊎ (j ≡ k))
  unfolding note
  note-Known t j k inside here = elim (Option-cases (H.lookup t j)) [
    | inl new ↦ rw (note, new) (add_quietly-Known t j k inside here)
    | inr (v, old) ↦
        rw (note, old)
          (
            (λ h. inl h),
            λ h. elim h [ inl w ↦ w | inr e ↦ (v, subst (λ x. H.lookup t x ≡ some v) e old) ],
          )
  ]

  KeysIn-note :
      (t : H.Table) (j : K) → KeysIn H us t → In j us → KeysIn H us (note H data_of keys t j)
  KeysIn-note t j inside here k h = elim ((note-Known t j k inside here).0 h) [
    | inl old ↦ inside k old
    | inr e ↦ subst (λ x. In x us) e here
  ]

  KeysIn-note_keys :
      (ks : List K) (t : H.Table)
      → KeysIn H us t
      → All (λ k. In k us) ks
      → KeysIn H us (note_keys H data_of keys t ks)
  unfolding note_keys
  KeysIn-note_keys [] t inside from = inside
  KeysIn-note_keys (x ∷ xs) t inside (here, from) =
      KeysIn-note_keys xs (note H data_of keys t x) (KeysIn-note t x inside here) from

  pub KeysIn-hash_packets :
      (ms : List Packet) (t : H.Table)
      → KeysIn H us t
      → MetIn keys us ms
      → KeysIn H us (hash_packets H data_of keys t ms)
  unfolding hash_packets
  KeysIn-hash_packets [] t inside from = inside
  KeysIn-hash_packets (m ∷ ms) t inside (here, from) =
      KeysIn-hash_packets ms (note_keys H data_of keys t (keys m))
        (KeysIn-note_keys (keys m) t inside here) from

  pub nothing_more : {P : Type 0} → P ↔ (P ⊎ ⊥)
  nothing_more {P = P} = (inl, back)
    where
      back : P ⊎ ⊥ → P
      back (inl x) = x
      back (inr x) = elim x [ ]

  note_keys-Known :
      (ks : List K) (t : H.Table) (k : K)
      → KeysIn H us t
      → All (λ j. In j us) ks
      → Known H (note_keys H data_of keys t ks) k ↔ (Known H t k ⊎ In k ks)
  unfolding note_keys
  note_keys-Known [] t k inside from = nothing_more
  note_keys-Known (x ∷ xs) t k inside (here, from) =
      chain (note_keys-Known xs (note H data_of keys t x) k (KeysIn-note t x inside here) from)
        (note-Known t x k inside here)

  pub hash_packets-Known :
      (ms : List Packet) (t : H.Table) (k : K)
      → KeysIn H us t
      → MetIn keys us ms
      → Known H (hash_packets H data_of keys t ms) k ↔ (Known H t k ⊎ Met keys k ms)
  unfolding hash_packets
  hash_packets-Known [] t k inside from = nothing_more
  hash_packets-Known (m ∷ ms) t k inside (here, from) =
      chain
        (hash_packets-Known ms (note_keys H data_of keys t (keys m)) k
          (KeysIn-note_keys (keys m) t inside here) from)
        (note_keys-Known (keys m) t k inside here)
