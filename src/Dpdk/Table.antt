-- ===== src/Dpdk/Table.antt =====
-- What a table holds after an insertion whose result is ignored, and after a deletion.
use dpdk_for_beginners.Base.{◌≡◌, ◌≢◌, refl, sym, ◌∙◌, ◌⊎◌, inl, inr, none, some, Option-cases}
use dpdk_for_beginners.Dpdk.{HashTable, add_quietly}

module _ {K V : Type 0} (H : HashTable K V) (d : Discrete K) where
  -- A key leads to the new value, if it is the new key, or to what it led to before.
  pub add_quietly-keys :
      (t : H.Table) (k : K) (v : V) (j : K) (w : V)
      → H.lookup (add_quietly H t k v) j ≡ some w
      → ((k ≡ j) × (v ≡ w)) ⊎ (H.lookup t j ≡ some w)
  add_quietly-keys t k v j w h = elim (Option-cases (H.add t k v)) [
    | inl full ↦ inr (rw full at h)
    | inr (u, added) ↦ elim (d k j) [
      | yes e ↦
          let here : H.lookup u j ≡ some w = rw added at h in
          inl (e, cc (H.lookup-add_self t k v u added))
      | no n ↦ inr (sym (H.lookup-add_ne t k v u j added n) ∙ (rw added at h))
    ]
  ]

  pub del-keys :
      (t : H.Table) (k j : K) (w : V)
      → H.lookup (H.del t k) j ≡ some w
      → (k ≢ j) × (H.lookup t j ≡ some w)
  del-keys t k j w h = elim (d k j) [
    | yes e ↦ absurd (gone e)
    | no n ↦ (n, sym (H.lookup-del_ne t k j n) ∙ h)
  ]
    where
      gone : k ≡ j → ⊥
      gone e = cc (H.lookup-del_self t j, h, e)

  -- An insertion that does not fail puts the value under its key.
  pub lookup-add_quietly :
      (t : H.Table) (k : K) (v : V) → H.add t k v ≢ none → H.lookup (add_quietly H t k v) k ≡ some v
  lookup-add_quietly t k v ok = elim (Option-cases (H.add t k v)) [
    | inl full ↦ absurd (ok full)
    | inr (u, added) ↦ rw added (H.lookup-add_self t k v u added)
  ]

  -- It changes nothing under the other keys.
  pub lookup-add_quietly_ne :
      (t : H.Table) (k : K) (v : V) (j : K)
      → k ≢ j
      → H.lookup (add_quietly H t k v) j ≡ H.lookup t j
  lookup-add_quietly_ne t k v j n = elim (Option-cases (H.add t k v)) [
    | inl full ↦ rw full refl
    | inr (u, added) ↦ rw added (H.lookup-add_ne t k v u j added n)
  ]
