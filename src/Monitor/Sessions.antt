-- ===== src/Monitor/Sessions.antt =====
-- Which keys the programs of nat_project that watch the traffic have on record after some turns of their loops.
use dpdk_for_beginners.Base.{
  length, ℕ, ◌/◌, ◌<◌, ◌≤◌, ap, ◌≡◌, ◌↔◌, ◌⊎◌, refl, sym, subst, inl, inr, true, none, some, List,
  [], ◌∷◌, arith, leb, Bool-cases, ℕ_discrete,
}
use dpdk_for_beginners.Dpdk.{HashTable, ByteOrder}
use dpdk_for_beginners.Packet.{Packet}
use dpdk_for_beginners.NatPool.Timers.{elapsed}
use dpdk_for_beginners.StaticNat.Laws.{chain}
use dpdk_for_beginners.Monitor.{
  Turn, burst, silence, Watch, before_packets, on_packets, on_silence, turn, turns, address_keys,
  watch_sample,
}
use dpdk_for_beginners.Dpdk.Capacity.{Known, HasEntries, KeysIn}
use dpdk_for_beginners.Monitor.{max_ips}
use dpdk_for_beginners.Monitor.Record.{
  Met, MetIn, nothing_more, hash_packets-Known, KeysIn-hash_packets,
}

module _ {K : Type 0} (keys : Packet → List K) where
  -- a packet of some burst has this key
  abbrev pub Ever : K → List Turn → Type 0
  Ever k [] = ⊥
  Ever k (burst first now nb_tx m ms ∷ es) = Met keys k (m ∷ ms) ⊎ Ever k es
  Ever k (silence now ∷ es) = Ever k es

  -- the keys of all packets that come are among those of a list
  abbrev pub AllIn : List K → List Turn → Type 0
  AllIn us [] = Unit
  AllIn us (burst first now nb_tx m ms ∷ es) = MetIn keys us (m ∷ ms) × AllIn us es
  AllIn us (silence now ∷ es) = AllIn us es

  module _ (hz : ℕ) where
    -- A session whose last packets came at `last` does not end: of the polls that follow without packets, up to
    -- the next burst, and after it in the same way, none is five seconds after the last packets or more.
    abbrev pub Lasts : ℕ → List Turn → Type 0
    Lasts last [] = Unit
    Lasts last (burst first now nb_tx m ms ∷ es) = Lasts now es
    Lasts last (silence now ∷ es) = (elapsed now last / hz < 5) × Lasts last es

    -- a packet of a burst has this key, and the session has not ended since
    abbrev pub Recorded : K → List Turn → Type 0
    Recorded k [] = ⊥
    Recorded k (burst first now nb_tx m ms ∷ es) =
        (Met keys k (m ∷ ms) × Lasts now es) ⊎ Recorded k es
    Recorded k (silence now ∷ es) = Recorded k es

module _ {K : Type 0} (d : Discrete K) (H : HashTable K ℕ) (data_of : K → ℕ)
    (keys : Packet → List K) (entries : ℕ) (c : HasEntries H entries) (us : List K)
    (few : length us ≤ entries) where
  -- A poll without packets changes nothing, or ends a session.
  on_silence_cases :
      (at_end : H.Table → H.Table) (hz now : ℕ) (s : Watch H data_of keys)
      → let after = on_silence H data_of keys at_end hz now s in
        ((after ≡ s) × (s.started ≡ true → elapsed now s.last_rx_tsc / hz < 5))
        ⊎ ((after ≡ before_packets H data_of keys (at_end s.seen))
            × (5 ≤ elapsed now s.last_rx_tsc / hz))
  unfolding on_silence
  on_silence_cases at_end hz now s = elim (Bool-cases s.started) [
    | inr n ↦ inl (rw n refl, λ e. cc (n, e))
    | inl y ↦ elim (Bool-cases (leb 5 (elapsed now s.last_rx_tsc / hz))) [
      | inr short ↦ inl (rw (y, short) refl, λ e. ground (arith, short))
      | inl long ↦ inr (rw (y, long) refl, ground (arith, long))
    ]
  ]

  -- Where the table is not reset, it holds every key that came.
  turns-Ever :
      (hz : ℕ) (es : List Turn) (s : Watch H data_of keys) (k : K)
      → KeysIn H us s.seen
      → AllIn keys us es
      → Known H (turns H data_of keys (λ u. u) hz es s).seen k ↔ (Known H s.seen k ⊎ Ever keys k es)
  unfolding turns turn on_packets
  turns-Ever hz [] s k inside from = nothing_more d H data_of keys entries c us few
  turns-Ever hz (burst first now nb_tx m ms ∷ es) s k inside (here, from) =
      chain
        (turns-Ever hz es (turn H data_of keys (λ u. u) hz (burst first now nb_tx m ms) s) k
          (KeysIn-hash_packets d H data_of keys entries c us few (m ∷ ms) s.seen inside here) from)
        (hash_packets-Known d H data_of keys entries c us few (m ∷ ms) s.seen k inside here)
  turns-Ever hz (silence now ∷ es) s k inside from =
      subst
        (λ t.
          Known H (turns H data_of keys (λ u. u) hz es after).seen k
          ↔ (Known H t k ⊎ Ever keys k es))
        same (turns-Ever hz es after k (subst (KeysIn H us) (sym same) inside) from)
    where
      after : Watch H data_of keys
      after = on_silence H data_of keys (λ u. u) hz now s

      same : after.seen ≡ s.seen
      same = elim (on_silence_cases (λ u. u) hz now s) [
        | inl (q, _) ↦ ap (λ (x : Watch H data_of keys). x.seen) q
        | inr (q, _) ↦ ap (λ (x : Watch H data_of keys). x.seen) q
      ]

module _ (B : ByteOrder) (hz : ℕ) where
  -- sample: an address is on record exactly if an IPv4 packet of some burst had it, however long ago: the end of
  -- a session leaves the table as it is. The table is empty at first and refuses a new address only when it
  -- holds 1024 others, and no more than 1024 addresses come.
  pub watch_sample-Ever :
      (H : HashTable ℕ ℕ) (es : List Turn) (t : H.Table) (k : ℕ) (us : List ℕ)
      → HasEntries H max_ips
      → length us ≤ max_ips
      → AllIn (address_keys B) us es
      → ((j : ℕ) → H.lookup t j ≡ none)
      → Known H (watch_sample B hz H es t) k ↔ Ever (address_keys B) k es
  unfolding watch_sample
  watch_sample-Ever H es t k us entries few from empty =
      ((λ h. elim (all.0 h) [ inl (v, e) ↦ absurd (unknown v e) | inr r ↦ r ]), λ r. all.1 (inr r))
    where
      unknown : (v : ℕ) → H.lookup t k ≡ some v → ⊥
      unknown v h = cc (empty k, h)

      none_known : (j : ℕ) → Known H t j → ⊥
      none_known j (v, h) = cc (empty j, h)

      all : Known H (watch_sample B hz H es t) k ↔ (Known H t k ⊎ Ever (address_keys B) k es)
      all =
          turns-Ever ℕ_discrete H (λ j. j) (address_keys B) max_ips entries us few hz es
            (before_packets H (λ j. j) (address_keys B) t) k (λ j h. absurd (none_known j h)) from
