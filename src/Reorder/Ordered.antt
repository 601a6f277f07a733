-- ===== src/Reorder/Ordered.antt =====
-- What comes out of the reorder buffer of reordering/rx_burst/main2.c.
use dpdk_for_beginners.Base.{
  ℕ, suc, ◌+◌, ◌%◌, ◌^◌, ◌≤◌, ◌<◌, ◌≡◌, refl, ap, ◌∙◌, Bool, Option-cases, inl, inr, none, some,
  List, [], ◌∷◌, ◌++◌, All, All-append, count, count-append, length, length-append, arith,
}
use dpdk_for_beginners.Reorder.RxBurst.{
  Packet, IsAscending, Reorder, burst_size, Loop, start, insert_one, insert_burst, round,
  rx_reorder_loop,
}

-- the packets with their numbers, from `k` on
abbrev pub numbered : ℕ → List (List ℕ) → List Packet
numbered k [] = []
numbered k (m ∷ ms) = record { bytes = m; seqn = k } ∷ numbered (suc k) ms

abbrev pub concat : List (List (List ℕ)) → List (List ℕ)
concat [] = []
concat (burst ∷ bursts) = burst ++ concat bursts

All-weaken :
    (P Q : Packet → Type 0) (ms : List Packet) → ((m : Packet) → P m → Q m) → All P ms → All Q ms
All-weaken P Q [] f h = tt
All-weaken P Q (m ∷ ms) f h = (f m h.0, All-weaken P Q ms f h.1)

IsAscending-append :
    (k : ℕ) (xs ys : List Packet)
    → IsAscending xs
    → IsAscending ys
    → All (λ m. m.seqn < k) xs
    → All (λ m. k ≤ m.seqn) ys
    → IsAscending (xs ++ ys)
IsAscending-append k [] ys a b h l = b
IsAscending-append k (x ∷ xs) ys a b h l = (
  All-append _ xs ys a.0 (All-weaken _ _ ys (λ m e. omega (arith, h.0)) l),
  IsAscending-append k xs ys a.1 b h.1 l,
)

numbered-append :
    (k : ℕ) (xs ys : List (List ℕ))
    → numbered k (xs ++ ys) ≡ numbered k xs ++ numbered (k + length xs) ys
numbered-append k [] ys = let same : k ≡ k + 0 = omega arith in ap (λ i. numbered i ys) same
numbered-append k (x ∷ xs) ys =
    let same : suc k + length xs ≡ k + suc (length xs) = omega arith in
    ap (◌∷◌ (record { bytes = x; seqn = k }))
      (numbered-append (suc k) xs ys ∙ ap (λ i. numbered (suc k) xs ++ numbered i ys) same)

count-numbered :
    (p : Packet → Bool) (k j : ℕ) (xs ys : List (List ℕ))
    → j ≡ k + length xs
    → count p (numbered k (xs ++ ys)) ≡ count p (numbered k xs) + count p (numbered j ys)
count-numbered p k j xs ys e =
    rw e (ap (count p) (numbered-append k xs ys) ∙ count-append p (numbered k xs) _)

module _ (R : Reorder) where
  -- The numbers in the buffer are below the next one that is given.
  abbrev IsSound : Loop R → Type 0
  IsSound s = (R.next s.rbuf ≤ s.seq_counter) × All (λ m. m.seqn < s.seq_counter) (R.held s.rbuf)

  -- the packets that have come and have not been drained
  abbrev kept : (Packet → Bool) → Loop R → ℕ
  kept p s = count p (R.held s.rbuf) + count p s.refused

  abbrev packet : Loop R → List ℕ → Packet
  packet s m = record { bytes = m; seqn = s.seq_counter }

  insert_one-refused :
      (s : Loop R) (m : List ℕ)
      → s.seq_counter + 1 < 2 ^ 32
      → R.insert s.rbuf (packet s m) ≡ none
      → insert_one R s m
        ≡ record s { seq_counter = suc s.seq_counter; refused = packet s m ∷ s.refused }
  unfolding insert_one
  insert_one-refused s m small e =
      let step : (s.seq_counter + 1) % 2 ^ 32 ≡ suc s.seq_counter = omega arith in
      rw (insert_one, e, step) refl

  insert_one-taken :
      (s : Loop R) (m : List ℕ) (b : R.Buffer)
      → s.seq_counter + 1 < 2 ^ 32
      → R.insert s.rbuf (packet s m) ≡ some b
      → insert_one R s m ≡ record s { seq_counter = suc s.seq_counter; rbuf = b }
  unfolding insert_one
  insert_one-taken s m b small e =
      let step : (s.seq_counter + 1) % 2 ^ 32 ≡ suc s.seq_counter = omega arith in
      rw (insert_one, e, step) refl

  -- What a number of insertions does, with the packets that they are about.
  abbrev Inserts : (Packet → Bool) → Loop R → Loop R → List (List ℕ) → Type 0
  Inserts p s t ms =
      IsSound t
      × (t.seq_counter ≡ s.seq_counter + length ms)
      × (R.next t.rbuf ≡ R.next s.rbuf)
      × (kept p t ≡ kept p s + count p (numbered s.seq_counter ms))

  insert_one-Inserts :
      (p : Packet → Bool) (s : Loop R) (m : List ℕ)
      → s.seq_counter + 1 < 2 ^ 32
      → IsSound s
      → Inserts p s (insert_one R s m) (m ∷ [])
  insert_one-Inserts p s m small (low, below) =
      let more =
        All-weaken _ (λ n. n.seqn < suc s.seq_counter) (R.held s.rbuf) (λ n e. omega arith) below in
      elim (Option-cases (R.insert s.rbuf (packet s m))) [
        | inl full ↦
            rw (insert_one-refused s m small full)
              ((omega arith, more), omega arith, refl, ground arith)
        | inr (b, e) ↦
            let n = R.insert-next s.rbuf b _ e in
            rw (insert_one-taken s m b small e) (
              (omega (arith, n), R.insert-below s.rbuf b _ _ e (omega arith, more)),
              omega arith,
              n,
              ground (arith, R.insert-held s.rbuf b _ e p),
            )
      ]

  insert_burst-Inserts :
      (p : Packet → Bool) (s : Loop R) (ms : List (List ℕ))
      → s.seq_counter + length ms < 2 ^ 32
      → IsSound s
      → Inserts p s (insert_burst R s ms) ms
  unfolding insert_burst
  insert_burst-Inserts p s [] small v = (v, omega arith, refl, omega arith)
  insert_burst-Inserts p s (m ∷ ms) small v =
      let (a, b, c, d) = insert_one-Inserts p s m (omega arith) v in
      let (e, f, g, h) = insert_burst-Inserts p (insert_one R s m) ms (omega arith) a in
      let q : (insert_one R s m).seq_counter ≡ suc s.seq_counter = omega arith in
      let k = ap (λ i. kept p (insert_one R s m) + count p (numbered i ms)) q in
      (e, omega arith, g ∙ c, ground (arith, d, h ∙ k))

  -- What a round does: what is drained lies between two values of `next`.
  abbrev Rounds : (Packet → Bool) → Loop R → Loop R → List Packet → List (List ℕ) → Type 0
  Rounds p s t out ms =
      IsSound t
      × (t.seq_counter ≡ s.seq_counter + length ms)
      × IsAscending out
      × All (λ m. (R.next s.rbuf ≤ m.seqn) × (m.seqn < R.next t.rbuf)) out
      × (R.next s.rbuf ≤ R.next t.rbuf)
      × (count p out + kept p t ≡ kept p s + count p (numbered s.seq_counter ms))

  round-Rounds :
      (p : Packet → Bool) (s : Loop R) (ms : List (List ℕ))
      → s.seq_counter + length ms < 2 ^ 32
      → IsSound s
      → Rounds p s (round R s ms).1 (round R s ms).0 ms
  unfolding round
  round-Rounds p s [] small v = (v, omega arith, tt, tt, omega arith, omega arith)
  round-Rounds p s (m ∷ ms) small v =
      let full = insert_burst R s (m ∷ ms) in
      let (a, b, c, d) = insert_burst-Inserts p s (m ∷ ms) small v in
      let (between, grows) = R.drain-next burst_size full.rbuf in
      let same =
        All-weaken _
          (λ n. (R.next s.rbuf ≤ n.seqn) × (n.seqn < R.next (R.drain burst_size full.rbuf).1)) _
          (λ n e. (omega (arith, e.0, c), e.1)) between in
      let below = R.drain-below burst_size full.rbuf full.seq_counter a.0 a.1 in
      (
        below,
        b,
        R.drain-IsAscending burst_size full.rbuf,
        same,
        omega (arith, c, grows),
        omega (arith, d, R.drain-held burst_size full.rbuf p),
      )

  loop-Rounds :
      (p : Packet → Bool) (s : Loop R) (bursts : List (List (List ℕ)))
      → s.seq_counter + length (concat bursts) < 2 ^ 32
      → IsSound s
      → Rounds p s (rx_reorder_loop R s bursts).1 (rx_reorder_loop R s bursts).0 (concat bursts)
  unfolding rx_reorder_loop
  loop-Rounds p s [] small v = (v, omega arith, tt, tt, omega arith, omega arith)
  loop-Rounds p s (ms ∷ bursts) small v =
      let n = length-append ms (concat bursts) in
      let (a, b, c, d, e, f) = round-Rounds p s ms (omega (arith, n)) v in
      let t = (round R s ms).1 in
      let (g, h, i, j, k, l) = loop-Rounds p t bursts (omega (arith, n, b)) a in
      let out = (round R s ms).0 in
      let rest = (rx_reorder_loop R t bursts).0 in
      let top = R.next (rx_reorder_loop R t bursts).1.rbuf in
      (
        g,
        omega (arith, n, b, h),
        IsAscending-append (R.next t.rbuf) out rest c i (All-weaken _ _ out (λ m q. q.1) d)
            (All-weaken _ _ rest (λ m q. q.0) j),
        All-append _ out rest
            (All-weaken _ (λ m. (R.next s.rbuf ≤ m.seqn) × (m.seqn < top)) out
              (λ m q. (q.0, omega (arith, q.1, k))) d)
            (All-weaken _ (λ m. (R.next s.rbuf ≤ m.seqn) × (m.seqn < top)) rest
              (λ m q. (omega (arith, q.0, e), q.1)) j),
        omega (arith, e, k),
        omega (
          arith,
          f,
          l,
          count-append p out rest,
          count-numbered p s.seq_counter t.seq_counter ms (concat bursts) b,
        ),
      )

  start-IsSound : IsSound (start R)
  start-IsSound = let n = R.next-create 128 in (omega (arith, n), rw (R.held-create 128) tt)

  -- Over any rounds in which fewer than 2 ^ 32 packets come, the packets that are drained have ascending
  -- numbers, and each packet that came, with the number of its place, is drained, has been refused or is in the
  -- buffer, once.
  pub rx_reorder_loop-IsAscending :
      (bursts : List (List (List ℕ))) (p : Packet → Bool)
      → length (concat bursts) < 2 ^ 32
      → let (drained, t) = rx_reorder_loop R (start R) bursts in
        IsAscending drained
        × (count p drained + (count p (R.held t.rbuf) + count p t.refused)
            ≡ count p (numbered 0 (concat bursts)))
  rx_reorder_loop-IsAscending bursts p small =
      let (a, b, c, d, e, f) = loop-Rounds p (start R) bursts (omega arith) start-IsSound in
      let none_held = ap (count p) (R.held-create 128) in (c, omega (arith, f, none_held))
