-- ===== src/Reorder/DynamicSeqno.antt =====
-- reordering/dynamic_seqno/main.c: the first ten packets get the numbers from 0 on, and then the program
-- ends.
use Prim.Native.Nat.{min}
use dpdk_for_beginners.Base.{
  ℕ, zero, suc, ◌+◌, ◌≤◌, ◌<◌, ◌≡◌, refl, ap, sym, ◌∙◌, get_or, Bool, true, false, Option, none,
  some, List, [], ◌∷◌, ◌++◌, map, length, ltb, leb, if◌then◌else◌, arith, Bool-cases, inl, inr,
  length-append, append_assoc,
}

-- `if (seq < 10)`: the number that a packet gets, and where `seq` stands after it
unfoldable pub given : ℕ → Option ℕ
given seq = if ltb seq 10 then some seq else none

unfoldable pub seq_next : ℕ → ℕ
seq_next seq = if ltb seq 10 then suc seq else seq

given-none : (seq : ℕ) → 10 ≤ seq → given seq ≡ none
unfolding given
given-none seq h = ground arith

module _ {P : Type 0} where
  -- what happens to the packets of a burst, which are then freed
  unfoldable pub number : ℕ → List P → List (P × Option ℕ)
  unfolding given seq_next
  number seq [] = []
  number seq (m ∷ ms) = (m, given seq) ∷ number (seq_next seq) ms

  unfoldable pub seq_after : ℕ → List P → ℕ
  unfolding seq_next
  seq_after seq [] = seq
  seq_after seq (m ∷ ms) = seq_after (seq_next seq) ms

  -- the packets that were freed, with their numbers, and whether the loop has ended
  unfoldable pub lcore_main_loop : ℕ → List (List P) → List (P × Option ℕ) × Bool
  unfolding number seq_after
  lcore_main_loop seq [] = ([], false)
  lcore_main_loop seq ([] ∷ bursts) = lcore_main_loop seq bursts
  lcore_main_loop seq ((m ∷ ms) ∷ bursts) =
      let pkts = m ∷ ms in
      let rest = lcore_main_loop (seq_after seq pkts) bursts in
      if leb 10 (seq_after seq pkts)
      then (number seq pkts, true)
      else (number seq pkts ++ rest.0, rest.1)

  abbrev pub total : List (List P) → ℕ
  total [] = 0
  total (pkts ∷ bursts) = length pkts + total bursts

  length-number : (seq : ℕ) (ms : List P) → length (number seq ms) ≡ length ms
  unfolding number
  length-number seq [] = refl
  length-number seq (m ∷ ms) = ap suc (length-number (seq_next seq) ms)

  seq_after-min : (seq : ℕ) (ms : List P) → seq ≤ 10 → seq_after seq ms ≡ min 10 (seq + length ms)
  unfolding seq_after seq_next
  seq_after-min seq [] h = omega arith
  seq_after-min seq (m ∷ ms) h = elim (Bool-cases (ltb seq 10)) [
    | inl more ↦ rw more (seq_after-min (suc seq) ms (ground arith) ∙ omega arith)
    | inr full ↦ let ten : seq ≡ 10 = ground arith in rw full (seq_after-min seq ms h ∙ omega arith)
  ]

  number-get :
      (seq i : ℕ) (ms : List P)
      → seq ≤ 10
      → i < length ms
      → get_or (map (λ r. r.1) (number seq ms)) i none ≡ given (seq + i)
  unfolding number given seq_next
  number-get seq i [] h l = absurd (omega arith)
  number-get seq zero (m ∷ ms) h l = ap given (omega arith)
  number-get seq (suc i) (m ∷ ms) h l = elim (Bool-cases (ltb seq 10)) [
    | inl more ↦
        rw more (number-get (suc seq) i ms (ground arith) (omega arith) ∙ ap given (omega arith))
    | inr full ↦
        let ten : 10 ≤ seq = ground arith in
        let both_none : given (seq + i) ≡ given (seq + suc i) =
          given-none _ (omega arith) ∙ sym (given-none _ (omega arith)) in
        rw full (number-get seq i ms h (omega arith) ∙ both_none)
  ]

  number-append :
      (seq : ℕ) (xs ys : List P)
      → number seq xs ++ number (seq_after seq xs) ys ≡ number seq (xs ++ ys)
  unfolding number seq_after
  number-append seq [] ys = refl
  number-append seq (x ∷ xs) ys = ap (◌∷◌ (x, given seq)) (number-append (seq_next seq) xs ys)

  map-number : (seq : ℕ) (ms : List P) → map (λ r. r.0) (number seq ms) ≡ ms
  unfolding number
  map-number seq [] = refl
  map-number seq (m ∷ ms) = ap (◌∷◌ m) (map-number (seq_next seq) ms)

  -- the packets of all bursts, in the order in which they came
  abbrev pub all_packets : List (List P) → List P
  all_packets [] = []
  all_packets (pkts ∷ bursts) = pkts ++ all_packets bursts

  loop-number :
      (seq : ℕ) (bursts : List (List P))
      → let r = lcore_main_loop seq bursts in
        (pkts : List P) × (rest : List P) × (r.0 ≡ number seq pkts)
        × (all_packets bursts ≡ pkts ++ rest)
        × (r.1 ≡ false → rest ≡ [])
  unfolding lcore_main_loop
  loop-number seq [] = ([], [], refl, refl, λ h. refl)
  loop-number seq ([] ∷ bursts) = loop-number seq bursts
  loop-number seq ((m ∷ ms) ∷ bursts) = elim (Bool-cases (leb 10 (seq_after seq (m ∷ ms)))) [
    | inl over ↦
        (m ∷ ms, all_packets bursts, rw over refl, refl, λ h. absurd (running (rw over at h)))
    | inr more ↦
        let (pkts, rest, e, all, whole) = loop-number (seq_after seq (m ∷ ms)) bursts in
        (
          (m ∷ ms) ++ pkts,
          rest,
          rw (more, e) (number-append seq (m ∷ ms) pkts),
          ap (λ ps. (m ∷ ms) ++ ps) all ∙ sym (append_assoc (m ∷ ms) pkts rest),
          λ h. whole (rw more at h),
        )
  ]
    where
      running : true ≡ false → ⊥
      running x = cc

  loop-ended :
      (seq : ℕ) (bursts : List (List P))
      → seq < 10
      → let r = lcore_main_loop seq bursts in
        (r.1 ≡ leb 10 (seq + total bursts)) × (leb 10 (seq + length r.0) ≡ r.1)
  unfolding lcore_main_loop
  loop-ended seq [] h = (ground arith, ground arith)
  loop-ended seq ([] ∷ bursts) h =
      let (a, b) = loop-ended seq bursts h in (a ∙ ap (leb 10) (omega arith), b)
  loop-ended seq ((m ∷ ms) ∷ bursts) h =
      let pkts = m ∷ ms in
      let s = seq_after-min seq pkts (omega arith) in
      let n = length-number seq pkts in
      elim (Bool-cases (leb 10 (seq_after seq pkts))) [
        | inl over ↦ rw over (ground (arith, s), ground (arith, s, n))
        | inr more ↦
            let (a, b) = loop-ended (seq_after seq pkts) bursts (ground arith) in
            let below : seq_after seq pkts < 10 = ground arith in
            let k =
              length-append (number seq pkts) (lcore_main_loop (seq_after seq pkts) bursts).0 in
            rw more (a ∙ ap (leb 10) (omega (arith, s)), ap (leb 10) (omega (arith, s, n, k)) ∙ b)
      ]

  -- The loop ends exactly if ten packets have come. The packets that it has freed then or by now are the first
  -- of those that came, each once and in the order in which they came: all of them as long as the loop runs, and
  -- ten at least when it has ended. The first ten of them have the numbers from 0 to 9 in that order, and the
  -- others none.
  pub lcore_main_loop_lem :
      (bursts : List (List P)) (i : ℕ)
      → i < length (lcore_main_loop 0 bursts).0
      → let r = lcore_main_loop 0 bursts in
        (r.1 ≡ leb 10 (total bursts))
        × (leb 10 (length r.0) ≡ r.1)
        × (get_or (map (λ p. p.1) r.0) i none ≡ (if ltb i 10 then some i else none))
        × ((rest : List P) × (all_packets bursts ≡ map (λ p. p.0) r.0 ++ rest)
            × (r.1 ≡ false → rest ≡ []))
  unfolding given
  lcore_main_loop_lem bursts i h =
      let (a, b) = loop-ended 0 bursts (omega arith) in
      let (pkts, rest, e, all, whole) = loop-number 0 bursts in
      let n = length-number 0 pkts in
      let l : i < length pkts = omega (arith, n, ap length e) in
      (
        a ∙ ap (leb 10) (omega arith),
        ap (leb 10) (omega arith) ∙ b,
        rw e (number-get 0 i pkts (omega arith) l ∙ ap given (omega arith)),
        (rest, rw (e, map-number 0 pkts) all, whole),
      )
