-- ===== src/Session.antt =====
-- The measurement of idle time in the main loops of nat_project/version3/main.c and
-- nat_project/version4/main.c: a session starts with a packet, and ends after a silence.
use dpdk_for_beginners.Base.{
  ℕ, ◌/◌, ◌<◌, ◌≡◌, ◌↔◌, ◌⊎◌, refl, inl, inr, Bool, true, false, List, [], ◌∷◌, leb, arith,
  Bool-cases, if◌then◌else◌,
}
use dpdk_for_beginners.Dpdk.{HashTable}
use dpdk_for_beginners.NatPool.Timers.{elapsed}
use dpdk_for_beginners.StaticNat.{IpPortKey}

-- What the loop polls: a burst, with the clock as it is read when a session starts and after the burst,
-- or nothing, with the clock as it is read then.
pub data Poll : Type 0 where
  burst : ℕ → ℕ → Poll
  silence : ℕ → Poll

module _ (H : HashTable IpPortKey ℕ) where
  -- the variables of `main`, with the table of sources
  pub record Session : Type 0 where
    pub start_tsc : ℕ
    pub last_rx_tsc : ℕ
    pub started : Bool
    pub seen : H.Table

  abbrev pub before_packets : H.Table → Session
  before_packets t = record { start_tsc = 0; last_rx_tsc = 0; started = false; seen = t }

  unfoldable pub on_burst : ℕ → ℕ → Session → Session
  on_burst first now s = record s {
    start_tsc = if s.started then s.start_tsc else first;
    started = true;
    last_rx_tsc = now;
  }

  module _ (limit hz : ℕ) where
    -- the branch without packets; after `limit` seconds the session ends
    unfoldable pub on_silence : ℕ → Session → Session
    on_silence now s =
        if s.started
        then if leb limit (elapsed now s.last_rx_tsc / hz)
          then record { start_tsc = 0; last_rx_tsc = 0; started = false; seen = H.reset s.seen }
          else s
        else s

    unfoldable pub poll : Poll → Session → Session
    unfolding on_burst on_silence
    poll (burst first now) s = on_burst first now s
    poll (silence now) s = on_silence now s

    -- the session after some turns of the loop
    unfoldable pub polls : List Poll → Session → Session
    unfolding poll
    polls [] s = s
    polls (e ∷ es) s = polls es (poll e s)

    -- Nothing came, and each poll was less than `limit` seconds after `last`.
    abbrev pub Quiet : ℕ → List Poll → Type 0
    Quiet last [] = Unit
    Quiet last (burst first now ∷ es) = ⊥
    Quiet last (silence now ∷ es) = (elapsed now last / hz < limit) × Quiet last es

    -- There was a burst, and since the last one no poll was `limit` seconds after it or more.
    pub data Open : List Poll → Type 0 where
      last : {first now : ℕ} {es : List Poll} → Quiet now es → Open (burst first now ∷ es)
      later : {e : Poll} {es : List Poll} → Open es → Open (e ∷ es)

    abbrev Goes : List Poll → Session → Type 0
    Goes es s = ((s.started ≡ true) × Quiet s.last_rx_tsc es) ⊎ Open es

    burst-Goes :
        (first now : ℕ) (es : List Poll) (s : Session)
        → Goes es (on_burst first now s) ↔ Goes (burst first now ∷ es) s
    unfolding on_burst
    burst-Goes first now es s = (forth, back)
      where
        forth : Goes es (on_burst first now s) → Goes (burst first now ∷ es) s
        forth (inl (_, q)) = inr (last q)
        forth (inr o) = inr (later o)

        back : Goes (burst first now ∷ es) s → Goes es (on_burst first now s)
        back (inl (_, x)) = elim x [ ]
        back (inr (last q)) = inl (refl, q)
        back (inr (later o)) = inr o

    -- whether the silence at `now` is too long for a session that goes on
    abbrev ends : ℕ → Session → Bool
    ends now s = leb limit (elapsed now s.last_rx_tsc / hz)

    on_silence_closed : (now : ℕ) (s : Session) → s.started ≡ false → on_silence now s ≡ s
    unfolding on_silence
    on_silence_closed now s n = rw n

    on_silence_short : (now : ℕ) (s : Session) → ends now s ≡ false → on_silence now s ≡ s
    unfolding on_silence
    on_silence_short now s short = elim (Bool-cases s.started) [
      | inl y ↦ rw (y, short) refl
      | inr n ↦ rw n
    ]

    on_silence_long :
        (now : ℕ) (s : Session)
        → s.started ≡ true
        → ends now s ≡ true
        → (on_silence now s).started ≡ false
    unfolding on_silence
    on_silence_long now s y long = rw (y, long) refl

    keep :
        (now : ℕ) (es : List Poll) (s : Session)
        → (s.started ≡ true → ends now s ≡ false)
        → Goes es s ↔ Goes (silence now ∷ es) s
    keep now es s short = (forth, back)
      where
        forth : Goes es s → Goes (silence now ∷ es) s
        forth (inl (y, q)) = inl (y, (ground (arith, short y), q))
        forth (inr o) = inr (later o)

        back : Goes (silence now ∷ es) s → Goes es s
        back (inl (y, q)) = inl (y, q.1)
        back (inr (later o)) = inr o

    finish :
        (now : ℕ) (es : List Poll) (s r : Session)
        → r.started ≡ false
        → ends now s ≡ true
        → Goes es r ↔ Goes (silence now ∷ es) s
    finish now es s r closed long = (forth, back)
      where
        clash : r.started ≡ true → ⊥
        clash y = cc (y, closed)

        forth : Goes es r → Goes (silence now ∷ es) s
        forth (inl (y, q)) = absurd (clash y)
        forth (inr o) = inr (later o)

        back : Goes (silence now ∷ es) s → Goes es r
        back (inl (y, q)) = absurd (ground (arith, q.0, long))
        back (inr (later o)) = inr o

    silence-Goes :
        (now : ℕ) (es : List Poll) (s : Session)
        → Goes es (on_silence now s) ↔ Goes (silence now ∷ es) s
    silence-Goes now es s = elim (Bool-cases (ends now s)) [
      | inr short ↦ rw (on_silence_short now s short) (keep now es s (λ y. short))
      | inl long ↦ elim (Bool-cases s.started) [
        | inl y ↦ finish now es s (on_silence now s) (on_silence_long now s y long) long
        | inr n ↦ rw (on_silence_closed now s n) (keep now es s (λ y. cc (y, n)))
      ]
    ]

    polls-Goes : (es : List Poll) (s : Session) → ((polls es s).started ≡ true) ↔ Goes es s
    unfolding polls
    polls-Goes [] s = ((λ y. inl (y, tt)), back)
      where
        back : Goes [] s → s.started ≡ true
        back (inl (y, _)) = y
        back (inr o) = elim o [ ]
    polls-Goes (burst first now ∷ es) s =
        let a = polls-Goes es (on_burst first now s) in
        let b = burst-Goes first now es s in ((λ h. b.0 (a.0 h)), (λ h. a.1 (b.1 h)))
    polls-Goes (silence now ∷ es) s =
        let a = polls-Goes es (on_silence now s) in
        let b = silence-Goes now es s in ((λ h. b.0 (a.0 h)), (λ h. a.1 (b.1 h)))

    -- From the start on, a session goes on exactly if there was a burst and every poll since the last
    -- one found less than `limit` seconds gone since that burst.
    pub polls-Open :
        (es : List Poll) (t : H.Table) → ((polls es (before_packets t)).started ≡ true) ↔ Open es
    polls-Open es t = (forth, (λ o. (polls-Goes es (before_packets t)).1 (inr o)))
      where
        open_only : Goes es (before_packets t) → Open es
        open_only (inl (y, _)) = cc
        open_only (inr o) = o

        forth : (polls es (before_packets t)).started ≡ true → Open es
        forth h = open_only ((polls-Goes es (before_packets t)).0 h)

  -- version3 ends a session after 5 seconds, and version4 after 15
  unfoldable pub session_v3 : ℕ → List Poll → Session → Session
  unfolding polls
  session_v3 hz = polls 5 hz

  unfoldable pub session_v4 : ℕ → List Poll → Session → Session
  unfolding polls
  session_v4 hz = polls 15 hz
