-- ===== src/Tests/PacketChange.antt =====
-- packet_change/main.c on a packet of six bytes, with calls that do what their documentation says.
use dpdk_for_beginners.Base.{
  ℕ, zero, suc, ◌-◌, ◌≤◌, ◌<◌, ◌≡◌, refl, true, false, none, some, List, [], ◌∷◌, ◌++◌, length,
  take, drop, ltb, if◌then◌else◌, arith,
}
use dpdk_for_beginners.Mbuf.{Segment, PktMbuf}
use dpdk_for_beginners.PacketChange.{operations, add_header}
use dpdk_for_beginners.PacketChange.Edit.{bytes_of}

below : (a b : ℕ) → a < b → ltb a b ≡ true
below a b h = ground arith

not_below : (a b : ℕ) → b ≤ a → ltb a b ≡ false
not_below a b h = ground arith

abbrev documented : PktMbuf
documented = record {
  append = λ n m.
      if ltb (length m.tailroom) n
      then none
      else some (record m { bytes = m.bytes ++ take n m.tailroom; tailroom = drop n m.tailroom });
  prepend = λ n m.
      if ltb (length m.headroom) n
      then none
      else some (record m {
        headroom = take (length m.headroom - n) m.headroom;
        bytes = drop (length m.headroom - n) m.headroom ++ m.bytes;
      });
  adj = λ n m.
      if ltb (length m.bytes) n
      then m
      else record m { headroom = m.headroom ++ take n m.bytes; bytes = drop n m.bytes };
  trim = λ n m. if ltb (length m.bytes) n then m else record m {
    bytes = take (length m.bytes - n) m.bytes;
    tailroom = drop (length m.bytes - n) m.bytes ++ m.tailroom;
  };
  append-some = λ n m h. rw (not_below (length m.tailroom) n h) refl;
  append-none = λ n m h. rw (below (length m.tailroom) n h) refl;
  prepend-some = λ n m h. rw (not_below (length m.headroom) n h) refl;
  prepend-none = λ n m h. rw (below (length m.headroom) n h) refl;
  adj-some = λ n m h. rw (not_below (length m.bytes) n h) refl;
  trim-some = λ n m h. rw (not_below (length m.bytes) n h) refl;
  adj-same = λ n m h. rw (below (length m.bytes) n h) refl;
  trim-same = λ n m h. rw (below (length m.bytes) n h) refl;
}

abbrev room : ℕ → List ℕ
room zero = []
room (suc n) = 0 ∷ room n

abbrev six_bytes : Segment
six_bytes = record { headroom = room 16; bytes = 1 ∷ 2 ∷ 3 ∷ 4 ∷ 5 ∷ 6 ∷ []; tailroom = room 12 }

-- the same packet without ten bytes before it
abbrev cramped : Segment
cramped = record six_bytes { headroom = room 9 }

cramped_bytes :
    bytes_of documented (operations documented cramped)
    ≡ some (6 ∷ 68 ∷ 80 ∷ 68 ∷ 75 ∷ 45 ∷ 77 ∷ [])
unfolding operations add_header
cramped_bytes = refl
