-- ===== src/PacketChange/Edit.antt =====
-- What packet_change/main.c leaves of a packet.
use dpdk_for_beginners.Base.{
  ℕ, ◌+◌, ◌-◌, ◌≤◌, ◌<◌, ◌≡◌, refl, sym, Bool-cases, inl, inr, All, ◌∙◌, Option, none, some, List,
  [], ◌∷◌, ◌++◌, length, take, drop, ltb, if◌then◌else◌, length-append, length-take, length-drop,
  take-append, drop-append, append_assoc, drop-append_left, ap, arith,
}
use dpdk_for_beginners.Mbuf.{Segment, PktMbuf}
use dpdk_for_beginners.PacketChange.{msg, hdr, Sizes, operations, add_header, copy_to_end}

-- the part of "DPDK-MBUF" that stays
abbrev kept : List ℕ
kept = 68 ∷ 80 ∷ 68 ∷ 75 ∷ 45 ∷ 77 ∷ []

abbrev cut : List ℕ
cut = 66 ∷ 85 ∷ 70 ∷ 0 ∷ []

abbrev half_hdr : List ℕ
half_hdr = 72 ∷ 72 ∷ 72 ∷ 72 ∷ 72 ∷ []

-- The bytes that are left where there is room behind the packet.
abbrev pub edited : Segment → List ℕ
edited m =
    if ltb (length m.headroom) 10 then drop 5 (m.bytes ++ kept) else half_hdr ++ (m.bytes ++ kept)

abbrev pub total : Segment → ℕ
total m = length m.headroom + length m.bytes + length m.tailroom

abbrev pub total_of : Sizes → ℕ
total_of (len, head, tail) = head + len + tail

-- the packet before the last two calls
abbrev pub extended : Segment → Segment
extended m = record m { bytes = m.bytes ++ msg; tailroom = drop 10 m.tailroom }

appended-extended :
    (m : Segment)
    → 10 ≤ length m.tailroom
    → copy_to_end msg
        (record m { bytes = m.bytes ++ take 10 m.tailroom; tailroom = drop 10 m.tailroom })
      ≡ extended m
appended-extended m h =
    let k : length (m.bytes ++ take 10 m.tailroom) - 10 ≡ length m.bytes =
      omega (arith, length-append m.bytes (take 10 m.tailroom), length-take 10 m.tailroom) in
    ap (λ b. record m { bytes = b ++ msg; tailroom = drop 10 m.tailroom })
      (take-append _ m.bytes (take 10 m.tailroom) k)

module _ (M : PktMbuf) where
  add_header-room :
      (m : Segment)
      → 10 ≤ length m.headroom
      → add_header M m
        ≡ record m { headroom = take (length m.headroom - 10) m.headroom; bytes = hdr ++ m.bytes }
  unfolding add_header
  add_header-room m h =
      let k = length m.headroom - 10 in
      let rest : drop 10 (drop k m.headroom ++ m.bytes) ≡ m.bytes =
        drop-append 10 _ m.bytes (omega (arith, length-drop k m.headroom)) in
      rw (add_header, M.prepend-some 10 m h, rest) refl

  add_header-none : (m : Segment) → length m.headroom < 10 → add_header M m ≡ m
  unfolding add_header
  add_header-none m h = rw (add_header, M.prepend-none 10 m h) refl

  -- No call changes the size of the buffer.
  total-adj : (n : ℕ) (m : Segment) → total (M.adj n m) ≡ total m
  total-adj n m = elim (Bool-cases (ltb (length m.bytes) n)) [
    | inl short ↦ ap total (M.adj-same n m (ground arith))
    | inr long ↦ rw (M.adj-some n m (ground arith)) (
        omega (
          arith,
          length-append m.headroom (take n m.bytes),
          length-take n m.bytes,
          length-drop n m.bytes,
        ))
  ]

  total-trim : (n : ℕ) (m : Segment) → total (M.trim n m) ≡ total m
  total-trim n m = elim (Bool-cases (ltb (length m.bytes) n)) [
    | inl short ↦ ap total (M.trim-same n m (ground arith))
    | inr long ↦
        let k = length m.bytes - n in
        rw (M.trim-some n m (ground arith)) (
          omega (
            arith,
            length-append (drop k m.bytes) m.tailroom,
            length-take k m.bytes,
            length-drop k m.bytes,
          ))
  ]

  total-add_header : (m : Segment) → total (add_header M m) ≡ total m
  total-add_header m = elim (Bool-cases (ltb (length m.headroom) 10)) [
    | inl short ↦ ap total (add_header-none m (ground arith))
    | inr long ↦
        let room : 10 ≤ length m.headroom = ground arith in
        rw (add_header-room m room) (
          omega (arith, length-append hdr m.bytes, length-take (length m.headroom - 10) m.headroom))
  ]

  total-extended : (m : Segment) → 10 ≤ length m.tailroom → total (extended m) ≡ total m
  total-extended m h = omega (arith, length-append m.bytes msg, length-drop 10 m.tailroom)

  -- What the last two calls leave of a packet that ends in `msg`.
  adj_trim-bytes :
      (m : Segment) (bs : List ℕ)
      → 5 ≤ length m.bytes
      → drop 5 m.bytes ≡ bs ++ cut
      → (M.trim 4 (M.adj 5 m)).bytes ≡ bs
  adj_trim-bytes m bs h e =
      let n = length-append bs cut in
      let a = M.adj-some 5 m h in
      let t =
        M.trim-some 4 (record m { headroom = m.headroom ++ take 5 m.bytes; bytes = drop 5 m.bytes })
          (rw e (omega (arith, n))) in
      rw (a, t, e) (take-append _ bs cut (omega (arith, n)))

  with_cut : (bs : List ℕ) → bs ++ msg ≡ (bs ++ kept) ++ cut
  with_cut bs = sym (append_assoc bs kept cut)

  edited-bytes : (m : Segment) → (M.trim 4 (M.adj 5 (add_header M (extended m)))).bytes ≡ edited m
  edited-bytes m = elim (Bool-cases (ltb (length m.headroom) 10)) [
    | inl short ↦
        rw (short, add_header-none (extended m) (ground arith))
          (adj_trim-bytes (extended m) (drop 5 (m.bytes ++ kept))
            (omega (arith, length-append m.bytes msg))
            (ap (drop 5) (with_cut m.bytes)
              ∙ drop-append_left 5 (m.bytes ++ kept) cut
                  (omega (arith, length-append m.bytes kept))))
    | inr long ↦
        rw (long, add_header-room (extended m) (ground arith))
          (adj_trim-bytes _ (half_hdr ++ (m.bytes ++ kept)) (omega arith)
            (ap (λ b. half_hdr ++ b) (with_cut m.bytes)))
  ]

  abbrev pub bytes_of : Option (Segment × List Sizes) → Option (List ℕ)
  bytes_of none = none
  bytes_of (some r) = some r.0.bytes

  abbrev pub sizes_of : Option (Segment × List Sizes) → List Sizes
  sizes_of none = []
  sizes_of (some r) = r.1

  -- Without ten bytes behind the packet the program leaves. Otherwise the packet has gained "DPDK-M" at its
  -- end, and at its start five times 'H', where there are ten bytes before it, or else lost five bytes
  -- there; in each line that is printed the sizes are those of the whole buffer.
  pub operations_lem :
      (m : Segment)
      → let r = operations M m in
        (bytes_of r ≡ (if ltb (length m.tailroom) 10 then none else some (edited m)))
        × All (λ s. total_of s ≡ total m) (sizes_of r)
  unfolding operations
  operations_lem m = elim (Bool-cases (ltb (length m.tailroom) 10)) [
    | inl short ↦ rw (operations, short, M.append-none 10 m (ground arith)) (refl, tt)
    | inr long ↦
        let room : 10 ≤ length m.tailroom = ground arith in
        let e = total-extended m room in
        let p = total-add_header (extended m) in
        let a = total-adj 5 (add_header M (extended m)) in
        let t = total-trim 4 (M.adj 5 (add_header M (extended m))) in
        rw (operations, long, M.append-some 10 m room, appended-extended m room)
          (
            ap some (edited-bytes m),
            (
              refl,
              (ap total (appended-extended m room) ∙ e, (p ∙ e, (a ∙ p ∙ e, (t ∙ a ∙ p ∙ e, tt)))),
            ),
          )
  ]
