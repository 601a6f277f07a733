-- ===== src/Rcu/Safety.antt =====
-- The reader never holds a structure that has been freed.
use dpdk_for_beginners.Base.{
  ℕ, zero, suc, ◌+◌, ◌≤◌, ◌≡◌, ◌≢◌, All, ◌⊎◌, inl, inr, refl, ap, ◌∙◌, Bool, true, false, List, [],
  ◌∷◌, arith,
}
use dpdk_for_beginners.Rcu.{
  Writer, updating, swapped, synchronizing, freeing, joining, cleaned, Reader, offline, online,
  reading, unlocked, gone, System, exchange, call_synchronize, free_old, clean_up, print_value,
  Step, writer_exchanges, writer_synchronizes, writer_returns, writer_returns_early, writer_frees,
  writer_stops, main_cleans_up, reader_comes_online, reader_loads, reader_prints, reader_reports,
  reader_leaves, Reach, begin, next,
}

-- the structures below `n`, the last one in front
abbrev pub below : ℕ → List ℕ
below zero = []
below (suc n) = n ∷ below n

-- how many structures have been freed
abbrev pub frees : Writer → ℕ
frees (updating i) = i
frees (swapped i) = i
frees (synchronizing i) = i
frees (freeing i) = i
frees joining = 5
frees cleaned = 6

-- the structure in place, as long as there is one
abbrev current : Writer → ℕ
current (updating i) = i
current (swapped i) = suc i
current (synchronizing i) = suc i
current (freeing i) = suc i
current joining = 5
current cleaned = 5

-- the oldest structure that the reader may hold; in `rte_rcu_qsbr_synchronize` it depends on whether the
-- reader has been heard of
abbrev oldest : Writer → Bool → ℕ
oldest (updating i) b = i
oldest (swapped i) b = i
oldest (synchronizing i) true = suc i
oldest (synchronizing i) false = i
oldest (freeing i) b = suc i
oldest joining b = 5
oldest cleaned b = 6

-- no value is below one that was printed before it, and none is above `n`
abbrev pub Rising : ℕ → List ℕ → Type 0
Rising n [] = Unit
Rising n (v ∷ vs) = (v ≤ n) × Rising v vs

-- up to what the printed values go: what the reader holds, or what it can get
abbrev top : Reader → ℕ → ℕ
top (reading v) n = v
top offline n = n
top online n = n
top unlocked n = n
top gone n = n

record Inv (s : System) : Type 0 where
  in_place : s.gdata ≡ current s.writer
  all_freed : s.freed ≡ below (frees s.writer)
  held : (v : ℕ) → s.reader ≡ reading v → (oldest s.writer s.reported ≤ v) × (v ≤ s.gdata)
  rising : Rising (top s.reader s.gdata) s.printed
  stopping : s.stop ≡ true → (s.writer ≡ joining) ⊎ (s.writer ≡ cleaned)
  finished : s.writer ≡ cleaned → s.reader ≡ gone

Rising-up : (n m : ℕ) (vs : List ℕ) → n ≤ m → Rising n vs → Rising m vs
Rising-up n m [] h r = tt
Rising-up n m (v ∷ vs) h r = (omega (arith, r.0), r.1)

top-up : (r : Reader) (n m : ℕ) (vs : List ℕ) → n ≤ m → Rising (top r n) vs → Rising (top r m) vs
top-up offline n m vs h r = Rising-up n m vs h r
top-up online n m vs h r = Rising-up n m vs h r
top-up (reading v) n m vs h r = r
top-up unlocked n m vs h r = Rising-up n m vs h r
top-up gone n m vs h r = Rising-up n m vs h r

current-oldest : (w : Writer) (b : Bool) → (w ≡ cleaned → ⊥) → oldest w b ≤ current w
current-oldest (updating i) b h = omega arith
current-oldest (swapped i) b h = omega arith
current-oldest (synchronizing i) true h = omega arith
current-oldest (synchronizing i) false h = omega arith
current-oldest (freeing i) b h = omega arith
current-oldest joining b h = omega arith
current-oldest cleaned b h = absurd (h refl)

Step-Inv : {s t : System} → Step s t → Inv s → Inv t
unfolding exchange call_synchronize free_old clean_up print_value
Step-Inv (writer_exchanges s i p q) v = record {
  in_place = omega arith;
  all_freed = ground (arith, v);
  held = λ k e. ground (arith, v, v.held k e);
  rising = top-up s.reader s.gdata (i + 1) s.printed (ground (arith, v)) v.rising;
  stopping = λ e. ground (arith, v);
  finished = λ e. cc;
}
Step-Inv (writer_synchronizes s i p) v = record {
  in_place = ground (arith, v);
  all_freed = ground (arith, v);
  held = λ k e. ground (arith, v.held k e);
  rising = v.rising;
  stopping = λ e. ground (arith, v);
  finished = λ e. cc;
}
Step-Inv (writer_returns s i p q) v = record {
  in_place = ground (arith, v);
  all_freed = ground (arith, v);
  held = λ k e. ground (arith, v.held k e);
  rising = v.rising;
  stopping = λ e. ground (arith, v);
  finished = λ e. cc;
}
Step-Inv (writer_returns_early s i p q) v = record {
  in_place = ground (arith, v);
  all_freed = ground (arith, v);
  held = λ k e. absurd (clash q e);
  rising = v.rising;
  stopping = λ e. ground (arith, v);
  finished = λ e. cc;
}
  where
    clash : {k : ℕ} → s.reader ≡ offline → s.reader ≡ reading k → ⊥
    clash a b = cc
Step-Inv (writer_frees s i p) v = record {
  in_place = ground (arith, v);
  all_freed = ground (arith, v);
  held = λ k e. ground (arith, v.held k e);
  rising = v.rising;
  stopping = λ e. ground (arith, v);
  finished = λ e. cc;
}
Step-Inv (writer_stops s p) v = record {
  in_place = ground (arith, v);
  all_freed = ground (arith, v);
  held = λ k e. ground (arith, v.held k e);
  rising = v.rising;
  stopping = λ e. inl refl;
  finished = λ e. cc;
}
Step-Inv (main_cleans_up s p q) v = record {
  in_place = ground (arith, v);
  all_freed = ground (arith, v);
  held = λ k e. absurd (clash q e);
  rising = v.rising;
  stopping = λ e. inr refl;
  finished = λ e. q;
}
  where
    clash : {k : ℕ} → s.reader ≡ gone → s.reader ≡ reading k → ⊥
    clash a b = cc
Step-Inv (reader_comes_online s p) v = record {
  in_place = v.in_place;
  all_freed = v.all_freed;
  held = λ k e. cc;
  rising = rw p at v.rising;
  stopping = v.stopping;
  finished = λ e. cc (v.finished e);
}
Step-Inv (reader_loads s p) v = record {
  in_place = v.in_place;
  all_freed = v.all_freed;
  held = λ k e.
      let q : s.gdata ≡ k = cc in
      let c = current-oldest s.writer s.reported (λ w. clash p (v.finished w)) in
      (omega (arith, v.in_place), omega arith);
  rising = rw p at v.rising;
  stopping = v.stopping;
  finished = λ e. cc (v.finished e);
}
  where
    clash : s.reader ≡ online → s.reader ≡ gone → ⊥
    clash a b = cc
Step-Inv (reader_prints s k p) v = record {
  in_place = v.in_place;
  all_freed = v.all_freed;
  held = λ j e. cc;
  rising = ((v.held k p).1, rw p at v.rising);
  stopping = v.stopping;
  finished = λ e. cc (v.finished e);
}
Step-Inv (reader_reports s p) v = record {
  in_place = v.in_place;
  all_freed = v.all_freed;
  held = λ k e. cc;
  rising = rw p at v.rising;
  stopping = v.stopping;
  finished = λ e. cc (v.finished e);
}
Step-Inv (reader_leaves s p q) v = record {
  in_place = v.in_place;
  all_freed = v.all_freed;
  held = λ k e. cc;
  rising = rw p at v.rising;
  stopping = v.stopping;
  finished = λ e. refl;
}

Reach-Inv : {s : System} → Reach s → Inv s
Reach-Inv begin = record {
  in_place = refl;
  all_freed = refl;
  held = λ v e. cc;
  rising = tt;
  stopping = λ e. cc;
  finished = λ e. cc;
}
Reach-Inv (next r s) = Step-Inv s (Reach-Inv r)

frees-oldest : (w : Writer) (b : Bool) → frees w ≤ oldest w b
frees-oldest (updating i) b = omega arith
frees-oldest (swapped i) b = omega arith
frees-oldest (synchronizing i) true = omega arith
frees-oldest (synchronizing i) false = omega arith
frees-oldest (freeing i) b = omega arith
frees-oldest joining b = omega arith
frees-oldest cleaned b = omega arith

below-ne : (n v : ℕ) → n ≤ v → All (λ f. f ≢ v) (below n)
below-ne zero v h = tt
below-ne (suc n) v h = ((λ e. omega arith), below-ne n v (omega arith))

Rising-top :
    (r : Reader) (n : ℕ) (vs : List ℕ)
    → ((v : ℕ) → r ≡ reading v → v ≤ n)
    → Rising (top r n) vs
    → Rising n vs
Rising-top offline n vs h r = r
Rising-top online n vs h r = r
Rising-top (reading v) n vs h r = Rising-up v n vs (h v refl) r
Rising-top unlocked n vs h r = r
Rising-top gone n vs h r = r

-- However the writer and the reader are interleaved, the reader never holds a structure that has been freed;
-- the structures are freed in the order of their allocation, each of them once, and at the end all six; and
-- the reader never prints a value below one that it has printed before.
pub reader_safe :
    {s : System}
    → Reach s
    → ((v : ℕ) → s.reader ≡ reading v → All (λ f. f ≢ v) s.freed)
      × ((n : ℕ) × (s.freed ≡ below n))
      × (s.writer ≡ cleaned → s.freed ≡ below 6)
      × Rising s.gdata s.printed
reader_safe {s} r =
    let v = Reach-Inv r in
    (
      λ k e. rw v.all_freed (
          below-ne (frees s.writer) k
            (omega (arith, frees-oldest s.writer s.reported, v.held k e))),
      (frees s.writer, v.all_freed),
      λ e. v.all_freed ∙ ap (λ w. below (frees w)) e,
      Rising-top s.reader s.gdata s.printed (λ k e. (v.held k e).1) v.rising,
    )
