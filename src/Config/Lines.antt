-- ===== src/Config/Lines.antt =====
-- What can be said of the loop over the lines of a file, whatever each line does.
use dpdk_for_beginners.Base.{
  ℕ, ◌+◌, ◌≡◌, refl, inl, inr, Option, none, some, List, [], ◌∷◌, All, subst, Option-cases,
  some-inj,
}
use dpdk_for_beginners.Config.{Text, Malloc, read_line, take_line, load_lines}

pub nothing_loaded : {A : Type 0} {x : A} → none ≡ some x → ⊥
nothing_loaded e = cc

-- What each addition keeps is kept by the lines of a file.
module _ {S : Type 0} (P : S → Type 0) (sscanf : Text → Option (Text × Text))
    (add : Malloc → Text → Text → S → Option S)
    (keep : (memory : Malloc) (a b : Text) (s r : S) → add memory a b s ≡ some r → P s → P r) where
  take_line_keeps :
      (memory : Malloc) (o : Option (Text × Text)) (s : S) (count : ℕ) (x : S × ℕ)
      → take_line sscanf add memory o s count ≡ some x
      → P s
      → P x.0
  unfolding take_line
  take_line_keeps memory none s count x e v = subst (λ (y : S × ℕ). P y.0) (some-inj e) v
  take_line_keeps memory (some (a, b)) s count x e v = elim (Option-cases (add memory a b s)) [
    | inl n ↦ absurd (nothing_loaded (rw n at e))
    | inr (r, y) ↦ subst (λ (z : S × ℕ). P z.0) (some-inj (rw y at e)) (keep memory a b s r y v)
  ]

  pub load_lines_keeps :
      (lines : List (Malloc × Text)) (s : S) (count : ℕ) (x : S × ℕ)
      → load_lines sscanf add lines s count ≡ some x
      → P s
      → P x.0
  unfolding load_lines
  load_lines_keeps [] s count x e v = subst (λ (y : S × ℕ). P y.0) (some-inj e) v
  load_lines_keeps ((memory, line) ∷ lines) s count x e v =
      elim (Option-cases (take_line sscanf add memory (read_line sscanf line) s count)) [
        | inl n ↦ absurd (nothing_loaded (rw (load_lines, n) at e))
        | inr (y, t) ↦
            load_lines_keeps lines y.0 y.1 x (rw (load_lines, t) at e)
              (take_line_keeps memory (read_line sscanf line) s count y t v)
      ]

-- There is memory for each line, and what a valid one says is as `Q` wants it.
abbrev pub LineOk : (ℕ × ℕ → Text → Text → Type 0) → Malloc → Option (Text × Text) → Type 0
LineOk Q none o = ⊥
LineOk Q (some x) none = Unit
LineOk Q (some x) (some (a, b)) = Q x a b

-- Lines are loaded where no addition fails.
module _ {S : Type 0} (sscanf : Text → Option (Text × Text))
    (add : Malloc → Text → Text → S → Option S) (Inv : S → Type 0)
    (Q : ℕ × ℕ → Text → Text → Type 0)
    (adds : (x : ℕ × ℕ) (a b : Text) (s : S)
      → Q x a b
      → Inv s
      → (r : S) × (add (some x) a b s ≡ some r) × Inv r) where
  take_line_total :
      (memory : Malloc) (o : Option (Text × Text)) (s : S) (count : ℕ)
      → LineOk Q memory o
      → Inv s
      → (x : S × ℕ) × (take_line sscanf add memory o s count ≡ some x) × Inv x.0
  unfolding take_line
  take_line_total none o s count ok v = absurd ok
  take_line_total (some x) none s count ok v = ((s, count), refl, v)
  take_line_total (some x) (some (a, b)) s count ok v =
      let (r, e, w) = adds x a b s ok v in ((r, count + 1), rw e refl, w)

  pub load_lines_total :
      (lines : List (Malloc × Text)) (s : S) (count : ℕ)
      → All (λ l. LineOk Q l.0 (read_line sscanf l.1)) lines
      → Inv s
      → (x : S × ℕ) × (load_lines sscanf add lines s count ≡ some x)
  unfolding load_lines
  load_lines_total [] s count ok v = ((s, count), refl)
  load_lines_total ((memory, line) ∷ lines) s count (here, ok) v =
      let (y, e, w) = take_line_total memory (read_line sscanf line) s count here v in
      let (x, f) = load_lines_total lines y.0 y.1 ok w in (x, rw (load_lines, e) f)
