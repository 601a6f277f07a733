-- ===== src/FeatureArc/Chain.antt =====
-- The links between the nodes of feature_arc/sample/main.c.
use dpdk_for_beginners.Base.{
  ℕ, zero, suc, ◌<◌, ◌≡◌, ◌⊎◌, inl, inr, refl, sym, ◌∙◌, true, false, Bool-cases, Option, none,
  some, List, [], ◌∷◌, ◌++◌, All, length, if◌then◌else◌, arith,
}
use dpdk_for_beginners.FeatureArc.{Names, Node, Feature, set_next, link, find_next, dump}

module _ (N : Names) where
  open N use {Name, same, same_iff}

  abbrev pub Differ : Name → Name → Type 0
  Differ a b = same a b ≡ false

  pub Differ-sym : (a b : Name) → Differ a b → Differ b a
  Differ-sym a b d = elim (Bool-cases (same b a)) [
    | inr no_match ↦ no_match
    | inl match_ba ↦
        let back = (same_iff a b).1 (sym ((same_iff b a).0 match_ba)) in absurd (cc (d, back))
  ]

  -- No node has the name.
  abbrev pub IsFresh : Name → List (Node N) → Type 0
  IsFresh x ns = All (λ n. Differ n.name x) ns

  -- One node has it.
  abbrev pub IsOnce : Name → List (Node N) → Type 0
  IsOnce x [] = ⊥
  IsOnce x (n ∷ ns) = ((same n.name x ≡ true) × IsFresh x ns) ⊎ (Differ n.name x × IsOnce x ns)

  find-fresh :
      (x : Name) (d : Option Name) (ns : List (Node N)) → IsFresh x ns → find_next N x d ns ≡ d
  unfolding find_next
  find-fresh x d [] h = refl
  find-fresh x d (n ∷ ns) h = rw h.0 (find-fresh x d ns h.1)

  pub find-set_self :
      (x to : Name) (d : Option Name) (ns : List (Node N))
      → IsOnce x ns
      → find_next N x d (set_next N x to ns) ≡ some to
  unfolding find_next set_next
  find-set_self x to d [] h = absurd h
  find-set_self x to d (n ∷ ns) (inl (e, f)) =
      rw e (rw (find_next, e) (find-fresh x (some to) ns f))
  find-set_self x to d (n ∷ ns) (inr (e, f)) = rw e (rw (find_next, e) (find-set_self x to d ns f))

  pub find-set_ne :
      (from to x : Name) (ns : List (Node N)) (d : Option Name)
      → Differ from x
      → find_next N x d (set_next N from to ns) ≡ find_next N x d ns
  unfolding find_next set_next
  find-set_ne from to x [] d h = refl
  find-set_ne from to x (n ∷ ns) d h = elim (Bool-cases (same n.name from)) [
    | inl e ↦
        let q : Differ n.name x = rw ((same_iff n.name from).0 e) h in rw e (rw (find_next, q) refl)
    | inr e ↦ rw e (find-set_ne from to x ns _ h)
  ]

  pub IsFresh-set :
      (x from to : Name) (ns : List (Node N)) → IsFresh x ns → IsFresh x (set_next N from to ns)
  unfolding set_next
  IsFresh-set x from to [] h = tt
  IsFresh-set x from to (n ∷ ns) h = elim (Bool-cases (same n.name from)) [
    | inl e ↦ rw e h
    | inr e ↦ rw e (h.0, IsFresh-set x from to ns h.1)
  ]

  pub IsOnce-set :
      (x from to : Name) (ns : List (Node N)) → IsOnce x ns → IsOnce x (set_next N from to ns)
  unfolding set_next
  IsOnce-set x from to [] h = absurd h
  IsOnce-set x from to (n ∷ ns) h = elim (Bool-cases (same n.name from)) [
    | inl e ↦ rw e h
    | inr e ↦ rw e (elim h [
      | inl a ↦ inl (a.0, IsFresh-set x from to ns a.1)
      | inr a ↦ inr (a.0, IsOnce-set x from to ns a.1)
    ])
  ]

  abbrev pub enabled_names : List (Feature N) → List Name
  enabled_names [] = []
  enabled_names (f ∷ fs) = let rest = enabled_names fs in if f.enabled then f.name ∷ rest else rest

  abbrev pub ApartFrom : Name → List (Feature N) → Type 0
  ApartFrom x fs = All (λ f. Differ x f.name) fs

  -- A name that leads on: one node has it, and it is neither the end nor one of the features behind it.
  abbrev pub IsLink : Name → Name → List (Feature N) → List (Node N) → Type 0
  IsLink end x fs ns = IsOnce x ns × Differ x end × ApartFrom x fs

  abbrev pub AreLinks : Name → List (Feature N) → List (Node N) → Type 0
  AreLinks end [] ns = Unit
  AreLinks end (f ∷ fs) ns = IsLink end f.name fs ns × AreLinks end fs ns

  links-set :
      (end from to : Name) (fs : List (Feature N)) (ns : List (Node N))
      → AreLinks end fs ns
      → AreLinks end fs (set_next N from to ns)
  links-set end from to [] ns h = tt
  links-set end from to (f ∷ fs) ns h =
      ((IsOnce-set f.name from to ns h.0.0, h.0.1, h.0.2), links-set end from to fs ns h.1)

  -- The nodes before `prev` and those that are not features keep their links.
  pub find-link_ne :
      (end prev x : Name) (d : Option Name) (fs : List (Feature N)) (ns : List (Node N))
      → Differ prev x
      → All (λ f. Differ f.name x) fs
      → find_next N x d (link N end prev fs ns) ≡ find_next N x d ns
  unfolding link
  find-link_ne end prev x d [] ns p h = find-set_ne prev end x ns d p
  find-link_ne end prev x d (f ∷ fs) ns p h = elim (Bool-cases f.enabled) [
    | inl on ↦ rw on (
        find-link_ne end f.name x d fs (set_next N prev f.name ns) h.0 h.1
        ∙ find-set_ne prev f.name x ns d p)
    | inr off ↦ rw off (find-link_ne end prev x d fs ns p h.1)
  ]

  -- From a node the links lead through these names, and then no further.
  abbrev pub Follows : List (Node N) → Name → List Name → Type 0
  Follows ns cur [] = find_next N cur none ns ≡ none
  Follows ns cur (x ∷ xs) = (find_next N cur none ns ≡ some x) × Follows ns x xs

  apart-sym : (x : Name) (fs : List (Feature N)) → ApartFrom x fs → All (λ f. Differ f.name x) fs
  apart-sym x [] h = tt
  apart-sym x (f ∷ fs) h = (Differ-sym x f.name h.0, apart-sym x fs h.1)

  pub ends-apart :
      (end : Name) (fs : List (Feature N)) (ns : List (Node N))
      → AreLinks end fs ns
      → All (λ f. Differ f.name end) fs
  ends-apart end [] ns h = tt
  ends-apart end (f ∷ fs) ns h = (h.0.1, ends-apart end fs ns h.1)

  pub link-Follows :
      (end prev : Name) (fs : List (Feature N)) (ns : List (Node N))
      → find_next N end none ns ≡ none
      → IsLink end prev fs ns
      → AreLinks end fs ns
      → Follows (link N end prev fs ns) prev (enabled_names fs ++ (end ∷ []))
  unfolding link
  link-Follows end prev [] ns last p h =
      (find-set_self prev end none ns p.0, find-set_ne prev end end ns none p.1 ∙ last)
  link-Follows end prev (f ∷ fs) ns last (once, before, apart) h = elim (Bool-cases f.enabled) [
    | inr off ↦ rw off (link-Follows end prev fs ns last (once, before, apart.1) h.1)
    | inl on ↦
        let ms = set_next N prev f.name ns in
        rw on (
          find-link_ne end f.name prev none fs ms (Differ-sym prev f.name apart.0)
                (apart-sym prev fs apart.1)
              ∙ find-set_self prev f.name none ns once,
          link-Follows end f.name fs ms (find-set_ne prev f.name end ns none before ∙ last)
              (IsOnce-set f.name prev f.name ns h.0.0, h.0.1, h.0.2)
              (links-set end prev f.name fs ns h.1),
        )
  ]

  -- The printing goes along the links and ends.
  pub dump-Follows :
      (rounds : ℕ) (cur : Name) (names : List Name) (ns : List (Node N))
      → length names < rounds
      → Follows ns cur names
      → dump N rounds cur ns ≡ some (cur ∷ names)
  unfolding dump
  dump-Follows zero cur names ns l h = absurd (omega arith)
  dump-Follows (suc rounds) cur [] ns l h = rw (dump, h) refl
  dump-Follows (suc rounds) cur (x ∷ xs) ns l h =
      rw (dump, h.0, dump-Follows rounds x xs ns (omega arith) h.1) refl
