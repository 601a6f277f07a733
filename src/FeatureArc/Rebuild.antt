-- ===== src/FeatureArc/Rebuild.antt =====
-- What feature_arc/sample/main.c prints after features were enabled and disabled in any order.
use dpdk_for_beginners.Base.{
  ℕ, suc, ◌+◌, ◌≤◌, ◌<◌, ◌≡◌, refl, sym, ap, ◌∙◌, Bool, true, false, Bool-cases, inl, inr, none,
  some, List, [], ◌∷◌, ◌++◌, length, length-append, if◌then◌else◌, arith,
}
use dpdk_for_beginners.FeatureArc.{
  Names, Node, Feature, Pipeline, set_enabled, feature_enable, feature_disable, link,
  feature_arc_rebuild, find_next, dump_pipeline,
}
use dpdk_for_beginners.FeatureArc.Chain.{
  IsOnce, IsOnce-set, enabled_names, ApartFrom, IsLink, AreLinks, find-link_ne, ends-apart,
  link-Follows, dump-Follows,
}

module _ (N : Names) where
  open N use {Name, same}

  pub data Op : Type 0 where
    enable disable : Name → Op
    rebuild : Op

  unfoldable pub perform : Pipeline N → Op → Pipeline N
  unfolding feature_enable feature_disable feature_arc_rebuild
  perform p (enable name) = feature_enable N name p
  perform p (disable name) = feature_disable N name p
  perform p rebuild = feature_arc_rebuild N p

  unfoldable pub run : Pipeline N → List Op → Pipeline N
  unfolding perform
  run p [] = p
  run p (op ∷ ops) = run (perform p op) ops

  -- the last operation that names a feature decides on it
  abbrev pub wanted : List Op → Name → Bool → Bool
  wanted [] x b = b
  wanted (enable y ∷ ops) x b = wanted ops x (if same x y then true else b)
  wanted (disable y ∷ ops) x b = wanted ops x (if same x y then false else b)
  wanted (rebuild ∷ ops) x b = wanted ops x b

  abbrev pub settle : List Op → Feature N → Bool → Feature N
  settle ops f b = record f { enabled = wanted ops f.name b }

  abbrev pub decide : List Op → List (Feature N) → List (Feature N)
  decide ops [] = []
  decide ops (f ∷ fs) = settle ops f f.enabled ∷ decide ops fs

  -- The nodes of the start and of the features are there once, their names differ from each other and from the
  -- end, and the end leads nowhere.
  abbrev pub IsSound : Pipeline N → Type 0
  IsSound p =
      (find_next N p.end none p.nodes ≡ none)
      × IsLink N p.end p.start p.features p.nodes
      × AreLinks N p.end p.features p.nodes

  apart-set_enabled :
      (b : Bool) (name x : Name) (fs : List (Feature N))
      → ApartFrom N x fs
      → ApartFrom N x (set_enabled N b name fs)
  unfolding set_enabled
  apart-set_enabled b name x [] h = tt
  apart-set_enabled b name x (f ∷ fs) h = elim (Bool-cases (same f.name name)) [
    | inl e ↦ rw e (h.0, apart-set_enabled b name x fs h.1)
    | inr e ↦ rw e (h.0, apart-set_enabled b name x fs h.1)
  ]

  links-set_enabled :
      (b : Bool) (name end : Name) (fs : List (Feature N)) (ns : List (Node N))
      → AreLinks N end fs ns
      → AreLinks N end (set_enabled N b name fs) ns
  unfolding set_enabled
  links-set_enabled b name end [] ns h = tt
  links-set_enabled b name end (f ∷ fs) ns ((once, before, apart), h) =
      let here : IsLink N end f.name (set_enabled N b name fs) ns =
        (once, before, apart-set_enabled b name f.name fs apart) in
      let rest = links-set_enabled b name end fs ns h in
      elim (Bool-cases (same f.name name)) [ inl e ↦ rw e (here, rest) | inr e ↦ rw e (here, rest) ]

  IsOnce-link :
      (x end prev : Name) (fs : List (Feature N)) (ns : List (Node N))
      → IsOnce N x ns
      → IsOnce N x (link N end prev fs ns)
  unfolding link
  IsOnce-link x end prev [] ns h = IsOnce-set N x prev end ns h
  IsOnce-link x end prev (f ∷ fs) ns h = elim (Bool-cases f.enabled) [
    | inl on ↦ rw on (IsOnce-link x end f.name fs _ (IsOnce-set N x prev f.name ns h))
    | inr off ↦ rw off (IsOnce-link x end prev fs ns h)
  ]

  links-link :
      (end prev : Name) (fs gs : List (Feature N)) (ns : List (Node N))
      → AreLinks N end fs ns
      → AreLinks N end fs (link N end prev gs ns)
  links-link end prev [] gs ns h = tt
  links-link end prev (f ∷ fs) gs ns ((once, before, apart), h) =
      ((IsOnce-link f.name end prev gs ns once, before, apart), links-link end prev fs gs ns h)

  perform-IsSound : (p : Pipeline N) (op : Op) → IsSound p → IsSound (perform p op)
  unfolding perform feature_enable feature_disable feature_arc_rebuild
  perform-IsSound p (enable name) (last, (once, before, apart), h) = (
    last,
    (once, before, apart-set_enabled true name p.start p.features apart),
    links-set_enabled true name p.end p.features p.nodes h,
  )
  perform-IsSound p (disable name) (last, (once, before, apart), h) = (
    last,
    (once, before, apart-set_enabled false name p.start p.features apart),
    links-set_enabled false name p.end p.features p.nodes h,
  )
  perform-IsSound p rebuild (last, (once, before, apart), h) = (
    find-link_ne N p.end p.start p.end none p.features p.nodes before
          (ends-apart N p.end p.features p.nodes h)
        ∙ last,
    (IsOnce-link p.start p.end p.start p.features p.nodes once, before, apart),
    links-link p.end p.start p.features p.features p.nodes h,
  )

  decide-none : (fs : List (Feature N)) → decide [] fs ≡ fs
  decide-none [] = refl
  decide-none (f ∷ fs) = ap (◌∷◌ f) (decide-none fs)

  decide-enable :
      (name : Name) (ops : List Op) (fs : List (Feature N))
      → decide ops (set_enabled N true name fs) ≡ decide (enable name ∷ ops) fs
  unfolding set_enabled
  decide-enable name ops [] = refl
  decide-enable name ops (f ∷ fs) = elim (Bool-cases (same f.name name)) [
    | inl e ↦ rw e (ap (◌∷◌ (settle ops f true)) (decide-enable name ops fs))
    | inr e ↦ rw e (ap (◌∷◌ (settle ops f f.enabled)) (decide-enable name ops fs))
  ]

  decide-disable :
      (name : Name) (ops : List Op) (fs : List (Feature N))
      → decide ops (set_enabled N false name fs) ≡ decide (disable name ∷ ops) fs
  unfolding set_enabled
  decide-disable name ops [] = refl
  decide-disable name ops (f ∷ fs) = elim (Bool-cases (same f.name name)) [
    | inl e ↦ rw e (ap (◌∷◌ (settle ops f false)) (decide-disable name ops fs))
    | inr e ↦ rw e (ap (◌∷◌ (settle ops f f.enabled)) (decide-disable name ops fs))
  ]

  decide-rebuild :
      (ops : List Op) (fs : List (Feature N)) → decide ops fs ≡ decide (rebuild ∷ ops) fs
  decide-rebuild ops [] = refl
  decide-rebuild ops (f ∷ fs) = ap (◌∷◌ (settle ops f f.enabled)) (decide-rebuild ops fs)

  decide-perform :
      (p : Pipeline N) (op : Op) (ops : List Op)
      → ((perform p op).start ≡ p.start)
        × ((perform p op).end ≡ p.end)
        × (decide ops (perform p op).features ≡ decide (op ∷ ops) p.features)
  unfolding perform feature_enable feature_disable feature_arc_rebuild
  decide-perform p (enable name) ops = (refl, refl, decide-enable name ops p.features)
  decide-perform p (disable name) ops = (refl, refl, decide-disable name ops p.features)
  decide-perform p rebuild ops = (refl, refl, decide-rebuild ops p.features)

  run_lem :
      (p : Pipeline N) (ops : List Op)
      → IsSound p
      → IsSound (run p ops)
        × ((run p ops).start ≡ p.start)
        × ((run p ops).end ≡ p.end)
        × ((run p ops).features ≡ decide ops p.features)
  unfolding run
  run_lem p [] h = (h, refl, refl, sym (decide-none p.features))
  run_lem p (op ∷ ops) h =
      let (a, b, c, d) = run_lem (perform p op) ops (perform-IsSound p op h) in
      let (e, f, g) = decide-perform p op ops in (a, b ∙ e, c ∙ f, d ∙ g)

  enabled-le : (fs : List (Feature N)) → length (enabled_names N fs) ≤ length fs
  enabled-le [] = omega arith
  enabled-le (f ∷ fs) = ground (arith, enabled-le fs)

  length-decide : (ops : List Op) (fs : List (Feature N)) → length (decide ops fs) ≡ length fs
  length-decide ops [] = refl
  length-decide ops (f ∷ fs) = ap suc (length-decide ops fs)

  -- However features were enabled, disabled and the pipeline rebuilt before, after one more rebuilding the
  -- start, those features on which the last operation was to enable them, in the order in which they were
  -- registered, and the end are printed, and the printing ends: it takes no more rounds than there are features
  -- and two.
  pub dump_pipeline-rebuild :
      (p : Pipeline N) (ops : List Op) (rounds : ℕ)
      → IsSound p
      → length p.features + 1 < rounds
      → dump_pipeline N rounds (feature_arc_rebuild N (run p ops))
        ≡ some (p.start ∷ (enabled_names N (decide ops p.features) ++ (p.end ∷ [])))
  unfolding dump_pipeline feature_arc_rebuild
  dump_pipeline-rebuild p ops rounds h l =
      let (v, s, e, d) = run_lem p ops h in
      let q = run p ops in
      let names = enabled_names N q.features ++ (q.end ∷ []) in
      let follows = link-Follows N q.end q.start q.features q.nodes v.0 v.1 v.2 in
      let short : length names < rounds = omega (
        arith,
        length-append (enabled_names N q.features) (q.end ∷ []),
        enabled-le q.features,
        length-decide ops p.features,
        ap length d,
      ) in
      dump-Follows N rounds q.start names (link N q.end q.start q.features q.nodes) short follows
      ∙ rw (s, e, d) refl
