-- ===== src/FeatureArc.antt =====
-- feature_arc/sample/main.c: a pipeline of nodes, each of which leads to the next one, and an arc of features
-- that are put into it between its start and its end when they are enabled.
pub mod Chain
pub mod Rebuild
use dpdk_for_beginners.Base.{
  ℕ, zero, suc, ◌≡◌, ◌↔◌, Bool, true, false, Option, none, some, List, [], ◌∷◌, ◌++◌, map, length,
  leb, if◌then◌else◌,
}

-- The names of nodes, with `strcmp(a, b) == 0`.
pub record Names : Type 1 where
  pub Name : Type 0
  pub same : Name → Name → Bool
  pub same_iff : (a b : Name) → (same a b ≡ true) ↔ (a ≡ b)

abbrev pub max_features : ℕ
max_features = 8

abbrev pub max_nodes : ℕ
max_nodes = 16

module _ (N : Names) where
  open N use {Name, same}

  pub record Node : Type 0 where
    pub name : Name
    pub next : Option Name

  pub record Feature : Type 0 where
    pub name : Name
    pub enabled : Bool

  pub record Pipeline : Type 0 where
    pub nodes : List Node
    pub start : Name
    pub end : Name
    pub features : List Feature

  -- `none`: the array is full, and the program writes behind its end
  unfoldable pub add_node : Name → Pipeline → Option Pipeline
  add_node name p =
      if leb max_nodes (length p.nodes)
      then none
      else some (record p { nodes = p.nodes ++ (record { name = name; next = none } ∷ []) })

  unfoldable pub feature_arc_init : Name → Name → Pipeline → Pipeline
  feature_arc_init start end p = record p { start = start; end = end; features = [] }

  unfoldable pub feature_register : Name → Pipeline → Option Pipeline
  feature_register name p =
      if leb max_features (length p.features)
      then none
      else some
          (record p { features = p.features ++ (record { name = name; enabled = false } ∷ []) })

  -- the first node with the name
  unfoldable pub set_next : Name → Name → List Node → List Node
  set_next from to [] = []
  set_next from to (n ∷ ns) =
      let rest = set_next from to ns in
      if same n.name from then record n { next = some to } ∷ ns else n ∷ rest

  unfoldable pub set_enabled : Bool → Name → List Feature → List Feature
  set_enabled b name [] = []
  set_enabled b name (f ∷ fs) =
      let rest = set_enabled b name fs in
      if same f.name name then record f { enabled = b } ∷ rest else f ∷ rest

  unfoldable pub feature_enable : Name → Pipeline → Pipeline
  unfolding set_enabled
  feature_enable name p = record p { features = set_enabled true name p.features }

  unfoldable pub feature_disable : Name → Pipeline → Pipeline
  unfolding set_enabled
  feature_disable name p = record p { features = set_enabled false name p.features }

  -- the loop of `feature_arc_rebuild`, and the link to the end behind it
  unfoldable pub link : Name → Name → List Feature → List Node → List Node
  unfolding set_next
  link end prev [] ns = set_next prev end ns
  link end prev (f ∷ fs) ns =
      let linked = link end f.name fs (set_next prev f.name ns) in
      let passed = link end prev fs ns in if f.enabled then linked else passed

  unfoldable pub feature_arc_rebuild : Pipeline → Pipeline
  unfolding link
  feature_arc_rebuild p = record p { nodes = link p.end p.start p.features p.nodes }

  -- the search in `dump_pipeline`, which does not stop at the first node: the last one with the name
  -- counts
  unfoldable pub find_next : Name → Option Name → List Node → Option Name
  find_next cur next [] = next
  find_next cur next (n ∷ ns) = find_next cur (if same n.name cur then n.next else next) ns

  -- `while (cur)`, with a number of rounds; `none`: it has not ended by then
  unfoldable pub dump : ℕ → Name → List Node → Option (List Name)
  unfolding find_next
  dump zero cur ns = none
  dump (suc rounds) cur ns = elim (find_next cur none ns) [
    | none ↦ some (cur ∷ [])
    | some next ↦ elim (dump rounds next ns) [ none ↦ none | some names ↦ some (cur ∷ names) ]
  ]

  unfoldable pub dump_pipeline : ℕ → Pipeline → Option (List Name)
  unfolding dump
  dump_pipeline rounds p = dump rounds p.start p.nodes
