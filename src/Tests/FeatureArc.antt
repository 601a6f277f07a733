-- ===== src/Tests/FeatureArc.antt =====
-- `main` of feature_arc/sample/main.c, with numbers for the names.
use dpdk_for_beginners.Base.{
  ℕ, ◌≡◌, refl, false, ◌==◌, ==_iff, inl, inr, none, some, List, [], ◌∷◌, ◌++◌, arith,
}
use dpdk_for_beginners.FeatureArc.{
  Names, Pipeline, feature_enable, feature_disable, feature_arc_rebuild, set_next, set_enabled,
  link, find_next, dump, dump_pipeline,
}
use dpdk_for_beginners.FeatureArc.Chain.{enabled_names}
use dpdk_for_beginners.FeatureArc.Rebuild.{
  Op, enable, disable, rebuild, perform, run, decide, IsSound, dump_pipeline-rebuild,
}

abbrev numbers : Names
numbers = record { Name = ℕ; same = ◌==◌; same_iff = ==_iff }

-- "L3", "Firewall", "NAT", "QoS" and "L4"
abbrev five_nodes : Pipeline numbers
five_nodes = record {
  nodes =
      record { name = 0; next = none }
      ∷ record { name = 1; next = none }
      ∷ record { name = 2; next = none }
      ∷ record { name = 3; next = none }
      ∷ record { name = 4; next = none }
      ∷ [];
  start = 0;
  end = 4;
  features =
      record { name = 1; enabled = false }
      ∷ record { name = 2; enabled = false }
      ∷ record { name = 3; enabled = false }
      ∷ [];
}

-- up to the fourth case, in which QoS alone is enabled
abbrev four_cases : List (Op numbers)
four_cases =
    rebuild ∷ enable 1 ∷ rebuild ∷ enable 2 ∷ rebuild ∷ disable 1 ∷ disable 2 ∷ enable 3 ∷ []

fourth_case :
    dump_pipeline numbers 16 (feature_arc_rebuild numbers (run numbers five_nodes four_cases))
    ≡ some (0 ∷ 3 ∷ 4 ∷ [])
unfolding dump_pipeline dump find_next feature_arc_rebuild link set_next run perform feature_enable
    feature_disable set_enabled
fourth_case = refl

five_nodes-IsSound : IsSound numbers five_nodes
unfolding find_next
five_nodes-IsSound = (
  refl,
  (inl (refl, (refl, (refl, (refl, (refl, tt))))), refl, (refl, (refl, (refl, tt)))),
  (
    (inr (refl, inl (refl, (refl, (refl, (refl, tt))))), refl, (refl, (refl, tt))),
    (
      (inr (refl, inr (refl, inl (refl, (refl, (refl, tt))))), refl, (refl, tt)),
      ((inr (refl, inr (refl, inr (refl, inl (refl, (refl, tt))))), refl, tt), tt),
    ),
  ),
)

dump_pipeline-rebuild_example :
    dump_pipeline numbers 5 (feature_arc_rebuild numbers (run numbers five_nodes four_cases))
    ≡ some (0 ∷ (enabled_names numbers (decide numbers four_cases five_nodes.features) ++ (4 ∷ [])))
dump_pipeline-rebuild_example =
    dump_pipeline-rebuild numbers five_nodes four_cases 5 five_nodes-IsSound (omega arith)
