-- ===== src/Nodes/Measured.antt =====
-- When a node of the document is measured.
use aws_devops_sdet_demo.Prelude.{
  ℕ, suc, ◌≤◌, leb, ◌&&◌, ℤ, String, ◌≡◌, refl, ap, true, Option, none, some, List, [], ◌∷◌, Dict,
  lookup, length, filter, inl, inr, Bool-cases, eq_iff, and_left, and_right, arith, some-injective,
  false≢true, ◌==◌,
}
use mathlib.Core.Logic.{◌↔◌}
use aws_devops_sdet_demo.Nodes.{Topology, Resource, Timeline, is_text}
use aws_devops_sdet_demo.Nodes.Join.{joined_of, planned_of}
use aws_devops_sdet_demo.Nodes.States.{
  NodeState, is_complete, planned_done, planned_for, node_state, states_of, join,
}

-- Every resource ended complete.
abbrev pub AllComplete : List Resource → Type 0
AllComplete [] = Unit
AllComplete (r ∷ rest) = (r.status ≡ some "complete") × AllComplete rest

-- The run named no more instances for the node than there are resources of it; a run without a plan
-- asks for none.
abbrev pub Covers : Option ℕ → List Resource → Type 0
Covers none rs = Unit
Covers (some planned) rs = planned ≤ length rs

is_text-some : (s : String) (t : Option String) → is_text s t ≡ true → t ≡ some s
is_text-some s none h = absurd (false≢true h)
is_text-some s (some t) h = ap some ((eq_iff t s).0 h)

some-is_text : (r : Resource) → r.status ≡ some "complete" → is_complete r ≡ true
some-is_text r h = rw h refl

filter-bounded : (rs : List Resource) → length (filter is_complete rs) ≤ length rs
filter-bounded [] = omega arith
filter-bounded (r ∷ rest) = elim (Bool-cases (is_complete r)) [
  | inl done ↦ rw done (omega (arith, filter-bounded rest))
  | inr left ↦ rw left (omega (arith, filter-bounded rest))
]

-- As many complete ones as resources are all of them.
full-AllComplete :
    (rs : List Resource) → length rs ≤ length (filter is_complete rs) → AllComplete rs
full-AllComplete [] h = tt
full-AllComplete (r ∷ rest) h = elim (Bool-cases (is_complete r)) [
  | inl done ↦
      (is_text-some "complete" r.status done, full-AllComplete rest (ground (arith, rw done at h)))
  | inr left ↦ absurd (ground (arith, filter-bounded rest, rw left at h))
]

AllComplete-full :
    (rs : List Resource) → AllComplete rs → length (filter is_complete rs) ≡ length rs
AllComplete-full [] h = refl
AllComplete-full (r ∷ rest) h = rw (some-is_text r h.0) (ap suc (AllComplete-full rest h.1))

planned-Covers :
    (planned : Option ℕ) (rs : List Resource)
    → planned_done planned (length (filter is_complete rs)) ≡ true
    → Covers planned rs
planned-Covers none rs h = tt
planned-Covers (some planned) rs h = ground (arith, filter-bounded rs)

Covers-planned :
    (planned : Option ℕ) (rs : List Resource)
    → Covers planned rs
    → planned_done planned (length rs) ≡ true
Covers-planned none rs h = refl
Covers-planned (some planned) rs h = ground arith

module _ (parse_ts : Option String → Option ℤ) where
  lookup-states_of :
      (state : List Resource → Option ℕ → NodeState) (planned : Option (Dict ℕ)) (node : String)
      (collected : Dict (List Resource)) (rs : List Resource)
      → lookup node collected ≡ some rs
      → lookup node (states_of parse_ts state planned collected)
        ≡ some (state rs (planned_for node planned))
  lookup-states_of state planned node [] rs h = cc h
  lookup-states_of state planned node ((k, others) ∷ rest) rs h = elim (Bool-cases (k == node)) [
    | inl same ↦ rw same (cc (some-injective (rw same at h), (eq_iff k node).0 same))
    | inr later ↦ rw later (lookup-states_of state planned node rest rs (rw later at h))
  ]

  measured-AllComplete :
      (rs : List Resource) (planned : Option ℕ)
      → (node_state parse_ts rs planned).is_measured ≡ true
      → AllComplete rs × Covers planned rs
  unfolding node_state
  measured-AllComplete rs planned h =
      let n = length rs in
      let done = length (filter is_complete rs) in
      let counted = and_left (leb n done && leb done n) (planned_done planned done) h in
      let enough = and_left (leb n done) (leb done n) counted in
      (
        full-AllComplete rs (ground (arith, enough)),
        planned-Covers planned rs
            (and_right (leb n done && leb done n) (planned_done planned done) h),
      )

  AllComplete-measured :
      (rs : List Resource) (planned : Option ℕ)
      → AllComplete rs × Covers planned rs
      → (node_state parse_ts rs planned).is_measured ≡ true
  unfolding node_state
  AllComplete-measured rs planned (done, covers) =
      rw (AllComplete-full rs done, Covers-planned planned rs covers) (ground arith)

  -- Every node to which the timeline's resources fall has a state in the document, and that state says
  -- measured exactly when all the node's resources ended complete and, where the run had a plan, the
  -- plan named no more instances for the node than that.
  pub join-is_measured :
      (topology : Topology) (timeline : Timeline) (node : String) (rs : List Resource)
      → lookup node (joined_of topology timeline).collected ≡ some rs
      → (state : NodeState) × (lookup node (join parse_ts topology timeline).nodes ≡ some state)
        × ((state.is_measured ≡ true)
            ↔ (AllComplete rs × Covers (planned_for node (planned_of topology timeline).0) rs))
  unfolding join
  join-is_measured topology timeline node rs h =
      let planned = (planned_of topology timeline).0 in
      (
        node_state parse_ts rs (planned_for node planned),
        lookup-states_of (node_state parse_ts) planned node _ rs h,
        (measured-AllComplete rs _, AllComplete-measured rs _),
      )
