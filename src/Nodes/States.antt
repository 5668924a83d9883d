-- ===== src/Nodes/States.antt =====
-- scripts/node-states.py: the state of a node from its resources and what was planned for it, the
-- phases from their nodes, and the document, without what it copies from the timeline and without its
-- order by name. `parse_ts` answers none for a text that is missing or cannot be read, and a duration
-- is in microseconds, before the rounding.
use aws_devops_sdet_demo.Prelude.{
  ℕ, suc, ◌+◌, ℤ, ◌-ℤ◌, ltb_ℤ, leb, ltb, String, Bool, true, ◌&&◌, Option, none, some, List, [],
  ◌∷◌, Dict, lookup, put, sorted_set, length, filter, if◌then◌else◌,
}
use aws_devops_sdet_demo.Nodes.{Topology, Resource, Timeline, is_text, cycle_kind, phase_of}
use aws_devops_sdet_demo.Nodes.Join.{joined_of, planned_of, true_name}

pub record NodeState : Type 0 where
  pub is_measured : Bool
  pub duration_s : Option ℤ
  pub identifier : Option String
  pub identifier_from : Option String
  pub resources_observed : ℕ
  pub resources_complete : ℕ
  pub resources_planned : Option ℕ

pub record PhaseState : Type 0 where
  pub first : ℤ
  pub last : ℤ
  pub nodes : ℕ

abbrev pub is_complete : Resource → Bool
is_complete r = is_text "complete" r.status

abbrev pub minimum : List ℤ → Option ℤ
minimum [] = none
minimum (a ∷ rest) = elim (minimum rest) [
  | none ↦ some a
  | some least ↦ if ltb_ℤ least a then some least else some a
]

abbrev pub maximum : List ℤ → Option ℤ
maximum [] = none
maximum (a ∷ rest) = elim (maximum rest) [
  | none ↦ some a
  | some most ↦ if ltb_ℤ a most then some most else some a
]

-- the longest of the complete resources that carry an identifier, the first where two are as long
abbrev pub longer : Option Resource → Resource → Option Resource
longer none r = some r
longer (some best) r = if ltb best.elapsed_seconds r.elapsed_seconds then some r else some best

abbrev pub dominant_of : List Resource → Option Resource → Option Resource
dominant_of [] best = best
dominant_of (r ∷ rest) best = elim (true_name r.id_value) [
  | none ↦ dominant_of rest best
  | some id ↦ dominant_of rest (longer best r)
]

-- `done == len(resources)`, and what was planned is done
abbrev pub planned_done : Option ℕ → ℕ → Bool
planned_done none done = true
planned_done (some planned) done = leb planned done

abbrev pub is_settled : List Resource → Option ℕ → Bool
is_settled resources planned =
    let done = length (filter is_complete resources) in
    (leb (length resources) done && leb done (length resources)) && planned_done planned done

-- what the plan named for a node, none where there was no plan
abbrev pub planned_for : String → Option (Dict ℕ) → Option ℕ
planned_for node none = none
planned_for node (some counts) = some (elim (lookup node counts) [ none ↦ 0 | some n ↦ n ])

module _ (parse_ts : Option String → Option ℤ) where
  -- the instants that are there
  abbrev pub starts : List Resource → List ℤ
  starts [] = []
  starts (r ∷ rest) = elim (parse_ts r.started_at) [
    | none ↦ starts rest
    | some at ↦ at ∷ starts rest
  ]

  abbrev pub ends : List Resource → List ℤ
  ends [] = []
  ends (r ∷ rest) = elim (parse_ts r.finished_at) [ none ↦ ends rest | some at ↦ at ∷ ends rest ]

  -- in microseconds, before the rounding
  abbrev pub duration_of : List Resource → Option ℤ
  duration_of resources = elim (minimum (starts resources)) [
    | none ↦ none
    | some first ↦ (elim (maximum (ends resources)) [
      | none ↦ none
      | some last ↦ some (last -ℤ first)
    ])
  ]

  unfoldable pub node_state : List Resource → Option ℕ → NodeState
  unfolding ◌-ℤ◌
  node_state resources planned =
      let dominant = dominant_of (filter is_complete resources) none in
      record {
        is_measured = is_settled resources planned;
        duration_s = duration_of resources;
        identifier = elim dominant [ none ↦ none | some r ↦ r.id_value ];
        identifier_from = elim dominant [ none ↦ none | some r ↦ some r.address ];
        resources_observed = length resources;
        resources_complete = length (filter is_complete resources);
        resources_planned = planned;
      }

  -- A node that a run is deleting has no identifier.
  unfoldable pub deleting_state : List Resource → Option ℕ → NodeState
  unfolding ◌-ℤ◌
  deleting_state resources planned = record {
    is_measured = is_settled resources planned;
    duration_s = duration_of resources;
    identifier = none;
    identifier_from = none;
    resources_observed = length resources;
    resources_complete = length (filter is_complete resources);
    resources_planned = planned;
  }

  abbrev pub states_of :
      (List Resource → Option ℕ → NodeState)
      → Option (Dict ℕ)
      → Dict (List Resource)
      → Dict NodeState
  states_of state planned [] = []
  states_of state planned ((node, resources) ∷ rest) =
      (node, state resources (planned_for node planned)) ∷ states_of state planned rest

  -- a node's window taken into its phase
  abbrev pub widened : ℤ → ℤ → Option PhaseState → PhaseState
  widened low high none = record { first = low; last = high; nodes = 1 }
  widened low high (some phase) = record {
    first = if ltb_ℤ low phase.first then low else phase.first;
    last = if ltb_ℤ phase.last high then high else phase.last;
    nodes = suc phase.nodes;
  }

  abbrev pub put_phase : String → Option ℤ → Option ℤ → Dict PhaseState → Dict PhaseState
  put_phase phase (some low) (some high) phases =
      put phase (widened low high (lookup phase phases)) phases
  put_phase phase _ _ phases = phases

  unfoldable pub phases_of : Dict String → Dict (List Resource) → Dict PhaseState → Dict PhaseState
  phases_of index [] phases = phases
  phases_of index ((node, resources) ∷ rest) phases = elim (true_name (lookup node index)) [
    | none ↦ phases_of index rest phases
    | some phase ↦
        phases_of index rest
          (put_phase phase (minimum (starts resources)) (maximum (ends resources)) phases)
  ]

  pub record Document : Type 0 where
    pub environment : String
    pub kind : String
    pub nodes : Dict NodeState
    pub deleting : Dict NodeState
    pub phases : Dict PhaseState
    pub resources : ℕ
    pub matched : ℕ
    pub not_shown : List String
    pub reads : List String
    pub unknown : List String

  unfoldable pub join : Topology → Timeline → Document
  unfolding sorted_set joined_of planned_of cycle_kind phase_of phases_of node_state deleting_state
  join topology timeline =
      let joined = joined_of topology timeline in
      let planned = planned_of topology timeline in
      record {
        environment = timeline.environment;
        kind = cycle_kind timeline;
        nodes = states_of node_state planned.0 joined.collected;
        deleting = states_of deleting_state planned.1 joined.deleting;
        phases = phases_of (phase_of topology timeline.environment) joined.collected [];
        resources =
            joined.matched
            + (length (sorted_set joined.not_shown)
                + (length (sorted_set joined.reads) + length (sorted_set joined.unknown)));
        matched = joined.matched;
        not_shown = sorted_set joined.not_shown;
        reads = sorted_set joined.reads;
        unknown = sorted_set joined.unknown;
      }
