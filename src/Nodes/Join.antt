-- ===== src/Nodes/Join.antt =====
-- scripts/node-states.py: each resource of the timeline, on its node or in one of the three lists, and
-- the number of instances that the run had planned for each node.
use aws_devops_sdet_demo.Prelude.{
  ℕ, suc, String, Option, none, some, List, [], ◌∷◌, ◌++◌, Dict, lookup, put, is_some, count_one,
  ◌==◌, if◌then◌else◌,
}
use aws_devops_sdet_demo.Nodes.{
  Topology, Change, Resource, Operation, Timeline, base_address, is_text, index_members,
  index_hidden, destroy_node,
}

-- What the loop over the resources has so far.
pub record Joined : Type 0 where
  pub collected : Dict (List Resource)
  pub deleting : Dict (List Resource)
  pub matched : ℕ
  pub not_shown : List String
  pub reads : List String
  pub unknown : List String

abbrev pub nothing_joined : Joined
nothing_joined = record {
  collected = [];
  deleting = [];
  matched = 0;
  not_shown = [];
  reads = [];
  unknown = [];
}

-- `d.setdefault(key, []).append(r)`
abbrev pub or_none : Option (List Resource) → List Resource
or_none none = []
or_none (some rs) = rs

abbrev pub append_to : String → Resource → Dict (List Resource) → Dict (List Resource)
append_to key r d = put key (or_none (lookup key d) ++ (r ∷ [])) d

-- a name that is neither None nor empty
abbrev pub true_name : Option String → Option String
true_name none = none
true_name (some s) = if s == "" then none else some s

module _ (members hidden : Dict String) (teardown : Option String) where
  abbrev pub node_of : Option String → String → Option String
  node_of action base =
      true_name (if is_text "delete" action then teardown else lookup base members)

  -- a deletion, noted for the node that owns the resource
  abbrev pub deletion_for : Option String → Resource → Joined → Joined
  deletion_for none r j = j
  deletion_for (some owner) r j =
      if is_text "delete" r.action then record j { deleting = append_to owner r j.deleting } else j

  abbrev pub deletion_noted : Resource → String → Joined → Joined
  deletion_noted r base j = deletion_for (true_name (lookup base members)) r j

  abbrev pub placed : Resource → String → Option String → Joined → Joined
  placed r base (some node) j = record j {
    collected = append_to node r j.collected;
    matched = suc j.matched;
  }
  placed r base none j =
      if is_some (lookup base hidden)
      then record j { not_shown = j.not_shown ++ (r.address ∷ []) }
      else record j { unknown = j.unknown ++ (r.address ∷ []) }

  unfoldable pub join_resource : Resource → Joined → Joined
  unfolding base_address
  join_resource r j =
      if is_text "read" r.action
      then record j { reads = j.reads ++ (r.address ∷ []) }
      else placed r (base_address r.address) (node_of r.action (base_address r.address))
          (deletion_noted r (base_address r.address) j)

  unfoldable pub join_resources : List Resource → Joined → Joined
  unfolding join_resource
  join_resources [] j = j
  join_resources (r ∷ rest) j = join_resources rest (join_resource r j)

  unfoldable pub join_operations : List Operation → Joined → Joined
  unfolding join_resources
  join_operations [] j = j
  join_operations (op ∷ rest) j = join_operations rest (join_resources op.resources j)

  -- The numbers that the plan names, none where there is no plan; the second counts, for each node, the
  -- resources of it that are to be deleted.
  abbrev pub or_nothing : Option (Dict ℕ) → Dict ℕ
  or_nothing none = []
  or_nothing (some counts) = counts

  abbrev pub deletion_planned : Change → String → Option (Dict ℕ) → Option (Dict ℕ)
  deletion_planned change base deleting = elim (true_name (lookup base members)) [
    | none ↦ deleting
    | some owner ↦
        if is_text "delete" change.action
        then some (count_one owner (or_nothing deleting))
        else deleting
  ]

  abbrev pub node_planned : Option String → Option (Dict ℕ) → Option (Dict ℕ)
  node_planned none counts = some (or_nothing counts)
  node_planned (some node) counts = some (count_one node (or_nothing counts))

  unfoldable pub plan_change :
      Change → Option (Dict ℕ) × Option (Dict ℕ) → Option (Dict ℕ) × Option (Dict ℕ)
  unfolding base_address
  plan_change change (counts, deleting) =
      if is_text "read" change.action then (some (or_nothing counts), deleting) else (
        node_planned (node_of change.action (base_address change.address)) counts,
        deletion_planned change (base_address change.address) deleting,
      )

  unfoldable pub plan_changes :
      List Change → Option (Dict ℕ) × Option (Dict ℕ) → Option (Dict ℕ) × Option (Dict ℕ)
  unfolding plan_change
  plan_changes [] counts = counts
  plan_changes (change ∷ rest) counts = plan_changes rest (plan_change change counts)

  unfoldable pub plan_operations :
      List Operation → Option (Dict ℕ) × Option (Dict ℕ) → Option (Dict ℕ) × Option (Dict ℕ)
  unfolding plan_changes
  plan_operations [] counts = counts
  plan_operations (op ∷ rest) counts = plan_operations rest (plan_changes op.planned counts)

unfoldable pub joined_of : Topology → Timeline → Joined
unfolding index_members index_hidden destroy_node join_operations
joined_of topology timeline =
    join_operations (index_members topology timeline.environment) (index_hidden topology)
      (destroy_node topology timeline.environment) timeline.operations nothing_joined

unfoldable pub planned_of : Topology → Timeline → Option (Dict ℕ) × Option (Dict ℕ)
unfolding index_members index_hidden destroy_node plan_operations
planned_of topology timeline =
    plan_operations (index_members topology timeline.environment) (index_hidden topology)
      (destroy_node topology timeline.environment) timeline.operations (none, none)
