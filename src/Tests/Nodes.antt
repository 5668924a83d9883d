-- ===== src/Tests/Nodes.antt =====
-- A destroy of a cluster beside a resource of the map that is read and one that the map does not know,
-- for scripts/node-states.py.
use aws_devops_sdet_demo.Prelude.{
  ◌+◌, ℤ, Option, true, lookup, String, ◌≡◌, refl, false, none, some, List, [], ◌∷◌, length,
}
use aws_devops_sdet_demo.Nodes.{Node, Topology, Resource, Timeline, base_address, cycle_kind}
use aws_devops_sdet_demo.Nodes.Join.{joined_of, planned_of}
use aws_devops_sdet_demo.Nodes.Counts.{sum_lengths, joined_of-observed}
use aws_devops_sdet_demo.Nodes.States.{NodeState, planned_for, node_state, join}
use aws_devops_sdet_demo.Nodes.Measured.{AllComplete, Covers, join-is_measured}
use mathlib.Core.Logic.{◌↔◌}

abbrev cluster : Node
cluster = record {
  id = "stage.ecs";
  env = some "stage";
  service = some "ecs";
  members = "module.app.aws_ecs_service.app[0]" ∷ [];
}

abbrev teardown : Node
teardown = record {
  id = "stage.destroy";
  env = some "stage";
  service = some "destroy";
  members = [];
}

abbrev topology : Topology
topology = record {
  environments = (cluster ∷ []) ∷ [];
  phases =
      record {
        id = "down";
        nodes = teardown ∷ [];
        touches = record { verb = some "creates"; node = "stage.ecs" } ∷ [];
      }
      ∷ [];
  not_shown = record { group = "glue"; members = "random_id.suffix" ∷ [] } ∷ [];
}

abbrev resource : String → String → String → Resource
resource address action status = record {
  address = address;
  action = some action;
  status = some status;
  started_at = some "a";
  finished_at = none;
  elapsed_seconds = 4;
  id_value = none;
}

abbrev service : Resource
service = resource "module.app.aws_ecs_service.app[\"blue\"]" "create" "complete"

abbrev half_done : List Resource
half_done = service ∷ resource "module.app.aws_ecs_service.app[1]" "create" "incomplete" ∷ []

abbrev timeline : Timeline
timeline = record {
  environment = "stage";
  operations =
      record {
        command = some "apply";
        planned =
            record { address = "module.app.aws_ecs_service.app[1]"; action = some "create" } ∷ [];
        resources =
            service
            ∷ resource "data.aws_region.here" "read" "complete"
            ∷ resource "random_id.suffix" "create" "complete"
            ∷ resource "aws_odd.x" "create" "complete"
            ∷ resource "aws_odd.y" "delete" "complete"
            ∷ [];
      }
      ∷ [];
}

bases_run : base_address "module.app[0].aws_x.y[\"a\"]" ≡ "module.app.aws_x.y"
unfolding base_address
bases_run = refl

open_bracket_runs : base_address "aws_x.y[0" ≡ "aws_x.y[0"
unfolding base_address
open_bracket_runs = refl

kind_runs : cycle_kind timeline ≡ "apply"
unfolding cycle_kind
kind_runs = refl

unknown_runs : (joined_of topology timeline).unknown ≡ "aws_odd.x" ∷ []
unfolding joined_of
unknown_runs = refl

matched_runs : (joined_of topology timeline).matched ≡ 2
unfolding joined_of
matched_runs = refl

joined_of-observed_example :
    (sum_lengths (joined_of topology timeline).collected
        + (length (joined_of topology timeline).reads
            + (length (joined_of topology timeline).not_shown
                + length (joined_of topology timeline).unknown))
      ≡ 5)
    × ((joined_of topology timeline).matched ≡ sum_lengths (joined_of topology timeline).collected)
joined_of-observed_example = joined_of-observed topology timeline

abbrev no_instant : Option String → Option ℤ
no_instant text = none

ecs_collected : lookup "stage.ecs" (joined_of topology timeline).collected ≡ some (service ∷ [])
unfolding joined_of
ecs_collected = refl

destroy_collected :
    lookup "stage.destroy" (joined_of topology timeline).collected
    ≡ some (resource "aws_odd.y" "delete" "complete" ∷ [])
unfolding joined_of
destroy_collected = refl

half_measured : (node_state no_instant half_done (some 1)).is_measured ≡ false
unfolding node_state
half_measured = refl

join-is_measured_example :
    (state : NodeState) × (lookup "stage.ecs" (join no_instant topology timeline).nodes
      ≡ some state)
    × ((state.is_measured ≡ true) ↔ (
        AllComplete (service ∷ [])
        × Covers (planned_for "stage.ecs" (planned_of topology timeline).0) (service ∷ [])))
join-is_measured_example =
    join-is_measured no_instant topology timeline "stage.ecs" (service ∷ []) ecs_collected
