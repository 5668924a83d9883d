-- ===== src/Nodes.antt =====
-- scripts/node-states.py: how the resources of a timeline fall on the nodes of the map. The two
-- documents are read with a key that is missing or None as none, the members of a node that has none as
-- the empty list, and a number of seconds that is missing as zero, which is what the script compares.
pub mod Join
pub mod States
pub mod Measured
pub mod Counts
use aws_devops_sdet_demo.Prelude.{
  ℕ, ℤ, String, ◌+++◌, Bool, true, false, ◌&&◌, ◌||◌, Option, none, some, List, [], ◌∷◌, ◌++◌, Dict,
  lookup, put, contains, any, ◌==◌, if◌then◌else◌,
}
use aws_devops_sdet_demo.Arns.{one}

pub record Node : Type 0 where
  pub id : String
  pub env : Option String
  pub service : Option String
  pub members : List String

pub record Touch : Type 0 where
  pub verb : Option String
  pub node : String

pub record Phase : Type 0 where
  pub id : String
  pub nodes : List Node
  pub touches : List Touch

pub record Group : Type 0 where
  pub group : String
  pub members : List String

-- `environments` are the nodes of each environment of the estate.
pub record Topology : Type 0 where
  pub environments : List (List Node)
  pub phases : List Phase
  pub not_shown : List Group

pub record Change : Type 0 where
  pub address : String
  pub action : Option String

pub record Resource : Type 0 where
  pub address : String
  pub action : Option String
  pub status : Option String
  pub started_at : Option String
  pub finished_at : Option String
  pub elapsed_seconds : ℕ
  pub id_value : Option String

pub record Operation : Type 0 where
  pub command : Option String
  pub planned : List Change
  pub resources : List Resource

pub record Timeline : Type 0 where
  pub environment : String
  pub operations : List Operation

-- The brackets that are closed are left out, with what they hold; `held` is what stands behind one
-- that is open so far.
without_index : Option String → String → String
without_index none String.[] = ""
without_index none (String.◌∷◌ c s) =
    let inside = without_index (some "") s in
    let outside = without_index none s in if one c == "[" then inside else String.◌∷◌ c outside
without_index (some held) String.[] = "[" +++ held
without_index (some held) (String.◌∷◌ c s) =
    let outside = without_index none s in
    let inside = without_index (some (held +++ one c)) s in if one c == "]" then outside else inside

unfoldable pub base_address : String → String
unfolding without_index
base_address addr = without_index none addr

-- `value == text`, where the value may be None
abbrev pub is_text : String → Option String → Bool
is_text text none = false
is_text text (some s) = s == text

unfoldable pub cycle_kind : Timeline → String
cycle_kind timeline =
    if any (λ op. is_text "destroy" op.command) timeline.operations then "destroy" else "apply"

abbrev pub nodes_of : String → List Node → List Node
nodes_of environment [] = []
nodes_of environment (node ∷ rest) =
    let others = nodes_of environment rest in
    if is_text environment node.env then node ∷ others else others

abbrev pub estate_of : String → List (List Node) → List Node
estate_of environment [] = []
estate_of environment (nodes ∷ rest) = nodes_of environment nodes ++ estate_of environment rest

unfoldable pub estate_nodes : Topology → String → List Node
estate_nodes topology environment = estate_of environment topology.environments

abbrev pub named : String → List Node → Dict Node
named phase [] = []
named phase (node ∷ rest) = (phase, node) ∷ named phase rest

abbrev pub cycle_of : List Phase → Dict Node
cycle_of [] = []
cycle_of (phase ∷ rest) = named phase.id phase.nodes ++ cycle_of rest

unfoldable pub cycle_nodes : Topology → Dict Node
cycle_nodes topology = cycle_of topology.phases

abbrev pub created_in : String → List Touch → Dict String
created_in phase [] = []
created_in phase (touch ∷ rest) =
    let others = created_in phase rest in
    if is_text "creates" touch.verb then (phase, touch.node) ∷ others else others

abbrev pub creates_of : List Phase → Dict String
creates_of [] = []
creates_of (phase ∷ rest) = created_in phase.id phase.touches ++ creates_of rest

unfoldable pub creates : Topology → Dict String
creates topology = creates_of topology.phases

-- each member's address put to the same name
abbrev pub put_members : String → List String → Dict String → Dict String
put_members name [] index = index
put_members name (member ∷ rest) index =
    put_members name rest (put (base_address member) name index)

abbrev pub put_nodes : List Node → Dict String → Dict String
put_nodes [] index = index
put_nodes (node ∷ rest) index = put_nodes rest (put_members node.id node.members index)

unfoldable pub index_members : Topology → String → Dict String
unfolding base_address estate_nodes
index_members topology environment = put_nodes (estate_nodes topology environment) []

abbrev pub put_groups : List Group → Dict String → Dict String
put_groups [] index = index
put_groups (group ∷ rest) index = put_groups rest (put_members group.group group.members index)

unfoldable pub index_hidden : Topology → Dict String
unfolding base_address
index_hidden topology = put_groups topology.not_shown []

abbrev pub put_verbs : String → Dict Node → Dict String → Dict String
put_verbs environment [] index = index
put_verbs environment ((phase, node) ∷ rest) index =
    put_verbs environment rest
      (if is_text environment node.env then put node.id phase index else index)

abbrev pub put_created : List String → Dict String → Dict String → Dict String
put_created owned [] index = index
put_created owned ((phase, node) ∷ rest) index =
    put_created owned rest (if contains node owned then put node phase index else index)

abbrev pub ids : List Node → List String
ids [] = []
ids (node ∷ rest) = node.id ∷ ids rest

unfoldable pub phase_of : Topology → String → Dict String
unfolding cycle_nodes creates estate_nodes
phase_of topology environment =
    put_created (ids (estate_nodes topology environment)) (creates topology)
      (put_verbs environment (cycle_nodes topology) [])

abbrev pub first_destroy : String → Dict Node → Option String
first_destroy environment [] = none
first_destroy environment ((phase, node) ∷ rest) =
    if is_text "destroy" node.service && is_text environment node.env
    then some node.id
    else first_destroy environment rest

unfoldable pub destroy_node : Topology → String → Option String
unfolding cycle_nodes
destroy_node topology environment = first_destroy environment (cycle_nodes topology)
