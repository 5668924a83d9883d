-- ===== src/Orphans.antt =====
-- scripts/sweep_orphans.py: the tagged resources that Terraform's state does not hold. The state is
-- the JSON of `terraform show`, a set of texts is a list of its members, and what was discovered is
-- a list of records of texts.
pub mod State
pub mod Findings
use aws_devops_sdet_demo.Prelude.{
  ℕ, String, ◌+++◌, Bool, true, false, not, ◌&&◌, ◌||◌, Option, none, some, List, [], ◌∷◌, ◌++◌,
  map, Value, Items, Fields, array, object, nil, cons, end, field, Dict, lookup, decimal, length,
  filter, is_empty, contains, sorted_set, sorted, str, ◌==◌, if◌then◌else◌,
}

-- `s[:-len(suffix)]` where `s.endswith(suffix)`, none where it does not
unfoldable pub without_suffix : String → String → Option String
without_suffix suffix String.[] = if suffix == "" then some "" else none
without_suffix suffix (String.◌∷◌ c s) =
    let rest = without_suffix suffix s in
    if String.◌∷◌ c s == suffix
    then some ""
    else (elim rest [ none ↦ none | some t ↦ some (String.◌∷◌ c t) ])

abbrev pub also : Option String → List String
also none = []
also (some s) = s ∷ []

unfoldable pub added : Value → List String
unfolding without_suffix
added (str s) = if s == "" then [] else s ∷ also (without_suffix ":*" s)
added other = []

abbrev pub is_identifier : String → Bool
is_identifier key = (key == "arn") || (key == "id")

unfoldable mutual
  unfolding added

  pub walk : Value → List String
  walk (object fields) = walk_fields fields
  walk (array items) = walk_items items
  walk other = []

  pub walk_fields : Fields → List String
  walk_fields end = []
  walk_fields (field key value rest) =
      (if is_identifier key then added value else []) ++ (walk value ++ walk_fields rest)

  pub walk_items : Items → List String
  walk_items nil = []
  walk_items (cons item rest) = walk item ++ walk_items rest

unfoldable pub state_identifiers : Value → List String
unfolding walk
state_identifiers state = walk state

-- `s.rsplit(separator, 1)[-1]`, with the part that is the last one so far
last_part : String → String → String → String
last_part separator part String.[] = part
last_part separator part (String.◌∷◌ c s) =
    if String.◌∷◌ c String.[] == separator
    then last_part separator s s
    else last_part separator part s

unfoldable pub tail_of : String → String
unfolding last_part
tail_of arn = let tail = last_part ":" arn arn in last_part "/" tail tail

abbrev pub is_held : Option String → List String → Bool
is_held none identifiers = false
is_held (some s) identifiers = contains s identifiers

unfoldable pub is_managed : String → List String → Bool
unfolding without_suffix tail_of
is_managed arn identifiers =
    contains arn identifiers
    || is_held (without_suffix ":*" arn) identifiers
    || (not (tail_of arn == "") && contains (tail_of arn) identifiers)

abbrev pub control_why : Dict String
control_why =
    (
      "tagging-api",
      "the tagging API returned nothing for the project as a whole. The permanent levels (registry, hosted zone, dashboard, self-service) are always tagged, so an empty answer means the question was not answered - expired credentials, the wrong region, or a missing tag:GetResources grant",
    )
    ∷ (
      "configured-names",
      "the configuration declared no names for the kinds the tagging API does not index. It always declares at least one, so an empty list means the declaration went missing - a renamed module, a bad parse - rather than that there is nothing to look for (ADR-0041 D4)",
    )
    ∷ []

abbrev pub why_silent : String → String
why_silent name = elim (lookup name control_why) [
  | none ↦ "the " +++ (name +++ " channel answered nothing")
  | some why ↦ why
]

-- `"; ".join(parts)`
abbrev pub join_reasons : List String → String
join_reasons [] = ""
join_reasons (s ∷ []) = s
join_reasons (s ∷ t ∷ rest) = s +++ ("; " +++ join_reasons (t ∷ rest))

pub data Verdict : Type 0 where
  refuse orphans clean : Verdict

-- `silent_channels` is a key of a refusal only.
pub record Decision : Type 0 where
  pub verdict : Verdict
  pub reason : String
  pub left_behind : List String
  pub unconfirmed : List String
  pub not_present : ℕ
  pub silent_channels : List String

-- the names of the channels whose control is empty
abbrev pub silent_names : Dict (List Value) → List String
silent_names [] = []
silent_names ((name, []) ∷ rest) = name ∷ silent_names rest
silent_names ((name, item ∷ items) ∷ rest) = silent_names rest

unfoldable pub silent_channels : Dict (List Value) → List String
unfolding sorted
silent_channels controls = sorted (silent_names controls)

abbrev pub refusal : List String → Decision
refusal silent = record {
  verdict = refuse;
  reason =
      join_reasons (map why_silent silent)
      +++ ". Refusing rather than reporting an account nobody looked at as empty.";
  left_behind = [];
  unconfirmed = [];
  not_present = 0;
  silent_channels = silent;
}

-- `r.get("ResourceARN", "")`
abbrev pub resource_arn : Dict String → String
resource_arn r = elim (lookup "ResourceARN" r) [ none ↦ "" | some arn ↦ arn ]

abbrev pub discovered : List (Dict String) → List String
discovered tagged = filter (λ a. not (a == "")) (map resource_arn tagged)

unfoldable pub orphans_of : List String → List String → List String → List String
unfolding sorted is_managed
orphans_of arns present identifiers =
    sorted (filter (λ a. contains a present && not (is_managed a identifiers)) arns)

unfoldable pub not_present_of : List String → List String → List String → List String
not_present_of arns present unconfirmed =
    filter (λ a. not (contains a present) && not (contains a unconfirmed)) arns

unfoldable pub all_clear : List String → List String → List String → Decision
unfolding decimal sorted_set
all_clear arns present gone = record {
  verdict = clean;
  reason =
      decimal (length arns)
      +++ (" discovered, "
          +++ (decimal (length (filter (λ a. contains a arns) (sorted_set present)))
              +++ (" still there and all of them managed, "
                  +++ (decimal (length gone)
                      +++ " discovered and not there according to the service. Nothing was left behind."))));
  left_behind = [];
  unconfirmed = [];
  not_present = length gone;
  silent_channels = [];
}

unfoldable pub reported : List String → List String → List String → Decision
unfolding decimal
reported found unconfirmed gone = record {
  verdict = orphans;
  reason =
      decimal (length found)
      +++ (" confirmed live resource(s) absent from Terraform state, "
          +++ (decimal (length unconfirmed)
              +++ " that could not be checked at all. A partially failed teardown drops resources out of state; an unchecked kind is not a clean one."));
  left_behind = found;
  unconfirmed = unconfirmed;
  not_present = length gone;
  silent_channels = [];
}

unfoldable pub verdict_of : List String → List String → List String → List String → Decision
unfolding orphans_of not_present_of all_clear reported
verdict_of arns present unconfirmed identifiers =
    let found = orphans_of arns present identifiers in
    let gone = not_present_of arns present unconfirmed in
    if is_empty found && is_empty unconfirmed
    then all_clear arns present gone
    else reported found unconfirmed gone

unfoldable pub decide_sweep :
    List (Dict String) → Dict (List Value) → List String → List String → List String → Decision
unfolding silent_channels verdict_of sorted_set
decide_sweep tagged controls identifiers present unconfirmed =
    if is_empty (silent_channels controls)
    then verdict_of (discovered tagged) present (sorted_set unconfirmed) identifiers
    else refusal (silent_channels controls)
