-- ===== src/Adoption.antt =====
-- scripts/adopt_orphans.py: which orphans a teardown adopts, and as what. The tables of the script
-- (INDEXED_KINDS, RULES, DEPENDENTS) are parameters, and the reason of an entry is a constructor with
-- the values that its text shows.
pub mod Once
use aws_devops_sdet_demo.Prelude.{
  ℕ, zero, suc, String, ◌+++◌, Bool, true, false, not, ◌&&◌, Option, none, some, List, [], ◌∷◌,
  ◌++◌, map, Dict, lookup, contains, filter, length, ltb, sorted, ◌==◌, if◌then◌else◌,
}
use aws_devops_sdet_demo.Arns.{parse}

pub record Arn : Type 0 where
  pub service : String
  pub kind : String
  pub tail : String
  pub raw : String

-- `Arn(raw)`
unfoldable pub arn_of : String → Arn
unfolding parse
arn_of raw =
    let parsed = parse raw in
    record { service = parsed.0; kind = parsed.1; tail = parsed.2; raw = raw }

-- `from_tag` takes the name from the tag `Name`.
pub record Rule : Type 0 where
  pub addresses : Dict String
  pub import_id : Arn → String
  pub name_from : Arn → String
  pub from_tag : Bool

pub data Reason : Type 0 where
  indexed : Reason
  no_rule : Reason
  no_name_tag : Reason
  unknown_name : String → Reason
  duplicate : String → Reason

pub data Entry : Type 0 where
  adopt : String → String → String → Entry
  unadoptable : String → Reason → Entry

-- `s[len(head):]` where `s.startswith(head)`, none where it does not
unfoldable pub without_prefix : String → String → Option String
without_prefix String.[] s = some s
without_prefix (String.◌∷◌ c head) String.[] = none
without_prefix (String.◌∷◌ c head) (String.◌∷◌ d s) =
    let rest = without_prefix head s in
    if String.◌∷◌ c String.[] == String.◌∷◌ d String.[] then rest else none

unfoldable pub discriminator : String → String → String
unfolding without_prefix
discriminator name prefix = elim (without_prefix (prefix +++ "-") name) [
  | none ↦ name
  | some rest ↦ rest
]

abbrev pub or_empty : Option String → String
or_empty none = ""
or_empty (some s) = s

-- the entry of an orphan whose name is known
unfoldable pub mapped : Rule → Arn → String → String → Entry
unfolding discriminator
mapped rule arn prefix name =
    let address = or_empty (lookup (discriminator name prefix) rule.addresses) in
    if address == ""
    then unadoptable arn.raw (unknown_name (if name == "" then "<unnamed>" else name))
    else adopt arn.raw address (rule.import_id arn)

abbrev pub ruled : Rule → Arn → Dict String → String → Entry
unfolding mapped
ruled rule arn tags prefix =
    if rule.from_tag
    then (if or_empty (lookup "Name" tags) == ""
        then unadoptable arn.raw no_name_tag
        else mapped rule arn prefix (or_empty (lookup "Name" tags)))
    else mapped rule arn prefix (rule.name_from arn)

module _ (indexed_kinds : List String) (rules : Dict Rule) where
  unfoldable pub plan_one : String → Dict String → String → Entry
  unfolding arn_of ruled mapped
  plan_one raw tags prefix =
      let arn = arn_of raw in
      let kind = arn.service +++ (":" +++ arn.kind) in
      if contains kind indexed_kinds then unadoptable raw indexed else (elim (lookup kind rules) [
        | none ↦ unadoptable raw no_rule
        | some rule ↦ ruled rule arn tags prefix
      ])

-- The entry would adopt at the address.
abbrev pub claims : String → Entry → Bool
claims address (adopt arn claimed import_id) = claimed == address
claims address (unadoptable arn reason) = false

abbrev pub is_adopt : Entry → Bool
is_adopt (adopt arn address import_id) = true
is_adopt (unadoptable arn reason) = false

-- An entry after the collisions: the claimants of an address that has more than one are not adopted.
abbrev pub resolved : List Entry → Entry → Entry
resolved entries (adopt arn address import_id) =
    if ltb 1 (length (filter (claims address) entries))
    then unadoptable arn (duplicate address)
    else adopt arn address import_id
resolved entries (unadoptable arn reason) = unadoptable arn reason

-- A dependent of an adopted parent: its address, and its import id from the prefix and the parent's
-- name.
abbrev pub Dependents : Type 0
Dependents = Dict (List (String × (String → String → String)))

abbrev pub dependents_from :
    String → String → String → List (String × (String → String → String)) → List Entry
dependents_from prefix parent arn [] = []
dependents_from prefix parent arn ((address, import_id) ∷ rest) =
    adopt arn address (import_id prefix parent) ∷ dependents_from prefix parent arn rest

unfoldable pub dependents_of : Dependents → String → Entry → List Entry
dependents_of dependents prefix (unadoptable arn reason) = []
dependents_of dependents prefix (adopt arn address import_id) = elim (lookup address dependents) [
  | none ↦ []
  | some listed ↦ dependents_from prefix import_id arn listed
]

abbrev pub dependents_of_all : Dependents → String → List Entry → List Entry
unfolding dependents_of
dependents_of_all dependents prefix [] = []
dependents_of_all dependents prefix (entry ∷ rest) =
    dependents_of dependents prefix entry ++ dependents_of_all dependents prefix rest

abbrev pub tags_of : String → Dict (Dict String) → Dict String
tags_of arn tags_by_arn = elim (lookup arn tags_by_arn) [ none ↦ [] | some tags ↦ tags ]

-- The entries that are adopted for themselves, those that are adopted with them, and the rest.
pub record Plan : Type 0 where
  pub parents : List Entry
  pub dependents : List Entry
  pub left : List Entry

unfoldable pub plan_of : Dependents → String → List Entry → Plan
unfolding dependents_of
plan_of dependents prefix entries =
    let settled = map (resolved entries) entries in
    let parents = filter is_adopt settled in
    record {
      parents = parents;
      dependents = dependents_of_all dependents prefix parents;
      left = filter (λ e. not (is_adopt e)) settled;
    }

unfoldable pub plan :
    List String → Dict Rule → Dependents → List String → Dict (Dict String) → String → Plan
unfolding plan_one plan_of sorted
plan indexed_kinds rules dependents orphans tags_by_arn prefix = plan_of dependents prefix (
    map (λ arn. plan_one indexed_kinds rules arn (tags_of arn tags_by_arn) prefix) (sorted orphans))
