-- ===== src/Arns.antt =====
-- scripts/arns.py: the one parser of ARNs that the sweep of orphans and their adoption share.
pub mod Parts
use aws_devops_sdet_demo.Prelude.{
  String, ◌+++◌, Bool, not, ◌||◌, Option, none, some, ◌==◌, if◌then◌else◌,
}
use Prim.Native.Char.{Char}

-- a character as a text of its own
abbrev pub one : Char → String
one c = String.◌∷◌ c String.[]

abbrev pub is_colon : Char → Bool
is_colon c = one c == ":"

abbrev pub is_separator : Char → Bool
is_separator c = (one c == ":") || (one c == "/")

abbrev pub later_cut : Char → Option (String × String) → Option (String × String)
later_cut c none = none
later_cut c (some (before, after)) = some (String.◌∷◌ c before, after)

-- `s[:i], s[i + 1:]` at the first character that `stop` takes, none where there is none
unfoldable pub cut : (Char → Bool) → String → Option (String × String)
cut stop String.[] = none
cut stop (String.◌∷◌ c s) =
    let rest = cut stop s in if stop c then some ("", s) else later_cut c rest

-- (service, kind, name)
abbrev pub Parsed : Type 0
Parsed = String × String × String

-- a kind and a name, or a kind alone
abbrev pub kind_and_name : String → String → Option (String × String) → Parsed
kind_and_name service rest none = (service, rest, "")
kind_and_name service rest (some (kind, name)) = (service, kind, name)

-- what stands behind the fifth colon
unfoldable pub resource_section : String → String → Parsed
unfolding cut
resource_section service rest =
    if service == "sqs"
    then (service, "queue", rest)
    else kind_and_name service rest (cut is_separator rest)

abbrev pub after_service : String → Option (String × String) → Parsed
after_service service none = ("", "", "")
after_service service (some (account, rest)) = resource_section service rest

abbrev pub after_region : String → Option (String × String) → Parsed
after_region service none = ("", "", "")
after_region service (some (region, rest)) = after_service service (cut is_colon rest)

abbrev pub with_service : Option (String × String) → Parsed
with_service none = ("", "", "")
with_service (some (service, rest)) = after_region service (cut is_colon rest)

abbrev pub after_partition : Option (String × String) → Parsed
after_partition none = ("", "", "")
after_partition (some (partition, rest)) = with_service (cut is_colon rest)

abbrev pub after_prefix : Option (String × String) → Parsed
after_prefix none = ("", "", "")
after_prefix (some (prefix, rest)) = after_partition (cut is_colon rest)

unfoldable pub parse : String → Parsed
unfolding cut resource_section
parse arn = after_prefix (cut is_colon arn)
