-- ===== src/Arns/Parts.antt =====
-- An ARN that is put together from its parts, and what the parser makes of it.
use Prim.Native.Char.{Char}
use Prim.Native.String.append
use aws_devops_sdet_demo.Prelude.{
  String, ◌+++◌, ◌≡◌, refl, ◌∙◌, Bool, true, false, some, ◌==◌, Bool-cases, inl, inr, false≢true,
  if◌then◌else◌,
}
use aws_devops_sdet_demo.Arns.{cut, one, is_colon, is_separator, parse, resource_section}

-- No character of the text is one that `stop` takes.
abbrev pub is_free : (Char → Bool) → String → Bool
is_free stop String.[] = true
is_free stop (String.◌∷◌ c s) = if stop c then false else is_free stop s

-- The first cut of a text that is followed by a separator is at that separator.
cut-append :
    (stop : Char → Bool) (c : Char) (s t : String)
    → stop c ≡ true
    → is_free stop s ≡ true
    → cut stop (s +++ (one c +++ t)) ≡ some (s, t)
unfolding cut
cut-append stop c String.[] t here free =
    rw (append.nil (one c +++ t), append.cons c "" t, append.nil t, cut, here) refl
cut-append stop c (String.◌∷◌ d s) t here free = elim (Bool-cases (stop d)) [
  | inl taken ↦ absurd (false≢true (rw taken at free))
  | inr passed ↦
      rw
        (append.cons d s (one c +++ t), cut, passed, cut-append stop c s t here (rw passed at free))
        refl
]

cut-colon :
    (s t : String) → is_free is_colon s ≡ true → cut is_colon (s +++ (":" +++ t)) ≡ some (s, t)
cut-colon s t free = cut-append is_colon ":" s t refl free

-- the five fields in front of the resource section, and the section
abbrev pub arn_of : String → String → String → String → String → String → String
arn_of prefix partition service region account resource =
    prefix
    +++ (":"
        +++ (partition
            +++ (":"
                +++ (service
                    +++ (":" +++ (region +++ (":" +++ (account +++ (":" +++ resource)))))))))

-- Five fields without a colon are cut off one by one, and the third is the service.
parse-arn_of :
    (prefix partition service region account resource : String)
    → is_free is_colon prefix ≡ true
    → is_free is_colon partition ≡ true
    → is_free is_colon service ≡ true
    → is_free is_colon region ≡ true
    → is_free is_colon account ≡ true
    → parse (arn_of prefix partition service region account resource)
      ≡ resource_section service resource
unfolding parse
parse-arn_of prefix partition service region account resource hp hq hs hr ha =
    rw
      (
        cut-colon prefix _ hp,
        cut-colon partition _ hq,
        cut-colon service _ hs,
        cut-colon region _ hr,
        cut-colon account _ ha,
      )
      refl

-- An ARN whose first five fields hold no colon, whose service is not sqs and whose kind holds neither
-- a colon nor a slash is parsed back into its service, its kind and its name, whichever of the two
-- characters stands between kind and name and whatever the name holds.
pub parse-arn :
    (prefix partition service region account kind name : String) (separator : Char)
    → is_free is_colon prefix ≡ true
    → is_free is_colon partition ≡ true
    → is_free is_colon service ≡ true
    → is_free is_colon region ≡ true
    → is_free is_colon account ≡ true
    → (service == "sqs") ≡ false
    → is_separator separator ≡ true
    → is_free is_separator kind ≡ true
    → parse (arn_of prefix partition service region account (kind +++ (one separator +++ name)))
      ≡ (service, kind, name)
unfolding resource_section
parse-arn prefix partition service region account kind name separator hp hq hs hr ha named sep
      free =
    parse-arn_of prefix partition service region account _ hp hq hs hr ha
    ∙ rw (named, cut-append is_separator separator kind name sep free) refl
