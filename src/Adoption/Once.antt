-- ===== src/Adoption/Once.antt =====
-- No address is adopted twice.
use aws_devops_sdet_demo.Prelude.{
  ◌+◌, ◌≤◌, String, ◌≡◌, refl, sym, ap, true, false, List, [], ◌∷◌, map, Dict, filter, length, ltb,
  sorted, length-filter, one_if, inl, inr, Bool-cases, eq_iff, subst, arith, ◌==◌,
}
use aws_devops_sdet_demo.Adoption.{
  Entry, adopt, unadoptable, Rule, Dependents, claims, is_adopt, resolved, tags_of, plan_one,
  plan_of, plan,
}

-- Of an entry that is settled, what is claimed of an address that more than one claims is nothing, and
-- what is claimed of another is no more than before.
resolved-claims :
    (address : String) (entries : List Entry) (e : Entry)
    → ltb 1 (length (filter (claims address) entries)) ≡ true
    → claims address (resolved entries e) ≡ false
resolved-claims address entries (unadoptable arn reason) h = refl
resolved-claims address entries (adopt arn claimed id) h = elim (Bool-cases (claimed == address)) [
  | inl same ↦
      rw
        (subst (λ a. ltb 1 (length (filter (claims a) entries)) ≡ true)
          (sym ((eq_iff claimed address).0 same)) h)
        refl
  | inr other ↦ elim (Bool-cases (ltb 1 (length (filter (claims claimed) entries)))) [
    | inl many ↦ rw many refl
    | inr one ↦ rw one other
  ]
]

resolved-bounded :
    (address : String) (entries : List Entry) (e : Entry)
    → one_if (claims address (resolved entries e)) ≤ one_if (claims address e)
resolved-bounded address entries (unadoptable arn reason) = omega arith
resolved-bounded address entries (adopt arn claimed id) =
    elim (Bool-cases (ltb 1 (length (filter (claims claimed) entries)))) [
      | inl many ↦ rw many (omega arith)
      | inr one ↦ rw one (omega arith)
    ]

-- the adopted entries among those that are settled
abbrev settled : List Entry → List Entry → List Entry
settled entries some_entries = filter is_adopt (map (resolved entries) some_entries)

kept-claims :
    (address : String) (e : Entry) (rest : List Entry)
    → length (filter (claims address) (filter is_adopt (e ∷ rest)))
      ≡ one_if (claims address e) + length (filter (claims address) (filter is_adopt rest))
kept-claims address (adopt arn claimed id) rest =
    length-filter (claims address) (adopt arn claimed id) (filter is_adopt rest)
kept-claims address (unadoptable arn reason) rest = omega arith

settled-none :
    (address : String) (entries some_entries : List Entry)
    → ltb 1 (length (filter (claims address) entries)) ≡ true
    → length (filter (claims address) (settled entries some_entries)) ≤ 1
settled-none address entries [] h = omega arith
settled-none address entries (e ∷ rest) h = omega (
  arith,
  kept-claims address (resolved entries e) (map (resolved entries) rest),
  ap one_if (resolved-claims address entries e h),
  settled-none address entries rest h,
)

settled-bounded :
    (address : String) (entries some_entries : List Entry)
    → length (filter (claims address) (settled entries some_entries))
      ≤ length (filter (claims address) some_entries)
settled-bounded address entries [] = omega arith
settled-bounded address entries (e ∷ rest) = omega (
  arith,
  kept-claims address (resolved entries e) (map (resolved entries) rest),
  resolved-bounded address entries e,
  length-filter (claims address) e rest,
  settled-bounded address entries rest,
)

plan_of-once :
    (address : String) (dependents : Dependents) (prefix : String) (entries : List Entry)
    → length (filter (claims address) (plan_of dependents prefix entries).parents) ≤ 1
unfolding plan_of
plan_of-once address dependents prefix entries =
    elim (Bool-cases (ltb 1 (length (filter (claims address) entries)))) [
      | inl many ↦ settled-none address entries entries many
      | inr few ↦ ground (arith, settled-bounded address entries entries, few)
    ]

-- Of the orphans that a plan adopts for themselves, no two are adopted at one address.
pub plan-once :
    (address : String) (indexed_kinds : List String) (rules : Dict Rule) (dependents : Dependents)
    (orphans : List String) (tags_by_arn : Dict (Dict String)) (prefix : String)
    → length (
        filter
          (claims address)
          (plan indexed_kinds rules dependents orphans tags_by_arn prefix).parents)
      ≤ 1
unfolding plan
plan-once address indexed_kinds rules dependents orphans tags_by_arn prefix =
    plan_of-once address dependents prefix (
      map (λ arn. plan_one indexed_kinds rules arn (tags_of arn tags_by_arn) prefix)
        (sorted orphans))
