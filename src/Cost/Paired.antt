-- ===== src/Cost/Paired.antt =====
-- What the two timelines of a cost that is built have in common.
use aws_devops_sdet_demo.Prelude.{
  Yields, Yields-chain, Yields-some, ℤ, ◌≤ℤ◌, ltb_ℤ, String, ◌≡◌, refl, sym, ap, ◌∙◌, Bool, true,
  false, not, ◌&&◌, ◌||◌, Option, none, some, List, [], ◌∷◌, ◌++◌, Dict, keys, is_empty, inl, inr,
  Bool-cases, Option-cases, and_left, and_right, false≢true, eq_iff, arith, ◌==◌, if◌then◌else◌,
}
use aws_devops_sdet_demo.Cost.{Floats, Timeline, Model, parse_ts, resources_of}
use aws_devops_sdet_demo.Cost.Pairing.{
  Problem, environment_problem, status_problem, order_problem, common, destroy_problems,
  pairing_refusals,
}
use aws_devops_sdet_demo.Cost.Build.{Cost, build}

is_empty-append {ℓ} :
    {A : Type ℓ} (xs ys : List A) → is_empty (xs ++ ys) ≡ (is_empty xs && is_empty ys)
is_empty-append [] ys = refl
is_empty-append (x ∷ xs) ys = refl

environment-named :
    (environment role : String) (timeline : Timeline)
    → is_empty (environment_problem environment role timeline) ≡ true
    → timeline.environment ≡ some environment
environment-named environment role timeline h = elim (Option-cases timeline.environment) [
  | inl missing ↦ absurd (false≢true (rw missing at h))
  | inr (named, known) ↦ elim (Bool-cases (named == environment)) [
    | inl same ↦ known ∙ ap some ((eq_iff named environment).0 same)
    | inr other ↦ absurd (false≢true (rw (known, other) at h))
  ]
]

status-is_complete :
    (apply : Timeline) → is_empty (status_problem apply) ≡ true → apply.status ≡ some "complete"
status-is_complete apply h = elim (Option-cases apply.status) [
  | inl missing ↦ absurd (false≢true (rw missing at h))
  | inr (status, known) ↦ elim (Bool-cases (status == "complete")) [
    | inl same ↦ known ∙ ap some ((eq_iff status "complete").0 same)
    | inr other ↦ absurd (false≢true (rw (known, other) at h))
  ]
]

-- Where both instants are known, the first is not after the second.
abbrev InOrder : Option ℤ → Option ℤ → Type 0
InOrder (some first) (some second) = first ≤ℤ second
InOrder _ _ = Unit

order-InOrder :
    (end start : Option ℤ) → is_empty (order_problem end start) ≡ true → InOrder end start
order-InOrder none none h = tt
order-InOrder none (some start) h = tt
order-InOrder (some end) none h = tt
order-InOrder (some end) (some start) h = elim (Bool-cases (ltb_ℤ start end)) [
  | inl before ↦ absurd (false≢true (rw before at h))
  | inr after ↦ ground (arith, after)
]

met :
    (nothing common : Bool) (problem : Problem)
    → is_empty (if not nothing && not common then problem ∷ [] else []) ≡ true
    → (nothing || common) ≡ true
met true common problem h = refl
met false true problem h = refl
met false false problem h = absurd (false≢true h)

empty_both :
    (xs ys : List Problem)
    → is_empty (xs ++ ys) ≡ true
    → (is_empty xs ≡ true) × (is_empty ys ≡ true)
empty_both xs ys h =
    let both = sym (is_empty-append xs ys) ∙ h in (and_left _ _ both, and_right _ _ both)

Yields-when :
    {A : Type 0} {P : A → Type 0} (b : Bool) {m : Option A}
    → (b ≡ true → Yields P m)
    → Yields P (if b then m else none)
Yields-when true h = h refl
Yields-when false h = record { at = λ a e. cc e }

module _ {F : Type 0} (num : Floats F) (strptime : String → Option ℤ) where
  -- Both timelines are the environment's, the apply is complete, the teardown did not start before the
  -- apply finished, and it deleted nothing or something that the apply created.
  abbrev pub Paired : String → Timeline → Timeline → Type 0
  Paired environment apply destroy =
      (apply.environment ≡ some environment)
      × (destroy.environment ≡ some environment)
      × (apply.status ≡ some "complete")
      × ((is_empty (keys (resources_of destroy ("delete" ∷ [])))
            || common (keys (resources_of apply ("create" ∷ "replace" ∷ [])))
                (keys (resources_of destroy ("delete" ∷ []))))
          ≡ true)
      × ((end start : Option ℤ) × (parse_ts strptime apply.finished_at ≡ some end)
          × (parse_ts strptime destroy.started_at ≡ some start)
          × InOrder end start)

  no_problems-Paired :
      (environment : String) (apply destroy : Timeline)
      → Yields
          (λ problems. is_empty problems ≡ true → Paired environment apply destroy)
          (pairing_refusals strptime environment apply (some destroy))
  unfolding pairing_refusals
  no_problems-Paired environment apply destroy =
      let created = keys (resources_of apply ("create" ∷ "replace" ∷ [])) in
      let deleted = keys (resources_of destroy ("delete" ∷ [])) in
      Yields-chain (destroy_problems strptime apply destroy) λ rest e. Yields-some (
        (Yields-chain
            {P = λ rest.
              is_empty (
                  environment_problem environment "apply" apply
                  ++ (environment_problem environment "destroy" destroy
                      ++ (status_problem apply ++ rest)))
                ≡ true
              → Paired environment apply destroy}
            (parse_ts strptime apply.finished_at)
            λ end ended. Yields-chain (parse_ts strptime destroy.started_at) λ start started.
              Yields-some λ h.
                let first = empty_both (environment_problem environment "apply" apply) _ h in
                let second =
                  empty_both (environment_problem environment "destroy" destroy) _ first.1 in
                let third = empty_both (status_problem apply) _ second.1 in
                let fourth = empty_both (order_problem end start) _ third.1 in
                (
                  environment-named environment "apply" apply first.0,
                  environment-named environment "destroy" destroy second.0,
                  status-is_complete apply third.0,
                  met (is_empty deleted) (common created deleted) _ fourth.1,
                  (end, start, ended, started, order-InOrder end start fourth.0),
                )).at
          rest e)

  -- Where a cost is built of an apply and a teardown, both timelines are the environment's, the apply is
  -- complete, the teardown deleted nothing or something that the apply created, and, where both
  -- instants are known, it did not start before the apply finished.
  pub build-Paired :
      (environment : String) (apply destroy : Timeline) (unit_prices : Dict F) (model : Model F)
      (shape : Dict F) (as_of : Option ℤ) (cost : Cost F)
      → build num strptime environment apply (some destroy) unit_prices model shape as_of
        ≡ some cost
      → Paired environment apply destroy
  unfolding build
  build-Paired environment apply destroy unit_prices model shape as_of =
      (Yields-chain (pairing_refusals strptime environment apply (some destroy)) λ problems e.
        Yields-when (is_empty problems) (λ none_found. record {
          at = λ cost _. (no_problems-Paired environment apply destroy).at problems e none_found;
        })).at
