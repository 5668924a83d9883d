-- ===== src/Orphans/Findings.antt =====
-- What the decision of the sweep reports, channel by channel and resource by resource.
use aws_devops_sdet_demo.Prelude.{
  String, ◌≡◌, refl, sym, ap, ◌∙◌, Bool, true, false, not, ◌&&◌, List, [], ◌∷◌, inl, inr,
  Bool-cases, Value, Dict, ◌==◌, if◌then◌else◌, is_empty, all, contains, sorted_set, any-sorted,
  contains-filter, is_empty-sorted, is_empty-sorted_set, is_empty-filter,
}
use aws_devops_sdet_demo.Orphans.{
  Verdict, clean, Decision, silent_names, silent_channels, discovered, is_managed, orphans_of,
  not_present_of, verdict_of, all_clear, reported, decide_sweep,
}

abbrev pub is_clean : Verdict → Bool
is_clean clean = true
is_clean other = false

-- Every discovery channel's control answered something.
abbrev all_answered : Dict (List Value) → Bool
all_answered [] = true
all_answered ((name, items) ∷ rest) = not (is_empty items) && all_answered rest

-- A discovered resource that the service confirms is managed.
abbrev is_accounted : List String → List String → String → Bool
is_accounted present identifiers arn =
    not (contains arn present && not (is_managed arn identifiers))

silent_names-answered :
    (controls : Dict (List Value)) → is_empty (silent_names controls) ≡ all_answered controls
silent_names-answered [] = refl
silent_names-answered ((name, []) ∷ rest) = refl
silent_names-answered ((name, item ∷ items) ∷ rest) = silent_names-answered rest

silent_channels-answered :
    (controls : Dict (List Value)) → is_empty (silent_channels controls) ≡ all_answered controls
unfolding silent_channels
silent_channels-answered controls =
    is_empty-sorted (silent_names controls) ∙ silent_names-answered controls

orphans_of-empty :
    (arns present identifiers : List String)
    → is_empty (orphans_of arns present identifiers) ≡ all (is_accounted present identifiers) arns
unfolding orphans_of
orphans_of-empty arns present identifiers = is_empty-sorted _ ∙ is_empty-filter _ arns

and_comm : (a b : Bool) → (a && b) ≡ (b && a)
and_comm true true = refl
and_comm true false = refl
and_comm false true = refl
and_comm false false = refl

-- a record by a test, read by its verdict
if_clean :
    (b : Bool) (c d : Decision)
    → is_clean c.verdict ≡ true
    → is_clean d.verdict ≡ false
    → is_clean (if b then c else d).verdict ≡ b
if_clean true c d hc hd = hc
if_clean false c d hc hd = hd

orphans_of-contains :
    (arn : String) (arns present identifiers : List String)
    → contains arn (orphans_of arns present identifiers)
      ≡ (contains arn arns && (contains arn present && not (is_managed arn identifiers)))
unfolding orphans_of
orphans_of-contains arn arns present identifiers =
    any-sorted (λ t. arn == t) _ ∙ contains-filter _ arn arns

left_behind-found :
    (arn : String) (found unconfirmed arns present gone : List String)
    → contains arn
        (if is_empty found && is_empty unconfirmed
          then all_clear arns present gone
          else reported found unconfirmed gone).left_behind
      ≡ contains arn found
unfolding all_clear reported
left_behind-found arn [] [] arns present gone = refl
left_behind-found arn [] (u ∷ unconfirmed) arns present gone = refl
left_behind-found arn (f ∷ found) unconfirmed arns present gone = refl

verdict_of-clean :
    (arns present unconfirmed identifiers : List String)
    → is_clean (verdict_of arns present unconfirmed identifiers).verdict
      ≡ (is_empty unconfirmed && all (is_accounted present identifiers) arns)
unfolding verdict_of all_clear reported
verdict_of-clean arns present unconfirmed identifiers =
    if_clean (is_empty (orphans_of arns present identifiers) && is_empty unconfirmed) _ _ refl refl
    ∙ (and_comm _ (is_empty unconfirmed)
        ∙ ap (λ b. is_empty unconfirmed && b) (orphans_of-empty arns present identifiers))

-- The sweep calls the account clean exactly when every control answered something, no resource is
-- unconfirmed, and every discovered resource that its service confirms is managed.
pub decide_sweep-clean :
    (tagged : List (Dict String)) (controls : Dict (List Value))
    (identifiers present unconfirmed : List String)
    → is_clean (decide_sweep tagged controls identifiers present unconfirmed).verdict ≡ (
        all_answered controls
        && (is_empty unconfirmed && all (is_accounted present identifiers) (discovered tagged)))
unfolding decide_sweep
decide_sweep-clean tagged controls identifiers present unconfirmed =
    elim (Bool-cases (is_empty (silent_channels controls))) [
      | inl heard ↦
          rw
            (
              heard,
              sym (silent_channels-answered controls) ∙ heard,
              sym (is_empty-sorted_set unconfirmed),
            )
            (verdict_of-clean (discovered tagged) present (sorted_set unconfirmed) identifiers)
      | inr silent ↦ rw (silent, sym (silent_channels-answered controls) ∙ silent) refl
    ]

verdict_of-contains :
    (arn : String) (arns present unconfirmed identifiers : List String)
    → contains arn (verdict_of arns present unconfirmed identifiers).left_behind
      ≡ (contains arn arns && (contains arn present && not (is_managed arn identifiers)))
unfolding verdict_of
verdict_of-contains arn arns present unconfirmed identifiers =
    left_behind-found arn (orphans_of arns present identifiers) unconfirmed arns present
      (not_present_of arns present unconfirmed)
    ∙ orphans_of-contains arn arns present identifiers

-- A text is reported as left behind exactly when every control answered something and the text is
-- the ARN of a discovered resource, not empty, that its service confirms and that is not managed.
pub decide_sweep-left_behind :
    (arn : String) (tagged : List (Dict String)) (controls : Dict (List Value))
    (identifiers present unconfirmed : List String)
    → contains arn (decide_sweep tagged controls identifiers present unconfirmed).left_behind ≡ (
        all_answered controls
        && (contains arn (discovered tagged)
            && (contains arn present && not (is_managed arn identifiers))))
unfolding decide_sweep
decide_sweep-left_behind arn tagged controls identifiers present unconfirmed =
    elim (Bool-cases (is_empty (silent_channels controls))) [
      | inl heard ↦
          rw (heard, sym (silent_channels-answered controls) ∙ heard)
            (verdict_of-contains arn (discovered tagged) present (sorted_set unconfirmed)
              identifiers)
      | inr silent ↦ rw (silent, sym (silent_channels-answered controls) ∙ silent) refl
    ]
