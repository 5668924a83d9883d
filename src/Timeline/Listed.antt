-- ===== src/Timeline/Listed.antt =====
-- What the document of an operation lists of its resources and of its plan.
use aws_devops_sdet_demo.Prelude.{
  Yields, Yields-chain, Yields-some, ℕ, ℤ, String, ◌≡◌, refl, sym, ap, ◌∙◌, false, Option, none,
  some, List, [], ◌∷◌, inl, inr, Bool-cases, Fields, Dict, lookup, put, keys, values, chain,
  is_empty, some-injective, lookup-put_other, eq_iff, eq_refl, false≢true, ◌==◌, if◌then◌else◌,
}
use aws_devops_sdet_demo.Timeline.{Python, Operation, operation}
use aws_devops_sdet_demo.Timeline.Consume.{timed, counted, consume, consume_all}
use aws_devops_sdet_demo.Timeline.Steps.{
  Step, kept, tool_noted, summed_up, plan_announced, diagnosed_as, planned_as, hook_heard,
  consume-Event,
}
use aws_devops_sdet_demo.Timeline.Order.{IsFolded, consume_all-IsFolded, operation-IsFolded}
use aws_devops_sdet_demo.Timeline.Document.{Folded, picked, picked_items, sorted_types, to_json}

-- No key comes twice.
abbrev pub Distinct : {A : Type 0} → Dict A → Type 0
Distinct [] = Unit
Distinct ((k, a) ∷ rest) = (lookup k rest ≡ none) × Distinct rest

apart_sym : (j k : String) → (j == k) ≡ false → (k == j) ≡ false
apart_sym j k h = elim (Bool-cases (k == j)) [
  | inr apart ↦ apart
  | inl same ↦ absurd (false≢true (sym h ∙ ap (λ s. j == s) ((eq_iff k j).0 same) ∙ eq_refl j))
]

put-Distinct :
    {A : Type 0} (key : String) (a : A) (d : Dict A) → Distinct d → Distinct (put key a d)
put-Distinct key a [] h = (refl, tt)
put-Distinct key a ((k, b) ∷ rest) h = elim (Bool-cases (k == key)) [
  | inl same ↦ rw same h
  | inr apart ↦
      rw apart
        (lookup-put_other k key a rest (apart_sym k key apart) ∙ h.0, put-Distinct key a rest h.1)
]

missing-apart :
    {A : Type 0} (k j : String) (a : A) (d : Dict A)
    → lookup k ((j, a) ∷ d) ≡ none
    → ((j == k) ≡ false) × (lookup k d ≡ none)
missing-apart k j a d h = elim (Bool-cases (j == k)) [
  | inl same ↦ cc (rw same at h)
  | inr apart ↦ (apart, rw apart at h)
]

lookup-skip :
    {A : Type 0} (k j : String) (a : A) (d : Dict A)
    → (j == k) ≡ false
    → lookup j ((k, a) ∷ d) ≡ lookup j d
lookup-skip k j a d h = rw (apart_sym j k h) refl

-- A key that is not listed is passed over.
picked-skip :
    {A : Type 0} (k : String) (a : A) (listed d : Dict A)
    → lookup k listed ≡ none
    → picked (keys listed) ((k, a) ∷ d) ≡ picked (keys listed) d
picked-skip k a [] d h = refl
picked-skip k a ((j, b) ∷ rest) d h =
    let (apart, left) = missing-apart k j b rest h in
    ap (λ m. chain m λ x. chain (picked (keys rest) ((k, a) ∷ d)) λ others. some (x ∷ others))
      (lookup-skip k j a d apart)
    ∙ ap (λ m. chain (lookup j d) λ x. chain m λ others. some (x ∷ others))
        (picked-skip k a rest d left)

picked_items-skip :
    {A : Type 0} (k : String) (a : A) (listed d : Dict A)
    → lookup k listed ≡ none
    → picked_items (keys listed) ((k, a) ∷ d) ≡ picked_items (keys listed) d
picked_items-skip k a [] d h = refl
picked_items-skip k a ((j, b) ∷ rest) d h =
    let (apart, left) = missing-apart k j b rest h in
    ap
      (λ m.
        chain m λ x. chain (picked_items (keys rest) ((k, a) ∷ d)) λ others. some ((j, x) ∷ others))
      (lookup-skip k j a d apart)
    ∙ ap (λ m. chain (lookup j d) λ x. chain m λ others. some ((j, x) ∷ others))
        (picked_items-skip k a rest d left)

picked-values : {A : Type 0} (d : Dict A) → Distinct d → picked (keys d) d ≡ some (values d)
picked-values [] h = refl
picked-values ((k, a) ∷ rest) h =
    rw (eq_refl k, picked-skip k a rest rest h.0, picked-values rest h.1) refl

picked_items-same : {A : Type 0} (d : Dict A) → Distinct d → picked_items (keys d) d ≡ some d
picked_items-same [] h = refl
picked_items-same ((k, a) ∷ rest) h =
    rw (eq_refl k, picked_items-skip k a rest rest h.0, picked_items-same rest h.1) refl

record Unrepeated (op : Operation) : Type 0 where
  known : Distinct op.resources
  plan : Distinct op.planned

Step-Unrepeated :
    {etype : String} {event : Fields} {at : Option String} {op after : Operation}
    → Step etype event at op after
    → Unrepeated op
    → Unrepeated after
Step-Unrepeated kept u = u
Step-Unrepeated (tool_noted tool) u = record { known = u.known; plan = u.plan }
Step-Unrepeated (summed_up operation counts) u = record { known = u.known; plan = u.plan }
Step-Unrepeated plan_announced u = record { known = u.known; plan = u.plan }
Step-Unrepeated (diagnosed_as diag) u = record { known = u.known; plan = u.plan }
Step-Unrepeated (planned_as change address) u = record {
  known = u.known;
  plan = put-Distinct address _ _ u.plan;
}
Step-Unrepeated (hook_heard hook resource address found held named typed) u = record {
  known = put-Distinct address _ _ u.known;
  plan = u.plan;
}

timed-Unrepeated : (ts : Option ℤ) (op : Operation) → Unrepeated op → Unrepeated (timed ts op)
timed-Unrepeated none op u = u
timed-Unrepeated (some at) op u = record { known = u.known; plan = u.plan }

-- The document lists what the operation knows, and its plan, none where that is empty.
abbrev pub Lists : Operation → Folded → Type 0
Lists op folded =
    (folded.resources ≡ values op.resources)
    × (folded.planned ≡ (if is_empty (keys op.planned) then none else some op.planned))

module _ (py : Python) where
  consume_all-Unrepeated :
      (events : List Fields) (op : Operation)
      → Unrepeated op
      → Yields Unrepeated (consume_all py events op)
  unfolding consume_all
  consume_all-Unrepeated [] op u = Yields-some u
  consume_all-Unrepeated (event ∷ rest) op u = Yields-chain (consume py event op) λ mid e.
      let taken = (consume-Event py event op).at mid e in
      consume_all-Unrepeated rest mid (
        Step-Unrepeated taken.step (
          timed-Unrepeated taken.ts (counted taken.key op)
            (record { known = u.known; plan = u.plan })))

  to_json-Lists : (op : Operation) → IsFolded op → Unrepeated op → Yields (Lists op) (to_json py op)
  unfolding to_json
  to_json-Lists op f u = Yields-chain (picked op.order_seen op.resources) λ resources r.
      Yields-chain (picked_items op.planned_order op.planned) λ planned p.
        Yields-chain (sorted_types op.event_types) λ types _. Yields-some (
          some-injective (
              sym r
              ∙ ap (λ ks. picked ks op.resources) f.seen
              ∙ picked-values op.resources u.known),
          ap (λ ks. if is_empty ks then none else some planned) f.plan
              ∙ ap (λ d. if is_empty (keys op.planned) then none else some d)
                  (some-injective (
                    sym p
                    ∙ ap (λ ks. picked_items ks op.planned) f.plan
                    ∙ picked_items-same op.planned u.plan)),
        )

  -- Where a new operation has consumed a stream and its document is made, the resources listed are the
  -- records that the operation knows, in the order of its dict, and the plan listed is its dict of
  -- planned addresses with their actions, or null where that is empty; no address comes twice in
  -- either.
  pub to_json-Lists_all :
      (events : List Fields) (order : ℕ) (label name : String) (after : Operation) (folded : Folded)
      → consume_all py events (operation order label name) ≡ some after
      → to_json py after ≡ some folded
      → Lists after folded × Distinct after.resources × Distinct after.planned
  to_json-Lists_all events order label name after folded h made =
      let once = (consume_all-Unrepeated events _ (record { known = tt; plan = tt })).at after h in
      let f = consume_all-IsFolded py events _ after (operation-IsFolded order label name) h in
      ((to_json-Lists after f once).at folded made, once.known, once.plan)
