-- ===== src/Timeline/Made.antt =====
-- When the document of an operation that has consumed a stream is made.
use aws_devops_sdet_demo.Prelude.{
  leb, ◌∙◌, ap, ℤ, Bool, ◌&&◌, all, Yields, Yields-chain, Yields-some, arith, false, ℕ, String, ◌≡◌,
  refl, sym, true, Option, none, some, List, [], ◌∷◌, inl, inr, Bool-cases, Fields, subst, Dict,
  lookup, keys, is_some, chain, eq_refl, false≢true, ◌==◌,
}
use aws_devops_sdet_demo.Timeline.{
  TypeKey, nothing, number, text, TypeCounts, same_type, count_type, Python, Operation, operation,
}
use aws_devops_sdet_demo.Timeline.Consume.{type_of, counted, timed, consume, consume_all}
use aws_devops_sdet_demo.Timeline.Steps.{
  Step, kept, tool_noted, summed_up, plan_announced, diagnosed_as, planned_as, hook_heard,
  consume-Event,
}
use aws_devops_sdet_demo.Timeline.Types.{
  kind, alike, types, is_one_kind, sorted_types-is_some, is_one_kind-alike,
}
use mathlib.Core.Bool.{and_assoc}
use aws_devops_sdet_demo.Timeline.Order.{IsFolded, consume_all-IsFolded, operation-IsFolded}
use aws_devops_sdet_demo.Timeline.Document.{sorted_types, picked, picked_items, to_json}

-- Every listed address is known.
abbrev AllKnown : {A : Type 0} → List String → Dict A → Type 0
AllKnown [] d = Unit
AllKnown (key ∷ rest) d = (is_some (lookup key d) ≡ true) × AllKnown rest d

chain-is_some :
    {A B : Type 0} (m : Option A) (f : A → Option B) (b : Bool)
    → is_some m ≡ true
    → ((a : A) → is_some (f a) ≡ b)
    → is_some (chain m f) ≡ b
chain-is_some none f b h k = absurd (false≢true h)
chain-is_some (some a) f b h k = k a

picked-some :
    {A : Type 0} (listed : List String) (d : Dict A)
    → AllKnown listed d
    → is_some (picked listed d) ≡ true
picked-some [] d h = refl
picked-some (key ∷ rest) d h =
    chain-is_some (lookup key d) _ true h.0
      λ a. chain-is_some (picked rest d) _ true (picked-some rest d h.1) λ others. refl

picked_items-some :
    {A : Type 0} (listed : List String) (d : Dict A)
    → AllKnown listed d
    → is_some (picked_items listed d) ≡ true
picked_items-some [] d h = refl
picked_items-some (key ∷ rest) d h =
    chain-is_some (lookup key d) _ true h.0
      λ a. chain-is_some (picked_items rest d) _ true (picked_items-some rest d h.1) λ others. refl

one_more_known :
    {A : Type 0} (k : String) (a : A) (key : String) (d : Dict A)
    → is_some (lookup key d) ≡ true
    → is_some (lookup key ((k, a) ∷ d)) ≡ true
one_more_known k a key d h = elim (Bool-cases (k == key)) [
  | inl same ↦ rw same refl
  | inr apart ↦ rw apart h
]

still_known :
    {A : Type 0} (k : String) (a : A) (listed : List String) (d : Dict A)
    → AllKnown listed d
    → AllKnown listed ((k, a) ∷ d)
still_known k a [] d h = tt
still_known k a (key ∷ rest) d h = (one_more_known k a key d h.0, still_known k a rest d h.1)

AllKnown-keys : {A : Type 0} (d : Dict A) → AllKnown (keys d) d
AllKnown-keys [] = tt
AllKnown-keys ((k, a) ∷ rest) =
    (rw (eq_refl k) refl, still_known k a (keys rest) rest (AllKnown-keys rest))

chain-made :
    {A B : Type 0} (m : Option A) (f : A → B) → is_some (chain m (λ a. some (f a))) ≡ is_some m
chain-made none f = refl
chain-made (some a) f = refl

-- The document of an operation that is well formed is made where its types can be sorted: no address
-- is listed and not known.
to_json-sorts :
    (py : Python) (op : Operation)
    → IsFolded op
    → is_some (to_json py op) ≡ is_one_kind (types op.event_types)
unfolding to_json
to_json-sorts py op f =
    chain-is_some (picked op.order_seen op.resources) _ _
      (picked-some op.order_seen op.resources
        (subst (λ ks. AllKnown ks op.resources) (sym f.seen) (AllKnown-keys op.resources)))
      λ resources.
        chain-is_some (picked_items op.planned_order op.planned) _ _
          (picked_items-some op.planned_order op.planned
            (subst (λ ks. AllKnown ks op.planned) (sym f.plan) (AllKnown-keys op.planned)))
          λ planned.
            chain-made (sorted_types op.event_types) _ ∙ sorted_types-is_some op.event_types

abbrev pub with_type : Option TypeKey → List TypeKey → List TypeKey
with_type none keys = keys
with_type (some key) keys = key ∷ keys

-- The types of the events of a stream.
abbrev pub read_types : List Fields → List TypeKey
read_types [] = []
read_types (event ∷ rest) = with_type (type_of event) (read_types rest)

same-kind : (a b : TypeKey) → same_type a b ≡ true → kind a ≡ kind b
same-kind nothing nothing h = refl
same-kind (number n) (number m) h = refl
same-kind (text s) (text t) h = refl
same-kind nothing (number m) h = absurd (false≢true h)
same-kind nothing (text t) h = absurd (false≢true h)
same-kind (number n) nothing h = absurd (false≢true h)
same-kind (number n) (text t) h = absurd (false≢true h)
same-kind (text s) nothing h = absurd (false≢true h)
same-kind (text s) (number m) h = absurd (false≢true h)

and_true_right : (a : Bool) → (a && true) ≡ a
and_true_right true = refl
and_true_right false = refl

and_twice : (a b c : Bool) → b ≡ c → (b && a) ≡ ((b && a) && c)
and_twice true true c h = h
and_twice false true c h = refl
and_twice a false c h = refl

counted-alike :
    (j key : TypeKey) (d : TypeCounts)
    → all (alike j) (types (count_type key d)) ≡ (all (alike j) (types d) && alike j key)
counted-alike j key [] = ground arith
counted-alike j key ((k, n) ∷ rest) = elim (Bool-cases (same_type k key)) [
  | inl same ↦ rw same (
      and_twice (all (alike j) (types rest)) (alike j k) (alike j key)
        (ap (λ m. leb (kind j) m && leb m (kind j)) (same-kind k key same)))
  | inr later ↦ rw later (
      ap (λ b. alike j k && b) (counted-alike j key rest)
      ∙ sym (and_assoc (alike j k) (all (alike j) (types rest)) (alike j key)))
]

Step-types :
    {etype : String} {event : Fields} {at : Option String} {op after : Operation}
    → Step etype event at op after
    → after.event_types ≡ op.event_types
Step-types kept = refl
Step-types (tool_noted tool) = refl
Step-types (summed_up operation counts) = refl
Step-types plan_announced = refl
Step-types (diagnosed_as diag) = refl
Step-types (planned_as change address) = refl
Step-types (hook_heard hook resource address found held named typed) = refl

timed-types : (ts : Option ℤ) (op : Operation) → (timed ts op).event_types ≡ op.event_types
timed-types none op = refl
timed-types (some at) op = refl

module _ (py : Python) (j : TypeKey) where
  consume_all-alike :
      (events : List Fields) (op : Operation)
      → Yields
          (λ after.
            all (alike j) (types after.event_types)
            ≡ (all (alike j) (types op.event_types) && all (alike j) (read_types events)))
          (consume_all py events op)
  unfolding consume_all
  consume_all-alike [] op =
      Yields-some (sym (and_true_right (all (alike j) (types op.event_types))))
  consume_all-alike (event ∷ rest) op = Yields-chain (consume py event op) λ mid e. record {
    at = λ after h.
        let taken = (consume-Event py event op).at mid e in
        let before = all (alike j) (types op.event_types) in
        (consume_all-alike rest mid).at after h
        ∙ ap (λ d. all (alike j) (types d) && all (alike j) (read_types rest))
            (Step-types taken.step ∙ timed-types taken.ts (counted taken.key op))
        ∙ ap (λ b. b && all (alike j) (read_types rest)) (counted-alike j taken.key op.event_types)
        ∙ and_assoc before (alike j taken.key) (all (alike j) (read_types rest))
        ∙ ap (λ ks. before && all (alike j) ks)
            (ap (λ k. with_type k (read_types rest)) (sym taken.typed));
  }

-- The document of a new operation that has consumed a stream is made exactly where the types of the
-- stream's events are all texts, all numbers, or all None; a missing type is a text.
pub consume_all-to_json :
    (py : Python) (events : List Fields) (order : ℕ) (label name : String) (after : Operation)
    → consume_all py events (operation order label name) ≡ some after
    → is_some (to_json py after) ≡ is_one_kind (read_types events)
consume_all-to_json py events order label name after h =
    to_json-sorts py after
      (consume_all-IsFolded py events _ after (operation-IsFolded order label name) h)
    ∙ is_one_kind-alike (types after.event_types) (read_types events)
        (λ j. (consume_all-alike py j events _).at after h)
