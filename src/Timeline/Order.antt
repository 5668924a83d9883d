-- ===== src/Timeline/Order.antt =====
-- What the folding of events keeps true of an operation.
use aws_devops_sdet_demo.Prelude.{
  Yields, Yields-chain, Yields-some, ℕ, ℤ, ◌≤ℤ◌, ltb_ℤ, String, ◌≡◌, refl, sym, Bool, true, not,
  ◌&&◌, Option, none, some, List, [], ◌∷◌, ◌++◌, inl, inr, Bool-cases, Option-cases, value_true,
  Fields, get, Dict, lookup, put, keys, values, all, is_some, keys-put_new, keys-put_old, all-put,
  all-known, arith, ◌==◌, if◌then◌else◌,
}
use aws_devops_sdet_demo.Timeline.{Python, Resource, Operation, operation}
use aws_devops_sdet_demo.Timeline.Consume.{
  counted, timed, earlier, later, hooked, acted, or_started, consume, consume_all,
}
use aws_devops_sdet_demo.Timeline.Steps.{
  Step, kept, tool_noted, summed_up, plan_announced, diagnosed_as, planned_as, hook_heard,
  consume-Event, name_of,
}
use aws_devops_sdet_demo.Timeline.Verdict.{is_incomplete}

-- A resource that is incomplete has no end.
abbrev is_settled : Resource → Bool
is_settled r = not (is_incomplete r.status && is_some r.finished_at)

-- Both instants are known or neither, the first not after the last.
abbrev Spans : Option ℤ → Option ℤ → Type 0
Spans none none = Unit
Spans (some first) (some last) = first ≤ℤ last
Spans _ _ = ⊥

-- The two lists of addresses are the keys of the two dicts in their order, no incomplete resource has
-- an end, and the operation's instants are in order.
pub record IsFolded (op : Operation) : Type 0 where
  pub seen : op.order_seen ≡ keys op.resources
  pub plan : op.planned_order ≡ keys op.planned
  pub settled : all is_settled (values op.resources) ≡ true
  pub spans : Spans op.first_ts op.last_ts

-- A list that follows the keys of a dict follows them after the assignment.
keys-follow :
    {A : Type 0} (key : String) (a : A) (d : Dict A) (listed : List String)
    → listed ≡ keys d
    → (if is_some (lookup key d) then listed else listed ++ (key ∷ [])) ≡ keys (put key a d)
keys-follow key a d listed same = elim (Option-cases (lookup key d)) [
  | inl new ↦ rw (new, same) (sym (keys-put_new key a d new))
  | inr (b, old) ↦ rw (old, same) (sym (keys-put_old key a d (rw old refl)))
]

hooked-settled :
    (etype : String) (hook : Fields) (at : Option String) (r : Resource)
    → is_settled r ≡ true
    → is_settled (hooked etype hook at r) ≡ true
hooked-settled etype hook at r h = elim (Bool-cases (etype == "apply_start")) [
  | inl start ↦ rw start h
  | inr a ↦ elim (Bool-cases (etype == "apply_progress")) [
    | inl progress ↦ rw (a, progress) h
    | inr b ↦ elim (Bool-cases (etype == "apply_complete")) [
      | inl done ↦ rw (a, b, done) refl
      | inr c ↦ elim (Bool-cases (etype == "apply_errored")) [
        | inl failed ↦ rw (a, b, c, failed) refl
        | inr d ↦ rw (a, b, c, d) h
      ]
    ]
  ]
]

acted-settled :
    (hook : Fields) (r : Resource) → is_settled r ≡ true → is_settled (acted hook r) ≡ true
acted-settled hook r h = elim (Bool-cases (value_true (get "action" hook))) [
  | inl says ↦ rw says h
  | inr silent ↦ rw silent h
]

or_started-settled :
    (hook resource : Fields) (a : String) (known : Option Resource)
    → ((r : Resource) → known ≡ some r → is_settled r ≡ true)
    → is_settled (or_started hook resource a known) ≡ true
or_started-settled hook resource a none h = refl
or_started-settled hook resource a (some r) h = h r refl

Step-IsFolded :
    (etype : String) (event : Fields) (at : Option String) (op after : Operation)
    → Step etype event at op after
    → IsFolded op
    → IsFolded after
Step-IsFolded etype event at op _ kept f = f
Step-IsFolded etype event at op _ (tool_noted tool) f = record {
  seen = f.seen;
  plan = f.plan;
  settled = f.settled;
  spans = f.spans;
}
Step-IsFolded etype event at op _ (summed_up operation counts) f = record {
  seen = f.seen;
  plan = f.plan;
  settled = f.settled;
  spans = f.spans;
}
Step-IsFolded etype event at op _ plan_announced f = record {
  seen = f.seen;
  plan = f.plan;
  settled = f.settled;
  spans = f.spans;
}
Step-IsFolded etype event at op _ (diagnosed_as diag) f = record {
  seen = f.seen;
  plan = f.plan;
  settled = f.settled;
  spans = f.spans;
}
Step-IsFolded etype event at op _ (planned_as change address) f = record {
  seen = f.seen;
  plan = keys-follow address (get "action" change) op.planned op.planned_order f.plan;
  settled = f.settled;
  spans = f.spans;
}
Step-IsFolded etype event at op _ (hook_heard hook resource b found held named typed) f = record {
  seen = keys-follow b _ op.resources op.order_seen f.seen;
  plan = f.plan;
  settled = all-put is_settled b _ op.resources f.settled (
      hooked-settled etype hook at _ (
        acted-settled hook _ (
          or_started-settled hook resource b _
            (λ r e. all-known is_settled b r op.resources f.settled e))));
  spans = f.spans;
}

ordered :
    (at first last : ℤ) → first ≤ℤ last → Spans (earlier at (some first)) (later at (some last))
ordered at first last h = elim (Bool-cases (ltb_ℤ at first)) [
  | inl early ↦ elim (Bool-cases (ltb_ℤ last at)) [
    | inl late ↦ rw (early, late) (ground arith)
    | inr within ↦ rw (early, within) (ground arith)
  ]
  | inr after ↦ elim (Bool-cases (ltb_ℤ last at)) [
    | inl late ↦ rw (after, late) (ground arith)
    | inr within ↦ rw (after, within) h
  ]
]

timed-Spans :
    (at : ℤ) (first last : Option ℤ) → Spans first last → Spans (earlier at first) (later at last)
timed-Spans at none none h = (ground arith)
timed-Spans at none (some last) h = absurd h
timed-Spans at (some first) none h = absurd h
timed-Spans at (some first) (some last) h = ordered at first last h

timed-IsFolded : (ts : Option ℤ) (op : Operation) → IsFolded op → IsFolded (timed ts op)
timed-IsFolded none op f = f
timed-IsFolded (some at) op f = record {
  seen = f.seen;
  plan = f.plan;
  settled = f.settled;
  spans = timed-Spans at op.first_ts op.last_ts f.spans;
}

pub operation-IsFolded : (order : ℕ) (label name : String) → IsFolded (operation order label name)
operation-IsFolded order label name = record {
  seen = refl;
  plan = refl;
  settled = refl;
  spans = tt;
}

module _ (py : Python) where
  consume-IsFolded :
      (event : Fields) (op : Operation) → IsFolded op → Yields IsFolded (consume py event op)
  consume-IsFolded event op f = record {
    at = λ after e.
        let taken = (consume-Event py event op).at after e in
        Step-IsFolded (name_of taken.key) event _ _ after taken.step (
          timed-IsFolded taken.ts (counted taken.key op)
            (record { seen = f.seen; plan = f.plan; settled = f.settled; spans = f.spans }));
  }

  consume_all-Yields :
      (events : List Fields) (op : Operation)
      → IsFolded op
      → Yields IsFolded (consume_all py events op)
  unfolding consume_all
  consume_all-Yields [] op f = Yields-some f
  consume_all-Yields (event ∷ rest) op f =
      Yields-chain (consume py event op)
        λ mid e. consume_all-Yields rest mid ((consume-IsFolded event op f).at mid e)

  -- A well-formed operation stays so over every stream of events that the fold consumes: its two lists
  -- of addresses are the keys of its two dicts in their order, no incomplete resource has an end, and
  -- of its first and last instant both are known, in order, or neither.
  pub consume_all-IsFolded :
      (events : List Fields) (op after : Operation)
      → IsFolded op
      → consume_all py events op ≡ some after
      → IsFolded after
  consume_all-IsFolded events op after f h = (consume_all-Yields events op f).at after h
