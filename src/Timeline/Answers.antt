-- ===== src/Timeline/Answers.antt =====
-- What one event means for a resource: whether it starts it, and whether it answers the start.
use aws_devops_sdet_demo.Prelude.{
  Yields, Yields-chain, Yields-some, String, ◌≡◌, refl, sym, ap, ◌∙◌, subst, Bool, true, false, not,
  ◌&&◌, Option, none, some, inl, inr, Bool-cases, value_true, Fields, get, Dict, lookup, put, chain,
  is_some, eq_iff, some-injective, lookup-put, lookup-put_other, false≢true, ◌==◌, and_left,
  and_right,
}
use aws_devops_sdet_demo.Timeline.{
  TypeKey, nothing, number, text, Resource, Operation, operation, or_empty,
}
use aws_devops_sdet_demo.Timeline.Consume.{
  if_named, type_of, address_of, hooked, acted, or_started, hook_noted, consume_hook, consumed,
  consumed_as,
}
use aws_devops_sdet_demo.Timeline.Steps.{
  Step, kept, tool_noted, summed_up, plan_announced, diagnosed_as, planned_as, hook_heard,
}
use aws_devops_sdet_demo.Timeline.Verdict.{is_complete}

-- the address of an event's hook
abbrev pub hook_address : Fields → Option (Option String)
hook_address event =
    chain (or_empty (get "hook" event)) λ hook. chain (or_empty (get "resource" hook)) address_of

abbrev pub is_named : String → Option (Option String) → Bool
is_named a none = false
is_named a (some none) = false
is_named a (some (some b)) = b == a

abbrev pub is_typed : String → Option TypeKey → Bool
is_typed etype (some (text t)) = t == etype
is_typed etype _ = false

-- The event is a hook of the type for the address.
abbrev pub hears : String → String → Fields → Bool
hears etype a event = is_typed etype (type_of event) && is_named a (hook_address event)

-- Whatever the operation knows of the address, it is not complete.
abbrev pub Unanswered : String → Operation → Type 0
Unanswered a op = (r : Resource) → lookup a op.resources ≡ some r → is_complete r.status ≡ false

abbrev pub Present : String → Operation → Type 0
Present a op = is_some (lookup a op.resources) ≡ true

-- Only an apply_complete completes a record.
hooked-status :
    (etype : String) (hook : Fields) (at : Option String) (r : Resource)
    → (etype == "apply_complete") ≡ false
    → is_complete r.status ≡ false
    → is_complete (hooked etype hook at r).status ≡ false
hooked-status etype hook at r other undone = elim (Bool-cases (etype == "apply_start")) [
  | inl start ↦ rw start undone
  | inr a ↦ elim (Bool-cases (etype == "apply_progress")) [
    | inl progress ↦ rw (a, progress) undone
    | inr b ↦ elim (Bool-cases (etype == "apply_errored")) [
      | inl failed ↦ rw (a, b, other, failed) refl
      | inr c ↦ rw (a, b, other, c) undone
    ]
  ]
]

acted-status :
    (hook : Fields) (r : Resource) → is_complete (acted hook r).status ≡ is_complete r.status
acted-status hook r = elim (Bool-cases (value_true (get "action" hook))) [
  | inl says ↦ rw says refl
  | inr silent ↦ rw silent refl
]

or_started-status :
    (hook resource : Fields) (a : String) (known : Option Resource)
    → ((r : Resource) → known ≡ some r → is_complete r.status ≡ false)
    → is_complete (or_started hook resource a known).status ≡ false
or_started-status hook resource a none undone = refl
or_started-status hook resource a (some r) undone = undone r refl

left_false : (x y : Bool) → (x && y) ≡ false → y ≡ true → x ≡ false
left_false true y h e = absurd (false≢true (sym h ∙ e))
left_false false y h e = refl

hook_noted-Unanswered :
    (etype : String) (hook resource : Fields) (b a : String) (at : Option String) (op : Operation)
    → ((etype == "apply_complete") && (b == a)) ≡ false
    → Unanswered a op
    → Unanswered a (hook_noted etype hook resource b at op)
hook_noted-Unanswered etype hook resource b a at op other undone r h = elim (Bool-cases (b == a)) [
  | inl same ↦
      let at_b =
        ap (λ k. lookup k (hook_noted etype hook resource b at op).resources)
          ((eq_iff b a).0 same) in
      let kept_b = subst (λ k. Unanswered k op) (sym ((eq_iff b a).0 same)) undone in
      subst (λ x. is_complete x.status ≡ false)
        (some-injective (sym (lookup-put b _ op.resources) ∙ (at_b ∙ h)))
        (hooked-status etype hook at _ (left_false _ _ other same)
          (acted-status hook _ ∙ or_started-status hook resource b _ kept_b))
  | inr apart ↦ undone r (sym (lookup-put_other a b _ op.resources apart) ∙ h)
]

put_here :
    (a b : String) (r : Resource) (d : Dict Resource)
    → (b == a) ≡ true
    → is_some (lookup a (put b r d)) ≡ true
put_here a b r d same =
    rw (ap (λ k. lookup k (put b r d)) (sym ((eq_iff b a).0 same)) ∙ lookup-put b r d) refl

pub not-true : (x : Bool) → not x ≡ true → x ≡ false
not-true true h = sym h
not-true false h = refl

-- What the event of a hook hears, by what was read of it.
hears-hook :
    (k a etype : String) (event hook resource : Fields) (address : String)
    → type_of event ≡ some (text etype)
    → or_empty (get "hook" event) ≡ some hook
    → or_empty (get "resource" hook) ≡ some resource
    → address_of resource ≡ some (some address)
    → hears k a event ≡ ((etype == k) && (address == a))
hears-hook k a etype event hook resource address typed found held named =
    rw (typed, found, held, named) refl

pub Step-Unanswered :
    (a etype : String) (event : Fields) (at : Option String) (op after : Operation)
    → Step etype event at op after
    → hears "apply_complete" a event ≡ false
    → Unanswered a op
    → Unanswered a after
Step-Unanswered a etype event at op _ kept quiet undone = undone
Step-Unanswered a etype event at op _ (tool_noted tool) quiet undone = undone
Step-Unanswered a etype event at op _ (summed_up operation counts) quiet undone = undone
Step-Unanswered a etype event at op _ plan_announced quiet undone = undone
Step-Unanswered a etype event at op _ (diagnosed_as diag) quiet undone = undone
Step-Unanswered a etype event at op _ (planned_as change address) quiet undone = undone
Step-Unanswered a etype event at op _ (hook_heard hook resource b found held named typed) quiet
      undone =
    hook_noted-Unanswered etype hook resource b a at op
      (sym (hears-hook "apply_complete" a etype event hook resource b typed found held named)
        ∙ quiet)
      undone

put-Present :
    (a b : String) (r : Resource) (d : Dict Resource)
    → is_some (lookup a d) ≡ true
    → is_some (lookup a (put b r d)) ≡ true
put-Present a b r d known = elim (Bool-cases (b == a)) [
  | inl same ↦ put_here a b r d same
  | inr apart ↦ rw (lookup-put_other a b r d apart) known
]

pub Step-Present :
    (a etype : String) (event : Fields) (at : Option String) (op after : Operation)
    → Step etype event at op after
    → Present a op
    → Present a after
Step-Present a etype event at op _ kept known = known
Step-Present a etype event at op _ (tool_noted tool) known = known
Step-Present a etype event at op _ (summed_up operation counts) known = known
Step-Present a etype event at op _ plan_announced known = known
Step-Present a etype event at op _ (diagnosed_as diag) known = known
Step-Present a etype event at op _ (planned_as change address) known = known
Step-Present a etype event at op _ (hook_heard hook resource b found held named typed) known =
    put-Present a b _ op.resources known

named_hook :
    (a : String) (hook resource : Fields) (at : Option String) (op : Operation)
    (address : Option String)
    → is_named a (some address) ≡ true
    → Present a (if_named address op (λ b. hook_noted "apply_start" hook resource b at op))
named_hook a hook resource at op none names = absurd (false≢true names)
named_hook a hook resource at op (some b) names = put_here a b _ op.resources names

-- The hook of a start makes the record.
hook-starts :
    (a : String) (event : Fields) (at : Option String) (op : Operation)
    → is_named a (hook_address event) ≡ true
    → Yields (Present a) (consume_hook "apply_start" event at op)
unfolding consume_hook
hook-starts a event at op names = Yields-chain (or_empty (get "hook" event)) λ hook found.
    Yields-chain (or_empty (get "resource" hook)) λ resource held.
      Yields-chain (address_of resource) λ address named.
        Yields-some (named_hook a hook resource at op address (rw (found, held, named) at names))

pub start-Present :
    (a etype : String) (event : Fields) (at : Option String) (op : Operation)
    → (etype == "apply_start") ≡ true
    → is_named a (hook_address event) ≡ true
    → Yields (Present a) (consumed etype event at op)
unfolding consumed
start-Present a etype event at op started names =
    subst (λ e. Yields (Present a) (consumed e event at op))
      (sym ((eq_iff etype "apply_start").0 started)) (hook-starts a event at op names)

-- The same of a type that is any key.
pub as-Present :
    (a : String) (key : TypeKey) (event : Fields) (at : Option String) (op : Operation)
    → (is_typed "apply_start" (some key) && is_named a (hook_address event)) ≡ true
    → Yields (Present a) (consumed_as key event at op)
unfolding consumed_as
as-Present a (text etype) event at op heard =
    start-Present a etype event at op (and_left _ _ heard) (and_right _ _ heard)
as-Present a nothing event at op heard = absurd (false≢true heard)
as-Present a (number n) event at op heard = absurd (false≢true heard)
