-- ===== src/Orphans/State.antt =====
-- What the walk over Terraform's state finds, at any depth.
use aws_devops_sdet_demo.Prelude.{
  ◌⊎◌, String, ◌≡◌, refl, sym, ◌∙◌, Bool, true, false, ◌||◌, some, List, [], ◌++◌, inl, inr,
  eq_refl, Value, Items, Fields, array, object, cons, field, str, ◌==◌, if◌then◌else◌, contains,
  any-append,
}
use aws_devops_sdet_demo.Orphans.{
  without_suffix, added, is_identifier, walk, walk_fields, walk_items, state_identifiers,
  is_managed,
}

-- The object has the value under the key.
pub data FieldOf (key : String) (value : Value) : Fields → Type 0 where
  first_field : (rest : Fields) → FieldOf key value (field key value rest)
  later_field :
      (k : String) (v : Value) (rest : Fields)
      → FieldOf key value rest
      → FieldOf key value (field k v rest)

-- The array has the value as a member.
pub data ItemOf (value : Value) : Items → Type 0 where
  first_item : (rest : Items) → ItemOf value (cons value rest)
  later_item : (v : Value) (rest : Items) → ItemOf value rest → ItemOf value (cons v rest)

-- The state holds the text under a key `arn` or `id` at some depth.
pub data Held (s : String) : Value → Type 0 where
  held_here :
      (key : String) (fields : Fields)
      → is_identifier key ≡ true
      → FieldOf key (str s) fields
      → Held s (object fields)
  held_in_field :
      (key : String) (value : Value) (fields : Fields)
      → FieldOf key value fields
      → Held s value
      → Held s (object fields)
  held_in_item :
      (value : Value) (items : Items) → ItemOf value items → Held s value → Held s (array items)

true_or : (a b : Bool) → b ≡ true → (a || b) ≡ true
true_or true b h = refl
true_or false b h = h

or_true : (a b : Bool) → a ≡ true → (a || b) ≡ true
or_true a b h = rw h refl

contains-left :
    (t : String) (xs ys : List String) → contains t xs ≡ true → contains t (xs ++ ys) ≡ true
contains-left t xs ys h = any-append (λ x. t == x) xs ys ∙ or_true (contains t xs) (contains t ys) h

contains-right :
    (t : String) (xs ys : List String) → contains t ys ≡ true → contains t (xs ++ ys) ≡ true
contains-right t xs ys h =
    any-append (λ x. t == x) xs ys ∙ true_or (contains t xs) (contains t ys) h

-- Both spellings of a text that is not empty are added.
spelled_added :
    (stored arn : String)
    → (stored == "") ≡ false
    → (stored ≡ arn) ⊎ (without_suffix ":*" stored ≡ some arn)
    → contains arn (added (str stored)) ≡ true
unfolding added
spelled_added stored arn named (inl same) = rw (named, sym same, eq_refl stored) refl
spelled_added stored arn named (inr stripped) =
    rw (named, stripped, eq_refl arn) (true_or (arn == stored) true refl)

-- A text that an object's own key adds is found in the object.
added-found :
    (t key : String) (value : Value) (fields : Fields)
    → is_identifier key ≡ true
    → FieldOf key value fields
    → contains t (added value) ≡ true
    → contains t (walk_fields fields) ≡ true
unfolding walk
added-found t key value _ known (first_field rest) h =
    contains-left t _ (walk value ++ walk_fields rest) (rw known h)
added-found t key value _ known (later_field k v rest later) h =
    contains-right t (if is_identifier k then added v else []) (walk v ++ walk_fields rest)
      (contains-right t (walk v) (walk_fields rest) (added-found t key value rest known later h))

field-found :
    (t key : String) (value : Value) (fields : Fields)
    → FieldOf key value fields
    → contains t (walk value) ≡ true
    → contains t (walk_fields fields) ≡ true
unfolding walk
field-found t key value _ (first_field rest) h =
    contains-right t (if is_identifier key then added value else [])
      (walk value ++ walk_fields rest) (contains-left t (walk value) (walk_fields rest) h)
field-found t key value _ (later_field k v rest later) h =
    contains-right t (if is_identifier k then added v else []) (walk v ++ walk_fields rest)
      (contains-right t (walk v) (walk_fields rest) (field-found t key value rest later h))

item-found :
    (t : String) (value : Value) (items : Items)
    → ItemOf value items
    → contains t (walk value) ≡ true
    → contains t (walk_items items) ≡ true
unfolding walk
item-found t value _ (first_item rest) h = contains-left t (walk value) (walk_items rest) h
item-found t value _ (later_item v rest later) h =
    contains-right t (walk v) (walk_items rest) (item-found t value rest later h)

-- Whatever a held text adds is found in the state.
held-found :
    (s t : String) (state : Value)
    → Held s state
    → contains t (added (str s)) ≡ true
    → contains t (walk state) ≡ true
unfolding walk
held-found s t _ (held_here key fields known at) h = added-found t key (str s) fields known at h
held-found s t _ (held_in_field key value fields at below) h =
    field-found t key value fields at (held-found s t value below h)
held-found s t _ (held_in_item value items at below) h =
    item-found t value items at (held-found s t value below h)

-- A resource is managed when the state holds under a key `arn` or `id`, at any depth, a text that is
-- not empty and is either its ARN or its ARN with `:*` behind it.
pub Held-is_managed :
    (stored arn : String) (state : Value)
    → (stored == "") ≡ false
    → Held stored state
    → (stored ≡ arn) ⊎ (without_suffix ":*" stored ≡ some arn)
    → is_managed arn (state_identifiers state) ≡ true
unfolding is_managed state_identifiers
Held-is_managed stored arn state named held spelled =
    or_true _ _
      (or_true _ _ (held-found stored arn state held (spelled_added stored arn named spelled)))
