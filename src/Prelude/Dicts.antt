-- ===== src/Prelude/Dicts.antt =====
-- Python's dicts with values of one type: what an assignment to a key leaves.
use Prim.Native.Nat.{ℕ, ◌+◌}
use Prim.Native.String.{String}
use mathlib.Core.Path.{◌≡◌, refl, ap, ◌∙◌, sym}
use mathlib.Core.Logic.{inl, inr}
use mathlib.Core.Bool.{Bool, true, false, ◌&&◌, false≢true}
use mathlib.Core.Option.{Option, none, some}
use mathlib.Core.List.{List, [], ◌∷◌, ◌++◌}
use native.Mathlib.Omega.{arith}
use text.Mathlib.TextPositions.{eq_refl}
use aws_devops_sdet_demo.Prelude.Tests.{◌==◌, if◌then◌else◌, Bool-cases, is_some}
use aws_devops_sdet_demo.Prelude.Partial.{some-injective}
use aws_devops_sdet_demo.Prelude.Values.{Dict, lookup}
use aws_devops_sdet_demo.Prelude.Sets.{all, same_answer, and_false}

-- `d.get(key, 0)`
abbrev pub count_of : Option ℕ → ℕ
count_of none = 0
count_of (some n) = n

-- `sum(xs)`
abbrev pub sum : List ℕ → ℕ
sum [] = 0
sum (n ∷ rest) = n + sum rest

pub and_left : (a b : Bool) → (a && b) ≡ true → a ≡ true
and_left true b h = refl
and_left false b h = h

pub and_right : (a b : Bool) → (a && b) ≡ true → b ≡ true
and_right true b h = h
and_right false b h = absurd (false≢true h)

module _ {ℓ} {A : Type ℓ} where
  -- `d[key] = a`: in the key's place, or at the end
  abbrev pub put : String → A → Dict A → Dict A
  put key a [] = (key, a) ∷ []
  put key a ((k, b) ∷ rest) = if k == key then (k, a) ∷ rest else (k, b) ∷ put key a rest

  -- `list(d)`
  abbrev pub keys : Dict A → List String
  keys [] = []
  keys ((k, a) ∷ rest) = k ∷ keys rest

  -- `list(d.values())`
  abbrev pub values : Dict A → List A
  values [] = []
  values ((k, a) ∷ rest) = a ∷ values rest

  pub lookup-put : (key : String) (a : A) (d : Dict A) → lookup key (put key a d) ≡ some a
  lookup-put key a [] = rw (eq_refl key) refl
  lookup-put key a ((k, b) ∷ rest) = elim (Bool-cases (k == key)) [
    | inl same ↦ rw (same, same) refl
    | inr other ↦ rw (other, other) (lookup-put key a rest)
  ]

  pub lookup-put_other :
      (key other : String) (a : A) (d : Dict A)
      → (other == key) ≡ false
      → lookup key (put other a d) ≡ lookup key d
  lookup-put_other key other a [] apart = rw apart refl
  lookup-put_other key other a ((k, b) ∷ rest) apart = elim (Bool-cases (k == other)) [
    | inl same ↦ rw (same, same_answer (λ t. t == key) k other same ∙ apart) refl
    | inr later ↦ rw (later, lookup-put_other key other a rest apart) refl
  ]

  -- A key that is new goes to the end.
  pub keys-put_new :
      (key : String) (a : A) (d : Dict A)
      → lookup key d ≡ none
      → keys (put key a d) ≡ keys d ++ (key ∷ [])
  keys-put_new key a [] h = refl
  keys-put_new key a ((k, b) ∷ rest) h = elim (Bool-cases (k == key)) [
    | inl same ↦ cc (rw same at h)
    | inr later ↦ rw later (ap (λ ks. k ∷ ks) (keys-put_new key a rest (rw later at h)))
  ]

  -- A key that is there keeps its place.
  pub keys-put_old :
      (key : String) (a : A) (d : Dict A)
      → is_some (lookup key d) ≡ true
      → keys (put key a d) ≡ keys d
  keys-put_old key a [] h = cc h
  keys-put_old key a ((k, b) ∷ rest) h = elim (Bool-cases (k == key)) [
    | inl same ↦ rw same refl
    | inr later ↦ rw later (ap (λ ks. k ∷ ks) (keys-put_old key a rest (rw later at h)))
  ]

  -- What every value passes, and a new one too, every value passes after the assignment.
  pub all-put :
      (p : A → Bool) (key : String) (a : A) (d : Dict A)
      → all p (values d) ≡ true
      → p a ≡ true
      → all p (values (put key a d)) ≡ true
  all-put p key a [] h pass = rw pass refl
  all-put p key a ((k, b) ∷ rest) h pass = elim (Bool-cases (k == key)) [
    | inl same ↦ rw (same, pass) (and_right (p b) _ h)
    | inr later ↦ rw (later, and_left (p b) _ h) (all-put p key a rest (and_right (p b) _ h) pass)
  ]

  -- A value that does not pass is found.
  pub all-lookup :
      (p : A → Bool) (key : String) (a : A) (d : Dict A)
      → lookup key d ≡ some a
      → p a ≡ false
      → all p (values d) ≡ false
  all-lookup p key a [] h fails = cc h
  all-lookup p key a ((k, b) ∷ rest) h fails = elim (Bool-cases (k == key)) [
    | inl same ↦ rw (some-injective (rw same at h), fails) refl
    | inr later ↦ rw (all-lookup p key a rest (rw later at h) fails) (and_false (p b))
  ]

-- What all values of a dict pass, one that is found passes.
pub all-known {ℓ} :
    {A : Type ℓ} (p : A → Bool) (key : String) (a : A) (d : Dict A)
    → all p (values d) ≡ true
    → lookup key d ≡ some a
    → p a ≡ true
all-known p key a d h found = elim (Bool-cases (p a)) [
  | inl passes ↦ passes
  | inr fails ↦ absurd (false≢true (sym (all-lookup p key a d found fails) ∙ h))
]

-- `d[key] = d.get(key, 0) + 1`
abbrev pub count_one : String → Dict ℕ → Dict ℕ
count_one key d = put key (count_of (lookup key d) + 1) d

sum-put :
    (key : String) (m : ℕ) (d : Dict ℕ)
    → sum (values (put key m d)) + count_of (lookup key d) ≡ sum (values d) + m
sum-put key m [] = omega arith
sum-put key m ((k, n) ∷ rest) = elim (Bool-cases (k == key)) [
  | inl same ↦ rw same (omega arith)
  | inr later ↦ rw later (omega (arith, sum-put key m rest))
]

pub sum-count_one :
    (key : String) (d : Dict ℕ) → sum (values (count_one key d)) ≡ sum (values d) + 1
sum-count_one key d = omega (arith, sum-put key (count_of (lookup key d) + 1) d)
