-- ===== src/Prelude/Sets.antt =====
-- Python's sets of texts, each as the sorted list of its members, and the sort of a list of texts.
use Prim.Native.Nat.{ℕ, suc, ◌+◌, Ordering}
use Prim.Native.String.{String, compare}
use mathlib.Core.Path.{◌≡◌, refl, sym, ap, ◌∙◌}
use mathlib.Core.Logic.{◌⊎◌, inl, inr}
use mathlib.Core.Bool.{Bool, true, false, not, ◌&&◌, ◌||◌, or_assoc, false≢true}
use mathlib.Core.List.{List, [], ◌∷◌, ◌++◌}
use native.Mathlib.Omega.{arith}
use text.Mathlib.TextEquality.{eq_iff, path_by_compare}
use aws_devops_sdet_demo.Prelude.Tests.{◌==◌, if◌then◌else◌, Bool-cases}

Ordering-cases : (o : Ordering) → (o ≡ Ordering.lt) ⊎ ((o ≡ Ordering.eq) ⊎ (o ≡ Ordering.gt))
Ordering-cases Ordering.lt = inl refl
Ordering-cases Ordering.eq = inr (inl refl)
Ordering-cases Ordering.gt = inr (inr refl)

-- `len(xs)`
abbrev pub length {ℓ} : {A : Type ℓ} → List A → ℕ
length [] = 0
length (x ∷ xs) = suc (length xs)

-- a truth value as it is added up
abbrev pub one_if : Bool → ℕ
one_if true = 1
one_if false = 0

-- `not xs`
abbrev pub is_empty {ℓ} : {A : Type ℓ} → List A → Bool
is_empty [] = true
is_empty (x ∷ xs) = false

-- `[x for x in xs if p(x)]`
abbrev pub filter {ℓ} : {A : Type ℓ} → (A → Bool) → List A → List A
filter p [] = []
filter p (x ∷ xs) = if p x then x ∷ filter p xs else filter p xs

-- `any(p(x) for x in xs)`
abbrev pub any {ℓ} : {A : Type ℓ} → (A → Bool) → List A → Bool
any p [] = false
any p (x ∷ xs) = p x || any p xs

-- `all(p(x) for x in xs)`
abbrev pub all {ℓ} : {A : Type ℓ} → (A → Bool) → List A → Bool
all p [] = true
all p (x ∷ xs) = p x && all p xs

-- `s in xs`
abbrev pub contains : String → List String → Bool
contains s xs = any (λ t. s == t) xs

-- One more member of a set that is kept sorted.
pub insert_sorted : String → List String → List String
insert_sorted s [] = s ∷ []
insert_sorted s (t ∷ rest) =
    let later = t ∷ insert_sorted s rest in
    elim (compare s t) [ Ordering.lt ↦ s ∷ t ∷ rest | Ordering.eq ↦ t ∷ rest | Ordering.gt ↦ later ]

-- `sorted(set(xs))`
unfoldable pub sorted_set : List String → List String
unfolding insert_sorted
sorted_set [] = []
sorted_set (s ∷ rest) = insert_sorted s (sorted_set rest)

pub place_sorted : String → List String → List String
place_sorted s [] = s ∷ []
place_sorted s (t ∷ rest) =
    let later = t ∷ place_sorted s rest in
    elim (compare s t) [ Ordering.gt ↦ later | _ ↦ s ∷ t ∷ rest ]

-- `sorted(xs)`
unfoldable pub sorted : List String → List String
unfolding place_sorted
sorted [] = []
sorted (s ∷ rest) = place_sorted s (sorted rest)

pub any-append {ℓ} :
    {A : Type ℓ} (p : A → Bool) (xs ys : List A) → any p (xs ++ ys) ≡ (any p xs || any p ys)
any-append p [] ys = refl
any-append p (x ∷ xs) ys =
    ap (λ b. p x || b) (any-append p xs ys) ∙ sym (or_assoc (p x) (any p xs) (any p ys))

or_swap : (a b c : Bool) → (a || (b || c)) ≡ (b || (a || c))
or_swap true true c = refl
or_swap true false c = refl
or_swap false b c = refl

or_twice : (a b : Bool) → (a || b) ≡ (a || (a || b))
or_twice true b = refl
or_twice false b = refl

-- Placing a text adds it to the members, whatever the order.
contains-insert_sorted :
    (s t : String) (xs : List String)
    → contains s (insert_sorted t xs) ≡ ((s == t) || contains s xs)
unfolding insert_sorted
contains-insert_sorted s t [] = refl
contains-insert_sorted s t (x ∷ xs) = elim (Ordering-cases (compare t x)) [
  | inl less ↦ rw (insert_sorted, less) refl
  | inr (inl same) ↦
      rw (insert_sorted, same, path_by_compare t x same) (or_twice (s == x) (contains s xs))
  | inr (inr more) ↦
      rw (insert_sorted, more, any, contains-insert_sorted s t xs)
        (or_swap (s == x) (s == t) (contains s xs))
]

pub contains-sorted_set :
    (s : String) (xs : List String) → contains s (sorted_set xs) ≡ contains s xs
unfolding sorted_set
contains-sorted_set s [] = refl
contains-sorted_set s (x ∷ xs) =
    contains-insert_sorted s x (sorted_set xs) ∙ ap (λ b. (s == x) || b) (contains-sorted_set s xs)

-- A property of texts is kept by a sort.
any-place_sorted :
    (p : String → Bool) (t : String) (xs : List String)
    → any p (place_sorted t xs) ≡ (p t || any p xs)
unfolding place_sorted
any-place_sorted p t [] = refl
any-place_sorted p t (x ∷ xs) = elim (Ordering-cases (compare t x)) [
  | inl less ↦ rw (place_sorted, less) refl
  | inr (inl same) ↦ rw (place_sorted, same) refl
  | inr (inr more) ↦
      rw (place_sorted, more, any, any-place_sorted p t xs) (or_swap (p x) (p t) (any p xs))
]

pub any-sorted : (p : String → Bool) (xs : List String) → any p (sorted xs) ≡ any p xs
unfolding sorted
any-sorted p [] = refl
any-sorted p (x ∷ xs) = any-place_sorted p x (sorted xs) ∙ ap (λ b. p x || b) (any-sorted p xs)

pub and_false : (b : Bool) → (b && false) ≡ false
and_false true = refl
and_false false = refl

-- What holds of a text holds of its equal.
pub same_answer : (p : String → Bool) (s x : String) → (s == x) ≡ true → p s ≡ p x
same_answer p s x h = ap p ((eq_iff s x).0 h)

-- The members of a filtered list.
pub contains-filter :
    (p : String → Bool) (s : String) (xs : List String)
    → contains s (filter p xs) ≡ (contains s xs && p s)
contains-filter p s [] = refl
contains-filter p s (x ∷ xs) = elim (Bool-cases (p x)) [
  | inl kept ↦ elim (Bool-cases (s == x)) [
    | inl same ↦ rw (kept, same) (sym (same_answer p s x same ∙ kept))
    | inr other ↦ rw (kept, other) (contains-filter p s xs)
  ]
  | inr dropped ↦ elim (Bool-cases (s == x)) [
    | inl same ↦
        rw (dropped, same, contains-filter p s xs, same_answer p s x same ∙ dropped)
          (and_false (contains s xs))
    | inr other ↦ rw (dropped, other) (contains-filter p s xs)
  ]
]

-- What all members pass, one that is named passes.
pub all-contains :
    (p : String → Bool) (s : String) (xs : List String)
    → all p xs ≡ true
    → contains s xs ≡ true
    → p s ≡ true
all-contains p s [] h m = absurd (false≢true m)
all-contains p s (x ∷ xs) h m = elim (Bool-cases (p x)) [
  | inl here ↦ elim (Bool-cases (s == x)) [
    | inl same ↦ same_answer p s x same ∙ here
    | inr other ↦ all-contains p s xs (rw here at h) (rw other at m)
  ]
  | inr failed ↦ absurd (false≢true (rw failed at h))
]

pub not-any {ℓ} :
    {A : Type ℓ} (p : A → Bool) (xs : List A) → not (any p xs) ≡ all (λ x. not (p x)) xs
not-any p [] = refl
not-any p (x ∷ xs) = elim (Bool-cases (p x)) [
  | inl passes ↦ rw passes refl
  | inr fails ↦ rw fails (not-any p xs)
]

insert_sorted-filled : (s : String) (xs : List String) → is_empty (insert_sorted s xs) ≡ false
unfolding insert_sorted
insert_sorted-filled s [] = refl
insert_sorted-filled s (x ∷ xs) = elim (Ordering-cases (compare s x)) [
  | inl less ↦ rw (insert_sorted, less) refl
  | inr (inl same) ↦ rw (insert_sorted, same) refl
  | inr (inr more) ↦ rw (insert_sorted, more) refl
]

pub is_empty-sorted_set : (xs : List String) → is_empty (sorted_set xs) ≡ is_empty xs
unfolding sorted_set
is_empty-sorted_set [] = refl
is_empty-sorted_set (x ∷ xs) = insert_sorted-filled x (sorted_set xs)

place_sorted-filled : (s : String) (xs : List String) → is_empty (place_sorted s xs) ≡ false
unfolding place_sorted
place_sorted-filled s [] = refl
place_sorted-filled s (x ∷ xs) = elim (Ordering-cases (compare s x)) [
  | inl less ↦ rw (place_sorted, less) refl
  | inr (inl same) ↦ rw (place_sorted, same) refl
  | inr (inr more) ↦ rw (place_sorted, more) refl
]

pub is_empty-sorted : (xs : List String) → is_empty (sorted xs) ≡ is_empty xs
unfolding sorted
is_empty-sorted [] = refl
is_empty-sorted (x ∷ xs) = place_sorted-filled x (sorted xs)

pub is_empty-filter {ℓ} :
    {A : Type ℓ} (p : A → Bool) (xs : List A) → is_empty (filter p xs) ≡ all (λ x. not (p x)) xs
is_empty-filter p [] = refl
is_empty-filter p (x ∷ xs) = elim (Bool-cases (p x)) [
  | inl passes ↦ rw passes refl
  | inr fails ↦ rw fails (is_empty-filter p xs)
]

pub is_empty-contains : (s : String) (xs : List String) → is_empty xs ≡ true → contains s xs ≡ false
is_empty-contains s [] h = refl
is_empty-contains s (x ∷ xs) h = absurd (false≢true h)

pub length-filter {ℓ} :
    {A : Type ℓ} (p : A → Bool) (x : A) (xs : List A)
    → length (filter p (x ∷ xs)) ≡ one_if (p x) + length (filter p xs)
length-filter p x xs = elim (Bool-cases (p x)) [
  | inl passes ↦ rw passes (omega arith)
  | inr fails ↦ rw fails (omega arith)
]
