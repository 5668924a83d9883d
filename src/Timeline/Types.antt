-- ===== src/Timeline/Types.antt =====
-- When the types that an operation has counted have an order among them.
use Prim.Native.Nat.{Ordering}
use aws_devops_sdet_demo.Prelude.{
  ℕ, leb, ◌≡◌, refl, sym, ap, ◌∙◌, Bool, true, false, ◌&&◌, Option, none, some, List, [], ◌∷◌, inl,
  inr, Bool-cases, Option-cases, all, chain, is_some, and_left, and_right, false≢true, arith,
  Yields, Yields-some, Yields-chain,
}
use aws_devops_sdet_demo.Timeline.{TypeKey, nothing, number, text, TypeCounts}
use aws_devops_sdet_demo.Timeline.Document.{order_of, placed_before, place_type, sorted_types}

abbrev pub kind : TypeKey → ℕ
kind nothing = 0
kind (number n) = 1
kind (text s) = 2

-- Both are texts, both numbers, or both None.
abbrev pub alike : TypeKey → TypeKey → Bool
alike a b = leb (kind a) (kind b) && leb (kind b) (kind a)

abbrev pub types : TypeCounts → List TypeKey
types [] = []
types ((k, n) ∷ rest) = k ∷ types rest

-- All are texts, all are numbers, or there is only None.
abbrev pub is_one_kind : List TypeKey → Bool
is_one_kind [] = true
is_one_kind (k ∷ rest) = all (alike k) rest

order_of-some : (a b : TypeKey) → is_some (order_of a b) ≡ alike a b
order_of-some nothing nothing = refl
order_of-some nothing (number n) = refl
order_of-some nothing (text s) = refl
order_of-some (number n) nothing = refl
order_of-some (number n) (number m) = refl
order_of-some (number n) (text s) = refl
order_of-some (text s) nothing = refl
order_of-some (text s) (number n) = refl
order_of-some (text s) (text t) = refl

alike-kind : (a b : TypeKey) → alike a b ≡ true → kind a ≡ kind b
alike-kind a b h = ground arith

all-alike :
    (a b : TypeKey) (ks : List TypeKey) → alike a b ≡ true → all (alike a) ks ≡ all (alike b) ks
all-alike a b ks h = ap (λ m. all (λ c. leb m (kind c) && leb (kind c) m) ks) (alike-kind a b h)

and_swap : (a b c : Bool) → (a && (b && c)) ≡ (b && (a && c))
and_swap true b c = refl
and_swap false true c = refl
and_swap false false c = refl

abbrev Adds : (TypeKey → Bool) → TypeKey × ℕ → TypeCounts → TypeCounts → Type 0
Adds q item s r = all q (types r) ≡ (q item.0 && all q (types s))

before-Yields :
    (P : TypeCounts → Type 0) (item : TypeKey × ℕ) (s : TypeCounts) (later : Option TypeCounts)
    (order : Option Ordering)
    → Yields P later
    → P (item ∷ s)
    → Yields P (placed_before item s later order)
before-Yields P item s later none h p = record { at = λ r e. cc e }
before-Yields P item s later (some Ordering.gt) h p = h
before-Yields P item s later (some Ordering.eq) h p = Yields-some p
before-Yields P item s later (some Ordering.lt) h p = Yields-some p

-- Placing a key adds it to the keys, whatever the order.
place-Yields :
    (q : TypeKey → Bool) (item : TypeKey × ℕ) (s : TypeCounts)
    → Yields (Adds q item s) (place_type item s)
place-Yields q item [] = Yields-some refl
place-Yields q item (other ∷ rest) =
    before-Yields (Adds q item (other ∷ rest)) item (other ∷ rest) _ _
      (Yields-chain (place_type item rest) λ more e. Yields-some (
        ap (λ b. q other.0 && b) ((place-Yields q item rest).at more e)
        ∙ and_swap (q other.0) (q item.0) (all q (types rest))))
      refl

sorted-Yields :
    (q : TypeKey → Bool) (d : TypeCounts)
    → Yields (λ r. all q (types r) ≡ all q (types d)) (sorted_types d)
unfolding sorted_types
sorted-Yields q [] = Yields-some refl
sorted-Yields q (item ∷ rest) = Yields-chain (sorted_types rest) λ s e. record {
  at = λ r h.
      (place-Yields q item s).at r h ∙ ap (λ b. q item.0 && b) ((sorted-Yields q rest).at s e);
}

all-is_one_kind :
    (k : TypeKey) (ks : List TypeKey) → all (alike k) ks ≡ true → is_one_kind ks ≡ true
all-is_one_kind k [] h = refl
all-is_one_kind k (j ∷ rest) h =
    sym (all-alike k j rest (and_left _ _ h)) ∙ and_right (alike k j) _ h

is_some-placed_before :
    (item : TypeKey × ℕ) (s : TypeCounts) (later : Option TypeCounts) (order : Option Ordering)
    → is_some later ≡ true
    → is_some (placed_before item s later order) ≡ is_some order
is_some-placed_before item s later none h = refl
is_some-placed_before item s later (some Ordering.gt) h = h
is_some-placed_before item s later (some Ordering.eq) h = refl
is_some-placed_before item s later (some Ordering.lt) h = refl

unordered :
    (item : TypeKey × ℕ) (s : TypeCounts) (later : Option TypeCounts) (order : Option Ordering)
    → is_some order ≡ false
    → is_some (placed_before item s later order) ≡ false
unordered item s later none h = refl
unordered item s later (some order) h = absurd (false≢true (sym h))

is_some-more :
    (m : Option TypeCounts) (other : TypeKey × ℕ)
    → is_some (chain m (λ more. some (other ∷ more))) ≡ is_some m
is_some-more none other = refl
is_some-more (some more) other = refl

-- Into keys of one kind goes a key that is of that kind.
place-is_some :
    (item : TypeKey × ℕ) (s : TypeCounts)
    → is_one_kind (types s) ≡ true
    → is_some (place_type item s) ≡ all (alike item.0) (types s)
place-is_some item [] h = refl
place-is_some item (other ∷ rest) h = elim (Bool-cases (alike item.0 other.0)) [
  | inr apart ↦
      unordered item (other ∷ rest) _ _ (order_of-some item.0 other.0 ∙ apart) ∙ rw apart refl
  | inl same ↦
      let all_same = all-alike item.0 other.0 (types rest) same ∙ h in
      is_some-placed_before item (other ∷ rest) _ (order_of item.0 other.0) (
        is_some-more (place_type item rest) other
        ∙ place-is_some item rest (all-is_one_kind other.0 (types rest) h)
        ∙ all_same)
      ∙ order_of-some item.0 other.0
      ∙ sym (rw (same, all_same) refl)
]

alike_refl : (k : TypeKey) → alike k k ≡ true
alike_refl k = ground arith

-- Two lists of keys of which the same kinds are right.
abbrev pub AreAlike : List TypeKey → List TypeKey → Type 0
AreAlike ks ls = (j : TypeKey) → all (alike j) ks ≡ all (alike j) ls

one_kind-alike :
    (ks ls : List TypeKey) → AreAlike ks ls → is_one_kind ks ≡ true → is_one_kind ls ≡ true
one_kind-alike [] ls same one = all-is_one_kind nothing ls (sym (same nothing))
one_kind-alike (k ∷ rest) ls same one = all-is_one_kind k ls (sym (same k) ∙ rw (alike_refl k) one)

pub is_one_kind-alike : (ks ls : List TypeKey) → AreAlike ks ls → is_one_kind ks ≡ is_one_kind ls
is_one_kind-alike ks ls same = elim (Bool-cases (is_one_kind ks)) [
  | inl one ↦ one ∙ sym (one_kind-alike ks ls same one)
  | inr mixed ↦ elim (Bool-cases (is_one_kind ls)) [
    | inl one ↦ absurd (false≢true (sym mixed ∙ one_kind-alike ls ks (λ j. sym (same j)) one))
    | inr also ↦ mixed ∙ sym also
  ]
]

mixed : (k : TypeKey) (ks : List TypeKey) → is_one_kind ks ≡ false → all (alike k) ks ≡ false
mixed k ks h = elim (Bool-cases (all (alike k) ks)) [
  | inr apart ↦ apart
  | inl one ↦ absurd (false≢true (sym h ∙ all-is_one_kind k ks one))
]

-- The sort of a dict's items ends exactly where the keys are of one kind.
pub sorted_types-is_some : (d : TypeCounts) → is_some (sorted_types d) ≡ is_one_kind (types d)
unfolding sorted_types
sorted_types-is_some [] = refl
sorted_types-is_some ((k, n) ∷ rest) = elim (Option-cases (sorted_types rest)) [
  | inl stuck ↦
      rw stuck (sym (mixed k (types rest) (sym (sorted_types-is_some rest) ∙ rw stuck refl)))
  | inr (s, done) ↦
      let one = sym (sorted_types-is_some rest) ∙ rw done refl in
      rw done (
        place-is_some (k, n) s
          (one_kind-alike (types rest) (types s)
            (λ j. sym ((sorted-Yields (alike j) rest).at s done)) one)
        ∙ (sorted-Yields (alike k) rest).at s done)
]
