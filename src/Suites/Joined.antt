-- ===== src/Suites/Joined.antt =====
-- What a suite's tests keep of the inventory and of the report, and when a suite has passed.
use aws_devops_sdet_demo.Prelude.{
  Yields, Yields-chain, Yields-some, String, ◌≡◌, refl, sym, ap, ◌∙◌, Bool, true, false, not, ◌&&◌,
  ◌||◌, Option, none, some, List, [], ◌∷◌, map, Dict, lookup, put, keys, any, all, any-append,
  any-sorted, contains, keys-put_new, inl, inr, Bool-cases, Option-cases, eq_iff, false≢true,
  same_answer, subst, and_false, ◌==◌, if◌then◌else◌,
}
use aws_devops_sdet_demo.Suites.{
  Status, passed, failed, skipped, incomplete, not_run, Known, Reported, Test, seen_of, without,
  test_of, join_known, join, is_passed, is_failed, is_unfinished, is_skipped, suite_status,
}

or_left_false : (a b : Bool) → (a || b) ≡ false → a ≡ false
or_left_false true b h = h
or_left_false false b h = refl

or_right_false : (a b : Bool) → (a || b) ≡ false → b ≡ false
or_right_false true b h = absurd (false≢true (sym h))
or_right_false false b h = h

one_test :
    (s : Status) (all_skipped one_passed : Bool)
    → is_failed s ≡ false
    → is_unfinished s ≡ false
    → not all_skipped ≡ one_passed
    → not (is_skipped s && all_skipped) ≡ (is_passed s || one_passed)
one_test passed a p hf hu h = refl
one_test failed a p hf hu h = absurd (false≢true (sym hf))
one_test skipped a p hf hu h = h
one_test incomplete a p hf hu h = absurd (false≢true (sym hu))
one_test not_run a p hf hu h = absurd (false≢true (sym hu))

-- Of a suite none of whose tests failed or is unfinished, the tests are skipped or one has passed.
neither :
    (tests : List Test)
    → any (λ t. is_failed t.status) tests ≡ false
    → any (λ t. is_unfinished t.status) tests ≡ false
    → not (all (λ t. is_skipped t.status) tests) ≡ any (λ t. is_passed t.status) tests
neither [] hf hu = refl
neither (t ∷ rest) hf hu =
    one_test t.status _ _ (or_left_false _ _ hf) (or_left_false _ _ hu)
      (neither rest (or_right_false _ _ hf) (or_right_false _ _ hu))

unless_skipped : (b : Bool) → is_passed (if b then incomplete else passed) ≡ not b
unless_skipped true = refl
unless_skipped false = refl

-- A suite has passed exactly when none of its tests failed, is incomplete or did not run, and one of
-- them passed.
pub suite_status-is_passed :
    (tests : List Test)
    → is_passed (suite_status tests) ≡ (
        not (any (λ t. is_failed t.status) tests)
        && (not (any (λ t. is_unfinished t.status) tests) && any (λ t. is_passed t.status) tests))
unfolding suite_status
suite_status-is_passed tests = elim (Bool-cases (any (λ t. is_failed t.status) tests)) [
  | inl bad ↦ rw (suite_status, bad) refl
  | inr fine ↦ elim (Bool-cases (any (λ t. is_unfinished t.status) tests)) [
    | inl unfinished ↦ rw (suite_status, fine, unfinished) refl
    | inr finished ↦
        rw (suite_status, fine, finished)
          (unless_skipped (all (λ t. is_skipped t.status) tests) ∙ neither tests fine finished)
  ]
]

eq_sym_false : (s t : String) → (s == t) ≡ false → (t == s) ≡ false
eq_sym_false s t h = elim (Bool-cases (t == s)) [
  | inl same ↦ absurd (false≢true (sym h ∙ (eq_iff s t).1 (sym ((eq_iff t s).0 same))))
  | inr apart ↦ apart
]

or_and_not : (x c : Bool) → (c && not x) ≡ ((x || c) && not x)
or_and_not true c = and_false c
or_and_not false c = refl

contains-without :
    (n key : String) (d : Dict Reported)
    → contains n (keys (without key d)) ≡ (contains n (keys d) && not (n == key))
contains-without n key [] = refl
contains-without n key ((k, t) ∷ rest) = elim (Bool-cases (key == k)) [
  | inl same ↦ rw same (
      contains-without n key rest
      ∙ subst
          (λ x.
            (contains n (keys rest) && not (n == key))
            ≡ (((n == x) || contains n (keys rest)) && not (n == key)))
          ((eq_iff key k).0 same) (or_and_not (n == key) (contains n (keys rest))))
  | inr apart ↦ elim (Bool-cases (n == k)) [
    | inl here ↦
        rw (apart, here, same_answer (λ x. x == key) n k here ∙ eq_sym_false key k apart) refl
    | inr there ↦ rw (apart, there) (contains-without n key rest)
  ]
]

test_of-name : (i : Known) (got : Option Reported) → (test_of i got).name ≡ i.name
test_of-name i none = refl
test_of-name i (some got) = refl

join_known-names :
    (inv : List Known) (seen : Dict Reported)
    → map (λ t. t.name) (join_known inv seen).0 ≡ map (λ i. i.name) inv
unfolding join_known
join_known-names [] seen = refl
join_known-names (i ∷ rest) seen =
    ap (λ x. x ∷ map (λ t. t.name) (join_known rest (without i.name seen)).0)
      (test_of-name i (lookup i.name seen))
    ∙ ap (λ xs. i.name ∷ xs) (join_known-names rest (without i.name seen))

and_true : (c : Bool) → c ≡ (c && true)
and_true true = refl
and_true false = refl

not_either : (c x r : Bool) → ((c && not x) && not r) ≡ (c && not (x || r))
not_either true true r = refl
not_either true false r = refl
not_either false x r = refl

join_known-left :
    (n : String) (inv : List Known) (seen : Dict Reported)
    → contains n (keys (join_known inv seen).1)
      ≡ (contains n (keys seen) && not (contains n (map (λ i. i.name) inv)))
unfolding join_known
join_known-left n [] seen = and_true (contains n (keys seen))
join_known-left n (i ∷ rest) seen =
    join_known-left n rest (without i.name seen)
    ∙ (ap (λ b. b && not (contains n (map (λ j. j.name) rest))) (contains-without n i.name seen)
        ∙ not_either (contains n (keys seen)) (n == i.name) _)

or_false : (c : Bool) → c ≡ (c || false)
or_false true = refl
or_false false = refl

or_one : (c x r : Bool) → ((c || (x || false)) || r) ≡ (c || (x || r))
or_one true x r = refl
or_one false true r = refl
or_one false false r = refl

contains-put :
    (n : String) (t : Reported) (seen : Dict Reported)
    → lookup t.name seen ≡ none
    → contains n (keys (put t.name t seen)) ≡ (contains n (keys seen) || ((n == t.name) || false))
contains-put n t seen new =
    ap (contains n) (keys-put_new t.name t seen new)
    ∙ any-append (λ x. n == x) (keys seen) (t.name ∷ [])

seen_of-contains :
    (n : String) (reported : List Reported) (seen : Dict Reported)
    → Yields
        (λ after.
          contains n (keys after)
          ≡ (contains n (keys seen) || contains n (map (λ t. t.name) reported)))
        (seen_of reported seen)
unfolding seen_of
seen_of-contains n [] seen = Yields-some (or_false (contains n (keys seen)))
seen_of-contains n (t ∷ rest) seen = elim (Option-cases (lookup t.name seen)) [
  | inr (got, old) ↦ rw (seen_of, old) (record { at = λ after e. cc e })
  | inl new ↦
      rw (seen_of, new)
        (record {
          at = λ after e.
              (seen_of-contains n rest (put t.name t seen)).at after e
              ∙ (ap (λ b. b || contains n (map (λ r. r.name) rest)) (contains-put n t seen new)
                  ∙ or_one (contains n (keys seen)) (n == t.name) _);
        })
]

-- Where a report is joined onto the inventory's tests of a suite, the tests are those of the inventory,
-- by name and in order, and a name is unknown exactly when it was reported and the inventory has no
-- test of that name.
pub join-names :
    (n : String) (inventory_tests : List Known) (reported : List Reported) (tests : List Test)
    (unknown : List String)
    → join inventory_tests reported ≡ some (tests, unknown)
    → (map (λ t. t.name) tests ≡ map (λ i. i.name) inventory_tests)
      × (contains n unknown ≡ (
          contains n (map (λ t. t.name) reported)
          && not (contains n (map (λ i. i.name) inventory_tests))))
unfolding join
join-names n inventory_tests reported tests unknown h =
    (Yields-chain
        {P = λ j.
          (map (λ t. t.name) j.0 ≡ map (λ i. i.name) inventory_tests)
          × (contains n j.1 ≡ (
              contains n (map (λ t. t.name) reported)
              && not (contains n (map (λ i. i.name) inventory_tests))))}
        (seen_of reported [])
        λ seen e. Yields-some (
          join_known-names inventory_tests seen,
          any-sorted (λ x. n == x) (keys (join_known inventory_tests seen).1)
              ∙ (join_known-left n inventory_tests seen
                  ∙ ap (λ b. b && not (contains n (map (λ i. i.name) inventory_tests)))
                      ((seen_of-contains n reported []).at seen e)),
        )).at
      (tests, unknown) h
