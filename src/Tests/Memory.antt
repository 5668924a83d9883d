-- ===== src/Tests/Memory.antt =====
-- A DynamoDB table in memory. An update of a row that exists is answered with a throttling error.
use aws_devops_sdet_demo.Prelude.{
  ℤ, ◌+ℤ◌, String, ◌≡◌, ◌≢◌, refl, sym, ap, subst, inl, inr, Bool, true, false, Option, none, some,
  [], ◌∷◌, Outcome, ok, raised, ◌==◌, if◌then◌else◌, Bool-cases, eq_iff, eq_refl, lookup,
  ok-injective, raised-injective, pos,
}
use aws_devops_sdet_demo.Store.Client.{
  always, Attribute, S, N, Row, holds, ClientError, client_error, other_error, conditional, Client,
  ClientLaws, IsDistinct, IsRow, starting, attribute,
}

pub record Memory : Type 0 where
  pub at : String → Option Row
  pub formed : (k : String) (row : Row) → at k ≡ some row → IsRow k row

abbrev pub set : (String → Option Row) → String → Option Row → String → Option Row
set f k v j = if k == j then v else f j

set_same : (f : String → Option Row) (k : String) (v : Option Row) → set f k v k ≡ v
set_same f k v = rw (eq_refl k) refl

set_other :
    (f : String → Option Row) (k : String) (v : Option Row) (j : String) → k ≢ j → set f k v j ≡ f j
set_other f k v j n = elim (Bool-cases (k == j)) [
  | inl same ↦ absurd (n ((eq_iff k j).0 same))
  | inr differs ↦ rw differs refl
]

pub set-formed :
    (w : Memory) (k : String) (v : Option Row)
    → ((row : Row) → v ≡ some row → IsRow k row)
    → (j : String) (row : Row) → set w.at k v j ≡ some row
    → IsRow j row
set-formed w k v h j row e = elim (Bool-cases (k == j)) [
  | inl same ↦ subst (λ i. IsRow i row) ((eq_iff k j).0 same) (h row (rw same at e))
  | inr differs ↦ w.formed j row (rw differs at e)
]

abbrev stored :
    (w : Memory) (k : String) (v : Option Row) → ((row : Row) → v ≡ some row → IsRow k row) → Memory
stored w k v h = record { at = set w.at k v; formed = set-formed w k v h }

some-row : {a b : Row} → some a ≡ some b → a ≡ b
some-row h = cc

abbrev absent_here? :
    (a b : String) (v : Attribute) (row : Row) (t : Bool)
    → (b == a) ≡ t
    → Option (lookup a row ≡ none)
    → Option (lookup a ((b, v) ∷ row) ≡ none)
absent_here? a b v row true e r = none
absent_here? a b v row false e none = none
absent_here? a b v row false e (some r) = some (rw e r)

abbrev absent? : (a : String) (row : Row) → Option (lookup a row ≡ none)
absent? a [] = some refl
absent? a ((b, v) ∷ row) = absent_here? a b v row (b == a) refl (absent? a row)

abbrev both? : {P Q : Type 0} → Option P → Option Q → Option (P × Q)
both? (some p) (some q) = some (p, q)
both? _ _ = none

abbrev distinct? : (row : Row) → Option (IsDistinct row)
distinct? [] = some tt
distinct? ((a, v) ∷ row) = both? (absent? a row) (distinct? row)

abbrev is_none : (row : Option Row) → Option (row ≡ none)
is_none none = some refl
is_none (some row) = none

abbrev is_false : (b : Bool) → Option (b ≡ false)
is_false true = none
is_false false = some refl

pub put_row :
    (k : String) (row : Row)
    → IsDistinct (("pk", S k) ∷ row)
    → (r : Row) → some (("pk", S k) ∷ row) ≡ some r
    → IsRow k r
put_row k row d r e = subst (IsRow k) (some-row e) (d, refl)

pub count_row :
    (k a : String) (n : ℤ)
    → ((a == "pk") ≡ false) × (("pk" == a) ≡ false)
    → (r : Row) → some ((a, N n) ∷ ("pk", S k) ∷ []) ≡ some r
    → IsRow k r
count_row k a n (f, g) r e = subst (IsRow k) (some-row e) ((rw g refl, (refl, tt)), rw f refl)

pub no_row : (k : String) (r : Row) → ◌≡◌ {A = Option Row} none (some r) → IsRow k r
no_row k r e = cc e

abbrev Reply : Type 0 → Type 0
Reply A = Outcome ClientError A × Memory

abbrev throttled : ClientError
throttled = other_error "Throttled"

-- Told what the condition says, and whether the names of the new row are distinct.
abbrev put :
    (k : String) (row : Row) (w : Memory)
    → Bool
    → Option (IsDistinct (("pk", S k) ∷ row))
    → Reply (Unit {0})
put k row w true (some d) = (ok tt, stored w k (some (("pk", S k) ∷ row)) (put_row k row d))
put k row w true none = (raised throttled, w)
put k row w false d = (raised (client_error conditional (w.at k)), w)

abbrev delete : (k : String) (w : Memory) → Bool → Reply (Unit {0})
delete k w true = (ok tt, stored w k none (no_row k))
delete k w false = (raised (client_error conditional (w.at k)), w)

abbrev update :
    (k a : String) (start step : ℤ) (w : Memory)
    → Bool
    → Option (w.at k ≡ none)
    → Option (((a == "pk") ≡ false) × (("pk" == a) ≡ false))
    → Reply ℤ
update k a start step w true (some missing) (some named) = (
  ok (start +ℤ step),
  stored w k (some ((a, N (start +ℤ step)) ∷ ("pk", S k) ∷ []))
      (count_row k a (start +ℤ step) named),
)
update k a start step w true _ _ = (raised throttled, w)
update k a start step w false _ _ = (raised (client_error conditional (w.at k)), w)

abbrev pub memory : Client Memory
memory = record {
  get_item = λ k w. (ok (w.at k), w);
  put_item = λ k row c w. put k row w (holds c (w.at k)) (distinct? (("pk", S k) ∷ row));
  delete_item = λ k c w. delete k w (holds c (w.at k));
  update_item = λ k a start step c w.
      update k a start step w (holds c (w.at k)) (is_none (w.at k))
        (both? (is_false (a == "pk")) (is_false ("pk" == a)));
}

abbrev pub rows : Memory → String → Option Row
rows w = w.at

put-keeps :
    (k : String) (row : Row) (w : Memory) (b : Bool) (d : Option (IsDistinct (("pk", S k) ∷ row)))
    (j : String)
    → k ≢ j
    → (put k row w b d).1.at j ≡ w.at j
put-keeps k row w true (some d) j n = set_other w.at k _ j n
put-keeps k row w true none j n = refl
put-keeps k row w false d j n = refl

put-done :
    (k : String) (row : Row) (w : Memory) (b : Bool) (d : Option (IsDistinct (("pk", S k) ∷ row)))
    → (put k row w b d).0 ≡ ok tt
    → (b ≡ true) × ((put k row w b d).1.at k ≡ some (("pk", S k) ∷ row))
put-done k row w true (some d) h = (refl, set_same w.at k _)
put-done k row w true none h = cc h
put-done k row w false d h = cc h

put-refused :
    (k : String) (row : Row) (w : Memory) (b : Bool) (d : Option (IsDistinct (("pk", S k) ∷ row)))
    (old : Option Row)
    → (put k row w b d).0 ≡ raised (client_error conditional old)
    → (b ≡ false) × ((put k row w b d).1.at k ≡ w.at k) × (old ≡ w.at k)
put-refused k row w true (some d) old h = cc h
put-refused k row w true none old h = cc (raised-injective h)
put-refused k row w false d old h = (refl, refl, cc (raised-injective h))

delete-keeps :
    (k : String) (w : Memory) (b : Bool) (j : String) → k ≢ j → (delete k w b).1.at j ≡ w.at j
delete-keeps k w true j n = set_other w.at k _ j n
delete-keeps k w false j n = refl

delete-done :
    (k : String) (w : Memory) (b : Bool)
    → (delete k w b).0 ≡ ok tt
    → (b ≡ true) × ((delete k w b).1.at k ≡ none)
delete-done k w true h = (refl, set_same w.at k _)
delete-done k w false h = cc h

delete-refused :
    (k : String) (w : Memory) (b : Bool) (old : Option Row)
    → (delete k w b).0 ≡ raised (client_error conditional old)
    → (b ≡ false) × ((delete k w b).1.at k ≡ w.at k)
delete-refused k w true old h = cc h
delete-refused k w false old h = (refl, refl)

module _ (k a : String) (start step : ℤ) (w : Memory) where
  update-keeps :
      (b : Bool) (m : Option (w.at k ≡ none))
      (n : Option (((a == "pk") ≡ false) × (("pk" == a) ≡ false))) (j : String)
      → k ≢ j
      → (update k a start step w b m n).1.at j ≡ w.at j
  update-keeps true (some m) (some n) j d = set_other w.at k _ j d
  update-keeps true none n j d = refl
  update-keeps true (some m) none j d = refl
  update-keeps false m n j d = refl

  update-done :
      (b : Bool) (m : Option (w.at k ≡ none))
      (n : Option (((a == "pk") ≡ false) × (("pk" == a) ≡ false))) (r : ℤ)
      → (update k a start step w b m n).0 ≡ ok r
      → (b ≡ true)
        × ((x : ℤ) × (starting start (attribute a (w.at k)) ≡ some x) × (r ≡ x +ℤ step))
        × (attribute a ((update k a start step w b m n).1.at k) ≡ some (N r))
  update-done true (some m) (some n) r h = (
    refl,
    (start, rw m refl, sym (ok-injective h)),
    rw (set_same w.at k (some ((a, N (start +ℤ step)) ∷ ("pk", S k) ∷ [])))
        (rw (eq_refl a) (ap (λ z. some (N z)) (ok-injective h))),
  )
  update-done true none n r h = cc h
  update-done true (some m) none r h = cc h
  update-done false m n r h = cc h

  update-refused :
      (b : Bool) (m : Option (w.at k ≡ none))
      (n : Option (((a == "pk") ≡ false) × (("pk" == a) ≡ false))) (old : Option Row)
      → (update k a start step w b m n).0 ≡ raised (client_error conditional old)
      → (b ≡ false) × ((update k a start step w b m n).1.at k ≡ w.at k)
  update-refused true (some m) (some n) old h = cc h
  update-refused true none n old h = cc (raised-injective h)
  update-refused true (some m) none old h = cc (raised-injective h)
  update-refused false m n old h = (refl, refl)

pub memory-ClientLaws : ClientLaws memory rows
memory-ClientLaws = record {
  formed = λ w. w.formed;
  get_reads = λ k w found h. sym (ok-injective h);
  get_keeps = λ k w j. refl;
  put_keeps = λ k row c w. put-keeps k row w _ _;
  put_done = λ k row c w. put-done k row w _ _;
  put_refused = λ k row c w. put-refused k row w _ _;
  delete_keeps = λ k c w. delete-keeps k w _;
  delete_done = λ k c w. delete-done k w _;
  delete_refused = λ k c w. delete-refused k w _;
  update_keeps = λ k a start step c w. update-keeps k a start step w _ _ _;
  update_done = λ k a start step c w. update-done k a start step w _ _ _;
  update_refused = λ k a start step c w. update-refused k a start step w _ _ _;
}

abbrev pub empty : Memory
empty = record { at = λ k. none; formed = no_row }

-- The row of a nonce that was issued, in an empty table.
abbrev pub with_nonce : Memory
with_nonce = (memory.put_item "nonce#n1" (("ttl", N (pos 5000)) ∷ []) always empty).1
