-- ===== src/Cost/Monotone.antt =====
-- The order of floats, as far as the arithmetic of a cost relies on it, and what keeps it.
use aws_devops_sdet_demo.Prelude.{
  ℕ, suc, ℤ, ◌≤ℤ◌, ◌-ℤ◌, leb_ℤ, -ℤ_parts, String, ◌≡◌, Bool, true, false, not, Option, none, some,
  Dict, lookup, values, all, inl, inr, Bool-cases, false≢true, all-known, arith,
}
use aws_devops_sdet_demo.Cost.{Floats, Component, greater_of, span, hours_of}

-- `a <= b`, where neither is a NaN
abbrev pub Le : {F : Type 0} → Floats F → F → F → Type 0
Le num a b = num.less b a ≡ false

-- The order laws of IEEE 754 for numbers that are no NaN; rounding keeps the order.
pub record FloatLaws {F : Type 0} (num : Floats F) : Type 0 where
  pub le_refl : (a : F) → Le num a a
  pub le_trans : (a b c : F) → Le num a b → Le num b c → Le num a c
  pub less_le : (a b : F) → num.less a b ≡ true → Le num a b
  pub add_mono : (a b c d : F) → Le num a b → Le num c d → Le num (num.add a c) (num.add b d)
  pub multiply_mono :
      (c a b : F)
      → Le num (num.of_nat 0) c
      → Le num a b
      → Le num (num.multiply c a) (num.multiply c b)
  pub multiply_positive :
      (a b : F)
      → Le num (num.of_nat 0) a
      → Le num (num.of_nat 0) b
      → Le num (num.of_nat 0) (num.multiply a b)
  pub divide_mono :
      (a b : F) (n : ℕ)
      → Le num a b
      → Le num (num.divide a (num.of_nat (suc n))) (num.divide b (num.of_nat (suc n)))
  pub seconds_mono : (a b : ℤ) → a ≤ℤ b → Le num (num.seconds a) (num.seconds b)
  pub round_mono : (a b : F) (n : ℕ) → Le num a b → Le num (num.round a n) (num.round b n)

-- The end, where it is known, is not before a start that is known too.
abbrev pub is_timed : Option ℤ → Option ℤ → Bool
is_timed start none = true
is_timed none (some end) = false
is_timed (some start) (some end) = leb_ℤ start end

-- The low end, where it is known, is not after a high end that is known too.
abbrev pub is_ended : Option ℤ → Option ℤ → Bool
is_ended none high = true
is_ended (some low) none = false
is_ended (some low) (some high) = leb_ℤ low high

difference_mono : (f l s h : ℤ) → leb_ℤ s f ≡ true → leb_ℤ l h ≡ true → (l -ℤ f) ≤ℤ (h -ℤ s)
difference_mono f l s h sf lh = ground (arith, -ℤ_parts l f, -ℤ_parts h s)

-- `a >= 0`
abbrev pub is_positive : {F : Type 0} → Floats F → F → Bool
is_positive num a = not (num.less a (num.of_nat 0))

module _ {F : Type 0} (num : Floats F) (laws : FloatLaws num) where
  pub positive-Le : (a : F) → is_positive num a ≡ true → Le num (num.of_nat 0) a
  positive-Le a h = elim (Bool-cases (num.less a (num.of_nat 0))) [
    | inl below ↦ absurd (false≢true (rw below at h))
    | inr above ↦ above
  ]

  pub greater_of-Le :
      (a b c d : F) → Le num a b → Le num c d → Le num (greater_of num a c) (greater_of num b d)
  greater_of-Le a b c d ab cd = elim (Bool-cases (num.less a c)) [
    | inl ac ↦ elim (Bool-cases (num.less b d)) [
      | inl bd ↦ rw (ac, bd) cd
      | inr db ↦ rw (ac, db) (laws.le_trans c d b cd db)
    ]
    | inr ca ↦ elim (Bool-cases (num.less b d)) [
      | inl bd ↦ rw (ca, bd) (laws.le_trans a b d ab (laws.less_le b d bd))
      | inr db ↦ rw (ca, db) ab
    ]
  ]

  zero-greater_of : (a : F) → Le num (num.of_nat 0) (greater_of num (num.of_nat 0) a)
  zero-greater_of a = elim (Bool-cases (num.less (num.of_nat 0) a)) [
    | inl above ↦ rw above (laws.less_le (num.of_nat 0) a above)
    | inr below ↦ rw below (laws.le_refl (num.of_nat 0))
  ]

  zero-span : (start end : Option ℤ) → Le num (num.of_nat 0) (span num start end)
  unfolding span
  zero-span (some start) (some end) = zero-greater_of (num.seconds (end -ℤ start))
  zero-span (some start) none = laws.le_refl (num.of_nat 0)
  zero-span none (some end) = laws.le_refl (num.of_nat 0)
  zero-span none none = laws.le_refl (num.of_nat 0)

  -- A lifetime from the end of the creation is within one from its start.
  pub span-Le :
      (start finish low high : Option ℤ)
      → is_timed start finish ≡ true
      → is_ended low high ≡ true
      → Le num (span num finish low) (span num start high)
  unfolding span
  span-Le start none none high timed ended = zero-span start high
  span-Le start none (some low) high timed ended = zero-span start high
  span-Le start (some finish) none high timed ended = zero-span start high
  span-Le none (some finish) (some low) high timed ended = absurd (false≢true timed)
  span-Le (some start) (some finish) (some low) none timed ended = absurd (false≢true ended)
  span-Le (some start) (some finish) (some low) (some high) timed ended =
      greater_of-Le (num.of_nat 0) (num.of_nat 0) _ _ (laws.le_refl (num.of_nat 0))
        (laws.seconds_mono _ _ (difference_mono finish low start high timed ended))

  pub hours_of-Le :
      (c : Component F) (low high : F)
      → Le num low high
      → Le num (hours_of num c low) (hours_of num c high)
  hours_of-Le c low high h = elim (Bool-cases c.per_month) [
    | inl month ↦ rw month (laws.divide_mono _ _ 729 (laws.divide_mono low high 3599 h))
    | inr hour ↦ rw hour (laws.divide_mono low high 3599 h)
  ]

  pub known_positive :
      (key : String) (a : F) (d : Dict F)
      → all (is_positive num) (values d) ≡ true
      → lookup key d ≡ some a
      → Le num (num.of_nat 0) a
  known_positive key a d h found = positive-Le a (all-known (is_positive num) key a d h found)
