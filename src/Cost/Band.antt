-- ===== src/Cost/Band.antt =====
-- The two bounds of a cost.
use aws_devops_sdet_demo.Prelude.{
  String, ◌≡◌, subst, Bool, true, some, List, [], ◌∷◌, Dict, lookup, values, all, inl, inr,
  Option-cases, and_left, and_right, some-injective,
}
use aws_devops_sdet_demo.Cost.{Floats, Component, quantity_of, hours_of, component_cost, costs}
use aws_devops_sdet_demo.Cost.Monotone.{
  Le, FloatLaws, is_positive, positive-Le, hours_of-Le, known_positive,
}

abbrev pub are_positive : {F : Type 0} → Floats F → List F → Bool
are_positive num xs = all (is_positive num) xs

abbrev pub counts_positive : {F : Type 0} → Floats F → List (Component F) → Bool
counts_positive num cs = all (λ c. is_positive num c.quantity) cs

Le-some :
    {F : Type 0} (num : Floats F) (x y a b : F)
    → some x ≡ some a
    → some y ≡ some b
    → Le num x y
    → Le num a b
Le-some num x y a b ea eb h =
    subst (λ v. Le num v b) (some-injective ea) (subst (λ v. Le num x v) (some-injective eb) h)

module _ {F : Type 0} (num : Floats F) (laws : FloatLaws num) where
  quantity_of-positive :
      (shape : Dict F) (names : List String) (quantity a : F)
      → are_positive num (values shape) ≡ true
      → Le num (num.of_nat 0) quantity
      → quantity_of num shape names quantity ≡ some a
      → Le num (num.of_nat 0) a
  unfolding quantity_of
  quantity_of-positive shape [] quantity a sized h e =
      subst (λ x. Le num (num.of_nat 0) x) (some-injective e) h
  quantity_of-positive shape (name ∷ rest) quantity a sized h e =
      elim (Option-cases (lookup name shape)) [
        | inl missing ↦ cc (rw missing at e)
        | inr (size, found) ↦
            quantity_of-positive shape rest (num.multiply quantity size) a sized
              (laws.multiply_positive quantity size h
                (known_positive num laws name size shape sized found))
              (rw found at e)
      ]

  -- More seconds of a component cost no less.
  component_cost-Le :
      (unit_prices shape : Dict F) (c : Component F) (low high a b : F)
      → are_positive num (values unit_prices) ≡ true
      → are_positive num (values shape) ≡ true
      → is_positive num c.quantity ≡ true
      → Le num low high
      → component_cost num unit_prices shape c low ≡ some a
      → component_cost num unit_prices shape c high ≡ some b
      → Le num a b
  unfolding component_cost
  component_cost-Le unit_prices shape c low high a b priced sized counted h ea eb =
      elim (Option-cases (lookup c.unit_price unit_prices)) [
        | inl missing ↦ cc (rw missing at ea)
        | inr (usd, found) ↦
            elim (Option-cases (quantity_of num shape c.quantity_from c.quantity)) [
              | inl unknown ↦ cc (rw (found, unknown) at ea)
              | inr (quantity, known) ↦
                  Le-some num (num.multiply (num.multiply quantity usd) (hours_of num c low))
                    (num.multiply (num.multiply quantity usd) (hours_of num c high)) a b
                    (rw (component_cost, found, known) at ea)
                    (rw (component_cost, found, known) at eb)
                    (laws.multiply_mono (num.multiply quantity usd) _ _
                      (laws.multiply_positive quantity usd
                        (quantity_of-positive shape c.quantity_from c.quantity quantity sized
                          (positive-Le num laws c.quantity counted) known)
                        (known_positive num laws c.unit_price usd unit_prices priced found))
                      (hours_of-Le num laws c low high h))
            ]
      ]

  pub costs-Le :
      (unit_prices shape : Dict F) (cs : List (Component F)) (low high x y a b : F)
      → are_positive num (values unit_prices) ≡ true
      → are_positive num (values shape) ≡ true
      → counts_positive num cs ≡ true
      → Le num low high
      → Le num x y
      → costs num unit_prices shape cs low x ≡ some a
      → costs num unit_prices shape cs high y ≡ some b
      → Le num a b
  unfolding costs
  costs-Le unit_prices shape [] low high x y a b priced sized counted h xy ea eb =
      Le-some num x y a b ea eb xy
  costs-Le unit_prices shape (c ∷ rest) low high x y a b priced sized counted h xy ea eb =
      elim (Option-cases (component_cost num unit_prices shape c low)) [
        | inl bad ↦ cc (rw bad at ea)
        | inr (p, ep) ↦ elim (Option-cases (component_cost num unit_prices shape c high)) [
          | inl bad ↦ cc (rw bad at eb)
          | inr (q, eq) ↦
              costs-Le unit_prices shape rest low high (num.add x p) (num.add y q) a b priced sized
                (and_right _ _ counted) h
                (laws.add_mono x y p q xy (
                  component_cost-Le unit_prices shape c low high p q priced sized
                    (and_left _ _ counted) h ep eq))
                (rw ep at ea) (rw eq at eb)
        ]
      ]
