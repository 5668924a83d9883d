-- ===== src/Cost/Bounds.antt =====
-- The two bounds of a cycle's cost, from the rows to the totals.
use aws_devops_sdet_demo.Prelude.{
  Yields, Yields-chain, Yields-if, Yields-some, ℤ, String, ◌≡◌, refl, subst, Bool, true, Option,
  none, some, List, [], ◌∷◌, Dict, lookup, values, all, is_some, is_empty, inl, inr, Option-cases,
  and_left, and_right, all-known, arith,
}
use aws_devops_sdet_demo.Cost.{
  Floats, Resource, Timeline, Price, Model, parse_ts, resources_of, costs,
}
use aws_devops_sdet_demo.Cost.Pairing.{pairing_refusals}
use aws_devops_sdet_demo.Cost.Monotone.{Le, FloatLaws, is_timed, is_ended, greater_of-Le, span-Le}
use aws_devops_sdet_demo.Cost.Band.{are_positive, counts_positive, costs-Le}
use aws_devops_sdet_demo.Cost.Build.{Cost, totals, deleted_in, cycle_end, accepted, build}
use aws_devops_sdet_demo.Cost.Charge.{
  State, Entry, entry_for, instants_of, ends_of, state_of, charged, floor_applied, rate_of,
  priced_entry, entry_of, entries_of,
}

-- The record's instants, where they can be read, pass the test.
abbrev passes_read : (Option ℤ → Option ℤ → Bool) → Option (Option ℤ) → Option (Option ℤ) → Bool
passes_read test (some start) (some end) = test start end
passes_read test _ _ = true

abbrev passes_instants : (String → Option ℤ) → (Option ℤ → Option ℤ → Bool) → Resource → Bool
passes_instants strptime test r =
    passes_read test (parse_ts strptime r.started_at) (parse_ts strptime r.finished_at)

is_ended-same : (as_of : Option ℤ) → is_ended as_of as_of ≡ true
is_ended-same none = refl
is_ended-same (some at) = ground arith

module _ {F : Type 0} (num : Floats F) (laws : FloatLaws num) (strptime : String → Option ℤ) where
  -- The figures of an entry, where it has some, are in order.
  abbrev InBand : Option (F × F) → Type 0
  InBand none = Unit
  InBand (some figures) = Le num figures.0 figures.1

  instants-pass :
      (test : Option ℤ → Option ℤ → Bool) (r : Resource)
      → passes_instants strptime test r ≡ true
      → Yields (λ at. test at.0 at.1 ≡ true) (instants_of num strptime r)
  instants-pass test r h = Yields-chain (parse_ts strptime r.started_at) λ start es.
      Yields-chain (parse_ts strptime r.finished_at) λ end ee. Yields-some (rw (es, ee) at h)

  ends-pass :
      (found : Option Resource) (as_of : Option ℤ)
      → ((r : Resource) → found ≡ some r → passes_instants strptime is_ended r ≡ true)
      → Yields (λ at. is_ended at.0 at.1 ≡ true) (ends_of num strptime found as_of)
  ends-pass none as_of h = Yields-some (is_ended-same as_of)
  ends-pass (some r) as_of h = instants-pass is_ended r (h r refl)

  abbrev AllInBand : List (Entry F) → Type 0
  AllInBand [] = Unit
  AllInBand (e ∷ rest) = InBand e.figures × AllInBand rest

  totals-Le :
      (entries : List (Entry F)) (low high : F)
      → AllInBand entries
      → Le num low high
      → Le num (totals num strptime entries low high).0 (totals num strptime entries low high).1
  unfolding totals
  totals-Le [] low high banded h = h
  totals-Le (e ∷ rest) low high banded h = elim (Option-cases e.figures) [
    | inl free ↦ rw (totals, free) (totals-Le rest low high banded.1 h)
    | inr (figures, found) ↦
        rw (totals, found)
          (totals-Le rest _ _ banded.1
            (laws.add_mono low high figures.0 figures.1 h (subst InBand found banded.0)))
  ]

  module _ (unit_prices : Dict F) (model : Model F) (shape : Dict F)
      (priced : are_positive num (values unit_prices) ≡ true)
      (sized : are_positive num (values shape) ≡ true)
      (counted : all (λ price. counts_positive num price.components) (values model.priced)
        ≡ true) where
    charged-InBand :
        (price : Price F) (address : String) (r : Resource) (found : Option Resource)
        (state : State) (low high : F)
        → counts_positive num price.components ≡ true
        → Le num low high
        → Yields
            (λ e. InBand e.figures)
            (charged num strptime unit_prices shape price address r found state low high)
    unfolding charged
    charged-InBand price address r found state low high components h =
        Yields-chain (costs num unit_prices shape price.components low (num.of_nat 0)) λ usd_low el.
          Yields-chain (costs num unit_prices shape price.components high (num.of_nat 0))
            λ usd_high eh.
              Yields-chain
                (rate_of num strptime unit_prices shape price state
                  (floor_applied num strptime price.minimum_seconds low))
                λ rate _. Yields-some (
                  costs-Le num laws unit_prices shape price.components low high _ _ usd_low usd_high
                    priced sized components h (laws.le_refl (num.of_nat 0)) el eh)

    priced_entry-InBand :
        (is_closed : Bool) (as_of : Option ℤ) (deleted : Dict Resource) (address : String)
        (r : Resource) (price : Price F)
        → counts_positive num price.components ≡ true
        → passes_instants strptime is_timed r ≡ true
        → all (passes_instants strptime is_ended) (values deleted) ≡ true
        → Yields
            (λ e. InBand e.figures)
            (priced_entry num strptime unit_prices shape is_closed as_of deleted address r price)
    unfolding priced_entry
    priced_entry-InBand is_closed as_of deleted address r price components timed ended =
        Yields-chain (instants_of num strptime r) λ created ec.
          Yields-chain (ends_of num strptime (lookup address deleted) as_of) λ ends ee.
            charged-InBand price address r (lookup address deleted)
              (state_of num strptime (lookup address deleted) is_closed) _ _ components
              (greater_of-Le num laws _ _ _ _
                (span-Le num laws created.0 created.1 ends.0 ends.1
                  ((instants-pass is_timed r timed).at created ec)
                  ((ends-pass (lookup address deleted) as_of (λ d e.
                      all-known (passes_instants strptime is_ended) address d deleted ended e)).at
                    ends ee))
                (laws.le_refl price.minimum_seconds))

    kind-known :
        (kind : Option String) (price : Price F)
        → entry_for kind model.priced ≡ some price
        → counts_positive num price.components ≡ true
    kind-known none price e = cc e
    kind-known (some kind) price e =
        all-known (λ p. counts_positive num p.components) kind price model.priced counted e

    entry_of-InBand :
        (is_closed : Bool) (as_of : Option ℤ) (deleted : Dict Resource) (address : String)
        (r : Resource)
        → passes_instants strptime is_timed r ≡ true
        → all (passes_instants strptime is_ended) (values deleted) ≡ true
        → Yields
            (λ e. InBand e.figures)
            (entry_of num strptime unit_prices model shape is_closed as_of deleted address r)
    unfolding entry_of
    entry_of-InBand is_closed as_of deleted address r timed ended =
        elim (Option-cases (entry_for r.type model.free)) [
          | inr (why, is_known) ↦ rw (entry_of, is_known) (Yields-some tt)
          | inl unknown ↦ elim (Option-cases (entry_for r.type model.not_metered)) [
            | inr (why, is_known) ↦ rw (entry_of, unknown, is_known) (Yields-some tt)
            | inl unmetered ↦ elim (Option-cases (entry_for r.type model.priced)) [
              | inl unpriced ↦ rw (entry_of, unknown, unmetered, unpriced) (Yields-some tt)
              | inr (price, is_known) ↦
                  rw (entry_of, unknown, unmetered, is_known)
                    (priced_entry-InBand is_closed as_of deleted address r price
                      (kind-known r.type price is_known) timed ended)
            ]
          ]
        ]

    entries_of-InBand :
        (is_closed : Bool) (as_of : Option ℤ) (deleted created : Dict Resource)
        → all (passes_instants strptime is_timed) (values created) ≡ true
        → all (passes_instants strptime is_ended) (values deleted) ≡ true
        → Yields AllInBand
            (entries_of num strptime unit_prices model shape is_closed as_of deleted created)
    unfolding entries_of
    entries_of-InBand is_closed as_of deleted [] timed ended = Yields-some tt
    entries_of-InBand is_closed as_of deleted ((address, r) ∷ rest) timed ended =
        Yields-chain
          (entry_of num strptime unit_prices model shape is_closed as_of deleted address r)
          λ entry made.
            Yields-chain
              (entries_of num strptime unit_prices model shape is_closed as_of deleted rest)
              λ others listed. Yields-some (
                (entry_of-InBand is_closed as_of deleted address r (and_left _ _ timed) ended).at
                    entry made,
                (entries_of-InBand is_closed as_of deleted rest (and_right _ _ timed) ended).at
                    others listed,
              )

  -- Where a cost is built, its low bound is not above its high bound, if prices, sizes and quantities
  -- are not negative, every created resource that has an end has a start that is not after it, and
  -- every deletion that has a start has an end that is not before it.
  pub build-Le :
      (environment : String) (apply : Timeline) (destroy : Option Timeline) (unit_prices : Dict F)
      (model : Model F) (shape : Dict F) (as_of : Option ℤ) (cost : Cost F)
      → are_positive num (values unit_prices) ≡ true
      → are_positive num (values shape) ≡ true
      → all (λ price. counts_positive num price.components) (values model.priced) ≡ true
      → all
          (passes_instants strptime is_timed)
          (values (resources_of apply ("create" ∷ "replace" ∷ [])))
        ≡ true
      → all (passes_instants strptime is_ended) (values (deleted_in num strptime destroy)) ≡ true
      → build num strptime environment apply destroy unit_prices model shape as_of ≡ some cost
      → Le num cost.usd.0 cost.usd.1
  unfolding build accepted
  build-Le environment apply destroy unit_prices model shape as_of cost priced sized counted timed
        ended h =
      (Yields-chain {P = λ c. Le num c.usd.0 c.usd.1}
          (pairing_refusals strptime environment apply destroy)
          λ problems _.
            Yields-if (is_empty problems)
              (Yields-chain
                (entries_of num strptime unit_prices model shape (is_some destroy) as_of
                  (deleted_in num strptime destroy)
                  (resources_of apply ("create" ∷ "replace" ∷ [])))
                λ entries made. Yields-chain (parse_ts strptime apply.started_at) λ start _.
                  Yields-chain (cycle_end num strptime destroy as_of) λ end _. Yields-some (
                    laws.round_mono _ _ 6 (
                      totals-Le entries _ _
                        ((entries_of-InBand unit_prices model shape priced sized counted
                            (is_some destroy) as_of (deleted_in num strptime destroy)
                            (resources_of apply ("create" ∷ "replace" ∷ [])) timed ended).at
                          entries made)
                        (laws.le_refl (num.of_nat 0)))))
              (record { at = λ c e. cc e })).at
        cost h
