-- ===== src/Cost/Rows.antt =====
-- Every created resource has its row, in one bucket.
use aws_devops_sdet_demo.Prelude.{
  one_if, length-filter, Yields, Yields-chain, Yields-if, Yields-some, ℤ, suc, ◌+◌, String, ◌≡◌,
  refl, sym, ap, ◌∙◌, Bool, Option, some, List, [], ◌∷◌, Dict, lookup, keys, length, map, is_some,
  is_empty, Option-cases, inl, inr, arith,
}
use aws_devops_sdet_demo.Cost.{
  Floats, Resource, Timeline, Price, Model, parse_ts, resources_of, costs,
}
use aws_devops_sdet_demo.Cost.Pairing.{pairing_refusals}
use aws_devops_sdet_demo.Cost.Build.{
  Cost, in_bucket, priced_bucket, free_bucket, not_metered_bucket, unpriced_bucket, addresses,
  deleted_in, cycle_end, accepted, build,
}
use aws_devops_sdet_demo.Cost.Charge.{
  Bucket, is_free, is_not_metered, is_unpriced, is_priced, Entry, entry_for, instants_of, ends_of,
  State, charged, floor_applied, rate_of, priced_entry, entry_of, entries_of,
}

one_bucket :
    (b : Bucket)
    → one_if (priced_bucket b)
        + (one_if (free_bucket b) + (one_if (not_metered_bucket b) + one_if (unpriced_bucket b)))
      ≡ 1
one_bucket is_priced = omega arith
one_bucket is_free = omega arith
one_bucket is_not_metered = omega arith
one_bucket is_unpriced = omega arith

-- Each entry is in one of the four buckets.
buckets-partition :
    {F : Type 0} (entries : List (Entry F))
    → length (in_bucket priced_bucket entries)
        + (length (in_bucket free_bucket entries)
            + (length (in_bucket not_metered_bucket entries)
                + length (in_bucket unpriced_bucket entries)))
      ≡ length entries
buckets-partition [] = omega arith
buckets-partition (e ∷ rest) = omega (
  arith,
  one_bucket e.row.bucket,
  length-filter (λ x. priced_bucket x.row.bucket) e rest,
  length-filter (λ x. free_bucket x.row.bucket) e rest,
  length-filter (λ x. not_metered_bucket x.row.bucket) e rest,
  length-filter (λ x. unpriced_bucket x.row.bucket) e rest,
  buckets-partition rest,
)

length-map : {A B : Type 0} (f : A → B) (xs : List A) → length (map f xs) ≡ length xs
length-map f [] = refl
length-map f (x ∷ xs) = ap suc (length-map f xs)

length-keys : {A : Type 0} (d : Dict A) → length (keys d) ≡ length d
length-keys [] = refl
length-keys ((k, a) ∷ rest) = ap suc (length-keys rest)

map-map :
    {F : Type 0} (entries : List (Entry F))
    → map (λ row. row.address) (map (λ e. e.row) entries) ≡ addresses entries
map-map [] = refl
map-map (e ∷ rest) = ap (λ ks. e.row.address ∷ ks) (map-map rest)

module _ {F : Type 0} (num : Floats F) (strptime : String → Option ℤ) where
  -- The entry is the address's own.
  abbrev Names : String → Entry F → Type 0
  Names address e = e.row.address ≡ address

  charged-Names :
      (unit_prices shape : Dict F) (price : Price F) (address : String) (r : Resource)
      (delete_record : Option Resource) (state : State) (low high : F)
      → Yields
          (Names address)
          (charged num strptime unit_prices shape price address r delete_record state low high)
  unfolding charged
  charged-Names unit_prices shape price address r delete_record state low high =
      Yields-chain (costs num unit_prices shape price.components low (num.of_nat 0)) λ usd_low _.
        Yields-chain (costs num unit_prices shape price.components high (num.of_nat 0))
          λ usd_high _.
            Yields-chain
              (rate_of num strptime unit_prices shape price state
                (floor_applied num strptime price.minimum_seconds low))
              λ rate _. Yields-some refl

  priced_entry-Names :
      (unit_prices shape : Dict F) (is_closed : Bool) (as_of : Option ℤ) (deleted : Dict Resource)
      (address : String) (r : Resource) (price : Price F)
      → Yields
          (Names address)
          (priced_entry num strptime unit_prices shape is_closed as_of deleted address r price)
  unfolding priced_entry
  priced_entry-Names unit_prices shape is_closed as_of deleted address r price =
      Yields-chain (instants_of num strptime r) λ created _.
        Yields-chain (ends_of num strptime (lookup address deleted) as_of)
          λ ends _. charged-Names unit_prices shape price address r _ _ _ _

  entry_of-Names :
      (unit_prices : Dict F) (model : Model F) (shape : Dict F) (is_closed : Bool)
      (as_of : Option ℤ) (deleted : Dict Resource) (address : String) (r : Resource)
      → Yields
          (Names address)
          (entry_of num strptime unit_prices model shape is_closed as_of deleted address r)
  unfolding entry_of
  entry_of-Names unit_prices model shape is_closed as_of deleted address r =
      elim (Option-cases (entry_for r.type model.free)) [
        | inr (why, is_known) ↦ rw (entry_of, is_known) (Yields-some refl)
        | inl unknown ↦ elim (Option-cases (entry_for r.type model.not_metered)) [
          | inr (why, is_known) ↦ rw (entry_of, unknown, is_known) (Yields-some refl)
          | inl unmetered ↦ elim (Option-cases (entry_for r.type model.priced)) [
            | inl unpriced ↦ rw (entry_of, unknown, unmetered, unpriced) (Yields-some refl)
            | inr (price, is_known) ↦
                rw (entry_of, unknown, unmetered, is_known)
                  (priced_entry-Names unit_prices shape is_closed as_of deleted address r price)
          ]
        ]
      ]

  entries_of-addresses :
      (unit_prices : Dict F) (model : Model F) (shape : Dict F) (is_closed : Bool)
      (as_of : Option ℤ) (deleted created : Dict Resource)
      → Yields
          (λ entries. addresses entries ≡ keys created)
          (entries_of num strptime unit_prices model shape is_closed as_of deleted created)
  unfolding entries_of
  entries_of-addresses unit_prices model shape is_closed as_of deleted [] = Yields-some refl
  entries_of-addresses unit_prices model shape is_closed as_of deleted ((address, r) ∷ rest) =
      Yields-chain (entry_of num strptime unit_prices model shape is_closed as_of deleted address r)
        λ entry made.
          Yields-chain
            (entries_of num strptime unit_prices model shape is_closed as_of deleted rest)
            λ others listed. Yields-some (
              ap (λ a. a ∷ addresses others)
                ((entry_of-Names unit_prices model shape is_closed as_of deleted address r).at entry
                  made)
              ∙ ap (λ ks. address ∷ ks)
                  ((entries_of-addresses unit_prices model shape is_closed as_of deleted rest).at
                    others listed))

  -- A row for each created resource, each in one bucket.
  abbrev pub Partitioned : Timeline → Cost F → Type 0
  Partitioned apply cost =
      (map (λ row. row.address) cost.resources
        ≡ keys (resources_of apply ("create" ∷ "replace" ∷ [])))
      × (cost.counts.created
          ≡ cost.counts.priced
            + (cost.counts.free + (cost.counts.not_metered + cost.counts.unpriced)))

  length-entries :
      (entries : List (Entry F)) (created : Dict Resource)
      → addresses entries ≡ keys created
      → length entries ≡ length created
  length-entries entries created listed =
      sym (length-map (λ e. e.row.address) entries) ∙ (ap length listed ∙ length-keys created)

  accepted-Partitioned :
      (environment : String) (apply : Timeline) (destroy : Option Timeline) (unit_prices : Dict F)
      (model : Model F) (shape : Dict F) (as_of : Option ℤ)
      → Yields
          (Partitioned apply)
          (accepted num strptime environment apply destroy unit_prices model shape as_of)
  unfolding accepted
  accepted-Partitioned environment apply destroy unit_prices model shape as_of =
      let created = resources_of apply ("create" ∷ "replace" ∷ []) in
      Yields-chain
        (entries_of num strptime unit_prices model shape (is_some destroy) as_of
          (deleted_in num strptime destroy) (resources_of apply ("create" ∷ "replace" ∷ [])))
        λ entries made. Yields-chain (parse_ts strptime apply.started_at) λ start _.
          Yields-chain (cycle_end num strptime destroy as_of) λ end _.
            let listed =
              (entries_of-addresses unit_prices model shape (is_some destroy) as_of
                  (deleted_in num strptime destroy) created).at
                entries made in
            Yields-some (
              map-map entries ∙ listed,
              omega (
                arith,
                buckets-partition entries,
                length-entries entries created listed,
                length-map (λ e. e.row.address) (in_bucket unpriced_bucket entries),
              ),
            )

  -- Where a cost is built, it has one row for each resource that the apply created or replaced, in the
  -- order in which they were first seen, and the resources created are those priced, free, not metered
  -- and unpriced together.
  pub build-Partitioned :
      (environment : String) (apply : Timeline) (destroy : Option Timeline) (unit_prices : Dict F)
      (model : Model F) (shape : Dict F) (as_of : Option ℤ) (cost : Cost F)
      → build num strptime environment apply destroy unit_prices model shape as_of ≡ some cost
      → Partitioned apply cost
  unfolding build
  build-Partitioned environment apply destroy unit_prices model shape as_of =
      (Yields-chain (pairing_refusals strptime environment apply destroy) λ problems _.
        Yields-if (is_empty problems)
          (accepted-Partitioned environment apply destroy unit_prices model shape as_of)
          (record { at = λ cost e. cc e })).at
