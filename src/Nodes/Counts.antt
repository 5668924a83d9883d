-- ===== src/Nodes/Counts.antt =====
-- How the resources of a timeline add up over the nodes and the lists.
use aws_devops_sdet_demo.Prelude.{
  ℕ, suc, ◌+◌, String, ◌≡◌, refl, sym, ap, ◌∙◌, Option, none, some, List, [], ◌∷◌, ◌++◌, map, Dict,
  lookup, put, values, sum, length, is_some, inl, inr, Bool-cases, arith, ◌==◌,
}
use aws_devops_sdet_demo.Nodes.{
  Topology, Resource, Operation, Timeline, base_address, is_text, index_members, index_hidden,
  destroy_node,
}
use aws_devops_sdet_demo.Nodes.Join.{
  Joined, nothing_joined, or_none, append_to, true_name, node_of, deletion_for, placed,
  join_resource, join_resources, join_operations, joined_of,
}

-- the resources of all the nodes
abbrev pub sum_lengths : Dict (List Resource) → ℕ
sum_lengths d = sum (map (λ rs. length rs) (values d))

-- the resources of all the operations
abbrev pub observed : List Operation → ℕ
observed operations = sum (map (λ op. length op.resources) operations)

length-append {ℓ} : {A : Type ℓ} (xs ys : List A) → length (xs ++ ys) ≡ length xs + length ys
length-append [] ys = omega arith
length-append (x ∷ xs) ys = omega (arith, length-append xs ys)

sum_lengths-put :
    (key : String) (rs : List Resource) (d : Dict (List Resource))
    → sum_lengths (put key rs d) + length (or_none (lookup key d)) ≡ sum_lengths d + length rs
sum_lengths-put key rs [] = omega arith
sum_lengths-put key rs ((k, others) ∷ rest) = elim (Bool-cases (k == key)) [
  | inl same ↦ rw same (omega arith)
  | inr later ↦ rw later (omega (arith, sum_lengths-put key rs rest))
]

sum_lengths-append_to :
    (key : String) (r : Resource) (d : Dict (List Resource))
    → sum_lengths (append_to key r d) ≡ suc (sum_lengths d)
sum_lengths-append_to key r d = omega (
  arith,
  sum_lengths-put key (or_none (lookup key d) ++ (r ∷ [])) d,
  length-append (or_none (lookup key d)) (r ∷ []),
)

-- what is on the nodes and what is in the three lists
abbrev joined_count : Joined → ℕ
joined_count j =
    sum_lengths j.collected + (length j.reads + (length j.not_shown + length j.unknown))

abbrev IsCounted : Joined → Type 0
IsCounted j = j.matched ≡ sum_lengths j.collected

-- One more resource in the account, and the matched ones still those on the nodes.
abbrev OneMore : Joined → Joined → Type 0
OneMore j after = (joined_count after ≡ suc (joined_count j)) × (IsCounted j → IsCounted after)

module _ (members hidden : Dict String) (teardown : Option String) where
  deletion_for-joined_count :
      (owner : Option String) (r : Resource) (j : Joined)
      → joined_count (deletion_for members hidden teardown owner r j) ≡ joined_count j
  deletion_for-joined_count none r j = refl
  deletion_for-joined_count (some owner) r j = elim (Bool-cases (is_text "delete" r.action)) [
    | inl deletes ↦ rw deletes refl
    | inr keeps ↦ rw keeps refl
  ]

  deletion_for-IsCounted :
      (owner : Option String) (r : Resource) (j : Joined)
      → IsCounted j
      → IsCounted (deletion_for members hidden teardown owner r j)
  deletion_for-IsCounted none r j h = h
  deletion_for-IsCounted (some owner) r j h = elim (Bool-cases (is_text "delete" r.action)) [
    | inl deletes ↦ rw deletes h
    | inr keeps ↦ rw keeps h
  ]

  placed-OneMore :
      (r : Resource) (base : String) (node : Option String) (j : Joined)
      → OneMore j (placed members hidden teardown r base node j)
  placed-OneMore r base (some node) j = (
    omega (arith, sum_lengths-append_to node r j.collected),
    λ h. ap suc h ∙ sym (sum_lengths-append_to node r j.collected),
  )
  placed-OneMore r base none j = elim (Bool-cases (is_some (lookup base hidden))) [
    | inl drawn ↦ rw drawn (omega (arith, length-append j.not_shown (r.address ∷ [])), λ h. h)
    | inr nowhere ↦ rw nowhere (omega (arith, length-append j.unknown (r.address ∷ [])), λ h. h)
  ]

  join_resource-OneMore :
      (r : Resource) (j : Joined) → OneMore j (join_resource members hidden teardown r j)
  unfolding join_resource
  join_resource-OneMore r j = elim (Bool-cases (is_text "read" r.action)) [
    | inl reads ↦
        rw (join_resource, reads) (omega (arith, length-append j.reads (r.address ∷ [])), λ h. h)
    | inr acts ↦
        let base = base_address r.address in
        let owner = true_name (lookup base members) in
        let one =
          placed-OneMore r base (node_of members hidden teardown r.action base)
            (deletion_for members hidden teardown owner r j) in
        rw (join_resource, acts)
          (
            one.0 ∙ ap suc (deletion_for-joined_count owner r j),
            λ h. one.1 (deletion_for-IsCounted owner r j h),
          )
  ]

  join_resources-joined_count :
      (rs : List Resource) (j : Joined)
      → joined_count (join_resources members hidden teardown rs j) ≡ joined_count j + length rs
  unfolding join_resources
  join_resources-joined_count [] j = omega arith
  join_resources-joined_count (r ∷ rest) j = omega (
    arith,
    (join_resource-OneMore r j).0,
    join_resources-joined_count rest (join_resource members hidden teardown r j),
  )

  join_resources-IsCounted :
      (rs : List Resource) (j : Joined)
      → IsCounted j
      → IsCounted (join_resources members hidden teardown rs j)
  unfolding join_resources
  join_resources-IsCounted [] j h = h
  join_resources-IsCounted (r ∷ rest) j h =
      join_resources-IsCounted rest (join_resource members hidden teardown r j)
        ((join_resource-OneMore r j).1 h)

  join_operations-joined_count :
      (operations : List Operation) (j : Joined)
      → joined_count (join_operations members hidden teardown operations j)
        ≡ joined_count j + observed operations
  unfolding join_operations
  join_operations-joined_count [] j = omega arith
  join_operations-joined_count (op ∷ rest) j = omega (
    arith,
    join_resources-joined_count op.resources j,
    join_operations-joined_count rest (join_resources members hidden teardown op.resources j),
  )

  join_operations-IsCounted :
      (operations : List Operation) (j : Joined)
      → IsCounted j
      → IsCounted (join_operations members hidden teardown operations j)
  unfolding join_operations
  join_operations-IsCounted [] j h = h
  join_operations-IsCounted (op ∷ rest) j h =
      join_operations-IsCounted rest (join_resources members hidden teardown op.resources j)
        (join_resources-IsCounted op.resources j h)

-- The resources of a timeline are those that fell on the nodes, the data sources, those that the map
-- does not show and the unknown ones, each counted once; and the number of matched ones is the number
-- of those on the nodes.
pub joined_of-observed :
    (topology : Topology) (timeline : Timeline)
    → (sum_lengths (joined_of topology timeline).collected
          + (length (joined_of topology timeline).reads
              + (length (joined_of topology timeline).not_shown
                  + length (joined_of topology timeline).unknown))
        ≡ observed timeline.operations)
      × ((joined_of topology timeline).matched
          ≡ sum_lengths (joined_of topology timeline).collected)
unfolding joined_of
joined_of-observed topology timeline =
    let members = index_members topology timeline.environment in
    let hidden = index_hidden topology in
    let teardown = destroy_node topology timeline.environment in
    (
      omega (
        arith,
        join_operations-joined_count members hidden teardown timeline.operations nothing_joined,
      ),
      join_operations-IsCounted members hidden teardown timeline.operations nothing_joined refl,
    )
