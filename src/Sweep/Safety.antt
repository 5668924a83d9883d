-- ===== src/Sweep/Safety.antt =====
-- When the watchdog deletes, asks, waits or does nothing.
use aws_devops_sdet_demo.Prelude.{
  ℕ, ◌+◌, ◌-◌, ◌≤◌, ◌<◌, ℤ, pos, ◌-ℤ◌, ◌≤ℤ◌, String, ◌≡◌, ◌≢◌, refl, ap, ◌∙◌, ltb, inl, inr, Bool,
  true, false, not, ◌||◌, Option, none, some, List, [], ◌∷◌, Item, lookup, scalar_int, is_some,
  arith, eq_iff, eq_refl, Bool-cases, ◌==◌, if◌then◌else◌,
}
use aws_devops_sdet_demo.Control.Laws.{sweep_item}
use aws_devops_sdet_demo.Control.Decide.{lock_is_expired}
use aws_devops_sdet_demo.Sweep.{
  Resource, dispatch, wait, blunt, scope_of, or_zero, recorded_scope, dispatched_at_for,
  deadline_passed, any_passed, overdue, decide_sweep, record_ttl_seconds,
}

-- Something is billing past its time, or without the record of a launch.
abbrev pub is_overdue : (String → Option ℤ) → List Resource → Option Item → ℕ → Bool
is_overdue fromisoformat alive lock now =
    any_passed fromisoformat alive now || (lock_is_expired lock now || not (is_some lock))

-- The watchdog's record, as it is noted at an instant.
abbrev pub noted : String → ℕ → Item
noted scope dispatched_at = sweep_item scope dispatched_at (dispatched_at + record_ttl_seconds)

dispatched_at_for-noted :
    (scope : String) (t : ℕ) → dispatched_at_for (some (noted scope t)) scope ≡ pos t
unfolding dispatched_at_for
dispatched_at_for-noted scope t = simp eq_refl

or_zero-own : (n : Option ℤ) → or_zero n ≢ pos 0 → n ≡ some (or_zero n)
or_zero-own none h = absurd (h refl)
or_zero-own (some n) h = refl

-- What a record that answers another number than zero says.
dispatched_at_for-own :
    (last : Option Item) (scope : String)
    → dispatched_at_for last scope ≢ pos 0
    → (item : Item) × (last ≡ some item)
      × (recorded_scope (lookup "scope" item) ≡ scope)
      × (scalar_int (lookup "dispatched_at" item) ≡ some (dispatched_at_for last scope))
unfolding dispatched_at_for
dispatched_at_for-own none scope h = absurd (h refl)
dispatched_at_for-own (some []) scope h = absurd (h refl)
dispatched_at_for-own (some (e ∷ rest)) scope h =
    elim (Bool-cases (recorded_scope (lookup "scope" (e ∷ rest)) == scope)) [
      | inr differs ↦ absurd (h (rw (differs, dispatched_at_for) refl))
      | inl same ↦ (
        e ∷ rest,
        refl,
        (eq_iff _ scope).0 same,
        rw (same, dispatched_at_for)
            (or_zero-own (scalar_int (lookup "dispatched_at" (e ∷ rest)))
              λ z. h (rw (same, dispatched_at_for) z)),
      )
    ]

-- The record `last` is of the launches alive, and says that a destroy was dispatched `grace` ago.
pub record AskedBefore (alive : List Resource) (last : Option Item) (now grace : ℕ) : Type 0 where
  pub item : Item
  pub present : last ≡ some item
  pub same_scope : recorded_scope (lookup "scope" item) ≡ scope_of alive
  pub dispatched_at : ℤ
  pub readable : scalar_int (lookup "dispatched_at" item) ≡ some dispatched_at
  pub set_once : dispatched_at ≢ pos 0
  pub grace_over : pos grace ≤ℤ pos now -ℤ dispatched_at

module _ (fromisoformat : String → Option ℤ) where
  overdue-blunt :
      (alive : List Resource) (last : Option Item) (now grace : ℕ)
      → (overdue fromisoformat alive last now grace).action ≡ blunt
      → (dispatched_at_for last (scope_of alive) ≢ pos 0)
        × (pos grace ≤ℤ pos now -ℤ dispatched_at_for last (scope_of alive))
        × ((overdue fromisoformat alive last now grace).release_lock ≡ true)
        × ((overdue fromisoformat alive last now grace).clear_record ≡ true)
  unfolding overdue
  overdue-blunt alive last now grace h = ground arith

  -- The watchdog deletes resources itself only if some are alive, they are overdue, and its own record
  -- for the very launches alive says that a destroy was dispatched at least the grace period ago.
  -- It then gives up the lock and its record.
  pub blunt_only_after_asking :
      (alive : List Resource) (lock last : Option Item) (now grace : ℕ)
      → (decide_sweep fromisoformat alive lock last now grace).action ≡ blunt
      → (alive ≢ [])
        × (is_overdue fromisoformat alive lock now ≡ true)
        × AskedBefore alive last now grace
        × ((decide_sweep fromisoformat alive lock last now grace).release_lock ≡ true)
        × ((decide_sweep fromisoformat alive lock last now grace).clear_record ≡ true)
  unfolding decide_sweep
  blunt_only_after_asking [] lock last now grace h = ground arith
  blunt_only_after_asking (r ∷ rest) lock last now grace h =
      elim (Bool-cases (is_overdue fromisoformat (r ∷ rest) lock now)) [
        | inr early ↦ cc (rw (early, decide_sweep) at h)
        | inl late ↦
            let (n, over, released, cleared) =
              overdue-blunt (r ∷ rest) last now grace (rw (late, decide_sweep) at h) in
            let (item, e, same, read) = dispatched_at_for-own last (scope_of (r ∷ rest)) n in
            (
              λ z. cc z,
              late,
              record {
                item = item;
                present = e;
                same_scope = same;
                dispatched_at = dispatched_at_for last (scope_of (r ∷ rest));
                readable = read;
                set_once = n;
                grace_over = over;
              },
              rw (late, decide_sweep) released,
              rw (late, decide_sweep) cleared,
            )
      ]

  -- Time does not take back that a deadline has passed.
  deadline-later :
      (r : Resource) (now later : ℕ)
      → now ≤ later
      → deadline_passed fromisoformat r now ≡ true
      → deadline_passed fromisoformat r later ≡ true
  unfolding deadline_passed
  deadline-later r now later le h = ground arith

  any-later :
      (alive : List Resource) (now later : ℕ)
      → now ≤ later
      → any_passed fromisoformat alive now ≡ true
      → any_passed fromisoformat alive later ≡ true
  unfolding any_passed
  any-later [] now later le h = h
  any-later (r ∷ rest) now later le h =
      ground (arith, deadline-later r now later le, any-later rest now later le)

  expired-later :
      (lock : Option Item) (now later : ℕ)
      → now ≤ later
      → lock_is_expired lock now ≡ true
      → lock_is_expired lock later ≡ true
  unfolding lock_is_expired
  expired-later none now later le h = h
  expired-later (some []) now later le h = h
  expired-later (some (e ∷ rest)) now later le h = ground arith

  overdue-later :
      (alive : List Resource) (lock : Option Item) (now later : ℕ)
      → now ≤ later
      → is_overdue fromisoformat alive lock now ≡ true
      → is_overdue fromisoformat alive lock later ≡ true
  overdue-later alive lock now later le h =
      ground (arith, any-later alive now later le, expired-later lock now later le)

  decide-overdue :
      (alive : List Resource) (lock last : Option Item) (now grace : ℕ)
      → alive ≢ []
      → is_overdue fromisoformat alive lock now ≡ true
      → decide_sweep fromisoformat alive lock last now grace
        ≡ overdue fromisoformat alive last now grace
  unfolding decide_sweep
  decide-overdue [] lock last now grace n h = absurd (n refl)
  decide-overdue (r ∷ rest) lock last now grace n h = rw (h, decide_sweep) refl

  dispatch-overdue :
      (alive : List Resource) (lock last : Option Item) (now grace : ℕ)
      → (decide_sweep fromisoformat alive lock last now grace).action ≡ dispatch
      → (alive ≢ []) × (is_overdue fromisoformat alive lock now ≡ true)
  unfolding decide_sweep
  dispatch-overdue [] lock last now grace h = ground arith
  dispatch-overdue (r ∷ rest) lock last now grace h =
      elim (Bool-cases (is_overdue fromisoformat (r ∷ rest) lock now)) [
        | inl late ↦ (λ z. cc z, late)
        | inr early ↦ cc (rw (early, decide_sweep) at h)
      ]

  overdue-noted :
      (alive : List Resource) (asked now grace : ℕ)
      → 0 < asked
      → asked ≤ now
      → (overdue fromisoformat alive (some (noted (scope_of alive) asked)) now grace).action
        ≡ (if ltb (now - asked) grace then wait else blunt)
  unfolding overdue ◌-ℤ◌
  overdue-noted alive asked now grace p le =
      ground (arith, dispatched_at_for-noted (scope_of alive) asked)

  -- A dispatch that was noted is followed up: with that note as the record, the same resources
  -- alive and the same lock, every later look waits until the grace period is over, and deletes
  -- from then on.
  pub dispatch_followed_up :
      (alive : List Resource) (lock last : Option Item) (asked now grace : ℕ)
      → 0 < asked
      → asked ≤ now
      → (decide_sweep fromisoformat alive lock last asked grace).action ≡ dispatch
      → (decide_sweep fromisoformat alive lock
          (some (noted (scope_of alive) asked))
          now
          grace).action
        ≡ (if ltb (now - asked) grace then wait else blunt)
  dispatch_followed_up alive lock last asked now grace p le h =
      let (some_alive, late) = dispatch-overdue alive lock last asked grace h in
      ap (λ d. d.action)
        (decide-overdue alive lock (some (noted (scope_of alive) asked)) now grace some_alive
          (overdue-later alive lock asked now le late))
      ∙ overdue-noted alive asked now grace p le

  overdue-dispatch :
      (alive : List Resource) (last : Option Item) (now grace : ℕ)
      → (overdue fromisoformat alive last now grace).action ≡ dispatch
      → let d = overdue fromisoformat alive last now grace in
        (d.note_dispatch ≡ true) × (d.release_lock ≡ false) × (d.clear_record ≡ false)
  unfolding overdue
  overdue-dispatch alive last now grace h = ground arith

  -- A decision to dispatch is to be noted, and drops no record.
  pub dispatch-notes :
      (alive : List Resource) (lock last : Option Item) (now grace : ℕ)
      → (decide_sweep fromisoformat alive lock last now grace).action ≡ dispatch
      → let d = decide_sweep fromisoformat alive lock last now grace in
        (d.note_dispatch ≡ true) × (d.release_lock ≡ false) × (d.clear_record ≡ false)
  dispatch-notes alive lock last now grace h =
      let (some_alive, late) = dispatch-overdue alive lock last now grace h in
      let e = decide-overdue alive lock last now grace some_alive late in
      rw e (overdue-dispatch alive last now grace (rw e at h))
