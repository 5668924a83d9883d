-- ===== src/Watchdog/Effects.antt =====
-- What the watchdog takes up, and what it leaves in the control store.
use aws_devops_sdet_demo.Prelude.{
  ℕ, ◌+◌, String, ◌≡◌, ◌≢◌, refl, sym, ◌∙◌, inl, inr, true, false, Option, none, some, List, [],
  ◌∷◌, ◌++◌, Outcome, ok, raised, pure, continue, eq_iff, ◌==◌, Bool-cases, ok-injective,
  false≢true, ℤ, Ensures, Ensures-bind, Ensures-last,
}
use aws_devops_sdet_demo.Control.Interface.{Error, ControlStore}
use aws_devops_sdet_demo.Control.Laws.{Table, RecordLaws, sweep_key}
use aws_devops_sdet_demo.Github.{Http}
use aws_devops_sdet_demo.Sweep.{record_ttl_seconds, Resource, tag, Sweep, dispatch, decide_sweep}
use aws_devops_sdet_demo.Sweep.Safety.{noted, dispatch-notes}
use aws_devops_sdet_demo.Watchdog.{
  Aws, Config, observe, clusters_found, balancers_found, perform, handler, dispatch_destroy,
  databases_found, launched_only, Deleted,
}

abbrev pub All {ℓ κ} : {A : Type ℓ} → (A → Type κ) → List A → Type κ
All P [] = Unit
All P (x ∷ xs) = P x × All P xs

abbrev pub IsLaunched : Resource → Type 0
IsLaunched r = tag "Launch" r ≢ ""

launched_only-IsLaunched : (found : List Resource) → All IsLaunched (launched_only found)
unfolding launched_only
launched_only-IsLaunched [] = tt
launched_only-IsLaunched (r ∷ rest) = elim (Bool-cases (tag "Launch" r == "")) [
  | inl bare ↦ rw bare (launched_only-IsLaunched rest)
  | inr tagged ↦
      rw tagged ((λ e. false≢true (sym tagged ∙ (eq_iff _ "").1 e)), launched_only-IsLaunched rest)
]

observe-Ensures :
    {W : Type 0} (aws : Aws W) (prefix : String)
    → Ensures (λ alive w. All IsLaunched alive) (observe aws prefix)
unfolding observe
observe-Ensures aws prefix = Ensures-bind aws.list_clusters _ λ clusters.
    Ensures-bind (clusters_found aws prefix clusters) _ λ services.
      Ensures-bind aws.describe_load_balancers _ λ lbs.
        Ensures-bind (balancers_found aws prefix lbs) _ λ balancers.
          Ensures-last aws.describe_db_instances
            (λ dbs. launched_only (services ++ (balancers ++ databases_found prefix dbs)))
            (record {
              at = λ w dbs e.
                  launched_only-IsLaunched (services ++ (balancers ++ databases_found prefix dbs));
            })

-- Where the observation returns, everything that it found carries a launch that is not empty.
pub observe-IsLaunched :
    {W : Type 0} (aws : Aws W) (prefix : String) (w : W) (alive : List Resource)
    → (observe aws prefix w).0 ≡ ok alive
    → All IsLaunched alive
observe-IsLaunched aws prefix = (observe-Ensures aws prefix).at

module _ {W : Type 0} (aws : Aws W) (http : Http W) (config : Config) (store : ControlStore W)
    (table : W → Table) (laws : RecordLaws store table) where
  -- what a run that dispatches leaves
  abbrev pub Noted : ℕ → Sweep → Option Deleted → W → Type 0
  Noted now d dropped w = (dropped ≡ none) × (table w sweep_key ≡ some (noted d.scope now))

  Noted-after :
      (now : ℕ) (d : Sweep) (u : W) (dropped : Option Deleted) (r : Outcome Error (Unit {0}))
      → (store.note_sweep d.scope now (now + record_ttl_seconds) u).0 ≡ r
      → (continue r
          (λ _. pure none)
          (store.note_sweep d.scope now (now + record_ttl_seconds) u).1).0
        ≡ ok dropped
      → Noted now d dropped
          (continue {B = Option Deleted} r
            (λ _. pure none)
            (store.note_sweep d.scope now (now + record_ttl_seconds) u).1).1
  Noted-after now d u dropped (ok done) e h =
      (sym (ok-injective h), laws.note_written d.scope now (now + record_ttl_seconds) u e)
  Noted-after now d u dropped (raised x) e h = cc h

  perform-notes :
      (now : ℕ) (alive : List Resource) (d : Sweep)
      → d.action ≡ dispatch
      → d.note_dispatch ≡ true
      → d.release_lock ≡ false
      → d.clear_record ≡ false
      → Ensures (Noted now d) (perform aws http config store now alive d)
  unfolding perform
  perform-notes now alive d a n r c = record {
    at = λ w dropped h.
        let u = (dispatch_destroy aws http config now w).1 in
        rw (a, n, r, c, perform)
          (Noted-after now d u dropped _ refl (rw (a, n, r, c, perform) at h));
  }

  handler-Ensures :
      (fromisoformat : String → Option ℤ) (now : ℕ)
      → Ensures
          (λ (x : Sweep × Option Deleted) v. x.0.action ≡ dispatch → Noted now x.0 x.1 v)
          (handler aws http config store fromisoformat now)
  unfolding handler
  handler-Ensures fromisoformat now = Ensures-bind store.read_lock _ λ lock.
      Ensures-bind store.read_sweep _ λ last. Ensures-bind (observe aws config.prefix) _ λ alive.
        let s = decide_sweep fromisoformat alive lock last now config.grace in
        Ensures-last (perform aws http config store now alive s) (λ deleted. (s, deleted))
          (record {
            at = λ v deleted e a.
                let (n, r, c) = dispatch-notes fromisoformat alive lock last now config.grace a in
                (perform-notes now alive s a n r c).at v deleted e;
          })

  -- A run of the watchdog that returns with the decision to dispatch has deleted nothing by its
  -- own account, and its record in the store names the scope of the decision and the time of the
  -- run.
  pub handler_notes_dispatch :
      (fromisoformat : String → Option ℤ) (now : ℕ) (w : W) (d : Sweep) (dropped : Option Deleted)
      → (handler aws http config store fromisoformat now w).0 ≡ ok (d, dropped)
      → d.action ≡ dispatch
      → Noted now d dropped (handler aws http config store fromisoformat now w).1
  handler_notes_dispatch fromisoformat now w d dropped h =
      (handler-Ensures fromisoformat now).at w (d, dropped) h
