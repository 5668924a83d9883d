-- ===== src/Github/Inflight.antt =====
-- What the list of unfinished runs says of the runs that GitHub named.
use aws_devops_sdet_demo.Prelude.{
  ◌==◌, String, ◌≡◌, refl, inl, inr, Bool, true, false, none, some, List, [], ◌∷◌, Value, null,
  bool, int, real, str, array, object, Items, nil, cons, Fields, end, get, get?, ok-injective, sym,
  ◌+++◌, if◌then◌else◌, Outcome, ok, raised, arith, Outcome-cases, Option-cases, Bool-cases, ◌∙◌,
  ap, ◌>>=◌, lift, raise, contains,
}
use aws_devops_sdet_demo.Control.Interface.{Error}
use aws_devops_sdet_demo.Control.Decide.{Run}
use aws_devops_sdet_demo.Github.{
  Http, Reply, loaded_reply, same_status, github_error, is_in_flight, status_in_flight, keep_run,
  picked, unfinished, runs_of, in_flight_runs, workflow_url,
}

abbrev text_of : Value → String
text_of (str s) = s
text_of _ = ""

-- The statuses that the Actions API reports for a run that has not finished.
pub listed : List String
listed = "queued" ∷ "in_progress" ∷ "waiting" ∷ "requested" ∷ "pending" ∷ []

-- A run by its status: a dict with a text that is one of the five listed.
pub is_running : Value → Bool
is_running (object run) = contains (text_of (get "status" run)) listed
is_running _ = false

abbrev fields_of : Value → Fields
fields_of (object run) = run
fields_of _ = end

-- The runs whose status is listed, in the order of the list.
pub running : Items → List Run
running nil = []
running (cons run rest) =
    if is_running run then picked (fields_of run) ∷ running rest else running rest

in_flight-listed : (s : String) → is_in_flight s ≡ contains s listed
unfolding listed
in_flight-listed s = elim (Bool-cases (s == "pending")) [ inl e ↦ rw e refl | inr e ↦ rw e refl ]

status_in_flight-ok :
    (v : Value) (b : Bool) → status_in_flight v ≡ ok b → is_in_flight (text_of v) ≡ b
status_in_flight-ok (str s) b h = ok-injective h
status_in_flight-ok null b h = ok-injective h
status_in_flight-ok (bool x) b h = ok-injective h
status_in_flight-ok (int x) b h = ok-injective h
status_in_flight-ok (real x) b h = ok-injective h
status_in_flight-ok (array x) b h = cc
status_in_flight-ok (object x) b h = cc

keep_run-ok :
    (r : Outcome Error Bool) (run : Fields) (u : Outcome Error (List Run)) (runs : List Run)
    → keep_run r run u ≡ ok runs
    → (b : Bool) × (more : List Run) × (r ≡ ok b)
      × (u ≡ ok more)
      × (runs ≡ (if b then picked run ∷ more else more))
keep_run-ok (ok true) run (ok more) runs h = (true, more, refl, refl, ok-injective (sym h))
keep_run-ok (ok false) run (ok more) runs h = (false, more, refl, refl, ok-injective (sym h))
keep_run-ok (ok true) run (raised e) runs h = cc
keep_run-ok (ok false) run (raised e) runs h = cc
keep_run-ok (raised e) run u runs h = cc

unfinished-running :
    (items : Items) (runs : List Run) → unfinished items ≡ ok runs → runs ≡ running items
unfolding unfinished running is_running
unfinished-running nil runs h = ok-injective (sym h)
unfinished-running (cons (object run) rest) runs h =
    let (b, more, flag, others, e) =
      keep_run-ok (status_in_flight (get "status" run)) run (unfinished rest) runs h in
    rw
      (
        ← in_flight-listed (text_of (get "status" run)),
        status_in_flight-ok (get "status" run) b flag,
        ← unfinished-running rest more others,
      )
      e
unfinished-running (cons null rest) runs h = cc
unfinished-running (cons (bool x) rest) runs h = cc
unfinished-running (cons (int x) rest) runs h = cc
unfinished-running (cons (real x) rest) runs h = cc
unfinished-running (cons (str x) rest) runs h = cc
unfinished-running (cons (array x) rest) runs h = cc

some_value_injective : {a b : Value} → some a ≡ some b → a ≡ b
some_value_injective h = cc

runs_of_list :
    (fields : Fields) (items : Items)
    → get? "workflow_runs" fields ≡ some (array items)
    → runs_of (object fields) ≡ unfinished items
unfolding runs_of
runs_of_list fields items l = rw l refl

module _ {W : Type 0} (http : Http W) where
  abbrev after_reply : Reply → W → Outcome Error (List Run) × W
  after_reply reply = lift (loaded_reply reply reply.body) >>= λ r.
      if same_status r.0 200 then lift (runs_of r.1) else raise github_error

  after_reply-ok :
      (reply : Reply) (w : W) (runs : List Run)
      → (after_reply reply w).0 ≡ ok runs
      → (reply.status ≡ 200) × (v : Value) × (reply.body ≡ some v) × (runs_of v ≡ ok runs)
  after_reply-ok reply w runs h = elim (Option-cases reply.body) [
    | inl missing ↦ cc (rw missing at h)
    | inr (v, there) ↦ elim (Bool-cases (same_status reply.status 200)) [
      | inl good ↦ (ground arith, v, there, rw (there, good) at h)
      | inr bad ↦ cc (rw (there, bad) at h)
    ]
  ]

  abbrev pub asked : Value → String → String → String → W → Outcome String Reply
  asked token owner repo workflow w =
      (http.urlopen "GET" (workflow_url owner repo workflow +++ "/runs?per_page=10") token none w).0

  in_flight_runs-answered :
      (token : Value) (owner repo workflow : String) (w : W) (runs : List Run)
      → (in_flight_runs http token owner repo workflow w).0 ≡ ok runs
      → (reply : Reply) × (asked token owner repo workflow w ≡ ok reply)
        × (reply.status ≡ 200)
        × ((fields : Fields) (items : Items)
            → reply.body ≡ some (object fields)
            → get? "workflow_runs" fields ≡ some (array items)
            → runs ≡ running items)
  unfolding in_flight_runs
  in_flight_runs-answered token owner repo workflow w runs h =
      elim (Outcome-cases (asked token owner repo workflow w)) [
        | inr (x, e) ↦ cc (rw (e, in_flight_runs) at h)
        | inl (reply, e) ↦
            let (good, v, there, read) =
              after_reply-ok reply _ runs (rw (e, in_flight_runs) at h) in
            (
              reply,
              e,
              good,
              λ fields items b l. unfinished-running items runs (
                  sym (runs_of_list fields items l)
                  ∙ ap runs_of (some_value_injective (sym b ∙ there))
                  ∙ read),
            )
      ]

  -- Where GitHub's answer names the runs in a list and the list of runs comes back, the answer's status
  -- was 200, and what comes back is those of them whose status is one of the five listed, in order, with
  -- the five fields; a run with any other status, one that the list does not know included, is left out
  -- as if it had finished.
  pub in_flight_runs_lem :
      (token : Value) (owner repo workflow : String) (w : W) (runs : List Run) (reply : Reply)
      (fields : Fields) (items : Items)
      → asked token owner repo workflow w ≡ ok reply
      → reply.body ≡ some (object fields)
      → get? "workflow_runs" fields ≡ some (array items)
      → (in_flight_runs http token owner repo workflow w).0 ≡ ok runs
      → (reply.status ≡ 200) × (runs ≡ running items)
  in_flight_runs_lem token owner repo workflow w runs reply fields items a b l h =
      let (answered, e, good, read) = in_flight_runs-answered token owner repo workflow w runs h in
      let same = ok-injective (sym e ∙ a) in
      (ap (λ r. r.status) (sym same) ∙ good, read fields items (ap (λ r. r.body) same ∙ b) l)
