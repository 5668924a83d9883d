-- ===== src/Timeline/Pending.antt =====
-- A resource whose start no event answers.
use aws_devops_sdet_demo.Prelude.{
  Yields, Yields-chain, Yields-some, ℤ, String, ◌≡◌, sym, ap, ◌∙◌, true, false, not, ◌&&◌, Option,
  none, some, List, [], ◌∷◌, inl, inr, Bool-cases, Option-cases, Fields, get, lookup, any, all,
  all-lookup, and_left, and_right, and_false, false≢true,
}
use aws_devops_sdet_demo.Timeline.{Python, Operation, parse_ts, iso}
use aws_devops_sdet_demo.Timeline.Consume.{type_of, counted, timed, consume, consume_all}
use aws_devops_sdet_demo.Timeline.Steps.{consume-Event, name_of}
use aws_devops_sdet_demo.Timeline.Verdict.{is_complete, status, status_complete, exited_zero}
use aws_devops_sdet_demo.Timeline.Answers.{
  hears, Unanswered, Present, Step-Unanswered, Step-Present, as-Present, not-true,
}

module _ (py : Python) (a : String) where
  consume-starts :
      (event : Fields) (op : Operation)
      → hears "apply_start" a event ≡ true
      → Yields (Present a) (consume py event op)
  unfolding consume
  consume-starts event op heard = Yields-chain (type_of event) λ key typed.
      Yields-chain (parse_ts py (get "@timestamp" event))
        λ ts _. as-Present a key event (iso py ts) (timed ts (counted key op)) (rw typed at heard)

  timed-Present : (ts : Option ℤ) (op : Operation) → Present a op → Present a (timed ts op)
  timed-Present none op known = known
  timed-Present (some at) op known = known

  timed-Unanswered : (ts : Option ℤ) (op : Operation) → Unanswered a op → Unanswered a (timed ts op)
  timed-Unanswered none op undone = undone
  timed-Unanswered (some at) op undone = undone

  consume-Present :
      (event : Fields) (op : Operation) → Present a op → Yields (Present a) (consume py event op)
  consume-Present event op known = record {
    at = λ after e.
        let taken = (consume-Event py event op).at after e in
        Step-Present a (name_of taken.key) event _ _ after taken.step
          (timed-Present taken.ts (counted taken.key op) known);
  }

  consume-Unanswered :
      (event : Fields) (op : Operation)
      → hears "apply_complete" a event ≡ false
      → Unanswered a op
      → Yields (Unanswered a) (consume py event op)
  consume-Unanswered event op quiet undone = record {
    at = λ after e.
        let taken = (consume-Event py event op).at after e in
        Step-Unanswered a (name_of taken.key) event _ _ after taken.step quiet
          (timed-Unanswered taken.ts (counted taken.key op) undone);
  }

  consume_all-Present :
      (events : List Fields) (op : Operation)
      → Present a op
      → Yields (Present a) (consume_all py events op)
  unfolding consume_all
  consume_all-Present [] op known = Yields-some known
  consume_all-Present (event ∷ rest) op known =
      Yields-chain (consume py event op)
        λ mid e. consume_all-Present rest mid ((consume-Present event op known).at mid e)

  consume_all-Unanswered :
      (events : List Fields) (op : Operation)
      → all (λ e. not (hears "apply_complete" a e)) events ≡ true
      → Unanswered a op
      → Yields (Unanswered a) (consume_all py events op)
  unfolding consume_all
  consume_all-Unanswered [] op quiet undone = Yields-some undone
  consume_all-Unanswered (event ∷ rest) op quiet undone =
      Yields-chain (consume py event op) λ mid e.
        consume_all-Unanswered rest mid (and_right _ _ quiet)
          ((consume-Unanswered event op (not-true _ (and_left _ _ quiet)) undone).at mid e)

  consume_all-starts :
      (events : List Fields) (op : Operation)
      → any (hears "apply_start" a) events ≡ true
      → Yields (Present a) (consume_all py events op)
  unfolding consume_all
  consume_all-starts [] op started = absurd (false≢true started)
  consume_all-starts (event ∷ rest) op started = Yields-chain (consume py event op) λ mid e.
      elim (Bool-cases (hears "apply_start" a event)) [
        | inl here ↦ consume_all-Present rest mid ((consume-starts event op here).at mid e)
        | inr later ↦ consume_all-starts rest mid (rw later at started)
      ]

  new-Unanswered : (op : Operation) → op.resources ≡ [] → Unanswered a op
  new-Unanswered op new r e = cc (sym (ap (lookup a) new) ∙ e)

  unfinished-status :
      (op : Operation) → Present a op → Unanswered a op → is_complete (status op) ≡ false
  unfinished-status op known undone = elim (Option-cases (lookup a op.resources)) [
    | inl missing ↦ absurd (false≢true (rw missing at known))
    | inr (r, found) ↦
        status_complete op
        ∙ rw (all-lookup (λ x. is_complete x.status) a r op.resources found (undone r found)) (
            ap (λ x. exited_zero op.exit_code && x) (and_false op.saw_terminal_summary)
            ∙ and_false (exited_zero op.exit_code))
  ]

  -- Where an operation that knows no resource consumes the events of a stream, one of which is an
  -- apply_start for an address and none of which is an apply_complete for it, the operation that
  -- results is not complete, whatever exit code and summary it has.
  pub consume_all-unanswered :
      (events : List Fields) (op after : Operation)
      → op.resources ≡ []
      → any (hears "apply_start" a) events ≡ true
      → all (λ e. not (hears "apply_complete" a e)) events ≡ true
      → consume_all py events op ≡ some after
      → is_complete (status after) ≡ false
  consume_all-unanswered events op after new started quiet h =
      unfinished-status after ((consume_all-starts events op started).at after h)
        ((consume_all-Unanswered events op quiet (new-Unanswered op new)).at after h)
