-- ===== src/Replay/Kernel/Valid.antt =====
-- The result that `replay` makes passes the check of `ReplayRunResult`.
use stateweaver.Common.{
  ℕ, ◌≡◌, refl, sym, ap, subst, ◌∙◌, ◌⊎◌, inl, inr, if◌then◌else◌, Bool, true, false, Bool-cases,
  Option, none, some, List, [], ◌∷◌, ◌++◌, arith, In, Distinct, Result, ok, unique, unique_iff,
  text_eq, any, all, In-append, append-In,
}
use stateweaver.Replay.Models.{
  ReplayStep, ReplayPlan, ReplayStepResult, ReplayError, step_ids, is_reserved, is_passed,
}
use stateweaver.Replay.Results.{
  ReplayActionLogEntry, ReplayRunStatus, succeeded, run_failed, root_diverged, cleanup_failed,
  ReplayDigests, ReplayRunResult, result_ids, log_ids, action_ids, failed_steps, check_success,
  check_failure, check_log, validate_run, is_succeeded, is_cleanup, is_cleanup_failed,
  is_root_failure,
}
use stateweaver.Replay.Steps.Recorded.{Follows, finish, pass, halt}
use stateweaver.Replay.Kernel.{RunState, build_action_log, run_result, report}
use stateweaver.Replay.Kernel.Logged.{
  Found, entries, build-Found, build_absent, entries-ids, log_checks, find_absent, find_present,
  text_eq_refl,
}

pub result_ids-append :
    (xs ys : List ReplayStepResult) → result_ids (xs ++ ys) ≡ result_ids xs ++ result_ids ys
result_ids-append [] ys = refl
result_ids-append (x ∷ xs) ys = ap (λ z. x.step_id ∷ z) (result_ids-append xs ys)

pub failed_steps-append :
    (xs ys : List ReplayStepResult) → failed_steps (xs ++ ys) ≡ failed_steps xs ++ failed_steps ys
unfolding failed_steps
failed_steps-append [] ys = refl
failed_steps-append (x ∷ xs) ys = ground (arith, failed_steps-append xs ys)

pub any_none :
    {A : Type 0} (p : A → Bool) (xs : List A) (a : A) → any p xs ≡ false → In a xs → p a ≡ false
any_none p [] a e i = absurd i
any_none p (x ∷ xs) a e (inl q) = ap p q ∙ ground arith
any_none p (x ∷ xs) a e (inr i) = any_none p xs a (ground arith) i

pub Distinct-snoc : (k : ℕ) (xs : List ℕ) → Distinct xs → ¬ In k xs → Distinct (xs ++ k ∷ [])
Distinct-snoc k [] d n = (λ i. i, tt)
Distinct-snoc k (x ∷ xs) (m, d) n = (
  λ i. elim (In-append x xs (k ∷ []) i) [
    | inl j ↦ m j
    | inr j ↦ elim j [ inl e ↦ n (inl (sym e)) | inr l ↦ l ]
  ],
  Distinct-snoc k xs d (λ i. n (inr i)),
)

-- Only steps of the plan have results of their own: the rest are boundaries.
action_ids_free :
    (rs tail : List ReplayStepResult)
    → ((k : ℕ) → In k (result_ids rs) → is_reserved k ≡ false)
    → action_ids tail ≡ []
    → action_ids (rs ++ tail) ≡ result_ids rs
unfolding action_ids
action_ids_free [] tail f t = t
action_ids_free (r ∷ rs) tail f t =
    ground (arith, f r.step_id (inl refl), action_ids_free rs tail (λ k i. f k (inr i)) t)

Found-ids :
    (h : ReplayDigests) (plan : ℕ) (all_results : List ReplayStepResult) (ss : List ReplayStep)
    (rs : List ReplayStepResult)
    → result_ids rs ≡ step_ids ss
    → ((r : ReplayStepResult) → In r rs → In r all_results)
    → Distinct (result_ids all_results)
    → Found h plan all_results ss rs
Found-ids h plan R [] [] e i d = tt
Found-ids h plan R [] (r ∷ rs) e i d = absurd (ground arith)
Found-ids h plan R (s ∷ ss) [] e i d = absurd (ground arith)
Found-ids h plan R (s ∷ ss) (r ∷ rs) e i d = (
  ground (arith, find_present r R d (i r (inl refl))),
  Found-ids h plan R ss rs (ground arith) (λ x j. i x (inr j)) d,
)

pub Follows-passed :
    {ss : List ReplayStep} {rs : List ReplayStepResult} {f : Option ℕ}
    → Follows ss rs f
    → f ≡ none
    → all (λ (x : ReplayStepResult). is_passed x.status) rs ≡ true
Follows-passed finish e = refl
Follows-passed (pass p a x rest) e = ground (arith, Follows-passed rest e)
Follows-passed (halt p a) e = absurd (ground arith)

status-cases :
    (x : ReplayRunStatus)
    → (x ≡ succeeded) ⊎ (x ≡ run_failed) ⊎ (x ≡ root_diverged) ⊎ (x ≡ cleanup_failed)
status-cases succeeded = inl refl
status-cases run_failed = inr (inl refl)
status-cases root_diverged = inr (inr (inl refl))
status-cases cleanup_failed = inr (inr (inr refl))

module _ (h : ReplayDigests) (run_id : ℕ) (plan : ReplayPlan) (st : RunState) where
  abbrev pub verdict : ReplayRunResult → Result ReplayError (Unit {0})
  verdict r = if is_succeeded r.status then check_success h r else check_failure h r

  -- A log that is built and passes the checks that a result makes of it.
  abbrev pub Logs : Type 0
  Logs =
      (log : List ReplayActionLogEntry) × (build_action_log h plan.plan_id plan.steps st.results
        ≡ ok log)
      × (unique (log_ids log) ≡ true)
      × (text_eq (log_ids log) (action_ids st.results) ≡ true)
      × (check_log h plan.plan_id st.results log ≡ ok tt)

  pub report_passes :
      (l : Logs)
      → unique (result_ids st.results) ≡ true
      → verdict (run_result h run_id plan st l.0) ≡ ok tt
      → any is_cleanup (failed_steps st.results) ≡ is_cleanup_failed h st.status
      → report h run_id plan st ≡ ok (run_result h run_id plan st l.0)
  unfolding report validate_run
  report_passes (log, b, u, t, c) d v k = elim (Bool-cases (is_cleanup_failed h st.status)) [
    | inl q ↦ ground arith
    | inr q ↦ ground arith
  ]

  pub failing_verdict :
      (log : List ReplayActionLogEntry) (x : ReplayStepResult) (xs : List ReplayStepResult)
      → failed_steps st.results ≡ x ∷ xs
      → st.failed_step_id ≡ some x.step_id
      → is_succeeded st.status ≡ false
      → (st.status ≡ root_diverged → is_root_failure x ≡ true)
      → verdict (run_result h run_id plan st log) ≡ ok tt
  failing_verdict log x xs e i s r = elim (status-cases st.status) [
    | inl q ↦ absurd (ground arith)
    | inr (inl q) ↦ ground arith
    | inr (inr (inl q)) ↦ ground (arith, r q)
    | inr (inr (inr q)) ↦ ground arith
  ]

  pub logs_ran :
      (rs tail : List ReplayStepResult)
      → st.results ≡ rs ++ tail
      → result_ids rs ≡ step_ids plan.steps
      → Distinct (result_ids st.results)
      → Distinct (step_ids plan.steps)
      → ((k : ℕ) → In k (step_ids plan.steps) → is_reserved k ≡ false)
      → action_ids tail ≡ []
      → Logs
  logs_ran rs tail made same d ds free t =
      let found =
        Found-ids h plan.plan_id st.results plan.steps rs same
          (λ r i. subst (In r) (sym made) (append-In r rs tail (inl i))) d in
      let ids = entries-ids h plan.plan_id st.results plan.steps rs found in
      let actions =
        ap action_ids made
        ∙ action_ids_free rs tail (λ k i. free k (subst (In k) same i)) t
        ∙ same in
      (
        entries h plan.plan_id st.results plan.steps rs,
        build-Found h plan.plan_id st.results plan.steps rs found,
        rw ids ((unique_iff (step_ids plan.steps)).1 ds),
        rw ids (rw actions (text_eq_refl (step_ids plan.steps))),
        log_checks h plan.plan_id st.results plan.steps rs found,
      )

  pub logs_boundary :
      ((k : ℕ) → In k (result_ids st.results) → is_reserved k ≡ true)
      → ((k : ℕ) → In k (step_ids plan.steps) → is_reserved k ≡ false)
      → action_ids st.results ≡ []
      → Logs
  unfolding unique text_eq check_log
  logs_boundary reserved free t = (
    [],
    build_absent h plan.plan_id st.results plan.steps
        (λ k i. find_absent k st.results (λ j. absurd (ground (arith, reserved k j, free k i)))),
    refl,
    rw t refl,
    refl,
  )
