-- ===== src/Replay/Kernel/Reports.antt =====
-- Every state that a run of a plan can leave makes a result that passes the check of `ReplayRunResult`.
use stateweaver.Common.{
  ℕ, ◌≡◌, refl, sym, ap, subst, ◌∙◌, ◌⊎◌, inl, inr, true, false, Option, none, some, List, [], ◌∷◌,
  ◌++◌, arith, In, Distinct, ok, unique, contains, unique_iff, any, is_empty, ◌≤◌,
}
use mathlib.Core.List.{append-nil}
use stateweaver.Replay.Captures.{StateCapture}
use stateweaver.Replay.Models.{
  ReplayStep, ReplayPlan, ReplayStepResult, step_ids, is_reserved, validate_plan, cleanup_step,
  FailureCode, cleanup_failure, FailureMessage, raised_by,
}
use stateweaver.Replay.Results.{
  ReplayRunStatus, run_failed, root_diverged, ReplayDigests, ReplayRunResult, result_ids,
  action_ids, failed_steps, is_cleanup, is_root_failure, is_succeeded, is_cleanup_failed,
}
use stateweaver.Replay.Steps.Recorded.{Follows, finish, pass, halt, Follows-ids, Follows-Fails}
use stateweaver.Replay.Kernel.{RunState, boundary, halted, status_of, with_cleanup, report}
use stateweaver.Replay.Kernel.Valid.{
  any_none, Distinct-snoc, failed_steps-append, result_ids-append, Follows-passed, Logs,
  report_passes, failing_verdict, logs_ran, logs_boundary,
}

plan_inv :
    (plan : ReplayPlan)
    → validate_plan plan ≡ ok plan
    → (is_empty plan.steps ≡ false)
      × (any is_reserved (step_ids plan.steps) ≡ false)
      × (unique (step_ids plan.steps) ≡ true)
unfolding validate_plan
plan_inv plan v = ground arith

Follows-In :
    {ss : List ReplayStep} {rs : List ReplayStepResult} {f : Option ℕ} (k : ℕ)
    → Follows ss rs f
    → f ≡ some k
    → In k (step_ids ss)
Follows-In k finish e = absurd (ground arith)
Follows-In k (pass p a x rest) e = inr (Follows-In k rest e)
Follows-In k (halt p a) e = inl (ground arith)

-- The states that `run_plan` leaves: after the steps, from a capture with the pinned fingerprint, or after a boundary that failed.
pub data Left (plan : ReplayPlan) (pinned : ℕ) : RunState → Type 0 where
  ran_left :
      (rs : List ReplayStepResult) (f : Option ℕ) (root final : StateCapture)
      → root.fingerprint ≡ pinned
      → Follows plan.steps rs f
      → Left plan pinned (record {
        results = rs;
        root_capture = some root;
        final_capture = some final;
        status = status_of f;
        failed_step_id = f;
      })
  halted_left :
      (k : ℕ) (fingerprint : Option ℕ) (code : FailureCode) (message : FailureMessage)
      (c : Option StateCapture) (status : ReplayRunStatus)
      → k ≤ 2
      → (status ≡ run_failed)
        ⊎ ((status ≡ root_diverged)
            × (is_root_failure (boundary k fingerprint code message) ≡ true))
      → Left plan pinned (halted (boundary k fingerprint code message) c status)

module _ (h : ReplayDigests) (run_id : ℕ) (plan : ReplayPlan)
    (valid : validate_plan plan ≡ ok plan) where
  abbrev pub Reportable : RunState → Type 0
  Reportable st = (r : ReplayRunResult) × (report h run_id plan st ≡ ok r)

  free : (k : ℕ) → In k (step_ids plan.steps) → is_reserved k ≡ false
  free k i =
      let (some_steps, unreserved, different) = plan_inv plan valid in
      any_none is_reserved (step_ids plan.steps) k unreserved i

  apart : Distinct (step_ids plan.steps)
  apart =
      let (some_steps, unreserved, different) = plan_inv plan valid in
      (unique_iff (step_ids plan.steps)).0 different

  nonempty :
      (rs : List ReplayStepResult) (ss : List ReplayStep)
      → result_ids rs ≡ step_ids ss
      → is_empty ss ≡ false
      → is_empty rs ≡ false
  nonempty [] [] e n = n
  nonempty [] (s ∷ ss) e n = absurd (ground arith)
  nonempty (r ∷ rs) ss e n = refl

  module _ (rs : List ReplayStepResult) (root final : StateCapture) where
    abbrev after_run : Option ℕ → RunState
    after_run f = record {
      results = rs;
      root_capture = some root;
      final_capture = some final;
      status = status_of f;
      failed_step_id = f;
    }

    ran_ids : (f : Option ℕ) → Follows plan.steps rs f → Distinct (result_ids rs)
    ran_ids f run = subst Distinct (sym (Follows-ids run)) apart

    not_cleanup :
        (k : ℕ) (x : ReplayStepResult)
        → Follows plan.steps rs (some k)
        → x.step_id ≡ k
        → is_cleanup x ≡ false
    not_cleanup k x run e = ground (arith, free k (Follows-In k run refl))

    ran_logs : (f : Option ℕ) → Follows plan.steps rs f → Logs h run_id plan (after_run f)
    unfolding action_ids
    ran_logs f run =
        logs_ran h run_id plan (after_run f) rs [] (sym (append-nil rs)) (Follows-ids run)
          (ran_ids f run) apart free refl

    ran_reports : (f : Option ℕ) → Follows plan.steps rs f → Reportable (after_run f)
    ran_reports none run =
        let (some_steps, unreserved, different) = plan_inv plan valid in
        (
          _,
          report_passes h run_id plan (after_run none) (ran_logs none run)
              ((unique_iff (result_ids rs)).1 (ran_ids none run))
              (ground (
                arith,
                nonempty rs plan.steps (Follows-ids run) some_steps,
                Follows-passed run refl,
              ))
              (ap (any is_cleanup) (Follows-Fails run)),
        )
    ran_reports (some k) run =
        let (x, e, i) = Follows-Fails run in
        (
          _,
          report_passes h run_id plan (after_run (some k)) (ran_logs (some k) run)
              ((unique_iff (result_ids rs)).1 (ran_ids (some k) run))
              (failing_verdict h run_id plan (after_run (some k)) (ran_logs (some k) run).0 x [] e
                (ap some (sym i)) refl (λ q. absurd (ground arith)))
              (ground (arith, ap (any is_cleanup) e, not_cleanup k x run i)),
        )

    abbrev cleanup_result : ℕ → ReplayStepResult
    cleanup_result name = boundary cleanup_step none cleanup_failure (raised_by name)

    cleaned_ids :
        (f : Option ℕ) (name : ℕ)
        → Follows plan.steps rs f
        → Distinct (result_ids (rs ++ cleanup_result name ∷ []))
    cleaned_ids f name run =
        subst Distinct (sym (result_ids-append rs (cleanup_result name ∷ []))) (
          Distinct-snoc cleanup_step (result_ids rs) (ran_ids f run)
            (λ i. ground (arith, free cleanup_step (subst (In cleanup_step) (Follows-ids run) i))))

    cleaned_logs :
        (f : Option ℕ) (name : ℕ)
        → Follows plan.steps rs f
        → Logs h run_id plan (with_cleanup (after_run f) (some name))
    unfolding with_cleanup action_ids
    cleaned_logs f name run =
        logs_ran h run_id plan (with_cleanup (after_run f) (some name)) rs
          (cleanup_result name ∷ []) refl (Follows-ids run) (cleaned_ids f name run) apart free refl

    cleaned_failures :
        (name : ℕ) (xs : List ReplayStepResult)
        → failed_steps rs ≡ xs
        → failed_steps (rs ++ cleanup_result name ∷ []) ≡ xs ++ cleanup_result name ∷ []
    unfolding failed_steps
    cleaned_failures name xs e =
        failed_steps-append rs (cleanup_result name ∷ [])
        ∙ ap (λ z. z ++ cleanup_result name ∷ []) e

    cleaned_reports :
        (f : Option ℕ) (name : ℕ)
        → Follows plan.steps rs f
        → Reportable (with_cleanup (after_run f) (some name))
    unfolding with_cleanup
    cleaned_reports none name run =
        let st = with_cleanup (after_run none) (some name) in
        let e = cleaned_failures name [] (Follows-Fails run) in
        (
          _,
          report_passes h run_id plan st (cleaned_logs none name run)
              ((unique_iff (result_ids st.results)).1 (cleaned_ids none name run))
              (failing_verdict h run_id plan st (cleaned_logs none name run).0 (cleanup_result name)
                [] e refl refl (λ q. absurd (ground arith)))
              (ap (any is_cleanup) e),
        )
    cleaned_reports (some k) name run =
        let st = with_cleanup (after_run (some k)) (some name) in
        let (x, fails, i) = Follows-Fails run in
        let e = cleaned_failures name (x ∷ []) fails in
        (
          _,
          report_passes h run_id plan st (cleaned_logs (some k) name run)
              ((unique_iff (result_ids st.results)).1 (cleaned_ids (some k) name run))
              (failing_verdict h run_id plan st (cleaned_logs (some k) name run).0 x
                (cleanup_result name ∷ []) e (ap some (sym i)) refl (λ q. absurd (ground arith)))
              (ap (any is_cleanup) e ∙ ground arith),
        )

  module _ (k : ℕ) (p : Option ℕ) (code : FailureCode) (m : FailureMessage)
      (c : Option StateCapture) (status : ReplayRunStatus) (low : k ≤ 2) where
    abbrev stopped_at : RunState
    stopped_at = halted (boundary k p code m) c status

    halted_logs : Logs h run_id plan stopped_at
    unfolding action_ids
    halted_logs = logs_boundary h run_id plan stopped_at (λ j i. ground arith) free (ground arith)

    halted_cleaned_logs : (name : ℕ) → Logs h run_id plan (with_cleanup stopped_at (some name))
    unfolding with_cleanup action_ids
    halted_cleaned_logs name =
        logs_boundary h run_id plan (with_cleanup stopped_at (some name)) (λ j i. ground arith) free
          (ground arith)

    abbrev Stops : Type 0
    Stops =
        (status ≡ run_failed)
        ⊎ ((status ≡ root_diverged) × (is_root_failure (boundary k p code m) ≡ true))

    stops : Stops → is_succeeded status ≡ false
    stops s = ground arith

    root_stops : Stops → status ≡ root_diverged → is_root_failure (boundary k p code m) ≡ true
    root_stops s e = ground arith

    stops_uncleaned :
        Stops → any is_cleanup (failed_steps stopped_at.results) ≡ is_cleanup_failed h status
    unfolding failed_steps
    stops_uncleaned s = ground arith

    halted_reports :
        (status ≡ run_failed)
          ⊎ ((status ≡ root_diverged) × (is_root_failure (boundary k p code m) ≡ true))
        → Reportable stopped_at
    unfolding failed_steps unique
    halted_reports s = (
      _,
      report_passes h run_id plan stopped_at halted_logs refl
          (failing_verdict h run_id plan stopped_at halted_logs.0 (boundary k p code m) [] refl refl
            (stops s) (root_stops s))
          (stops_uncleaned s),
    )

    halted_cleaned :
        (name : ℕ)
        → (status ≡ run_failed)
          ⊎ ((status ≡ root_diverged) × (is_root_failure (boundary k p code m) ≡ true))
        → Reportable (with_cleanup stopped_at (some name))
    unfolding with_cleanup failed_steps unique contains
    halted_cleaned name s =
        let st = with_cleanup stopped_at (some name) in
        (
          _,
          report_passes h run_id plan st (halted_cleaned_logs name) (ground arith)
              (failing_verdict h run_id plan st (halted_cleaned_logs name).0 (boundary k p code m)
                (boundary cleanup_step none cleanup_failure (raised_by name) ∷ []) refl refl refl
                (λ q. absurd (ground arith)))
              (ground arith),
        )

  pub Left-reports :
      (st : RunState) (pinned : ℕ) (o : Option ℕ)
      → Left plan pinned st
      → Reportable (with_cleanup st o)
  unfolding with_cleanup
  Left-reports st pinned none (ran_left rs f root final same run) = ran_reports rs root final f run
  Left-reports st pinned (some name) (ran_left rs f root final same run) =
      cleaned_reports rs root final f name run
  Left-reports st pinned none (halted_left k p code m c status b s) =
      halted_reports k p code m c status b s
  Left-reports st pinned (some name) (halted_left k p code m c status b s) =
      halted_cleaned k p code m c status b name s
