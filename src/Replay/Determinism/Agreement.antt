-- ===== src/Replay/Determinism/Agreement.antt =====
-- Replays of one plan from one root agree when the environment's reset forgets what was before.
use stateweaver.Common.{
  ℕ, ◌≡◌, sym, ap, ◌∙◌, inl, inr, Option, none, some, Option-cases, List, arith, Result, ok,
}
use stateweaver.Replay.Models.{RootSeed, ReplayPlan, ReplayError}
use stateweaver.Replay.Results.{
  ReplayDigests, ReplayRunResult, ReplayActionLogEntry, deterministic_signature,
}
use stateweaver.Replay.Ports.{returned, timed_out, cancelled, raised, Ports}
use stateweaver.Replay.Steps.Recorded.{Answer-cases}
use stateweaver.Replay.Kernel.{
  RunState, reported, with_cleanup, run_plan, build_action_log, trace_of, report, replay,
}
use stateweaver.Replay.Kernel.Success.{report_inv, to_end_inv}

some_injective : {A : Type 0} {x y : A} → some x ≡ some y → x ≡ y
some_injective e = ground arith

ok_once : {A : Type 0} (x : Result ReplayError A) (a b : A) → x ≡ ok a → x ≡ ok b → a ≡ b
ok_once x a b e f = ground arith

module _ {E : Type 0} (h : ReplayDigests) (ports : Ports E) (plan : ReplayPlan)
    (root : RootSeed) where
  -- The state that is reported, from what `run_plan` left.
  abbrev settled : Option RunState × E → Option RunState
  settled x = elim x.0 [
    | none ↦ none
    | some st ↦ elim (ports.clean_up x.1).0 [
      | returned _ ↦ some (with_cleanup st none)
      | timed_out ↦ some (with_cleanup st (some ports.timeout_error))
      | raised name ↦ some (with_cleanup st (some name))
      | cancelled ↦ none
    ]
  ]

  replay-settled :
      (run_id : ℕ) (e : E) (r : ReplayRunResult)
      → (replay h ports plan root run_id e).0 ≡ reported r
      → (st : RunState) × (settled (run_plan ports plan root e) ≡ some st)
        × (report h run_id plan st ≡ ok r)
  unfolding replay
  replay-settled run_id e r q = elim (Option-cases (run_plan ports plan root e).0) [
    | inl g ↦ absurd (ground arith)
    | inr (st, g) ↦ elim (Answer-cases (ports.clean_up (run_plan ports plan root e).1).0) [
      | inl (a, c) ↦ (
        with_cleanup st none,
        ground arith,
        to_end_inv h (report h run_id plan (with_cleanup st none)) r (ground arith),
      )
      | inr (inl c) ↦ (
        with_cleanup st (some ports.timeout_error),
        ground arith,
        to_end_inv h (report h run_id plan (with_cleanup st (some ports.timeout_error))) r
            (ground arith),
      )
      | inr (inr (inl c)) ↦ absurd (ground arith)
      | inr (inr (inr (name, c))) ↦ (
        with_cleanup st (some name),
        ground arith,
        to_end_inv h (report h run_id plan (with_cleanup st (some name))) r (ground arith),
      )
    ]
  ]

  -- The signature is that of the settled state.
  signature-settled :
      (run_id : ℕ) (e : E) (r : ReplayRunResult)
      → (replay h ports plan root run_id e).0 ≡ reported r
      → (st : RunState) × (log : List ReplayActionLogEntry) × (settled (run_plan ports plan root e)
          ≡ some st)
        × (build_action_log h plan.plan_id plan.steps st.results ≡ ok log)
        × (h.run (trace_of h plan st log) ≡ deterministic_signature h r)
  signature-settled run_id e r q =
      let (st, g, made) = replay-settled run_id e r q in
      let (log, built, same) = report_inv h run_id plan st r made in
      (st, log, g, built, ap (deterministic_signature h) same)

  run_plan_forgets :
      (e e' : E)
      → plan.root_seed_id ≡ root.root_seed_id
      → ports.reset_root root e ≡ ports.reset_root root e'
      → run_plan ports plan root e ≡ run_plan ports plan root e'
  unfolding run_plan
  run_plan_forgets e e' same p = ground (arith, p)

  -- Two replays have one signature.
  pub replay_agrees :
      ((e e' : E) → ports.reset_root root e ≡ ports.reset_root root e')
      → plan.root_seed_id ≡ root.root_seed_id
      → (k k' : ℕ) (e e' : E) (r r' : ReplayRunResult)
      → (replay h ports plan root k e).0 ≡ reported r
      → (replay h ports plan root k' e').0 ≡ reported r'
      → deterministic_signature h r ≡ deterministic_signature h r'
  replay_agrees forgets same k k' e e' r r' q q' =
      let (st, log, g, b, s) = signature-settled k e r q in
      let (st', log', g', b', s') = signature-settled k' e' r' q' in
      let one_state : st ≡ st' =
        some_injective (sym g ∙ ap settled (run_plan_forgets e e' same (forgets e e')) ∙ g') in
      let one_log : log ≡ log' =
        ok_once (build_action_log h plan.plan_id plan.steps st'.results) log log'
          (sym (
              ap (λ (x : RunState). build_action_log h plan.plan_id plan.steps x.results) one_state)
            ∙ b)
          b' in
      sym s
      ∙ ap (λ (x : RunState). h.run (trace_of h plan x log)) one_state
      ∙ ap (λ x. h.run (trace_of h plan st' x)) one_log
      ∙ s'
