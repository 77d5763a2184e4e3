-- ===== src/Replay/Determinism.antt =====
-- `verify_determinism` of packages/replay/src/stateweaver/replay/kernel.py and its report of
-- packages/replay/src/stateweaver/replay/models.py.
pub mod Agreement
pub mod Reported
use stateweaver.Common.{
  ℕ, Bool, true, false, not, ◌&&◌, ◌||◌, Option, none, some, List, [], ◌∷◌, map, Result, ok, err,
  raise_if, ◌>>=◌, ◌>>◌, ◌==◌, ltb, all, length, unique, is_some, if◌then◌else◌,
}
use stateweaver.Replay.Models.{
  ReplayError, RootSeed, ReplayPlan, too_few_runs, runs_repeat, lengths_differ, success_differs,
  flag_differs, classification_differs, divergent_run_absent, divergent_run_differs,
}
use stateweaver.Replay.Results.{
  ReplayRunStatus, ReplayDigests, ReplayRunResult, deterministic_signature, is_succeeded,
  same_option,
}
use stateweaver.Replay.Ports.{Ports}
use stateweaver.Replay.Kernel.{End, reported, invalid, interrupted, replay, to_end}

pub data DeterminismClassification : Type 0 where
  deterministic_class nondeterministic_class : DeterminismClassification

pub record DeterminismReport : Type 0 where
  pub plan_id : ℕ
  pub run_ids : List ℕ
  pub run_statuses : List ReplayRunStatus
  pub signatures : List ℕ
  pub deterministic : Bool
  pub all_runs_succeeded : Bool
  pub classification : DeterminismClassification
  pub divergent_run_id : Option ℕ

abbrev pub classify : Bool → DeterminismClassification
classify true = deterministic_class
classify false = nondeterministic_class

abbrev same_class : DeterminismClassification → DeterminismClassification → Bool
same_class deterministic_class deterministic_class = true
same_class nondeterministic_class nondeterministic_class = true
same_class _ _ = false

abbrev same_flag : Bool → Bool → Bool
same_flag true b = b
same_flag false b = not b

-- The run of the first signature that is not the reference.
unfoldable pub first_divergent : ℕ → List ℕ → List ℕ → Option ℕ
first_divergent reference [] ids = none
first_divergent reference (s ∷ ss) [] = none
first_divergent reference (s ∷ ss) (k ∷ ks) =
    let rest = first_divergent reference ss ks in if s == reference then rest else some k

-- `len(set(signatures)) == 1`, or there is none.
abbrev pub all_one : List ℕ → Bool
all_one [] = true
all_one (s ∷ ss) = all (λ x. x == s) ss

abbrev pub divergence : List ℕ → List ℕ → Option ℕ
divergence [] ids = none
divergence (s ∷ ss) ids = first_divergent s (s ∷ ss) ids

-- `classification_matches_boolean`.
unfoldable pub validate_report : DeterminismReport → Result ReplayError DeterminismReport
validate_report r = do
  raise_if
      (ltb (length r.run_ids) 2 || ltb (length r.run_statuses) 2 || ltb (length r.signatures) 2)
      too_few_runs
  raise_if
      (not (length r.run_ids == length r.run_statuses)
        || not (length r.run_ids == length r.signatures))
      lengths_differ
  raise_if (not (unique r.run_ids)) runs_repeat
  raise_if (not (same_flag r.all_runs_succeeded (all is_succeeded r.run_statuses))) success_differs
  raise_if (not (same_flag r.deterministic (all_one r.signatures))) flag_differs
  raise_if (not (same_class r.classification (classify r.deterministic))) classification_differs
  raise_if (not (same_flag r.deterministic (not (is_some r.divergent_run_id)))) divergent_run_absent
  raise_if
      (not r.deterministic
        && not (same_option r.divergent_run_id (divergence r.signatures r.run_ids)))
      divergent_run_differs
  ok r

module _ (h : ReplayDigests) where
  abbrev and_then : ReplayRunResult → End (List ReplayRunResult) → End (List ReplayRunResult)
  and_then r (reported rs) = reported (r ∷ rs)
  and_then r (invalid x) = invalid x
  and_then r interrupted = interrupted

  -- The replays, one after the other.
  unfoldable pub replay_all :
      {E : Type 0} → Ports E → ReplayPlan → RootSeed → List ℕ → E → End (List ReplayRunResult) × E
  replay_all ports plan root [] e = (reported [], e)
  replay_all ports plan root (k ∷ ks) e =
      let (run, e') = replay h ports plan root k e in
      elim run [
        | reported r ↦
            (let (rest, e'') = replay_all ports plan root ks e' in (and_then r rest, e''))
        | invalid x ↦ (invalid x, e')
        | interrupted ↦ (interrupted, e')
      ]

  abbrev pub signatures_of : List ReplayRunResult → List ℕ
  signatures_of = map (deterministic_signature h)

  abbrev pub statuses_of : List ReplayRunResult → List ReplayRunStatus
  statuses_of = map (λ (r : ReplayRunResult). r.status)

  abbrev pub determinism_report : ReplayPlan → List ℕ → List ReplayRunResult → DeterminismReport
  determinism_report plan ids runs =
      let divergent = divergence (signatures_of runs) ids in
      record {
        plan_id = plan.plan_id;
        run_ids = ids;
        run_statuses = statuses_of runs;
        signatures = signatures_of runs;
        deterministic = not (is_some divergent);
        all_runs_succeeded = all is_succeeded (statuses_of runs);
        classification = classify (not (is_some divergent));
        divergent_run_id = divergent;
      }

  -- `verify_determinism`; its own errors precede the first replay.
  unfoldable pub verify_determinism :
      {E : Type 0} → Ports E → ReplayPlan → RootSeed → List ℕ → E → End DeterminismReport × E
  verify_determinism ports plan root ids e =
      if ltb (length ids) 2
      then (invalid too_few_runs, e)
      else if not (unique ids)
      then (invalid runs_repeat, e)
      else let (runs, e') = replay_all ports plan root ids e in
        elim runs [
          | reported rs ↦ (to_end h (validate_report (determinism_report plan ids rs)), e')
          | invalid x ↦ (invalid x, e')
          | interrupted ↦ (interrupted, e')
        ]
