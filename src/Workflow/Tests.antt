-- ===== src/Workflow/Tests.antt =====
-- A batch of two candidates and allocators that count, and the theorems at them.
use stateweaver.Common.{
  ℕ, suc, ◌≡◌, ◌≤◌, ◌+◌, ◌++◌, refl, true, false, none, some, List, [], ◌∷◌, ok, length,
}
use stateweaver.Search.Budget.{
  WorldTier-discrete, tier_limit, tier_count, sum_of, count_of, usage, fits, can_reserve,
  contiguous_from, keys_unique, validate_ledger, validate_reservation, reserve,
}
use stateweaver.Search.Models.{
  ReasonCode-discrete, ScoreSource-discrete, validate_scores, validate_gates, width, reasons_unique,
  validate_decision,
}
use stateweaver.Search.Controller.{
  next_tier, without, from_keys, evidence_bound, materialized_reasons, common_reasons, gate_reasons,
  ranks_before, insert_ranked, ranked, pruned, promotion,
}
use stateweaver.Search.Beam.{
  costs_at_most, winner_of, diverse, diverse_order, insert_candidate, by_identifier, validate_batch,
  deduplicate, select_one, select, gated,
}
use stateweaver.Search.Selection.{
  record_all, canonical_decisions, promoted_ids, ordered, reservation_table, validate_result,
  decide_all, advance,
}
use stateweaver.Workflow.Models.{
  AllocatedWorld-discrete, validate_capture_receipt, validate_promotion,
}
use stateweaver.Workflow.Relations.{
  BudgetLimits-discrete, PromotionCost-discrete, BudgetReservation-discrete, same_history,
  reservations_by, candidates_by, decisions_by, promoting, check_provisional, check_promotions,
  check_committed, validate_relations, SearchDecision-discrete, SearchResult-discrete,
  create_result,
}
use stateweaver.Workflow.State.{
  workflow_gate, validate_allocation, accepts_capture, retain_cleanup, retain_all, find_accepted,
  remove_accepted, validate_reservations, open_workflow,
}
use stateweaver.Workflow.Allocation.{
  after_release, release_after_failure, release_uncommitted, handle_collision, handle_failure,
  after_capture, after_allocate, promote_one, promote_all,
}
use stateweaver.Workflow.Advance.{get_last, commit_all, settle, promote_batch}
use stateweaver.Workflow.Closing.{
  retain_close_item, retain_items, replace_retained, close_all, close,
}
use stateweaver.Workflow.Calls.{perform, run_calls}
use stateweaver.Common.{contains, unique, ℕ_discrete}
use stateweaver.Common.Dict.{insert, lookup}
use stateweaver.Replay.Ports.{returned, raised, cancelled}
use stateweaver.Search.Budget.{
  replay, simulated, BudgetLimits, BudgetLedger, BudgetReservation, no_cost,
}
use stateweaver.Search.Models.{
  ScoreSignal, SearchScores, PromotionGates, SearchCandidate, BeamSearchPolicy, deterministic,
  allow,
}
use stateweaver.Search.Controller.{Digests}
use stateweaver.Search.Selection.{SearchResult}
use stateweaver.Workflow.Models.{PromotionRunContext, AllocatedWorld, WorldPorts}
use stateweaver.Workflow.Relations.{WorkflowResult}
use stateweaver.Workflow.State.{Workflow}
use stateweaver.Workflow.Allocation.{goes_on}
use stateweaver.Workflow.Advance.{End, promotes, refused, interrupted}
use stateweaver.Workflow.Trail.{recording, times}
use stateweaver.Search.Budget.Binding.{IsCollisionFree}
use stateweaver.Workflow.Sound.{IsSound}
use stateweaver.Workflow.Closing.Released.{close_empties}
use stateweaver.Workflow.Promotions.{ArePromoted}
use stateweaver.Workflow.Promotions.Returned.{promote_batch-ArePromoted}
use stateweaver.Workflow.Total.{EndsWell, promote_batch-EndsWell}
use stateweaver.Workflow.Calls.{
  advances, closes, fresh_trail, open_workflow-IsSound, run_calls-IsSound, promote_batch_cancelled,
}

-- On an `unfolding` line this opens the code.
engine : Unit {0}
unfolding WorldTier-discrete tier_limit tier_count sum_of count_of usage fits can_reserve
    contiguous_from keys_unique validate_ledger validate_reservation reserve ReasonCode-discrete
    ScoreSource-discrete validate_scores validate_gates width reasons_unique validate_decision
    next_tier without from_keys evidence_bound materialized_reasons common_reasons gate_reasons
    ranks_before insert_ranked ranked pruned promotion costs_at_most winner_of diverse diverse_order
    insert_candidate by_identifier validate_batch deduplicate select_one select gated record_all
    decisions_by canonical_decisions promoted_ids ordered reservation_table validate_result
    decide_all advance AllocatedWorld-discrete validate_capture_receipt validate_promotion
    BudgetLimits-discrete PromotionCost-discrete BudgetReservation-discrete same_history
    reservations_by candidates_by promoting check_provisional check_promotions check_committed
    validate_relations SearchDecision-discrete SearchResult-discrete create_result workflow_gate
    validate_allocation accepts_capture retain_cleanup retain_all find_accepted remove_accepted
    validate_reservations open_workflow after_release release_after_failure release_uncommitted
    handle_collision handle_failure after_capture after_allocate promote_one promote_all get_last
    commit_all settle promote_batch retain_close_item retain_items replace_retained close_all close
    perform run_calls contains unique ℕ_discrete insert lookup
engine = tt

abbrev digests : Digests
digests = record {
  priority = λ s u b. s.fidelity.value;
  tie_digest = λ seed k. k;
  reservation_id = λ c t n k. n;
}

digests_free : IsCollisionFree digests.reservation_id
digests_free c t n k c' t' n' k' e = e

abbrev signal : ℕ → ScoreSignal
signal n = record { value = n; source = deterministic }

abbrev scores : SearchScores
scores = record {
  boundary_impact = signal 1;
  information_gain = signal 1;
  novelty = signal 1;
  composability = signal 1;
  fidelity = signal 6;
  reachability = signal 1;
  normalized_cost = signal 1;
  operational_risk = signal 1;
}

abbrev gates : PromotionGates
gates = record {
  in_scope = true;
  policy_outcome = allow;
  policy_decision_ref = 1;
  approval_ref = none;
  reversible = true;
  action_plan_refs = [];
  expected_observations = [];
  oracle_refs = 8 ∷ [];
  evidence_ids = 7 ∷ [];
  required_capabilities = [];
  available_capabilities = [];
  snapshot_capable = false;
  new_fact_count = 1;
  calibration_path = false;
  repeated_nondeterminism = 0;
}

abbrev candidate : ℕ → SearchCandidate
candidate k = record {
  candidate_id = k;
  tier = replay;
  state_fingerprint = 10 + k;
  diversity_key = k;
  scores = scores;
  uncertainty = signal 0;
  transition_fragments = [];
  gates = gates;
  promotion_cost = record no_cost { target_requests = 1 };
}

abbrev beam_policy : BeamSearchPolicy
beam_policy = record {
  seed = 1;
  replay_width = 2;
  simulated_width = 2;
  materialized_width = 1;
  uncertainty_bonus = 0;
  minimum_fidelity = 2;
  repeated_nondeterminism_limit = 2;
}

abbrev run_context : PromotionRunContext
run_context = record { experiment_id = 1; run_id = 1; recorded_at = 0 }

abbrev limits : BudgetLimits
limits = record {
  max_llm_calls = 0;
  max_target_requests = 3;
  max_write_requests = 0;
  max_cpu_seconds = 0;
  max_ghost = 1;
  max_replay = 1;
  max_simulated = 2;
  max_materialized = 1;
}

abbrev empty_ledger : BudgetLedger
empty_ledger = record { limits = limits; reservations = [] }

abbrev opened : Workflow
opened = record {
  ledger = empty_ledger;
  active = [];
  cleanup_pending = [];
  cleanup_token = 0;
  identities = [];
}

opened_lem : open_workflow digests.reservation_id empty_ledger ≡ ok opened
unfolding engine
opened_lem = refl

abbrev batch : List SearchCandidate
batch = candidate 2 ∷ candidate 1 ∷ []

-- Worlds are numbered in the order of their allocation, and every call is answered.
abbrev willing : WorldPorts ℕ
willing = record {
  allocate = λ q n. (
    returned (record {
      allocation_id = n;
      candidate_id = q.candidate_id;
      target_tier = q.target_tier;
      state_fingerprint = q.state_fingerprint;
      sibling_identity = n;
    }),
    suc n,
  );
  release = λ a n. (returned tt, n);
  capture = λ q a n. (
    returned (record {
      allocation_id = a.allocation_id;
      candidate_id = a.candidate_id;
      state_fingerprint = a.state_fingerprint;
      compiler_root = record {
        root_seed_id = 1;
        world_id = a.allocation_id;
        conditions = [];
        clock_ms = 0;
      };
      evidence_ref = 7;
      oracle_ref = 8;
      oracle_passed = true;
    }),
    n,
  );
}

-- An allocator that never takes a world back, and a capture that fails.
abbrev stubborn : WorldPorts ℕ
stubborn = record willing { release = λ a n. (raised 5, n); capture = λ q a n. (raised 6, n) }

-- A capture during which the call is cancelled.
abbrev hasty : WorldPorts ℕ
hasty = record willing { capture = λ q a n. (cancelled, n) }

abbrev no_result : WorkflowResult
no_result = record {
  context = run_context;
  input_ledger = empty_ledger;
  search_policy = beam_policy;
  search_batch = [];
  search = record {
    source_tier = replay;
    target_tier = simulated;
    decisions = [];
    promoted_candidate_ids = [];
    ledger = empty_ledger;
  };
  committed_ledger = empty_ledger;
  promotions = [];
}

abbrev result_of : End → WorkflowResult
result_of (promotes r) = r
result_of (refused x) = no_result
result_of interrupted = no_result

-- Both candidates are promoted, in the order of their identifiers.
two_promoted :
    length
      (result_of
        (promote_batch willing digests beam_policy run_context batch opened 0).0).promotions
    ≡ 2
unfolding engine
two_promoted = refl

-- Where captures and releases fail, both worlds stay to be cleaned up and nothing is committed.
failures_retained :
    let (_, s, _) = promote_batch stubborn digests beam_policy run_context batch opened 0 in
    (length s.cleanup_pending ≡ 2) × (s.active ≡ []) × (s.ledger ≡ empty_ledger)
unfolding engine
failures_retained = (refl, refl, refl)

-- A world of which the identifier comes twice is released with the first one.
collision_releases :
    let same = record willing {
      allocate = λ q n. (
        returned (record {
          allocation_id = 4;
          candidate_id = q.candidate_id;
          target_tier = q.target_tier;
          state_fingerprint = q.state_fingerprint;
          sibling_identity = n;
        }),
        suc n,
      );
    } in
    let (_, s, _) = promote_batch same digests beam_policy run_context batch opened 0 in
    (s.cleanup_pending ≡ []) × (s.active ≡ [])
unfolding engine
collision_releases = (refl, refl)

promoted_ends :
    let r = result_of (promote_batch willing digests beam_policy run_context batch opened 0).0 in
    (promote_batch willing digests beam_policy run_context batch opened 0).0 ≡ promotes r
unfolding engine
promoted_ends = refl

hasty_ends :
    (promote_batch (recording hasty) digests beam_policy run_context batch opened (fresh_trail 0)).0
    ≡ interrupted
unfolding engine
hasty_ends = refl

abbrev search_of : SearchResult
search_of =
    (result_of (promote_batch willing digests beam_policy run_context batch opened 0).0).search

searched :
    (validate_batch batch ≡ ok (candidate 1 ∷ candidate 2 ∷ []))
    × (advance digests beam_policy (candidate 1 ∷ candidate 2 ∷ []) empty_ledger ≡ ok search_of)
unfolding engine
searched = (refl, refl)

opened-IsSound : IsSound {E = ℕ} digests.reservation_id opened (fresh_trail 0)
opened-IsSound = open_workflow-IsSound digests.reservation_id empty_ledger opened 0 opened_lem

run_calls-IsSound_example :
    let (s, t) =
      run_calls
        (recording stubborn)
        digests
        beam_policy
        (advances run_context batch ∷ closes ∷ advances run_context batch ∷ [])
        opened
        (fresh_trail 0) in
    IsSound digests.reservation_id s t
run_calls-IsSound_example =
    run_calls-IsSound stubborn digests beam_policy empty_ledger opened 0
      (advances run_context batch ∷ closes ∷ advances run_context batch ∷ []) digests_free
      opened_lem

promote_batch-ArePromoted_example :
    let r = result_of (promote_batch willing digests beam_policy run_context batch opened 0).0 in
    (added : List BudgetReservation) × (limit : ℕ) × (r.committed_ledger
      ≡ record empty_ledger { reservations = empty_ledger.reservations ++ added })
    × ArePromoted batch r.promotions added
    × (width beam_policy r.search.target_tier ≡ some limit)
    × (length r.promotions ≤ limit)
promote_batch-ArePromoted_example =
    promote_batch-ArePromoted willing digests beam_policy run_context batch opened 0
      (result_of (promote_batch willing digests beam_policy run_context batch opened 0).0)
      promoted_ends

promote_batch-EndsWell_example :
    EndsWell stubborn digests beam_policy run_context empty_ledger
      (candidate 1 ∷ candidate 2 ∷ [])
      search_of
      (promote_batch stubborn digests beam_policy run_context batch opened 0).0
promote_batch-EndsWell_example =
    promote_batch-EndsWell stubborn digests beam_policy run_context batch
      (candidate 1 ∷ candidate 2 ∷ []) search_of opened 0 digests_free opened-IsSound.ledger_valid
      opened-IsSound.ledger_bound searched.0 searched.1

promote_batch_cancelled_example :
    let (_, s, _) =
      promote_batch
        (recording hasty)
        digests
        beam_policy
        run_context
        batch
        opened
        (fresh_trail 0) in
    (s.ledger ≡ empty_ledger) × (s.active ≡ [])
promote_batch_cancelled_example =
    promote_batch_cancelled hasty digests beam_policy run_context batch opened (fresh_trail 0)
      opened-IsSound.tracked hasty_ends

close_empties_example :
    let (s, t) =
      run_calls
        (recording willing)
        digests
        beam_policy
        (advances run_context batch ∷ [])
        opened
        (fresh_trail 0) in
    let (run, s', t') = close (recording willing) s t in
    (run ≡ goes_on)
    × (s'.active ≡ [])
    × (s'.cleanup_pending ≡ [])
    × ((a : AllocatedWorld) → times a t'.obtained ≡ times a t'.given_back)
close_empties_example =
    close_empties willing digests.reservation_id
      (run_calls (recording willing) digests beam_policy (advances run_context batch ∷ []) opened
        (fresh_trail 0)).0
      (run_calls (recording willing) digests beam_policy (advances run_context batch ∷ []) opened
        (fresh_trail 0)).1
      (run_calls-IsSound willing digests beam_policy empty_ledger opened 0
        (advances run_context batch ∷ []) digests_free opened_lem)
      (λ a n. refl)
