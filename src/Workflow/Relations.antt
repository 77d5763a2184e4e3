-- ===== src/Workflow/Relations.antt =====
-- `WorkflowResult.create` of workflows/world/src/stateweaver/workflows/world/models.py without its event
-- history: the search is replayed, then `_validate_result_relations` compares ledgers, decisions and
-- promotions.
use stateweaver.Common.{
  ℕ, zero, suc, Bool, true, false, not, ◌&&◌, ◌||◌, Option, none, some, List, [], ◌∷◌, map, Result,
  ok, err, raise_if, ◌>>=◌, ◌>>◌, ◌==◌, same, all, length, contains, unique, if◌then◌else◌,
  ℕ_discrete,
}
use stateweaver.Common.Dict.{Dict, lookup, insert}
use stateweaver.Search.Budget.{
  WorldTier-discrete, PromotionCost, BudgetLimits, BudgetReservation, BudgetLedger, is_tier,
}
use stateweaver.Search.Models.{BeamSearchPolicy, SearchCandidate, SearchDecision}
use stateweaver.Search.Controller.{Digests}
use stateweaver.Search.Beam.{SearchError}
use stateweaver.Search.Selection.{SearchResult, is_promote, advance}
use stateweaver.Workflow.Models.{
  PromotionRunContext, PromotionRecord, WorkflowError, candidate_missing, limits_differ,
  search_history_lost, committed_history_lost, suffix_not_covering, suffix_not_matching,
  reservation_unbound, promotions_repeat, promotion_not_promoted, candidate_unbound,
  committed_not_covering, semantics_differ, search_refused, search_not_replayed,
}

-- `xs[:n]` and `xs[n:]`.
abbrev pub take {ℓ} : {A : Type ℓ} → ℕ → List A → List A
take zero xs = []
take (suc n) [] = []
take (suc n) (x ∷ xs) = x ∷ take n xs

abbrev pub drop {ℓ} : {A : Type ℓ} → ℕ → List A → List A
drop zero xs = xs
drop (suc n) [] = []
drop (suc n) (x ∷ xs) = drop n xs

unfoldable pub BudgetLimits-discrete : Discrete BudgetLimits
BudgetLimits-discrete = hlevel ℕ_discrete

unfoldable pub PromotionCost-discrete : Discrete PromotionCost
PromotionCost-discrete = hlevel ℕ_discrete

unfoldable pub BudgetReservation-discrete : Discrete BudgetReservation
unfolding PromotionCost-discrete
BudgetReservation-discrete = hlevel (ℕ_discrete, WorldTier-discrete, PromotionCost-discrete)

-- `==` on two tuples of reservations.
unfoldable pub same_history : List BudgetReservation → List BudgetReservation → Bool
unfolding BudgetReservation-discrete
same_history [] [] = true
same_history [] (r ∷ rs) = false
same_history (q ∷ qs) [] = false
same_history (q ∷ qs) (r ∷ rs) = same BudgetReservation-discrete q r && same_history qs rs

-- `{item.candidate_id: item for item in ...}`.
unfoldable pub reservations_by :
    List BudgetReservation → Dict BudgetReservation → Dict BudgetReservation
reservations_by [] table = table
reservations_by (r ∷ rs) table = reservations_by rs (insert r.candidate_id r table)

unfoldable pub candidates_by : List SearchCandidate → Dict SearchCandidate → Dict SearchCandidate
candidates_by [] table = table
candidates_by (c ∷ cs) table = candidates_by cs (insert c.candidate_id c table)

unfoldable pub decisions_by : List SearchDecision → Dict SearchDecision → Dict SearchDecision
decisions_by [] table = table
decisions_by (d ∷ ds) table = decisions_by ds (insert d.candidate_id d table)

-- The decisions that promote.
unfoldable pub promoting : List SearchDecision → List SearchDecision
promoting [] = []
promoting (d ∷ ds) = let rest = promoting ds in if is_promote d.disposition then d ∷ rest else rest

abbrev pub keys {ℓ} : {V : Type ℓ} → Dict V → List ℕ
keys d = map (λ p. p.0) d

-- `set(xs) == set(ys)`.
abbrev same_set : List ℕ → List ℕ → Bool
same_set xs ys = all (contains ys) xs && all (contains xs) ys

abbrev pub of_key : {A : Type 0} → Option A → Result WorkflowError A
of_key none = err candidate_missing
of_key (some a) = ok a

abbrev names : Option ℕ → ℕ → Bool
names none k = false
names (some j) k = j == k

abbrev is_bound_to : SearchResult → SearchDecision → BudgetReservation → Bool
is_bound_to search d r =
    names d.reservation_id r.reservation_id
    && is_tier d.target_tier r.target_tier
    && is_tier d.source_tier search.source_tier
    && is_tier d.target_tier search.target_tier

-- The loop over the provisional reservations.
unfoldable pub check_provisional :
    SearchResult → Dict SearchDecision → Dict BudgetReservation → Result WorkflowError (Unit {0})
check_provisional search decided [] = ok tt
check_provisional search decided ((k, r) ∷ rest) = do
  d ← of_key (lookup k decided)
  raise_if (not (is_bound_to search d r)) reservation_unbound
  check_provisional search decided rest

abbrev pub binds_candidate : SearchResult → SearchCandidate → PromotionRecord → Bool
binds_candidate search c p =
    c.state_fingerprint == p.allocation.state_fingerprint
    && contains c.gates.evidence_ids p.capture.evidence_ref
    && contains c.gates.oracle_refs p.capture.oracle_ref
    && is_tier c.tier search.source_tier
    && is_tier p.target_tier search.target_tier

-- The loop over the promotions.
unfoldable pub check_promotions :
    SearchResult → Dict SearchCandidate → List PromotionRecord → Result WorkflowError (Unit {0})
check_promotions search candidates [] = ok tt
check_promotions search candidates (p ∷ ps) = do
  c ← of_key (lookup p.candidate_id candidates)
  raise_if (not (binds_candidate search c p)) candidate_unbound
  check_promotions search candidates ps

abbrev is_exact : SearchDecision → BudgetReservation → BudgetReservation → PromotionRecord → Bool
is_exact d provisional r p =
    r.reservation_id == p.reservation_id
    && r.candidate_id == p.candidate_id
    && is_tier r.target_tier p.target_tier
    && same PromotionCost-discrete r.cost provisional.cost
    && is_tier d.target_tier p.target_tier
    && is_tier p.allocation.target_tier p.target_tier

-- The loop over `zip(committed, promotions, strict=True)`.
unfoldable pub check_committed :
    Dict SearchDecision
    → Dict BudgetReservation
    → List BudgetReservation
    → List PromotionRecord
    → Result WorkflowError (Unit {0})
unfolding PromotionCost-discrete
check_committed decided provisional [] [] = ok tt
check_committed decided provisional [] (p ∷ ps) = err committed_not_covering
check_committed decided provisional (r ∷ rs) [] = err committed_not_covering
check_committed decided provisional (r ∷ rs) (p ∷ ps) = do
  d ← of_key (lookup p.candidate_id decided)
  q ← of_key (lookup p.candidate_id provisional)
  raise_if (not (is_exact d q r p)) semantics_differ
  check_committed decided provisional rs ps

-- `_validate_result_relations`.
unfoldable pub validate_relations :
    BudgetLedger
    → List SearchCandidate
    → SearchResult
    → BudgetLedger
    → List PromotionRecord
    → Result WorkflowError (Unit {0})
validate_relations input batch search committed promotions = do
  raise_if
      (not (same BudgetLimits-discrete search.ledger.limits input.limits)
        || not (same BudgetLimits-discrete committed.limits input.limits))
      limits_differ
  let n = length input.reservations
  raise_if (not (same_history (take n search.ledger.reservations) input.reservations))
      search_history_lost
  raise_if (not (same_history (take n committed.reservations) input.reservations))
      committed_history_lost
  let decisions = decisions_by search.decisions []
  let promoted_decisions = decisions_by (promoting search.decisions) []
  let provisional = drop n search.ledger.reservations
  raise_if (not (length provisional == length promoted_decisions)) suffix_not_covering
  let provisional_by_candidate = reservations_by provisional []
  raise_if (not (same_set (keys provisional_by_candidate) (keys promoted_decisions)))
      suffix_not_matching
  check_provisional search promoted_decisions provisional_by_candidate
  let promotion_ids = map (λ p. p.candidate_id) promotions
  raise_if
      (not (unique promotion_ids)
        || not (unique (map (λ p. p.allocation.allocation_id) promotions))
        || not (unique (map (λ p. p.allocation.sibling_identity) promotions)))
      promotions_repeat
  raise_if (not (all (contains (keys promoted_decisions)) promotion_ids)) promotion_not_promoted
  check_promotions search (candidates_by batch []) promotions
  check_committed decisions provisional_by_candidate (drop n committed.reservations) promotions

pub record WorkflowResult : Type 0 where
  pub context : PromotionRunContext
  pub input_ledger : BudgetLedger
  pub search_policy : BeamSearchPolicy
  pub search_batch : List SearchCandidate
  pub search : SearchResult
  pub committed_ledger : BudgetLedger
  pub promotions : List PromotionRecord

unfoldable pub SearchDecision-discrete : Discrete SearchDecision
SearchDecision-discrete = hlevel (ℕ_discrete, WorldTier-discrete)

unfoldable pub SearchResult-discrete : Discrete SearchResult
SearchResult-discrete = hlevel (
  ℕ_discrete, WorldTier-discrete, SearchDecision-discrete, BudgetReservation-discrete,
  BudgetLimits-discrete,
)

abbrev pub of_search : {A : Type 0} → Result SearchError A → Result WorkflowError A
of_search (ok a) = ok a
of_search (err x) = err (search_refused x)

-- `create` up to the event history, which the result does not hold: the other fields are returned as they
-- were given.
unfoldable pub create_result : Digests → WorkflowResult → Result WorkflowError WorkflowResult
unfolding SearchResult-discrete
create_result h r = do
  expected ← of_search (advance h r.search_policy r.search_batch r.input_ledger)
  raise_if (not (same SearchResult-discrete r.search expected)) search_not_replayed
  validate_relations r.input_ledger r.search_batch r.search r.committed_ledger r.promotions
  ok r
