-- ===== src/Search/Budget.antt =====
-- The budget of packages/search/src/stateweaver/search/models.py: limits, the append-only ledger of
-- reservations and its checks. A digest is a natural number, and `_reservation_id` is an argument.
pub mod Spending
pub mod Reserve
pub mod Binding
use stateweaver.Common.{
  ℕ, suc, ◌+◌, ◌≤◌, ◌≡◌, Bool, true, false, not, ◌&&◌, ◌||◌, Option, none, some, List, [], ◌∷◌,
  ◌++◌, map, Result, ok, err, raise_if, ◌>>=◌, ◌>>◌, ◌==◌, leb, same, any, all, length, unique,
  if◌then◌else◌,
}

pub data WorldTier : Type 0 where
  ghost replay simulated materialized : WorldTier

unfoldable pub WorldTier-discrete : Discrete WorldTier
WorldTier-discrete = hlevel

-- `is` on two tiers.
abbrev pub is_tier : WorldTier → WorldTier → Bool
is_tier a b = same WorldTier-discrete a b

abbrev pub all_tiers : List WorldTier
all_tiers = ghost ∷ replay ∷ simulated ∷ materialized ∷ []

pub record PromotionCost : Type 0 where
  pub llm_calls : ℕ
  pub target_requests : ℕ
  pub write_requests : ℕ
  pub cpu_seconds : ℕ

-- `PromotionCost()`.
abbrev pub no_cost : PromotionCost
no_cost = record { llm_calls = 0; target_requests = 0; write_requests = 0; cpu_seconds = 0 }

pub record BudgetLimits : Type 0 where
  pub max_llm_calls : ℕ
  pub max_target_requests : ℕ
  pub max_write_requests : ℕ
  pub max_cpu_seconds : ℕ
  pub max_ghost : ℕ
  pub max_replay : ℕ
  pub max_simulated : ℕ
  pub max_materialized : ℕ

-- `tier_limit`.
unfoldable pub tier_limit : BudgetLimits → WorldTier → ℕ
tier_limit l ghost = l.max_ghost
tier_limit l replay = l.max_replay
tier_limit l simulated = l.max_simulated
tier_limit l materialized = l.max_materialized

pub record BudgetReservation : Type 0 where
  pub reservation_id : ℕ
  pub candidate_id : ℕ
  pub target_tier : WorldTier
  pub sequence : ℕ
  pub cost : PromotionCost

pub record BudgetUsage : Type 0 where
  pub llm_calls : ℕ
  pub target_requests : ℕ
  pub write_requests : ℕ
  pub cpu_seconds : ℕ
  pub ghost_worlds : ℕ
  pub replay_worlds : ℕ
  pub simulated_worlds : ℕ
  pub materialized_worlds : ℕ

-- `tier_count`.
unfoldable pub tier_count : BudgetUsage → WorldTier → ℕ
tier_count u ghost = u.ghost_worlds
tier_count u replay = u.replay_worlds
tier_count u simulated = u.simulated_worlds
tier_count u materialized = u.materialized_worlds

pub record BudgetLedger : Type 0 where
  pub limits : BudgetLimits
  pub reservations : List BudgetReservation

-- `sum(f(item) for item in self.reservations)`.
unfoldable pub sum_of : (BudgetReservation → ℕ) → List BudgetReservation → ℕ
sum_of f [] = 0
sum_of f (r ∷ rs) = f r + sum_of f rs

abbrev pub one_if : Bool → ℕ
one_if true = 1
one_if false = 0

-- The loop that counts the reservations of each tier.
unfoldable pub count_of : WorldTier → List BudgetReservation → ℕ
count_of t [] = 0
count_of t (r ∷ rs) = one_if (is_tier r.target_tier t) + count_of t rs

-- `usage`.
unfoldable pub usage : List BudgetReservation → BudgetUsage
usage rs = record {
  llm_calls = sum_of (λ r. r.cost.llm_calls) rs;
  target_requests = sum_of (λ r. r.cost.target_requests) rs;
  write_requests = sum_of (λ r. r.cost.write_requests) rs;
  cpu_seconds = sum_of (λ r. r.cost.cpu_seconds) rs;
  ghost_worlds = count_of ghost rs;
  replay_worlds = count_of replay rs;
  simulated_worlds = count_of simulated rs;
  materialized_worlds = count_of materialized rs;
}

abbrev pub added_cost : Option (WorldTier × PromotionCost) → PromotionCost
added_cost none = no_cost
added_cost (some (t, c)) = c

abbrev pub adds_to : Option (WorldTier × PromotionCost) → WorldTier → ℕ
adds_to none t = 0
adds_to (some (t', c)) t = one_if (is_tier t' t)

abbrev pub tier_fits :
    BudgetLimits → BudgetUsage → Option (WorldTier × PromotionCost) → WorldTier → Bool
tier_fits l u addition t = leb (tier_count u t + adds_to addition t) (tier_limit l t)

-- `_fits`.
unfoldable pub fits : BudgetLimits → BudgetUsage → Option (WorldTier × PromotionCost) → Bool
fits l u addition =
    let c = added_cost addition in
    leb (u.llm_calls + c.llm_calls) l.max_llm_calls
    && leb (u.target_requests + c.target_requests) l.max_target_requests
    && leb (u.write_requests + c.write_requests) l.max_write_requests
    && leb (u.cpu_seconds + c.cpu_seconds) l.max_cpu_seconds
    && all (tier_fits l u addition) all_tiers

-- A reservation of this candidate for this tier.
abbrev pub is_for : ℕ → WorldTier → BudgetReservation → Bool
is_for candidate t r = r.candidate_id == candidate && is_tier r.target_tier t

-- `can_reserve`, with the candidate named.
unfoldable pub can_reserve : BudgetLedger → WorldTier → PromotionCost → ℕ → Bool
can_reserve l t c candidate =
    if any (is_for candidate t) l.reservations
    then false
    else fits l.limits (usage l.reservations) (some (t, c))

pub data LedgerError : Type 0 where
  exceeded not_contiguous not_unique overspent unbound_identifier : LedgerError

-- `tuple(item.sequence ...) == tuple(range(k, ...))`.
unfoldable pub contiguous_from : ℕ → List BudgetReservation → Bool
contiguous_from k [] = true
contiguous_from k (r ∷ rs) = r.sequence == k && contiguous_from (suc k) rs

-- The pairs of candidate and tier are unique.
unfoldable pub keys_unique : List BudgetReservation → Bool
keys_unique [] = true
keys_unique (r ∷ rs) = not (any (is_for r.candidate_id r.target_tier) rs) && keys_unique rs

-- `BudgetLedger.model_validate`: the field validator, then the history against the limits.
unfoldable pub validate_ledger : BudgetLedger → Result LedgerError BudgetLedger
validate_ledger l = do
  raise_if (not (contiguous_from 1 l.reservations)) not_contiguous
  raise_if
      (not (unique (map (λ r. r.reservation_id) l.reservations))
        || not (keys_unique l.reservations))
      not_unique
  raise_if (not (fits l.limits (usage l.reservations) none)) overspent
  ok l

-- What `_reservation_id` digests.
abbrev pub ReservationId : Type 0
ReservationId = ℕ → WorldTier → ℕ → PromotionCost → ℕ

-- `identifier_is_content_bound`.
unfoldable pub validate_reservation :
    ReservationId → BudgetReservation → Result LedgerError BudgetReservation
validate_reservation reservation_id r = do
  raise_if (not (r.reservation_id == reservation_id r.candidate_id r.target_tier r.sequence r.cost))
      unbound_identifier
  ok r

abbrev pub new_reservation :
    ReservationId → ℕ → WorldTier → PromotionCost → List BudgetReservation → BudgetReservation
new_reservation reservation_id candidate t c rs = record {
  reservation_id = reservation_id candidate t (length rs + 1) c;
  candidate_id = candidate;
  target_tier = t;
  sequence = length rs + 1;
  cost = c;
}

-- `reserve`.
unfoldable pub reserve :
    ReservationId → BudgetLedger → ℕ → WorldTier → PromotionCost → Result LedgerError BudgetLedger
reserve reservation_id l candidate t c = do
  raise_if (not (can_reserve l t c candidate)) exceeded
  r ←
      validate_reservation reservation_id
        (new_reservation reservation_id candidate t c l.reservations)
  validate_ledger (record l { reservations = l.reservations ++ r ∷ [] })
