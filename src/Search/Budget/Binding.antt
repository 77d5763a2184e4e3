-- ===== src/Search/Budget/Binding.antt =====
-- Reservations whose identifiers are bound to their content: `identifier_is_content_bound` of
-- packages/search/src/stateweaver/search/models.py, for all of a ledger.
use stateweaver.Common.{
  ℕ, suc, ◌+◌, ◌≤◌, ◌≡◌, refl, true, false, List, [], ◌∷◌, ◌++◌, contains, length, arith, All,
}
use stateweaver.Search.Budget.{
  WorldTier, PromotionCost, BudgetReservation, contiguous_from, ReservationId,
}
use stateweaver.Search.Budget.Spending.{ids}

-- Each identifier is the digest of its reservation.
abbrev pub IsBound : ReservationId → List BudgetReservation → Type 0
IsBound i rs = All (λ r. r.reservation_id ≡ i r.candidate_id r.target_tier r.sequence r.cost) rs

-- Digests of reservations with different numbers differ.
abbrev pub IsCollisionFree : ReservationId → Type 0
IsCollisionFree i =
    (c : ℕ) (t : WorldTier) (n : ℕ) (k : PromotionCost) (c' : ℕ) (t' : WorldTier) (n' : ℕ)
    (k' : PromotionCost)
    → i c t n k ≡ i c' t' n' k'
    → n ≡ n'

-- A number that is not used yet has an identifier that is not used yet.
pub IsBound-fresh :
    (i : ReservationId) (rs : List BudgetReservation) (m n : ℕ) (c : ℕ) (t : WorldTier)
    (k : PromotionCost)
    → IsCollisionFree i
    → IsBound i rs
    → contiguous_from m rs ≡ true
    → m + length rs ≤ n
    → contains (ids rs) (i c t n k) ≡ false
unfolding contains contiguous_from
IsBound-fresh i [] m n c t k free b h le = refl
IsBound-fresh i (r ∷ rs) m n c t k free b h le = ground (
  arith,
  b.0,
  free c t n k r.candidate_id r.target_tier r.sequence r.cost,
  IsBound-fresh i rs (suc m) n c t k free b.1,
)

pub IsBound-append :
    (i : ReservationId) (rs : List BudgetReservation) (r : BudgetReservation)
    → IsBound i rs
    → r.reservation_id ≡ i r.candidate_id r.target_tier r.sequence r.cost
    → IsBound i (rs ++ r ∷ [])
IsBound-append i [] r b e = (e, tt)
IsBound-append i (q ∷ rs) r b e = (b.0, IsBound-append i rs r b.1 e)
