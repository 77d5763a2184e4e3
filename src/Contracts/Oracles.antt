-- ===== src/Contracts/Oracles.antt =====
-- `OracleResult` and the checks on several of them in packages/contracts/src/stateweaver/contracts/oracles.py. A
-- replay reads less of a result, and has a record of its own. The type of an oracle is the place of its name in the order.
use stateweaver.Common.{
  ℕ, Bool, true, false, not, ◌&&◌, ◌||◌, List, [], ◌∷◌, ◌++◌, map, Result, ok, raise_if, ◌>>=◌,
  ◌>>◌, ◌==◌, ltb, leb, all, any, is_empty, contains, unique, same, ℕ_discrete, if◌then◌else◌,
}
use stateweaver.Contracts.Fragments.{ProvenanceKind, observed, unknown, mocked, is_source}

pub data OracleOutcome : Type 0 where
  satisfied violated inconclusive evaluator_error : OracleOutcome

pub record OracleResult : Type 0 where
  pub oracle_result_id : ℕ
  pub oracle_type : ℕ
  pub world_id : ℕ
  pub invariant : ℕ
  pub outcome : OracleOutcome
  pub observations : List ℕ
  pub evidence_ids : List ℕ
  pub deterministic : Bool
  pub provenance : ProvenanceKind
  pub evaluator_version : ℕ

pub record OracleDefinition : Type 0 where
  pub kind : ℕ
  pub invariant : ℕ
  pub evaluator_version : ℕ

pub data OracleError : Type 0 where
  evidence_repeats conclusion_unsupported unknown_with_evidence unobserved mocked_reality
        error_deterministic :
      OracleError
  oracles_unordered oracles_repeat definitions_repeat evidence_uncovered : OracleError

unfoldable pub OracleDefinition-discrete : Discrete OracleDefinition
OracleDefinition-discrete = hlevel ℕ_discrete

abbrev pub is_satisfied : OracleOutcome → Bool
is_satisfied satisfied = true
is_satisfied _ = false

abbrev pub is_violated : OracleOutcome → Bool
is_violated violated = true
is_violated _ = false

abbrev is_error : OracleOutcome → Bool
is_error evaluator_error = true
is_error _ = false

-- `evidence_is_unique` and `results_have_honest_evidence`.
unfoldable pub validate_oracle : OracleResult → Result OracleError OracleResult
validate_oracle r = do
  raise_if (not (unique r.evidence_ids)) evidence_repeats
  raise_if ((is_satisfied r.outcome || is_violated r.outcome) && is_empty r.evidence_ids)
      conclusion_unsupported
  raise_if (is_source unknown r.provenance && not (is_empty r.evidence_ids)) unknown_with_evidence
  raise_if
      (r.deterministic
        && not (is_error r.outcome)
        && (is_empty r.observations || is_empty r.evidence_ids))
      unobserved
  raise_if (r.deterministic && not (is_error r.outcome) && is_source mocked r.provenance)
      mocked_reality
  raise_if (is_error r.outcome && r.deterministic) error_deterministic
  ok r

-- `_revalidate_oracles`.
unfoldable pub validate_oracles : List OracleResult → Result OracleError (Unit {0})
validate_oracles [] = ok tt
validate_oracles (r ∷ rs) = do r' ← validate_oracle r; validate_oracles rs

-- `_oracle_definition`.
abbrev pub definition_of : OracleResult → OracleDefinition
definition_of r = record {
  kind = r.oracle_type;
  invariant = r.invariant;
  evaluator_version = r.evaluator_version;
}

abbrev definition_leb : OracleDefinition → OracleDefinition → Bool
definition_leb a b =
    ltb a.kind b.kind
    || a.kind == b.kind
      && (ltb a.invariant b.invariant
          || a.invariant == b.invariant && leb a.evaluator_version b.evaluator_version)

unfoldable pub insert_definition : OracleDefinition → List OracleDefinition → List OracleDefinition
insert_definition d [] = d ∷ []
insert_definition d (x ∷ xs) =
    let rest = insert_definition d xs in if definition_leb d x then d ∷ x ∷ xs else x ∷ rest

-- `_oracle_definitions`.
unfoldable pub oracle_definitions : List OracleResult → List OracleDefinition
oracle_definitions [] = []
oracle_definitions (r ∷ rs) = insert_definition (definition_of r) (oracle_definitions rs)

abbrev pub has_definition : List OracleDefinition → OracleDefinition → Bool
has_definition ds d = any (λ x. same OracleDefinition-discrete d x) ds

unfoldable pub definitions_unique : List OracleDefinition → Bool
definitions_unique [] = true
definitions_unique (d ∷ ds) = not (has_definition ds d) && definitions_unique ds

-- `xs == sorted(xs)`.
unfoldable pub ascending : List ℕ → Bool
ascending [] = true
ascending (x ∷ []) = true
ascending (x ∷ y ∷ ys) = let rest = ascending (y ∷ ys) in leb x y && rest

abbrev pub oracle_ids : List OracleResult → List ℕ
oracle_ids = map (λ (r : OracleResult). r.oracle_result_id)

-- `_require_canonical_unique_oracles`.
unfoldable pub require_canonical_oracles : List OracleResult → Result OracleError (Unit {0})
require_canonical_oracles rs = do
  raise_if (not (ascending (oracle_ids rs))) oracles_unordered
  raise_if (not (unique (oracle_ids rs))) oracles_repeat
  raise_if (not (definitions_unique (oracle_definitions rs))) definitions_repeat

-- `_oracle_evidence`.
unfoldable pub oracle_evidence : List OracleResult → List ℕ
oracle_evidence [] = []
oracle_evidence (r ∷ rs) = r.evidence_ids ++ oracle_evidence rs

-- `_require_oracle_evidence`.
unfoldable pub require_oracle_evidence : List ℕ → List OracleResult → Result OracleError (Unit {0})
require_oracle_evidence evidence rs =
    raise_if (not (all (contains evidence) (oracle_evidence rs))) evidence_uncovered

-- A deterministic observation with the given outcome.
abbrev pub is_proof : (OracleOutcome → Bool) → OracleResult → Bool
is_proof outcome r = r.deterministic && is_source observed r.provenance && outcome r.outcome
