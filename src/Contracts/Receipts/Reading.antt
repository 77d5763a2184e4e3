-- ===== src/Contracts/Receipts/Reading.antt =====
-- Lemmas on the checks of a receipt of packages/contracts/src/stateweaver/contracts/oracles.py: what the tests over
-- lists say of the elements.
use stateweaver.Common.{
  ℕ, ◌≡◌, ◌≢◌, refl, sym, subst, ap, ◌∙◌, inl, inr, Bool, true, false, List, [], ◌∷◌, map, arith,
  ◌==◌, In, append-In, all-In, Result, ok, Result-cases, all, contains, contains_iff,
}
use stateweaver.Contracts.Oracles.{
  OracleResult, OracleOutcome, OracleDefinition, is_proof, definition_of, insert_definition,
  oracle_definitions, oracle_evidence, require_oracle_evidence,
}
use stateweaver.Contracts.Receipts.{
  Retained, ReceiptError, ReceiptDigests, RealityReplayAttempt, one_value, same_definitions,
  of_attempts, lifted,
}
use stateweaver.Contracts.Receipts.Checks.{each}
use stateweaver.Contracts.Receipts.Reality.{SameInvariants, AreProofs}

pub map-In : {A B : Type 0} (f : A → B) (xs : List A) (a : A) → In a xs → In (f a) (map f xs)
map-In f [] a i = absurd i
map-In f (x ∷ xs) a (inl q) = inl (ap f q)
map-In f (x ∷ xs) a (inr i) = inr (map-In f xs a i)

pub each-In :
    {A : Type 0} (h : ReceiptDigests) (check : A → Result ReceiptError (Unit {0})) (xs : List A)
    (a : A)
    → each h check xs ≡ ok tt
    → In a xs
    → check a ≡ ok tt
unfolding each
each-In h check [] a e i = absurd i
each-In h check (x ∷ xs) a e i = elim (Result-cases (check x)) [
  | inl (y, q) ↦ absurd (ground arith)
  | inr (u, q) ↦ elim i [ inl p ↦ ap check p ∙ q | inr j ↦ each-In h check xs a (ground arith) j ]
]

pub one_value-In : (xs : List ℕ) (x y : ℕ) → one_value xs ≡ true → In x xs → In y xs → x ≡ y
one_value-In [] x y e i j = absurd i
one_value-In (z ∷ zs) x y e i j = first x i ∙ sym (first y j)
  where
    first : (k : ℕ) → In k (z ∷ zs) → k ≡ z
    first k (inl q) = q
    first k (inr m) = ground (arith, all-In (λ w. w == z) zs k)

-- A value that every attempt has.
pub one_value-attempts :
    (f : Retained → ℕ) (xs : List RealityReplayAttempt) (a b : RealityReplayAttempt)
    → one_value (of_attempts f xs) ≡ true
    → In a xs
    → In b xs
    → f a.retained ≡ f b.retained
one_value-attempts f xs a b e i j =
    one_value-In (of_attempts f xs) (f a.retained) (f b.retained) e
      (map-In (λ (x : RealityReplayAttempt). f x.retained) xs a i)
      (map-In (λ (x : RealityReplayAttempt). f x.retained) xs b j)

-- A value that no attempt has.
pub contains-attempts :
    (f : Retained → ℕ) (xs : List RealityReplayAttempt) (k : ℕ)
    → contains (of_attempts f xs) k ≡ false
    → (a : RealityReplayAttempt) → In a xs
    → k ≢ f a.retained
contains-attempts f xs k e a i q = ground (
  arith,
  (contains_iff (of_attempts f xs) k).1 (
      subst (λ n. In n (of_attempts f xs)) (sym q)
        (map-In (λ (x : RealityReplayAttempt). f x.retained) xs a i)),
)

insert_definition-In :
    (d x : OracleDefinition) (xs : List OracleDefinition)
    → In x (d ∷ xs)
    → In x (insert_definition d xs)
unfolding insert_definition
insert_definition-In d x [] i = i
insert_definition-In d x (y ∷ ys) i = ground (arith, insert_definition-In d x ys)

In-insert_definition :
    (d x : OracleDefinition) (xs : List OracleDefinition)
    → In x (insert_definition d xs)
    → In x (d ∷ xs)
unfolding insert_definition
In-insert_definition d x [] i = i
In-insert_definition d x (y ∷ ys) i = ground (arith, In-insert_definition d x ys)

definitions-In :
    (rs : List OracleResult) (r : OracleResult)
    → In r rs
    → In (definition_of r) (oracle_definitions rs)
unfolding oracle_definitions
definitions-In [] r i = absurd i
definitions-In (x ∷ xs) r (inl q) =
    insert_definition-In (definition_of x) (definition_of r) (oracle_definitions xs)
      (inl (ap definition_of q))
definitions-In (x ∷ xs) r (inr i) =
    insert_definition-In (definition_of x) (definition_of r) (oracle_definitions xs)
      (inr (definitions-In xs r i))

In-definitions :
    (rs : List OracleResult) (d : OracleDefinition)
    → In d (oracle_definitions rs)
    → (r : OracleResult) × In r rs × (definition_of r ≡ d)
unfolding oracle_definitions
In-definitions [] d i = absurd i
In-definitions (x ∷ xs) d i =
    elim (In-insert_definition (definition_of x) d (oracle_definitions xs) i) [
      | inl q ↦ (x, inl refl, sym q)
      | inr j ↦ let (r, at, q) = In-definitions xs d j in (r, inr at, q)
    ]

same_definitions_equal : (ds es : List OracleDefinition) → same_definitions ds es ≡ true → ds ≡ es
same_definitions_equal [] [] e = refl
same_definitions_equal [] (y ∷ ys) e = absurd (ground arith)
same_definitions_equal (x ∷ xs) [] e = absurd (ground arith)
same_definitions_equal (x ∷ xs) (y ∷ ys) e = ground (arith, same_definitions_equal xs ys)

pub same_definitions-SameInvariants :
    (xs ys : List OracleResult)
    → same_definitions (oracle_definitions xs) (oracle_definitions ys) ≡ true
    → SameInvariants xs ys
same_definitions-SameInvariants xs ys e =
    let q = same_definitions_equal (oracle_definitions xs) (oracle_definitions ys) e in
    record {
      covered = λ y i.
          In-definitions xs (definition_of y)
            (subst (In (definition_of y)) (sym q) (definitions-In ys y i));
      covers = λ x i.
          In-definitions ys (definition_of x)
            (subst (In (definition_of x)) q (definitions-In xs x i));
    }

oracle_evidence-In :
    (rs : List OracleResult) (r : OracleResult) (k : ℕ)
    → In r rs
    → In k r.evidence_ids
    → In k (oracle_evidence rs)
unfolding oracle_evidence
oracle_evidence-In [] r k i j = absurd i
oracle_evidence-In (x ∷ xs) r k (inl q) j =
    append-In k x.evidence_ids (oracle_evidence xs)
      (inl (subst (λ (y : OracleResult). In k y.evidence_ids) q j))
oracle_evidence-In (x ∷ xs) r k (inr i) j =
    append-In k x.evidence_ids (oracle_evidence xs) (inr (oracle_evidence-In xs r k i j))

pub require_oracle_evidence-In :
    (evidence : List ℕ) (rs : List OracleResult)
    → lifted (require_oracle_evidence evidence rs) ≡ ok tt
    → (r : OracleResult) (k : ℕ) → In r rs
    → In k r.evidence_ids
    → In k evidence
unfolding require_oracle_evidence
require_oracle_evidence-In evidence rs e r k i j = (contains_iff evidence k).0 (
    all-In (contains evidence) (oracle_evidence rs) k (ground arith)
      (oracle_evidence-In rs r k i j))

pub all-AreProofs :
    (outcome : OracleOutcome → Bool) (rs : List OracleResult)
    → all (is_proof outcome) rs ≡ true
    → AreProofs outcome rs
all-AreProofs outcome rs e r i = all-In (is_proof outcome) rs r e i
