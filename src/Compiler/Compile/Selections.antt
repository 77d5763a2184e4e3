-- ===== src/Compiler/Compile/Selections.antt =====
-- What the two loops of `compile` try, and in which order.
use stateweaver.Common.{
  ℕ, zero, suc, ◌+◌, ◌≤◌, ◌<◌, ◌≡◌, refl, ap, subst, ◌∙◌, ◌⊎◌, inl, inr, true, Option, some, List,
  [], ◌∷◌, ◌++◌, map, ok, err, arith, length, In, In-append, append-In, Distinct, Result-cases,
  if◌then◌else◌, ℕ_discrete,
}
use stateweaver.Contracts.States.{Arithmetic, StateCondition}
use stateweaver.Compiler.Models.{CompilerFragment, fragment_id}
use stateweaver.Compiler.States.{State, CompilationError, all_conditions}
use stateweaver.Compiler.Nodes.{fragment_ids}
use stateweaver.Compiler.Schedule.{Simulation, schedule}
use stateweaver.Compiler.Schedule.Sound.{schedule_reaches, In-id}
use stateweaver.Compiler.Compile.{
  combinations, selections, found, exhausted, or_else, is_conflict, attempt, explore,
}

In-map :
    (f : CompilerFragment) (xs : List CompilerFragment) (xss : List (List CompilerFragment))
    → In xs (map (λ ys. f ∷ ys) xss)
    → (ys : List CompilerFragment) × In ys xss × (xs ≡ f ∷ ys)
In-map f xs [] i = absurd i
In-map f xs (ys ∷ yss) (inl e) = (ys, inl refl, e)
In-map f xs (ys ∷ yss) (inr i) = let (zs, j, e) = In-map f xs yss i in (zs, inr j, e)

-- A combination takes its nodes from the list, each at most once, and has the size asked for.
pub combinations-In :
    (k : ℕ) (fs xs : List CompilerFragment) (x : CompilerFragment)
    → In xs (combinations k fs)
    → In x xs
    → In x fs
unfolding combinations
combinations-In zero fs xs x (inl e) i = absurd (subst (In x) e i)
combinations-In zero fs xs x (inr j) i = absurd j
combinations-In (suc k) [] xs x j i = absurd j
combinations-In (suc k) (f ∷ fs) xs x j i =
    elim (In-append xs (map (λ ys. f ∷ ys) (combinations k fs)) (combinations (suc k) fs) j) [
      | inr l ↦ inr (combinations-In (suc k) fs xs x l i)
      | inl l ↦
          let (ys, at, e) = In-map f xs (combinations k fs) l in
          elim (subst (In x) e i) [ inl p ↦ inl p | inr m ↦ inr (combinations-In k fs ys x at m) ]
    ]

pub length-combinations :
    (k : ℕ) (fs xs : List CompilerFragment) → In xs (combinations k fs) → length xs ≡ k
unfolding combinations
length-combinations zero fs xs (inl e) = ap length e
length-combinations zero fs xs (inr j) = absurd j
length-combinations (suc k) [] xs j = absurd j
length-combinations (suc k) (f ∷ fs) xs j =
    elim (In-append xs (map (λ ys. f ∷ ys) (combinations k fs)) (combinations (suc k) fs) j) [
      | inr l ↦ length-combinations (suc k) fs xs l
      | inl l ↦
          let (ys, at, e) = In-map f xs (combinations k fs) l in
          ap length e ∙ ap suc (length-combinations k fs ys at)
    ]

In-ids :
    (k : ℕ) (xs : List CompilerFragment)
    → In k (fragment_ids xs)
    → (x : CompilerFragment) × In x xs × (k ≡ fragment_id x)
In-ids k [] i = absurd i
In-ids k (x ∷ xs) (inl e) = (x, inl refl, e)
In-ids k (x ∷ xs) (inr i) = let (y, j, e) = In-ids k xs i in (y, inr j, e)

pub combinations-Distinct :
    (k : ℕ) (fs xs : List CompilerFragment)
    → In xs (combinations k fs)
    → Distinct (fragment_ids fs)
    → Distinct (fragment_ids xs)
unfolding combinations
combinations-Distinct zero fs xs (inl e) d = rw e tt
combinations-Distinct zero fs xs (inr j) d = absurd j
combinations-Distinct (suc k) [] xs j d = absurd j
combinations-Distinct (suc k) (f ∷ fs) xs j (n, d) =
    elim (In-append xs (map (λ ys. f ∷ ys) (combinations k fs)) (combinations (suc k) fs) j) [
      | inr l ↦ combinations-Distinct (suc k) fs xs l d
      | inl l ↦
          let (ys, at, e) = In-map f xs (combinations k fs) l in
          rw e (
            λ i.
                let (y, m, q) = In-ids (fragment_id f) ys i in
                n (rw q (In-id y fs (combinations-In k fs ys y at m))),
            combinations-Distinct k fs ys at d,
          )
    ]

module _ (n : Arithmetic) (initial : State) (clock : ℕ) (goal : List StateCondition) where
  -- The attempt fails: it raises.
  abbrev pub Fails : List CompilerFragment → Type 0
  Fails xs = (e : CompilationError) × (attempt n initial clock goal xs ≡ err e)

  -- The attempt returns a simulation that meets the goal.
  abbrev pub Succeeds : List CompilerFragment → Simulation → Type 0
  Succeeds xs sim = attempt n initial clock goal xs ≡ ok sim

  pub attempt_schedules :
      (xs : List CompilerFragment) (sim : Simulation)
      → Succeeds xs sim
      → schedule n xs initial clock goal ≡ ok sim
  unfolding attempt
  attempt_schedules xs sim e = ground arith

  attempt_reaches :
      (xs : List CompilerFragment) (sim : Simulation)
      → Succeeds xs sim
      → all_conditions n goal sim.state ≡ true
  attempt_reaches xs sim e =
      schedule_reaches n xs initial clock goal sim (attempt_schedules xs sim e)

  -- Whether the loops go on after a list of selections.
  explore-append :
      (xss yss : List (List CompilerFragment)) (first conflict : Option CompilationError)
      (sim : Simulation)
      → explore n initial clock goal (xss ++ yss) first conflict ≡ found sim
      → ((xs : List CompilerFragment) × In xs xss × Succeeds xs sim)
        ⊎ (((xs : List CompilerFragment) → In xs xss → Fails xs)
            × ((f : Option CompilationError) × (c : Option CompilationError) × (explore n initial
                    clock goal yss f c
                  ≡ found sim)))
  unfolding explore
  explore-append [] yss first conflict sim e = inr (λ xs i. absurd i, (first, conflict, e))
  explore-append (xs ∷ xss) yss first conflict sim e =
      elim (Result-cases (attempt n initial clock goal xs)) [
        | inl (x, q) ↦
            elim (explore-append xss yss (or_else first x)
              (if is_conflict x.code then some x else conflict) sim (ground arith)) [
                | inl (ys, i, s) ↦ inl (ys, inr i, s)
                | inr (fails, rest) ↦
                    inr (λ ys i. elim i [ inl p ↦ (x, rw p q) | inr j ↦ fails ys j ], rest)
              ]
        | inr (s, q) ↦ inl (xs, inl refl, ground (arith, attempt_reaches xs s q))
      ]

  -- Loops that end without a simulation have tried every selection in vain.
  pub explore_exhausts :
      (xss : List (List CompilerFragment)) (first conflict f c : Option CompilationError)
      → explore n initial clock goal xss first conflict ≡ exhausted f c
      → (xs : List CompilerFragment) → In xs xss
      → Fails xs
  unfolding explore
  explore_exhausts [] first conflict f c e xs i = absurd i
  explore_exhausts (ys ∷ yss) first conflict f c e xs i =
      elim (Result-cases (attempt n initial clock goal ys)) [
        | inr (s, q) ↦ absurd (ground (arith, attempt_reaches ys s q))
        | inl (x, q) ↦ elim i [
          | inl p ↦ (x, rw p q)
          | inr j ↦
              explore_exhausts yss (or_else first x)
                (if is_conflict x.code then some x else conflict) f c (ground arith) xs j
        ]
      ]

  -- The first success: it is a combination of some size, and every smaller combination fails.
  pub record FirstSuccess (fs : List CompilerFragment) (from : ℕ) (sim : Simulation) : Type 0 where
    pub selected : List CompilerFragment
    pub size : ℕ
    pub enough : from ≤ size
    pub chosen : In selected (combinations size fs)
    pub succeeded : Succeeds selected sim
    pub smaller_fail :
        (k : ℕ)
        → from ≤ k
        → k < size
        → (xs : List CompilerFragment) → In xs (combinations k fs)
        → Fails xs

  pub selections-FirstSuccess :
      (count size : ℕ) (fs : List CompilerFragment) (first conflict : Option CompilationError)
      (sim : Simulation)
      → explore n initial clock goal (selections count size fs) first conflict ≡ found sim
      → FirstSuccess fs size sim
  unfolding selections
  selections-FirstSuccess zero size fs first conflict sim e =
      unfold explore in absurd (ground arith)
  selections-FirstSuccess (suc count) size fs first conflict sim e =
      elim (explore-append (combinations size fs) (selections count (suc size) fs) first conflict
        sim e) [
          | inl (xs, i, s) ↦ record {
            selected = xs;
            size = size;
            enough = omega arith;
            chosen = i;
            succeeded = s;
            smaller_fail = λ k a b. absurd (omega arith);
          }
          | inr (fails, (f, c, rest)) ↦
              let w = selections-FirstSuccess count (suc size) fs f c sim rest in
              record {
                selected = w.selected;
                size = w.size;
                enough = omega (arith, w.enough);
                chosen = w.chosen;
                succeeded = w.succeeded;
                smaller_fail = λ k a b xs i. elim (ℕ_discrete k size) [
                  | yes p ↦ fails xs (subst (λ z. In xs (combinations z fs)) p i)
                  | no p ↦ w.smaller_fail k (omega arith) b xs i
                ];
              }
        ]

  -- Every combination of a size in the range is tried.
  pub selections-In :
      (count size k : ℕ) (fs xs : List CompilerFragment)
      → size ≤ k
      → k < size + count
      → In xs (combinations k fs)
      → In xs (selections count size fs)
  unfolding selections
  selections-In zero size k fs xs a b i = absurd (omega arith)
  selections-In (suc count) size k fs xs a b i = elim (ℕ_discrete k size) [
    | yes p ↦
        append-In xs (combinations size fs) (selections count (suc size) fs)
          (inl (subst (λ z. In xs (combinations z fs)) p i))
    | no p ↦
        append-In xs (combinations size fs) (selections count (suc size) fs)
          (inr (selections-In count (suc size) k fs xs (omega arith) (omega arith) i))
  ]
