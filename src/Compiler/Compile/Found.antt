-- ===== src/Compiler/Compile/Found.antt =====
-- What `compile` returns, and when it returns.
use stateweaver.Common.{
  ℕ, suc, ◌≤◌, ◌<◌, ◌≡◌, refl, ap, subst, ◌∙◌, ◌⊎◌, inl, inr, true, Option, none, List, [], ◌∷◌, ok,
  arith, length, In, Distinct, unique, unique_iff, Result-cases, Bool-cases,
}
use mathlib.Core.List.Permᴰ
use stateweaver.Common.Perms.{In-Perm, Distinct-Perm, map-Perm, length-Perm}
use stateweaver.Contracts.Actions.{ActionEnvelope, validate_envelope}
use stateweaver.Contracts.States.{Arithmetic}
use stateweaver.Compiler.Models.{
  CompilerFragment, fragment_id, RootState, TerminalGoal, CompiledChain, CompilerDigests,
  validate_chain,
}
use stateweaver.Compiler.States.{State, CompilationError, all_conditions, state_from_conditions}
use stateweaver.Compiler.Nodes.{
  fragment_ids, insert_node, sort_nodes, validate_nodes, can_contribute, resequenced_envelope,
}
use stateweaver.Compiler.Schedule.{Simulation}
use stateweaver.Compiler.Schedule.Runs.{Runs}
use stateweaver.Compiler.Schedule.Sound.{schedule-IsScheduled}
use stateweaver.Compiler.Compile.{
  combinations, selections, Exploration, found, exhausted, explore, relevant_nodes, prepare,
  resequenced, chain_of, assemble, compile,
}
use stateweaver.Compiler.Compile.Selections.{
  Fails, combinations-In, combinations-Distinct, length-combinations, attempt_schedules,
  selections-FirstSuccess,
}

In-insert_node :
    (x f : CompilerFragment) (fs : List CompilerFragment) → In x (insert_node f fs) → In x (f ∷ fs)
unfolding insert_node
In-insert_node x f [] i = i
In-insert_node x f (y ∷ ys) i = ground (arith, In-insert_node x f ys)

In-sort_nodes : (x : CompilerFragment) (fs : List CompilerFragment) → In x (sort_nodes fs) → In x fs
unfolding sort_nodes
In-sort_nodes x [] i = i
In-sort_nodes x (f ∷ fs) i = elim (In-insert_node x f (sort_nodes fs) i) [
  | inl e ↦ inl e
  | inr j ↦ inr (In-sort_nodes x fs j)
]

-- Envelopes in sequence from `k`.
abbrev pub InSequence : ℕ → List ActionEnvelope → Type 0
InSequence k [] = Unit {0}
InSequence k (e ∷ es) = (e.sequence ≡ k) × InSequence (suc k) es

resequenced_same :
    (e e' : ActionEnvelope) (k : ℕ)
    → resequenced_envelope e k ≡ ok e'
    → e' ≡ record e { sequence = k }
unfolding validate_envelope
resequenced_same e e' k q = ground arith

pub resequenced_round :
    (k : ℕ) (f : CompilerFragment) (fs : List CompilerFragment) (es : List ActionEnvelope)
    → resequenced k (f ∷ fs) ≡ ok es
    → (e : ActionEnvelope) × (rest : List ActionEnvelope) × (resequenced_envelope f.envelope k
        ≡ ok e)
      × (resequenced (suc k) fs ≡ ok rest)
      × (es ≡ e ∷ rest)
unfolding resequenced
resequenced_round k f fs es q = elim (Result-cases (resequenced_envelope f.envelope k)) [
  | inl (x, r) ↦ absurd (ground arith)
  | inr (e, r) ↦ elim (Result-cases (resequenced (suc k) fs)) [
    | inl (x, t) ↦ absurd (ground arith)
    | inr (rest, t) ↦ (e, rest, r, t, ground arith)
  ]
]

resequenced-InSequence :
    (k : ℕ) (fs : List CompilerFragment) (es : List ActionEnvelope)
    → resequenced k fs ≡ ok es
    → InSequence k es
resequenced-InSequence k [] es q = let r : es ≡ [] = unfold resequenced in ground arith in rw r tt
resequenced-InSequence k (f ∷ fs) es q =
    let (e, rest, r, t, s) = resequenced_round k f fs es q in
    rw s (
      ap (λ (x : ActionEnvelope). x.sequence) (resequenced_same f.envelope e k r),
      resequenced-InSequence (suc k) fs rest t,
    )

module _ (n : Arithmetic) (root : RootState) (goal : TerminalGoal)
    (fragments : List CompilerFragment) where
  In-relevant_nodes :
      (x : CompilerFragment) (nodes fs : List CompilerFragment)
      → In x (relevant_nodes n goal.conditions nodes fs)
      → In x fs
  unfolding relevant_nodes
  In-relevant_nodes x nodes [] i = i
  In-relevant_nodes x nodes (f ∷ fs) i = ground (arith, In-relevant_nodes x nodes fs)

  In-relevant_ids :
      (k : ℕ) (nodes fs : List CompilerFragment)
      → In k (fragment_ids (relevant_nodes n goal.conditions nodes fs))
      → In k (fragment_ids fs)
  unfolding relevant_nodes
  In-relevant_ids k nodes [] i = i
  In-relevant_ids k nodes (f ∷ fs) i = ground (arith, In-relevant_ids k nodes fs)

  relevant_nodes-Distinct :
      (nodes fs : List CompilerFragment)
      → Distinct (fragment_ids fs)
      → Distinct (fragment_ids (relevant_nodes n goal.conditions nodes fs))
  unfolding relevant_nodes
  relevant_nodes-Distinct nodes [] d = d
  relevant_nodes-Distinct nodes (f ∷ fs) (m, d) =
      elim (Bool-cases (can_contribute n f goal.conditions nodes)) [
        | inl e ↦ rw e (
          λ i. m (In-relevant_ids (fragment_id f) nodes fs i),
          relevant_nodes-Distinct nodes fs d,
        )
        | inr e ↦ rw e (relevant_nodes-Distinct nodes fs d)
      ]

  pub record IsPrepared (relevant : List CompilerFragment) (initial : State) : Type 0 where
    pub from_root : state_from_conditions n root.conditions ≡ ok initial
    pub known : (x : CompilerFragment) → In x relevant → In x fragments
    pub distinct : Distinct (fragment_ids relevant)

  pub prepare-IsPrepared :
      (relevant : List CompilerFragment) (initial : State)
      → prepare n root fragments goal ≡ ok (relevant, initial)
      → IsPrepared relevant initial
  unfolding prepare
  prepare-IsPrepared relevant initial e =
      elim (Result-cases
        (validate_nodes root (fragment_ids (sort_nodes fragments)) (sort_nodes fragments) [])) [
          | inl (x, q) ↦ absurd (ground arith)
          | inr (_, q) ↦ elim (Result-cases (state_from_conditions n root.conditions)) [
            | inl (x, r) ↦ absurd (ground arith)
            | inr (s, r) ↦
                let same_nodes : relevant
                    ≡ relevant_nodes n goal.conditions (sort_nodes fragments)
                        (sort_nodes fragments) =
                  ground arith in
                let apart : unique (fragment_ids (sort_nodes fragments)) ≡ true = ground arith in
                record {
                  from_root = r ∙ ap ok (ground arith);
                  known = λ x i. In-sort_nodes x fragments (
                      In-relevant_nodes x (sort_nodes fragments) (sort_nodes fragments)
                        (subst (In x) same_nodes i));
                  distinct = rw same_nodes (
                      relevant_nodes-Distinct (sort_nodes fragments) (sort_nodes fragments)
                        ((unique_iff (fragment_ids (sort_nodes fragments))).0 apart));
                }
          ]
        ]

pub Exploration-cases :
    (x : Exploration)
    → ((sim : Simulation) × (x ≡ found sim))
      ⊎ ((f : Option CompilationError) × (c : Option CompilationError) × (x ≡ exhausted f c))
Exploration-cases (found sim) = inl (sim, refl)
Exploration-cases (exhausted f c) = inr (f, c, refl)

module _ (h : CompilerDigests) (chain_id : ℕ) (root : RootState) (goal : TerminalGoal) where
  assemble_inv :
      (sim : Simulation) (chain : CompiledChain)
      → assemble h chain_id root goal sim ≡ ok chain
      → (es : List ActionEnvelope) × (resequenced 0 sim.ordered ≡ ok es)
        × (chain ≡ chain_of h chain_id root goal sim.ordered es)
  unfolding assemble validate_chain
  assemble_inv sim chain e = elim (Result-cases (resequenced 0 sim.ordered)) [
    | inl (x, q) ↦ absurd (ground arith)
    | inr (es, q) ↦ (es, q, ground arith)
  ]

  -- What a compiled chain says: its fragments are among those given, each once; executed in order from the root
  -- each is ready in its turn and the last state meets the goal; the envelopes are numbered from 0; and no smaller combination of the relevant
  -- fragments can be scheduled.
  pub record IsCompiled (n : Arithmetic) (fragments : List CompilerFragment) (chain : CompiledChain)
      : Type 0 where
    pub relevant : List CompilerFragment
    pub initial : State
    pub prepared : prepare n root fragments goal ≡ ok (relevant, initial)
    pub from_root : state_from_conditions n root.conditions ≡ ok initial
    pub ordered : List CompilerFragment
    pub final : State
    pub clock : ℕ
    pub named : chain.fragment_ids ≡ fragment_ids ordered
    pub known : (x : CompilerFragment) → In x ordered → In x fragments
    pub distinct : Distinct (fragment_ids ordered)
    pub runs : Runs n ordered [] initial root.clock_ms final clock
    pub reached : all_conditions n goal.conditions final ≡ true
    pub numbered : InSequence 0 chain.action_envelopes
    pub minimal :
        (k : ℕ)
        → 1 ≤ k
        → k < length ordered
        → (xs : List CompilerFragment) → In xs (combinations k relevant)
        → Fails n initial root.clock_ms goal.conditions xs

  pub compile-IsCompiled :
      (n : Arithmetic) (fragments : List CompilerFragment) (chain : CompiledChain)
      → compile h chain_id root goal n fragments ≡ ok chain
      → IsCompiled n fragments chain
  unfolding compile
  compile-IsCompiled n fragments chain e = elim (Result-cases (prepare n root fragments goal)) [
    | inl (x, q) ↦ absurd (ground arith)
    | inr ((relevant, initial), q) ↦
        elim (Exploration-cases (
          explore n initial root.clock_ms goal.conditions (selections (length relevant) 1 relevant)
            none none)) [
              | inr (f, c, r) ↦ absurd (ground arith)
              | inl (sim, r) ↦
                  let (es, t, made) = assemble_inv sim chain (ground arith) in
                  let p = prepare-IsPrepared n root goal fragments relevant initial q in
                  let w =
                    selections-FirstSuccess n initial root.clock_ms goal.conditions
                      (length relevant) 1 relevant none none sim r in
                  let apart =
                    combinations-Distinct w.size relevant w.selected w.chosen p.distinct in
                  let k =
                    schedule-IsScheduled n w.selected initial root.clock_ms goal.conditions sim
                      apart
                      (attempt_schedules n initial root.clock_ms goal.conditions w.selected sim
                        w.succeeded) in
                  record {
                    relevant = relevant;
                    initial = initial;
                    prepared = q;
                    from_root = p.from_root;
                    ordered = sim.ordered;
                    final = sim.state;
                    clock = sim.clock_ms;
                    named = ap (λ (z : CompiledChain). z.fragment_ids) made;
                    known = λ x i. p.known x (
                        combinations-In w.size relevant w.selected x w.chosen
                          (In-Perm x k.all_placed (subst (In x) k.appended i)));
                    distinct =
                        rw k.appended
                          (Distinct-Perm (map-Perm fragment_id (Permᴰ.symm k.all_placed)) apart);
                    runs = rw k.appended k.runs;
                    reached = k.reached;
                    numbered = rw made (resequenced-InSequence 0 sim.ordered es t);
                    minimal = λ j a b. w.smaller_fail j a (
                        subst (λ z. j < z)
                          (ap length k.appended
                            ∙ length-Perm k.all_placed
                            ∙ length-combinations w.size relevant w.selected w.chosen)
                          b);
                  }
            ]
  ]
