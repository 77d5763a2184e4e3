-- ===== src/Compiler/Compile/Complete.antt =====
-- When `compile` returns a chain.
use stateweaver.Common.{
  ℕ, suc, ◌≤◌, ◌≡◌, refl, ap, subst, ◌∙◌, inl, inr, none, List, [], ◌∷◌, map, ok, arith, length, In,
  Distinct, unique_iff,
}
use mathlib.Core.List.Permᴰ
use stateweaver.Common.Perms.{In-Perm, Distinct-Perm, map-Perm, length-Perm}
use stateweaver.Contracts.Actions.{ActionEnvelope, validate_envelope}
use stateweaver.Contracts.States.{Arithmetic}
use stateweaver.Compiler.Models.{
  CompilerFragment, fragment_id, RootState, TerminalGoal, CompiledChain, CompilerDigests,
  validate_chain,
}
use stateweaver.Compiler.States.{State}
use stateweaver.Compiler.Nodes.{fragment_ids, resequenced_envelope}
use stateweaver.Compiler.Schedule.{Simulation}
use stateweaver.Compiler.Schedule.Sound.{schedule-IsScheduled}
use stateweaver.Compiler.Compile.{
  combinations, selections, explore, found, prepare, resequenced, chain_of, assemble, compile,
}
use stateweaver.Compiler.Compile.Selections.{
  Succeeds, combinations-In, combinations-Distinct, length-combinations, attempt_schedules,
  selections-FirstSuccess, selections-In, explore_exhausts,
}
use stateweaver.Compiler.Compile.Found.{Exploration-cases, prepare-IsPrepared}

length-map : {A B : Type 0} (f : A → B) (xs : List A) → length (map f xs) ≡ length xs
length-map f [] = refl
length-map f (x ∷ xs) = ap suc (length-map f xs)

-- An envelope that its check accepts is accepted under any sequence number.
resequenced_valid :
    (e : ActionEnvelope) (k : ℕ)
    → validate_envelope e ≡ ok e
    → resequenced_envelope e k ≡ ok (record e { sequence = k })
unfolding validate_envelope
resequenced_valid e k v = ground arith

resequenced_total :
    (k : ℕ) (fs : List CompilerFragment)
    → ((x : CompilerFragment) → In x fs → validate_envelope x.envelope ≡ ok x.envelope)
    → (es : List ActionEnvelope) × (resequenced k fs ≡ ok es) × (length es ≡ length fs)
unfolding resequenced
resequenced_total k [] v = ([], refl, refl)
resequenced_total k (f ∷ fs) v =
    let (es, q, l) = resequenced_total (suc k) fs (λ x i. v x (inr i)) in
    (
      record f.envelope { sequence = k } ∷ es,
      rw (resequenced_valid f.envelope k (v f (inl refl))) (rw q refl),
      ap suc l,
    )

module _ (h : CompilerDigests) (chain_id : ℕ) (root : RootState) (goal : TerminalGoal) where
  chain_valid :
      (fs : List CompilerFragment) (es : List ActionEnvelope)
      → 1 ≤ length fs
      → length es ≡ length fs
      → Distinct (fragment_ids fs)
      → validate_chain h (chain_of h chain_id root goal fs es)
        ≡ ok (chain_of h chain_id root goal fs es)
  unfolding validate_chain
  chain_valid [] es a l d = absurd (omega arith)
  chain_valid (f ∷ fs) es a l d = ground (
    arith,
    length-map fragment_id fs,
    length-map h.fragment fs,
    (unique_iff (fragment_ids (f ∷ fs))).1 d,
  )

  assemble_total :
      (sim : Simulation)
      → 1 ≤ length sim.ordered
      → Distinct (fragment_ids sim.ordered)
      → ((x : CompilerFragment) → In x sim.ordered → validate_envelope x.envelope ≡ ok x.envelope)
      → (chain : CompiledChain) × (assemble h chain_id root goal sim ≡ ok chain)
  unfolding assemble
  assemble_total sim a d v =
      let (es, q, l) = resequenced_total 0 sim.ordered v in
      (
        chain_of h chain_id root goal sim.ordered es,
        rw q (rw (chain_valid sim.ordered es a l d) refl),
      )

  compile_outcome :
      (n : Arithmetic) (fragments relevant : List CompilerFragment) (initial : State)
      (sim : Simulation)
      → prepare n root fragments goal ≡ ok (relevant, initial)
      → explore n initial root.clock_ms goal.conditions
          (selections (length relevant) 1 relevant)
          none
          none
        ≡ found sim
      → compile h chain_id root goal n fragments ≡ assemble h chain_id root goal sim
  unfolding compile
  compile_outcome n fragments relevant initial sim q r = ground arith

  -- `compile` returns a chain whenever some combination of the relevant fragments can be scheduled, provided that the inputs pass the checks that
  -- precede the search and the envelopes are valid.
  pub compile_finds :
      (n : Arithmetic) (fragments relevant xs : List CompilerFragment) (initial : State) (k : ℕ)
      (sim : Simulation)
      → prepare n root fragments goal ≡ ok (relevant, initial)
      → ((x : CompilerFragment) → In x fragments → validate_envelope x.envelope ≡ ok x.envelope)
      → 1 ≤ k
      → k ≤ length relevant
      → In xs (combinations k relevant)
      → Succeeds n initial root.clock_ms goal.conditions xs sim
      → (chain : CompiledChain) × (compile h chain_id root goal n fragments ≡ ok chain)
  compile_finds n fragments relevant xs initial k sim q v a b i s =
      let p = prepare-IsPrepared n root goal fragments relevant initial q in
      elim (Exploration-cases (
        explore n initial root.clock_ms goal.conditions (selections (length relevant) 1 relevant)
          none none)) [
            | inr (f, c, r) ↦
                let (x, t) =
                  explore_exhausts n initial root.clock_ms goal.conditions
                    (selections (length relevant) 1 relevant) none none f c r xs
                    (selections-In n initial root.clock_ms goal.conditions (length relevant) 1 k
                      relevant xs a (omega arith) i) in
                absurd (ground arith)
            | inl (sim', r) ↦
                let w =
                  selections-FirstSuccess n initial root.clock_ms goal.conditions (length relevant)
                    1 relevant none none sim' r in
                let apart = combinations-Distinct w.size relevant w.selected w.chosen p.distinct in
                let g =
                  schedule-IsScheduled n w.selected initial root.clock_ms goal.conditions sim' apart
                    (attempt_schedules n initial root.clock_ms goal.conditions w.selected sim'
                      w.succeeded) in
                let (chain, t) =
                  assemble_total sim'
                    (omega (
                      arith,
                      w.enough,
                      ap length g.appended,
                      length-Perm g.all_placed,
                      length-combinations w.size relevant w.selected w.chosen,
                    ))
                    (rw g.appended
                      (Distinct-Perm (map-Perm fragment_id (Permᴰ.symm g.all_placed)) apart))
                    (λ x j. v x (
                      p.known x (
                        combinations-In w.size relevant w.selected x w.chosen
                          (In-Perm x g.all_placed (subst (In x) g.appended j))))) in
                (chain, compile_outcome n fragments relevant initial sim' q r ∙ t)
          ]
