-- ===== src/Compiler/Tests.antt =====
-- Two steps that lead from a root to a goal, and the theorems at them.
use stateweaver.Common.{
  ℕ, ◌≡◌, refl, inl, inr, true, false, none, List, [], ◌∷◌, ok, err, ltb, ◌+◌, ◌-◌, All, ◌↔◌, ◌≢◌,
  arith, In, Distinct,
}
use stateweaver.Contracts.Actions.{action_scope, validate_envelope, validate_scope_authorization}
use stateweaver.Contracts.Scope.{
  ScopeAction-discrete, RiskClass-discrete, requirement_for, valid_at,
}
use stateweaver.Contracts.States.{
  validate_condition, validate_effect, scalar_eq, tuple_eq, value_eq, text_less, scalar_less,
  tuple_less, value_less, starts_with, occurs_in, value_in,
}
use stateweaver.Compiler.States.{
  compares, condition_matches, all_conditions, apply_effect, apply_effects, effect_supports,
  seed_condition, seed_conditions, state_from_conditions,
}
use stateweaver.Compiler.Models.{
  validate_window, validate_binding, Action-discrete, validate_compiler_fragment, validate_goal,
  causal_projection, validate_chain,
}
use stateweaver.Compiler.Nodes.{
  action_bindings, validate_node, validate_nodes, insert_node, sort_nodes, compatible_effects,
  effects_compatible, all_preconditions, can_contribute,
}
use stateweaver.Compiler.Schedule.{
  least_node, without_node, ready_nodes, next_node, schedule_rounds, schedule,
}
use stateweaver.Compiler.Cycles.{
  producers, awaited, edges_of, visit_all, visit, has_dependency_cycle,
}
use stateweaver.Compiler.Compile.{
  combinations, selections, attempt, explore, relevant_nodes, prepare, resequenced, assemble,
  compile,
}
use stateweaver.Compiler.Handover.{replay_steps, to_replay_plan}
use stateweaver.Replay.Models.{
  validate_root, validate_expectation, validate_step, increasing, validate_plan,
  validate_step_result,
}
use stateweaver.Common.{contains, unique, text_eq, ℕ_discrete}
use stateweaver.Common.Dict.{lookup, insert, erase}
use stateweaver.Contracts.Scope.{reversible_state_change}
use stateweaver.Contracts.Actions.{Action, ActionEnvelope, time_advance, browser_click}
use stateweaver.Contracts.States.{Arithmetic, number, StateCondition, StateEffect, eq, set}
use stateweaver.Contracts.Fragments.{observed, FidelityProfile, observed_level}
use stateweaver.Compiler.Models.{
  CompilerFragment, RootState, TerminalGoal, CompilerDigests, CompiledChain,
}
use stateweaver.Compiler.States.{State, CompilationError, out_of_rounds, failing}
use stateweaver.Compiler.Schedule.{Simulation}
use stateweaver.Compiler.Schedule.Sound.{IsScheduled, schedule-IsScheduled, schedule_ends}
use stateweaver.Compiler.Cycles.Walks.{Reaches}
use stateweaver.Compiler.Cycles.Correct.{has_dependency_cycle_iff}
use stateweaver.Replay.Models.{ReplayPlan, timeout_expands}
use stateweaver.Compiler.Handover.Accepted.{Lasting, keys_of, to_replay_plan_iff}
use stateweaver.Compiler.Compile.Selections.{Succeeds}
use stateweaver.Compiler.Nodes.{fragment_ids}
use stateweaver.Compiler.Compile.Found.{IsCompiled, compile-IsCompiled}
use stateweaver.Compiler.Compile.Complete.{compile_finds}

-- On an `unfolding` line this opens the code.
engine : Unit {0}
unfolding action_scope validate_envelope validate_scope_authorization ScopeAction-discrete
    RiskClass-discrete requirement_for valid_at validate_condition validate_effect scalar_eq
    tuple_eq value_eq text_less scalar_less tuple_less value_less starts_with occurs_in value_in
    compares condition_matches all_conditions apply_effect apply_effects effect_supports
    seed_condition seed_conditions state_from_conditions validate_window validate_binding
    Action-discrete validate_compiler_fragment validate_goal causal_projection validate_chain
    action_bindings validate_node validate_nodes insert_node sort_nodes compatible_effects
    effects_compatible all_preconditions can_contribute least_node without_node ready_nodes
    next_node schedule_rounds schedule producers awaited edges_of visit_all visit
    has_dependency_cycle combinations selections attempt explore relevant_nodes prepare resequenced
    assemble compile replay_steps to_replay_plan validate_root validate_expectation validate_step
    increasing validate_plan validate_step_result contains unique text_eq ℕ_discrete lookup insert
    erase
engine = tt

abbrev naturals : Arithmetic
naturals = record {
  of_truth = λ b. elim b [ true ↦ 1 | false ↦ 0 ];
  less = ltb;
  add = λ a b. a + b;
  subtract = λ a b. a - b;
}

abbrev equals : ℕ → ℕ → StateCondition
equals p v = record { path = p; operator = eq; value = number v; reference = none }

abbrev sets : ℕ → ℕ → StateEffect
sets p v = record { path = p; operation = set; value = number v }

abbrev observed_fidelity : FidelityProfile
observed_fidelity = record {
  code = observed_level;
  identity = observed_level;
  database = observed_level;
  cache = observed_level;
  queue = observed_level;
  timing = observed_level;
}

abbrev envelope : ℕ → Action → ActionEnvelope
envelope k a = record {
  action_id = k;
  world_id = 5;
  idempotency_key = k;
  policy_decision_ref = k;
  sequence = 7;
  details = 0;
  scope_action = action_scope a;
  action = a;
  risk_class = reversible_state_change;
  approval_ref = none;
  timeout_ms = 100;
}

abbrev fragment : ℕ → Action → StateCondition → StateEffect → List ℕ → CompilerFragment
fragment k a c e after = record {
  fragment = record {
    transition_id = k;
    name = k;
    source = observed;
    preconditions = c ∷ [];
    action = a;
    effects = e ∷ [];
    observables = c ∷ [];
    evidence_ids = 1 ∷ [];
    fidelity = observed_fidelity;
    consistent_replays = 2;
  };
  envelope = envelope k a;
  world_id = 5;
  binding = record { identity_handle = none; session_handle = none; artifact_handle = none };
  window = record { opens_at_ms = 0; closes_at_ms = 10 };
  after = after;
  cost = 1;
}

-- The first waits five milliseconds, the second needs what the first leaves.
abbrev wait : CompilerFragment
wait = fragment 1 (time_advance 5) (equals 1 0) (sets 1 1) []

abbrev click : CompilerFragment
click = fragment 2 browser_click (equals 1 1) (sets 2 1) (1 ∷ [])

abbrev given : List CompilerFragment
given = click ∷ wait ∷ []

abbrev sorted : List CompilerFragment
sorted = wait ∷ click ∷ []

abbrev root : RootState
root = record { root_seed_id = 3; world_id = 5; conditions = equals 1 0 ∷ []; clock_ms = 1 }

abbrev goal : TerminalGoal
goal = record { goal_id = 4; conditions = equals 2 1 ∷ [] }

abbrev digests : CompilerDigests
digests = record { root = λ _. 1; fragment = λ f. f.cost; causal = λ c. c.root_seed_id }

abbrev initial : State
unfolding engine
initial = elim (state_from_conditions naturals root.conditions) [ ok s ↦ s | err _ ↦ [] ]

abbrev nothing : Simulation
nothing = record { state = []; clock_ms = 0; ordered = [] }

abbrev sim : Simulation
unfolding engine
sim = elim (schedule naturals sorted initial 1 goal.conditions) [ ok s ↦ s | err _ ↦ nothing ]

abbrev no_chain : CompiledChain
no_chain = record {
  chain_id = 0;
  root_seed_id = 0;
  world_id = 0;
  fragment_ids = [];
  action_envelopes = [];
  root_state_hash = 0;
  fragment_semantic_hashes = [];
  terminal_goal = goal;
  causal_hash = 0;
}

abbrev chain : CompiledChain
unfolding engine
chain = elim (compile digests 9 root goal naturals given) [ ok c ↦ c | err _ ↦ no_chain ]

compile_test : compile digests 9 root goal naturals given ≡ ok chain
unfolding engine
compile_test = refl

compiled_test : chain.fragment_ids ≡ 1 ∷ 2 ∷ []
unfolding engine
compiled_test = refl

compile-IsCompiled_example : IsCompiled digests 9 root goal naturals given chain
compile-IsCompiled_example =
    compile-IsCompiled digests 9 root goal naturals given chain compile_test

schedule_test : schedule naturals sorted initial 1 goal.conditions ≡ ok sim
unfolding engine
schedule_test = refl

apart_test : Distinct (fragment_ids sorted)
apart_test = (λ i. elim i [ inl e ↦ absurd (ground (arith, e)) | inr j ↦ j ], (λ j. j, tt))

schedule-IsScheduled_example : IsScheduled naturals goal.conditions sorted [] initial 1 sim
schedule-IsScheduled_example =
    schedule-IsScheduled naturals sorted initial 1 goal.conditions sim apart_test schedule_test

-- The second step alone is refused.
abbrev refusal : CompilationError
unfolding engine
refusal = elim (schedule naturals (click ∷ []) initial 1 goal.conditions) [
  | ok _ ↦ failing out_of_rounds
  | err e ↦ e
]

refusal_test : schedule naturals (click ∷ []) initial 1 goal.conditions ≡ err refusal
unfolding engine
refusal_test = refl

schedule_ends_example : refusal.code ≢ out_of_rounds
schedule_ends_example =
    schedule_ends naturals (click ∷ []) initial 1 goal.conditions refusal refusal_test

prepare_test : prepare naturals root given goal ≡ ok (sorted, initial)
unfolding engine
prepare_test = refl

envelopes_test : (x : CompilerFragment) → In x given → validate_envelope x.envelope ≡ ok x.envelope
unfolding engine
envelopes_test x (inl e) = rw e refl
envelopes_test x (inr (inl e)) = rw e refl
envelopes_test x (inr (inr i)) = absurd i

attempt_test : Succeeds naturals initial 1 goal.conditions sorted sim
unfolding engine
attempt_test = refl

chosen_test : In sorted (combinations 2 sorted)
unfolding engine
chosen_test = inl refl

compile_finds_example : (c : CompiledChain) × (compile digests 9 root goal naturals given ≡ ok c)
compile_finds_example =
    compile_finds digests 9 root goal naturals given sorted sorted initial 2 sim prepare_test
      envelopes_test (omega arith) (omega arith) chosen_test attempt_test

-- Two steps that wait for each other.
abbrev circle : List CompilerFragment
circle =
    fragment 1 browser_click (equals 1 1) (sets 2 1) []
    ∷ fragment 2 browser_click (equals 2 1) (sets 1 1) []
    ∷ []

circle_test : has_dependency_cycle naturals circle [] ≡ true
unfolding engine
circle_test = refl

straight_test : has_dependency_cycle naturals sorted initial ≡ false
unfolding engine
straight_test = refl

has_dependency_cycle_iff_example :
    (has_dependency_cycle naturals circle [] ≡ true)
    ↔ ((c : ℕ) × Reaches (edges_of naturals [] circle circle) c c)
has_dependency_cycle_iff_example = has_dependency_cycle_iff naturals circle []

to_replay_plan_iff_example :
    ((p : ReplayPlan) × (to_replay_plan chain 6 ≡ ok p))
    ↔ (All Lasting chain.action_envelopes × Distinct (keys_of chain))
to_replay_plan_iff_example =
    to_replay_plan_iff digests 9 root goal naturals given chain 6 compile_test

-- A timeout of a tenth of a second is too short.
hasty_test : to_replay_plan chain 6 ≡ err timeout_expands
unfolding engine
hasty_test = refl
