-- ===== src/Compiler/Handover/Accepted.antt =====
-- Which compiled chains the replay accepts.
use stateweaver.Common.{
  ℕ, suc, ◌+◌, ◌≤◌, ◌≡◌, refl, sym, ap, subst, ◌∙◌, inl, inr, ◌↔◌, true, false, none, List, [], ◌∷◌,
  map, arith, ok, Result-cases, any, All, In, Distinct, is_empty, length, unique, unique_iff,
}
use stateweaver.Contracts.Actions.{ActionEnvelope}
use stateweaver.Contracts.States.{Arithmetic}
use stateweaver.Compiler.Models.{
  CompilerFragment, CompiledChain, CompilerDigests, RootState, TerminalGoal, validate_chain,
}
use stateweaver.Compiler.Compile.{
  compile, explore, prepare, selections, assemble, resequenced, chain_of,
}
use stateweaver.Compiler.Compile.Found.{Exploration-cases}
use stateweaver.Compiler.Compile.Found.{InSequence, compile-IsCompiled}
use stateweaver.Compiler.Handover.{default_timeout, replay_step, replay_steps, to_replay_plan}
use stateweaver.Replay.Models.{
  ReplayStep, ReplayPlan, validate_step, validate_plan, step_ids, idempotency_keys, sequences,
  increasing, is_reserved,
}

-- The steps when each is accepted.
abbrev made_steps : ℕ → List ActionEnvelope → List ReplayStep
made_steps k [] = []
made_steps k (e ∷ es) = replay_step k e ∷ made_steps (suc k) es

-- The action is authorized for as long as a step may take by default.
abbrev pub Lasting : ActionEnvelope → Type 0
Lasting e = default_timeout ≤ e.timeout_ms

step_accepted :
    (k : ℕ) (e : ActionEnvelope)
    → Lasting e
    → validate_step (replay_step k e) ≡ ok (replay_step k e)
unfolding validate_step unique
step_accepted k e l = ground arith

step-Lasting :
    (k : ℕ) (e : ActionEnvelope) (s : ReplayStep)
    → validate_step (replay_step k e) ≡ ok s
    → Lasting e × (replay_step k e ≡ s)
unfolding validate_step unique
step-Lasting k e s q = ground arith

steps_accepted :
    (k : ℕ) (es : List ActionEnvelope) → All Lasting es → replay_steps k es ≡ ok (made_steps k es)
unfolding replay_steps
steps_accepted k [] l = refl
steps_accepted k (e ∷ es) (l, ls) =
    ground (arith, step_accepted k e l, steps_accepted (suc k) es ls)

steps-Lasting :
    (k : ℕ) (es : List ActionEnvelope) (ss : List ReplayStep)
    → replay_steps k es ≡ ok ss
    → All Lasting es × (made_steps k es ≡ ss)
unfolding replay_steps
steps-Lasting k [] ss q = (tt, ground arith)
steps-Lasting k (e ∷ es) ss q = elim (Result-cases (validate_step (replay_step k e))) [
  | inl (x, g) ↦ absurd (ground arith)
  | inr (s, g) ↦ elim (Result-cases (replay_steps (suc k) es)) [
    | inl (x, f) ↦ absurd (ground arith)
    | inr (rest, f) ↦
        let (here, one) = step-Lasting k e s g in
        let (there, others) = steps-Lasting (suc k) es rest f in ((here, there), ground arith)
  ]
]

-- The identifiers go up from `4 + k`.
above : (k j : ℕ) (es : List ActionEnvelope) → In j (step_ids (made_steps k es)) → 4 + k ≤ j
above k j [] i = absurd i
above k j (e ∷ es) (inl q) = omega (arith, q)
above k j (e ∷ es) (inr i) = omega (arith, above (suc k) j es i)

ids_apart : (k : ℕ) (es : List ActionEnvelope) → Distinct (step_ids (made_steps k es))
ids_apart k [] = tt
ids_apart k (e ∷ es) =
    (λ i. absurd (omega (arith, above (suc k) (4 + k) es i)), ids_apart (suc k) es)

unreserved :
    (k : ℕ) (es : List ActionEnvelope) → any is_reserved (step_ids (made_steps k es)) ≡ false
unreserved k [] = refl
unreserved k (e ∷ es) = ground (arith, unreserved (suc k) es)

keys_kept :
    (k : ℕ) (es : List ActionEnvelope)
    → idempotency_keys (made_steps k es) ≡ map (λ (e : ActionEnvelope). e.idempotency_key) es
keys_kept k [] = refl
keys_kept k (e ∷ es) = ap (λ z. e.idempotency_key ∷ z) (keys_kept (suc k) es)

in_order :
    (k j : ℕ) (es : List ActionEnvelope)
    → InSequence j es
    → increasing (sequences (made_steps k es)) ≡ true
unfolding increasing
in_order k j [] s = refl
in_order k j (e ∷ []) s = refl
in_order k j (e ∷ e' ∷ es) (p, s) = ground (arith, s.0, in_order (suc k) (suc j) (e' ∷ es) s)

abbrev plan_of : CompiledChain → ℕ → ReplayPlan
plan_of c plan_id = record {
  plan_id = plan_id;
  root_seed_id = c.root_seed_id;
  steps = made_steps 0 c.action_envelopes;
}

-- The keys of a chain's actions.
abbrev pub keys_of : CompiledChain → List ℕ
keys_of c = map (λ (e : ActionEnvelope). e.idempotency_key) c.action_envelopes

made_nonempty :
    (k : ℕ) (es : List ActionEnvelope) → is_empty es ≡ false → is_empty (made_steps k es) ≡ false
made_nonempty k [] n = n
made_nonempty k (e ∷ es) n = refl

plan_accepted :
    (c : CompiledChain) (plan_id : ℕ)
    → is_empty c.action_envelopes ≡ false
    → InSequence 0 c.action_envelopes
    → Distinct (keys_of c)
    → validate_plan (plan_of c plan_id) ≡ ok (plan_of c plan_id)
unfolding validate_plan
plan_accepted c plan_id n s d = ground (
  arith,
  made_nonempty 0 c.action_envelopes n,
  unreserved 0 c.action_envelopes,
  (unique_iff (step_ids (made_steps 0 c.action_envelopes))).1 (ids_apart 0 c.action_envelopes),
  (unique_iff (idempotency_keys (made_steps 0 c.action_envelopes))).1
      (subst Distinct (sym (keys_kept 0 c.action_envelopes)) d),
  in_order 0 0 c.action_envelopes s,
)

plan_keys : (p p' : ReplayPlan) → validate_plan p ≡ ok p' → unique (idempotency_keys p.steps) ≡ true
unfolding validate_plan
plan_keys p p' e = ground arith

aligned_nonempty :
    (ks : List ℕ) (es : List ActionEnvelope)
    → is_empty ks ≡ false
    → length ks ≡ length es
    → is_empty es ≡ false
aligned_nonempty [] es n l = absurd (ground arith)
aligned_nonempty (k ∷ ks) [] n l = absurd (omega (arith, l))
aligned_nonempty (k ∷ ks) (e ∷ es) n l = refl

chain_nonempty :
    (h : CompilerDigests) (c c' : CompiledChain)
    → validate_chain h c ≡ ok c'
    → is_empty c'.action_envelopes ≡ false
unfolding validate_chain
chain_nonempty h c c' e =
    let aligned : (c ≡ c')
        × (is_empty c.fragment_ids ≡ false)
        × (length c.fragment_ids ≡ length c.action_envelopes) =
      (ground arith, ground arith, ground arith) in
    let (same, some_ids, lengths) = aligned in
    subst (λ (z : CompiledChain). is_empty z.action_envelopes ≡ false) same
      (aligned_nonempty c.fragment_ids c.action_envelopes some_ids lengths)

compiled_nonempty :
    (h : CompilerDigests) (chain_id : ℕ) (root : RootState) (goal : TerminalGoal) (n : Arithmetic)
    (fragments : List CompilerFragment) (c : CompiledChain)
    → compile h chain_id root goal n fragments ≡ ok c
    → is_empty c.action_envelopes ≡ false
unfolding compile assemble
compiled_nonempty h chain_id root goal n fragments c e =
    elim (Result-cases (prepare n root fragments goal)) [
      | inl (x, q) ↦ absurd (ground arith)
      | inr ((relevant, initial), q) ↦
          elim (Exploration-cases (
            explore n initial root.clock_ms goal.conditions
              (selections (length relevant) 1 relevant) none none)) [
                | inr (f, k, r) ↦ absurd (ground arith)
                | inl (sim, r) ↦ elim (Result-cases (resequenced 0 sim.ordered)) [
                  | inl (x, t) ↦ absurd (ground arith)
                  | inr (es, t) ↦
                      elim (Result-cases
                        (validate_chain h (chain_of h chain_id root goal sim.ordered es))) [
                          | inl (x, v) ↦ absurd (ground arith)
                          | inr (c', v) ↦
                              let same : c' ≡ c = ground arith in
                              subst (λ (z : CompiledChain). is_empty z.action_envelopes ≡ false)
                                same
                                (chain_nonempty h (chain_of h chain_id root goal sim.ordered es) c'
                                  v)
                        ]
                ]
              ]
    ]

to_accepted :
    (c : CompiledChain) (plan_id : ℕ) (p : ReplayPlan)
    → to_replay_plan c plan_id ≡ ok p
    → All Lasting c.action_envelopes × Distinct (keys_of c)
unfolding to_replay_plan
to_accepted c plan_id p e = elim (Result-cases (replay_steps 0 c.action_envelopes)) [
  | inl (x, q) ↦ absurd (ground arith)
  | inr (ss, q) ↦
      let (l, made) = steps-Lasting 0 c.action_envelopes ss q in
      let accepted : validate_plan
            (record { plan_id = plan_id; root_seed_id = c.root_seed_id; steps = ss })
          ≡ ok p =
        ground arith in
      (
        l,
        subst Distinct (ap idempotency_keys (sym made) ∙ keys_kept 0 c.action_envelopes) (
            (unique_iff (idempotency_keys ss)).0 (
              plan_keys (record { plan_id = plan_id; root_seed_id = c.root_seed_id; steps = ss }) p
                accepted)),
      )
]

-- A chain that was compiled becomes a plan just if each action's timeout is at least the ten seconds that a step has by default, and no two actions have one
-- idempotency key.
pub to_replay_plan_iff :
    (h : CompilerDigests) (chain_id : ℕ) (root : RootState) (goal : TerminalGoal) (n : Arithmetic)
    (fragments : List CompilerFragment) (c : CompiledChain) (plan_id : ℕ)
    → compile h chain_id root goal n fragments ≡ ok c
    → ((p : ReplayPlan) × (to_replay_plan c plan_id ≡ ok p))
      ↔ (All Lasting c.action_envelopes × Distinct (keys_of c))
unfolding to_replay_plan
to_replay_plan_iff h chain_id root goal n fragments c plan_id e = (
  λ x. to_accepted c plan_id x.0 x.1,
  λ (l, d). (
    plan_of c plan_id,
    rw (steps_accepted 0 c.action_envelopes l) (
        plan_accepted c plan_id (compiled_nonempty h chain_id root goal n fragments c e)
          (compile-IsCompiled h chain_id root goal n fragments c e).numbered d),
  ),
)
