-- ===== src/Lib.antt =====
-- StateWeaver: a verification library for the core packages of the program.
--
-- The program searches for chains of state transitions in a system under test. packages/search decides
-- which candidates are promoted to dearer worlds under a budget, packages/policy decides whether an action
-- may be executed, packages/compiler puts fragments of behaviour into a chain that leads to a goal,
-- packages/replay executes a plan from a pinned root and reports what happened, and packages/worlds
-- creates, forks, restores and destroys the worlds in which actions run. What these packages say to each
-- other is in packages/contracts. A promotion's gates carry the outcome of the policy, a chain's actions
-- are authorized again by the policy, `to_replay_plan` hands a chain to the replay, and a world is where a
-- promoted candidate runs.
--
-- Contracts models what is shared of packages/contracts/src/stateweaver/contracts: Contracts.Scope is
-- scope.py, Contracts.Actions actions.py, Contracts.States the conditions and effects of state_ir.py with
-- the values that they compare, and Contracts.Fragments its `TransitionFragment`, Contracts.Oracles and
-- Contracts.Receipts oracles.py, where Receipts.Checks has the validators and Receipts.Reality says what a
-- receipt claims; the enums stand with what uses them.
--
-- Compiler models packages/compiler/src/stateweaver/compiler: Compiler.Models is models.py, and
-- compiler.py is in Compiler.States (conditions and effects on a simulated state), Compiler.Nodes (the
-- checks and filters on nodes), Compiler.Schedule (`_schedule`), Compiler.Cycles (`_has_dependency_cycle`)
-- and Compiler.Compile (`compile`); Compiler.Handover is `to_replay_plan`. An error that is raised is a
-- value with its code; a validator that fails in the construction of the chain has a code of its own.
-- Their child modules prove what they return.
--
-- Worlds models packages/worlds/src/stateweaver/worlds.
--   Worlds.Models is models.py: the frozen records as records, the validators as functions into a result.
--   Worlds.Store is store.py: `_WorldStore` as a record, its methods as actions of a state monad in which
--   a method that raises keeps what it had written. `_assert_environment_disjoint` and its kin are in
--   Store.Guards, `_rebuild_indexes` in Store.Index, reservations in Store.Reservations, `_add` and
--   `_replace` in Store.Publish.
--   Worlds.Manager is manager.py. A coroutine is a task: it runs without interruption from one await to the
--   next, so `start`, `enter` and `resume` are its pieces, an await is a task that waits, and an answer of the adapter,
--   a failure, a timeout or a cancellation resumes it. Worlds.Interleaving runs any number of such
--   tasks in any order, as a step relation.
--   Indexing, Atomic, Separation and Soundness prove what the operations keep.
--
-- Replay models packages/replay/src/stateweaver/replay: Replay.Captures, Replay.Models and Replay.Results
-- are models.py, Replay.Ports is ports.py, Replay.Steps, Replay.Kernel and Replay.Determinism are
-- kernel.py. The environment and the oracles are a record of functions over a state of the world outside,
-- which is passed from call to call; each call answers with a value of its declared type, with a timeout,
-- with an exception or with a cancellation, so the two handlers of `_execute_step` and those of `replay`
-- are branches on the answer. The models that are made of typed values in the phase of the steps accept
-- them, so the handlers of `replay` meet the failures of the reset alone. A timeout may arrive at any
-- call, whatever its length, and the bounds that the constructor sets on two of them are not modelled.
--
-- Search models packages/search/src/stateweaver/search: Search.Budget is the ledger of models.py with its
-- limits, reservations and validators, Search.Models the rest of models.py, and Search.Controller,
-- Search.Beam and Search.Selection are controller.py: the gates and the ranking, the loops of `advance`,
-- and `advance` itself. Selected, Tracing, Stages, Advance, Reasons, Coherent, Ordering, Batches,
-- Filing, Complete and Returns prove what a round guarantees. `advance` checks the ledger by its contract, without the binding
-- of each reservation's identifier to its content.
--
-- Policy models packages/policy/src/stateweaver/policy. Policy.Paths is `_path_matches`, with the regular
-- expression as a list of tokens; Policy.Models is models.py; Policy.Actions, Policy.Checks and
-- Policy.Evaluator are evaluator.py. Ownership, Shape, Permission, Outcomes and Waiting prove what a
-- decision says. Policy.Authorization is authorization.py, and Policy.Issued proves what a verified
-- authorization says.
--
-- Workflow models workflows/world/src/stateweaver/workflows/world: Workflow.Models is the records of
-- models.py and ports.py, Workflow.Relations is `create` with `_validate_result_relations`, and
-- orchestrator.py is in Workflow.State (attributes, constructor, checks), Workflow.Allocation (the loop of
-- `advance` and the releases), Workflow.Advance (the commitment and `advance` as a whole) and
-- Workflow.Closing (`close`). Its lock is held during a call, so a call is a function. The allocator and
-- the capture are a record of functions, as the ports of Replay are; a value of an undeclared type is an
-- answer that raises, and so is an allocated world with malformed fields, which the workflow neither
-- releases nor tracks. Workflow.Trail writes down what the allocator handed out and took back, and
-- Ownership, Picked, Affordable, Granting, Tracking, Sound, Promotions, Total and Calls prove what the
-- calls keep. `advance` is called on Search; a captured root is the root of the compiler.
--
-- Common holds the shared lists, dictionaries and results. Worlds and Workflow keep a state, and Replay
-- passes that of its environment on; the other packages are functions of their input.
--
-- Parameters and bounds: identifiers, hosts, digests and instants are natural numbers, of which the
-- code uses no more than equality and order; a Python integer is unbounded, so no width is cut. A
-- digest is an argument and any function may stand for it; a result that needs digests to differ says
-- so. A score is the place of its float in the order, and the priority formula is an argument. A
-- `Decimal` is a coefficient and a number of decimal places; that the product is rounded after 28
-- digits is not modelled. The numbers of a simulated state are codes, and their order, sum and
-- difference the parameter `Arithmetic`: a float is any code, and zero has the code 0. Two loops of
-- the compiler run on a bound: `_schedule` has as many rounds as nodes, for each round places one, and
-- `visit` goes one deeper than there are nodes, for a path holds each at most once. All else recurs on
-- its input. Validators run where the code constructs a record again; where a record comes in, its
-- field patterns are taken as checked. `_pruned` and the promotion of `advance` are modelled without
-- the check of `SearchDecision` that their construction makes.
--
-- Not modelled: the canonical JSON of packages/replay; `RealityReplayReceipt.create`; chain.py and the
-- event history of a promotion in workflows/world; the other packages (twin, evidence, reporting and the
-- rest of contracts), adapters, applications, laboratories, benchmarks and tools; pydantic's parsing,
-- event loops as threads, and the time that a call takes.
pub mod Common
pub mod Contracts
pub mod Compiler
pub mod Search
pub mod Worlds
pub mod Policy
pub mod Replay
pub mod Workflow
