-- ===== src/Lib.antt =====
-- The rollout market: workers lease rollout jobs from a broker, send back groups of sampled
-- trajectories, and a trainer consumes the groups whose budget allows it.
--
-- The parts, and the files that model them:
-- - src/rollout_market/contracts.py: Contracts. The pydantic models are records, and the function
--   `new_x` is what constructing the model X runs: it returns the record or ValidationError.
-- - src/rollout_market/worker_broker.py: Broker. The broker's fields are the record of Broker/State;
--   each method is a function to a result and the next broker, in Broker/Workers, Broker/Leasing,
--   Broker/Closing and Broker/Reaping. Broker/Steps is the step relation of all calls.
-- - src/rollout_market/livestore.py: LiveStore. The broker writes each submitted group to it.
-- - src/rollout_market/trainer_client.py: TrainerClient, which reads and marks the store's records.
--   Lifecycle has the step relation of all calls of the store and the client.
-- - src/rollout_market/validators.py: Validators.
-- - src/rollout_market/opbc.py: Opbc/Report (the budget of a group) and Opbc/Decide (its decision).
-- - src/rollout_market/pool_reload.py: PoolReload.
-- - src/rollout_market/mismatch_metrics.py: MismatchMetrics, the summary of two lists of
--   log-probabilities.
-- - src/rollout_market/observatory/dense_mismatch_lab.py, router_mismatch_lab.py and
--   agent_trajectory_lab.py there: DenseLab, RouterLab and AgentLab (AgentLab/Texts compares answers,
--   AgentLab/Walk compares runs). _device.py and _engine_filter.py there: Device.
-- - src/rollout_market/observatory/marketplace_simulation.py: Simulation. Simulation/Profiles has the
--   groups of each profile, Simulation/Rounds the trainer's side and a round of a worker, which calls
--   the worker's client, the validators and the budget.
-- - scripts/live/hermes_token_extraction.py, build_hermes_dense_input.py, pair_hermes_dense_reports.py,
--   pair_hermes_moe_reports.py, merge_probes_into_trajectories.py and logprob_capture_proxy.py there:
--   Hermes/Tokens, Hermes/Inputs, Hermes/Pairing, Hermes/Routing, Hermes/Probes and Hermes/Proxy. The
--   proxy captures probes, which are stamped onto agent runs; the runs of AgentLab become tokens for
--   the trainer, and its answers become reports of DenseLab and RouterLab. Hermes/Turns numbers the
--   turns of runs, for what is proved of the index.
-- - src/rollout_market/worker.py: WorkerSdk, the calls that a worker makes of the broker.
-- - src/rollout_market/registry.py and verifier.py there: Registry, the published manifests and the
--   hash of a group.
-- - src/rollout_market/dispatcher.py: Dispatcher, the choice of a worker by capability and price.
-- - src/rollout_market/feedback.py: Feedback, the trainer's reports and their running totals.
-- Prelude has what these share: dictionaries, Boolean tests, results, and the interfaces to texts
-- and floats. Examples has the theorems at concrete inputs.
--
-- How the code is modelled. An `int` is a ℤ; the counters that start at 0 and only grow are ℕ. A
-- `datetime` and a time to live are whole microseconds in ℕ. A `float` is its bit pattern, and its
-- operations, with those of numpy and `statistics`, are the fields of the interface `Floats`;
-- `strip`, `repr` and the formats of messages are those of `Texts`; nothing is assumed of either
-- but what a theorem names, as the order and equality of floats in Dispatcher. A `dict` is an
-- association list in insertion order, and a `set` a list that is read by membership. An exception
-- is its class. A method that may raise returns a result beside the state, and one that mutates
-- returns the next state. The wall clock and `uuid4` are arguments; a call reads the clock once. A
-- record that the source hands out by reference is a copy at the time of the call. The locks are
-- left out: the calls are a sequence in some order. All loops go over a list or a dictionary, or
-- count down, so no fuel is needed.
--
-- Sums of plain Python are the interface `Sums`, the texts, regular expressions and numbers of the
-- answers' comparison are `Answers`, a tokenizer's chat template is `ChatTokenizer`, and digests and
-- numbers in texts are `Labels`, `Numbers` and `Dumps`. The proxy's `float(n)` of an int, which may
-- raise OverflowError, is an argument. The draws of a random generator are arguments.
-- JSON that a script reads is a record of the keys that it uses, or `Json` where the script tells
-- shapes apart. The trace of a router is one that its validator accepted: the loops over its
-- layers count in naturals.
--
-- Not modelled: the rest of the observatory (HTML, file output and the HTTP probe), the command line
-- (src/rollout_market/cli), the rest of scripts/live and examples, which drive the core and render
-- its output; and the threads and the counters of the simulation.
pub mod Prelude
pub mod Contracts
pub mod LiveStore
pub mod TrainerClient
pub mod Lifecycle
pub mod Broker
pub mod Validators
pub mod Opbc
pub mod PoolReload
pub mod Feedback
pub mod WorkerSdk
pub mod Dispatcher
pub mod MismatchMetrics
pub mod DenseLab
pub mod RouterLab
pub mod AgentLab
pub mod Device
pub mod Simulation
pub mod Hermes
pub mod Registry
pub mod Examples
