-- ===== src/Lib.antt =====
-- A verification library for the kernel of the Super Scientist orchestration harness.
--
-- The harness records scientific claims, the evidence behind them and the decisions on proposals
-- to change them. A proposal reaches the admission engine with a context, the recorded heads of
-- all claims and evidence; the engine checks the proposal by the lifecycle of claims, by the
-- independence of actors and by deterministic checks of the evidence; every decision goes into a
-- chain of audit events that are linked by hashes. The coordinator makes one transaction of this.
-- A run of research has a plan of subtasks that depend on one another; its progress is recomputed
-- from the events that validate subtasks. Behavioural rules are versioned, and a candidate is
-- classified by its overlap with active rules.
-- Actors assert capabilities; a cohort is derived from the profiles of those that satisfy most of a
-- request. The peers of a cohort collaborate in a session: the engine lets one peer after another
-- contribute, changes the topology of who may follow whom, and ends at one of several bounds. Each
-- state of a session carries its whole history, which the validator of the state replays.
--
-- Files, and the code they model (paths under src/super_scientist/):
--   Prelude and Prelude/: tests, equality, lists and texts of Python, shared by all modules.
--   Identity: domain/identity.py, `ActorIdentity` and `are_independent`.
--   Claim: domain/claims/models.py and transitions.py, `AtomicClaim` with its validator, and the
--     table `ALLOWED` behind `validate_transition`.
--   Json: the values behind `freeze_json_mapping` of kernel/audit/models.py.
--   Evidence: domain/evidence/models.py, the records and the validator of a span.
--   Drift: evaluation/claim_drift/deterministic.py, one function per check.
--   Admission: kernel/admission/engine.py, `AdmissionEngine.decide` cut at its early returns into
--     `decide_proposal`, `decide_valid`, `decide_new`, `decide_approved`, `decide_add_evidence`,
--     `decide_propose_claim`, `decide_transition`, `decide_move` and `decide_evidence`.
--     Admission/Proposals holds the proposals and decisions of kernel/transactions/models.py.
--   Audit: kernel/audit/chain.py, `append_event` and `verify_chain`.
--   Improvement: domain/improvement/classification.py and models.py, what progress uses of them.
--   Progress: domain/progress/models.py, the records and the validator of an event.
--     Progress/Topology: `_topological_subtasks` of domain/progress/calculations.py, cut at its loops
--     into `index_subtasks`, `check_dependencies`, `drain`, `release` and `pick`.
--     Progress/Calculation: `calculate_progress`. Progress/Finish: `detect_false_finish`,
--     `current_progress_plan` and `event_advances_progress_head`.
--   Rules: domain/behavioral_rules/models.py, the versions of rules, and `classify_overlap` and
--     `canonical_overlap_classification` of consolidation.py. Rules/Versions:
--     `semantic_version_increases`.
--   Ledger: the rows behind the repositories of providers/storage/repositories.py, `build_context`,
--     `project` and `_audit` of application/transactions/coordinator.py. Ledger/Submission:
--     `_submit_locked`, cut at its early returns into `resubmit`, `refuse_policy`, `submit_new`,
--     `admit`, `carry_through` and `store`. Ledger/Governed: `_attempted_governed_proposal_type` and
--     `_governed_handler_failure_decision`, by which `admit` refuses an invalid proposal that was
--     meant to be of a governed kind.
--   Cognition: domain/cognition/models.py, capabilities, requests and cohorts. Cognition/Assessment:
--     the validators of an assessment, `from_matches` and `_assess_capability_validated`.
--     Cognition/Candidates and Cognition/Cohort: `_derive_cohort_validated` of
--     domain/cognition/grounding.py, the ranking and selection and then the rest.
--   Collaboration: domain/collaboration/models.py, the records. Collaboration/Usage:
--     `_UsageAccumulator`. Collaboration/Topology: snapshots, events and eligible peers.
--     Collaboration/Termination: completion, the reasons to end and the hashes of a state.
--     Collaboration/Integrity: `require_semantic_integrity`, with
--     `_require_deterministic_transition_replay` in its child Replay. Collaboration/Observation:
--     `CollaborationState.build` and the two hashes that each state appends. Collaboration/Engine:
--     domain/collaboration/engine.py.
--   Trails: `_has_cycle` of domain/evidence_trails/validation.py, cut at its loops into `search`, `visit`
--     and `visit_all`.
--   Samples and Samples/: concrete inputs, tests and the theorems at those inputs.
-- Modules below a component hold its proofs, named for what they prove.
--
-- How the code is read. A frozen model is a record, an enumeration a data type, a tuple or a set a
-- list, a mapping an association list with its keys in order. A `ValueError` of a validator is
-- `none`. A timestamp is a number of microseconds. Python integers that are never negative are
-- natural numbers without a bound, and so there is nothing to wrap around. A decimal weight and a
-- float of a usage are numbers of units of 10^-384; where the code turns a decimal back into a
-- float, `nearest` rounds it. A `Counter` is the list of what it counts. A session that equals the
-- session of a state is taken to be that session. Length and size bounds of single fields are left
-- to Pydantic. Every loop is a structural recursion, with three exceptions that have a bound:
-- `str(n)` has one round for each unit of `n` and so one for each digit at least, and the loop
-- `while ready` of `_topological_subtasks` has one round for each subtask, which is enough as each
-- of them is taken from the queue at most once; and the loop `while stack` of `_has_cycle` has one
-- round for each target of an unseen node and one more for the node, as each node comes onto the
-- stack once.
--
-- Parameters: `str.casefold`, as a function from texts to texts, in Rules; `hashlib.sha256`,
-- `json.dumps` and `datetime.isoformat` are the record `Digests` of Audit; what is asked of them
-- is the record `IsFaithful` of Audit/Tamper. The record `Environment` of
-- Ledger has these digests, `model_dump` of Pydantic, the configured policy and the answers of the
-- artifact store. The record `Platform` of Collaboration has the digests, `model_dump`, the rounding
-- and the printing of decimals; derive_cohort_validated takes the `model_dump` of an assessment.
-- The validation of a raw value by Pydantic is the
-- option that `decide_proposal` takes.
--
-- Not modelled: the command line, the SQL repositories and migrations, the handbook, the quality
-- tools, budgets and checkpoints, the consolidation of rules, the validators of cohort plans,
-- of sessions, of requests and of contributions, the diversity of a cohort, the rest of
-- the validation of evidence trails, and
-- the services of cognition, collaboration, procedures, trails and evaluation. Of the proposals of
-- other kinds than the three of the kernel and the invalid ones nothing is said: where the
-- coordinator would route one of them, `admit`, and so `submit_locked`, is `none`.
mod Prelude
pub mod Identity
pub mod Claim
pub mod Json
pub mod Evidence
pub mod Improvement
pub mod Progress
pub mod Rules
pub mod Ledger
pub mod Drift
pub mod Cognition
pub mod Collaboration
pub mod Trails
pub mod Admission
pub mod Audit
mod Samples
