-- ===== src/Lib.antt =====
-- Open Authority Trials: the consequence boundary, its authority and its verifiers.
--
-- An agent acts on a protected sink. A guarded route presents an authorization to the sink's
-- interlock; a route that nobody declared may commit without one. An observer emits a receipt for
-- each commit. From the commits, the receipts, the authorizations and the authority states, a
-- verifier decides whether the boundary was crossed. The RB-001 boundary is a small synthetic case
-- of the same question: was a payment committed after its authority was revoked?
--
-- The files and what they model:
--   Prelude        lists, options, signed integers, dictionaries, texts and sorting
--   Canonical      oat/canonical.py and oat/digest.py: JSON values, `strip_noncanonical`,
--                  `json.dumps` with sorted keys, UTF-8, `digest_object`, what `str` prints of
--                  a value (Printed)
--   Authority      oat/authority: `validate_delegation` (Delegation), `AuthorityStore.add` and `at`
--                  (CurrentState), `AuthorizationIssuer`, `validate_authorization` (Authorization)
--   Consequence    oat/consequence: exact actions, commits and receipts (Model),
--                  `PaymentLedgerSink.submit`, `commit_unguarded`, `_commit` (Sink)
--   Paths          oat/paths: `observations_from_sink`, `reconcile`
--   Verifier       oat/verifier/consequence.py: `_adjudicate_commit`, `adjudicate` (Consequence),
--                  oat/verifier/v1.py `verify`, oat/witness.py `build_witness` and
--                  `variation_of` (V1)
--   Evidence       oat/evidence: `build_graph`, `audit` (Graph), `verify_package` (Package),
--                  `evidence_from_scenario` (Replay)
--   Scenarios      oat/consequence/scenarios.py: the reference profile's scenarios
--   ReferenceBoundary, Falsifier, Pipeline
--                  oat/reference_boundaries/rb001.py `execute`, oat/falsifiers/rb001.py `evaluate`,
--                  oat/pipeline.py `search` (`search_candidates` here), oat/replay.py
--                  `replay_run`
--   Adversary      oat/adversaries/deterministic.py: `_axes`, `propose`, `identity`
--   Trial          oat/trial.py: `adjudicate` (`decide` and `adjudicate_attempt` here)
--   HostSink       oat/integration/host_sink.py: the tables of `SQLiteLedger` and `SQLiteObserver`
--                  (Tables), `guarded`, `hidden`, `evidence`, `verdict` (Handlers), the guarded
--                  calls of several threads (Interleaving), `enqueue`, `_worker_loop`, `do_POST`
--                  (Queue), the reference integration (Reference)
--   Sequence       tools/oat_consequence_sequence_runner_004.py: `AuthorizationLedger`, `GateState`,
--                  `fail_closed_verdict`, the closure of `adjudicate_sequence`; the provider's calls
--                  and their retries (Provider), the loop of `run_s3` (Run), the stages in the order
--                  of `main` (Stages), the positive control of `run_s1` (Control),
--                  `verify_provider_preflight` and `execution_facts` (Preflight), the host of
--                  `replay_from_evidence` (Replay)
--   Qualification  oat/qualification: the target service (Target), a candidate's run and the replay
--                  of its evidence (Candidate), its probes (Probes), the selection (Selection)
--   Examples       the theorems at concrete inputs
--
-- State is a record that an operation takes and returns: the sink with its ledger, receipts, logs,
-- seen keys and the issuer's use counts. A dictionary is an association list, a set a list without
-- repetition, an exception an error value, Python's `int` a signed integer over the native numbers.
-- A table of SQLite is the list of its rows with the constraints that its statement declares, and
-- an integer that its columns of 64 bits do not hold is an OverflowError (`fits`): the theorems on
-- the host that need a recorded tick ask for one that fits. What
-- is outside - a provider's answers, the clock, the text of a value, the facts that a stage finds -
-- is a function or a record that an operation takes. Threads are a list of requests, each at a stage
-- of its handler between two accesses to shared state; a step moves one of them or accepts another.
-- SHA-256 and HMAC are a parameter, the record `Hashing`: no theorem needs a law of it. Texts that
-- explain a result are kept as the data that they print. Loops are recursion on a list, but for the
-- two loops with a budget of calls, `run_loop` and `candidate_loop`: they run on fuel, one more than
-- the budget, which is enough since every turn that goes on calls the provider.
--
-- Not modelled: files, processes, the protocols of SQLite, HTTP and the providers, the transcripts
-- and evidence files of a run (oat/qualification/evidence_store.py, most of tools), the generation
-- of targets from a seed, the leak audits and the signatures of probes (oat/qualification), schema
-- validation by a third-party package (oat/manifest.py; a parameter of V1), the command line. Floats
-- occur only as rates and medians, which are kept as the whole numbers that determine them.
pub mod Prelude
pub mod Canonical
pub mod Authority
pub mod Consequence
pub mod Paths
pub mod Verifier
pub mod Evidence
pub mod ReferenceBoundary
pub mod Falsifier
pub mod Pipeline
pub mod Scenarios
pub mod HostSink
pub mod Adversary
pub mod Examples
pub mod Trial
pub mod Sequence
pub mod Qualification
