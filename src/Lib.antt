-- ===== src/Lib.antt =====
-- A model of ai4-constrain, and what holds of it. The program checks the text of a language model
-- against rubrics (shards), lets an agent revise it within fixed bounds, keeps a ledger of dollars
-- and calls for a run, and prepares transfers that the user's own wallet signs.
--
-- The parts, the code they model, and how they call each other:
--   - Prelude: shared helpers, by no code of the repository. Results that may be errors, dictionaries,
--     Python's `sorted` and the order of `str`, tests on numbers and texts.
--   - Abort: ai4/constrain/_v07_3a/abort.py (the classes of an abort) and
--     ai4/constrain/_v07_3a/_common.py (reject_authority_kwargs and the checks of a number).
--   - Budget: ai4/constrain/_v07_3a/budget.py, `RunBudgetAuthority`: __init__ (init),
--     reserve_proposal_completion, reserve_examiner_call, begin_execute, commit, release, and below
--     them _reserve, _require_handle and _release_locked. A method takes the authority and returns its
--     outcome with the authority afterwards; `step` and `run` are a call and a sequence of calls. A
--     method holds the lock for its whole body, so threads interleave as such sequences; the one check
--     that stands outside the lock, of the handle, has a theorem of its own. Rules, Ledger, Bounds,
--     Handles and Deadline hold the proofs. Budget.Adapter: ai4/constrain/_v07_3b/budget.py,
--     `BudgetAwareProviderAdapter._call` (call), which runs a provider's call between these methods.
--     Budget.Lane follows the reservation of one call of an examiner through them, and Budget.Room
--     says which reservations are accepted.
--   - Shards: src/shards/models.py. Shards.Evaluator: src/shards/shard_evaluator.py (_run_criterion,
--     _score_rubric, evaluate). Shards.Arbitration: src/shards/arbitration.py (_conflict_pairs,
--     arbitrate). An evaluation goes from the evaluator to the arbitration. Shards.Wall:
--     ai4/constrain/evaluator_wall.py (overlay_packaged_policy), which an evaluation from outside goes
--     through first; Shards.Wall.Exposed: the checks on the rubrics that an evaluator exposes.
--   - Control: src/control_contract.py (next_loop_action and the two parsers) and
--     src/constraints/constraint_middleware.py (decide, format_feedback), which arbitrates.
--     Control.Agent: src/agents/recursive_agent.py, `ConstrainedAgent.run`, which evaluates, decides
--     and revises in a loop. The provider and the clock are a world that the calls pass on.
--   - Fuse: ai4/constrain/semantic_fuse.py (packaged_fuse_v2, _dedupe_findings,
--     _fuse_bound_findings): scores tightened by the findings of an examiner. Fuse.Rebuild:
--     ai4/constrain/_v07_3a/rebuild.py, which puts the fused scores into an evaluation of Shards.
--   - Semantic: JSON values. Semantic.Findings: ai4/constrain/semantic_findings.py, the validation of
--     an examiner's payload (validate_semantic_findings, findings_to_dict); Semantic.Findings.Bound: its
--     findings bound to the candidate by digests (bind_semantic_findings).
--   - Hybrid: ai4/constrain/_v07_3b/snapshot.py (detect_identity_drift, assert_locked_artifact_hashes)
--     and ai4/constrain/_v07_3c/observe.py (read_connection_observation and the comparisons), the
--     identities that a run may not drift from. Hybrid.Feedback: ai4/constrain/_v07_3b/feedback.py.
--     Hybrid.Continuity: ai4/constrain/_v07_3a/continuity.py. Hybrid.Ready:
--     ai4/constrain/_v07_3c/ready.py (hybrid_ready), the gates before a run.
--     Hybrid.Examine and Hybrid.Loop: ai4/constrain/_v07_3c/loop.py. A round checks the identities
--     (Hybrid), evaluates (Shards), calls the examiner against the ledger (_observe_semantic:
--     Hybrid.Examine, Budget), fuses and rebuilds (Fuse), walls (Shards.Wall), decides (Control), and
--     calls the provider for a revision (Budget.Adapter) with its feedback (Hybrid.Feedback).
--     Hybrid.Loop has the data, Hybrid.Loop.Judge a round from its examination to its decision, and
--     Hybrid.Loop.Step the rounds of run_governing_loop. Raised, Calls, Accounts, Ledger, Judged and
--     Safety hold the proofs.
--   - Transaction: ai4/transaction/types.py. Transaction.Base58: _base58.py. Transaction.Validate:
--     validate.py, which decodes addresses from Base58. Transaction.Amount is the arithmetic on
--     Decimal that it uses; Validate.Checked and Validate.Exact hold its proofs.
--     Transaction.Firewall: firewall.py, which validates and asks a scorer. Transaction.Binding:
--     binding.py, which parses the wallet's URI back. Transaction.Prepare: prepare.py, which calls
--     these three in turn, and hands on the exceptions that it does not catch. Transaction.Status:
--     status.py, an observation by an RPC node. Transaction.Proof: receipt.py, the receipt that is
--     built from a prepared transfer and an observation.
--
-- Bounds and fuel. Dollars of the ledger and penalties are whole numbers of a fixed unit, scores
-- are whole ten-thousandths, and arithmetic on them is exact (the rounding of floats is not
-- modelled). The wall of an evaluator takes scores and thresholds in parts of any number `unit`,
-- and adds the tolerance of the code, 10^-9, exactly; in ten-thousandths that tolerance decides
-- nothing. A SOL amount is a coefficient and a power of ten. Its product with the lamports of a SOL
-- is taken in the default context of Python's Decimal: rounded to 28 digits, half to even, with an
-- Overflow that the checks do not catch and an underflow to 0. Comparisons and whole parts are
-- exact there, as in Python. The loop of the agent has one round more of fuel than
-- max_revision_rounds; a run never uses it up, and neither does the governing loop of a hybrid run,
-- which has the same. The recursion of Base58 is on the number itself.
--
-- Parameters, for code outside the repository or not modelled: regular expressions and repr, the
-- provider and the clock, the critic of condition C and, for its parser, json.dumps, str methods,
-- urlparse, parse_qs and unquote, the RPC transport and its fee hint, the building of the wallet's
-- URIs, json.loads, SHA-256 and the text of an integer, and the texts of summaries. A hybrid run
-- takes what comes of each call that goes outside from a record (Outside): a connection, a reply or
-- an exception of the provider, and what observe_semantic_candidate returns or raises. Its clock is
-- read before each step of the ledger.
--
-- Not modelled: persistence and sessions (ai4/constrain/session.py, api.py, report.py, privacy.py),
-- the call of the examiner and its taxonomy (semantic_examiner.py, semantic_taxonomy.py),
-- separation, install, entry, provenance and report of a hybrid run (the rest of
-- ai4/constrain/_v07_3a, _v07_3b and _v07_3c), the identity kernel (ai4/identity), the study
-- harness (src/stage2d, src/experiment.py, src/metrics.py), the live providers, command lines and
-- reports: they are input and output, cryptography and schemas, or they build on the parts above.
pub mod Prelude
pub mod Abort
pub mod Budget
pub mod Shards
pub mod Control
pub mod Transaction
pub mod Fuse
pub mod Semantic
pub mod Hybrid
