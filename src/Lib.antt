-- ===== src/Lib.antt =====
-- The threat investigation agent (src/threat_agent).
--
-- An investigation runs tools over the recorded activities of one host, judges what they returned,
-- publishes a report, and proposes response actions. The parts that decide what may be asked, what
-- may be believed and what may be published are modelled here; each refuses, lowers or replaces what
-- a language model proposes.
--
-- Parts and files (paths are below src/threat_agent):
--   Contracts               contracts and judgment/domain/models.py: the records that
--                           the parts exchange, with the fields that the modelled code reads.
--   Cases/BoundaryPolicy    case_management/application/boundary_policy.py. `authorize_call` runs before
--                           a tool and `validate_result` after it. A refusal is a value of `Check`; the
--                           sequence of guards is `◌>>◌`, which stops at the first refusal.
--   Judgment/EvidenceGate   judgment/application/evidence_gate.py. `gate_verdict` lowers a confirmed
--                           verdict whose citations lack a capability that its threat type requires.
--   Judgment/Grounding      judgment/application/report_validation.py. `validate` lists the issues of a
--                           draft; one function per method of `ReportGroundingValidator`.
--   Judgment/Repair         judgment/application/report_repair.py. The `while` loop is recursion on the
--                           number of rejudgments left, which is the bound of the loop itself.
--   Judgment/Publication    judgment/application/graph.py, `publish_investigation_report`, with the
--                           fallback builder of reporting.py: repair, gate, final validation, publication.
--   Shared/Json, Shared/DraftEditor
--                           shared/draft_editor.py: anchored edits of a JSON draft. A `ValueError` is a
--                           `Reason`. A path is held as its steps before the last and the last.
--   Response/Policy         response_advisory/domain/policy.py: the checks on a response proposal.
--   Cases/RuntimeStore      case_management/adapters/runtime_store.py: the tables of the SQLite store as
--                           lists of rows, one function per statement, with the key constraints.
--   Cases/Redaction         `redact_details` of case_management/application/run_service.py.
--   Cases/EventKinds, Cases/Events
--                           `_emit_locked` and `_audit` of run_service.py, with their tables.
--   Cases/RunService        the lifecycle of run_service.py: launch, execution, failure, recovery after a
--                           restart, completion after approval. `◌>>◌` stops at an exception and keeps
--                           what was written. What the execution port does is an argument.
--   Cases/ApprovalService   case_management/application/approval_service.py: the decision on a run;
--                           Pending has the list of pending approvals.
--   Middleware/Budget       agent_middleware/budget.py: the limits, the interceptors of model and tool calls,
--                           and the merge of the counters of parallel calls.
--   Judgment/Gateway        judgment/adapters/investigation_tools.py: `invoke` and what it calls. The handlers
--                           of the data tools, and what they look up, are arguments.
--   Judgment/Policy         judgment/application/policy.py: `validate_action`.
--   Judgment/Loop           judgment/application/graph.py, `JudgmentGraph`: a function per node and per edge. A
--                           `run` is a number of nodes, LangGraph's recursion limit (the fuel).
--   Judgment/MemoryStore    judgment/application/memory_store.py: the archive of a run and its index.
--   Shared/Llm              shared/llm.py: the loop of `invoke_llm`, one function per handler. The fuel is the
--                           number of rounds; the sum of the two budgets is enough.
--   Middleware/Messages     the messages of a conversation, with the fields that the middleware reads.
--   Middleware/Compaction   agent_middleware/compaction.py: the downsizing of the results of tools.
--   Middleware/Hygiene      agent_middleware/hygiene.py: the cleaning of the history before a model call.
--   DataFoundation/Ingestion
--                           data_foundation/application/ingestion.py: `ingest_payloads`, the `try` block of a
--                           payload as a chain of functions, one per call that may raise.
--   DataFoundation/Projection
--                           data_foundation/domain/entity_projection.py: `project`, with the branches on the
--                           type of the activity in `project_detail`. Its closures `entity` and `relation` are
--                           functions from a projection to a projection in DataFoundation/Entities.
--   Evaluation/Reporter     agent_eval/reporter.py: pass^k by case and the regressions between two reports.
--   Middleware/Boundary     agent_middleware/boundary.py: the interceptor that authorises calls and validates
--                           their results. The policy, which writes to the ledger, is an argument.
--   Cases/DataReadiness     case_management/application/data_readiness.py: the readiness of the questions and
--                           the coverage of the domains.
--   Judgment/Assembly       judgment/application/report_assembly.py: Catalog holds the pointers and `resolve`,
--                           Drafting `assemble_report_draft`, Backstops the repairs that need no model, and
--                           Flow the pipeline and its place in `publish_investigation_report` of graph.py.
--   Shared/Text             the operations of `str` that are used, over ASCII.
--   Response/Graph          response_advisory/application/graph.py, `ResponseGraph`: a function per node and edge.
--                           The fuel is the recursion limit; `enough_fuel` is the number of nodes that
--                           a run may need, twice the limit of proposals (at least one) and three.
--   Cases/Governance        case_management/application/graph.py, `CaseGraph`, with contract_builders.py: the
--                           lifecycle of a case around the judgment and the response graph. It has no cycle,
--                           so six nodes are enough; the fuel is the recursion limit, which also holds
--                           for the response graph in it; an interrupt is the configuration `waiting`.
--   Prelude                 shared names, Python's comprehensions, sets of texts, dicts and integers.
--   Examples files          concrete inputs at which the theorems are applied.
--
-- Representation. A Python set of texts is a list asked for membership; `sorted(set(xs))` is an ordered
-- insertion without duplicates. A datetime is an instant in microseconds; `datetime.fromisoformat` is a
-- parameter. A language model is a parameter that may fail. Exceptions are values.
--
-- Not modelled: prompts and composers (calls of a language model), the
-- data and knowledge stores with their queries, the intake of cases, the archive
-- and safety net middleware, the checkpointer of LangGraph, the runner, the scorers
-- and the rate limit of the evaluation (floats), HTTP routes and pages, configuration and wiring. Message
-- texts of issues and denials are left out where no code reads them. `str.isdigit` and `int` are modelled over ASCII.
pub mod Cases
pub mod Contracts
pub mod DataFoundation
pub mod Evaluation
pub mod Judgment
pub mod Middleware
pub mod Prelude
pub mod Response
pub mod Shared
