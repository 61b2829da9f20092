-- ===== src/Contracts.antt =====
-- src/threat_agent/contracts: the records that the judgment, case and response parts exchange, with
-- the fields that the modelled code reads. An instant is a number of microseconds.
use unknown_file_threat_agen.Shared.Json.{Json, Fields}
use unknown_file_threat_agen.Prelude.{ℕ, String, Bool, Option, List}

-- activity.py: the discriminator of `NormalizedActivity`
pub data ActivityType : Type 0 where
  process network socket file service «package» asset authentication extension : ActivityType

-- `host_ref` and `operation` are read by `getattr(activity, name, None)`: some types lack them.
pub record Activity : Type 0 where
  pub activity_id : String
  pub activity_type : ActivityType
  pub operation : Option String
  pub host_ref : Option String
  pub observed_at : ℕ
  pub subject_refs : List String
  pub actor_refs : List String
  pub target_refs : List String

-- data_boundary.py
pub record EvidenceReference : Type 0 where
  pub evidence_id : String
  pub activity_ref : String

pub record ActivityQueryResult : Type 0 where
  pub tenant_id : String
  pub case_id : String
  pub run_id : String
  pub query_id : String
  pub activities : List Activity
  pub evidence_references : List EvidenceReference

-- investigation_tools.py
pub record OutOfScopeRelationClue : Type 0 where
  pub relation_id : String
  pub other_endpoint_ref : String

-- a relation is known by its identifier
pub record EntityExplorationResult : Type 0 where
  pub identity : Option String
  pub resolved_relations : List String
  pub candidate_relations : List String
  pub out_of_scope_relations : List OutOfScopeRelationClue
  pub timeline : List Activity

pub record InvestigationToolTrace : Type 0 where
  pub sequence : ℕ
  pub tool_name : String
  pub arguments : Json
  pub result_type : String
  pub result : Json
  pub tool_call_id : Option String
  pub model_message : Json

-- knowledge.py
pub data KnowledgeConsultationStatus : Type 0 where
  available empty not_configured permission_denied timeout degraded error :
      KnowledgeConsultationStatus

-- investigation_tools.py

pub record KnowledgeConsultationRecord : Type 0 where
  pub consultation_id : String
  pub query_id : String
  pub entry : String
  pub intent : String
  pub status : KnowledgeConsultationStatus
  pub item_refs : List String
  pub limitations : List String

-- a result of raw records or of metrics is known by the references to activities in it
pub record InvestigationToolLedger : Type 0 where
  pub query_results : List ActivityQueryResult
  pub entity_results : List EntityExplorationResult
  pub raw_record_results : List (List String)
  pub metric_results : List (List String)
  pub traces : List InvestigationToolTrace
  pub knowledge_consultations : List KnowledgeConsultationRecord
  pub authorized_activity_refs : List String
  pub authorized_entity_refs : List String

-- evidence.py
pub record Scope : Type 0 where
  pub host_ids : List String
  pub allowed_domains : List String
  pub start_time : Option ℕ
  pub end_time : Option ℕ

-- investigation.py
pub data VerdictLevel : Type 0 where
  confirmed_malicious likely_malicious suspicious insufficient_evidence : VerdictLevel
  likely_benign benign : VerdictLevel

pub data ThreatType : Type 0 where
  backdoor_c2 data_exfiltration ransomware other unknown : ThreatType

pub record CandidateVerdict : Type 0 where
  pub level : VerdictLevel
  pub threat_type : ThreatType
  pub summary : String
  pub supporting_refs : List String
  pub contradicting_refs : List String
  pub limitations : List String

-- operations.py
pub data PublicationStatus : Type 0 where
  grounded fallback : PublicationStatus

pub record ReportStatement : Type 0 where
  pub statement_id : String
  pub text : String
  pub supporting_refs : List String
  pub limitations : List String

-- knowledge.py
pub record KnowledgeItem : Type 0 where
  pub knowledge_id : String
  pub version : String
  pub chunk_id : String

-- judgment/domain/models.py
pub record Budget : Type 0 where
  pub max_iterations : ℕ
  pub max_tool_calls : ℕ
  pub iterations_used : ℕ
  pub tool_calls_used : ℕ
  pub max_report_rejudgments : ℕ
  pub report_rejudgments_used : ℕ

pub data CallStatus : Type 0 where
  call_success call_denied call_error : CallStatus

-- the random `call_id` is left out
pub record ToolCall : Type 0 where
  pub tool_name : String
  pub action_type : String
  pub status : CallStatus
  pub objective : String
  pub parameters : Json
  pub error : Option String

pub record DataToolRequest : Type 0 where
  pub tool_name : String
  pub objective : String
  pub arguments : Fields
  pub tool_call_id : Option String
  pub model_message : Json

pub data InvestigationAction : Type 0 where
  finish_request : String → InvestigationAction
  data_tool_request : DataToolRequest → InvestigationAction

pub record InvestigationState : Type 0 where
  pub scope : Scope
  pub budget : Budget
  pub tool_calls : List ToolCall
  pub verdict : Option CandidateVerdict
  pub tool_ledger : InvestigationToolLedger
  pub knowledge_guidance : List KnowledgeItem
  pub report_validation_errors : List String
  pub finished : Bool
