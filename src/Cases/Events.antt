-- ===== src/Cases/Events.antt =====
-- case_management/application/run_service.py: the operational and audit events of a run. The schema
-- validation of pydantic is a parameter: it says which events it accepts.
pub mod Numbered
use mathlib.Core.Option
use unknown_file_threat_agen.Cases.EventKinds.{
  event_type, stage_by_kind, node_by_kind, phase_to_node, audit_action,
}
use unknown_file_threat_agen.Cases.Redaction.{redact_details, redact_fields}
use unknown_file_threat_agen.Cases.RuntimeStore.{
  InvestigationRun, Entry, EventBody, AuditBody, RuntimeStore, Error, key_error, type_error,
  validation_error, Outcome, fine, raise, ◌>>◌, get_run, update_run, next_sequence,
  append_operational_event, append_audit_event,
}
use unknown_file_threat_agen.Prelude.Int.{pos, eqb_ℤ}
use unknown_file_threat_agen.Shared.Json.{
  key, Json, null, bool, num, str, arr, obj, Items, nil, cons, Fields, end, field, find, set_field,
  remove_field,
}
use unknown_file_threat_agen.Prelude.{
  ◌-◌, String, Bool, true, false, not, Option, none, some, map, ◌==◌, if◌then◌else◌, or_else,
}

pub record RunServiceConfig : Type 0 where
  pub tenant_id : String
  pub judgment_provider : String
  pub judgment_model : String
  pub response_provider : String
  pub response_model : String

-- Python's truth of a value, and of the value of a missing key
unfoldable pub truthy : Json → Bool
truthy null = false
truthy (bool b) = b
truthy (num n) = not (eqb_ℤ n (pos 0))
truthy (str s) = not (s == "")
truthy (arr nil) = false
truthy (arr (cons x xs)) = true
truthy (obj end) = false
truthy (obj (field k v fs)) = true

unfoldable pub truthy_at : String → Fields → Option Json
unfolding truthy
truthy_at k fs = elim (find (key k) fs) [ none ↦ none | some v ↦ if truthy v then some v else none ]

-- `a or b` on texts
abbrev pub or_text : String → String → String
or_text a b = if a == "" then b else a

-- the node of an event: the explicit one, or that of the phase, of the kind, or the stage
unfoldable pub node_of : String → String → Fields → Option Json
unfolding truthy_at phase_to_node node_by_kind
node_of kind stage details = elim (truthy_at "node" details) [
  | some explicit ↦ some explicit
  | none ↦
      Option.map (λ by_phase. str (or_text by_phase (or_text (node_by_kind kind) stage)))
        (phase_to_node (find (key "phase") details))
]

-- what a model event adds to its details
unfoldable pub model_details : RunServiceConfig → String → Fields → Fields
model_details config kind details =
    let is_response = kind == "response" in
    let provider = if is_response then config.response_provider else config.judgment_provider in
    let model = if is_response then config.response_model else config.judgment_model in
    set_field (key "prompt_version")
      (str (if is_response then "response-advisory/1.0" else "judgment/1.0"))
      (set_field (key "model") (str (or_text model "not-configured"))
        (set_field (key "provider") (str (or_text provider "openai-compatible")) details))

-- `{**base, **fields}`
unfoldable pub merge : Fields → Fields → Fields
merge base end = base
merge base (field k v fs) = merge (set_field k v base) fs

-- `item["source_category"]` of the objects of a list; a missing one raises `KeyError`
unfoldable pub source_categories : Items → Option Items
source_categories nil = some nil
source_categories (cons (obj fs) xs) =
    let rest = source_categories xs in
    elim (find (key "source_category") fs) [
      | none ↦ none
      | some c ↦ elim rest [ none ↦ none | some cs ↦ some (cons c cs) ]
    ]
source_categories (cons x xs) = source_categories xs

-- the references of an audit event, or the exception that collecting them raises
pub data Refs : Type 0 where
  given : Json → Refs
  refused : Error → Refs

-- the value given to `list`, which raises on a number or a Boolean
unfoldable pub listed : Json → Refs
listed (num n) = refused type_error
listed (bool b) = refused type_error
listed v = given v

-- the comprehension over `details.get("sources", [])`; keys and characters are no dicts
unfoldable pub cited_sources : Option Json → Refs
cited_sources none = given (arr nil)
cited_sources (some (arr xs)) = elim (source_categories xs) [
  | none ↦ refused key_error
  | some cs ↦ given (arr cs)
]
cited_sources (some (str s)) = given (arr nil)
cited_sources (some (obj fs)) = given (arr nil)
cited_sources (some v) = refused type_error

unfoldable pub input_refs_of : Fields → Refs
input_refs_of details = elim (truthy_at "evidence_ids" details) [
  | some v ↦ listed v
  | none ↦ cited_sources (find (key "sources") details)
]

unfoldable pub resource_ref_of : String → Fields → Json
unfolding truthy_at
resource_ref_of run_id details = or_else (truthy_at "query_id" details) (
    or_else (truthy_at "report_id" details) (
      or_else (truthy_at "request_ref" details)
        (or_else (truthy_at "consultation_id" details) (str run_id))))

-- `run.graph_thread_id or run_id`, for a run that may be missing
unfoldable pub correlation : Option InvestigationRun → String → String
correlation none run_id = run_id
correlation (some run) run_id = or_text (or_else run.graph_thread_id "") run_id

-- `_required_run`, and what is done with the run
unfoldable pub with_run :
    RunServiceConfig → String → RuntimeStore → (InvestigationRun → Outcome) → Outcome
with_run config run_id store next = elim (get_run config.tenant_id run_id store) [
  | none ↦ raise key_error store
  | some run ↦ next run
]

module _ (accepts_event : Entry → EventBody → Bool) (accepts_audit : Entry → AuditBody → Bool)
    (config : RunServiceConfig) where
  -- an event is validated when it is made, and then inserted
  unfoldable pub file_audit : Entry → AuditBody → RuntimeStore → Outcome
  file_audit entry body store =
      if accepts_audit entry body
      then append_audit_event entry body store
      else raise validation_error store

  unfoldable pub file_event : Entry → EventBody → RuntimeStore → Outcome
  file_event entry body store =
      if accepts_event entry body
      then append_operational_event entry body store
      else raise validation_error store

  -- `_audit`
  unfoldable pub audit :
      String → String → String → String → Json → Json → String → Json → RuntimeStore → Outcome
  audit run_id case_id action resource_type resource_ref input_refs result_summary scope store =
      let entry : Entry = record {
        tenant_id = config.tenant_id;
        run_id = run_id;
        sequence = next_sequence config.tenant_id run_id store.audits;
      } in
      let body : AuditBody = record {
        case_id = case_id;
        action = action;
        resource_type = resource_type;
        resource_ref = resource_ref;
        scope_snapshot = redact_details scope;
        input_refs = input_refs;
        result_summary = result_summary;
        correlation_id = correlation (get_run config.tenant_id run_id store) run_id;
      } in
      file_audit entry body store

  -- the last part of `_emit_locked`, for the kinds that are audited
  unfoldable pub audit_emission :
      String → String → String → String → Fields → RuntimeStore → Outcome
  audit_emission run_id case_id kind message details store = elim (audit_action kind) [
    | none ↦ fine store
    | some action ↦ elim (input_refs_of details) [
      | refused e ↦ raise e store
      | given refs ↦
          audit run_id case_id action kind (resource_ref_of run_id details) refs message
            (or_else (truthy_at "scope" details) (obj end)) store
    ]
  ]

  -- the operational event itself, from redacted details
  unfoldable pub write_emission :
      InvestigationRun → String → String → String → Fields → Json → RuntimeStore → Outcome
  write_emission run stage kind message safe node store =
      let rest = remove_field (key "node") (
        remove_field (key "retry_count")
          (remove_field (key "token_usage") (remove_field (key "duration_ms") safe))) in
      let details = if event_type kind == "model" then model_details config kind rest else rest in
      let entry : Entry = record {
        tenant_id = config.tenant_id;
        run_id = run.run_id;
        sequence = next_sequence config.tenant_id run.run_id store.events;
      } in
      let body : EventBody = record {
        case_id = run.case_id;
        event_type = event_type kind;
        stage = stage;
        node = node;
        duration_ms = find (key "duration_ms") safe;
        token_usage = find (key "token_usage") safe;
        retry_count = find (key "retry_count") safe;
        details =
            merge (field (key "kind") (str kind) (field (key "message") (str message) end)) details;
        correlation_id = correlation (some run) run.run_id;
      } in
      file_event entry body store >> audit_emission run.run_id run.case_id kind message details

  unfoldable pub record_emission :
      InvestigationRun → String → String → String → Fields → RuntimeStore → Outcome
  record_emission run stage kind message safe store = elim (node_of kind stage safe) [
    | none ↦ raise type_error store
    | some node ↦ write_emission run stage kind message safe node store
  ]

  -- the row moves to the stage of the kind
  unfoldable pub move_stage : InvestigationRun → String → RuntimeStore → Outcome
  move_stage run stage store =
      if stage == run.stage then fine store else update_run (record run { stage = stage }) store

  -- `_emit_locked`
  unfoldable pub emit : String → String → String → Fields → RuntimeStore → Outcome
  emit run_id kind message details store = with_run config run_id store (λ run.
      let stage = or_else (stage_by_kind kind) run.stage in
      move_stage run stage store
      >> record_emission (record run { stage = stage }) stage kind message (redact_fields details))
