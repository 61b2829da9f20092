-- ===== src/Cases/ApprovalService/Pending.antt =====
-- case_management/application/approval_service.py, `list_pending` and `_request`, with the queries of
-- adapters/runtime_store.py that they make. A read model that pydantic refuses raises, which is `none`.
pub mod Newest
use mathlib.Core.Option
use unknown_file_threat_agen.Shared.Json.{
  Json, null, str, obj, Fields, end, key, find, json_eq, is_truthy,
}
use unknown_file_threat_agen.Cases.RuntimeStore.{
  Entry, EventBody, Artifact, RunRow, RuntimeStore, in_run, get_row, list_runs,
}
use unknown_file_threat_agen.Cases.RunService.{
  RunSource, RunExecutionRequest, alert_json, reference_dataset, is_awaiting,
}
use unknown_file_threat_agen.Prelude.{
  ℕ, String, Bool, ◌&&◌, ◌||◌, Option, none, some, List, [], ◌∷◌, ◌==◌, leb, if◌then◌else◌,
  filter_by, or_else,
}

abbrev pub Event : Type 0
Event = Entry × EventBody

-- `ORDER BY sequence`
unfoldable pub insert_event : Event → List Event → List Event
insert_event x [] = x ∷ []
insert_event x (y ∷ ys) =
    let rest = insert_event x ys in if leb x.0.sequence y.0.sequence then x ∷ y ∷ ys else y ∷ rest

unfoldable pub by_sequence : List Event → List Event
unfolding insert_event
by_sequence [] = []
by_sequence (x ∷ xs) = insert_event x (by_sequence xs)

unfoldable pub list_operational_events : String → String → RuntimeStore → List Event
unfolding by_sequence
list_operational_events tenant run_id store =
    by_sequence (filter_by (λ (x : Event). in_run tenant run_id x.0) store.events)

-- `details.get(name)`
unfoldable pub detail : String → EventBody → Json
detail name e = or_else (find (key name) e.details) null

unfoldable pub announces : EventBody → Bool
unfolding detail
announces e = json_eq (detail "kind" e) (str "approval") && is_truthy (detail "pending" e)

-- the event at which the loop over `reversed(events)` breaks: the last one in the list that announces an approval
unfoldable pub newest : List Event → Option Event
unfolding announces
newest [] = none
newest (x ∷ xs) = elim (newest xs) [
  | some y ↦ some y
  | none ↦ if announces x.1 then some x else none
]

-- `details.get("plan") or {}`
unfoldable pub announced_plan : EventBody → Json
unfolding detail
announced_plan e = if is_truthy (detail "plan" e) then detail "plan" e else obj end

unfoldable pub plan_at : Option Event → Json
unfolding announced_plan
plan_at none = obj end
plan_at (some x) = announced_plan x.1

unfoldable pub pending_plan : String → String → RuntimeStore → Json
unfolding list_operational_events newest plan_at
pending_plan tenant run_id store = plan_at (newest (list_operational_events tenant run_id store))

-- contracts/workbench.py
pub record ApprovalRequest : Type 0 where
  pub run_id : String
  pub case_id : String
  pub plan : Fields
  pub requested_at : Option ℕ

-- the read model of a run; its plan has to be an object and its run a text that is not empty
unfoldable pub read_model : RunRow → Json → Option ApprovalRequest
read_model row (obj plan) =
    if row.run.run_id == ""
    then none
    else some (record {
      run_id = row.run.run_id;
      case_id = row.run.case_id;
      plan = plan;
      requested_at = row.run.started_at;
    })
read_model row _ = none

unfoldable pub cons_option :
    Option ApprovalRequest → Option (List ApprovalRequest) → Option (List ApprovalRequest)
cons_option (some x) (some xs) = some (x ∷ xs)
cons_option _ _ = none

unfoldable pub pending_rows : String → RuntimeStore → List RunRow → Option (List ApprovalRequest)
unfolding cons_option read_model pending_plan
pending_rows tenant store [] = some []
pending_rows tenant store (row ∷ rows) =
    let rest = pending_rows tenant store rows in
    if is_awaiting row.run.status
    then cons_option (read_model row (pending_plan tenant row.run.run_id store)) rest
    else rest

-- `list_pending`
unfoldable pub list_pending : String → RuntimeStore → Option (List ApprovalRequest)
unfolding pending_rows
list_pending tenant store = pending_rows tenant store (list_runs tenant store)

-- `SELECT payload_json FROM run_artifacts`, on the primary key
unfoldable pub get_artifact : String → String → String → List Artifact → Option Json
get_artifact tenant run_id kind [] = none
get_artifact tenant run_id kind (a ∷ rest) =
    let later = get_artifact tenant run_id kind rest in
    if (a.tenant_id == tenant && (a.run_id == run_id && a.artifact_type == kind))
    then some a.payload
    else later

unfoldable pub source_of : Option Json → String → RunSource
source_of alert dataset_id =
    if is_truthy (or_else alert null) && dataset_id == "" then alert_json else reference_dataset

-- `_request`: an unknown run raises, and so does an identifier that is empty
unfoldable pub request : String → String → RuntimeStore → Option RunExecutionRequest
unfolding get_artifact source_of
request tenant run_id store = elim (get_row tenant run_id store) [
  | none ↦ none
  | some row ↦
      if tenant == "" || (row.run.case_id == "" || run_id == "")
      then none
      else some (record {
        case_id = row.run.case_id;
        run_id = run_id;
        source =
            source_of (get_artifact tenant run_id "alert_payload" store.artifacts) row.dataset_id;
        dataset_id = row.dataset_id;
        profile_id = row.profile_id;
        alert = obj end;
      })
]
