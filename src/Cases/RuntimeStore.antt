-- ===== src/Cases/RuntimeStore.antt =====
-- case_management/adapters/runtime_store.py: the tables of the runtime store and the statements on
-- them. A table is a list of rows in the order of their insertion; a statement that raises leaves the
-- tables alone. The identifier texts `event_id` and `audit_id`, which are made of the run and the
-- number, are left out.
pub mod Numbering
pub mod Rows
use mathlib.Core.Option
use unknown_file_threat_agen.Shared.Json.{Json, Fields}
use unknown_file_threat_agen.Prelude.{
  ℕ, ◌+◌, max, String, Bool, not, ◌&&◌, Option, none, some, List, [], ◌∷◌, ◌++◌, map, ◌==◌, eqb,
  if◌then◌else◌, filter_by, any, is_some,
}

-- contracts/operations.py
pub data RunStatus : Type 0 where
  queued running awaiting_approval completed failed : RunStatus

pub record InvestigationRun : Type 0 where
  pub tenant_id : String
  pub case_id : String
  pub run_id : String
  pub status : RunStatus
  pub stage : String
  pub graph_thread_id : Option String
  pub started_at : Option ℕ
  pub completed_at : Option ℕ
  pub report_id : Option String
  pub error_type : Option String

-- a row of `investigation_runs`; its columns `status` and `stage` repeat those of the payload
pub record RunRow : Type 0 where
  pub run : InvestigationRun
  pub dataset_id : String
  pub profile_id : String

-- the primary key of `operational_events` and of `audit_events`
pub record Entry : Type 0 where
  pub tenant_id : String
  pub run_id : String
  pub sequence : ℕ

-- What an operational event holds besides its key. `node` is the value that `str` was applied to.
pub record EventBody : Type 0 where
  pub case_id : String
  pub event_type : String
  pub stage : String
  pub node : Json
  pub duration_ms : Option Json
  pub token_usage : Option Json
  pub retry_count : Option Json
  pub details : Fields
  pub correlation_id : String

-- What an audit event holds besides its key. `resource_ref` and `input_refs` are the values that
-- `str` and `list` were applied to.
pub record AuditBody : Type 0 where
  pub case_id : String
  pub action : String
  pub resource_type : String
  pub resource_ref : Json
  pub scope_snapshot : Json
  pub input_refs : Json
  pub result_summary : String
  pub correlation_id : String

pub record Artifact : Type 0 where
  pub tenant_id : String
  pub run_id : String
  pub artifact_type : String
  pub payload : Json

pub record RuntimeStore : Type 0 where
  pub runs : List RunRow
  pub events : List (Entry × EventBody)
  pub audits : List (Entry × AuditBody)
  pub artifacts : List Artifact

-- the exceptions that reach the service; one of the execution port is known by its class
pub data Error : Type 0 where
  key_error value_error type_error integrity_error validation_error : Error
  execution_error : String → Error

pub record Outcome : Type 0 where
  pub error : Option Error
  pub store : RuntimeStore

abbrev pub fine : RuntimeStore → Outcome
fine store = record { error = none; store = store }

abbrev pub raise : Error → RuntimeStore → Outcome
raise e store = record { error = some e; store = store }

-- the next statement, unless an exception was raised
infixl 5 ◌>>◌
unfoldable pub ◌>>◌ : Outcome → (RuntimeStore → Outcome) → Outcome
o >> next = elim o.error [ none ↦ next o.store | some e ↦ o ]

abbrev is_run : String → String → InvestigationRun → Bool
is_run tenant run_id run = run.tenant_id == tenant && run.run_id == run_id

find_row : String → String → List RunRow → Option RunRow
find_row tenant run_id [] = none
find_row tenant run_id (row ∷ rows) =
    if is_run tenant run_id row.run then some row else find_row tenant run_id rows

unfoldable pub get_row : String → String → RuntimeStore → Option RunRow
unfolding find_row
get_row tenant run_id store = find_row tenant run_id store.runs

unfoldable pub get_run : String → String → RuntimeStore → Option InvestigationRun
unfolding get_row
get_run tenant run_id store = Option.map (λ (row : RunRow). row.run) (get_row tenant run_id store)

unfoldable pub create_run : InvestigationRun → String → String → RuntimeStore → Outcome
create_run run dataset profile store =
    if is_some (get_run run.tenant_id run.run_id store)
    then raise integrity_error store
    else fine (record store {
      runs = store.runs ++ record { run = run; dataset_id = dataset; profile_id = profile } ∷ [];
    })

-- `UPDATE ... WHERE tenant_id=? AND run_id=?`
unfoldable pub update_rows : InvestigationRun → List RunRow → List RunRow
update_rows run [] = []
update_rows run (row ∷ rows) =
    let rest = update_rows run rows in
    if is_run run.tenant_id run.run_id row.run then record row { run = run } ∷ rest else row ∷ rest

unfoldable pub update_run : InvestigationRun → RuntimeStore → Outcome
unfolding update_rows
update_run run store =
    if is_some (get_run run.tenant_id run.run_id store)
    then fine (record store { runs = update_rows run store.runs })
    else raise key_error store

rev_onto : {A : Type 0} → List A → List A → List A
rev_onto [] ys = ys
rev_onto (x ∷ xs) ys = rev_onto xs (x ∷ ys)

-- newest first
unfoldable pub list_runs : String → RuntimeStore → List RunRow
unfolding rev_onto
list_runs tenant store =
    rev_onto (filter_by (λ (row : RunRow). row.run.tenant_id == tenant) store.runs) []

-- `WHERE tenant_id=? AND run_id=?`
unfoldable pub in_run : String → String → Entry → Bool
in_run tenant run_id e = e.tenant_id == tenant && e.run_id == run_id

module _ {A : Type 0} where
  -- `COALESCE(MAX(sequence), 0)`
  unfoldable pub last_sequence : String → String → List (Entry × A) → ℕ
  last_sequence tenant run_id [] = 0
  last_sequence tenant run_id (x ∷ xs) =
      let rest = last_sequence tenant run_id xs in
      if in_run tenant run_id x.0 then max x.0.sequence rest else rest

  unfoldable pub next_sequence : String → String → List (Entry × A) → ℕ
  next_sequence tenant run_id xs = last_sequence tenant run_id xs + 1

  -- whether the primary key is taken
  unfoldable pub is_taken : Entry → List (Entry × A) → Bool
  is_taken e xs = any (λ x. in_run e.tenant_id e.run_id x.0 && eqb x.0.sequence e.sequence) xs

-- both inserts need a fresh key and the run of the foreign key
unfoldable pub append_operational_event : Entry → EventBody → RuntimeStore → Outcome
append_operational_event e body store =
    if is_some (get_run e.tenant_id e.run_id store) && not (is_taken e store.events)
    then fine (record store { events = store.events ++ (e, body) ∷ [] })
    else raise integrity_error store

unfoldable pub append_audit_event : Entry → AuditBody → RuntimeStore → Outcome
append_audit_event e body store =
    if is_some (get_run e.tenant_id e.run_id store) && not (is_taken e store.audits)
    then fine (record store { audits = store.audits ++ (e, body) ∷ [] })
    else raise integrity_error store

abbrev same_artifact : Artifact → Artifact → Bool
same_artifact a b =
    a.tenant_id == b.tenant_id && (a.run_id == b.run_id && a.artifact_type == b.artifact_type)

-- `INSERT OR REPLACE`: the old row goes, the new one comes last
unfoldable pub put_artifact : Artifact → RuntimeStore → Outcome
put_artifact a store =
    if is_some (get_run a.tenant_id a.run_id store)
    then fine (record store {
      artifacts = filter_by (λ b. not (same_artifact a b)) store.artifacts ++ a ∷ [];
    })
    else raise integrity_error store
