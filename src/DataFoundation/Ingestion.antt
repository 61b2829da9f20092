-- ===== src/DataFoundation/Ingestion.antt =====
-- data_foundation/application/ingestion.py: a batch of source records is imported once. The table of
-- raw records is a list of rows; what the store does beside it, a parser, `str`, `datetime.fromisoformat`
-- and the digest are parameters. A write that raises is rolled back.
pub mod Settled
pub mod Accounted
use unknown_file_threat_agen.Shared.Json.{is_truthy, Json, null, obj, Fields, key, find}
use unknown_file_threat_agen.Prelude.{
  ℕ, ◌+◌, String, ◌⊎◌, inl, inr, Bool, not, ◌&&◌, Option, none, some, List, [], ◌∷◌, ◌++◌, ◌==◌,
  eqb, if◌then◌else◌, length, or_else,
}

pub record DatasetManifest : Type 0 where
  pub tenant_id : String
  pub source_system : String
  pub parser_name : String
  pub parser_version : String
  pub expected_record_count : Option ℕ

-- an exception: the name of its type and its text
pub record Failure : Type 0 where
  pub error_type : String
  pub message : String

pub record Row : Type 0 where
  pub source_system : String
  pub source_record_id : String
  pub payload_digest : String

-- `str`; a time, with whether it has a timezone, or `none` for a malformed text; the digest of the
-- canonical text; the types of the activities that the parser gives for a record; the exception that
-- `put_record_with_activities` raises over a table, if it does; f"line-{position}"
pub record Ports : Type 0 where
  pub name : String
  pub version : String
  pub text_of : Json → String
  pub read_time : String → Option (Bool × ℕ)
  pub digest : Fields → String
  pub parse : String → String → ℕ → Fields → Failure ⊎ List String
  pub write : List Row → Row → Fields → List String → Option Failure
  pub line_of : ℕ → String

-- `raw_record_digest`, for the tenant of the manifest
unfoldable pub raw_record_digest : String → String → List Row → Option String
raw_record_digest source id [] = none
raw_record_digest source id (row ∷ rows) =
    if row.source_system == source && row.source_record_id == id
    then some row.payload_digest
    else raw_record_digest source id rows

abbrev pub value_error : String → Failure
value_error message = record { error_type = "ValueError"; message = message }

-- `payload.get(k) or rest`
unfoldable pub get_or : String → Json → Fields → Json
get_or k rest payload =
    let value = or_else (find (key k) payload) null in if is_truthy value then value else rest

unfoldable pub record_key : Fields → Json
record_key payload =
    get_or "event_id" (get_or "id" (or_else (find (key "record_id") payload) null) payload) payload

-- the members of a value that is a dict
unfoldable pub members : Option Json → Option Fields
members (some (obj fs)) = some fs
members _ = none

unfoldable pub not_null : Option Json → Option Json
not_null (some null) = none
not_null o = o

-- the value that `_observed_at` reads
unfoldable pub time_value : Fields → Option Json
time_value payload = elim (not_null (find (key "observed_at") payload)) [
  | some value ↦ some value
  | none ↦ elim (members (find (key "event") payload)) [
    | none ↦ none
    | some event ↦
        not_null (some (get_or "observed_at" (or_else (find (key "time") event) null) event))
  ]
]

module _ (ports : Ports) (manifest : DatasetManifest) where
  -- `_source_record_id`
  unfoldable pub source_record_id : Fields → Failure ⊎ String
  source_record_id payload =
      if is_truthy (record_key payload)
      then inr (ports.text_of (record_key payload))
      else inl (value_error "source record requires event_id, id, or record_id")

  -- the end of `_observed_at`; the text of a malformed time's error is left out
  unfoldable pub aware_time : Option (Bool × ℕ) → Failure ⊎ ℕ
  aware_time none = inl (value_error "")
  aware_time (some (aware, instant)) =
      if aware then inr instant else inl (value_error "source record time must include a timezone")

  -- `_observed_at`; the "Z" of a time is read by `read_time`
  unfoldable pub observed_at : Fields → Failure ⊎ ℕ
  observed_at payload = elim (time_value payload) [
    | none ↦ inl (value_error "source record requires observed_at or event.time")
    | some value ↦ aware_time (ports.read_time (ports.text_of value))
  ]

  -- `str(payload.get("source_system") or manifest.source_system)`
  unfoldable pub record_source : Fields → String
  record_source payload =
      let value = or_else (find (key "source_system") payload) null in
      if is_truthy value then ports.text_of value else manifest.source_system

  -- what becomes of a payload
  pub data Outcome : Type 0 where
    duplicate : Outcome
    imported : Row → ℕ → List String → Outcome
    failed : Failure → Outcome

  -- the answer of `put_record_with_activities`
  unfoldable pub import_written : Row → ℕ → List String → Option Failure → Outcome
  import_written row observed domains none = imported row observed domains
  import_written row observed domains (some failure) = failed failure

  -- the answer of the parser
  unfoldable pub import_parsed : Fields → List Row → Row → ℕ → Failure ⊎ List String → Outcome
  import_parsed payload rows row observed (inl failure) = failed failure
  import_parsed payload rows row observed (inr []) =
      failed (value_error "parser produced no normalized activities")
  import_parsed payload rows row observed (inr (domain ∷ domains)) =
      import_written row observed (domain ∷ domains)
        (ports.write rows row payload (domain ∷ domains))

  -- the answer of the store
  unfoldable pub import_new : Fields → List Row → String → ℕ → Option String → Outcome
  import_new payload rows id observed none =
      import_parsed payload rows
        (record {
          source_system = record_source payload;
          source_record_id = id;
          payload_digest = ports.digest payload;
        })
        observed (ports.parse (record_source payload) id observed payload)
  import_new payload rows id observed (some existing) =
      if existing == ports.digest payload
      then duplicate
      else failed (value_error "source record ID already exists with different content")

  unfoldable pub import_at : Fields → String → List Row → Failure ⊎ ℕ → Outcome
  import_at payload id rows (inl failure) = failed failure
  import_at payload id rows (inr observed) =
      import_new payload rows id observed (raw_record_digest (record_source payload) id rows)

  unfoldable pub import_known : Fields → List Row → Failure ⊎ String → Outcome
  import_known payload rows (inl failure) = failed failure
  import_known payload rows (inr id) = import_at payload id rows (observed_at payload)

  -- the `try` block of a payload
  unfoldable pub import_payload : Fields → List Row → Outcome
  import_payload payload rows = import_known payload rows (source_record_id payload)

  -- the table and the counters of a batch
  pub record Batch : Type 0 where
    pub rows : List Row
    pub received : ℕ
    pub imported_records : ℕ
    pub duplicates : ℕ
    pub produced : ℕ
    pub failures : List (String × Failure)
    pub times : List ℕ
    pub domains : List String

  -- the source identifier of a quarantined payload
  unfoldable pub quarantine_id : ℕ → Fields → String
  quarantine_id position payload =
      if is_truthy (record_key payload)
      then ports.text_of (record_key payload)
      else ports.line_of position

  unfoldable pub count_outcome : Fields → Outcome → Batch → Batch
  count_outcome payload duplicate b = record b { duplicates = b.duplicates + 1 }
  count_outcome payload (imported row observed domains) b = record b {
    rows = b.rows ++ (row ∷ []);
    imported_records = b.imported_records + 1;
    produced = b.produced + length domains;
    times = b.times ++ (observed ∷ []);
    domains = b.domains ++ domains;
  }
  count_outcome payload (failed failure) b = record b {
    failures = b.failures ++ ((quarantine_id b.received payload, failure) ∷ []);
  }

  -- the body of the loop
  unfoldable pub ingest_payload : Fields → Batch → Batch
  ingest_payload payload b =
      count_outcome payload (import_payload payload b.rows) (record b { received = b.received + 1 })

  unfoldable pub ingest_all : List Fields → Batch → Batch
  ingest_all [] b = b
  ingest_all (payload ∷ rest) b = ingest_all rest (ingest_payload payload b)

  unfoldable pub empty_batch : List Row → Batch
  empty_batch rows = record {
    rows = rows;
    received = 0;
    imported_records = 0;
    duplicates = 0;
    produced = 0;
    failures = [];
    times = [];
    domains = [];
  }

  -- the status of the report
  unfoldable pub batch_status : Batch → String
  batch_status b =
      let count = length b.failures in
      if eqb count b.received && not (eqb b.received 0)
      then "failed"
      else if not (eqb count 0)
      then "partial"
      else "completed"

  -- `ingest_payloads`: the batch and its status, or the error of a wrong parser
  unfoldable pub ingest_payloads : List Row → List Fields → Failure ⊎ (Batch × String)
  ingest_payloads rows payloads =
      if manifest.parser_name == ports.name && manifest.parser_version == ports.version
      then (let b = ingest_all payloads (empty_batch rows) in inr (b, batch_status b))
      else inl (value_error "manifest parser identity does not match selected parser")
