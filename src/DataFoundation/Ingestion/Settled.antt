-- ===== src/DataFoundation/Ingestion/Settled.antt =====
-- data_foundation/application/ingestion.py: the payloads that a batch has seen.
use unknown_file_threat_agen.Shared.Json.{Fields}
use unknown_file_threat_agen.DataFoundation.Ingestion.{
  DatasetManifest, Failure, Ports, Row, raw_record_digest, record_source, Outcome, imported, failed,
  import_written, source_record_id, observed_at, import_parsed, import_new, import_at, import_known,
  import_payload,
}
use unknown_file_threat_agen.Prelude.{
  if_elim, ℕ, String, ◌≡◌, refl, ◌⊎◌, inl, inr, Bool, true, false, Option, none, some, List, [],
  ◌∷◌, ◌++◌, arith, ◌==◌, Bool-cases, str_refl,
}

-- a digest in the table stays
abbrev pub Extends : List Row → List Row → Type 0
Extends before after =
    (source id d : String)
    → raw_record_digest source id before ≡ some d
    → raw_record_digest source id after ≡ some d

pub raw_record_digest-append : (before rows : List Row) → Extends before (before ++ rows)
unfolding raw_record_digest
raw_record_digest-append [] rows source id d h = cc
raw_record_digest-append (row ∷ before) rows source id d h =
    ground (arith, raw_record_digest-append before rows source id d)

raw_record_digest-snoc :
    (row : Row) (rows : List Row)
    → raw_record_digest row.source_system row.source_record_id rows ≡ none
    → raw_record_digest row.source_system row.source_record_id (rows ++ (row ∷ []))
      ≡ some row.payload_digest
unfolding raw_record_digest
raw_record_digest-snoc row [] h =
    rw (str_refl row.source_system, str_refl row.source_record_id) refl
raw_record_digest-snoc row (other ∷ rows) h = ground (arith, raw_record_digest-snoc row rows)

module _ (ports : Ports) (manifest : DatasetManifest) where
  abbrev pub is_imported : Outcome ports manifest → Bool
  is_imported (imported row observed domains) = true
  is_imported _ = false

  -- the table after an outcome
  abbrev pub rows_after : Outcome ports manifest → List Row → List Row
  rows_after (imported row observed domains) rows = rows ++ (row ∷ [])
  rows_after _ rows = rows

  abbrev pub is_failed : Outcome ports manifest → Bool
  is_failed (failed failure) = true
  is_failed _ = false

  -- a payload whose source and identifier are in the table
  abbrev pub IsKnown : List Row → Fields → Type 0
  IsKnown rows payload =
      (id : String) × (d : String) × (source_record_id ports manifest payload ≡ inr id)
      × (raw_record_digest (record_source ports manifest payload) id rows ≡ some d)

  pub IsKnown-later :
      (before after : List Row) (payload : Fields)
      → Extends before after
      → IsKnown before payload
      → IsKnown after payload
  IsKnown-later before after payload kept (id, d, source, found) =
      (id, d, source, kept (record_source ports manifest payload) id d found)

  module _ (payload : Fields) (rows : List Row) where
    is_imported-import_new-some :
        (id : String) (observed : ℕ) (d : String)
        → is_imported (import_new ports manifest payload rows id observed (some d)) ≡ false
    unfolding import_new
    is_imported-import_new-some id observed d = elim (Bool-cases (d == ports.digest payload)) [
      | inl same ↦ rw same refl
      | inr other ↦ rw other refl
    ]

    is_imported-import_at :
        (id d : String) (time : Failure ⊎ ℕ)
        → raw_record_digest (record_source ports manifest payload) id rows ≡ some d
        → is_imported (import_at ports manifest payload id rows time) ≡ false
    unfolding import_at
    is_imported-import_at id d (inl failure) found = refl
    is_imported-import_at id d (inr observed) found =
        rw found (is_imported-import_new-some id observed d)

    -- a known payload is not imported
    pub is_imported-known :
        IsKnown rows payload → is_imported (import_payload ports manifest payload rows) ≡ false
    unfolding import_payload import_known
    is_imported-known (id, d, source, found) =
        rw source (is_imported-import_at id d (observed_at ports manifest payload) found)

    abbrev row_of : String → Row
    row_of id = record {
      source_system = record_source ports manifest payload;
      source_record_id = id;
      payload_digest = ports.digest payload;
    }

    -- the digest of a record that did not fail is in the table after it
    abbrev Has : String → Outcome ports manifest → Type 0
    Has id outcome =
        is_failed outcome ≡ false
        → (d : String) × (raw_record_digest (record_source ports manifest payload) id
              (rows_after outcome rows)
            ≡ some d)

    Has-import_written :
        (id : String) (observed : ℕ) (domains : List String) (answer : Option Failure)
        → raw_record_digest (record_source ports manifest payload) id rows ≡ none
        → Has id (import_written ports manifest (row_of id) observed domains answer)
    unfolding import_written
    Has-import_written id observed domains none new h =
        (ports.digest payload, raw_record_digest-snoc (row_of id) rows new)
    Has-import_written id observed domains (some failure) new h = cc

    Has-import_parsed :
        (id : String) (observed : ℕ) (answer : Failure ⊎ List String)
        → raw_record_digest (record_source ports manifest payload) id rows ≡ none
        → Has id (import_parsed ports manifest payload rows (row_of id) observed answer)
    unfolding import_parsed
    Has-import_parsed id observed (inl failure) new h = cc
    Has-import_parsed id observed (inr []) new h = cc
    Has-import_parsed id observed (inr (domain ∷ domains)) new h =
        Has-import_written id observed (domain ∷ domains) _ new h

    Has-import_new :
        (id : String) (observed : ℕ) (known : Option String)
        → raw_record_digest (record_source ports manifest payload) id rows ≡ known
        → Has id (import_new ports manifest payload rows id observed known)
    unfolding import_new
    Has-import_new id observed none found h = Has-import_parsed id observed _ found h
    Has-import_new id observed (some d) found h =
        if_elim (Has id) (d == ports.digest payload) (λ same k. (d, found)) (λ other k. cc) h

    Has-import_at :
        (id : String) (time : Failure ⊎ ℕ) → Has id (import_at ports manifest payload id rows time)
    unfolding import_at
    Has-import_at id (inl failure) h = cc
    Has-import_at id (inr observed) h = Has-import_new id observed _ refl h

    IsKnown-import_known :
        (source : Failure ⊎ String)
        → source_record_id ports manifest payload ≡ source
        → is_failed (import_known ports manifest payload rows source) ≡ false
        → IsKnown (rows_after (import_known ports manifest payload rows source) rows) payload
    unfolding import_known
    IsKnown-import_known (inl failure) e h = cc
    IsKnown-import_known (inr id) e h =
        let has = Has-import_at id (observed_at ports manifest payload) h in (id, has.0, e, has.1)

    -- a payload that did not fail is known afterwards
    pub IsKnown-after :
        is_failed (import_payload ports manifest payload rows) ≡ false
        → IsKnown (rows_after (import_payload ports manifest payload rows) rows) payload
    unfolding import_payload
    IsKnown-after = IsKnown-import_known (source_record_id ports manifest payload) refl
