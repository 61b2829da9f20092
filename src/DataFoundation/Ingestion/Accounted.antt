-- ===== src/DataFoundation/Ingestion/Accounted.antt =====
-- data_foundation/application/ingestion.py: the counts of a batch.
use unknown_file_threat_agen.Shared.Json.{Fields}
use unknown_file_threat_agen.DataFoundation.Ingestion.{
  DatasetManifest, Failure, Ports, Row, Outcome, duplicate, imported, failed, import_payload, Batch,
  count_outcome, ingest_payload, ingest_all,
}
use unknown_file_threat_agen.Prelude.{
  ◌⊎◌, inl, inr, Option, String, ◌≤◌, ℕ, suc, ◌+◌, ◌≡◌, refl, false, List, [], ◌∷◌, arith, length,
  length-append,
}
use unknown_file_threat_agen.DataFoundation.Ingestion.Settled.{
  Extends, raw_record_digest-append, is_imported, IsKnown, IsKnown-later, is_imported-known,
}

module _ (ports : Ports) (manifest : DatasetManifest) where
  -- the payloads that a batch has counted
  abbrev pub accounted : Batch ports manifest → ℕ
  accounted b = b.imported_records + b.duplicates + length b.failures

  -- one batch and a later one, with a number of payloads between them
  pub record IsAccounted (count : ℕ) (before after : Batch ports manifest) : Type 0 where
    pub received : after.received ≡ before.received + count
    pub counted : accounted after ≡ accounted before + count
    pub table :
        length after.rows + before.imported_records ≡ length before.rows + after.imported_records
    pub kept : Extends before.rows after.rows

  count_outcome-IsAccounted :
      (payload : Fields) (outcome : Outcome ports manifest) (b : Batch ports manifest)
      → IsAccounted 1 b
          (count_outcome ports manifest payload outcome (record b { received = b.received + 1 }))
  unfolding count_outcome
  count_outcome-IsAccounted payload duplicate b = record {
    received = refl;
    counted = omega arith;
    table = refl;
    kept = λ s i d h. h;
  }
  count_outcome-IsAccounted payload (imported row observed domains) b = record {
    received = refl;
    counted = omega arith;
    table = ground (arith, length-append b.rows (row ∷ []));
    kept = raw_record_digest-append b.rows (row ∷ []);
  }
  count_outcome-IsAccounted payload (failed failure) b = record {
    received = refl;
    counted = rw (length-append b.failures (_ ∷ [])) (omega arith);
    table = refl;
    kept = λ s i d h. h;
  }

  -- at most this number of the payloads is not known to the table
  abbrev pub AtMost : List Row → ℕ → List Fields → Type 0
  AtMost rows n [] = Unit
  AtMost rows n (payload ∷ rest) =
      (IsKnown ports manifest rows payload × AtMost rows n rest)
      ⊎ ((m : ℕ) × (n ≡ suc m) × AtMost rows m rest)

  ingest_payload-IsAccounted :
      (payload : Fields) (b : Batch ports manifest)
      → IsAccounted 1 b (ingest_payload ports manifest payload b)
  unfolding ingest_payload
  ingest_payload-IsAccounted payload b =
      count_outcome-IsAccounted payload (import_payload ports manifest payload b.rows) b

  -- what a payload does to the number of imported records
  count_outcome-imported :
      (payload : Fields) (outcome : Outcome ports manifest) (b : Batch ports manifest)
      → ((count_outcome ports manifest payload outcome b).imported_records ≤ b.imported_records + 1)
        × (is_imported ports manifest outcome ≡ false
            → (count_outcome ports manifest payload outcome b).imported_records
              ≡ b.imported_records)
  unfolding count_outcome
  count_outcome-imported payload duplicate b = (omega arith, λ h. refl)
  count_outcome-imported payload (imported row observed domains) b = (omega arith, λ h. cc)
  count_outcome-imported payload (failed failure) b = (omega arith, λ h. refl)

  ingest_payload-imported :
      (payload : Fields) (b : Batch ports manifest)
      → ((ingest_payload ports manifest payload b).imported_records ≤ b.imported_records + 1)
        × (IsKnown ports manifest b.rows payload
            → (ingest_payload ports manifest payload b).imported_records ≡ b.imported_records)
  unfolding ingest_payload
  ingest_payload-imported payload b =
      let outcome = import_payload ports manifest payload b.rows in
      let one = count_outcome-imported payload outcome (record b { received = b.received + 1 }) in
      (one.0, λ known. one.1 (is_imported-known ports manifest payload b.rows known))

  -- a batch imports no more records than it has payloads that the table does not know
  pub ingest_all-AtMost :
      (rows : List Row) (payloads : List Fields) (n : ℕ) (b : Batch ports manifest)
      → Extends rows b.rows
      → AtMost rows n payloads
      → (ingest_all ports manifest payloads b).imported_records ≤ b.imported_records + n
  unfolding ingest_all
  ingest_all-AtMost rows [] n b kept few = omega arith
  ingest_all-AtMost rows (payload ∷ rest) n b kept few =
      let next = ingest_payload ports manifest payload b in
      let one = ingest_payload-imported payload b in
      let still : Extends rows next.rows =
        λ s i d h. (ingest_payload-IsAccounted payload b).kept s i d (kept s i d h) in
      elim few [
        | inl (known, others) ↦ omega (
          arith,
          one.1 (IsKnown-later ports manifest rows b.rows payload kept known),
          ingest_all-AtMost rows rest n next still others,
        )
        | inr (m, e, others) ↦
            omega (arith, one.0, e, ingest_all-AtMost rows rest m next still others)
      ]

-- the same program with another store behind it
abbrev pub with_write : Ports → (List Row → Row → Fields → List String → Option Failure) → Ports
with_write ports write = record ports { write = write }
