-- ===== src/DataFoundation/Examples.antt =====
-- The ingestion of a concrete batch.
use unknown_file_threat_agen.Shared.Json.{str, Fields, end, field, key}
use unknown_file_threat_agen.DataFoundation.Ingestion.{DatasetManifest, Failure, Row, Ports}
use unknown_file_threat_agen.Prelude.{none, List, String, Option, inr, true, some, [], ◌∷◌}

abbrev manifest : DatasetManifest
manifest = record {
  tenant_id = "t";
  source_system = "edr";
  parser_name = "p";
  parser_version = "1";
  expected_record_count = some 2;
}

abbrev ports : Ports
ports = record {
  name = "p";
  version = "1";
  text_of = λ v. "e1";
  read_time = λ s. some (true, 5);
  digest = λ fs. "d";
  parse = λ source id observed fs. inr ("process" ∷ []);
  write = λ rows row fs domains. none;
  line_of = λ n. "line";
}

abbrev payload : Fields
payload = field (key "event_id") (str "e1") (field (key "observed_at") (str "noon") end)

-- a store that refuses every write
abbrev refuses : List Row → Row → Fields → List String → Option Failure
refuses rows row fs domains = some (record { error_type = "IntegrityError"; message = "" })
