-- ===== src/DataFoundation/ProjectionExamples.antt =====
-- The projection of a concrete process that executes a file.
use unknown_file_threat_agen.DataFoundation.Projection.{process_detail, ObservedActivity, project}
use unknown_file_threat_agen.DataFoundation.Entities.{Ports}
use unknown_file_threat_agen.DataFoundation.Entities.Closed.{IsClosed}
use unknown_file_threat_agen.DataFoundation.Projection.Closed.{project-IsClosed}
use unknown_file_threat_agen.Prelude.{none, some, [], ◌∷◌}

abbrev ports : Ports
ports = record {
  entity_digest = λ s. s;
  relation_digest = λ s. s;
  isoformat = λ n. "noon";
  from_milliseconds = λ s. s;
}

abbrev activity : ObservedActivity
activity = record {
  activity_id = "a1";
  host_ref = some "host:h";
  target_refs = "file:/bin/sh" ∷ [];
  all_refs = "user:u" ∷ "process:7" ∷ [];
  detail = process_detail "process:7" (some 5) (some "process:1") none;
}

project-IsClosed_example : IsClosed (project ports activity)
project-IsClosed_example = project-IsClosed ports activity
