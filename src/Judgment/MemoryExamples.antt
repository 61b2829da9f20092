-- ===== src/Judgment/MemoryExamples.antt =====
-- The archive of a run at concrete rounds; a number's text is in strokes.
use unknown_file_threat_agen.Prelude.Dict.{Dict}
use unknown_file_threat_agen.Judgment.MemoryStore.{RoundRecord, MemoryStore, record_archive}
use unknown_file_threat_agen.Judgment.MemoryStore.Archived.{IsArchived, record_archive_lem}
use unknown_file_threat_agen.Shared.Json.{Json, str}
use unknown_file_threat_agen.Prelude.{ℕ, zero, suc, String, ◌≡◌, refl, ap, List, [], ◌∷◌}

abbrev strokes : ℕ → String
strokes zero = String.[]
strokes (suc n) = String.◌∷◌ "|" (strokes n)

strokes_distinct : (m n : ℕ) → strokes m ≡ strokes n → m ≡ n
strokes_distinct zero zero e = refl
strokes_distinct zero (suc n) e = cc
strokes_distinct (suc m) zero e = cc
strokes_distinct (suc m) (suc n) e = ap (λ k. suc k) (strokes_distinct m n cc)

abbrev store : MemoryStore
store = record {
  blocks =
      (
        "|",
        record {
          archive_id = "|";
          summary = "first";
          round_span = (1, 2);
          rounds = [];
          snapshots = [];
        },
      )
      ∷ [];
  index = [];
}

abbrev rounds : List RoundRecord
rounds = ((("activity", "a1" ∷ []) ∷ []) ∷ []) ∷ []

abbrev records : Dict Json
records = ("a1", str "raw") ∷ []

record_archive_lem_example :
    IsArchived strokes strokes_distinct rounds records store
      (record_archive strokes "second" (3, 4) rounds [] records store)
record_archive_lem_example =
    record_archive_lem strokes strokes_distinct "second" (3, 4) rounds [] records store
      (refl, refl, tt)
