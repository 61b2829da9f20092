-- ===== src/Judgment/MemoryStore.antt =====
-- judgment/application/memory_store.py: the archive of a run. A round is known by the identifiers that its
-- tool calls produced, by kind. Python's text of a number is a parameter.
pub mod Archived
use unknown_file_threat_agen.Prelude.Dict.{Dict, lookup, insert, keys}
use unknown_file_threat_agen.Shared.Json.{Json}
use unknown_file_threat_agen.Prelude.{
  ℕ, ◌+◌, String, Option, none, some, List, [], ◌∷◌, ◌++◌, map, if◌then◌else◌, length, or_else, mem,
}

abbrev pub RoundRecord : Type 0
RoundRecord = List (Dict (List String))

pub record Block : Type 0 where
  pub archive_id : String
  pub summary : String
  pub round_span : ℕ × ℕ
  pub rounds : List RoundRecord
  pub snapshots : List Json

pub record IndexEntry : Type 0 where
  pub archive_id : String
  pub record_json : Json

pub record MemoryStore : Type 0 where
  pub blocks : Dict Block
  pub index : Dict IndexEntry

-- `d.setdefault(k, v)`
unfoldable pub set_default {ℓ} : {V : Type ℓ} → String → V → Dict V → Dict V
set_default k v d = elim (lookup k d) [ none ↦ insert k v d | some w ↦ d ]

-- the loop over the records
unfoldable pub index_records : String → Dict Json → Dict IndexEntry → Dict IndexEntry
index_records handle [] index = index
index_records handle ((record_id, r) ∷ rest) index =
    index_records handle rest
      (set_default record_id (record { archive_id = handle; record_json = r }) index)

module _ (handle_of : ℕ → String) where
  -- `f"arc-{len(self._blocks) + 1}"`
  unfoldable pub next_handle : MemoryStore → String
  next_handle store = handle_of (length store.blocks + 1)

  -- `record_archive`; the handle that is returned is `next_handle`
  unfoldable pub record_archive :
      String → ℕ × ℕ → List RoundRecord → List Json → Dict Json → MemoryStore → MemoryStore
  record_archive summary round_span rounds snapshots records store =
      let handle = next_handle store in
      record {
        blocks =
            insert handle
              (record {
                archive_id = handle;
                summary = summary;
                round_span = round_span;
                rounds = rounds;
                snapshots = snapshots;
              })
              store.blocks;
        index = index_records handle records store.index;
      }

-- `get_archive`
unfoldable pub get_archive : String → MemoryStore → Option Block
get_archive handle store = lookup handle store.blocks

-- `handles`
unfoldable pub handles : MemoryStore → List String
handles store = keys store.blocks

pub record RawRecord : Type 0 where
  pub record_id : String
  pub archive_id : String
  pub raw : Json

-- the answer for an entry of the index
unfoldable pub raw_record : String → Option IndexEntry → Option RawRecord
raw_record record_id none = none
raw_record record_id (some entry) =
    some (record { record_id = record_id; archive_id = entry.archive_id; raw = entry.record_json })

-- `get_raw`
unfoldable pub get_raw : String → MemoryStore → Option RawRecord
get_raw record_id store = raw_record record_id (lookup record_id store.index)

unfoldable pub total_rounds : Dict Block → ℕ
total_rounds [] = 0
total_rounds ((handle, block) ∷ rest) = length block.rounds + total_rounds rest

pub record Stats : Type 0 where
  pub archives : ℕ
  pub indexed_ids : ℕ
  pub rounds_archived : ℕ

-- `stats`
unfoldable pub stats : MemoryStore → Stats
stats store = record {
  archives = length store.blocks;
  indexed_ids = length store.index;
  rounds_archived = total_rounds store.blocks;
}

-- `if value not in ids[kind]: ids[kind].append(value)`
unfoldable pub add_value : String → List String → List String
add_value value values = if mem value values then values else values ++ (value ∷ [])

unfoldable pub add_values : List String → List String → List String
add_values [] known = known
add_values (value ∷ rest) known = add_values rest (add_value value known)

-- the identifiers of a call, merged by kind
unfoldable pub add_ids : Dict (List String) → Dict (List String) → Dict (List String)
add_ids [] ids = ids
add_ids ((kind, values) ∷ rest) ids =
    add_ids rest (insert kind (add_values values (or_else (lookup kind ids) [])) ids)

unfoldable pub add_calls : RoundRecord → Dict (List String) → Dict (List String)
add_calls [] ids = ids
add_calls (call ∷ rest) ids = add_calls rest (add_ids call ids)

unfoldable pub block_ids : List RoundRecord → Dict (List String) → Dict (List String)
block_ids [] ids = ids
block_ids (round ∷ rest) ids = block_ids rest (add_calls round ids)

pub record Card : Type 0 where
  pub archive_id : String
  pub summary : String
  pub round_span : ℕ × ℕ
  pub ids : Dict (List String)

unfoldable pub card : Block → Card
card block = record {
  archive_id = block.archive_id;
  summary = block.summary;
  round_span = block.round_span;
  ids = block_ids block.rounds [];
}

-- `card_index`
unfoldable pub card_index : MemoryStore → List Card
card_index store = map (λ e. card e.1) store.blocks
