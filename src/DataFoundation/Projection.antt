-- ===== src/DataFoundation/Projection.antt =====
-- data_foundation/domain/entity_projection.py: `project`, the entities and relations that one activity shows.
-- An attribute of an asset that is named as a parameter of the source's `entity` (kind, source_ref,
-- lifecycle) is outside the model.
pub mod Closed
use mathlib.Core.Option
use unknown_file_threat_agen.Shared.Json.{Json, str}
use unknown_file_threat_agen.Prelude.{
  ℕ, String, Bool, true, false, Option, none, some, List, [], ◌∷◌, map, if◌then◌else◌, is_some,
}
use unknown_file_threat_agen.Shared.Text.{starts_with}
use unknown_file_threat_agen.DataFoundation.Entities.{
  EntityProjection, Ports, entity_id, entity, relation, present,
}

-- what the projector reads of an activity, by type; a missing or empty reference is `none`;
-- `all_refs` are the references that `_activity_refs` collects, in the order in which the set gives them
pub data Detail : Type 0 where
  process_detail :
      (process_ref : String) (started_at : Option ℕ) (parent : Option String) (pid : Option Json)
      → Detail
  file_detail : (file_ref : String) (digest path : Option Json) (acting : Option String) → Detail
  network_detail : (process_ref endpoint : Option String) → Detail
  socket_detail : (process_ref : Option String) (socket_ref : String) → Detail
  service_detail : (service_ref : String) (executable : Option String) → Detail
  package_detail : (package_ref : String) (file_ref : Option String) → Detail
  asset_detail : (asset_ref : String) (attributes : List (String × Option Json)) → Detail
  other_detail : Detail

pub record ObservedActivity : Type 0 where
  pub activity_id : String
  pub host_ref : Option String
  pub target_refs : List String
  pub all_refs : List String
  pub detail : Detail

module _ (ports : Ports) where
  -- the relations of a process: its host, its parent, and the files that it executes
  unfoldable pub link_host :
      ObservedActivity → String → Bool → Option String → EntityProjection → EntityProjection
  link_host activity process_id started none p = p
  link_host activity process_id started (some host) p =
      relation ports activity.activity_id "hosts" (entity_id ports "host" host none) process_id
        started (if started then none else some "process start time is unavailable") p

  unfoldable pub link_parent :
      ObservedActivity → String → Bool → Option String → EntityProjection → EntityProjection
  link_parent activity process_id started none p = p
  link_parent activity process_id started (some parent) p =
      relation ports activity.activity_id "parent_of" (entity_id ports "process" parent none)
        process_id started (if started then none else some "child process lifecycle is incomplete")
        (entity ports "process" parent none [] p)

  unfoldable pub link_targets :
      ObservedActivity → String → List String → EntityProjection → EntityProjection
  link_targets activity process_id [] p = p
  link_targets activity process_id (target ∷ rest) p = link_targets activity process_id rest (
      relation ports activity.activity_id "executes" process_id (entity_id ports "file" target none)
        true none (entity ports "file" target none [] p))

  -- an entity, and a relation from it to another that is added after it
  unfoldable pub link_to :
      ObservedActivity
      → String
      → String × String
      → String × String
      → Bool
      → Option String
      → EntityProjection
      → EntityProjection
  link_to activity kind (from_kind, from_ref) (to_kind, to_ref) resolved reason p =
      relation ports activity.activity_id kind (entity_id ports from_kind from_ref none)
        (entity_id ports to_kind to_ref none) resolved reason
        (entity ports to_kind to_ref none [] (entity ports from_kind from_ref none [] p))

  abbrev unverified : Option String
  unverified = some "process reference has no verified lifecycle in this activity"

  optional_text : String → Option String → String × Option Json
  optional_text k none = (k, none)
  optional_text k (some s) = (k, some (str s))

  -- the branches on the type of the activity
  unfoldable pub project_detail : ObservedActivity → Detail → EntityProjection → EntityProjection
  unfolding optional_text
  project_detail activity (process_detail process_ref started_at parent pid) p =
      let lifecycle = Option.map ports.isoformat started_at in
      let process_id = entity_id ports "process" process_ref lifecycle in
      let started = is_some lifecycle in
      link_targets activity process_id activity.target_refs (
        link_parent activity process_id started parent (
          link_host activity process_id started activity.host_ref (
            entity ports "process" process_ref lifecycle
              (present (
                optional_text "host_ref" activity.host_ref
                ∷ ("pid", pid)
                ∷ optional_text "started_at" lifecycle
                ∷ []))
              p)))
  project_detail activity (file_detail file_ref digest path none) p =
      entity ports "file" file_ref none (present (("digest", digest) ∷ ("path", path) ∷ [])) p
  project_detail activity (file_detail file_ref digest path (some acting)) p =
      relation ports activity.activity_id "acts_on" (entity_id ports "process" acting none)
        (entity_id ports "file" file_ref none) false
        (some "acting process reference has no verified lifecycle in this activity")
        (entity ports "process" acting none [] (
          entity ports "file" file_ref none (present (("digest", digest) ∷ ("path", path) ∷ [])) p))
  project_detail activity (network_detail (some process_ref) (some endpoint)) p =
      link_to activity "connects_to" ("process", process_ref) ("network_endpoint", endpoint) false
        unverified p
  project_detail activity (network_detail (some process_ref) none) p =
      entity ports "process" process_ref none [] p
  project_detail activity (network_detail none (some endpoint)) p =
      entity ports "network_endpoint" endpoint none [] p
  project_detail activity (network_detail none none) p = p
  project_detail activity (socket_detail (some process_ref) socket_ref) p =
      link_to activity "uses_socket" ("process", process_ref) ("network_endpoint", socket_ref) false
        unverified p
  project_detail activity (socket_detail none socket_ref) p = p
  project_detail activity (service_detail service_ref (some executable)) p =
      link_to activity "configured_to_execute" ("service", service_ref) ("file", executable) true
        none p
  project_detail activity (service_detail service_ref none) p =
      entity ports "service" service_ref none [] p
  project_detail activity (package_detail package_ref (some file_ref)) p =
      link_to activity "owns" ("package", package_ref) ("file", file_ref) true none p
  project_detail activity (package_detail package_ref none) p =
      entity ports "package" package_ref none [] p
  project_detail activity (asset_detail asset_ref attributes) p =
      entity ports "business_asset" asset_ref none (present attributes) p
  project_detail activity other_detail p = p

  unfoldable pub add_host : Option String → EntityProjection → EntityProjection
  add_host none p = p
  add_host (some host) p = entity ports "host" host none [] p

  unfoldable pub add_users : List String → EntityProjection → EntityProjection
  add_users [] p = p
  add_users (ref ∷ rest) p =
      add_users rest (if starts_with "user:" ref then entity ports "user" ref none [] p else p)

  -- `project`
  unfoldable pub project : ObservedActivity → EntityProjection
  project activity = project_detail activity activity.detail (
      add_users activity.all_refs
        (add_host activity.host_ref (record { entities = []; relations = [] })))
