-- ===== src/DataFoundation/Projection/Closed.antt =====
-- data_foundation/domain/entity_projection.py: the ends of the relations of a projection.
use unknown_file_threat_agen.Shared.Json.{Json}
use unknown_file_threat_agen.Shared.Text.{starts_with}
use unknown_file_threat_agen.DataFoundation.Projection.{
  Detail, process_detail, file_detail, network_detail, socket_detail, service_detail,
  package_detail, asset_detail, other_detail, ObservedActivity, entity_id, link_host, link_parent,
  link_targets, link_to, project_detail, add_host, add_users, project,
}
use unknown_file_threat_agen.Prelude.{
  String, Bool, true, false, Option, none, some, List, [], ◌∷◌, if-All,
}
use unknown_file_threat_agen.DataFoundation.Entities.{EntityProjection, Ports, entity_id, entity}
use unknown_file_threat_agen.DataFoundation.Entities.Closed.{
  Has, IsClosed, IsAnchored, entity-Has, entity-Has-own, entity-IsClosed, entity-IsAnchored,
  relation-IsAnchored, joined-IsClosed,
}

module _ (ports : Ports) where
  -- the host of the activity, when it names one, is an entity
  HasHost : Option String → EntityProjection → Type 0
  HasHost none p = Unit
  HasHost (some host) p = Has p (entity_id ports "host" host none)

  HasHost-entity :
      (kind ref : String) (lifecycle : Option String) (attributes : List (String × Json))
      (p : EntityProjection) (host : Option String)
      → HasHost host p
      → HasHost host (entity ports kind ref lifecycle attributes p)
  unfolding HasHost
  HasHost-entity kind ref lifecycle attributes p none h = h
  HasHost-entity kind ref lifecycle attributes p (some host) h =
      entity-Has ports kind ref lifecycle attributes p _ h

  link_host-IsAnchored :
      (activity : ObservedActivity) (id : String) (started : Bool) (host : Option String)
      (p : EntityProjection)
      → IsAnchored id p
      → HasHost host p
      → IsAnchored id (link_host ports activity id started host p)
  unfolding link_host HasHost
  link_host-IsAnchored activity id started none p h t = h
  link_host-IsAnchored activity id started (some host) p h t =
      relation-IsAnchored ports activity.activity_id "hosts" _ id started _ p id h t h.1

  link_parent-IsAnchored :
      (activity : ObservedActivity) (id : String) (started : Bool) (parent : Option String)
      (p : EntityProjection)
      → IsAnchored id p
      → IsAnchored id (link_parent ports activity id started parent p)
  unfolding link_parent
  link_parent-IsAnchored activity id started none p h = h
  link_parent-IsAnchored activity id started (some parent) p h =
      let e = entity-IsAnchored ports "process" parent none [] p id h in
      relation-IsAnchored ports activity.activity_id "parent_of" _ id started _ _ id e
        (entity-Has-own ports "process" parent none [] p) e.1

  link_targets-IsAnchored :
      (activity : ObservedActivity) (id : String) (targets : List String) (p : EntityProjection)
      → IsAnchored id p
      → IsAnchored id (link_targets ports activity id targets p)
  unfolding link_targets
  link_targets-IsAnchored activity id [] p h = h
  link_targets-IsAnchored activity id (target ∷ rest) p h =
      let e = entity-IsAnchored ports "file" target none [] p id h in
      link_targets-IsAnchored activity id rest _ (
        relation-IsAnchored ports activity.activity_id "executes" id _ true none _ id e e.1
          (entity-Has-own ports "file" target none [] p))

  link_to-IsClosed :
      (activity : ObservedActivity) (kind a_kind a b_kind b : String) (resolved : Bool)
      (reason : Option String) (p : EntityProjection)
      → IsClosed p
      → IsClosed (link_to ports activity kind (a_kind, a) (b_kind, b) resolved reason p)
  unfolding link_to
  link_to-IsClosed activity kind a_kind a b_kind b resolved reason p c =
      (joined-IsClosed ports activity.activity_id kind a_kind a b_kind b [] resolved reason p c).0

  project_detail-IsClosed :
      (activity : ObservedActivity) (detail : Detail) (p : EntityProjection)
      → IsClosed p
      → HasHost activity.host_ref p
      → IsClosed (project_detail ports activity detail p)
  unfolding project_detail
  project_detail-IsClosed activity (process_detail process_ref started_at parent pid) p c h =
      (link_targets-IsAnchored activity _ activity.target_refs _ (
        link_parent-IsAnchored activity _ _ parent _ (
          link_host-IsAnchored activity _ _ activity.host_ref _
            (
              entity-IsClosed ports "process" process_ref _ _ p c,
              entity-Has-own ports "process" process_ref _ _ p,
            )
            (HasHost-entity "process" process_ref _ _ p activity.host_ref h)))).0
  project_detail-IsClosed activity (file_detail file_ref digest path none) p c h =
      entity-IsClosed ports "file" file_ref none _ p c
  project_detail-IsClosed activity (file_detail file_ref digest path (some acting)) p c h =
      (joined-IsClosed ports activity.activity_id "acts_on" "file" file_ref "process" acting _ false
        _ p c).1
  project_detail-IsClosed activity (network_detail (some process_ref) (some endpoint)) p c h =
      link_to-IsClosed activity "connects_to" "process" process_ref "network_endpoint" endpoint
        false _ p c
  project_detail-IsClosed activity (network_detail (some process_ref) none) p c h =
      entity-IsClosed ports "process" process_ref none [] p c
  project_detail-IsClosed activity (network_detail none (some endpoint)) p c h =
      entity-IsClosed ports "network_endpoint" endpoint none [] p c
  project_detail-IsClosed activity (network_detail none none) p c h = c
  project_detail-IsClosed activity (socket_detail (some process_ref) socket_ref) p c h =
      link_to-IsClosed activity "uses_socket" "process" process_ref "network_endpoint" socket_ref
        false _ p c
  project_detail-IsClosed activity (socket_detail none socket_ref) p c h = c
  project_detail-IsClosed activity (service_detail service_ref (some executable)) p c h =
      link_to-IsClosed activity "configured_to_execute" "service" service_ref "file" executable true
        none p c
  project_detail-IsClosed activity (service_detail service_ref none) p c h =
      entity-IsClosed ports "service" service_ref none [] p c
  project_detail-IsClosed activity (package_detail package_ref (some file_ref)) p c h =
      link_to-IsClosed activity "owns" "package" package_ref "file" file_ref true none p c
  project_detail-IsClosed activity (package_detail package_ref none) p c h =
      entity-IsClosed ports "package" package_ref none [] p c
  project_detail-IsClosed activity (asset_detail asset_ref attributes) p c h =
      entity-IsClosed ports "business_asset" asset_ref none _ p c
  project_detail-IsClosed activity other_detail p c h = c

  add_users-IsClosed :
      (host : Option String) (refs : List String) (p : EntityProjection)
      → IsClosed p
      → HasHost host p
      → IsClosed (add_users ports refs p) × HasHost host (add_users ports refs p)
  unfolding add_users
  add_users-IsClosed host [] p c h = (c, h)
  add_users-IsClosed host (ref ∷ rest) p c h =
      let next =
        if-All (λ q. IsClosed q × HasHost host q) (starts_with "user:" ref)
          (entity-IsClosed ports "user" ref none [] p c, HasHost-entity "user" ref none [] p host h)
          (c, h) in
      add_users-IsClosed host rest _ next.0 next.1

  add_host-IsClosed :
      (host : Option String) (p : EntityProjection)
      → IsClosed p
      → IsClosed (add_host ports host p) × HasHost host (add_host ports host p)
  unfolding add_host HasHost
  add_host-IsClosed none p c = (c, tt)
  add_host-IsClosed (some host) p c =
      (entity-IsClosed ports "host" host none [] p c, entity-Has-own ports "host" host none [] p)

  -- In the projection of an activity, whatever its type and whichever of its references are missing, the source
  -- and the target of every relation are entities of that projection.
  pub project-IsClosed : (activity : ObservedActivity) → IsClosed (project ports activity)
  unfolding project
  project-IsClosed activity =
      let host =
        add_host-IsClosed activity.host_ref (record { entities = []; relations = [] }) tt in
      let users = add_users-IsClosed activity.host_ref activity.all_refs _ host.0 host.1 in
      project_detail-IsClosed activity activity.detail _ users.0 users.1
