-- ===== src/DataFoundation/Entities/Closed.antt =====
-- data_foundation/domain/entity_projection.py: the ends of relations under `entity` and `relation`.
use unknown_file_threat_agen.Prelude.Dict.{lookup, lookup-insert}
use unknown_file_threat_agen.Shared.Json.{Json}
use unknown_file_threat_agen.DataFoundation.Entities.{
  EntityProjection, Ports, entity_id, entity, relation,
}
use unknown_file_threat_agen.Prelude.{
  String, ◌≡◌, refl, inl, inr, Bool, true, Option, none, List, [], ◌∷◌, ◌++◌, ◌==◌, Bool-cases,
  is_some, All, str_refl,
}

abbrev pub Has : EntityProjection → String → Type 0
Has p id = is_some (lookup id p.entities) ≡ true

-- a projection whose relations have both their ends in it
abbrev pub IsClosed : EntityProjection → Type 0
IsClosed p = All (λ r. (Has p r.source_entity_ref × Has p r.target_entity_ref)) p.relations

All-map {ℓ} :
    {A : Type ℓ} {P Q : A → Type 0} → ((a : A) → P a → Q a) → (xs : List A) → All P xs → All Q xs
All-map f [] h = tt
All-map f (x ∷ xs) h = (f x h.0, All-map f xs h.1)

All-snoc {ℓ} :
    {A : Type ℓ} (P : A → Type 0) (xs : List A) (x : A) → All P xs → P x → All P (xs ++ (x ∷ []))
All-snoc P [] x h p = (p, tt)
All-snoc P (y ∷ xs) x h p = (h.0, All-snoc P xs x h.1 p)

-- a closed projection that has a given entity
abbrev pub IsAnchored : String → EntityProjection → Type 0
IsAnchored id p = IsClosed p × Has p id

module _ (ports : Ports) where
  pub entity-Has :
      (kind ref : String) (lifecycle : Option String) (attributes : List (String × Json))
      (p : EntityProjection) (id : String)
      → Has p id
      → Has (entity ports kind ref lifecycle attributes p) id
  unfolding entity
  entity-Has kind ref lifecycle attributes p id h =
      rw (lookup-insert id (entity_id ports kind ref lifecycle) _ p.entities)
        (elim (Bool-cases (id == entity_id ports kind ref lifecycle)) [
          | inl e ↦ rw e refl
          | inr e ↦ rw e h
        ])

  pub entity-Has-own :
      (kind ref : String) (lifecycle : Option String) (attributes : List (String × Json))
      (p : EntityProjection)
      → Has (entity ports kind ref lifecycle attributes p) (entity_id ports kind ref lifecycle)
  unfolding entity
  entity-Has-own kind ref lifecycle attributes p =
      rw
        (
          lookup-insert (entity_id ports kind ref lifecycle) (entity_id ports kind ref lifecycle) _
              p.entities,
          str_refl (entity_id ports kind ref lifecycle),
        )
        refl

  pub entity-IsClosed :
      (kind ref : String) (lifecycle : Option String) (attributes : List (String × Json))
      (p : EntityProjection)
      → IsClosed p
      → IsClosed (entity ports kind ref lifecycle attributes p)
  unfolding entity
  entity-IsClosed kind ref lifecycle attributes p c =
      All-map
        (λ r h. (
          entity-Has kind ref lifecycle attributes p r.source_entity_ref h.0,
          entity-Has kind ref lifecycle attributes p r.target_entity_ref h.1,
        ))
        p.relations c

  relation-IsClosed :
      (activity : String) (kind source target : String) (resolved : Bool) (reason : Option String)
      (p : EntityProjection)
      → IsClosed p
      → Has p source
      → Has p target
      → IsClosed (relation ports activity kind source target resolved reason p)
  unfolding relation
  relation-IsClosed activity kind source target resolved reason p c s t =
      All-snoc _ p.relations _ c (s, t)

  pub entity-IsAnchored :
      (kind ref : String) (lifecycle : Option String) (attributes : List (String × Json))
      (p : EntityProjection) (id : String)
      → IsAnchored id p
      → IsAnchored id (entity ports kind ref lifecycle attributes p)
  entity-IsAnchored kind ref lifecycle attributes p id h = (
    entity-IsClosed kind ref lifecycle attributes p h.0,
    entity-Has kind ref lifecycle attributes p id h.1,
  )

  pub relation-IsAnchored :
      (activity : String) (kind source target : String) (resolved : Bool) (reason : Option String)
      (p : EntityProjection) (id : String)
      → IsAnchored id p
      → Has p source
      → Has p target
      → IsAnchored id (relation ports activity kind source target resolved reason p)
  unfolding relation
  relation-IsAnchored activity kind source target resolved reason p id h s t =
      (All-snoc _ p.relations _ h.0 (s, t), h.1)

  -- two entities and a relation between them
  pub joined-IsClosed :
      (activity : String) (kind a_kind a b_kind b : String) (attributes : List (String × Json))
      (resolved : Bool) (reason : Option String) (p : EntityProjection)
      → IsClosed p
      → (let both = entity ports b_kind b none [] (entity ports a_kind a none attributes p) in
          let first = entity_id ports a_kind a none in
          let second = entity_id ports b_kind b none in
          IsClosed (relation ports activity kind first second resolved reason both)
          × IsClosed (relation ports activity kind second first resolved reason both))
  joined-IsClosed activity kind a_kind a b_kind b attributes resolved reason p c =
      let one = entity ports a_kind a none attributes p in
      let closed =
        entity-IsClosed b_kind b none [] one (entity-IsClosed a_kind a none attributes p c) in
      let first = entity-Has b_kind b none [] one _ (entity-Has-own a_kind a none attributes p) in
      let second = entity-Has-own b_kind b none [] one in
      (
        relation-IsClosed activity kind _ _ resolved reason _ closed first second,
        relation-IsClosed activity kind _ _ resolved reason _ closed second first,
      )
