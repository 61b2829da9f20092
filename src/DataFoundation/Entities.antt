-- ===== src/DataFoundation/Entities.antt =====
-- data_foundation/domain/entity_projection.py: the closures `entity` and `relation` of `project`, with the
-- helpers `_id`, `_relation_id` and `_process_lifecycle`, as functions from a projection to a projection. The
-- digests, `isoformat` of an instant and the instant of a text of milliseconds are parameters. Digits are
-- read over ASCII. The tenant, the source system of the alias, the validity interval, the resolver's version
-- and the confidences, which are floats, are left out.
pub mod Closed
use mathlib.Core.Option
use Prim.Native.Char.{code}
use Prim.Native.String.{◌++◌ as append}
use unknown_file_threat_agen.Prelude.Dict.{Dict, insert}
use unknown_file_threat_agen.Shared.Json.{Json}
use unknown_file_threat_agen.Prelude.{
  ℕ, ◌+◌, ◌-◌, String, Bool, false, ◌&&◌, ◌||◌, Option, none, some, List, [], ◌∷◌, ◌++◌, ◌==◌, leb,
  eqb, if◌then◌else◌, is_some,
}

pub record EntityIdentity : Type 0 where
  pub entity_id : String
  pub entity_type : String
  pub source_id : String
  pub has_lifecycle : Bool
  pub attributes : List (String × Json)

pub record ObservedRelation : Type 0 where
  pub relation_id : String
  pub relation_type : String
  pub source_entity_ref : String
  pub target_entity_ref : String
  pub resolved : Bool
  pub ambiguity_reason : Option String

pub record EntityProjection : Type 0 where
  pub entities : Dict EntityIdentity
  pub relations : List ObservedRelation

-- `_id`'s digest of a text, `_relation_id`'s, and the texts of instants
pub record Ports : Type 0 where
  pub entity_digest : String → String
  pub relation_digest : String → String
  pub isoformat : ℕ → String
  pub from_milliseconds : String → String

is_colon : ℕ → Bool
is_colon c = eqb c b':'

has_colon : String → Bool
has_colon String.[] = false
has_colon (String.◌∷◌ c s) = is_colon (code c) || has_colon s

-- `source_ref.rsplit(":", 1)[-1]`
unfoldable pub last_segment : String → String
unfolding has_colon is_colon
last_segment String.[] = ""
last_segment (String.◌∷◌ c s) =
    let rest = last_segment s in
    if has_colon s then rest else if is_colon (code c) then s else String.◌∷◌ c s

unfoldable pub digit_count : String → Option ℕ
digit_count String.[] = some 0
digit_count (String.◌∷◌ c s) = elim (digit_count s) [
  | none ↦ none
  | some n ↦ if leb b'0' (code c) && leb (code c) b'9' then some (n + 1) else none
]

-- `attributes.items()` whose value is not `None`
unfoldable pub present : List (String × Option Json) → List (String × Json)
present [] = []
present ((k, none) ∷ rest) = present rest
present ((k, some v) ∷ rest) = (k, v) ∷ present rest

module _ (ports : Ports) where
  -- `_process_lifecycle`
  unfoldable pub process_lifecycle : String → Option String
  process_lifecycle source_ref =
      let value = last_segment source_ref in
      elim (digit_count value) [
        | none ↦ none
        | some n ↦ if leb 10 n then some (ports.from_milliseconds value) else none
      ]

  -- `_id`
  unfoldable pub id_of : String → String → String
  id_of kind value =
      append "entity-"
        (append kind (append "-" (ports.entity_digest (append kind (append ":" value)))))

  -- the lifecycle that `entity` uses
  unfoldable pub lifecycle_of : String → String → Option String → Option String
  lifecycle_of kind source_ref (some l) = some l
  lifecycle_of kind source_ref none =
      if kind == "process" then process_lifecycle source_ref else none

  unfoldable pub key_of : String → Option String → String
  key_of source_ref none = source_ref
  key_of source_ref (some l) = append source_ref (append ":" l)

  unfoldable pub entity_id : String → String → Option String → String
  entity_id kind source_ref lifecycle =
      id_of kind (key_of source_ref (lifecycle_of kind source_ref lifecycle))

  -- `entity`
  unfoldable pub entity :
      String → String → Option String → List (String × Json) → EntityProjection → EntityProjection
  entity kind source_ref lifecycle attributes p = record p {
    entities =
        insert (entity_id kind source_ref lifecycle)
          (record {
            entity_id = entity_id kind source_ref lifecycle;
            entity_type = kind;
            source_id = source_ref;
            has_lifecycle = is_some (lifecycle_of kind source_ref lifecycle);
            attributes = attributes;
          })
          p.entities;
  }

  -- `relation`
  unfoldable pub relation :
      String → String → String → String → Bool → Option String → EntityProjection → EntityProjection
  relation activity_id kind source target resolved reason p = record p {
    relations =
        p.relations
        ++ (record {
          relation_id = append "relation-" (
              ports.relation_digest (
                append kind (
                  append ":"
                    (append source (append ":" (append target (append ":" activity_id)))))));
          relation_type = kind;
          source_entity_ref = source;
          target_entity_ref = target;
          resolved = resolved;
          ambiguity_reason = reason;
        }
            ∷ []);
  }
