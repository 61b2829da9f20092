-- ===== src/Middleware/Hygiene/Clean.antt =====
-- agent_middleware/hygiene.py: the rebuilt history.
use unknown_file_threat_agen.Shared.Json.{
  is_truthy, Json, null, bool, num, str, arr, obj, Fields, end, field, key, index, find,
}
use unknown_file_threat_agen.Shared.DraftEditor.Walk.{find-set_field}
use unknown_file_threat_agen.Middleware.Messages.{Content, text, blocks, Message}
use unknown_file_threat_agen.Middleware.Hygiene.{
  Texts, drop_field, artifact_payload, fold_payload, fold_artifact, is_null_value, null_field,
  fill_field, clean_block, block_needs_cleaning, content_needs_cleaning, needs_cleaning,
  clean_content, clean_message, identify, rebuild, before_model,
}
use unknown_file_threat_agen.Prelude.{
  ℕ, suc, String, ◌≡◌, refl, ap, ◌∙◌, ◌⊎◌, inl, inr, Bool, true, false, Option, none, some, List,
  [], ◌∷◌, map, arith, ◌==◌, if◌then◌else◌, Bool-cases, any, is_some, or_else, Pairwise, str_refl,
}

find-drop_field : (k : String) (fs : Fields) → find (key k) (drop_field (key k) fs) ≡ none
unfolding find drop_field
find-drop_field k end = refl
find-drop_field k (field (key j) v fs) = elim (Bool-cases (k == j)) [
  | inl same ↦ rw same (find-drop_field k fs)
  | inr other ↦ rw (other, other) (find-drop_field k fs)
]
find-drop_field k (field (index i) v fs) = find-drop_field k fs

-- filling a field leaves the others, and leaves no `None`
find-fill_field :
    (j k : String) (fs : Fields)
    → (j == k) ≡ false
    → find (key j) (fill_field k fs) ≡ find (key j) fs
unfolding fill_field
find-fill_field j k fs apart = elim (Bool-cases (null_field k fs)) [
  | inl h ↦ rw (h, find-set_field j k (obj end) fs, apart) refl
  | inr h ↦ rw h refl
]

null_field-fill_field : (k : String) (fs : Fields) → null_field k (fill_field k fs) ≡ false
unfolding fill_field is_null_value null_field find
null_field-fill_field k fs = elim (Bool-cases (null_field k fs)) [
  | inl h ↦ rw h (ap is_null_value (find-set_field k k (obj end) fs) ∙ filled)
  | inr h ↦ rw (h, h) refl
]
  where
    filled : is_null_value (if k == k then some (obj end) else find (key k) fs) ≡ false
    filled = rw (str_refl k) refl

find-fold_payload :
    (payload : Option Fields) (fs : Fields)
    → find (key "partial_json") (fold_payload payload fs) ≡ find (key "partial_json") fs
unfolding fold_payload
find-fold_payload none fs = refl
find-fold_payload (some payload) fs =
    elim (Bool-cases (is_truthy (or_else (find (key "input") fs) null))) [
      | inl h ↦ rw h refl
      | inr h ↦ rw h (find-set_field "partial_json" "input" (obj payload) fs)
    ]

find-fold_artifact :
    (texts : Texts) (fs : Fields) (artifact : Option Json)
    → find (key "partial_json") fs ≡ artifact
    → find (key "partial_json") (fold_artifact texts artifact fs) ≡ none
unfolding fold_artifact
find-fold_artifact texts fs none e = e
find-fold_artifact texts fs (some artifact) e =
    find-fold_payload (artifact_payload texts artifact) (drop_field (key "partial_json") fs)
    ∙ find-drop_field "partial_json" fs

block_needs_cleaning-clean_block :
    (texts : Texts) (block : Json) → block_needs_cleaning (clean_block texts block) ≡ false
unfolding block_needs_cleaning clean_block null_field
block_needs_cleaning-clean_block texts null = refl
block_needs_cleaning-clean_block texts (bool b) = refl
block_needs_cleaning-clean_block texts (num n) = refl
block_needs_cleaning-clean_block texts (str s) = refl
block_needs_cleaning-clean_block texts (arr xs) = refl
block_needs_cleaning-clean_block texts (obj fs) =
    let folded = fold_artifact texts (find (key "partial_json") fs) fs in
    let filled = fill_field "input" folded in
    rw
      (
        find-fill_field "partial_json" "args" filled refl,
        find-fill_field "partial_json" "input" folded refl,
        find-fold_artifact texts fs _ refl,
        find-fill_field "input" "args" filled refl,
        null_field-fill_field "input" folded,
        null_field-fill_field "args" filled,
      )
      refl

any-map-clean_block :
    (texts : Texts) (xs : List Json) → any block_needs_cleaning (map (clean_block texts) xs) ≡ false
any-map-clean_block texts [] = refl
any-map-clean_block texts (x ∷ xs) =
    rw (block_needs_cleaning-clean_block texts x, any-map-clean_block texts xs) refl

content_needs_cleaning-clean_content :
    (texts : Texts) (content : Content)
    → content_needs_cleaning (clean_content texts content) ≡ false
unfolding content_needs_cleaning clean_content
content_needs_cleaning-clean_content texts (text s) = refl
content_needs_cleaning-clean_content texts (blocks xs) = any-map-clean_block texts xs

-- what a message of the history becomes
pub record IsRebuilt (before after : Message) : Type 0 where
  pub clean : needs_cleaning after ≡ false
  pub kind : after.kind ≡ before.kind
  pub artifact : after.artifact ≡ before.artifact
  pub content : needs_cleaning before ≡ false → after.content ≡ before.content
  pub id : (i : String) → before.id ≡ some i → after.id ≡ some i
  pub identified : is_some after.id ≡ true

module _ (texts : Texts) (new_id : ℕ → String) where
  identify-IsRebuilt :
      (n : ℕ) (m : Message) → IsRebuilt m (identify texts new_id n (clean_message texts new_id m))
  unfolding identify clean_message needs_cleaning
  identify-IsRebuilt n m = by_need (needs_cleaning m) refl
    where
      by_need :
          (need : Bool)
          → needs_cleaning m ≡ need
          → IsRebuilt m (
              identify texts new_id n
                (if need then record m { content = clean_content texts m.content } else m))
      by_need true e = record {
        clean = ground (arith, content_needs_cleaning-clean_content texts m.content);
        kind = refl;
        artifact = refl;
        content = λ h. ground (arith, e);
        id = λ i h. rw h refl;
        identified = refl;
      }
      by_need false e = record {
        clean = e;
        kind = refl;
        artifact = refl;
        content = λ h. refl;
        id = λ i h. rw h refl;
        identified = refl;
      }

  rebuild-IsRebuilt :
      (n : ℕ) (ms : List Message) → Pairwise IsRebuilt ms (rebuild texts new_id n ms)
  unfolding rebuild
  rebuild-IsRebuilt n [] = tt
  rebuild-IsRebuilt n (m ∷ ms) = (identify-IsRebuilt n m, rebuild-IsRebuilt (suc n) ms)

  any-needs_cleaning-rebuild :
      (n : ℕ) (ms : List Message) → any needs_cleaning (rebuild texts new_id n ms) ≡ false
  unfolding rebuild
  any-needs_cleaning-rebuild n [] = refl
  any-needs_cleaning-rebuild n (m ∷ ms) =
      rw ((identify-IsRebuilt n m).clean, any-needs_cleaning-rebuild (suc n) ms) refl

  -- A history is left alone exactly when no message needs cleaning. Otherwise the new history has the
  -- same messages in order: none needs cleaning any more, each has an identifier and keeps one that it
  -- had, the content of a message that needed nothing is untouched; and a second pass changes nothing.
  pub before_model_lem :
      (messages : List Message)
      → ((before_model texts new_id messages ≡ none) × (any needs_cleaning messages ≡ false))
        ⊎ ((any needs_cleaning messages ≡ true)
            × ((after : List Message) × (before_model texts new_id messages ≡ some after)
                × Pairwise IsRebuilt messages after
                × (before_model texts new_id after ≡ none)))
  unfolding before_model
  before_model_lem messages = elim (Bool-cases (any needs_cleaning messages)) [
    | inl dirty ↦ inr (
      dirty,
      (
        rebuild texts new_id 0 messages,
        rw dirty refl,
        rebuild-IsRebuilt 0 messages,
        rw (any-needs_cleaning-rebuild 0 messages) refl,
      ),
    )
    | inr fine ↦ inl (rw fine refl, fine)
  ]
