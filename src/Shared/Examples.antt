-- ===== src/Shared/Examples.antt =====
-- The draft editor at concrete drafts.
use unknown_file_threat_agen.Prelude.Int.{pos}
use unknown_file_threat_agen.Shared.Json.{
  key, index, Json, num, str, arr, obj, nil, cons, Fields, end, field, find, nth, json_eq,
  set_field, set_nth,
}
use unknown_file_threat_agen.Shared.DraftEditor.{
  ok, set, DraftEdit, resolve, apply_edit, apply_edits, edit_below, edit_parent, edit_by, set_at,
  is_null, field_value, list_position,
}
use unknown_file_threat_agen.Shared.DraftEditor.Locality.{apply_edit-local}
use unknown_file_threat_agen.Shared.DraftEditor.Batches.{Runs, apply_edits-Runs}
use Prim.Native.Nat.{Ordering, compare}
use unknown_file_threat_agen.Shared.Llm.{Exception, Call, Ending, Attempts, invoke_llm}
use unknown_file_threat_agen.Shared.Llm.Graded.{IsExplained, invoke_llm_lem}
use unknown_file_threat_agen.Prelude.{
  ℕ, ◌+◌, ◌≤◌, String, ◌≡◌, refl, ◌≢◌, inl, inr, Option, some, List, [], ◌∷◌, arith,
}

abbrev title : Fields
title = field (key "title") (str "old") (field (key "level") (num (pos 1)) end)

abbrev draft : Json
draft = obj (field (key "parts") (arr (cons (obj title) nil)) (field (key "note") (str "kept") end))

abbrev changed : Json
changed = obj (
    field (key "parts")
      (arr
        (cons (obj (field (key "title") (str "new") (field (key "level") (num (pos 1)) end))) nil))
      (field (key "note") (str "kept") end))

abbrev retitle : DraftEdit
retitle = record {
  op = set;
  parents = key "parts" ∷ index (pos 0) ∷ [];
  last = key "title";
  anchor = str "old";
  value = str "new";
}

applied : apply_edit retitle draft ≡ ok changed
unfolding apply_edit edit_below field_value find list_position nth edit_parent edit_by set_at
    is_null json_eq set_field set_nth
applied = refl

apart : key "parts" ≢ key "note"
apart e = cc

note_found : resolve [] draft ≡ ok draft
unfolding resolve
note_found = refl

apply_edit-local_example : resolve (key "note" ∷ []) changed ≡ resolve (key "note" ∷ []) draft
apply_edit-local_example =
    apply_edit-local retitle [] retitle.parents [] "note"
      (field (key "parts") (arr (cons (obj title) nil)) (field (key "note") (str "kept") end)) draft
      changed refl apart note_found applied

apply_edits-Runs_example :
    Runs 0 draft
      (retitle ∷ retitle ∷ [])
      (apply_edits draft (retitle ∷ retitle ∷ [])).applied
      (apply_edits draft (retitle ∷ retitle ∷ [])).rejected
      (apply_edits draft (retitle ∷ retitle ∷ [])).draft
apply_edits-Runs_example = apply_edits-Runs draft (retitle ∷ retitle ∷ [])

abbrev malformed : Exception
malformed = record { classes = "OutputParserException" ∷ []; text = "no tool call" }

abbrev overloaded : Exception
overloaded = record { classes = "RateLimitError" ∷ []; text = "429" }

-- the first call is refused, the second is malformed, the third answers
abbrev flaky : Call ℕ String
flaky = record {
  invoke = λ n messages. elim (compare n 3) [
    | Ordering.lt ↦ inl (elim (compare n 2) [ Ordering.lt ↦ overloaded | _ ↦ malformed ])
    | _ ↦ inr 7
  ];
  build_feedback = λ n error. some error.text;
  parse_max_attempts = 3;
  transport_max_attempts = 2;
}

invoke_llm_lem_example :
    (ending : Ending ℕ) × (last : Attempts ℕ String) × (invoke_llm flaky 5 (some [])
      ≡ some (ending, last))
    × (last.parse_attempts + 1 ≤ 5)
    × ((seen : Option (List String)) × IsExplained flaky ending last seen)
invoke_llm_lem_example = invoke_llm_lem flaky (some []) (omega arith) (omega arith)
