-- ===== src/Cases/Redaction.antt =====
-- case_management/application/run_service.py, `redact_details`: credential-shaped fields are dropped
-- before anything is stored. The objects here have text keys, as those read from JSON have.
pub mod Clean
use Prim.Native.Char.{code}
use unknown_file_threat_agen.Shared.Json.{
  Step, key, index, Json, null, bool, num, str, arr, obj, Items, nil, cons, Fields, end, field,
}
use unknown_file_threat_agen.Prelude.{
  ℕ, ◌+◌, String, Bool, true, false, ◌&&◌, ◌||◌, List, [], ◌∷◌, map, leb, eqb, if◌then◌else◌,
  filter_by, any,
}

codes : String → List ℕ
codes String.[] = []
codes (String.◌∷◌ c s) = code c ∷ codes s

-- `str.lower` where it yields an ASCII letter: also from the Kelvin sign and from the dotted capital I
lower_code : ℕ → ℕ
lower_code c =
    if leb b'A' c && leb c b'Z'
    then c + 32
    else if eqb c 8490
    then b'k'
    else if eqb c 304
    then b'i'
    else c

-- `[a-z0-9]`
is_kept : ℕ → Bool
is_kept c = (leb b'a' c && leb c b'z') || (leb b'0' c && leb c b'9')

-- `re.sub(r"[^a-z0-9]", "", key.lower())`
normal : String → List ℕ
unfolding codes lower_code is_kept
normal s = filter_by is_kept (map lower_code (codes s))

same_codes : List ℕ → List ℕ → Bool
same_codes [] [] = true
same_codes (c ∷ cs) (d ∷ ds) = eqb c d && same_codes cs ds
same_codes _ _ = false

-- `_FORBIDDEN_DETAIL_KEYS`
abbrev forbidden_detail_keys : List String
forbidden_detail_keys = "apikey" ∷ "authorization" ∷ "password" ∷ "secret" ∷ "prompt" ∷ []

unfoldable pub is_forbidden : Step → Bool
unfolding normal same_codes
is_forbidden (key s) = any (λ f. same_codes (normal s) (codes f)) forbidden_detail_keys
is_forbidden (index i) = false

-- `redact_details`
unfoldable mutual
  pub redact_details : Json → Json
  redact_details (obj fs) = obj (redact_fields fs)
  redact_details (arr xs) = arr (redact_items xs)
  redact_details null = null
  redact_details (bool b) = bool b
  redact_details (num n) = num n
  redact_details (str s) = str s

  pub redact_items : Items → Items
  redact_items nil = nil
  redact_items (cons x xs) = cons (redact_details x) (redact_items xs)

  pub redact_fields : Fields → Fields
  redact_fields end = end
  redact_fields (field k v fs) =
      if is_forbidden k then redact_fields fs else field k (redact_details v) (redact_fields fs)
