-- ===== src/Judgment/EvidenceGate.antt =====
-- judgment/application/evidence_gate.py: the evidence floor of a `confirmed_malicious` verdict.
pub mod Reachable
pub mod Floor
use Prim.Native.String.{◌++◌ as append}
use unknown_file_threat_agen.Contracts.{
  Activity, ActivityType, EvidenceReference, ActivityQueryResult, EntityExplorationResult,
  InvestigationState, CandidateVerdict, VerdictLevel, confirmed_malicious, suspicious, ThreatType,
  backdoor_c2, data_exfiltration, ransomware, other, unknown,
}
use unknown_file_threat_agen.Prelude.{
  ◌+◌, String, Bool, true, false, not, Option, none, some, List, [], ◌∷◌, ◌++◌, map, ◌==◌,
  if◌then◌else◌, is_nil, is_some, concat_map, mem, diff, sorted_set,
}
use unknown_file_threat_agen.Prelude.Dict
use unknown_file_threat_agen.Prelude.Dict.{Dict}

-- `REQUIRED_CAPABILITIES`
unfoldable pub required_capabilities : ThreatType → List String
required_capabilities backdoor_c2 = "execution" ∷ "network" ∷ []
required_capabilities data_exfiltration = "file_change" ∷ "network" ∷ []
required_capabilities ransomware = "file_change" ∷ []
required_capabilities other = []
required_capabilities unknown = []

-- `CAPABILITY_LABELS.get(name, name)`
unfoldable pub capability_label : String → String
capability_label name =
    if name == "execution"
    then "进程/文件执行"
    else if name == "network"
    then "网络连接"
    else if name == "file_change"
    then "文件变更"
    else if name == "service_change"
    then "服务变更"
    else name

-- `operation in names`, for an operation that may be missing
unfoldable pub is_operation : Option String → List String → Bool
is_operation none names = false
is_operation (some operation) names = mem operation names

-- `_activity_capabilities`, with a function for each type of activity
unfoldable pub capabilities_of : ActivityType → Option String → List String
unfolding is_operation mem
capabilities_of ActivityType.process operation =
    if is_operation operation ("execute" ∷ []) then "execution" ∷ [] else []
capabilities_of ActivityType.file operation =
    if is_operation operation ("execute" ∷ [])
    then "execution" ∷ []
    else if is_operation operation ("write" ∷ "rename" ∷ "delete" ∷ [])
    then "file_change" ∷ []
    else []
capabilities_of ActivityType.network operation =
    if is_operation operation ("connect" ∷ []) then "network" ∷ [] else []
capabilities_of ActivityType.service operation = "service_change" ∷ []
capabilities_of _ operation = []

unfoldable pub activity_capabilities : Activity → List String
unfolding capabilities_of
activity_capabilities activity = capabilities_of activity.activity_type activity.operation

-- `collect_capabilities`
unfoldable pub collect_capabilities : InvestigationState → List String
unfolding activity_capabilities
collect_capabilities state =
    concat_map (λ result. concat_map activity_capabilities result.activities)
      state.tool_ledger.query_results

-- `reachable[activity.activity_id] = activity`, for each activity
unfoldable pub add_activities : List Activity → Dict Activity → Dict Activity
add_activities [] reachable = reachable
add_activities (activity ∷ rest) reachable =
    add_activities rest (Dict.insert activity.activity_id activity reachable)

unfoldable pub add_query_results : List ActivityQueryResult → Dict Activity → Dict Activity
unfolding add_activities
add_query_results [] reachable = reachable
add_query_results (result ∷ rest) reachable =
    add_query_results rest (add_activities result.activities reachable)

-- `reachable.setdefault(activity.activity_id, activity)`
unfoldable pub set_default : Activity → Dict Activity → Dict Activity
set_default activity reachable =
    if is_some (Dict.lookup activity.activity_id reachable)
    then reachable
    else Dict.insert activity.activity_id activity reachable

unfoldable pub add_timeline : List Activity → Dict Activity → Dict Activity
unfolding set_default
add_timeline [] reachable = reachable
add_timeline (activity ∷ rest) reachable = add_timeline rest (set_default activity reachable)

unfoldable pub add_entity_results : List EntityExplorationResult → Dict Activity → Dict Activity
unfolding add_timeline
add_entity_results [] reachable = reachable
add_entity_results (result ∷ rest) reachable =
    add_entity_results rest (add_timeline result.timeline reachable)

unfoldable pub reachable_activities : InvestigationState → Dict Activity
unfolding add_query_results add_entity_results
reachable_activities state =
    add_entity_results state.tool_ledger.entity_results
      (add_query_results state.tool_ledger.query_results [])

-- the last evidence reference with the cited identifier gives the activity
unfoldable pub cited_id : String → List EvidenceReference → String → String
cited_id ref [] found = found
cited_id ref (item ∷ rest) found =
    cited_id ref rest (if item.evidence_id == ref then item.activity_ref else found)

-- `resolve_cited_activity`
unfoldable pub resolve_cited_activity : InvestigationState → String → Option Activity
unfolding reachable_activities cited_id
resolve_cited_activity state ref =
    let references =
      concat_map (λ (result : ActivityQueryResult). result.evidence_references)
        state.tool_ledger.query_results in
    Dict.lookup (cited_id ref references ref) (reachable_activities state)

unfoldable pub capabilities_at : Option Activity → List String
unfolding activity_capabilities
capabilities_at none = []
capabilities_at (some activity) = activity_capabilities activity

-- `cited_capabilities`
unfoldable pub cited_capabilities : InvestigationState → CandidateVerdict → List String
unfolding resolve_cited_activity capabilities_at
cited_capabilities state verdict =
    concat_map (λ ref. capabilities_at (resolve_cited_activity state ref)) verdict.supporting_refs

unfoldable pub join : List String → String
join [] = ""
join (x ∷ []) = x
join (x ∷ y ∷ rest) = append x (append "、" (join (y ∷ rest)))

unfoldable pub floor_limitation : List String → String
unfolding join capability_label
floor_limitation missing =
    append "证据门槛未满足：结论引用的证据缺少能力（"
      (append (join (map capability_label missing)) "）。降级为可疑，建议进一步确认后重新研判。")

unfoldable pub is_confirmed : VerdictLevel → Bool
is_confirmed confirmed_malicious = true
is_confirmed _ = false

-- the capabilities of the floor that no citation covers
unfoldable pub missing_capabilities : InvestigationState → CandidateVerdict → List String
missing_capabilities state verdict =
    sorted_set (diff (required_capabilities verdict.threat_type) (cited_capabilities state verdict))

-- `gate_verdict`
unfoldable pub gate_verdict : InvestigationState → CandidateVerdict → CandidateVerdict
unfolding is_confirmed floor_limitation missing_capabilities
gate_verdict state verdict =
    let missing = missing_capabilities state verdict in
    if not (is_confirmed verdict.level)
    then verdict
    else if is_nil missing
    then verdict
    else record verdict {
      level = suspicious;
      limitations = verdict.limitations ++ floor_limitation missing ∷ [];
    }
