-- ===== src/Cases/PendingExamples.antt =====
-- The approval desk with two announced plans, of which the table holds the newer one first.
use unknown_file_threat_agen.Shared.Json.{json_eq, find, is_truthy, bool, str, obj, end, field, key}
use unknown_file_threat_agen.Cases.RuntimeStore.{RuntimeStore, in_run}
use unknown_file_threat_agen.Cases.ApprovalService.Pending.{
  Event, announces, announced_plan, pending_plan, list_operational_events, by_sequence,
  insert_event, newest, plan_at, detail,
}
use unknown_file_threat_agen.Cases.ApprovalService.Pending.Newest.{
  Shows, is_announcement, IsIn, pending_plan-IsNewest,
}
use unknown_file_threat_agen.Prelude.{
  ℕ, ◌≤◌, String, ◌≡◌, refl, ◌⊎◌, true, false, none, [], ◌∷◌, All,
}

abbrev announcement : ℕ → String → Event
announcement n plan = (
  record { tenant_id = "t"; run_id = "r"; sequence = n },
  record {
    case_id = "c";
    event_type = "approval";
    stage = "approval";
    node = str "approve";
    duration_ms = none;
    token_usage = none;
    retry_count = none;
    details = field (key "kind") (str "approval") (
        field (key "pending") (bool true)
          (field (key "plan") (obj (field (key "status") (str plan) end)) end));
    correlation_id = "";
  },
)

abbrev desk : RuntimeStore
desk = record {
  runs = [];
  events = announcement 5 "new" ∷ announcement 2 "old" ∷ [];
  audits = [];
  artifacts = [];
}

shown : pending_plan "t" "r" desk ≡ obj (field (key "status") (str "new") end)
unfolding pending_plan list_operational_events by_sequence insert_event newest announces plan_at
    announced_plan detail in_run json_eq find is_truthy
shown = refl

pending_plan-IsNewest_example :
    ((pending_plan "t" "r" desk ≡ obj end)
      × All (λ (y : Event). in_run "t" "r" y.0 ≡ true → is_announcement y.1 ≡ false) desk.events)
    ⊎ ((e : Event) × Shows (pending_plan "t" "r" desk) e.1
        × IsIn e desk.events
        × (in_run "t" "r" e.0 ≡ true)
        × (is_announcement e.1 ≡ true)
        × All
            (λ (y : Event).
              in_run "t" "r" y.0 ≡ true → is_announcement y.1 ≡ true → y.0.sequence ≤ e.0.sequence)
            desk.events)
pending_plan-IsNewest_example = pending_plan-IsNewest "t" "r" desk
