-- ===== src/Cases/RunService.antt =====
-- case_management/application/run_service.py: the lifecycle of a run, and the decision of
-- approval_service.py. The execution port is code of the composition root around a language model: what
-- it does in one call is a value of `Execution`. A thread of a run is a separate call of
-- `execute_locked`, which the execution lock keeps from running beside another. A request has passed its
-- schema, whose bounds are those of a run.
pub mod Numbered
pub mod Approval
use Prim.Native.String.{◌++◌ as append}
use unknown_file_threat_agen.Cases.Events.{RunServiceConfig, audit, emit, with_run}
use unknown_file_threat_agen.Cases.RuntimeStore.{
  RunStatus, queued, running, awaiting_approval, completed, failed, InvestigationRun, RunRow, Entry,
  EventBody, AuditBody, RuntimeStore, Error, key_error, value_error, type_error, integrity_error,
  validation_error, execution_error, Outcome, fine, raise, ◌>>◌, create_run, update_run, list_runs,
  put_artifact,
}
use unknown_file_threat_agen.Shared.Json.{key, Json, str, arr, obj, nil, cons, Fields, end, field}
use unknown_file_threat_agen.Prelude.{
  ℕ, String, ◌⊎◌, inl, inr, Bool, true, false, Option, none, some, List, [], ◌∷◌, ◌==◌,
  if◌then◌else◌,
}

-- contracts/workbench.py
pub data RunSource : Type 0 where
  reference_dataset alert_json : RunSource

pub record RunExecutionRequest : Type 0 where
  pub case_id : String
  pub run_id : String
  pub source : RunSource
  pub dataset_id : String
  pub profile_id : String
  pub alert : Json

pub record RunExecutionOutcome : Type 0 where
  pub report_id : Option String
  pub result_summary : String
  pub artifacts : List (String × Json)
  pub pending_approval : Bool

pub record Emission : Type 0 where
  pub kind : String
  pub message : String
  pub details : Fields

-- what a call of the port emits, and then the class of the exception that it raises or its outcome
pub record Execution : Type 0 where
  pub emissions : List Emission
  pub result : String ⊎ RunExecutionOutcome

-- `type(error).__name__`
unfoldable pub error_name : Error → String
error_name key_error = "KeyError"
error_name value_error = "ValueError"
error_name type_error = "TypeError"
error_name integrity_error = "IntegrityError"
error_name validation_error = "ValidationError"
error_name (execution_error name) = name

-- `_error_label`
unfoldable pub error_label : String → String
error_label name =
    if name == "InterfaceError"
    then "数据存储访问冲突"
    else if name == "DataAccessError"
    then "数据引用无效"
    else if name == "OutputParserException"
    then "模型输出格式异常"
    else if name == "APITimeoutError"
    then "模型服务超时"
    else if name == "APIConnectionError"
    then "模型服务连接失败"
    else if name == "AnthropicInvalidRequestError"
    then "模型服务拒绝请求"
    else if name == "BudgetExhausted"
    then "调查预算耗尽"
    else name

-- `str(error)`, `repr(error)` and the traceback of an exception
pub record Description : Type 0 where
  pub message : String
  pub representation : String
  pub traceback : String

-- `status in ("queued", "running")`
abbrev pub is_interrupted : RunStatus → Bool
is_interrupted queued = true
is_interrupted running = true
is_interrupted _ = false

abbrev pub is_awaiting : RunStatus → Bool
is_awaiting awaiting_approval = true
is_awaiting _ = false

abbrev pub no_refs : Json
no_refs = arr nil

abbrev pub no_scope : Json
no_scope = obj end

module _ (accepts_event : Entry → EventBody → Bool) (accepts_audit : Entry → AuditBody → Bool)
    (describe : Error → Description) (config : RunServiceConfig) where
  -- the intake payload of an alert is stored at once
  unfoldable pub keep_alert : RunExecutionRequest → RuntimeStore → Outcome
  keep_alert request store = elim request.source [
    | reference_dataset ↦ fine store
    | alert_json ↦
        put_artifact
          (record {
            tenant_id = config.tenant_id;
            run_id = request.run_id;
            artifact_type = "alert_payload";
            payload = request.alert;
          })
          store
  ]

  -- `_launch`, up to the start of the thread
  unfoldable pub launch : ℕ → RunExecutionRequest → RuntimeStore → Outcome
  launch now request store =
      let run : InvestigationRun = record {
        tenant_id = config.tenant_id;
        case_id = request.case_id;
        run_id = request.run_id;
        status = queued;
        stage = "queued";
        graph_thread_id = some (
            append config.tenant_id
              (append "/" (append request.case_id (append "/" request.run_id))));
        started_at = some now;
        completed_at = none;
        report_id = none;
        error_type = none;
      } in
      create_run run request.dataset_id request.profile_id store
      >> keep_alert request
      >> audit accepts_event accepts_audit config request.run_id request.case_id "run_created"
          "investigation_run" (str request.run_id) no_refs "已创建调查运行" no_scope

  -- `_fail`
  unfoldable pub fail : ℕ → String → Error → RuntimeStore → Outcome
  fail now run_id error store = with_run config run_id store (λ run.
      let told = describe error in
      update_run
        (record run {
          status = failed;
          completed_at = some now;
          error_type = some (error_name error);
        })
        store
      >> audit accepts_event accepts_audit config run_id run.case_id "run_failed"
          "investigation_run" (str run_id) no_refs (append "运行失败：" (error_label (error_name error)))
          no_scope
      >> emit accepts_event accepts_audit config run_id "error" "运行失败；请检查模型服务、结构化输出或调查预算" (
          field (key "error_type") (str (error_name error)) (
            field (key "error_message") (str told.message) (
              field (key "exception_repr") (str told.representation)
                (field (key "exception_traceback") (str told.traceback) end)))))

  -- the calls of the sink
  unfoldable pub emit_all : String → List Emission → RuntimeStore → Outcome
  emit_all run_id [] store = fine store
  emit_all run_id (e ∷ es) store =
      emit accepts_event accepts_audit config run_id e.kind e.message e.details store
      >> emit_all run_id es

  unfoldable pub put_artifacts : String → List (String × Json) → RuntimeStore → Outcome
  put_artifacts run_id [] store = fine store
  put_artifacts run_id (a ∷ rest) store =
      put_artifact
        (record {
          tenant_id = config.tenant_id;
          run_id = run_id;
          artifact_type = a.0;
          payload = a.1;
        })
        store
      >> put_artifacts run_id rest

  unfoldable pub await_approval : String → RuntimeStore → Outcome
  await_approval run_id store = with_run config run_id store (λ run.
      update_run (record run { status = awaiting_approval; stage = "approval" }) store
      >> audit accepts_event accepts_audit config run_id run.case_id "approval_requested"
          "response_plan" (str run_id) no_refs "处置方案已生成，等待人工审批" no_scope)

  unfoldable pub complete_run : ℕ → String → RunExecutionOutcome → RuntimeStore → Outcome
  complete_run now run_id outcome store = with_run config run_id store (λ run.
      update_run
        (record run {
          status = completed;
          stage = "published";
          completed_at = some now;
          report_id = outcome.report_id;
        })
        store
      >> audit accepts_event accepts_audit config run_id run.case_id "run_completed"
          "investigation_run" (str run_id)
          (elim outcome.report_id [
            | none ↦ no_refs
            | some r ↦ if r == "" then no_refs else arr (cons (str r) nil)
          ])
          (if outcome.result_summary == "" then "调查报告与处置建议已发布" else outcome.result_summary) no_scope
      >> emit accepts_event accepts_audit config run_id "complete" "AI 研判与处置建议已完成" end)

  -- the part of `_execute_locked` after the port has returned
  unfoldable pub conclude : ℕ → String → RunExecutionOutcome → RuntimeStore → Outcome
  conclude now run_id outcome store = put_artifacts run_id outcome.artifacts store >> (λ s.
      if outcome.pending_approval
      then await_approval run_id s
      else complete_run now run_id outcome s)

  -- the port: its emissions, then its result; an exception of the sink is one of the port
  unfoldable pub run_port : ℕ → String → Execution → RuntimeStore → Outcome
  run_port now run_id execution store =
      let emitted = emit_all run_id execution.emissions store in
      elim emitted.error [
        | some e ↦ fail now run_id e emitted.store
        | none ↦ elim execution.result [
          | inl name ↦ fail now run_id (execution_error name) emitted.store
          | inr outcome ↦ conclude now run_id outcome emitted.store
        ]
      ]

  -- `_execute_locked`
  unfoldable pub execute_locked : ℕ → String → Execution → RuntimeStore → Outcome
  execute_locked now run_id execution store = with_run config run_id store (λ run.
      update_run (record run { status = running; stage = "initializing" }) store
      >> emit accepts_event accepts_audit config run_id "run" "正在初始化 AI 调查运行" end
      >> run_port now run_id execution)

  unfoldable pub recover_row : ℕ → RunRow → RuntimeStore → Outcome
  recover_row now row store =
      if is_interrupted row.run.status
      then update_run
          (record row.run {
            status = failed;
            error_type = some "InterruptedRun";
            completed_at = some now;
          })
          store
        >> audit accepts_event accepts_audit config row.run.run_id row.run.case_id "run_interrupted"
            "investigation_run" (str row.run.run_id) no_refs "进程重启导致运行中断，已标记失败，可重放" no_scope
      else fine store

  unfoldable pub recover_rows : ℕ → List RunRow → RuntimeStore → Outcome
  recover_rows now [] store = fine store
  recover_rows now (row ∷ rows) store = recover_row now row store >> recover_rows now rows

  -- `recover_orphans`
  unfoldable pub recover_orphans : ℕ → RuntimeStore → Outcome
  recover_orphans now store = recover_rows now (list_runs config.tenant_id store) store

  -- `complete_after_approval`
  unfoldable pub complete_after_approval :
      ℕ → String → String → Bool → Option String → RuntimeStore → Outcome
  complete_after_approval now run_id decided_by approved comment store =
      with_run config run_id store (λ run.
        if is_awaiting run.status
        then update_run
            (record run { status = completed; stage = "advised"; completed_at = some now }) store
          >> audit accepts_event accepts_audit config run_id run.case_id "approval_decided"
              "response_plan" (str run_id) (arr (cons (str decided_by) nil))
              (append "审批" (
                append (if approved then "通过" else "驳回") (
                  append "（" (
                    append decided_by (
                      append "）" (elim comment [
                        | none ↦ ""
                        | some c ↦ if c == "" then "" else append "；意见：" c
                      ]))))))
              no_scope
        else raise value_error store)
