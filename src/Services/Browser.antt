-- ===== src/Services/Browser.antt =====
-- `BrowserExecutionService` of apps/api/kerislab/services.py: the execution of a browser plan and the
-- evidence that it leaves. The runner is a function of the plan; the one of the service, which
-- drives a page, is in Browser/Playwright.
pub mod Playwright
pub mod Outcomes
use kerislab.Models.Scanning.{Scan, BrowserPlan, BrowserExecution, EvidenceArtifact}
use kerislab.Models.Payload.{Value, Payload, Items}
use kerislab.Services.Evidence.{StorageSettings, StorageBackend, store_content}
use kerislab.Prelude.{String, List, ℕ, concat, ◌∷◌, [], none, some, ◌+◌, map}
use kerislab.Exec.{
  World, Error, Result, Exec, raise, ok, next_id, ◌>>=◌, ◌>>◌, get, now_utc, pure, put, value_error,
  err, message, new_entity, add, sync,
}
use kerislab.Services.Scans.{text_field, emit}
use kerislab.Models.Status.{BrowserExecutionStatus}
use kerislab.Dynamic.{
  payload_get_or, payload_set, text_of, text_items, payload_remove, payload_update,
}
use kerislab.Prelude.Int.{pos}
use kerislab.Store.Collections.{scans, browser_executions, evidence_artifacts}
use kerislab.Services.Autonomous.{browser_plan}

-- `BrowserExecution(...)` in the given world
abbrev pub execution_at : Scan → BrowserPlan → World → BrowserExecution
execution_at scan plan w = record {
  scan_id = scan.id;
  browser_plan_id = plan.id;
  engine = plan.engine;
  status = BrowserExecutionStatus.running;
  result = Payload.end;
  error = "";
  id = next_id "bex" w.env w.drawn;
  started_at = w.env.clock w.ticks;
  completed_at = none;
}

-- `{"plan_id": plan.id, "execution_id": execution.id}`
abbrev pub execution_payload : BrowserPlan → BrowserExecution → Payload
execution_payload plan execution =
    Payload.field "plan_id" (Value.str plan.id) (text_field "execution_id" execution.id)

-- `metadata if isinstance(metadata, dict) else {}`
abbrev dict_or_empty : Value → Payload
dict_or_empty (Value.obj payload) = payload
dict_or_empty _ = Payload.end

-- What an item of the evidence says, as texts.
pub record EvidenceItem : Type 0 where
  pub artifact_type : String
  pub content_type : String
  pub content : String
  pub summary : String
  pub metadata : Payload

-- `EvidenceArtifact(...)` for the item of the given number
abbrev artifact_at : String → String → String → EvidenceItem → String → World → EvidenceArtifact
artifact_at scan_id execution_id number item object_uri w = record {
  scan_id = scan_id;
  artifact_type = item.artifact_type;
  uri = concat ("evidence://" ∷ scan_id ∷ "/" ∷ execution_id ∷ "/" ∷ number ∷ []);
  summary = item.summary;
  content_type = item.content_type;
  content = "";
  browser_execution_id = some execution_id;
  finding_id = none;
  metadata = payload_set "object_uri" (Value.str object_uri) item.metadata;
  id = next_id "evd" w.env w.drawn;
  created_at = w.env.clock w.ticks;
}

abbrev pub evidence_key : String → String → String → String → String
evidence_key scan_id execution_id number artifact_type =
    concat (scan_id ∷ "/" ∷ execution_id ∷ "/" ∷ number ∷ "-" ∷ artifact_type ∷ [])

module _ (settings : StorageSettings) (backend : StorageBackend) where
  -- the body of the loop over the items, for a dictionary; the content and the summary are read
  -- around the call of the storage, in the source's order
  unfoldable pub persist_object : String → String → ℕ → Payload → Exec EvidenceArtifact
  persist_object scan_id execution_id count item = do
    artifact_type ← text_of (payload_get_or "artifact_type" (Value.str "browser_evidence") item)
    content_type ←
        text_of (payload_get_or "content_type" (Value.str "application/octet-stream") item)
    number ← text_of (Value.num (pos (count + 1)))
    let key : String = evidence_key scan_id execution_id number artifact_type
    content ← text_of (payload_get_or "content" (Value.str "") item)
    object_uri ← store_content settings backend key content content_type
    summary ← text_of (payload_get_or "summary" (Value.str "Browser evidence captured") item)
    let read : EvidenceItem = record {
      artifact_type = artifact_type;
      content_type = content_type;
      content = content;
      summary = summary;
      metadata = dict_or_empty (payload_get_or "metadata" (Value.obj Payload.end) item);
    }
    made ← new_entity (artifact_at scan_id execution_id number read object_uri)
    artifact ← add evidence_artifacts made
    pure artifact

  unfoldable pub persist_item : String → String → ℕ → Value → Exec EvidenceArtifact
  unfolding persist_object
  persist_item scan_id execution_id count (Value.obj item) =
      persist_object scan_id execution_id count item
  persist_item scan_id execution_id count _ =
      raise (value_error "browser execution evidence item must be an object")

  -- the loop, with the number of artifacts so far
  unfoldable pub persist_items : String → String → ℕ → Items → Exec (List EvidenceArtifact)
  unfolding persist_item
  persist_items scan_id execution_id count Items.nil = pure []
  persist_items scan_id execution_id count (Items.cons item items) = do
    artifact ← persist_item scan_id execution_id count item
    artifacts ← persist_items scan_id execution_id (count + 1) items
    pure (artifact ∷ artifacts)

  unfoldable pub persist_list : String → String → Value → Exec (List EvidenceArtifact)
  unfolding persist_items
  persist_list scan_id execution_id (Value.arr items) = persist_items scan_id execution_id 0 items
  persist_list scan_id execution_id _ =
      raise (value_error "browser execution evidence must be a list")

  -- `_persist_evidence`; what it pops from the result is removed by the caller
  unfoldable pub persist_evidence : String → String → Payload → Exec (List EvidenceArtifact)
  unfolding persist_list
  persist_evidence scan_id execution_id result =
      persist_list scan_id execution_id (payload_get_or "evidence" (Value.arr Items.nil) result)

  -- `if artifacts: result["evidence_refs"] = [...]`
  abbrev with_refs : List EvidenceArtifact → Payload → Payload
  with_refs [] result = result
  with_refs (a ∷ artifacts) result =
      payload_set "evidence_refs"
        (Value.arr (text_items (map (λ artifact. artifact.uri) (a ∷ artifacts)))) result

  -- the `except` branch
  unfoldable pub fail_execution : Scan → BrowserPlan → BrowserExecution → Error → Exec Payload
  fail_execution scan plan execution e = do
    now ← now_utc
    put browser_executions execution.id (record execution {
      status = BrowserExecutionStatus.failed;
      error = message e;
      completed_at = some now;
    })
    emit scan.id "browser.execution.failed" (message e) (execution_payload plan execution)
    sync
    raise e

  -- behind a runner that returned
  unfoldable pub close_execution : Scan → BrowserExecution → Payload → Exec Payload
  close_execution scan execution result = do
    let completed : BrowserExecution = record execution {
      status = BrowserExecutionStatus.completed;
    }
    put browser_executions execution.id completed
    artifacts ← persist_evidence scan.id execution.id result
    let kept : Payload = with_refs artifacts (payload_remove "evidence" result)
    now ← now_utc
    put browser_executions execution.id
        (record completed { result = kept; completed_at = some now })
    let payload : Payload = payload_update (text_field "execution_id" execution.id) kept
    emit scan.id "browser.execution.completed" "Browser execution completed" payload
    sync
    pure payload

  unfoldable pub finish_execution :
      Scan → BrowserPlan → BrowserExecution → Result Payload → Exec Payload
  finish_execution scan plan execution (ok result) = close_execution scan execution result
  finish_execution scan plan execution (err e) = fail_execution scan plan execution e

  -- `execute`
  unfoldable pub execute_plan : (BrowserPlan → Result Payload) → String → Exec Payload
  unfolding finish_execution
  execute_plan runner scan_id = do
    scan ← get scans scan_id "scan"
    plan ← browser_plan scan_id
    execution ← new_entity (execution_at scan plan)
    put browser_executions execution.id execution
    emit scan.id "browser.execution.started" "Browser execution started"
        (execution_payload plan execution)
    finish_execution scan plan execution (runner plan)
