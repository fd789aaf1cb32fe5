-- ===== src/Services/Bystanders/Browser.antt =====
-- The books behind the execution of a browser plan and the evidence that it leaves
-- (`BrowserExecutionService` of apps/api/kerislab/services.py).
use kerislab.Services.Bystanders.{Keeping, get-Kept, then-Kept}
use kerislab.Prelude.{Option, String, ℕ, some, Option-cases, Bool-cases, none, inl, ◌+◌, inr, not}
use kerislab.Services.Autonomous.{browser_plan, or_create_plan}
use kerislab.Services.Evidence.{
  StorageSettings, StorageBackend, store_content, raise_some, store_s3, store_local, uses_s3,
}
use kerislab.Exec.{Error, Result, raise_if, ok, err, get, World}
use kerislab.Services.Browser.{
  execute_plan, finish_execution, persist_object, persist_list, persist_items, persist_item,
  close_execution, fail_execution, persist_evidence, evidence_key,
}
use kerislab.Services.Scans.{emit}
use kerislab.Models.Scanning.{BrowserPlan, Scan, BrowserExecution}
use kerislab.Models.Payload.{Payload, Value, Items}
use kerislab.Store.Collections.{scans}
use kerislab.Services.Bystanders.Engine.{text_of-Kept}
use kerislab.Dict.{lookup, insert}
use kerislab.Services.Autonomous.Keeps.{create_browser_plan-Books}
use kerislab.Dynamic.{text_of, payload_get_or}
use kerislab.Prelude.Int.{pos}
use kerislab.Models.Status.{BrowserExecutionStatus}

pub browser_plan-Kept : (scan_id : String) → Keeping (browser_plan scan_id)
unfolding browser_plan or_create_plan
browser_plan-Kept scan_id w b = elim (Option-cases (lookup scan_id w.store.browser_plans)) [
  | inl e ↦ rw e (create_browser_plan-Books scan_id w b)
  | inr (plan, e) ↦ rw e b
]

raise_some-Keeping : (o : Option Error) → Keeping (raise_some o)
raise_some-Keeping none w b = b
raise_some-Keeping (some e) w b = b

module _ (settings : StorageSettings) (backend : StorageBackend) where
  store_s3-Keeping :
      (key content content_type : String)
      → Keeping (store_s3 settings backend key content content_type)
  unfolding store_s3
  store_s3-Keeping key content content_type w b =
      then-Kept (raise_if (not backend.boto3_installed) _ w) _ b λ _ v h.
        then-Kept (raise_some (backend.put_object settings.bucket key content content_type) v) _
          (raise_some-Keeping _ v h) (λ _ u k. k)

  store_local-Keeping : (key content : String) → Keeping (store_local settings backend key content)
  unfolding store_local
  store_local-Keeping key content w b =
      then-Kept (raise_some (backend.write_text _ content) w) _ (raise_some-Keeping _ w b)
        (λ _ v h. h)

  store_content-Keeping :
      (key content content_type : String)
      → Keeping (store_content settings backend key content content_type)
  unfolding store_content
  store_content-Keeping key content content_type w b =
      elim (Bool-cases (uses_s3 settings backend)) [
        | inl s3 ↦ rw s3 (store_s3-Keeping key content content_type w b)
        | inr local ↦ rw local (store_local-Keeping key content w b)
      ]

  persist_object-Keeping :
      (scan_id execution_id : String) (count : ℕ) (item : Payload)
      → Keeping (persist_object settings backend scan_id execution_id count item)
  unfolding persist_object
  persist_object-Keeping scan_id execution_id count item w b =
      let artifact : Value = payload_get_or "artifact_type" (Value.str "browser_evidence") item in
      let content_type : Value =
        payload_get_or "content_type" (Value.str "application/octet-stream") item in
      let content : Value = payload_get_or "content" (Value.str "") item in
      let summary : Value = payload_get_or "summary" (Value.str "Browser evidence captured") item in
      then-Kept (text_of artifact w) _ (text_of-Kept artifact w b) λ kind v h.
        then-Kept (text_of content_type v) _ (text_of-Kept content_type v h) λ media u k.
          then-Kept (text_of (Value.num (pos (count + 1))) u) _
            (text_of-Kept (Value.num (pos (count + 1))) u k)
            λ number t l. then-Kept (text_of content t) _ (text_of-Kept content t l) λ body q m.
              then-Kept
                (store_content settings backend (evidence_key scan_id execution_id number kind) body
                  media q)
                _
                (store_content-Keeping (evidence_key scan_id execution_id number kind) body media q
                  m)
                λ object_uri o n.
                  then-Kept (text_of summary o) _ (text_of-Kept summary o n) (λ _ x y. y)

  persist_item-Keeping :
      (scan_id execution_id : String) (count : ℕ) (item : Value)
      → Keeping (persist_item settings backend scan_id execution_id count item)
  unfolding persist_item
  persist_item-Keeping scan_id execution_id count (Value.obj item) =
      persist_object-Keeping scan_id execution_id count item
  persist_item-Keeping scan_id execution_id count _ = λ w b. b

  persist_items-Keeping :
      (scan_id execution_id : String) (count : ℕ) (items : Items)
      → Keeping (persist_items settings backend scan_id execution_id count items)
  unfolding persist_items
  persist_items-Keeping scan_id execution_id count Items.nil w b = b
  persist_items-Keeping scan_id execution_id count (Items.cons item items) w b =
      then-Kept (persist_item settings backend scan_id execution_id count item w) _
        (persist_item-Keeping scan_id execution_id count item w b)
        λ artifact v h.
          then-Kept (persist_items settings backend scan_id execution_id (count + 1) items v) _
            (persist_items-Keeping scan_id execution_id (count + 1) items v h) (λ _ u k. k)

  persist_list-Keeping :
      (scan_id execution_id : String) (evidence : Value)
      → Keeping (persist_list settings backend scan_id execution_id evidence)
  unfolding persist_list
  persist_list-Keeping scan_id execution_id (Value.arr items) =
      persist_items-Keeping scan_id execution_id 0 items
  persist_list-Keeping scan_id execution_id _ = λ w b. b

  finish_execution-Keeping :
      (scan : Scan) (plan : BrowserPlan) (execution : BrowserExecution) (r : Result Payload)
      → Keeping (finish_execution settings backend scan plan execution r)
  unfolding finish_execution close_execution fail_execution persist_evidence emit
  finish_execution-Keeping scan plan execution (ok result) w b =
      let evidence : Value = payload_get_or "evidence" (Value.arr Items.nil) result in
      let marked : World = record w {
        store = record w.store {
          browser_executions =
              insert execution.id (record execution { status = BrowserExecutionStatus.completed })
                w.store.browser_executions;
        };
      } in
      then-Kept (persist_list settings backend scan.id execution.id evidence marked) _
        (persist_list-Keeping scan.id execution.id evidence marked b) (λ artifacts v h. h)
  finish_execution-Keeping scan plan execution (err e) w b = b

  pub execute_plan-Kept :
      (runner : BrowserPlan → Result Payload) (scan_id : String)
      → Keeping (execute_plan settings backend runner scan_id)
  unfolding execute_plan emit
  execute_plan-Kept runner scan_id w b =
      then-Kept (get scans scan_id _ w) _ (get-Kept scans scan_id _ w b) λ scan v h.
        then-Kept (browser_plan scan_id v) _ (browser_plan-Kept scan_id v h)
          (λ plan u k. finish_execution-Keeping scan plan _ (runner plan) _ k)
