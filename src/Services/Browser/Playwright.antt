-- ===== src/Services/Browser/Playwright.antt =====
-- `_run_with_playwright` of `BrowserExecutionService` (apps/api/kerislab/services.py). A page is what the
-- calls made on it so far have made of it.
use mathlib.Core.Path.{fun_ext}
use kerislab.Prelude.{
  List, [], Option, select, String, some, Bool, ◌∷◌, if◌then◌else◌, ◌≡◌, not, ◌==◌, none,
  Bool-cases, ◌&&◌, ◌||◌, reverse, inl, inr, length, ap, refl,
}
use kerislab.Exec.{Result, Error, ok, err}
use kerislab.Models.Scanning.{BrowserAction, BrowserPlan}
use kerislab.Models.Payload.{Payload, Items, Value}
use kerislab.Services.Scans.{text_field}
use kerislab.Dynamic.{text_items, is_given}
use kerislab.Prelude.Int.{pos}

pub data PageCall : Type 0 where
  goto locator : String → PageCall
  screenshot content title : PageCall

-- The page behind some calls, the last one first: whether the last call raised, and what it shows.
pub record Page : Type 0 where
  pub raised : List PageCall → Option Error
  pub url : List PageCall → String
  pub screenshot_b64 : List PageCall → String
  pub source : List PageCall → String
  pub heading : List PageCall → String

-- The calls made, and the `visited` and `evidence` of the loop, the last ones first.
pub record Visit : Type 0 where
  pub calls : List PageCall
  pub visited : List String
  pub evidence : List Payload

-- One call on the page, and what the visit is behind it.
abbrev after_call : Page → PageCall → Visit → (Visit → Result Visit) → Result Visit
after_call page call v next =
    let calls = call ∷ v.calls in
    elim (page.raised calls) [ none ↦ next (record v { calls = calls }) | some e ↦ err e ]

evidence_item : String → String → String → String → String → Payload
evidence_item artifact_type summary content_type body url =
    Payload.field "artifact_type" (Value.str artifact_type) (
      Payload.field "summary" (Value.str summary) (
        Payload.field "content_type" (Value.str content_type) (
          Payload.field "content" (Value.str body)
            (Payload.field "metadata" (Value.obj (text_field "url" url)) Payload.end))))

-- `action.action_type == "navigate" and action.value`
abbrev navigates : BrowserAction → Bool
navigates action = action.action_type == "navigate" && is_given action.value

abbrev text_or_empty : Option String → String
text_or_empty none = ""
text_or_empty (some text) = text

-- the two pieces of evidence
capture : Page → Visit → Result Visit
unfolding evidence_item
capture page v = after_call page screenshot v λ shot.
    after_call page content
      (record shot {
        evidence =
            evidence_item "browser_screenshot" "Playwright screenshot captured" "image/png;base64"
              (page.screenshot_b64 shot.calls) (page.url shot.calls)
            ∷ shot.evidence;
      })
      λ seen. ok (record seen {
        evidence =
            evidence_item "browser_dom_snapshot" "Playwright DOM snapshot captured" "text/html"
              (page.source seen.calls) (page.url seen.calls)
            ∷ seen.evidence;
      })

-- the body of the loop for an action that needs no approval
act_on : Page → BrowserAction → Visit → Result Visit
unfolding capture
act_on page action v =
    if navigates action
    then (after_call page (goto (text_or_empty action.value)) v
        λ there. ok (record there { visited = page.url there.calls ∷ there.visited }))
    else if action.action_type == "crawl" || action.action_type == "assert"
    then after_call page (locator action.selector) v ok
    else if action.action_type == "capture_evidence"
    then capture page v
    else ok v

abbrev and_then : Result Visit → (Visit → Result Visit) → Result Visit
and_then (ok v) next = next v
and_then (err e) next = err e

-- the loop over the actions
unfoldable pub walk : Page → List BrowserAction → Visit → Result Visit
unfolding act_on
walk page [] v = ok v
walk page (action ∷ actions) v =
    let rest = λ (u : Visit). walk page actions u in
    if action.requires_approval then rest v else and_then (act_on page action v) rest

abbrev pub blank_visit : Visit
blank_visit = record { calls = []; visited = []; evidence = [] }

evidence_items : List Payload → Items
evidence_items [] = Items.nil
evidence_items (item ∷ items) = Items.cons (Value.obj item) (evidence_items items)

titled : Page → BrowserPlan → Visit → Result Payload
unfolding evidence_items
titled page plan v =
    let calls = title ∷ v.calls in
    elim (page.raised calls) [
      | none ↦ ok (
          Payload.field "engine" (Value.str plan.engine) (
            Payload.field "visited" (Value.arr (text_items (reverse v.visited))) (
              Payload.field "title" (Value.str (page.heading calls)) (
                Payload.field "actions" (Value.num (pos (length plan.actions))) (
                  Payload.field "evidence" (Value.arr (evidence_items (reverse v.evidence)))
                    Payload.end)))))
      | some e ↦ err e
    ]

and_titled : Page → BrowserPlan → Result Visit → Result Payload
unfolding titled
and_titled page plan (ok v) = titled page plan v
and_titled page plan (err e) = err e

-- The whole run, on a page that has been opened.
unfoldable pub run_with_playwright : Page → BrowserPlan → Result Payload
unfolding and_titled
run_with_playwright page plan = and_titled page plan (walk page plan.actions blank_visit)

-- The plan's actions that need an approval are passed over: the run touches the page as it would without them.
pub walk-ungated :
    (page : Page) (actions : List BrowserAction) (v : Visit)
    → walk page actions v ≡ walk page (select (λ action. not action.requires_approval) actions) v
unfolding walk select
walk-ungated page [] v = refl
walk-ungated page (action ∷ actions) v = elim (Bool-cases action.requires_approval) [
  | inl gated ↦ rw gated (walk-ungated page actions v)
  | inr free ↦ rw free (ap (and_then (act_on page action v)) (fun_ext (walk-ungated page actions)))
]
