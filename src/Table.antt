-- ===== src/Table.antt =====
-- The table of jobs: its selection, its bulk actions and its pager (web/src/components/JobTable.jsx).
pub mod Selection
pub mod Bulk
pub mod Pager
use job_flow_web_application.Prelude.{
  ℕ, ◌+◌, ◌-◌, List, [], ◌∷◌, ◌++◌, map, Bool, true, false, ◌&&◌, ◌||◌, not, Option, none, some,
  leb, all, filter, length, if◌then◌else◌,
}
use job_flow_web_application.Prelude.Text.{Text, txt, ◌==◌}
use job_flow_web_application.Json.{Json}
use job_flow_web_application.Model.{Job, Platform}
use job_flow_web_application.Shell.{Confirm}
use job_flow_web_application.Format.{job_display_name}
use job_flow_web_application.JobFlow.Create.{display_text}
use job_flow_web_application.Client.{Settled, fulfilled, rejected}
use job_flow_web_application.Filters.{Filters, View, update_filters}

-- `ids.includes(id)`
unfoldable pub contains : List Text → Text → Bool
contains [] id = false
contains (x ∷ ids) id = x == id || contains ids id

unfoldable pub page_ids : List Job → List Text
page_ids jobs = map (λ job. job.id) jobs

abbrev pub is_nil : List Text → Bool
is_nil [] = true
is_nil (_ ∷ _) = false

-- `allPageSelected`
unfoldable pub all_page_selected : List Text → List Text → Bool
all_page_selected page selected = not (is_nil page) && all (contains selected) page

unfoldable pub toggle_job : Text → List Text → List Text
toggle_job id current =
    if contains current id then filter (λ item. not (item == id)) current else current ++ id ∷ []

-- `[...new Set(ids)]`: the first occurrence of each, after those of `seen`
unfoldable pub unique_from : List Text → List Text → List Text
unfolding contains
unique_from seen [] = seen
unique_from seen (id ∷ ids) = unique_from (if contains seen id then seen else seen ++ id ∷ []) ids

-- `togglePage`, with the selection of the render as the current one
unfoldable pub toggle_page : List Text → List Text → List Text
unfolding all_page_selected unique_from
toggle_page page current =
    if all_page_selected page current
    then filter (λ id. not (contains page id)) current
    else unique_from [] (current ++ page)

unfoldable pub selected_jobs : List Job → List Text → List Job
selected_jobs all_jobs selected = filter (λ job. contains selected job.id) all_jobs

-- What a loop over the selected jobs has done when it ends or throws.
pub record BulkRun : Type 0 where
  pub asked : List Job
  pub failure : Option Text

-- `for (const job of jobs) await action(job)`
unfoldable pub run_bulk : (Job → Settled Json) → List Job → BulkRun
run_bulk action [] = record { asked = []; failure = none }
run_bulk action (job ∷ jobs) =
    let rest = run_bulk action jobs in
    elim (action job) [
      | fulfilled _ ↦ record { asked = job ∷ rest.asked; failure = rest.failure }
      | rejected message ↦ record { asked = job ∷ []; failure = some message }
    ]

-- `bulkRetry`, and the confirmed action of `bulkCancel`: the selection is cleared at the end.
unfoldable pub bulk_action : (Job → Settled Json) → List Job → List Text → BulkRun × List Text
unfolding run_bulk selected_jobs
bulk_action action all_jobs selected =
    let run = run_bulk action (selected_jobs all_jobs selected) in
    (run, elim run.failure [ none ↦ [] | some _ ↦ selected ])

-- The confirmed action of `confirmCancel`.
unfoldable pub cancel_one : (Job → Settled Json) → Job → List Text → Settled (List Text)
cancel_one action job selected = elim (action job) [
  | rejected message ↦ rejected message
  | fulfilled _ ↦ fulfilled (filter (λ id. not (id == job.id)) selected)
]

-- What `bulkCancel` asks the user to confirm, if any job is selected; the action is given.
unfoldable pub bulk_cancel_confirm {ℓ} : {A : Type ℓ} → Platform → A → List Job → Option (Confirm A)
bulk_cancel_confirm platform action [] = none
bulk_cancel_confirm platform action (job ∷ jobs) = some (record {
  title = txt "Cancel selected jobs?";
  message =
      platform.number_text (length (job ∷ jobs))
      ++ (txt " selected job"
          ++ ((if is_empty_jobs jobs then txt "" else txt "s")
              ++ txt " will be cancelled and removed from active processing."));
  confirm_label = txt "Cancel jobs";
  variant = txt "danger";
  on_confirm = some action;
})
  where
    is_empty_jobs : List Job → Bool
    is_empty_jobs [] = true
    is_empty_jobs (_ ∷ _) = false

-- What `confirmCancel` asks the user to confirm.
unfoldable pub cancel_confirm {ℓ} : {A : Type ℓ} → Platform → A → Job → Confirm A
cancel_confirm platform action job = record {
  title = txt "Cancel this job?";
  message =
      display_text platform (job_display_name (some job))
      ++ txt " will be stopped and marked as cancelled.";
  confirm_label = txt "Cancel job";
  variant = txt "danger";
  on_confirm = some action;
}

-- What the export button downloads.
unfoldable pub export_scope : List Job → List Text → List Job
unfolding selected_jobs
export_scope all_jobs selected = elim (selected_jobs all_jobs selected) [
  | [] ↦ all_jobs
  | job ∷ jobs ↦ job ∷ jobs
]

-- The controls of the toolbar and of the pager.
pub data Control : Type 0 where
  query status queue sort : Text → Control
  page_size : ℕ → Control
  previous following : Control

-- The filters that a control asks for; a disabled button asks for none.
unfoldable pub operate : View → Control → Option Filters
operate view (query text) = some (update_filters (record (view.filters) { query = text }))
operate view (status choice) = some (update_filters (record (view.filters) { status = choice }))
operate view (queue choice) = some (update_filters (record (view.filters) { queue = choice }))
operate view (sort choice) = some (update_filters (record (view.filters) { sort = choice }))
operate view (page_size size) =
    some (update_filters (record (view.filters) { page_size = size; page = 1 }))
operate view previous =
    if leb view.filters.page 1
    then none
    else some (update_filters (record (view.filters) { page = view.filters.page - 1 }))
operate view following =
    if leb view.page_count view.filters.page
    then none
    else some (update_filters (record (view.filters) { page = view.filters.page + 1 }))
