-- ===== src/Views/Rows.antt =====
-- The table of the jobs with its toolbar and its pager (web/src/components/JobTable.jsx).
pub mod Listing
pub mod Offers
pub mod Crash
use job_flow_web_application.Prelude.{
  ℕ, ◌+◌, ◌-◌, List, [], ◌∷◌, ◌++◌, Bool, true, false, Option, none, some, leb, if◌then◌else◌,
}
use job_flow_web_application.Prelude.Text.{Text, txt, ◌==◌}
use job_flow_web_application.Model.{Job}
use job_flow_web_application.Format.{job_display_name, queue_display_name}
use job_flow_web_application.Templates.{status_options}
use job_flow_web_application.Filters.{Filters}
use job_flow_web_application.Table.{
  page_ids, all_page_selected, contains, selected_jobs, export_scope, Control, query, status, queue,
  sort, page_size, previous, following,
}
use job_flow_web_application.Markup.{
  section, div, h3, p, span, button, input, select, option, click, key, value, class_name, named,
  checked, disabled, on, stops, on_toggle, on_change, Markup, el, each, when, text, class, words,
  glyph, child, children,
}
use job_flow_web_application.Views.{Locale}
use job_flow_web_application.Views.Fleet.{is_none_of}
use job_flow_web_application.Views.Details.{status_badge}

-- What the handlers of the table do: those of its props, and those of its own.
pub data TableAction : Type 0 where
  choose retry ask_cancel : Job → TableAction
  export : List Job → TableAction
  toggle : Text → TableAction
  toggle_all bulk_retry bulk_cancel : TableAction
  control : Control → TableAction

module _ (locale : Locale) {A : Type 0} (act : TableAction → A) where
  unfoldable pub table_buttons : List Job → List Text → Markup A
  table_buttons all_jobs selected = el div (class "panel-title split" ∷ []) (
      el div []
        (el h3 [] (words "Jobs" ∷ []) ∷ el span [] (words "Manage and monitor all jobs" ∷ []) ∷ [])
      ∷ el div (class "button-row" ∷ []) (
          el button
            (class "secondary" ∷ on click (act (export (export_scope all_jobs selected))) ∷ [])
            (glyph "Download" 15 [] ∷ words " Export" ∷ [])
          ∷ el button
              (class "secondary"
                ∷ disabled (is_none_of (selected_jobs all_jobs selected))
                ∷ on click (act bulk_retry)
                ∷ [])
              (glyph "RotateCcw" 15 [] ∷ words " Retry" ∷ [])
          ∷ el button
              (class "secondary danger"
                ∷ disabled (is_none_of (selected_jobs all_jobs selected))
                ∷ on click (act bulk_cancel)
                ∷ [])
              (glyph "Trash2" 15 [] ∷ words " Cancel" ∷ [])
          ∷ [])
      ∷ [])

  -- An option with no value has its text for one.
  abbrev plain_option : Text → Markup A
  plain_option name = el option [] (text name ∷ [])

  abbrev valued_option : Text × Text → Markup A
  valued_option (v, name) = el option (value v ∷ []) (text name ∷ [])

  abbrev queue_filters : List Text
  queue_filters =
      txt "all" ∷ txt "emails" ∷ txt "images" ∷ txt "webhooks" ∷ txt "reports" ∷ txt "default" ∷ []

  abbrev sort_options : List (Text × Text)
  sort_options =
      (txt "created_desc", txt "newest")
      ∷ (txt "priority_desc", txt "priority")
      ∷ (txt "attempts_desc", txt "attempts")
      ∷ (txt "status_asc", txt "status")
      ∷ []

  abbrev size_options : List (Text × Text)
  size_options =
      (txt "10", txt "10 rows") ∷ (txt "25", txt "25 rows") ∷ (txt "50", txt "50 rows") ∷ []

  -- `to_size` is `Number` on the values of the options of the last select.
  unfoldable pub toolbar : (Text → ℕ) → Filters → Markup A
  toolbar to_size filters = el div (class "toolbar" ∷ []) (
      el input
        (named (txt "placeholder") (txt "Search type, queue, status")
          ∷ value filters.query
          ∷ on_change (λ typed. act (control (query typed)))
          ∷ [])
        []
      ∷ el select (value filters.status ∷ on_change (λ chosen. act (control (status chosen))) ∷ [])
          (each (λ name. el option (key name ∷ []) (text name ∷ [])) status_options ∷ [])
      ∷ el select (value filters.queue ∷ on_change (λ chosen. act (control (queue chosen))) ∷ [])
          (each plain_option queue_filters ∷ [])
      ∷ el select (value filters.sort ∷ on_change (λ chosen. act (control (sort chosen))) ∷ [])
          (each valued_option sort_options ∷ [])
      ∷ el select
          (value (locale.number_text filters.page_size)
            ∷ on_change (λ chosen. act (control (page_size (to_size chosen))))
            ∷ [])
          (each valued_option size_options ∷ [])
      ∷ [])

  unfoldable pub head_row : List Job → List Text → Markup A
  head_row jobs selected = el div (class "row head" ∷ []) (
      el span [] (
        el input
          (named (txt "type") (txt "checkbox")
            ∷ checked (all_page_selected (page_ids jobs) selected)
            ∷ on_toggle (act toggle_all)
            ∷ [])
          []
        ∷ [])
      ∷ el span [] (words "Job Name" ∷ [])
      ∷ el span [] (words "Queue" ∷ [])
      ∷ el span [] (words "Status" ∷ [])
      ∷ el span [] (words "Priority" ∷ [])
      ∷ el span [] (words "Attempts" ∷ [])
      ∷ el span [] []
      ∷ [])

  -- `selectedJob?.id === job.id`
  abbrev is_selected : Option Job → Job → Bool
  is_selected none job = false
  is_selected (some selected) job = selected.id == job.id

  unfoldable pub job_row : Option Job → List Text → Job → Markup A
  unfolding status_badge
  job_row selected_job selected job =
      el button
        (class_name
            (txt "row " ++ (if is_selected selected_job job then txt "selected" else txt ""))
          ∷ key job.id
          ∷ on click (act (choose job))
          ∷ [])
        (el span (stops click ∷ []) (
            el input
              (named (txt "type") (txt "checkbox")
                ∷ checked (contains selected job.id)
                ∷ on_toggle (act (toggle job.id))
                ∷ [])
              []
            ∷ [])
          ∷ el span [] (child locale.int_text (job_display_name (some job)) ∷ [])
          ∷ el span [] (text (queue_display_name job.queue) ∷ [])
          ∷ status_badge job.status
          ∷ el span [] (text (locale.int_text job.priority) ∷ [])
          ∷ el span [] (
              text (locale.int_text job.attempts)
              ∷ words " / "
              ∷ text (locale.int_text job.max_attempts)
              ∷ [])
          ∷ el span (class "actions" ∷ []) (
              glyph "RotateCcw" 15 (stops click ∷ on click (act (retry job)) ∷ [])
              ∷ glyph "Trash2" 15 (stops click ∷ on click (act (ask_cancel job)) ∷ [])
              ∷ [])
          ∷ [])

  unfoldable pub pagination : Filters → ℕ → Markup A
  pagination filters page_count = el div (class "pagination" ∷ []) (
      el button
        (class "icon-button small"
          ∷ disabled (leb filters.page 1)
          ∷ on click (act (control previous))
          ∷ [])
        (glyph "ChevronLeft" 16 [] ∷ [])
      ∷ el span [] (
          words "Page "
          ∷ text (locale.number_text filters.page)
          ∷ words " of "
          ∷ text (locale.number_text page_count)
          ∷ [])
      ∷ el button
          (class "icon-button small"
            ∷ disabled (leb page_count filters.page)
            ∷ on click (act (control following))
            ∷ [])
          (glyph "ChevronRight" 16 [] ∷ [])
      ∷ [])
