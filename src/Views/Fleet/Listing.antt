-- ===== src/Views/Fleet/Listing.antt =====
-- The table of the page of the workers, and the page (web/src/views/WorkersView.jsx).
use job_flow_web_application.Prelude.{List, [], ◌∷◌, ◌++◌, Bool, true, Option, length}
use job_flow_web_application.Prelude.Text.{txt, or_else}
use job_flow_web_application.Model.{Worker, Stats, Platform}
use job_flow_web_application.Workers.{filtered_workers}
use job_flow_web_application.Markup.{
  section, div, h3, p, strong, span, input, button, click, key, class_name, named, on, disabled,
  Markup, el, each, when, text, class, words, glyph,
}
use job_flow_web_application.Views.{Locale}
use job_flow_web_application.Views.Frame.{spin}
use job_flow_web_application.Views.Fleet.{
  WorkerFilter, WorkersAction, refresh, is_none_of, workers_of, workers_heading, worker_metrics,
  worker_controls,
}

-- The heads of the columns, after that of the checkbox.
abbrev column_heads : {A : Type 0} → List (Markup A)
column_heads =
    el span [] (words "Worker Name" ∷ [])
    ∷ el span [] (words "Status" ∷ [])
    ∷ el span [] (words "Current Job" ∷ [])
    ∷ el span [] (words "Queues" ∷ [])
    ∷ el span [] (words "Last Heartbeat" ∷ [])
    ∷ el span [] (words "Uptime" ∷ [])
    ∷ el span [] (words "Actions" ∷ [])
    ∷ []

abbrev checkbox : {A : Type 0} → Markup A
checkbox = el span [] (el input (named (txt "type") (txt "checkbox") ∷ []) [] ∷ [])

module _ (locale : Locale) {A : Type 0} where
  unfoldable pub worker_row : Worker → Markup A
  worker_row worker = el div (class "worker-row" ∷ key worker.id ∷ []) (
      checkbox
      ∷ el strong [] (text (or_else worker.hostname (txt "Worker")) ∷ [])
      ∷ el span (class_name (txt "worker-pill " ++ worker.status) ∷ []) (text worker.status ∷ [])
      ∷ el span [] (words "Idle" ∷ [])
      ∷ el span [] (words "default" ∷ [])
      ∷ el span [] (text (locale.date_time worker.last_heartbeat) ∷ [])
      ∷ el span [] (words "Active" ∷ [])
      ∷ el button (class "icon-button small" ∷ named (txt "title") (txt "Refresh") ∷ [])
          (glyph "RefreshCcw" 15 [] ∷ [])
      ∷ [])

  unfoldable pub worker_table : List Worker → Markup A
  unfolding worker_row
  worker_table shown =
      el div (class "worker-table" ∷ []) (
        el div (class "worker-row head" ∷ []) (checkbox ∷ column_heads)
        ∷ each worker_row shown
        ∷ [])

  unfoldable pub worker_empty_state : (WorkersAction → A) → Bool → Markup A
  worker_empty_state act loading = el div (class "worker-empty-state" ∷ []) (
      el div (class "empty-orb" ∷ []) (glyph "UsersRound" 42 [] ∷ [])
      ∷ el h3 [] (words "No worker heartbeats yet." ∷ [])
      ∷ el p []
          (words "Your workers will appear here once they start and send heartbeat signals." ∷ [])
      ∷ el button (class "secondary refresh-button" ∷ on click (act refresh) ∷ [])
          (glyph "RefreshCcw" 16 (spin loading ∷ []) ∷ words " Refresh Now" ∷ [])
      ∷ [])

  unfoldable pub workers_footer : List Worker → Markup A
  workers_footer shown = el div (class "workers-footer" ∷ []) (
      el strong [] (text (locale.number_text (length shown)) ∷ words " workers" ∷ [])
      ∷ el div [] (
          el button (class "icon-button small" ∷ disabled true ∷ [])
            (glyph "ChevronLeft" 16 [] ∷ [])
          ∷ el span [] (words "Page 1 of 1" ∷ [])
          ∷ el button (class "icon-button small" ∷ disabled true ∷ [])
              (glyph "ChevronRight" 16 [] ∷ [])
          ∷ [])
      ∷ [])

  unfoldable pub workers_view :
      Platform → (WorkersAction → A) → WorkerFilter → Option Stats → Bool → Markup A
  unfolding worker_table worker_empty_state workers_footer
  workers_view platform act filter stats loading =
      let shown = filtered_workers platform (workers_of stats) filter.query filter.status in
      el div (class "workers-view" ∷ []) (
        workers_heading act loading
        ∷ worker_metrics locale (workers_of stats)
        ∷ el section (class "panel workers-table-panel" ∷ []) (
            worker_controls act filter
            ∷ worker_table shown
            ∷ when (is_none_of shown) (worker_empty_state act loading)
            ∷ workers_footer shown
            ∷ [])
        ∷ [])
