-- ===== src/Views/Fleet.antt =====
-- The page of the workers (web/src/views/WorkersView.jsx) and their board on the dashboard
-- (web/src/components/WorkerBoard.jsx).
pub mod Listing
pub mod Seen
use job_flow_web_application.Prelude.{
  ℕ, List, [], ◌∷◌, ◌++◌, Bool, true, false, Option, none, some, length,
}
use job_flow_web_application.Prelude.Text.{Text, txt, or_else}
use job_flow_web_application.Model.{Worker, Stats, Platform}
use job_flow_web_application.Workers.{online, offline, avg_heartbeat, filtered_workers}
use job_flow_web_application.Markup.{
  section, div, h2, h3, p, strong, span, small, select, option, input, button, icon, click, key,
  size, value, class_name, named, on, on_change, disabled, Markup, el, each, when, text, class,
  words, glyph, children,
}
use job_flow_web_application.Views.{Locale}
use job_flow_web_application.Views.Frame.{spin}

-- `stats?.workers || []`
abbrev pub workers_of : Option Stats → List Worker
workers_of none = []
workers_of (some stats) = stats.workers

abbrev pub is_none_of : {X : Type 0} → List X → Bool
is_none_of [] = true
is_none_of (_ ∷ _) = false

-- The texts that the page is searched by.
pub record WorkerFilter : Type 0 where
  pub query : Text
  pub status : Text

pub data WorkersAction : Type 0 where
  search choose_status : Text → WorkersAction
  refresh : WorkersAction

unfoldable pub worker_filter : WorkerFilter
worker_filter = record { query = txt ""; status = txt "all" }

unfoldable pub change_worker_filter : WorkersAction → WorkerFilter → WorkerFilter
change_worker_filter (search query) f = record f { query = query }
change_worker_filter (choose_status status) f = record f { status = status }
change_worker_filter refresh f = f

module _ (locale : Locale) {A : Type 0} where
  unfoldable pub worker_metric : Text → Text → Text → Text → Text → Markup A
  worker_metric symbol title figure helper tone =
      el div (class_name (txt "worker-metric " ++ tone) ∷ []) (
        el div (class "worker-metric-icon" ∷ []) (el (icon symbol) (size 25 ∷ []) [] ∷ [])
        ∷ el div [] (
            el span [] (text title ∷ [])
            ∷ el strong [] (text figure ∷ [])
            ∷ el small [] (text helper ∷ [])
            ∷ [])
        ∷ [])

  unfoldable pub worker_card : Worker → Markup A
  worker_card worker = el div (class "worker-card" ∷ key worker.id ∷ []) (
      el div (class "worker-head" ∷ []) (
        el span (class_name (txt "dot " ++ worker.status) ∷ []) []
        ∷ el strong [] (text (or_else worker.hostname (txt "Worker")) ∷ [])
        ∷ [])
      ∷ el span [] (text worker.status ∷ [])
      ∷ el div (class "worker-stats" ∷ []) (
          el span [] (
            glyph "Cpu" 14 []
            ∷ words " "
            ∷ text (locale.number_text worker.jobs_processed)
            ∷ words " processed"
            ∷ [])
          ∷ el span [] (text (locale.number_text worker.jobs_failed) ∷ words " failed" ∷ [])
          ∷ [])
      ∷ el small [] (words "Heartbeat " ∷ text (locale.time_of_day worker.last_heartbeat) ∷ [])
      ∷ [])

  unfoldable pub worker_board : Option Stats → Markup A
  unfolding worker_card
  worker_board stats = el section (class "panel worker-board" ∷ []) (
      el div (class "panel-title split" ∷ []) (
        el div (class "title-inline" ∷ []) (
          glyph "RadioTower" 18 []
          ∷ el div [] (
              el h3 [] (words "Workers" ∷ [])
              ∷ el span [] (words "Worker heartbeat status" ∷ [])
              ∷ [])
          ∷ [])
        ∷ [])
      ∷ el div (class "worker-grid" ∷ []) (
          each worker_card (workers_of stats)
          ∷ when (is_none_of (workers_of stats))
              (el p (class "empty" ∷ []) (words "No worker heartbeats yet." ∷ []))
          ∷ [])
      ∷ [])

  -- The four figures of the page.
  unfoldable pub worker_metrics : List Worker → Markup A
  unfolding worker_metric
  worker_metrics workers = el section (class "worker-metrics" ∷ []) (
      worker_metric (txt "UsersRound") (txt "Total Workers") (locale.number_text (length workers))
        (txt "Registered workers") (txt "green")
      ∷ worker_metric (txt "Wifi") (txt "Online") (locale.number_text (online workers))
          (txt "Currently active") (txt "green")
      ∷ worker_metric (txt "Clock3") (txt "Offline") (locale.number_text (offline workers))
          (txt "Not responding") (txt "muted")
      ∷ worker_metric (txt "Wifi") (txt "Heartbeat (avg)") (avg_heartbeat workers)
          (txt "Last 5 minutes") (txt "blue")
      ∷ [])

module _ {A : Type 0} where
  -- The heading of the page.
  unfoldable pub workers_heading : (WorkersAction → A) → Bool → Markup A
  workers_heading act loading = el div (class "view-heading" ∷ []) (
      el div [] (
        el h2 [] (words "Worker Fleet" ∷ [])
        ∷ el p [] (words "Manage and monitor your workers" ∷ [])
        ∷ [])
      ∷ el button (class "secondary refresh-button" ∷ on click (act refresh) ∷ [])
          (glyph "RefreshCcw" 16 (spin loading ∷ []) ∷ words " Refresh" ∷ [])
      ∷ [])

  unfoldable pub worker_controls : (WorkersAction → A) → WorkerFilter → Markup A
  worker_controls act filter = el div (class "workers-table-header" ∷ []) (
      el div (class "title-inline" ∷ []) (
        glyph "UsersRound" 22 []
        ∷ el div [] (
            el h3 [] (words "Workers" ∷ [])
            ∷ el span [] (words "Worker heartbeat status" ∷ [])
            ∷ [])
        ∷ [])
      ∷ el div (class "worker-controls" ∷ []) (
          el div (class "search-box worker-search" ∷ []) (
            glyph "Search" 17 []
            ∷ el input
                (named (txt "placeholder") (txt "Search workers...")
                  ∷ value filter.query
                  ∷ on_change (λ typed. act (search typed))
                  ∷ [])
                []
            ∷ [])
          ∷ el select (value filter.status ∷ on_change (λ chosen. act (choose_status chosen)) ∷ [])
              (el option (value (txt "all") ∷ []) (words "All status" ∷ [])
                ∷ el option (value (txt "online") ∷ []) (words "Online" ∷ [])
                ∷ el option (value (txt "offline") ∷ []) (words "Offline" ∷ [])
                ∷ [])
          ∷ [])
      ∷ [])
