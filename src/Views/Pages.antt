-- ===== src/Views/Pages.antt =====
-- The command bar, the feed of events and the two views with the table of the jobs (web/src/components/CommandBar.jsx,
-- web/src/components/ActivityFeed.jsx, web/src/views/DashboardView.jsx, web/src/views/JobsView.jsx).
use job_flow_web_application.Prelude.{
  ℕ, suc, List, [], ◌∷◌, ◌++◌, Bool, false, Option, none, some, head?,
}
use job_flow_web_application.Prelude.Text.{Text, txt}
use job_flow_web_application.Json.{Json, str, member}
use job_flow_web_application.Model.{Job, Platform}
use job_flow_web_application.Format.{titleize, or_json}
use job_flow_web_application.JobFlow.{JobFlow, Event}
use job_flow_web_application.Filters.{Filters, View, use_job_filters}
use job_flow_web_application.Drafts.{Draft}
use job_flow_web_application.Composer.{Composer}
use job_flow_web_application.Health.{health}
use job_flow_web_application.Table.{query}
use job_flow_web_application.Markup.{
  section, div, h3, p, span, code, button, input, click, key, value, named, on, on_change, Markup,
  el, empty, beside, when, text, class, words, glyph, children,
}
use job_flow_web_application.Views.{Locale}
use job_flow_web_application.Views.Frame.{spin}
use job_flow_web_application.Views.Fleet.{is_none_of, worker_board}
use job_flow_web_application.Views.Details.{job_details}
use job_flow_web_application.Views.Figures.{stats_strip, health_panel, insight_cards, job_analytics}
use job_flow_web_application.Views.Queues.{queue_board, type_chart}
use job_flow_web_application.Views.Rows.{TableAction, control}
use job_flow_web_application.Views.Rows.Listing.{TableProps, job_table}
use job_flow_web_application.Views.Composing.{ComposerAction, job_composer}

-- What the handlers of these views do.
pub data PageAction : Type 0 where
  table : TableAction → PageAction
  compose : ComposerAction → PageAction
  export_filtered : List Job → PageAction
  refresh_all focus_create : PageAction

-- The states of the hooks and components of these views: they start anew when the view is opened.
pub record PageState : Type 0 where
  pub filters : Filters
  pub selected : List Text
  pub composer : Composer
  pub drafts : List Draft

module _ {A : Type 0} where
  unfoldable pub command_bar : Filters → (Text → A) → A → A → A → Bool → Markup A
  command_bar filters on_query on_refresh on_export on_focus_create loading =
      el section (class "command-bar" ∷ []) (
        el div (class "search-box" ∷ []) (
          glyph "Search" 17 []
          ∷ el input
              (named (txt "placeholder") (txt "Search jobs, queues, status")
                ∷ value filters.query
                ∷ on_change on_query
                ∷ [])
              []
          ∷ [])
        ∷ el button (class "secondary" ∷ on click on_focus_create ∷ [])
            (glyph "Plus" 15 [] ∷ words " New job" ∷ [])
        ∷ el button (class "secondary" ∷ on click on_export ∷ [])
            (glyph "Download" 15 [] ∷ words " Export" ∷ [])
        ∷ el button
            (class "icon-button" ∷ on click on_refresh ∷ named (txt "title") (txt "Refresh") ∷ [])
            (glyph "RefreshCcw" 18 (spin loading ∷ []) ∷ [])
        ∷ [])

-- `event.data?.type || event.data?.queue || "Job update"`
abbrev event_subject : Event → Json
event_subject event =
    or_json (member (txt "type") event.details)
      (or_json (member (txt "queue") event.details) (str (txt "Job update")))

module _ (locale : Locale) (type_text : Json → Text) {A : Type 0} where
  unfoldable pub event_row : Event → ℕ → Markup A
  event_row event index =
      el div (class "event-row" ∷ key (event.event ++ (txt "-" ++ locale.number_text index)) ∷ []) (
        el span [] (text event.event ∷ [])
        ∷ el code [] (text (titleize (type_text (event_subject event))) ∷ [])
        ∷ [])

  unfoldable pub event_rows : ℕ → List Event → Markup A
  unfolding event_row
  event_rows index [] = empty
  event_rows index (event ∷ events) = beside (event_row event index) (event_rows (suc index) events)

  unfoldable pub activity_feed : List Event → Markup A
  unfolding event_rows
  activity_feed events = el section (class "panel activity-feed" ∷ []) (
      el div (class "panel-title" ∷ []) (
        glyph "Radio" 18 []
        ∷ el div [] (
            el h3 [] (words "Realtime Events" ∷ [])
            ∷ el span [] (words "Live queue activity" ∷ [])
            ∷ [])
        ∷ [])
      ∷ el div (class "event-list" ∷ []) (
          event_rows 0 events
          ∷ when (is_none_of events)
              (el p (class "empty" ∷ []) (words "No realtime events received yet." ∷ []))
          ∷ [])
      ∷ [])

-- `props.selectedJob || filteredJobs[0]`
abbrev pub detailed_job : Option Job → List Job → Option Job
detailed_job none shown = head? shown
detailed_job (some job) shown = some job

-- `to_size` is `Number` on the sizes that the table offers.
module _ (locale : Locale) (platform : Platform) (type_text : Json → Text) (to_size : Text → ℕ)
    {A : Type 0} (act : PageAction → A) where
  abbrev pub props_of : JobFlow → View → TableProps
  props_of flow view = record {
    jobs = view.filtered_jobs;
    all_jobs = view.all_filtered_jobs;
    selected_job = flow.selected_job;
    filters = view.filters;
    page_count = view.page_count;
  }

  unfoldable pub view_table : JobFlow → PageState → Markup A
  view_table flow page =
      let view = use_job_filters platform flow.jobs page.filters in
      job_table locale (λ a. act (table a)) to_size (props_of flow view) page.selected

  unfoldable pub view_details : JobFlow → PageState → Markup A
  view_details flow page = job_details locale (
      detailed_job flow.selected_job
        (use_job_filters platform flow.jobs page.filters).filtered_jobs)

  unfoldable pub dashboard_view : JobFlow → PageState → Markup A
  unfolding view_table view_details
  dashboard_view flow page =
      let view = use_job_filters platform flow.jobs page.filters in
      let figures = health locale.round_percent flow.stats in
      children (
        command_bar view.filters (λ typed. act (table (control (query typed)))) (act refresh_all)
          (act (export_filtered view.all_filtered_jobs)) (act focus_create) flow.loading
        ∷ stats_strip locale flow.stats figures
        ∷ insight_cards locale flow.jobs flow.stats
        ∷ health_panel locale flow.stats figures
        ∷ job_analytics locale platform flow.jobs
        ∷ el div (class "main-grid" ∷ []) (
            job_composer locale type_text (λ a. act (compose a)) page.composer page.drafts
            ∷ el div (class "stack" ∷ [])
                (queue_board locale flow.stats false ∷ type_chart locale flow.stats false ∷ [])
            ∷ [])
        ∷ el div (class "content-grid" ∷ []) (
            view_table flow page
            ∷ el div (class "stack" ∷ []) (
                view_details flow page
                ∷ worker_board locale flow.stats
                ∷ activity_feed locale type_text flow.events
                ∷ [])
            ∷ [])
        ∷ [])

  unfoldable pub jobs_view : JobFlow → PageState → Markup A
  unfolding view_table view_details
  jobs_view flow page = el div (class "jobs-layout" ∷ []) (
      job_analytics locale platform flow.jobs
      ∷ job_composer locale type_text (λ a. act (compose a)) page.composer page.drafts
      ∷ el div (class "content-grid" ∷ []) (view_table flow page ∷ view_details flow page ∷ [])
      ∷ [])
