-- ===== src/Views/Clicks/Whole.antt =====
-- Clicks on the views and on the whole app (web/src/views/DashboardView.jsx, web/src/views/JobsView.jsx, web/src/App.jsx).
use job_flow_web_application.Prelude.{ℕ, ◌≤◌, true, false, ◌≡◌, refl, inl, inr, length, Bool-cases}
use job_flow_web_application.Prelude.Text.{Text, txt, ◌==◌, is_empty}
use job_flow_web_application.Json.{Json}
use job_flow_web_application.Model.{Platform}
use job_flow_web_application.JobFlow.{JobFlow}
use job_flow_web_application.Filters.{use_job_filters}
use job_flow_web_application.Health.{health}
use job_flow_web_application.Shell.{has_topbar, view_title}
use job_flow_web_application.Markup.{click}
use job_flow_web_application.Markup.Events.{single, fire, Target}
use job_flow_web_application.Markup.Bubbling.{fire-single, single-when}
use job_flow_web_application.Views.{Locale}
use job_flow_web_application.Views.Pages.{
  PageAction, PageState, table, compose, props_of, detailed_job, view_table, view_details,
  dashboard_view, jobs_view, command_bar,
}
use job_flow_web_application.Views.Console.{
  Screen, entry_of, workspace, dialog, app, Action, navigate, set_density, set_theme, ask_sign_out,
  refresh, clear_toast, export_all, dismiss, confirm, auth, page, workers,
}
use job_flow_web_application.Views.Clicks.{single-job_table}
use job_flow_web_application.Views.Clicks.Frames.{
  single-sidebar, single-topbar, single-toast, single-confirm_dialog, single-settings_view,
  single-auth_screen,
}
use job_flow_web_application.Views.Clicks.Panels.{
  single-activity_feed, single-worker_board, single-job_details, single-stats_strip,
  single-insight_cards, single-health_panel, single-job_analytics, single-queue_board,
  single-type_chart, single-queues_view, single-workers_view, single-job_composer,
}

module _ (locale : Locale) (platform : Platform) (type_text : Json → Text)
    (to_size : Text → ℕ) where
  module _ {A : Type 0} (act : PageAction → A) (flow : JobFlow) (state : PageState) where
    single-view_table :
        single click (view_table locale platform type_text to_size act flow state) ≡ true
    unfolding view_table
    single-view_table =
        let view = use_job_filters platform flow.jobs state.filters in
        single-job_table locale (λ a. act (table a)) to_size
          (props_of locale platform type_text to_size act flow view) state.selected

    single-view_details :
        single click (view_details locale platform type_text to_size act flow state) ≡ true
    unfolding view_details
    single-view_details = single-job_details locale A (
        detailed_job flow.selected_job
          (use_job_filters platform flow.jobs state.filters).filtered_jobs)

    single-dashboard_view :
        single click (dashboard_view locale platform type_text to_size act flow state) ≡ true
    unfolding single dashboard_view command_bar
    single-dashboard_view =
        let figures = health locale.round_percent flow.stats in
        rw
          (
            single-stats_strip locale A flow.stats figures,
            single-insight_cards locale A flow.jobs flow.stats,
            single-health_panel locale A flow.stats figures,
            single-job_analytics locale A platform flow.jobs,
            single-job_composer locale A type_text (λ a. act (compose a)) state.composer
                state.drafts,
            single-queue_board locale A flow.stats false,
            single-type_chart locale A flow.stats false,
            single-view_table,
            single-view_details,
            single-worker_board locale A flow.stats,
            single-activity_feed locale A type_text flow.events,
          )
          refl

    single-jobs_view :
        single click (jobs_view locale platform type_text to_size act flow state) ≡ true
    unfolding single jobs_view
    single-jobs_view =
        rw
          (
            single-job_analytics locale A platform flow.jobs,
            single-job_composer locale A type_text (λ a. act (compose a)) state.composer
                state.drafts,
            single-view_table,
            single-view_details,
          )
          refl

  single-workspace :
      (s : Screen) → single click (workspace locale platform type_text to_size s) ≡ true
  unfolding single workspace
  single-workspace s =
      let view = s.shell.active_view in
      rw
        (
          single-when click (has_topbar view) _
              (single-topbar locale.today (view_title view) s.flow.user s.flow.loading refresh),
          single-toast s.flow.notice s.flow.error clear_toast,
          single-when click (view == txt "dashboard") _
              (single-dashboard_view page s.flow s.page_state),
          single-when click (view == txt "jobs") _ (single-jobs_view page s.flow s.page_state),
          single-when click (view == txt "queues") _
              (single-queues_view locale Action refresh s.flow.stats s.flow.loading),
          single-when click (view == txt "workers") _ (
              single-workers_view locale Action platform workers s.worker_filter s.flow.stats
                s.flow.loading),
          single-when click (view == txt "settings") _ (
              single-settings_view locale s.shell.density s.shell.theme set_density set_theme
                s.flow.stats export_all refresh s.flow.loading),
        )
        refl

  single-app : (s : Screen) → single click (app locale platform type_text to_size s) ≡ true
  unfolding single app dialog
  single-app s = elim (Bool-cases (is_empty s.flow.token)) [
    | inl out ↦ rw (out, single-auth_screen auth (entry_of s) s.reveal) refl
    | inr signed_in ↦
        rw
          (
            signed_in,
            single-sidebar s.shell.active_view navigate ask_sign_out,
            single-workspace s,
            single-confirm_dialog s.shell.confirm s.shell.confirm_busy dismiss confirm,
          )
          refl
  ]

  -- A click anywhere in the app, signed in or not, in any view and with or without a dialog, asks for
  -- one thing at most.
  pub fire-app :
      (s : Screen) (target : Target)
      → length (fire click target (app locale platform type_text to_size s)).asked ≤ 1
  fire-app s target = fire-single click target _ (single-app s)
