-- ===== src/Views/Clicks/Panels.antt =====
-- Clicks on the panels of the app (web/src/components, web/src/views).
use job_flow_web_application.Prelude.{
  ℕ, suc, max, List, [], ◌∷◌, Bool, true, false, Option, none, some, ◌≡◌, refl, not,
}
use job_flow_web_application.Prelude.Text.{Text, is_empty}
use job_flow_web_application.Json.{Json}
use job_flow_web_application.Model.{Job, Stats, QueueStats, Platform}
use job_flow_web_application.Format.{job_display_name}
use job_flow_web_application.Timeline.{steps}
use job_flow_web_application.Insights.{queues_of, max_waiting}
use job_flow_web_application.Health.{Health, strip_items}
use job_flow_web_application.JobFlow.{Event}
use job_flow_web_application.Templates.{job_templates, queue_options}
use job_flow_web_application.Drafts.{Draft}
use job_flow_web_application.Composer.{Composer}
use job_flow_web_application.Workers.{filtered_workers}
use job_flow_web_application.Markup.{click}
use job_flow_web_application.Markup.Events.{single}
use job_flow_web_application.Markup.Bubbling.{single-each, single-when}
use job_flow_web_application.Views.{Locale}
use job_flow_web_application.Views.Fleet.{
  is_none_of, workers_of, WorkersAction, WorkerFilter, worker_board, worker_card, workers_heading,
  worker_metrics, worker_controls,
}
use job_flow_web_application.Views.Fleet.Listing.{workers_view, worker_row, worker_empty_state}
use job_flow_web_application.Views.Details.{job_details, job_timeline, timeline_step}
use job_flow_web_application.Views.Figures.{
  stats_strip, health_panel, insight_cards, job_analytics, strip_notes,
}
use job_flow_web_application.Views.Queues.{
  queue_board, queue_card, type_chart, type_row, types_of, type_total, queues_view,
}
use job_flow_web_application.Views.Composing.{
  ComposerAction, job_composer, type_choices, load, delete, clear_all,
}
use job_flow_web_application.Views.Composing.Saved.{drafts_panel, draft_row}
use job_flow_web_application.Views.Pages.{activity_feed, event_rows}
use job_flow_web_application.Views.Clicks.{single-child, contained-child}

module _ (locale : Locale) (A : Type 0) where
  single-event_rows :
      (type_text : Json → Text) (index : ℕ) (events : List Event)
      → single click (event_rows locale type_text {A = A} index events) ≡ true
  unfolding single event_rows
  single-event_rows type_text index [] = refl
  single-event_rows type_text index (event ∷ events) =
      single-event_rows type_text (suc index) events

  pub single-activity_feed :
      (type_text : Json → Text) (events : List Event)
      → single click (activity_feed locale type_text {A = A} events) ≡ true
  unfolding single activity_feed
  single-activity_feed type_text events =
      rw
        (single-event_rows type_text 0 events, single-when {A = A} click (is_none_of events) _ refl)
        refl

  pub single-worker_board :
      (stats : Option Stats) → single click (worker_board locale {A = A} stats) ≡ true
  unfolding single worker_board
  single-worker_board stats =
      rw
        (
          single-each {A = A} click (worker_card locale) (workers_of stats) (λ w. refl),
          single-when {A = A} click (is_none_of (workers_of stats)) _ refl,
        )
        refl

  pub single-job_timeline :
      (job : Option Job) → single click (job_timeline locale {A = A} job) ≡ true
  unfolding single job_timeline timeline_step
  single-job_timeline none = refl
  single-job_timeline (some job) =
      rw (single-each {A = A} click (timeline_step locale job) (steps (some job)) (λ s. refl)) refl

  pub single-job_details : (job : Option Job) → single click (job_details locale {A = A} job) ≡ true
  unfolding single job_details
  single-job_details none = refl
  single-job_details (some job) =
      rw
        (
          single-child A click locale.int_text (job_display_name (some job)),
          single-job_timeline (some job),
        )
        refl

  pub single-stats_strip :
      (stats : Option Stats) (health : Health)
      → single click (stats_strip locale {A = A} stats health) ≡ true
  unfolding single stats_strip strip_items strip_notes
  single-stats_strip none health = refl
  single-stats_strip (some stats) health = refl

  pub single-insight_cards :
      (jobs : List Job) (stats : Option Stats)
      → single click (insight_cards locale {A = A} jobs stats) ≡ true
  unfolding single insight_cards
  single-insight_cards jobs stats = refl

  pub single-health_panel :
      (stats : Option Stats) (health : Health)
      → single click (health_panel locale {A = A} stats health) ≡ true
  unfolding single health_panel
  single-health_panel stats health = refl

  pub single-job_analytics :
      (platform : Platform) (jobs : List Job)
      → single click (job_analytics locale {A = A} platform jobs) ≡ true
  unfolding single job_analytics
  single-job_analytics platform jobs = refl

  single-queue_card :
      (detailed : Bool) (longest : ℕ) (queue : QueueStats)
      → single click (queue_card locale {A = A} detailed longest queue) ≡ true
  unfolding single queue_card
  single-queue_card true longest queue = refl
  single-queue_card false longest queue = refl

  pub single-queue_board :
      (stats : Option Stats) (detailed : Bool)
      → single click (queue_board locale {A = A} stats detailed) ≡ true
  unfolding single queue_board
  single-queue_board stats detailed =
      rw
        (
          single-each {A = A} click (queue_card locale detailed (max_waiting (queues_of stats)))
              (queues_of stats) (single-queue_card detailed (max_waiting (queues_of stats))),
          single-when {A = A} click (is_none_of (queues_of stats)) _ refl,
          single-when {A = A} click detailed _ refl,
        )
        refl

  single-type_row :
      (detailed : Bool) (total : ℕ) (entry : Text × ℕ)
      → single click (type_row locale {A = A} detailed total entry) ≡ true
  unfolding single type_row
  single-type_row true total (type, count) = refl
  single-type_row false total (type, count) = refl

  pub single-type_chart :
      (stats : Option Stats) (detailed : Bool)
      → single click (type_chart locale {A = A} stats detailed) ≡ true
  unfolding single type_chart
  single-type_chart stats detailed =
      rw
        (
          single-each {A = A} click (type_row locale detailed (max 1 (type_total (types_of stats))))
              (types_of stats) (single-type_row detailed (max 1 (type_total (types_of stats)))),
          single-when {A = A} click (is_none_of (types_of stats)) _ refl,
        )
        refl

  pub single-queues_view :
      (on_refresh : A) (stats : Option Stats) (loading : Bool)
      → single click (queues_view locale on_refresh stats loading) ≡ true
  unfolding single queues_view
  single-queues_view on_refresh stats loading =
      rw (single-queue_board stats true, single-type_chart stats true) refl

  pub single-workers_view :
      (platform : Platform) (act : WorkersAction → A) (filter : WorkerFilter) (stats : Option Stats)
      (loading : Bool)
      → single click (workers_view locale platform act filter stats loading) ≡ true
  unfolding single workers_view worker_metrics workers_heading worker_controls
  single-workers_view platform act filter stats loading =
      let shown = filtered_workers platform (workers_of stats) filter.query filter.status in
      rw
        (
          single-each {A = A} click (worker_row locale) shown (λ w. refl),
          single-when {A = A} click (is_none_of shown) (worker_empty_state locale act loading) refl,
        )
        refl

  single-draft_row :
      (type_text : Json → Text) (on_load : Draft → A) (on_delete : Text → A) (draft : Draft)
      → single click (draft_row locale type_text on_load on_delete draft) ≡ true
  unfolding single draft_row
  single-draft_row type_text on_load on_delete draft =
      rw
        (
          single-child A click locale.int_text draft.queue,
          single-child A click locale.int_text draft.priority,
          contained-child A click locale.int_text draft.queue,
          contained-child A click locale.int_text draft.priority,
        )
        refl

  pub single-drafts_panel :
      (type_text : Json → Text) (drafts : List Draft) (on_load : Draft → A) (on_delete : Text → A)
      (on_clear : A)
      → single click (drafts_panel locale type_text drafts on_load on_delete on_clear) ≡ true
  unfolding single drafts_panel
  single-drafts_panel type_text drafts on_load on_delete on_clear =
      rw
        (single-each {A = A} click (draft_row locale type_text on_load on_delete) drafts
          (λ draft. single-draft_row type_text on_load on_delete draft))
        refl

  pub single-job_composer :
      (type_text : Json → Text) (act : ComposerAction → A) (c : Composer) (drafts : List Draft)
      → single click (job_composer locale type_text act c drafts) ≡ true
  unfolding single job_composer type_choices job_templates queue_options
  single-job_composer type_text act c drafts =
      rw
        (
          single-child A click locale.int_text c.priority,
          single-when {A = A} click (not (is_empty c.json_error)) _ refl,
          single-drafts_panel type_text drafts (λ draft. act (load draft)) (λ id. act (delete id))
              (act clear_all),
        )
        refl
