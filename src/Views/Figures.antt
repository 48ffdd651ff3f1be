-- ===== src/Views/Figures.antt =====
-- The panels of figures on the dashboard (web/src/components/StatsStrip.jsx, web/src/components/HealthPanel.jsx,
-- web/src/components/InsightCards.jsx, web/src/components/JobAnalytics.jsx).
use job_flow_web_application.Prelude.{
  ℕ, List, [], ◌∷◌, ◌++◌, ◌||◌, Option, none, some, ltb, if◌then◌else◌,
}
use job_flow_web_application.Prelude.Text.{Text, txt}
use job_flow_web_application.Model.{Job, Stats, Platform}
use job_flow_web_application.Insights.{queues_of, waiting_total, hottest_name, retry_load}
use job_flow_web_application.Health.{Health, strip_items}
use job_flow_web_application.Analytics.{Analytics, analytics, given}
use job_flow_web_application.Markup.{
  section, div, h3, strong, span, small, icon, key, size, class_name, Markup, el, each, text, class,
  words, glyph,
}
use job_flow_web_application.Views.{Locale}

-- What stands under each figure of the strip, and its icon.
unfoldable pub strip_notes : List (Text × Text)
strip_notes =
    (txt "All jobs", txt "Activity")
    ∷ (txt "Waiting in queue", txt "Clock")
    ∷ (txt "Currently running", txt "Play")
    ∷ (txt "Successfully completed", txt "CheckCircle2")
    ∷ (txt "Being retried", txt "RotateCcw")
    ∷ (txt "Failed jobs", txt "XCircle")
    ∷ []

abbrev pub noted : List (Text × ℕ) → List (Text × Text) → List (Text × ℕ × Text × Text)
noted [] notes = []
noted (item ∷ items) [] = []
noted ((label, value) ∷ items) ((helper, symbol) ∷ notes) =
    (label, value, helper, symbol) ∷ noted items notes

module _ (locale : Locale) where
  abbrev newest : List Job → Text
  newest [] = txt "None"
  newest (job ∷ jobs) = elim (given (some job.created_at)) [
    | none ↦ txt "None"
    | some time ↦ locale.hour_minute time
  ]

  -- `const cards`: label, value and icon
  unfoldable pub insight_cards_of : List Job → Option Stats → List (Text × Text × Text)
  insight_cards_of jobs stats =
      (txt "Queue depth", locale.number_text (waiting_total (queues_of stats)), txt "Flame")
      ∷ (txt "Newest job", newest jobs, txt "Clock3")
      ∷ (txt "Hot queue", hottest_name (queues_of stats), txt "RadioTower")
      ∷ (txt "Retry load", locale.number_text (retry_load stats), txt "TimerReset")
      ∷ []

  abbrev cards_of : Analytics → List (Text × Text × Text)
  cards_of a =
      (txt "Avg Runtime", a.average_duration, txt "Timer")
      ∷ (txt "Retry Pressure", locale.number_text a.retry_pressure, txt "Gauge")
      ∷ (txt "Failure Risk", a.failure_risk, txt "AlertTriangle")
      ∷ (txt "Scheduled", locale.number_text a.scheduled, txt "Activity")
      ∷ []

module _ (locale : Locale) {A : Type 0} where
  unfoldable pub strip_metric : Text × ℕ × Text × Text → Markup A
  strip_metric (label, value, helper, symbol) = el div (class "metric" ∷ key label ∷ []) (
      el div (class "metric-icon" ∷ []) (el (icon symbol) (size 18 ∷ []) [] ∷ [])
      ∷ el div [] (
          el span [] (text label ∷ [])
          ∷ el strong [] (text (locale.number_text value) ∷ [])
          ∷ el small [] (text helper ∷ [])
          ∷ [])
      ∷ [])

  unfoldable pub stats_strip : Option Stats → Health → Markup A
  unfolding strip_metric
  stats_strip stats health = el section (class "stats-strip" ∷ []) (
      each strip_metric (noted (strip_items stats) strip_notes)
      ∷ el div (class "metric accent" ∷ []) (
          el span [] (words "Success rate" ∷ [])
          ∷ el strong [] (text (locale.number_text health.success_rate) ∷ words "%" ∷ [])
          ∷ el small []
              (text (locale.number_text health.active_workers) ∷ words " active workers" ∷ [])
          ∷ [])
      ∷ [])

  unfoldable pub health_panel : Option Stats → Health → Markup A
  health_panel stats health =
      let attention = ltb 25 health.failure_rate || ltb 100 (waiting_total (queues_of stats)) in
      el section
        (class_name (txt "health-panel " ++ (if attention then txt "attention" else txt "healthy"))
          ∷ [])
        (el div [] (
            el (icon (if attention then txt "TriangleAlert" else txt "ShieldCheck")) (size 22 ∷ [])
              []
            ∷ el span [] (text (if attention then txt "Attention" else txt "Healthy") ∷ [])
            ∷ [])
          ∷ el div (class "health-grid" ∷ []) (
              el span [] (
                glyph "Gauge" 15 []
                ∷ words " "
                ∷ text (locale.number_text health.success_rate)
                ∷ words "% success"
                ∷ [])
              ∷ el span [] (
                  glyph "TriangleAlert" 15 []
                  ∷ words " "
                  ∷ text (locale.number_text health.failure_rate)
                  ∷ words "% failures"
                  ∷ [])
              ∷ el span [] (
                  glyph "UsersRound" 15 []
                  ∷ words " "
                  ∷ text (locale.number_text health.active_workers)
                  ∷ words " workers"
                  ∷ [])
              ∷ [])
          ∷ [])

  unfoldable pub insight_card : Text × Text × Text → Markup A
  insight_card (label, value, symbol) = el div (class "insight-card" ∷ key label ∷ []) (
      el (icon symbol) (size 18 ∷ []) []
      ∷ el div [] (el span [] (text label ∷ []) ∷ el strong [] (text value ∷ []) ∷ [])
      ∷ [])

  unfoldable pub insight_cards : List Job → Option Stats → Markup A
  unfolding insight_card insight_cards_of
  insight_cards jobs stats =
      el section (class "insight-grid" ∷ [])
        (each insight_card (insight_cards_of locale jobs stats) ∷ [])

  unfoldable pub analytics_card : Text × Text × Text → Markup A
  analytics_card (label, value, symbol) = el div (class "analytics-card" ∷ key label ∷ []) (
      el (icon symbol) (size 17 ∷ []) []
      ∷ el span [] (text label ∷ [])
      ∷ el strong [] (text value ∷ [])
      ∷ [])

  unfoldable pub job_analytics : Platform → List Job → Markup A
  unfolding analytics_card
  job_analytics platform jobs = el section (class "panel analytics-panel" ∷ []) (
      el div (class "panel-title" ∷ []) (
        el div (class "metric-icon panel-icon" ∷ []) (glyph "Gauge" 18 [] ∷ [])
        ∷ el div [] (
            el h3 [] (words "Job Analytics" ∷ [])
            ∷ el span [] (words "Operational signals from recent jobs" ∷ [])
            ∷ [])
        ∷ [])
      ∷ el div (class "analytics-grid" ∷ []) (
          each analytics_card (
            cards_of locale
              (analytics platform locale.average_text locale.round_percent locale.now jobs))
          ∷ [])
      ∷ [])
