-- ===== src/Views/Queues.antt =====
-- The board of the queues, the chart of the types and the page with both (web/src/components/QueueBoard.jsx,
-- web/src/components/TypeChart.jsx, web/src/views/QueuesView.jsx).
use job_flow_web_application.Prelude.{
  ℕ, ◌+◌, max, foldl, List, [], ◌∷◌, ◌++◌, Bool, true, Option, none, some, if◌then◌else◌,
}
use job_flow_web_application.Prelude.Text.{Text, txt}
use job_flow_web_application.Model.{QueueStats, Stats}
use job_flow_web_application.Format.{titleize, queue_display_name}
use job_flow_web_application.Insights.{queues_of, max_waiting}
use job_flow_web_application.Markup.{
  section, div, h2, h3, p, strong, span, em, button, click, key, class_name, named, on, Markup, el,
  each, when, text, class, words, glyph,
}
use job_flow_web_application.Views.{Locale}
use job_flow_web_application.Views.Frame.{spin}
use job_flow_web_application.Views.Fleet.{is_none_of}

-- `stats?.dead_letter || 0`
abbrev dead_letters : Option Stats → ℕ
dead_letters none = 0
dead_letters (some stats) = stats.dead_letter

-- `Object.entries(stats?.by_type || {})`
abbrev pub types_of : Option Stats → List (Text × ℕ)
types_of none = []
types_of (some stats) = stats.by_type

abbrev pub type_total : List (Text × ℕ) → ℕ
type_total entries = foldl (λ sum entry. sum + entry.1) 0 entries

module _ (locale : Locale) {A : Type 0} where
  unfoldable pub queue_card : Bool → ℕ → QueueStats → Markup A
  queue_card detailed longest queue = el div (class "queue-card" ∷ key queue.name ∷ []) (
      el div [] (
        el strong [] (text (queue_display_name queue.name) ∷ [])
        ∷ el span [] (text (locale.number_text queue.waiting) ∷ words " waiting" ∷ [])
        ∷ [])
      ∷ el div (class "bar" ∷ []) (
          el span (named (txt "width") (locale.bar_text queue.waiting longest ++ txt "%") ∷ []) []
          ∷ [])
      ∷ when detailed (glyph "ChevronRight" 22 (class "queue-arrow" ∷ []))
      ∷ [])

  unfoldable pub queue_board : Option Stats → Bool → Markup A
  unfolding queue_card
  queue_board stats detailed =
      el section
        (class_name
            (txt "panel queue-board " ++ (if detailed then txt "queue-board-detailed" else txt ""))
          ∷ [])
        (el div (class "panel-title" ∷ []) (
            el div (class "metric-icon panel-icon" ∷ []) (glyph "GitBranch" 18 [] ∷ [])
            ∷ el div [] (
                el h3 [] (words "Queue Depth" ∷ [])
                ∷ el span [] (words "Jobs waiting in each queue" ∷ [])
                ∷ [])
            ∷ [])
          ∷ el div (class "queue-list" ∷ []) (
              each (queue_card detailed (max_waiting (queues_of stats))) (queues_of stats)
              ∷ when (is_none_of (queues_of stats)) (
                  el p (class "empty" ∷ [])
                    (words "Queue metrics will appear after the API connects to Redis." ∷ []))
              ∷ [])
          ∷ el div (class "dlq-card" ∷ []) (
              glyph "TriangleAlert" 18 []
              ∷ el strong [] (
                  words "Dead-letter entries: "
                  ∷ text (locale.number_text (dead_letters stats))
                  ∷ [])
              ∷ when detailed (el span [] (words "View details " ∷ glyph "ChevronRight" 18 [] ∷ []))
              ∷ [])
          ∷ [])

  unfoldable pub type_row : Bool → ℕ → Text × ℕ → Markup A
  type_row detailed total (type, count) = el div (class "type-row" ∷ key type ∷ []) (
      el span [] (text (titleize type) ∷ [])
      ∷ el div (class "bar" ∷ [])
          (el span (named (txt "width") (locale.percent_text count total ++ txt "%") ∷ []) [] ∷ [])
      ∷ el strong [] (text (locale.number_text count) ∷ [])
      ∷ when detailed
          (el em [] (text (locale.number_text (locale.round_percent count total)) ∷ words "%" ∷ []))
      ∷ [])

  unfoldable pub type_chart : Option Stats → Bool → Markup A
  unfolding type_row
  type_chart stats detailed =
      el section
        (class_name
            (txt "panel type-chart " ++ (if detailed then txt "type-chart-detailed" else txt ""))
          ∷ [])
        (el div (class "panel-title" ∷ []) (
            el div (class "metric-icon panel-icon" ∷ []) (glyph "TimerReset" 18 [] ∷ [])
            ∷ el div [] (
                el h3 [] (words "Job Types" ∷ [])
                ∷ el span [] (words "Distribution by processor" ∷ [])
                ∷ [])
            ∷ [])
          ∷ each (type_row detailed (max 1 (type_total (types_of stats)))) (types_of stats)
          ∷ when (is_none_of (types_of stats))
              (el p (class "empty" ∷ []) (words "Create jobs to populate this chart." ∷ []))
          ∷ [])

  unfoldable pub queues_view : A → Option Stats → Bool → Markup A
  unfolding queue_board type_chart
  queues_view on_refresh stats loading = el div (class "queues-view" ∷ []) (
      el div (class "view-heading" ∷ []) (
        el div [] (
          el h2 [] (words "Queue Monitor" ∷ [])
          ∷ el p [] (words "Monitor queue depth and job distribution" ∷ [])
          ∷ el span (class "signed-line" ∷ [])
              (glyph "CalendarDays" 18 [] ∷ words " Signed in session | " ∷ text locale.today ∷ [])
          ∷ [])
        ∷ el button (class "secondary refresh-button" ∷ on click on_refresh ∷ [])
            (glyph "RefreshCcw" 16 (spin loading ∷ []) ∷ words " Refresh" ∷ [])
        ∷ [])
      ∷ el div (class "queue-monitor-grid" ∷ [])
          (queue_board stats true ∷ type_chart stats true ∷ [])
      ∷ [])
