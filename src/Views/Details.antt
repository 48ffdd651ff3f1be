-- ===== src/Views/Details.antt =====
-- The details of a job and its timeline (web/src/components/JobDetails.jsx, web/src/components/JobTimeline.jsx,
-- web/src/components/StatusBadge.jsx).
pub mod Privacy
use job_flow_web_application.Prelude.{
  List, [], ◌∷◌, ◌++◌, Bool, true, false, Option, none, some, if◌then◌else◌,
}
use job_flow_web_application.Prelude.Text.{Text, txt, ◌==◌, or_else}
use job_flow_web_application.Model.{Job}
use job_flow_web_application.Format.{job_display_name, queue_display_name, payload_display_value}
use job_flow_web_application.Timeline.{TimelineStep, steps, has_failed}
use job_flow_web_application.Analytics.{given}
use job_flow_web_application.Markup.{
  section, div, h3, p, strong, span, small, dl, dt, dd, pre, icon, key, size, class_name, Markup,
  el, empty, each, text, class, words, glyph, child, children,
}
use job_flow_web_application.Views.{Locale}

unfoldable pub status_badge : {A : Type 0} → Text → Markup A
status_badge status = el span (class_name (txt "status " ++ status) ∷ []) (text status ∷ [])

-- The icon of a step of the timeline.
unfoldable pub step_icon : Job → TimelineStep → Text
step_icon job step =
    if step.key == txt "created"
    then txt "Clock"
    else if step.key == txt "started"
    then txt "Play"
    else if step.key == txt "retry"
    then txt "RotateCcw"
    else if has_failed job
    then txt "XCircle"
    else txt "CheckCircle2"

-- A time that is there, or what stands for it.
abbrev time_or : (Text → Text) → Option Text → Text → Text
time_or shown none missing = missing
time_or shown (some time) missing = shown time

-- `job.error_message || "None"`
abbrev text_or : Option Text → Text → Text
text_or none missing = missing
text_or (some s) missing = or_else s missing

module _ (locale : Locale) where
  unfoldable pub duration : Job → Text
  duration job = elim (given job.started_at) [
    | none ↦ txt "Pending"
    | some started ↦ elim (given job.completed_at) [
      | none ↦ txt "Pending"
      | some completed ↦ locale.seconds_text started completed ++ txt "s"
    ]
  ]

module _ (locale : Locale) {A : Type 0} where
  unfoldable pub timeline_step : Job → TimelineStep → Markup A
  unfolding step_icon
  timeline_step job step =
      el div
        (class_name (txt "timeline-step " ++ (if step.done then txt "done" else txt ""))
          ∷ key step.key
          ∷ [])
        (el span [] (el (icon (step_icon job step)) (size 15 ∷ []) [] ∷ [])
          ∷ el div [] (
              el strong [] (text step.label ∷ [])
              ∷ el small [] (text (time_or locale.date_time (given step.time) (txt "Waiting")) ∷ [])
              ∷ [])
          ∷ [])

  unfoldable pub job_timeline : Option Job → Markup A
  job_timeline none = empty
  job_timeline (some job) =
      el div (class "timeline" ∷ []) (each (timeline_step job) (steps (some job)) ∷ [])

  abbrev row_of : Text → List (Markup A) → Markup A
  row_of name shown = children (el dt [] (text name ∷ []) ∷ el dd [] shown ∷ [])

  unfoldable pub job_details : Option Job → Markup A
  unfolding duration status_badge
  job_details none =
      el section (class "panel detail-panel" ∷ [])
        (el p (class "empty" ∷ []) (words "No jobs yet." ∷ []) ∷ [])
  job_details (some job) =
      let job_name : Markup A = child locale.int_text (job_display_name (some job)) in
      el section (class "panel detail-panel" ∷ []) (
        el div (class "panel-title split" ∷ [])
          (el div [] (el h3 [] (words "Job Details" ∷ []) ∷ el span [] (job_name ∷ []) ∷ []) ∷ [])
        ∷ el div (class "detail-summary" ∷ []) (
            el div [] (glyph "Square" 16 [] ∷ status_badge job.status ∷ [])
            ∷ el div []
                (glyph "CalendarClock" 16 [] ∷ el span [] (text (duration locale job) ∷ []) ∷ [])
            ∷ [])
        ∷ el dl [] (
            row_of (txt "Name") (job_name ∷ [])
            ∷ row_of (txt "Queue") (text (queue_display_name job.queue) ∷ [])
            ∷ row_of (txt "Priority") (text (locale.int_text job.priority) ∷ [])
            ∷ row_of (txt "Attempts") (
                text (locale.int_text job.attempts)
                ∷ words " / "
                ∷ text (locale.int_text job.max_attempts)
                ∷ [])
            ∷ row_of (txt "Created") (text (locale.date_time job.created_at) ∷ [])
            ∷ row_of (txt "Started")
                (text (time_or locale.date_time (given job.started_at) (txt "Not started")) ∷ [])
            ∷ row_of (txt "Completed") (
                text (time_or locale.date_time (given job.completed_at) (txt "Not completed")) ∷ [])
            ∷ row_of (txt "Error") (text (text_or job.error_message (txt "None")) ∷ [])
            ∷ [])
        ∷ job_timeline (some job)
        ∷ el pre (class "payload" ∷ [])
            (text (locale.json_text (payload_display_value job.payload)) ∷ [])
        ∷ [])
