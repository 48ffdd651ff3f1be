-- ===== src/Timeline.antt =====
-- The timeline of a job (web/src/components/JobTimeline.jsx).
use job_flow_web_application.Prelude.{
  List, [], ◌∷◌, Bool, true, false, ◌||◌, Option, none, some, not, ◌≡◌, ◌≢◌, ap, length, arith,
  Bool-cases, inl, inr, if◌then◌else◌,
}
use job_flow_web_application.Prelude.Text.{Text, txt, ◌==◌, is_empty}
use job_flow_web_application.Model.{Job}

pub record TimelineStep : Type 0 where
  pub key : Text
  pub label : Text
  pub time : Option Text
  pub done : Bool

-- `Boolean(time)`
abbrev pub is_set : Option Text → Bool
is_set none = false
is_set (some time) = not (is_empty time)

abbrev pub has_failed : Job → Bool
has_failed job = job.status == txt "dead_letter" || job.status == txt "failed"

unfoldable pub finished_step : Job → TimelineStep
finished_step job = record {
  key = txt "finished";
  label = if has_failed job then txt "Failed" else txt "Completed";
  time = job.completed_at;
  done =
      is_set job.completed_at
      || (job.status == txt "failed"
          || (job.status == txt "dead_letter" || job.status == txt "completed"));
}

unfoldable pub steps : Option Job → List TimelineStep
unfolding finished_step
steps none = []
steps (some job) =
    record { key = txt "created"; label = txt "Created"; time = some job.created_at; done = true }
    ∷ record {
      key = txt "started";
      label = txt "Started";
      time = job.started_at;
      done = is_set job.started_at;
    }
    ∷ finished_step job
    ∷ record {
      key = txt "retry";
      label = txt "Retry";
      time = none;
      done = job.status == txt "retrying";
    }
    ∷ []

labels_differ : txt "Completed" ≢ txt "Failed"
unfolding txt
labels_differ = λ e. omega (arith, ap length e)

-- A finish that is labelled as failed is shown as done.
pub finished_step-done :
    (job : Job) → (finished_step job).label ≡ txt "Failed" → (finished_step job).done ≡ true
unfolding finished_step
finished_step-done job h = elim (Bool-cases (has_failed job)) [
  | inl failed ↦ ground arith
  | inr other ↦ absurd (labels_differ (rw other at h))
]
