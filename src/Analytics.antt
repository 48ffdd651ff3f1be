-- ===== src/Analytics.antt =====
-- The figures of the panel of recent jobs (web/src/components/JobAnalytics.jsx), and the shares of the
-- chart of the job types (web/src/components/TypeChart.jsx).
pub mod Attempts
use job_flow_web_application.Prelude.{
  ℕ, ◌+◌, max, List, [], ◌∷◌, ◌++◌, map, filter, length, Bool, true, false, ◌&&◌, ◌||◌, Option,
  none, some, if◌then◌else◌,
}
use job_flow_web_application.Prelude.Int.{ℤ, pos, negsuc, ◌-ℤ◌, ltb_ℤ}
use job_flow_web_application.Prelude.Text.{Text, txt, ◌==◌, is_empty}
use job_flow_web_application.Model.{Job, Stats, Platform}
use job_flow_web_application.Format.{titleize}

-- A time that is there and not the empty text.
abbrev pub given : Option Text → Option Text
given none = none
given (some time) = if is_empty time then none else some time

abbrev pub not_negative : ℤ → Option ℕ
not_negative (pos n) = some n
not_negative (negsuc n) = none

-- `.filter((value) => value !== null)`
abbrev pub cons_if : Option ℕ → List ℕ → List ℕ
cons_if none rest = rest
cons_if (some n) rest = n ∷ rest

pub record Analytics : Type 0 where
  pub average_duration : Text
  pub retry_pressure : ℕ
  pub failure_risk : Text
  pub scheduled : ℕ

abbrev pub has_retry_pressure : Job → Bool
has_retry_pressure job = job.status == txt "retrying" || ltb_ℤ (pos 0) job.attempts

abbrev pub is_failure : Job → Bool
is_failure job = job.status == txt "failed" || job.status == txt "dead_letter"

module _ (platform : Platform) where
  -- `secondsBetween`, in thousandths of a second; an invalid date is not finite.
  unfoldable pub seconds_between : Option Text → Option Text → Option ℕ
  unfolding ◌-ℤ◌
  seconds_between start end = elim (given start) [
    | none ↦ none
    | some from ↦ elim (given end) [
      | none ↦ none
      | some to ↦ elim (platform.parse_date from) [
        | none ↦ none
        | some a ↦ elim (platform.parse_date to) [ none ↦ none | some b ↦ not_negative (b -ℤ a) ]
      ]
    ]
  ]

  unfoldable pub completed_durations : List Job → List ℕ
  unfolding seconds_between
  completed_durations [] = []
  completed_durations (job ∷ jobs) =
      cons_if (seconds_between job.started_at job.completed_at) (completed_durations jobs)

  -- `job.scheduled_at && new Date(job.scheduled_at) > new Date()`
  abbrev pub is_later : ℤ → Job → Bool
  is_later now job = elim (given job.scheduled_at) [
    | none ↦ false
    | some time ↦ elim (platform.parse_date time) [ none ↦ false | some t ↦ ltb_ℤ now t ]
  ]

  -- `average_text` is `toFixed(2)` of the mean of some durations, and `round_percent` is
  -- `Math.round((part / whole) * 100)`: floating-point numbers are the platform's.
  module _ (average_text : List ℕ → Text) (round_percent : ℕ → ℕ → ℕ) where
    abbrev average : List ℕ → Text
    average [] = txt "N/A"
    average (n ∷ durations) = average_text (n ∷ durations) ++ txt "s"

    abbrev risk : ℕ → ℕ → Text
    risk failed ℕ.zero = txt "0%"
    risk failed (ℕ.suc n) = platform.number_text (round_percent failed (ℕ.suc n)) ++ txt "%"

    unfoldable pub analytics : ℤ → List Job → Analytics
    unfolding completed_durations
    analytics now jobs = record {
      average_duration = average (completed_durations jobs);
      retry_pressure = length (filter has_retry_pressure jobs);
      failure_risk = risk (length (filter is_failure jobs)) (length jobs);
      scheduled = length (filter (is_later now) jobs);
    }

    -- The types of the chart: name, number and share of the sum, which is at least 1.
    abbrev pub sum_of : List (Text × ℕ) → ℕ
    sum_of [] = 0
    sum_of ((type, count) ∷ entries) = count + sum_of entries

    abbrev pub entries_of : Option Stats → List (Text × ℕ)
    entries_of none = []
    entries_of (some stats) = stats.by_type

    unfoldable pub type_rows : Option Stats → List (Text × ℕ × ℕ)
    type_rows stats =
        map
          (λ entry.
            (titleize entry.0, entry.1, round_percent entry.1 (max 1 (sum_of (entries_of stats)))))
          (entries_of stats)
