-- ===== src/Server/Dashboard.antt =====
-- The figures of the dashboard (`Stats` of internal/repository/job_repository.go, `Dashboard` of
-- internal/service/job_service.go), in the form in which the app reads them.
pub mod Counts
pub mod Figures
use job_flow_web_application.Prelude.{ℕ, ◌+◌, List, [], ◌∷◌, map, Option, none, some, if◌then◌else◌}
use job_flow_web_application.Prelude.Int.{ℤ}
use job_flow_web_application.Prelude.Text.{Text, txt, ◌==◌}
use job_flow_web_application.Model.{Worker, QueueStats, Stats}
use job_flow_web_application.Server.{
  Status, queued, running, completed, failed, retrying, dead_letter, status_text, Row, Answer, ok,
  err, Database,
}
use job_flow_web_application.Server.Queue.{SortedSets, Redis, queue_stats}

-- `COUNT(*) … GROUP BY …`: each value with its number.
abbrev pub tally : Text → List (Text × ℕ) → List (Text × ℕ)
tally value [] = (value, 1) ∷ []
tally value ((v, n) ∷ groups) =
    let rest = tally value groups in if v == value then (v, n + 1) ∷ groups else (v, n) ∷ rest

unfoldable pub group_counts : List Text → List (Text × ℕ)
group_counts [] = []
group_counts (value ∷ values) = tally value (group_counts values)

-- A Go map: the value of a key, 0 for a missing one, and the assignment.
abbrev pub value_at : Text → List (Text × ℕ) → ℕ
value_at key [] = 0
value_at key ((k, n) ∷ entries) = let later = value_at key entries in if k == key then n else later

abbrev pub set_value : Text → ℕ → List (Text × ℕ) → List (Text × ℕ)
set_value key n [] = (key, n) ∷ []
set_value key n ((k, m) ∷ entries) =
    let rest = set_value key n entries in if k == key then (k, n) ∷ entries else (k, m) ∷ rest

abbrev pub sum_counts : List (Text × ℕ) → ℕ
sum_counts [] = 0
sum_counts ((k, n) ∷ entries) = n + sum_counts entries

-- `byStatus["total"] = total`
abbrev pub with_total : List (Text × ℕ) → List (Text × ℕ)
with_total by_status = set_value (txt "total") (sum_counts by_status) by_status

-- `Stats`: the jobs by status, with their sum under "total", and by type, of all users.
unfoldable pub stats : Database → List Row → Answer (List (Text × ℕ) × List (Text × ℕ))
unfolding group_counts status_text
stats db rows = elim db.fault [
  | some message ↦ err message
  | none ↦ ok (
    with_total (group_counts (map (λ row. status_text row.status) rows)),
    group_counts (map (λ row. row.type) rows),
  )
]

abbrev pub queue_figures : Text × ℕ × ℕ → QueueStats
queue_figures (name, waiting, dead) = record { name = name; waiting = waiting }

-- The answer, as the app reads it.
abbrev pub to_stats : List (Text × ℕ) → List (Text × ℕ) → List (Text × ℕ × ℕ) → List Worker → Stats
to_stats by_status by_type queues fleet = record {
  total_jobs = value_at (txt "total") by_status;
  queued = value_at (status_text queued) by_status;
  running = value_at (status_text running) by_status;
  completed = value_at (status_text completed) by_status;
  failed = value_at (status_text failed) by_status;
  retrying = value_at (status_text retrying) by_status;
  dead_letter = value_at (status_text dead_letter) by_status;
  queues = map queue_figures queues;
  workers = fleet;
  by_type = by_type;
}

module _ {Z : Type 0} (sets : SortedSets Z) (round : ℤ → ℤ) where
  -- `workers` is the answer of the table of workers.
  unfoldable pub dashboard :
      Database
      → (Text → Option Text)
      → Answer (List Worker)
      → List Text
      → List Row
      → Redis Z
      → Answer Stats
  unfolding stats queue_stats
  dashboard db queue_error workers names rows redis = elim (stats db rows) [
    | err message ↦ err message
    | ok (by_status, by_type) ↦ elim (queue_stats sets round queue_error names redis) [
      | err message ↦ err message
      | ok queues ↦ elim workers [
        | err message ↦ err message
        | ok fleet ↦ ok (to_stats by_status by_type queues fleet)
      ]
    ]
  ]
