-- ===== src/Server/Dashboard/Figures.antt =====
-- What the figures of the dashboard say of the table (internal/repository/job_repository.go,
-- internal/service/job_service.go), and what the app makes of them (web/src/hooks/useJobFlow.js).
use job_flow_web_application.Prelude.{
  ℕ, ◌+◌, ◌≤◌, List, [], ◌∷◌, map, Option, none, some, ◌≡◌, refl, sym, ◌∙◌, arith, length,
}
use job_flow_web_application.Prelude.Int.{ℤ}
use job_flow_web_application.Prelude.Text.{Text, txt}
use job_flow_web_application.Model.{Worker, Stats}
use job_flow_web_application.Health.{health, IsShare, health_lem}
use job_flow_web_application.Server.{
  scheduled, queued, running, completed, failed, cancelled, retrying, dead_letter, Row, ok,
  Database,
}
use job_flow_web_application.Server.Queue.{SortedSets, Redis, queue_key, dead_length, queue_stats}
use job_flow_web_application.Server.Dashboard.Counts.{
  count_of, count_status, count_all-length, statuses_of, by_status_lem, total_lem,
  value_at-group_counts, sum_counts-group_counts, length-map,
}
use job_flow_web_application.Server.Dashboard.{
  group_counts, value_at, sum_counts, with_total, to_stats, stats, dashboard,
}

-- The figures of a table: the total is the number of all jobs, each status and each type has the number
-- of its jobs, and the types add up to the total.
pub record AreFigures (f : Stats) (rows : List Row) : Type 0 where
  pub total_jobs : f.total_jobs ≡ length rows
  pub queued : f.queued ≡ count_status queued rows
  pub running : f.running ≡ count_status running rows
  pub completed : f.completed ≡ count_status completed rows
  pub failed : f.failed ≡ count_status failed rows
  pub retrying : f.retrying ≡ count_status retrying rows
  pub dead_letter : f.dead_letter ≡ count_status dead_letter rows
  pub by_type : (type : Text) → value_at type f.by_type ≡ count_of type (map (λ row. row.type) rows)
  pub types_total : sum_counts f.by_type ≡ f.total_jobs

abbrev pub figures_of : List Row → List (Text × ℕ × ℕ) → List Worker → Stats
figures_of rows queues fleet =
    to_stats (with_total (group_counts (statuses_of rows)))
      (group_counts (map (λ row. row.type) rows)) queues fleet

figures_of-AreFigures :
    (rows : List Row) (queues : List (Text × ℕ × ℕ)) (fleet : List Worker)
    → AreFigures (figures_of rows queues fleet) rows
figures_of-AreFigures rows queues fleet = record {
  total_jobs = total_lem rows;
  queued = by_status_lem queued rows;
  running = by_status_lem running rows;
  completed = by_status_lem completed rows;
  failed = by_status_lem failed rows;
  retrying = by_status_lem retrying rows;
  dead_letter = by_status_lem dead_letter rows;
  by_type = λ type. value_at-group_counts type (map (λ row. row.type) rows);
  types_total =
      sum_counts-group_counts (map (λ row. row.type) rows)
      ∙ length-map (λ row. row.type) rows
      ∙ sym (total_lem rows);
}

-- Every job has one status.
statuses-add :
    (f : Stats) (rows : List Row)
    → AreFigures f rows
    → f.queued
        + f.running
        + f.completed
        + f.failed
        + f.retrying
        + f.dead_letter
        + count_status scheduled rows
        + count_status cancelled rows
      ≡ f.total_jobs
statuses-add f rows are = omega (
  arith,
  are.total_jobs,
  are.queued,
  are.running,
  are.completed,
  are.failed,
  are.retrying,
  are.dead_letter,
  count_all-length rows,
)

module _ {Z : Type 0} (sets : SortedSets Z) (round : ℤ → ℤ) where
  queue_stats-ok :
      (error : Text → Option Text) (names : List Text) (redis : Redis Z)
      → ((name : Text) → error name ≡ none)
      → (figures : List (Text × ℕ × ℕ)) × (queue_stats sets round error names redis ≡ ok figures)
  unfolding queue_stats
  queue_stats-ok error [] redis works = ([], refl)
  queue_stats-ok error (name ∷ names) redis works =
      let (rest, e) = queue_stats-ok error names redis works in
      (
        (
          name,
          sets.zcard (redis.sets (queue_key name)),
          dead_length sets round (error (txt "dead-letter")) redis,
        )
            ∷ rest,
        rw (works name, queue_stats) (rw e refl),
      )

  -- With PostgreSQL and Redis at work, the dashboard is answered, its figures are those of the table,
  -- the jobs that no figure of a status counts are the scheduled and the cancelled ones, and so the
  -- success and failure rates that the app shows for it are at most 100, if its rounding keeps
  -- shares of the whole within 100.
  pub dashboard_lem :
      (round_percent : ℕ → ℕ → ℕ) (db : Database) (error : Text → Option Text) (fleet : List Worker)
      → (names : List Text) (rows : List Row) (redis : Redis Z) → db.fault ≡ none
      → ((name : Text) → error name ≡ none)
      → IsShare round_percent
      → (f : Stats) × (dashboard sets round db error (ok fleet) names rows redis ≡ ok f)
        × AreFigures f rows
        × (f.queued
              + f.running
              + f.completed
              + f.failed
              + f.retrying
              + f.dead_letter
              + count_status scheduled rows
              + count_status cancelled rows
            ≡ f.total_jobs)
        × ((health round_percent (some f)).success_rate ≤ 100)
        × ((health round_percent (some f)).failure_rate ≤ 100)
  unfolding dashboard stats
  dashboard_lem round_percent db error fleet names rows redis works queues_work share =
      let (queues, counted) = queue_stats-ok error names redis queues_work in
      let f = figures_of rows queues fleet in
      let are = figures_of-AreFigures rows queues fleet in
      let sum = statuses-add f rows are in
      let rates = health_lem round_percent f share (omega (arith, sum)) (omega (arith, sum)) in
      (f, rw (works, dashboard) (rw counted refl), are, sum, rates.0, rates.1)
