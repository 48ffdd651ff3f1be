-- ===== src/Health.antt =====
-- The health figures of the app (web/src/hooks/useJobFlow.js) and their panels
-- (web/src/components/HealthPanel.jsx, web/src/components/StatsStrip.jsx).
use job_flow_web_application.Prelude.{
  ℕ, ◌+◌, ◌≤◌, ◌<◌, List, [], ◌∷◌, Bool, ◌||◌, Option, none, some, ◌≡◌, arith, length, eqb, ltb,
  Bool-cases, inl, inr, if◌then◌else◌,
}
use job_flow_web_application.Prelude.Text.{Text, txt}
use job_flow_web_application.Model.{Stats}
use job_flow_web_application.Insights.{queues_of, waiting_total}
use job_flow_web_application.Workers.{online, offline}
use job_flow_web_application.Workers.Fleet.{online-add-offline}

pub record Health : Type 0 where
  pub success_rate : ℕ
  pub failure_rate : ℕ
  pub active_workers : ℕ

-- `(stats?.failed || 0) + (stats?.dead_letter || 0)`
unfoldable pub failures : Option Stats → ℕ
failures none = 0
failures (some stats) = stats.failed + stats.dead_letter

unfoldable pub strip_items : Option Stats → List (Text × ℕ)
unfolding failures
strip_items none =
    (txt "Total", 0)
    ∷ (txt "Queued", 0)
    ∷ (txt "Running", 0)
    ∷ (txt "Completed", 0)
    ∷ (txt "Retrying", 0)
    ∷ (txt "Failed", 0)
    ∷ []
strip_items (some stats) =
    (txt "Total", stats.total_jobs)
    ∷ (txt "Queued", stats.queued)
    ∷ (txt "Running", stats.running)
    ∷ (txt "Completed", stats.completed)
    ∷ (txt "Retrying", stats.retrying)
    ∷ (txt "Failed", failures (some stats))
    ∷ []

-- `Math.round((part / whole) * 100)`, on floating-point numbers, is the platform's.
module _ (round_percent : ℕ → ℕ → ℕ) where
  unfoldable pub rate : ℕ → ℕ → ℕ
  rate part total = if eqb total 0 then 0 else round_percent part total

  unfoldable pub health : Option Stats → Health
  unfolding rate failures
  health none = record { success_rate = 0; failure_rate = 0; active_workers = 0 }
  health (some stats) = record {
    success_rate = rate stats.completed stats.total_jobs;
    failure_rate = rate (failures (some stats)) stats.total_jobs;
    active_workers = online stats.workers;
  }

  unfoldable pub needs_attention : Option Stats → Bool
  needs_attention stats =
      ltb 25 (health stats).failure_rate || ltb 100 (waiting_total (queues_of stats))

  -- A share of at most the whole is at most 100 per cent.
  abbrev pub IsShare : Type 0
  IsShare = (part whole : ℕ) → 0 < whole → part ≤ whole → round_percent part whole ≤ 100

  rate-le : (part total : ℕ) → IsShare → part ≤ total → rate part total ≤ 100
  unfolding rate
  rate-le part total share h = elim (Bool-cases (eqb total 0)) [
    | inl nothing ↦ rw nothing (omega arith)
    | inr jobs ↦ rw jobs (share part total (ground arith) h)
  ]

  -- If the rounding keeps shares of the whole within 100, and the completed and the failed and dead
  -- jobs are no more than all jobs, then both rates are at most 100, and the active workers with the
  -- offline ones of the worker page are all workers.
  pub health_lem :
      (stats : Stats)
      → IsShare
      → stats.completed ≤ stats.total_jobs
      → stats.failed + stats.dead_letter ≤ stats.total_jobs
      → ((health (some stats)).success_rate ≤ 100)
        × ((health (some stats)).failure_rate ≤ 100)
        × ((health (some stats)).active_workers + offline stats.workers ≡ length stats.workers)
  unfolding health failures
  health_lem stats share completed failed = (
    rate-le stats.completed stats.total_jobs share completed,
    rate-le (stats.failed + stats.dead_letter) stats.total_jobs share failed,
    online-add-offline stats.workers,
  )
