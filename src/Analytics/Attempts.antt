-- ===== src/Analytics/Attempts.antt =====
-- What the panel of recent jobs makes of the jobs that the API serves
-- (web/src/components/JobAnalytics.jsx, internal/repository/job_repository.go).
use job_flow_web_application.Prelude.{
  ℕ, ◌≤◌, List, [], ◌∷◌, map, filter, length, some, ◌≡◌, All, refl, arith,
}
use job_flow_web_application.Prelude.Int.{ℤ}
use job_flow_web_application.Prelude.Text.{Text}
use job_flow_web_application.Model.{Platform}
use job_flow_web_application.Analytics.{analytics, has_retry_pressure}
use job_flow_web_application.Server.{completed, Row}
use job_flow_web_application.Server.Rows.{row_of}
use job_flow_web_application.Server.Wire.{to_job}
use job_flow_web_application.Server.Queue.{SortedSets, Redis}
use job_flow_web_application.Server.Steps.{World, start, Reach}
use job_flow_web_application.Server.Steps.Sound.{Reach-IsLawful}

All-pressed :
    (time_text : ℕ → Text) (rows : List Row)
    → All (λ row. 1 ≤ row.attempts) rows
    → length (filter has_retry_pressure (map (to_job time_text) rows)) ≡ length rows
unfolding to_job
All-pressed time_text [] h = refl
All-pressed time_text (row ∷ rows) (h, hs) = ground (arith, All-pressed time_text rows hs)

-- A job that the table holds and whose worker has finished it.
abbrev pub IsDone : List Row → Row → Type 0
IsDone rows row = (id : Text) × (row_of id rows ≡ some row) × (row.status ≡ completed)

module _ {Z : Type 0} (sets : SortedSets Z) (round : ℤ → ℤ) (convert : ℕ → ℤ) (redis : Redis Z)
    (w : World Z) (steps : Reach sets round convert (start redis) w) where
  All-attempted :
      (rows : List Row) → All (IsDone w.store.rows) rows → All (λ row. 1 ≤ row.attempts) rows
  All-attempted [] h = tt
  All-attempted (row ∷ rows) ((id, found, done), hs) =
      let sound = Reach-IsLawful sets round convert redis w steps id row found in
      let (once, few, ended, begun, clean) = rw done at sound in (once, All-attempted rows hs)

  -- Of the jobs that the server completed, each counts as retry pressure, also one that succeeded at
  -- its first attempt.
  pub retry_pressure-completed :
      (platform : Platform) (average_text : List ℕ → Text) (round_percent : ℕ → ℕ → ℕ) (now : ℤ)
      → (time_text : ℕ → Text) (rows : List Row) → All (IsDone w.store.rows) rows
      → (analytics platform average_text round_percent now
          (map (to_job time_text) rows)).retry_pressure
        ≡ length rows
  unfolding analytics
  retry_pressure-completed platform average_text round_percent now time_text rows h =
      All-pressed time_text rows (All-attempted rows h)
