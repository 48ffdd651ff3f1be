-- ===== src/Server/Pool/Exhaustion.antt =====
-- A job that never succeeds (`handle` of internal/worker/pool.go, `MarkRunning` and `MarkFailed` of
-- internal/repository/job_repository.go).
use job_flow_web_application.Prelude.{
  ℕ, zero, suc, ◌+◌, ◌≤◌, ◌<◌, true, false, Option, none, some, ltb, ◌≡◌, refl, ap, arith,
  if◌then◌else◌,
}
use job_flow_web_application.Prelude.Int.{ℤ, pos, ltb_ℤ}
use job_flow_web_application.Prelude.Text.{Text}
use job_flow_web_application.Server.{
  Status, queued, retrying, dead_letter, Row, is_waiting, Database, ok, err,
}
use job_flow_web_application.Server.Rows.{row_of}
use job_flow_web_application.Server.Repository.{as_running, as_failed, mark_running, mark_failed}
use job_flow_web_application.Server.Queue.{SortedSets}
use job_flow_web_application.Server.Service.{Store}
use job_flow_web_application.Server.Repository.Queries.{query_row_found, query_row_refused}
use job_flow_web_application.Server.Evolution.Stores.{
  handle_start-rows, handle_start-job, handle_end-rows,
}
use job_flow_web_application.Server.Pool.{handle_start, handle_end}

module _ {Z : Type 0} (sets : SortedSets Z) (round : ℤ → ℤ) (convert : ℕ → ℤ) (db : Database)
    (works : db.fault ≡ none) (redis_error : Option Text) (id message : Text) (now : ℕ) where
  -- A worker takes the job, and its processor answers an error.
  unfoldable pub failing_run : Store Z → Store Z
  unfolding handle_start handle_end
  failing_run s =
      handle_end sets round convert db redis_error id now (some message)
        (handle_start sets round convert db id now s).0

  unfoldable pub failing_runs : ℕ → Store Z → Store Z
  unfolding failing_run
  failing_runs zero s = s
  failing_runs (suc n) s = failing_run (failing_runs n s)

  failing_run-row :
      (s : Store Z) (row : Row)
      → row_of id s.rows ≡ some row
      → is_waiting row.status ≡ true
      → row_of id (failing_run s).rows ≡ some (as_failed message now (as_running now row))
  unfolding failing_run mark_running mark_failed
  failing_run-row s row found waits =
      let started =
        query_row_found db works id (λ r. is_waiting r.status) (as_running now) s.rows row
          (λ r. refl) found waits in
      rw
        (handle_end-rows sets round convert db redis_error id now (some message)
          (handle_start sets round convert db id now s).0)
        (query_row_found db works id (λ r. true) (as_failed message now) _ (as_running now row)
          (λ r. refl) (rw (handle_start-rows sets round convert db id now s) started) refl)

  abbrev pub HasFailed : ℕ → Status → Row → Type 0
  HasFailed k status row =
      (row.status ≡ status) × (row.attempts ≡ k) × (row.error_message ≡ some message)

  -- The status after k failing runs of a job that may be tried m + 1 times.
  abbrev pub status_after : ℕ → ℕ → Status
  status_after m k = if ltb k (suc m) then retrying else dead_letter

  again :
      (m k : ℕ) (s : Store Z) (row : Row)
      → row_of id s.rows ≡ some row
      → is_waiting row.status ≡ true
      → row.attempts ≡ k
      → row.max_attempts ≡ pos (suc m)
      → (r : Row) × (row_of id (failing_run s).rows ≡ some r)
        × (r.max_attempts ≡ pos (suc m))
        × HasFailed (suc k) (status_after m (suc k)) r
  again m k s row found waits tried limit =
      let count : row.attempts + 1 ≡ suc k = omega arith in
      let test : ltb_ℤ (pos (row.attempts + 1)) row.max_attempts ≡ ltb (suc k) (suc m) =
        rw (limit, count) (ground arith) in
      (
        as_failed message now (as_running now row),
        failing_run-row s row found waits,
        limit,
        (ap (λ b. if b then retrying else dead_letter) test, count, refl),
      )

  is_waiting_after : (m k : ℕ) (s : Status) → k < suc m → s ≡ status_after m k → is_waiting s ≡ true
  is_waiting_after m k s less is =
      let test : ltb k (suc m) ≡ true = ground arith in rw (is, test) refl

  module _ (s : Store Z) (row : Row) (m : ℕ) (found : row_of id s.rows ≡ some row)
      (new : row.status ≡ queued) (untried : row.attempts ≡ 0)
      (limit : row.max_attempts ≡ pos (suc m)) where
    failed_times :
        (k : ℕ)
        → k ≤ m
        → (r : Row) × (row_of id (failing_runs (suc k) s).rows ≡ some r)
          × (r.max_attempts ≡ pos (suc m))
          × HasFailed (suc k) (status_after m (suc k)) r
    unfolding failing_runs
    failed_times zero le = again m 0 s row found (rw new refl) untried limit
    failed_times (suc k) le =
        let (r, there, limited, (status, count, error)) = failed_times k (omega arith) in
        again m (suc k) (failing_runs (suc k) s) r there
          (is_waiting_after m (suc k) r.status (omega arith) status) count limited

    -- With PostgreSQL at work, a queued job that may be tried m + 1 times and whose every run fails: it
    -- is "retrying" after each of the first m runs and "dead_letter" after the last, with as many
    -- attempts as runs and the message of the error; and then no worker can take it again.
    pub failing_runs_lem :
        ((k : ℕ)
          → k ≤ m
          → (r : Row) × (row_of id (failing_runs (suc k) s).rows ≡ some r)
            × HasFailed (suc k) (if ltb k m then retrying else dead_letter) r)
        × ((later : ℕ)
            → (handle_start sets round convert db id later (failing_runs (suc m) s)).1 ≡ none)
    unfolding mark_running
    failing_runs_lem = (
      (λ k le.
          let (r, there, limited, (status, count, error)) = failed_times k le in
          let test : ltb (suc k) (suc m) ≡ ltb k m = ground arith in
          (r, there, (rw test at status, count, error))),
      λ later.
          let (r, there, limited, (status, count, error)) = failed_times m (omega arith) in
          let test : ltb (suc m) (suc m) ≡ false = ground arith in
          let dead : r.status ≡ dead_letter = rw test at status in
          let refused =
            query_row_refused db works id (λ row. is_waiting row.status) (as_running later)
              (failing_runs (suc m) s).rows
              (λ other at_id. let this : other ≡ r = cc in rw (this, dead) refl) in
          rw (handle_start-job sets round convert db id later (failing_runs (suc m) s))
            (ap (λ q. elim q.1 [ err _ ↦ none | ok job ↦ some job ]) refused),
    )
