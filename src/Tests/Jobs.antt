-- ===== src/Tests/Jobs.antt =====
-- The queues, the service and the dashboard of the server at concrete inputs.
use native.Mathlib.Nat.{div-lt_iff_lt-mul}
use job_flow_web_application.Prelude.{
  ℕ, suc, ◌+◌, ◌-◌, ◌*◌, ◌/◌, ◌≤◌, ◌<◌, List, [], ◌∷◌, ◌++◌, length, All, true, false, ◌&&◌, ◌||◌,
  none, some, ◌≡◌, ◌↔◌, refl, sym, arith, ltb, if◌then◌else◌,
}
use job_flow_web_application.Prelude.Int.{pos, neg_part, ◌≤ℤ◌}
use job_flow_web_application.Prelude.Text.{txt, ◌==◌, is_empty}
use job_flow_web_application.Model.{Stats}
use job_flow_web_application.Health.{IsShare, health}
use job_flow_web_application.Sort.Laws.{IsSorted}
use job_flow_web_application.Server.{
  Row, queued, retrying, dead_letter, scheduled, cancelled, status_text, ok, err,
}
use job_flow_web_application.Server.Rows.{row_of}
use job_flow_web_application.Server.Repository.{
  is_owner, is_after, new_row, find_job, list_jobs, by_newest,
}
use job_flow_web_application.Server.Queue.{queue_key, score_of, dequeue}
use job_flow_web_application.Server.Queue.Order.{score_of-le_iff, Popped, dequeue-Popped}
use job_flow_web_application.Server.Service.{Store, create_job, params_of}
use job_flow_web_application.Server.Service.Access.{list_jobs_lem}
use job_flow_web_application.Server.Handlers.{error, handle_get, handle_cancel, handle_retry}
use job_flow_web_application.Server.Handlers.Refused.{handlers-refused}
use job_flow_web_application.Server.Service.Creation.{
  IsInsertable, created, create_job_lem, create_job-half,
}
use job_flow_web_application.Server.Pool.{pow_two, delay_of, handle_start}
use job_flow_web_application.Server.Pool.Backoff.{delay_of_lem}
use job_flow_web_application.Server.Pool.Exhaustion.{failing_runs, HasFailed, failing_runs_lem}
use job_flow_web_application.Server.Dashboard.{dashboard}
use job_flow_web_application.Server.Dashboard.Figures.{AreFigures, dashboard_lem}
use job_flow_web_application.Server.Dashboard.Counts.{count_status}
use job_flow_web_application.Tests.Sets.{Members, sets, sets-IsSortedSets}
use job_flow_web_application.Tests.Worlds.{
  round, convert, db, redis, input, id, new_world, created_row, default,
}

abbrev store : Store Members
store = record { rows = []; redis = redis; events = [] }

insertable : IsInsertable sets round db id 7 input store
unfolding params_of row_of txt
insertable = (refl, refl, refl, refl)

create_job_lem_example :
    ((create_job sets round db none id 7 input store).1
      ≡ ok (created sets round db id 7 input store))
    × (find_job db id (create_job sets round db none id 7 input store).0.rows
        ≡ ok (created sets round db id 7 input store))
    × ((create_job sets round db none id 7 input store).0.events
        ≡ [] ++ (txt "job.created", id) ∷ [])
    × (is_after input.scheduled_at 7 ≡ false
        → sets.score id (
            (create_job sets round db none id 7 input store).0.redis.sets
              (queue_key (created sets round db id 7 input store).queue_name))
          ≡ some (score_of round (created sets round db id 7 input store).priority 7))
    × (is_after input.scheduled_at 7 ≡ true
        → (create_job sets round db none id 7 input store).0.redis ≡ redis)
create_job_lem_example = create_job_lem sets round db id 7 input store sets-IsSortedSets insertable

create_job-half_example :
    ((create_job sets round db (some (txt "EOF")) id 7 input store).1 ≡ err (txt "EOF"))
    × (row_of id (create_job sets round db (some (txt "EOF")) id 7 input store).0.rows
        ≡ some (created sets round db id 7 input store))
    × ((created sets round db id 7 input store).status ≡ queued)
    × ((create_job sets round db (some (txt "EOF")) id 7 input store).0.redis ≡ redis)
    × ((create_job sets round db (some (txt "EOF")) id 7 input store).0.events ≡ [])
create_job-half_example = create_job-half sets round db id 7 input store (txt "EOF") insertable refl

abbrev one_job : Store Members
one_job = record { rows = created_row ∷ []; redis = redis; events = [] }

of_another :
    (row : Row) → row_of id (created_row ∷ []) ≡ some row → is_owner db (txt "v") row ≡ false
unfolding row_of new_row params_of txt ◌==◌
of_another row found = let same : created_row ≡ row = cc in rw (sym same) refl

handlers-refused_example :
    (handle_get db id (txt "v") one_job.rows ≡ error 404 (txt "job not found"))
    × (handle_cancel sets round db id (txt "v") 9 one_job ≡ (one_job, error 400 db.no_rows))
    × (handle_retry sets round db none id (txt "v") 9 one_job ≡ (one_job, error 400 db.no_rows))
handlers-refused_example =
    handlers-refused sets round db none id (txt "v") 9 one_job refl of_another

list_jobs_lem_example :
    (jobs : List Row) × (list_jobs db (txt "u") (txt "queued") (pos 500) (created_row ∷ [])
      ≡ ok jobs)
    × (length jobs ≤ 100)
    × All
        (λ row.
          (is_owner db (txt "u") row
            && (is_empty (txt "queued") || status_text row.status == txt "queued"))
          ≡ true)
        jobs
    × IsSorted (by_newest db) jobs
list_jobs_lem_example = list_jobs_lem db (txt "u") (txt "queued") (pos 500) (created_row ∷ []) refl

score_of-le_iff_example :
    (score_of round (pos 5) 20 ≤ℤ score_of round (pos 4) 10)
    ↔ (20 + (4 + 0) * 1000000000 ≤ 10 + (5 + 0) * 1000000000)
score_of-le_iff_example =
    score_of-le_iff round (pos 5) (pos 4) 20 10 (λ n high low. refl)
      (omega arith, omega arith, omega arith) (omega arith, omega arith, omega arith)

dequeue-Popped_example :
    Popped sets round sets-IsSortedSets new_world.store.redis
      (default ∷ [])
      (dequeue sets round (default ∷ []) new_world.store.redis)
dequeue-Popped_example =
    dequeue-Popped sets round sets-IsSortedSets new_world.store.redis (default ∷ [])

delay_of_lem_example :
    ((attempts : ℕ)
      → 1 ≤ attempts
      → attempts ≤ 34
      → delay_of convert attempts ≡ pos (pow_two (attempts - 1) * 1000000000))
    × (0 < neg_part (delay_of convert 35))
delay_of_lem_example = delay_of_lem convert (λ n small. refl)

one_found : row_of id one_job.rows ≡ some created_row
unfolding row_of new_row params_of txt ◌==◌
one_found = refl

failing_runs_lem_example :
    ((k : ℕ)
      → k ≤ 1
      → (r : Row) × (row_of id
            (failing_runs sets round convert db refl none id (txt "boom") 9 (suc k) one_job).rows
          ≡ some r)
        × HasFailed sets round convert db refl none id
            (txt "boom")
            9
            (suc k)
            (if ltb k 1 then retrying else dead_letter)
            r)
    × ((later : ℕ)
        → (handle_start sets round convert db id later
            (failing_runs sets round convert db refl none id (txt "boom") 9 2 one_job)).1
          ≡ none)
unfolding new_row params_of
failing_runs_lem_example =
    failing_runs_lem sets round convert db refl none id (txt "boom") 9 one_job created_row 1
      one_found refl refl refl

abbrev nearest : ℕ → ℕ → ℕ
nearest part whole = (200 * part + whole) / (2 * whole)

nearest-IsShare : IsShare nearest
nearest-IsShare part whole pos_whole h =
    let below : nearest part whole < 101 = (div-lt_iff_lt-mul (omega arith)).1 (omega arith) in
    omega arith

dashboard_lem_example :
    (f : Stats) × (dashboard sets round db
        (λ name. none)
        (ok [])
        (default ∷ [])
        (created_row ∷ [])
        redis
      ≡ ok f)
    × AreFigures f (created_row ∷ [])
    × (f.queued
          + f.running
          + f.completed
          + f.failed
          + f.retrying
          + f.dead_letter
          + count_status scheduled (created_row ∷ [])
          + count_status cancelled (created_row ∷ [])
        ≡ f.total_jobs)
    × ((health nearest (some f)).success_rate ≤ 100)
    × ((health nearest (some f)).failure_rate ≤ 100)
dashboard_lem_example =
    dashboard_lem sets round nearest db (λ name. none) [] (default ∷ []) (created_row ∷ []) redis
      refl (λ name. refl) nearest-IsShare
