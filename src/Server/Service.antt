-- ===== src/Server/Service.antt =====
-- What the API does with jobs (internal/service/job_service.go): the table, the queues and the events
-- that are published.
pub mod Access
pub mod Creation
use job_flow_web_application.Prelude.{ℕ, List, [], ◌∷◌, ◌++◌, Option, none, some, if◌then◌else◌}
use job_flow_web_application.Prelude.Int.{ℤ, pos}
use job_flow_web_application.Prelude.Text.{Text, txt, is_empty, or_else}
use job_flow_web_application.Json.{Json, obj, end}
use job_flow_web_application.Server.{Row, is_queued, Answer, ok, err, Database}
use job_flow_web_application.Server.Repository.{
  CreateJobParams, create, find_job, cancel, requeue, ready_scheduled,
}
use job_flow_web_application.Server.Queue.{SortedSets, Redis, enqueue, promote_retries}

-- An event is its name and the identifier of its job.
pub record Store (Z : Type 0) : Type 0 where
  pub rows : List Row
  pub redis : Redis Z
  pub events : List (Text × Text)

abbrev pub publish : {Z : Type 0} → Text → Text → Store Z → Store Z
publish event id s = record s { events = s.events ++ (event, id) ∷ [] }

-- What may fail while the retries are promoted: the reading of those that are due, the removal of each
-- identifier, and the statement that finds its job.
pub record RetryFaults : Type 0 where
  pub range_error : Option Text
  pub rem_error : Text → Option Text
  pub find_db : Text → Database

-- The payload is `none` where its bytes are no JSON.
pub record CreateJobInput : Type 0 where
  pub user_id : Text
  pub queue : Text
  pub type : Text
  pub payload : Option Json
  pub priority : ℤ
  pub max_attempts : ℤ
  pub scheduled_at : Option ℕ

abbrev or_object : Option Json → Json
or_object none = obj end
or_object (some payload) = payload

abbrev or_three : ℤ → ℤ
or_three (pos ℕ.zero) = pos 3
or_three n = n

-- The defaults.
unfoldable pub params_of : CreateJobInput → CreateJobParams
params_of input = record {
  user_id = input.user_id;
  queue_name = or_else input.queue (txt "default");
  type = input.type;
  payload = or_object input.payload;
  priority = input.priority;
  max_attempts = or_three input.max_attempts;
  scheduled_at = input.scheduled_at;
}

module _ {Z : Type 0} (sets : SortedSets Z) (round : ℤ → ℤ) where
  -- What follows a statement that gives a job to enqueue: the job is put into its queue, and the event
  -- is published unless Redis fails.
  abbrev pub enqueue_and_publish : Option Text → ℕ → Text → Row → Store Z → Store Z × Answer Row
  enqueue_and_publish redis_error now event job s =
      let (redis, problem) = enqueue sets round redis_error now job s.redis in
      elim problem [
        | some message ↦ (record s { redis = redis }, err message)
        | none ↦ (publish event job.id (record s { redis = redis }), ok job)
      ]

  unfoldable pub create_job :
      Database → Option Text → Text → ℕ → CreateJobInput → Store Z → Store Z × Answer Row
  unfolding params_of create enqueue
  create_job db redis_error id now input s =
      if is_empty input.type
      then (s, err (txt "type is required"))
      else let (rows, answer) = create db id now (params_of input) s.rows in
        let inserted : Store Z = record s { rows = rows } in
        elim answer [
          | err message ↦ (inserted, err message)
          | ok job ↦
              if is_queued job.status
              then enqueue_and_publish redis_error now (txt "job.created") job inserted
              else (publish (txt "job.created") job.id inserted, ok job)
        ]

  unfoldable pub cancel_job : Database → Text → Text → ℕ → Store Z → Store Z × Option Text
  unfolding cancel
  cancel_job db id user now s =
      let (rows, answer) = cancel db id user now s.rows in
      let updated : Store Z = record s { rows = rows } in
      elim answer [
        | err message ↦ (updated, some message)
        | ok _ ↦ (publish (txt "job.cancelled") id updated, none)
      ]

  unfoldable pub retry_job :
      Database → Option Text → Text → Text → ℕ → Store Z → Store Z × Answer Row
  unfolding requeue enqueue
  retry_job db redis_error id user now s =
      let (rows, answer) = requeue db id user now s.rows in
      let updated : Store Z = record s { rows = rows } in
      elim answer [
        | err message ↦ (updated, err message)
        | ok job ↦ enqueue_and_publish redis_error now (txt "job.retried") job updated
      ]

  -- The loop of `PromoteScheduled`, which ends at the first failure of Redis.
  module _ (redis_error : Text → Option Text) (now : ℕ) where
    unfoldable pub enqueue_all : List Row → Store Z → Store Z × Option Text
    unfolding enqueue
    enqueue_all [] s = (s, none)
    enqueue_all (job ∷ jobs) s =
        let (redis, problem) = enqueue sets round (redis_error job.id) now job s.redis in
        let rest =
          enqueue_all jobs (publish (txt "job.queued") job.id (record s { redis = redis })) in
        elim problem [ some message ↦ (record s { redis = redis }, some message) | none ↦ rest ]

    unfoldable pub promote_scheduled : Database → RetryFaults → Store Z → Store Z × Option Text
    unfolding ready_scheduled enqueue_all promote_retries
    promote_scheduled db faults s =
        let (rows, answer) = ready_scheduled db now 100 s.rows in
        elim answer [
          | err message ↦ (record s { rows = rows }, some message)
          | ok jobs ↦
              let (queued, problem) = enqueue_all jobs (record s { rows = rows }) in
              elim problem [
                | some message ↦ (queued, some message)
                | none ↦
                    let (redis, failure) =
                      promote_retries sets round (λ id. find_job (faults.find_db id) id rows)
                        redis_error faults.rem_error now faults.range_error queued.redis in
                    (record queued { redis = redis }, failure)
              ]
        ]
