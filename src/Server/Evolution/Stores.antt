-- ===== src/Server/Evolution/Stores.antt =====
-- The table after each operation of the service and of a worker is the one that its statement on the
-- table leaves (internal/service/job_service.go, internal/worker/pool.go).
use job_flow_web_application.Prelude.{
  ℕ, List, [], ◌∷◌, Option, none, some, Option-cases, Bool-cases, ◌≡◌, ◌⊎◌, inl, inr, refl,
  if◌then◌else◌,
}
use job_flow_web_application.Prelude.Int.{ℤ}
use job_flow_web_application.Prelude.Text.{Text, txt, is_empty}
use job_flow_web_application.Server.{Row, Answer, ok, err, Database, is_queued, is_retrying}
use job_flow_web_application.Server.Repository.{
  create, cancel, mark_running, mark_completed, mark_failed, requeue, ready_scheduled,
}
use job_flow_web_application.Server.Queue.{SortedSets, enqueue}
use job_flow_web_application.Server.Service.{
  RetryFaults, Store, CreateJobInput, params_of, enqueue_and_publish, create_job, cancel_job,
  retry_job, enqueue_all, promote_scheduled,
}
use job_flow_web_application.Server.Pool.{handle_start, handle_end}

pub Answer-cases :
    {A : Type 0} (a : Answer A) → ((x : A) × (a ≡ ok x)) ⊎ ((message : Text) × (a ≡ err message))
Answer-cases (ok x) = inl (x, refl)
Answer-cases (err message) = inr (message, refl)

module _ {Z : Type 0} (sets : SortedSets Z) (round : ℤ → ℤ) (convert : ℕ → ℤ) (db : Database) where
  enqueue_and_publish-rows :
      (redis_error : Option Text) (now : ℕ) (event : Text) (job : Row) (s : Store Z)
      → (enqueue_and_publish sets round redis_error now event job s).0.rows ≡ s.rows
  unfolding enqueue
  enqueue_and_publish-rows none now event job s = refl
  enqueue_and_publish-rows (some message) now event job s = refl

  pub create_job-rows :
      (redis_error : Option Text) (id : Text) (now : ℕ) (input : CreateJobInput) (s : Store Z)
      → (create_job sets round db redis_error id now input s).0.rows
        ≡ (if is_empty input.type then s.rows else (create db id now (params_of input) s.rows).0)
  unfolding create_job
  create_job-rows redis_error id now input s = elim (Bool-cases (is_empty input.type)) [
    | inl empty ↦ rw empty refl
    | inr typed ↦ rw typed (elim (Answer-cases (create db id now (params_of input) s.rows).1) [
      | inr (message, e) ↦ rw e refl
      | inl (job, e) ↦ rw e (elim (Bool-cases (is_queued job.status)) [
        | inl waits ↦ rw waits (enqueue_and_publish-rows redis_error now (txt "job.created") job _)
        | inr later ↦ rw later refl
      ])
    ])
  ]

  pub cancel_job-rows :
      (id user : Text) (now : ℕ) (s : Store Z)
      → (cancel_job sets round db id user now s).0.rows ≡ (cancel db id user now s.rows).0
  unfolding cancel_job
  cancel_job-rows id user now s = elim (Answer-cases (cancel db id user now s.rows).1) [
    | inr (message, e) ↦ rw (e, cancel_job) refl
    | inl (job, e) ↦ rw (e, cancel_job) refl
  ]

  pub retry_job-rows :
      (redis_error : Option Text) (id user : Text) (now : ℕ) (s : Store Z)
      → (retry_job sets round db redis_error id user now s).0.rows
        ≡ (requeue db id user now s.rows).0
  unfolding retry_job
  retry_job-rows redis_error id user now s = elim (Answer-cases (requeue db id user now s.rows).1) [
    | inr (message, e) ↦ rw (e, retry_job) refl
    | inl (job, e) ↦
        rw (e, retry_job) (enqueue_and_publish-rows redis_error now (txt "job.retried") job _)
  ]

  enqueue_all-rows :
      (redis_error : Text → Option Text) (now : ℕ) (jobs : List Row) (s : Store Z)
      → (enqueue_all sets round redis_error now jobs s).0.rows ≡ s.rows
  unfolding enqueue_all
  enqueue_all-rows redis_error now [] s = refl
  enqueue_all-rows redis_error now (job ∷ jobs) s =
      elim (Option-cases (enqueue sets round (redis_error job.id) now job s.redis).1) [
        | inr (message, e) ↦ rw (e, enqueue_all) refl
        | inl e ↦ rw (e, enqueue_all) (enqueue_all-rows redis_error now jobs _)
      ]

  pub promote_scheduled-rows :
      (redis_error : Text → Option Text) (faults : RetryFaults) (now : ℕ) (s : Store Z)
      → (promote_scheduled sets round redis_error now db faults s).0.rows
        ≡ (ready_scheduled db now 100 s.rows).0
  unfolding promote_scheduled
  promote_scheduled-rows redis_error faults now s =
      let promoted : Store Z = record s { rows = (ready_scheduled db now 100 s.rows).0 } in
      elim (Answer-cases (ready_scheduled db now 100 s.rows).1) [
        | inr (message, e) ↦ rw (e, promote_scheduled) refl
        | inl (jobs, e) ↦
            rw (e, promote_scheduled)
              (elim (Option-cases (enqueue_all sets round redis_error now jobs promoted).1) [
                | inr (message, f) ↦ rw f (enqueue_all-rows redis_error now jobs promoted)
                | inl f ↦ rw f (enqueue_all-rows redis_error now jobs promoted)
              ])
      ]

  pub handle_start-rows :
      (id : Text) (now : ℕ) (s : Store Z)
      → (handle_start sets round convert db id now s).0.rows ≡ (mark_running db id now s.rows).0
  unfolding handle_start
  handle_start-rows id now s = elim (Answer-cases (mark_running db id now s.rows).1) [
    | inr (message, e) ↦ rw (e, handle_start) refl
    | inl (job, e) ↦ rw (e, handle_start) refl
  ]

  pub handle_start-job :
      (id : Text) (now : ℕ) (s : Store Z)
      → (handle_start sets round convert db id now s).1
        ≡ elim (mark_running db id now s.rows).1 [ err _ ↦ none | ok job ↦ some job ]
  unfolding handle_start
  handle_start-job id now s = elim (Answer-cases (mark_running db id now s.rows).1) [
    | inr (message, e) ↦ rw (e, handle_start) refl
    | inl (job, e) ↦ rw (e, handle_start) refl
  ]

  pub handle_end-rows :
      (redis_error : Option Text) (id : Text) (now : ℕ) (outcome : Option Text) (s : Store Z)
      → (handle_end sets round convert db redis_error id now outcome s).rows ≡ elim outcome [
        | none ↦ mark_completed db id now s.rows
        | some message ↦ (mark_failed db id message now s.rows).0
      ]
  unfolding handle_end
  handle_end-rows redis_error id now none s = refl
  handle_end-rows redis_error id now (some message) s =
      elim (Answer-cases (mark_failed db id message now s.rows).1) [
        | inr (error, e) ↦ rw (e, handle_end) refl
        | inl (job, e) ↦
            rw (e, handle_end)
              (elim (Bool-cases (is_retrying job.status)) [
                | inl again ↦ rw again refl
                | inr dead ↦ rw dead refl
              ])
      ]
