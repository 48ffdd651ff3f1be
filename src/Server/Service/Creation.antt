-- ===== src/Server/Service/Creation.antt =====
-- A job that a user creates (`Create` of internal/service/job_service.go), in the table and in the queues.
use job_flow_web_application.Prelude.{
  ℕ, [], ◌∷◌, ◌++◌, Bool, true, false, Option, none, some, ◌≡◌, inl, inr, Bool-cases, refl, arith,
  ap, ◌∙◌, if◌then◌else◌,
}
use job_flow_web_application.Prelude.Int.{ℤ}
use job_flow_web_application.Prelude.Text.{Text, txt, is_empty, eq_refl}
use job_flow_web_application.Server.{queued, is_queued, Row, ok, err, Database}
use job_flow_web_application.Server.Rows.{row_of}
use job_flow_web_application.Server.Repository.{fits, is_after, new_row, create, find_job}
use job_flow_web_application.Server.Queue.{SortedSets, IsSortedSets, queue_key, score_of, enqueue}
use job_flow_web_application.Server.Service.{
  Store, CreateJobInput, params_of, publish, enqueue_and_publish, create_job,
}
use job_flow_web_application.Server.Evolution.{row_of-append}

unlike : {b : Bool} → b ≡ false → b ≡ true → ⊥
unlike ready later = ground (arith, ready, later)

module _ {Z : Type 0} (sets : SortedSets Z) (round : ℤ → ℤ) (db : Database) (id : Text) (now : ℕ)
    (input : CreateJobInput) (s : Store Z) where
  -- What the table must have for the insertion to work.
  abbrev pub IsInsertable : Type 0
  IsInsertable =
      (db.fault ≡ none)
      × (is_empty input.type ≡ false)
      × (fits (params_of input) ≡ true)
      × (row_of id s.rows ≡ none)

  abbrev pub created : Row
  created = new_row id now (params_of input)

  inserted :
      IsInsertable
      → create db id now (params_of input) s.rows ≡ (s.rows ++ created ∷ [], ok created)
  unfolding create
  inserted (works, typed, good, fresh) = rw (works, create) (rw good refl)

  row_of-created : IsInsertable → row_of id (s.rows ++ created ∷ []) ≡ some created
  unfolding new_row
  row_of-created (works, typed, good, fresh) =
      row_of-append id s.rows created ∙ rw fresh (rw (eq_refl id) refl)

  create_job_inserted :
      (redis_error : Option Text)
      → IsInsertable
      → create_job sets round db redis_error id now input s ≡ (
          if is_queued created.status
          then enqueue_and_publish sets round redis_error now
              (txt "job.created")
              created
              (record s { rows = s.rows ++ created ∷ [] })
          else (
            publish (txt "job.created") created.id (record s { rows = s.rows ++ created ∷ [] }),
            ok created,
          ))
  unfolding create_job
  create_job_inserted redis_error insertable =
      let e = inserted insertable in
      rw (insertable.1, create_job) (rw (ap (λ r. r.1) e) (rw (ap (λ r. r.0) e) refl))

  created-id : created.id ≡ id
  unfolding new_row
  created-id = refl

  ready-status : is_after input.scheduled_at now ≡ false → created.status ≡ queued
  unfolding new_row params_of
  ready-status ready = rw ready refl

  later-status : is_after input.scheduled_at now ≡ true → is_queued created.status ≡ false
  unfolding new_row params_of
  later-status later = rw later refl

  found-created : IsInsertable → find_job db id (s.rows ++ created ∷ []) ≡ ok created
  unfolding find_job
  found-created insertable = rw (insertable.0, find_job) (rw (row_of-created insertable) refl)

  -- With Redis and PostgreSQL at work, a job with a type and with texts and numbers that fit is created:
  -- it is answered, it is what its identifier then finds, one event is published, and if it is for
  -- now, its queue holds it with its score, while one for later leaves the queues as they are.
  pub create_job_lem :
      IsSortedSets sets
      → IsInsertable
      → ((create_job sets round db none id now input s).1 ≡ ok created)
        × (find_job db id (create_job sets round db none id now input s).0.rows ≡ ok created)
        × ((create_job sets round db none id now input s).0.events
            ≡ s.events ++ (txt "job.created", id) ∷ [])
        × (is_after input.scheduled_at now ≡ false
            → sets.score id (
                (create_job sets round db none id now input s).0.redis.sets
                  (queue_key created.queue_name))
              ≡ some (score_of round created.priority now))
        × (is_after input.scheduled_at now ≡ true
            → (create_job sets round db none id now input s).0.redis ≡ s.redis)
  unfolding enqueue
  create_job_lem laws insertable =
      let found = found-created insertable in
      rw (create_job_inserted none insertable)
        (elim (Bool-cases (is_after input.scheduled_at now)) [
          | inr ready ↦
              let waits : is_queued created.status ≡ true = rw (ready-status ready) refl in
              rw waits (
                refl,
                found,
                ap (λ i. s.events ++ (txt "job.created", i) ∷ []) created-id,
                λ _.
                    rw (eq_refl (queue_key created.queue_name))
                      (laws.score-zadd _ created.id id _ ∙ rw (created-id, eq_refl id) refl),
                λ later. absurd (unlike ready later),
              )
          | inl later ↦ rw (later-status later) (
            refl,
            found,
            ap (λ i. s.events ++ (txt "job.created", i) ∷ []) created-id,
            (λ ready. absurd (unlike ready later)),
            λ _. refl,
          )
        ])

  -- With Redis failing, the answer is its error, but the job stays in the table as queued, while no queue
  -- holds more than before and no event is published.
  pub create_job-half :
      (message : Text)
      → IsInsertable
      → is_after input.scheduled_at now ≡ false
      → ((create_job sets round db (some message) id now input s).1 ≡ err message)
        × (row_of id (create_job sets round db (some message) id now input s).0.rows ≡ some created)
        × (created.status ≡ queued)
        × ((create_job sets round db (some message) id now input s).0.redis ≡ s.redis)
        × ((create_job sets round db (some message) id now input s).0.events ≡ s.events)
  unfolding enqueue
  create_job-half message insertable ready =
      let waits : is_queued created.status ≡ true = rw (ready-status ready) refl in
      rw (create_job_inserted (some message) insertable)
        (rw waits (refl, row_of-created insertable, ready-status ready, refl, refl))
