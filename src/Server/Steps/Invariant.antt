-- ===== src/Server/Steps/Invariant.antt =====
-- Every step of the server keeps one worker per job and one row per identifier, and moves the jobs as
-- their life allows (cmd/api/main.go, internal/worker/pool.go, internal/service/job_service.go).
use job_flow_web_application.Prelude.{
  ℕ, List, Option, none, some, Bool-cases, ◌≡◌, inl, inr, refl, arith,
}
use job_flow_web_application.Prelude.Int.{ℤ}
use job_flow_web_application.Prelude.Text.{Text, ◌==◌, is_empty, eq_refl}
use job_flow_web_application.Server.{Row, Database}
use job_flow_web_application.Server.Rows.{row_of}
use job_flow_web_application.Server.Queue.{SortedSets, Redis}
use job_flow_web_application.Server.Service.{
  RetryFaults, Store, CreateJobInput, params_of, create_job, cancel_job, retry_job,
  promote_scheduled,
}
use job_flow_web_application.Server.Life.{Outer, same}
use job_flow_web_application.Server.Evolution.{
  EvolveAll, create-EvolveAll, cancel-EvolveAll, requeue-EvolveAll,
}
use job_flow_web_application.Server.Evolution.Promotion.{ready_scheduled-EvolveAll}
use job_flow_web_application.Server.Evolution.Keys.{
  IsKeyed, create-IsKeyed, cancel-ids, mark_running-ids, mark_completed-ids, mark_failed-ids,
  requeue-ids, ready_scheduled-ids,
}
use job_flow_web_application.Server.Evolution.Stores.{
  create_job-rows, cancel_job-rows, retry_job-rows, promote_scheduled-rows, handle_start-rows,
  handle_start-job, handle_end-rows,
}
use job_flow_web_application.Server.Steps.{
  bump, drop_one, World, start, Step, creates, cancels, retries, promotes, pops, claims, ends,
  stops, forgets, Reach, here, next,
}
use job_flow_web_application.Server.Steps.Held.{
  Occupied, Occupied-Outer, Occupied-drop, mark_running-Occupied, mark_completed-Occupied,
  mark_failed-Occupied,
}

-- Identifiers are distinct, and a job is run by no worker, or by one, its row being "running".
abbrev pub IsHeld : {Z : Type 0} → World Z → Type 0
IsHeld w = IsKeyed w.store.rows × ((id : Text) → Occupied w.store.rows id (w.running id))

-- The tables that a statement can leave where no worker's run ends.
abbrev pub IsOuter : (Text → ℕ) → (Text → ℕ) → List Row → List Row → Type 0
IsOuter f f' rows rows' = IsKeyed rows' × EvolveAll Outer f f' rows rows'

module _ {Z : Type 0} (sets : SortedSets Z) (round : ℤ → ℤ) (convert : ℕ → ℤ) where
  pub create_job-IsOuter :
      (db : Database) (redis_error : Option Text) (id : Text) (now : ℕ) (input : CreateJobInput)
      → (s : Store Z) (f : Text → ℕ) → row_of id s.rows ≡ none
      → IsKeyed s.rows
      → IsOuter f f s.rows (create_job sets round db redis_error id now input s).0.rows
  create_job-IsOuter db redis_error id now input s f fresh keyed =
      rw (create_job-rows sets round convert db redis_error id now input s)
        (elim (Bool-cases (is_empty input.type)) [
          | inl untyped ↦ rw untyped (keyed, λ other. same refl)
          | inr typed ↦ rw typed (
            create-IsKeyed db id now (params_of input) s.rows fresh keyed,
            create-EvolveAll db id now (params_of input) s.rows f,
          )
        ])

  pub cancel_job-IsOuter :
      (db : Database) (id user : Text) (now : ℕ) (s : Store Z) (f : Text → ℕ)
      → IsKeyed s.rows
      → IsOuter f f s.rows (cancel_job sets round db id user now s).0.rows
  cancel_job-IsOuter db id user now s f keyed =
      rw (cancel_job-rows sets round convert db id user now s)
        (rw (cancel-ids db s.rows id user now) keyed, cancel-EvolveAll db id now s.rows f user)

  pub retry_job-IsOuter :
      (db : Database) (redis_error : Option Text) (id user : Text) (now : ℕ) (s : Store Z)
      → (f : Text → ℕ) → IsKeyed s.rows
      → IsOuter f (bump id f) s.rows (retry_job sets round db redis_error id user now s).0.rows
  retry_job-IsOuter db redis_error id user now s f keyed =
      rw (retry_job-rows sets round convert db redis_error id user now s) (
        rw (requeue-ids db s.rows id user now) keyed,
        requeue-EvolveAll db id now s.rows f user (bump id f) (rw (eq_refl id) (omega arith)),
      )

  pub promote_scheduled-IsOuter :
      (db : Database) (redis_error : Text → Option Text) (faults : RetryFaults) (now : ℕ)
      (s : Store Z)
      → (f : Text → ℕ) → IsKeyed s.rows
      → IsOuter f f s.rows (promote_scheduled sets round redis_error now db faults s).0.rows
  promote_scheduled-IsOuter db redis_error faults now s f keyed =
      rw (promote_scheduled-rows sets round convert db redis_error faults now s) (
        rw (ready_scheduled-ids db s.rows now 100) keyed,
        ready_scheduled-EvolveAll db now 100 s.rows f keyed,
      )

  outer-IsHeld :
      (f f' : Text → ℕ) (rows rows' : List Row) (held : Text → ℕ)
      → IsOuter f f' rows rows'
      → ((id : Text) → Occupied rows id (held id))
      → IsKeyed rows' × ((id : Text) → Occupied rows' id (held id))
  outer-IsHeld f f' rows rows' held (keyed, h) occupied =
      (keyed, λ id. Occupied-Outer f f' rows rows' id (held id) h (occupied id))

  drop-Occupied :
      (rows : List Row) (id : Text) (held : Text → ℕ)
      → ((other : Text) → Occupied rows other (held other))
      → (other : Text) → Occupied rows other (drop_one id held other)
  drop-Occupied rows id held occupied other = elim (Bool-cases (id == other)) [
    | inl this ↦ rw this (Occupied-drop rows other (held other) (occupied other))
    | inr that ↦ rw that (occupied other)
  ]

  pub Step-IsHeld : (w w' : World Z) → IsHeld w → Step sets round convert w w' → IsHeld w'
  Step-IsHeld w _ (keyed, held) (creates db redis_error id now input fresh) =
      outer-IsHeld w.retried w.retried w.store.rows _ w.running
        (create_job-IsOuter db redis_error id now input w.store w.retried fresh keyed) held
  Step-IsHeld w _ (keyed, held) (cancels db id user now) =
      outer-IsHeld w.retried w.retried w.store.rows _ w.running
        (cancel_job-IsOuter db id user now w.store w.retried keyed) held
  Step-IsHeld w _ (keyed, held) (retries db redis_error id user now) =
      outer-IsHeld w.retried (bump id w.retried) w.store.rows _ w.running
        (retry_job-IsOuter db redis_error id user now w.store w.retried keyed) held
  Step-IsHeld w _ (keyed, held) (promotes db redis_error faults now) =
      outer-IsHeld w.retried w.retried w.store.rows _ w.running
        (promote_scheduled-IsOuter db redis_error faults now w.store w.retried keyed) held
  Step-IsHeld w _ h (pops names name id redis e) = h
  Step-IsHeld w _ (keyed, held) (claims db id now more) =
      rw
        (
          handle_start-rows sets round convert db id now w.store,
          handle_start-job sets round convert db id now w.store,
        )
        (
          rw (mark_running-ids db w.store.rows id now) keyed,
          mark_running-Occupied db id now w.store.rows w.running held,
        )
  Step-IsHeld w _ (keyed, held) (ends db redis_error id now none more) =
      rw (handle_end-rows sets round convert db redis_error id now none w.store) (
        rw (mark_completed-ids db w.store.rows id now) keyed,
        mark_completed-Occupied db id now w.store.rows w.running more held,
      )
  Step-IsHeld w _ (keyed, held) (ends db redis_error id now (some message) more) =
      rw (handle_end-rows sets round convert db redis_error id now (some message) w.store) (
        rw (mark_failed-ids db w.store.rows id message now) keyed,
        mark_failed-Occupied db id message now w.store.rows w.running more held,
      )
  Step-IsHeld w _ (keyed, held) (stops id more) =
      (keyed, drop-Occupied w.store.rows id w.running held)
  Step-IsHeld w _ h (forgets id more) = h

  -- However the users, the scheduler and the workers act, and whatever fails: no two rows have the same
  -- identifier, and each job is run by no worker, or by one worker, and then its row is "running".
  pub Reach-IsHeld :
      (redis : Redis Z) (w : World Z) → Reach sets round convert (start redis) w → IsHeld w
  Reach-IsHeld redis _ here = (tt, λ id. inl refl)
  Reach-IsHeld redis w (next {u} steps step) = Step-IsHeld u w (Reach-IsHeld redis u steps) step
