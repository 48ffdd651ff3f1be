-- ===== src/Server/Steps.antt =====
-- The server at work: users, the scheduler and any number of workers act in any order, any call to
-- PostgreSQL or Redis may fail, and a worker may stop at any time (cmd/api/main.go,
-- internal/worker/pool.go).
pub mod Held
pub mod Invariant
pub mod Refinement
pub mod Sound
pub mod Final
pub mod Abandoned
use job_flow_web_application.Prelude.{
  ℕ, ◌+◌, ◌-◌, ◌≤◌, List, [], ◌∷◌, Option, none, some, ◌≡◌, if◌then◌else◌,
}
use job_flow_web_application.Prelude.Int.{ℤ}
use job_flow_web_application.Prelude.Text.{Text, ◌==◌}
use job_flow_web_application.Server.{Row, Database}
use job_flow_web_application.Server.Rows.{row_of}
use job_flow_web_application.Server.Queue.{SortedSets, Redis, dequeue}
use job_flow_web_application.Server.Service.{
  RetryFaults, Store, CreateJobInput, create_job, cancel_job, retry_job, promote_scheduled,
}
use job_flow_web_application.Server.Pool.{handle_start, handle_end}

-- One more, and one less, at a place.
abbrev pub bump : Text → (Text → ℕ) → Text → ℕ
bump id f other = if id == other then f other + 1 else f other

abbrev pub drop_one : Text → (Text → ℕ) → Text → ℕ
drop_one id f other = if id == other then f other - 1 else f other

-- For each identifier: how many workers have it from a queue and have not claimed it, how many run its
-- job, and how often its retry was asked for.
pub record World (Z : Type 0) : Type 0 where
  pub store : Store Z
  pub popped : Text → ℕ
  pub running : Text → ℕ
  pub retried : Text → ℕ

-- An empty table, with anything in Redis.
abbrev pub start : {Z : Type 0} → Redis Z → World Z
start redis = record {
  store = record { rows = []; redis = redis; events = [] };
  popped = λ _. 0;
  running = λ _. 0;
  retried = λ _. 0;
}

-- A worker that claimed the job is one more that runs it.
abbrev pub claims_one : Text → Option Row → (Text → ℕ) → Text → ℕ
claims_one id none f = f
claims_one id (some _) f = bump id f

module _ {Z : Type 0} (sets : SortedSets Z) (round : ℤ → ℤ) (convert : ℕ → ℤ) where
  pub data Step (w : World Z) : World Z → Type 0 where
    creates :
        (db : Database) (redis_error : Option Text) (id : Text) (now : ℕ) (input : CreateJobInput)
        → row_of id w.store.rows ≡ none
        → Step w
            (record w { store = (create_job sets round db redis_error id now input w.store).0 })
    cancels :
        (db : Database) (id user : Text) (now : ℕ)
        → Step w (record w { store = (cancel_job sets round db id user now w.store).0 })
    retries :
        (db : Database) (redis_error : Option Text) (id user : Text) (now : ℕ)
        → Step w (record w {
          store = (retry_job sets round db redis_error id user now w.store).0;
          retried = bump id w.retried;
        })
    promotes :
        (db : Database) (redis_error : Text → Option Text) (faults : RetryFaults) (now : ℕ)
        → Step w (record w {
          store = (promote_scheduled sets round redis_error now db faults w.store).0;
        })
    pops :
        (names : List Text) (name id : Text) (redis : Redis Z)
        → dequeue sets round names w.store.redis ≡ some ((name, id), redis)
        → Step w
            (record w { store = record (w.store) { redis = redis }; popped = bump id w.popped })
    claims :
        (db : Database) (id : Text) (now : ℕ)
        → 1 ≤ w.popped id
        → Step w (record w {
          store = (handle_start sets round convert db id now w.store).0;
          popped = drop_one id w.popped;
          running = claims_one id (handle_start sets round convert db id now w.store).1 w.running;
        })
    ends :
        (db : Database) (redis_error : Option Text) (id : Text) (now : ℕ) (outcome : Option Text)
        → 1 ≤ w.running id
        → Step w (record w {
          store = handle_end sets round convert db redis_error id now outcome w.store;
          running = drop_one id w.running;
        })
    stops : (id : Text) → 1 ≤ w.running id → Step w (record w { running = drop_one id w.running })
    forgets : (id : Text) → 1 ≤ w.popped id → Step w (record w { popped = drop_one id w.popped })

  pub data Reach (w : World Z) : World Z → Type 0 where
    here : Reach w w
    next : {u v : World Z} → Reach w u → Step u v → Reach w v
