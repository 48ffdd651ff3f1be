-- ===== src/Server/Steps/Abandoned.antt =====
-- A worker that stops in the middle of a run (cmd/worker/main.go, internal/worker/pool.go).
use job_flow_web_application.Prelude.{
  ℕ, ◌≤◌, List, true, false, none, some, Bool-cases, ◌≡◌, inl, inr, refl, ap, ◌∙◌, arith,
}
use job_flow_web_application.Prelude.Int.{ℤ}
use job_flow_web_application.Prelude.Text.{Text, ◌==◌, eq_iff}
use job_flow_web_application.Server.{running, Row, ok, err, Database}
use job_flow_web_application.Server.Rows.{row_of}
use job_flow_web_application.Server.Repository.{mark_running, mark_completed, mark_failed}
use job_flow_web_application.Server.Queue.{SortedSets, Redis}
use job_flow_web_application.Server.Evolution.{mark_running-EvolveAll}
use job_flow_web_application.Server.Evolution.Stores.{
  handle_start-rows, handle_start-job, handle_end-rows,
}
use job_flow_web_application.Server.Steps.{
  bump, drop_one, claims_one, World, start, Step, creates, cancels, retries, promotes, pops, claims,
  ends, stops, forgets, Reach, here, next,
}
use job_flow_web_application.Server.Repository.Queries.{query_row-ok, query_row-other}
use job_flow_web_application.Server.Evolution.Stores.{Answer-cases}
use job_flow_web_application.Server.Repository.{as_completed, as_failed}
use job_flow_web_application.Server.Steps.Held.{running_stays}
use job_flow_web_application.Server.Steps.Final.{Reach_trans}
use job_flow_web_application.Server.Steps.Invariant.{
  IsHeld, IsOuter, Reach-IsHeld, create_job-IsOuter, cancel_job-IsOuter, retry_job-IsOuter,
  promote_scheduled-IsOuter,
}

-- The row says that the job runs, and no worker runs it.
abbrev pub IsAbandoned : Text → Row → List Row → (Text → ℕ) → Type 0
IsAbandoned id row rows held = (row_of id rows ≡ some row) × (row.status ≡ running) × (held id ≡ 0)

outer-IsAbandoned :
    (f f' : Text → ℕ) (rows rows' : List Row) (held : Text → ℕ) (id : Text) (row : Row)
    → IsOuter f f' rows rows'
    → IsAbandoned id row rows held
    → IsAbandoned id row rows' held
outer-IsAbandoned f f' rows rows' held id row (keyed, h) (found, runs, idle) =
    (running_stays (h id) row found runs, runs, idle)

-- A job that is "running" cannot be claimed.
not_claimed :
    (db : Database) (other : Text) (now : ℕ) (rows : List Row) (job : Row) (id : Text) (row : Row)
    → (mark_running db other now rows).1 ≡ ok job
    → row_of id rows ≡ some row
    → row.status ≡ running
    → (other == id) ≡ false
unfolding mark_running
not_claimed db other now rows job id row answered found runs =
    let (r, there, waits, after) = query_row-ok db other _ _ rows job (λ row. refl) answered in
    elim (Bool-cases (other == id)) [
      | inr apart ↦ apart
      | inl this ↦
          let same_id : other ≡ id = (eq_iff other id).0 this in
          let same_row : r ≡ row = cc in
          let wrong : false ≡ true = rw (same_row, runs) at waits in cc
    ]

mark_running-IsAbandoned :
    (db : Database) (other : Text) (now : ℕ) (rows : List Row) (f held : Text → ℕ) (id : Text)
    (row : Row)
    → IsAbandoned id row rows held
    → IsAbandoned id row (mark_running db other now rows).0 (
        claims_one other
          (elim (mark_running db other now rows).1 [ err _ ↦ none | ok job ↦ some job ])
          held)
mark_running-IsAbandoned db other now rows f held id row (found, runs, idle) =
    let there = running_stays (mark_running-EvolveAll db other now rows f id) row found runs in
    elim (Answer-cases (mark_running db other now rows).1) [
      | inr (message, e) ↦ rw e (there, runs, idle)
      | inl (job, e) ↦
          rw e (there, runs, rw (not_claimed db other now rows job id row e found runs) idle)
    ]

apart_of_held :
    (other id : Text) (held : Text → ℕ) → 1 ≤ held other → held id ≡ 0 → (other == id) ≡ false
apart_of_held other id held more idle = elim (Bool-cases (other == id)) [
  | inr apart ↦ apart
  | inl this ↦
      let same_id : held other ≡ held id = ap held ((eq_iff other id).0 this) in
      absurd (omega arith)
]

drop-zero : (other : Text) (held : Text → ℕ) (id : Text) → held id ≡ 0 → drop_one other held id ≡ 0
drop-zero other held id idle = ground (arith, idle)

module _ {Z : Type 0} (sets : SortedSets Z) (round : ℤ → ℤ) (convert : ℕ → ℤ) where
  Step-IsAbandoned :
      (w w' : World Z) (id : Text) (row : Row)
      → IsHeld w
      → Step sets round convert w w'
      → IsAbandoned id row w.store.rows w.running
      → IsAbandoned id row w'.store.rows w'.running
  unfolding mark_completed mark_failed
  Step-IsAbandoned w _ id row (keyed, held) (creates db redis_error i now input fresh) h =
      outer-IsAbandoned w.retried w.retried w.store.rows _ w.running id row
        (create_job-IsOuter sets round convert db redis_error i now input w.store w.retried fresh
          keyed)
        h
  Step-IsAbandoned w _ id row (keyed, held) (cancels db i user now) h =
      outer-IsAbandoned w.retried w.retried w.store.rows _ w.running id row
        (cancel_job-IsOuter sets round convert db i user now w.store w.retried keyed) h
  Step-IsAbandoned w _ id row (keyed, held) (retries db redis_error i user now) h =
      outer-IsAbandoned w.retried (bump i w.retried) w.store.rows _ w.running id row
        (retry_job-IsOuter sets round convert db redis_error i user now w.store w.retried keyed) h
  Step-IsAbandoned w _ id row (keyed, held) (promotes db redis_error faults now) h =
      outer-IsAbandoned w.retried w.retried w.store.rows _ w.running id row
        (promote_scheduled-IsOuter sets round convert db redis_error faults now w.store w.retried
          keyed)
        h
  Step-IsAbandoned w _ id row invariant (pops names name i redis e) h = h
  Step-IsAbandoned w _ id row invariant (claims db i now more) h =
      rw
        (
          handle_start-rows sets round convert db i now w.store,
          handle_start-job sets round convert db i now w.store,
        )
        (mark_running-IsAbandoned db i now w.store.rows w.retried w.running id row h)
  Step-IsAbandoned w _ id row invariant (ends db redis_error i now none more) (found, runs, idle) =
      rw (handle_end-rows sets round convert db redis_error i now none w.store) (
        query_row-other db i (λ row. true) (as_completed now) w.store.rows id (λ row. refl)
              (apart_of_held i id w.running more idle)
            ∙ found,
        runs,
        drop-zero i w.running id idle,
      )
  Step-IsAbandoned w _ id row invariant (ends db redis_error i now (some message) more)
        (found, runs, idle) =
      rw (handle_end-rows sets round convert db redis_error i now (some message) w.store) (
        query_row-other db i (λ row. true) (as_failed message now) w.store.rows id (λ row. refl)
              (apart_of_held i id w.running more idle)
            ∙ found,
        runs,
        drop-zero i w.running id idle,
      )
  Step-IsAbandoned w _ id row invariant (stops i more) (found, runs, idle) =
      (found, runs, drop-zero i w.running id idle)
  Step-IsAbandoned w _ id row invariant (forgets i more) h = h

  -- A job whose worker stopped in the middle of its run is lost: from the moment that its row is
  -- "running" and no worker runs it, this stays so and the row never changes, whatever the users, the
  -- scheduler and the other workers do.
  pub Reach-IsAbandoned :
      (redis : Redis Z) (w v : World Z)
      → Reach sets round convert (start redis) w
      → Reach sets round convert w v
      → (id : Text) (row : Row) → IsAbandoned id row w.store.rows w.running
      → IsAbandoned id row v.store.rows v.running
  Reach-IsAbandoned redis w _ before here id row h = h
  Reach-IsAbandoned redis w v before (next {u} steps step) id row h =
      Step-IsAbandoned u v id row
        (Reach-IsHeld sets round convert redis u
          (Reach_trans sets round convert (start redis) w u before steps))
        step (Reach-IsAbandoned redis w u before steps id row h)
