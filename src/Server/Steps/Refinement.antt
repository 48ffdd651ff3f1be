-- ===== src/Server/Steps/Refinement.antt =====
-- The server implements the life of a job (cmd/api/main.go, internal/worker/pool.go,
-- internal/service/job_service.go): what each step does to the rows is a move of that life.
use job_flow_web_application.Prelude.{ℕ, List, Option, none, some, inl, inr, refl}
use job_flow_web_application.Prelude.Int.{ℤ}
use job_flow_web_application.Prelude.Text.{Text}
use job_flow_web_application.Server.{Row}
use job_flow_web_application.Server.Queue.{SortedSets, Redis}
use job_flow_web_application.Server.Life.{Outer, Inner, Evolves, same, born, moved, Move}
use job_flow_web_application.Server.Evolution.{
  EvolveAll, mark_running-EvolveAll, mark_completed-EvolveAll, mark_failed-EvolveAll,
}
use job_flow_web_application.Server.Evolution.Stores.{handle_start-rows, handle_end-rows}
use job_flow_web_application.Server.Steps.{
  bump, World, start, Step, creates, cancels, retries, promotes, pops, claims, ends, stops, forgets,
  Reach,
}
use job_flow_web_application.Server.Steps.Held.{runs_of_Occupied}
use job_flow_web_application.Server.Steps.Invariant.{
  IsHeld, Reach-IsHeld, create_job-IsOuter, cancel_job-IsOuter, retry_job-IsOuter,
  promote_scheduled-IsOuter,
}

Evolves-map :
    {o o' : Option Row} {n n' : ℕ} {M N : Row → Row → ℕ → ℕ → Type 0}
    → ((r r' : Row) → M r r' n n' → N r r' n n')
    → Evolves M o n o' n'
    → Evolves N o n o' n'
Evolves-map f (same e) = same e
Evolves-map f (born r absent there new) = born r absent there new
Evolves-map f (moved r r' old new m) = moved r r' old new (f r r' m)

Outer-Move :
    (f f' : Text → ℕ) (rows rows' : List Row)
    → EvolveAll Outer f f' rows rows'
    → EvolveAll Move f f' rows rows'
Outer-Move f f' rows rows' h id = Evolves-map (λ r r' m. inl m) (h id)

Inner-Move :
    (f f' : Text → ℕ) (rows rows' : List Row)
    → EvolveAll Inner f f' rows rows'
    → EvolveAll Move f f' rows rows'
Inner-Move f f' rows rows' h id = Evolves-map (λ r r' m. inr m) (h id)

module _ {Z : Type 0} (sets : SortedSets Z) (round : ℤ → ℤ) (convert : ℕ → ℤ) where
  pub Step-EvolveAll :
      (w w' : World Z)
      → IsHeld w
      → Step sets round convert w w'
      → EvolveAll Move w.retried w'.retried w.store.rows w'.store.rows
  Step-EvolveAll w _ (keyed, held) (creates db redis_error id now input fresh) =
      Outer-Move w.retried w.retried w.store.rows _
        (create_job-IsOuter sets round convert db redis_error id now input w.store w.retried fresh
          keyed).1
  Step-EvolveAll w _ (keyed, held) (cancels db id user now) =
      Outer-Move w.retried w.retried w.store.rows _
        (cancel_job-IsOuter sets round convert db id user now w.store w.retried keyed).1
  Step-EvolveAll w _ (keyed, held) (retries db redis_error id user now) =
      Outer-Move w.retried (bump id w.retried) w.store.rows _
        (retry_job-IsOuter sets round convert db redis_error id user now w.store w.retried keyed).1
  Step-EvolveAll w _ (keyed, held) (promotes db redis_error faults now) =
      Outer-Move w.retried w.retried w.store.rows _
        (promote_scheduled-IsOuter sets round convert db redis_error faults now w.store w.retried
          keyed).1
  Step-EvolveAll w _ h (pops names name id redis e) = λ other. same refl
  Step-EvolveAll w _ h (claims db id now more) =
      rw (handle_start-rows sets round convert db id now w.store) (
        Outer-Move w.retried w.retried w.store.rows _
          (mark_running-EvolveAll db id now w.store.rows w.retried))
  Step-EvolveAll w _ (keyed, held) (ends db redis_error id now none more) =
      rw (handle_end-rows sets round convert db redis_error id now none w.store) (
        Inner-Move w.retried w.retried w.store.rows _ (
          mark_completed-EvolveAll db id now w.store.rows w.retried
            (runs_of_Occupied w.store.rows id (w.running id) (held id) more)))
  Step-EvolveAll w _ (keyed, held) (ends db redis_error id now (some message) more) =
      rw (handle_end-rows sets round convert db redis_error id now (some message) w.store) (
        Inner-Move w.retried w.retried w.store.rows _ (
          mark_failed-EvolveAll db id now w.store.rows w.retried
            (runs_of_Occupied w.store.rows id (w.running id) (held id) more) message))
  Step-EvolveAll w _ h (stops id more) = λ other. same refl
  Step-EvolveAll w _ h (forgets id more) = λ other. same refl

  -- From the empty table on, whatever fails: every step leaves each row as it is, creates it queued or
  -- scheduled with no attempts, or makes one of the moves that the life of a job allows, which change
  -- the named columns and no other.
  pub Reach-EvolveAll :
      (redis : Redis Z) (w w' : World Z)
      → Reach sets round convert (start redis) w
      → Step sets round convert w w'
      → EvolveAll Move w.retried w'.retried w.store.rows w'.store.rows
  Reach-EvolveAll redis w w' steps step =
      Step-EvolveAll w w' (Reach-IsHeld sets round convert redis w steps) step
