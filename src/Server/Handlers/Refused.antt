-- ===== src/Server/Handlers/Refused.antt =====
-- What a user is answered about the jobs of others (internal/handler/job_handler.go).
use job_flow_web_application.Prelude.{
  ℕ, List, Option, none, some, Option-cases, false, ◌≡◌, inl, inr, refl,
}
use job_flow_web_application.Prelude.Int.{ℤ}
use job_flow_web_application.Prelude.Text.{Text, txt}
use job_flow_web_application.Server.{Row, Database}
use job_flow_web_application.Server.Rows.{row_of}
use job_flow_web_application.Server.Repository.{find_job, is_owner}
use job_flow_web_application.Server.Queue.{SortedSets}
use job_flow_web_application.Server.Service.{Store}
use job_flow_web_application.Server.Service.Access.{others-refused}
use job_flow_web_application.Server.Handlers.{error, handle_get, handle_cancel, handle_retry}

handle_get-others :
    (db : Database) (id user : Text) (rows : List Row)
    → db.fault ≡ none
    → ((row : Row) → row_of id rows ≡ some row → is_owner db user row ≡ false)
    → handle_get db id user rows ≡ error 404 (txt "job not found")
unfolding handle_get find_job
handle_get-others db id user rows works others = elim (Option-cases (row_of id rows)) [
  | inl absent ↦ rw (works, handle_get) (rw (absent, find_job) refl)
  | inr (row, found) ↦ rw (works, handle_get) (rw (found, find_job) (rw (others row found) refl))
]

module _ {Z : Type 0} (sets : SortedSets Z) (round : ℤ → ℤ) where
  -- With PostgreSQL at work, a job that is not there or not the user's is answered as not found when it is
  -- read, and with the error for no row when it is to be cancelled or retried, and then the table, the
  -- queues and the events stay as they are.
  pub handlers-refused :
      (db : Database) (redis_error : Option Text) (id user : Text) (now : ℕ) (s : Store Z)
      → db.fault ≡ none
      → ((row : Row) → row_of id s.rows ≡ some row → is_owner db user row ≡ false)
      → (handle_get db id user s.rows ≡ error 404 (txt "job not found"))
        × (handle_cancel sets round db id user now s ≡ (s, error 400 db.no_rows))
        × (handle_retry sets round db redis_error id user now s ≡ (s, error 400 db.no_rows))
  unfolding handle_cancel handle_retry
  handlers-refused db redis_error id user now s works others =
      let (cancelling, retrying) =
        others-refused sets round db redis_error id user now s works others in
      (
        handle_get-others db id user s.rows works others,
        rw (cancelling, handle_cancel) refl,
        rw (retrying, handle_retry) refl,
      )
