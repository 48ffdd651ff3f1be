-- ===== src/Server/Handlers.antt =====
-- The handlers of the requests about jobs, after the middleware has found the user
-- (internal/handler/job_handler.go).
pub mod Refused
use job_flow_web_application.Prelude.{ℕ, List, Option, none, some, if◌then◌else◌}
use job_flow_web_application.Prelude.Int.{ℤ}
use job_flow_web_application.Prelude.Text.{Text, txt}
use job_flow_web_application.Server.{Row, Answer, ok, err, Database}
use job_flow_web_application.Server.Repository.{find_job, is_owner, list_jobs}
use job_flow_web_application.Server.Queue.{SortedSets}
use job_flow_web_application.Server.Service.{
  Store, CreateJobInput, create_job, cancel_job, retry_job,
}

-- The status with a body, with the text of an error, or alone.
pub data Response (A : Type 0) : Type 0 where
  json : ℕ → A → Response A
  error : ℕ → Text → Response A
  status : ℕ → Response A

abbrev pub respond : {A : Type 0} → ℕ → ℕ → Answer A → Response A
respond good bad (ok a) = json good a
respond good bad (err message) = error bad message

abbrev pub respond_empty : {A : Type 0} → Option Text → Response A
respond_empty none = status 204
respond_empty (some message) = error 400 message

unfoldable pub handle_get : Database → Text → Text → List Row → Response Row
unfolding find_job
handle_get db id user rows = elim (find_job db id rows) [
  | err message ↦ error 404 (txt "job not found")
  | ok job ↦ if is_owner db user job then json 200 job else error 404 (txt "job not found")
]

unfoldable pub handle_list : Database → Text → Text → ℤ → List Row → Response (List Row)
unfolding list_jobs
handle_list db user wanted limit rows = respond 200 500 (list_jobs db user wanted limit rows)

module _ {Z : Type 0} (sets : SortedSets Z) (round : ℤ → ℤ) where
  -- The request is the input, or the message of what is wrong with its body.
  unfoldable pub handle_create :
      Database → Option Text → Text → ℕ → Answer CreateJobInput → Store Z → Store Z × Response Row
  unfolding create_job
  handle_create db redis_error id now (err message) s = (s, error 400 message)
  handle_create db redis_error id now (ok input) s =
      let (after, answer) = create_job sets round db redis_error id now input s in
      (after, respond 201 400 answer)

  unfoldable pub handle_cancel : Database → Text → Text → ℕ → Store Z → Store Z × Response Row
  unfolding cancel_job
  handle_cancel db id user now s =
      let (after, answer) = cancel_job sets round db id user now s in (after, respond_empty answer)

  unfoldable pub handle_retry :
      Database → Option Text → Text → Text → ℕ → Store Z → Store Z × Response Row
  unfolding retry_job
  handle_retry db redis_error id user now s =
      let (after, answer) = retry_job sets round db redis_error id user now s in
      (after, respond 200 400 answer)
