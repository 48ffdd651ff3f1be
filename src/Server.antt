-- ===== src/Server.antt =====
-- The API server and its workers (internal, cmd/api, cmd/worker): the jobs table and the data of the store.
-- Times are milliseconds.
pub mod Rows
pub mod Repository
pub mod Queue
pub mod Service
pub mod Pool
pub mod Wire
pub mod Accounts
pub mod Broker
pub mod Handlers
pub mod Processor
pub mod Life
pub mod Dashboard
pub mod Steps
pub mod Evolution
use job_flow_web_application.Prelude.{ℕ, Bool, true, false, Option}
use job_flow_web_application.Prelude.Int.{ℤ}
use job_flow_web_application.Prelude.Text.{Text, txt}
use job_flow_web_application.Json.{Json}

-- The constants of internal/model/model.go, and "scheduled", which the repository writes out.
pub data Status : Type 0 where
  scheduled queued running completed failed cancelled retrying dead_letter : Status

unfoldable pub status_text : Status → Text
status_text scheduled = txt "scheduled"
status_text queued = txt "queued"
status_text running = txt "running"
status_text completed = txt "completed"
status_text failed = txt "failed"
status_text cancelled = txt "cancelled"
status_text retrying = txt "retrying"
status_text dead_letter = txt "dead_letter"

-- A row of the table of jobs, as the server's `Job` reads it.
pub record Row : Type 0 where
  pub id : Text
  pub user_id : Option Text
  pub queue_name : Text
  pub type : Text
  pub payload : Json
  pub status : Status
  pub priority : ℤ
  pub attempts : ℕ
  pub max_attempts : ℤ
  pub error_message : Option Text
  pub scheduled_at : Option ℕ
  pub started_at : Option ℕ
  pub completed_at : Option ℕ
  pub created_at : ℕ
  pub updated_at : ℕ

-- The tests of a `WHERE status IN (…)`.
abbrev pub is_waiting : Status → Bool
is_waiting queued = true
is_waiting retrying = true
is_waiting _ = false

abbrev pub is_cancellable : Status → Bool
is_cancellable queued = true
is_cancellable scheduled = true
is_cancellable retrying = true
is_cancellable _ = false

abbrev pub is_dead : Status → Bool
is_dead failed = true
is_dead dead_letter = true
is_dead _ = false

abbrev pub is_scheduled : Status → Bool
is_scheduled scheduled = true
is_scheduled _ = false

abbrev pub is_queued : Status → Bool
is_queued queued = true
is_queued _ = false

abbrev pub is_retrying : Status → Bool
is_retrying retrying = true
is_retrying _ = false

-- What a Go function returns: a value, or the text of its error.
pub data Answer {ℓ} (A : Type ℓ) : Type ℓ where
  ok : A → Answer A
  err : Text → Answer A

-- How PostgreSQL answers a statement: with the error of a lost connection, if any, which leaves the
-- table as it is; the texts of the errors for a value that does not fit its column, for no row, and
-- for an email that another user has.
pub record Database : Type 0 where
  pub fault : Option Text
  pub bad_value : Text
  pub no_rows : Text
  pub duplicate : Text
