-- ===== src/Model.antt =====
-- The data that the API returns and the web app keeps (internal/model/model.go, with the JSON names).
-- A time is the text that the API sends; reading it is the platform's `new Date`.
use job_flow_web_application.Prelude.{ℕ, List, Option}
use job_flow_web_application.Prelude.Int.{ℤ}
use job_flow_web_application.Prelude.Text.{Text}
use job_flow_web_application.Json.{Json}

pub record Job : Type 0 where
  pub id : Text
  pub queue : Text
  pub type : Text
  pub payload : Json
  pub status : Text
  pub priority : ℤ
  pub attempts : ℤ
  pub max_attempts : ℤ
  pub error_message : Option Text
  pub scheduled_at : Option Text
  pub started_at : Option Text
  pub completed_at : Option Text
  pub created_at : Text

pub record Worker : Type 0 where
  pub id : Text
  pub hostname : Text
  pub status : Text
  pub last_heartbeat : Text
  pub jobs_processed : ℕ
  pub jobs_failed : ℕ

pub record QueueStats : Type 0 where
  pub name : Text
  pub waiting : ℕ

pub record Stats : Type 0 where
  pub total_jobs : ℕ
  pub queued : ℕ
  pub running : ℕ
  pub completed : ℕ
  pub failed : ℕ
  pub retrying : ℕ
  pub dead_letter : ℕ
  pub queues : List QueueStats
  pub workers : List Worker
  pub by_type : List (Text × ℕ)

pub record User : Type 0 where
  pub id : Text
  pub name : Text
  pub email : Text

-- What the browser does and the sources only call, on texts.
pub record Platform : Type 0 where
  -- `s.toLowerCase()`
  pub lower : Text → Text
  -- `a.localeCompare(b)`
  pub locale_compare : Text → Text → ℤ
  -- `new Date(s)` in milliseconds, `none` for an invalid date
  pub parse_date : Text → Option ℤ
  -- `Number(v)` of a value that is no number, `none` for NaN
  pub parse_number : Json → Option ℤ
  -- `String(v)` of a value that is no string, and of a number
  pub to_text : Json → Text
  pub number_text : ℕ → Text
  -- `new Date(v).toISOString()`, `none` where it throws
  pub to_iso : Json → Option Text
  -- the messages of the errors that the browser throws by itself
  pub type_error : Text
  pub range_error : Text
  pub syntax_error : Text
