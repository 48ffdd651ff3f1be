-- ===== src/Server/Wire.antt =====
-- A row of the table as the answers of the API have it (the JSON names of `Job` in
-- internal/model/model.go) and as the app reads it.
use job_flow_web_application.Prelude.{ℕ}
use mathlib.Core.Option
use job_flow_web_application.Prelude.Int.{pos}
use job_flow_web_application.Prelude.Text.{Text}
use job_flow_web_application.Model.{Job}
use job_flow_web_application.Server.{Row, status_text}

-- `time_text` is the text of a time in JSON.
unfoldable pub to_job : (ℕ → Text) → Row → Job
unfolding status_text
to_job time_text row = record {
  id = row.id;
  queue = row.queue_name;
  type = row.type;
  payload = row.payload;
  status = status_text row.status;
  priority = row.priority;
  attempts = pos row.attempts;
  max_attempts = row.max_attempts;
  error_message = row.error_message;
  scheduled_at = Option.map time_text row.scheduled_at;
  started_at = Option.map time_text row.started_at;
  completed_at = Option.map time_text row.completed_at;
  created_at = time_text row.created_at;
}
