-- ===== src/Tests/Samples.antt =====
-- A platform, jobs and other data to evaluate the definitions on.
use job_flow_web_application.Prelude.{
  ℕ, ◌+◌, List, [], ◌∷◌, map, Option, some, none, length, leb, if◌then◌else◌,
}
use job_flow_web_application.Prelude.Int.{ℤ, pos, sub_ℕ}
use job_flow_web_application.Prelude.Text.{Text, txt}
use job_flow_web_application.Json.{Json, str, obj, end, field}
use job_flow_web_application.Model.{Job, Platform, Stats, User}
use job_flow_web_application.Filters.{Filters}

abbrev lower_unit : ℕ → ℕ
lower_unit c = if leb c b'Z' then (if leb b'A' c then c + 32 else c) else c

-- A text of one code unit is a date, as is any longer one, by its last code unit.
abbrev last_unit : Text → Option ℤ
last_unit [] = none
last_unit (c ∷ []) = some (pos c)
last_unit (c ∷ d ∷ s) = last_unit (d ∷ s)

abbrev pub number_value : Json → Option ℤ
number_value (str []) = some (pos 0)
number_value _ = none

-- Texts are collated by their length.
abbrev pub platform : Platform
platform = record {
  lower = map lower_unit;
  locale_compare = λ s t. sub_ℕ (length s) (length t);
  parse_date = last_unit;
  parse_number = number_value;
  to_text = λ v. txt "[object Object]";
  number_text = λ n. (48 + n) ∷ [];
  to_iso = λ v. none;
  type_error = txt "TypeError";
  range_error = txt "Invalid time value";
  syntax_error = txt "Unexpected end of JSON input";
}

abbrev pub sample_job : Text → Text → ℕ → Text → Job
sample_job id status priority created_at = record {
  id = id;
  queue = txt "default";
  type = txt "send_email";
  payload = obj (field (txt "to") (str (txt "a@b.c")) end);
  status = status;
  priority = pos priority;
  attempts = pos 0;
  max_attempts = pos 3;
  error_message = none;
  scheduled_at = none;
  started_at = none;
  completed_at = none;
  created_at = created_at;
}

abbrev pub first_job : Job
first_job = sample_job (txt "a") (txt "queued") 3 (txt "1")

abbrev pub second_job : Job
second_job = sample_job (txt "b") (txt "failed") 8 (txt "2")

abbrev pub third_job : Job
third_job = sample_job (txt "c") (txt "queued") 3 (txt "3")

abbrev pub jobs : List Job
jobs = first_job ∷ second_job ∷ third_job ∷ []

-- The queued jobs by priority, two on a page, on the page after the last.
abbrev pub filters : Filters
filters = record {
  query = txt " EMAIL ";
  status = txt "all";
  queue = txt "all";
  sort = txt "priority_desc";
  page_size = 2;
  page = 3;
}

abbrev pub user : User
user = record { id = txt "u"; name = txt "Ada"; email = txt "a@b.c" }

abbrev pub stats : Stats
stats = record {
  total_jobs = 3;
  queued = 2;
  running = 0;
  completed = 0;
  failed = 1;
  retrying = 0;
  dead_letter = 0;
  queues = [];
  workers = [];
  by_type = [];
}
