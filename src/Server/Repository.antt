-- ===== src/Server/Repository.antt =====
-- The statements on the table of jobs (internal/repository/job_repository.go). Each takes how the
-- database answers and the table, and gives the table and the answer.
pub mod Queries
use job_flow_web_application.Prelude.{
  ℕ, ◌+◌, List, [], ◌∷◌, ◌++◌, map, Bool, true, false, ◌&&◌, ◌||◌, Option, none, some, leb, ltb,
  length, take, filter, if◌then◌else◌,
}
use job_flow_web_application.Prelude.Int.{ℤ, pos, negsuc, sub_ℕ, ltb_ℤ, leb_ℤ}
use job_flow_web_application.Prelude.Text.{Text, ◌==◌, is_empty}
use job_flow_web_application.Json.{Json}
use job_flow_web_application.Sort.{sort_by}
use job_flow_web_application.Table.{contains}
use job_flow_web_application.Server.{
  scheduled, queued, running, completed, cancelled, retrying, dead_letter, status_text, Row,
  is_waiting, is_cancellable, is_dead, is_scheduled, Answer, ok, err, Database,
}
use job_flow_web_application.Server.Rows.{row_of, update_at}

pub record CreateJobParams : Type 0 where
  pub user_id : Text
  pub queue_name : Text
  pub type : Text
  pub payload : Json
  pub priority : ℤ
  pub max_attempts : ℤ
  pub scheduled_at : Option ℕ

-- A value of the column type INTEGER.
abbrev pub fits_integer : ℤ → Bool
fits_integer n = leb_ℤ (negsuc 2147483647) n && leb_ℤ n (pos 2147483647)

-- The texts and numbers fit their columns (migrations/001_init.sql).
abbrev pub fits : CreateJobParams → Bool
fits p =
    leb (length p.queue_name) 100
    && leb (length p.type) 100
    && (fits_integer p.priority && fits_integer p.max_attempts)

abbrev pub is_after : Option ℕ → ℕ → Bool
is_after none now = false
is_after (some time) now = ltb now time

-- The row that is inserted, with the identifier that the database generates.
unfoldable pub new_row : Text → ℕ → CreateJobParams → Row
new_row id now p = record {
  id = id;
  user_id = some p.user_id;
  queue_name = p.queue_name;
  type = p.type;
  payload = p.payload;
  status = if is_after p.scheduled_at now then scheduled else queued;
  priority = p.priority;
  attempts = 0;
  max_attempts = p.max_attempts;
  error_message = none;
  scheduled_at = p.scheduled_at;
  started_at = none;
  completed_at = none;
  created_at = now;
  updated_at = now;
}

-- `QueryRow(…).Scan(…)` of an update.
abbrev pub one_row : Database → List Row × Option Row → List Row × Answer Row
one_row db (rows, none) = (rows, err db.no_rows)
one_row db (rows, some row) = (rows, ok row)

-- The `SET` clauses of the start of a run and of its two ends.
abbrev pub as_running : ℕ → Row → Row
as_running now row = record row {
  status = running;
  attempts = row.attempts + 1;
  started_at = some now;
  updated_at = now;
}

abbrev pub as_completed : ℕ → Row → Row
as_completed now row = record row {
  status = completed;
  error_message = none;
  completed_at = some now;
  updated_at = now;
}

abbrev pub as_failed : Text → ℕ → Row → Row
as_failed message now row = record row {
  status = if ltb_ℤ (pos row.attempts) row.max_attempts then retrying else dead_letter;
  error_message = some message;
  updated_at = now;
}

module _ (db : Database) where
  unfoldable pub create : Text → ℕ → CreateJobParams → List Row → List Row × Answer Row
  unfolding new_row
  create id now p rows = elim db.fault [
    | some message ↦ (rows, err message)
    | none ↦
        if fits p
        then (rows ++ new_row id now p ∷ [], ok (new_row id now p))
        else (rows, err db.bad_value)
  ]

  unfoldable pub find_job : Text → List Row → Answer Row
  unfolding row_of
  find_job id rows = elim db.fault [
    | some message ↦ err message
    | none ↦ elim (row_of id rows) [ none ↦ err db.no_rows | some row ↦ ok row ]
  ]

  -- A statement that changes the row with an identifier and returns it.
  abbrev pub query_row : Text → (Row → Bool) → (Row → Row) → List Row → List Row × Answer Row
  query_row id guard change rows = elim db.fault [
    | some message ↦ (rows, err message)
    | none ↦ one_row db (update_at id guard change rows)
  ]

  -- `user_id = $n`
  abbrev pub is_owner : Text → Row → Bool
  is_owner user row = elim row.user_id [ none ↦ false | some owner ↦ owner == user ]

  unfoldable pub cancel : Text → Text → ℕ → List Row → List Row × Answer Row
  unfolding update_at
  cancel id user now rows =
      query_row id (λ row. is_owner user row && is_cancellable row.status)
        (λ row. record row { status = cancelled; updated_at = now }) rows

  unfoldable pub mark_running : Text → ℕ → List Row → List Row × Answer Row
  unfolding update_at
  mark_running id now rows = query_row id (λ row. is_waiting row.status) (as_running now) rows

  -- `Exec`, which does not look at the number of rows.
  unfoldable pub mark_completed : Text → ℕ → List Row → List Row
  unfolding update_at
  mark_completed id now rows = (query_row id (λ row. true) (as_completed now) rows).0

  unfoldable pub mark_failed : Text → Text → ℕ → List Row → List Row × Answer Row
  unfolding update_at
  mark_failed id message now rows = query_row id (λ row. true) (as_failed message now) rows

  unfoldable pub requeue : Text → Text → ℕ → List Row → List Row × Answer Row
  unfolding update_at
  requeue id user now rows =
      query_row id (λ row. is_owner user row && is_dead row.status)
        (λ row. record row { status = queued; error_message = none; updated_at = now }) rows

  -- The order in which PostgreSQL leaves ties is that of the table here.
  abbrev pub by_newest : Row → Row → ℤ
  by_newest a b = sub_ℕ b.created_at a.created_at

  abbrev pub clamp : ℤ → ℕ
  clamp (pos n) = if leb n 0 || ltb 100 n then 50 else n
  clamp (negsuc n) = 50

  unfoldable pub list_jobs : Text → Text → ℤ → List Row → Answer (List Row)
  unfolding status_text
  list_jobs user status limit rows = elim db.fault [
    | some message ↦ err message
    | none ↦ ok (
        take (clamp limit) (
          sort_by by_newest (
            filter
              (λ row. is_owner user row && (is_empty status || status_text row.status == status))
              rows)))
  ]

-- A time that is set and has come.
abbrev pub is_due : ℕ → Row → Bool
is_due now row =
    is_scheduled row.status && elim row.scheduled_at [ none ↦ false | some time ↦ leb time now ]

abbrev pub by_schedule : Row → Row → ℤ
by_schedule a b = elim a.scheduled_at [
  | none ↦ pos 0
  | some s ↦ elim b.scheduled_at [ none ↦ pos 0 | some t ↦ sub_ℕ s t ]
]

-- The identifiers that the inner `SELECT` picks.
unfoldable pub ready_ids : ℕ → ℕ → List Row → List Text
ready_ids now limit rows =
    map (λ row. row.id) (take limit (sort_by by_schedule (filter (is_due now) rows)))

-- `SET status = $1, updated_at = NOW()` on a scheduled job
unfoldable pub to_queued : ℕ → Row → Row
to_queued now row = record row { status = queued; updated_at = now }

-- The update and the rows that it returns; their order is that of the table here.
unfoldable pub ready_scheduled : Database → ℕ → ℕ → List Row → List Row × Answer (List Row)
unfolding ready_ids to_queued
ready_scheduled db now limit rows = elim db.fault [
  | some message ↦ (rows, err message)
  | none ↦
      let ids = ready_ids now limit rows in
      (
        map (λ row. if contains ids row.id then to_queued now row else row) rows,
        ok (map (to_queued now) (filter (λ row. contains ids row.id) rows)),
      )
]
