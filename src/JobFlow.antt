-- ===== src/JobFlow.antt =====
-- The state that the app shares and the handlers that change it (web/src/hooks/useJobFlow.js).
-- A handler that waits for the server is its part before the wait and its part after it.
pub mod Selection
pub mod Steps
pub mod Invariant
pub mod Loading
pub mod SignedOut
pub mod Create
use job_flow_web_application.Prelude.{
  ℕ, List, [], ◌∷◌, ◌++◌, Bool, true, false, Option, none, some, take, head?, find, if◌then◌else◌,
}
use job_flow_web_application.Prelude.Text.{Text, txt, ◌==◌, is_empty, or_else}
use job_flow_web_application.Json.{Json}
use job_flow_web_application.Model.{Job, Stats, User}
use job_flow_web_application.Client.{Settled, fulfilled, rejected}

pub record Event : Type 0 where
  pub event : Text
  pub details : Json

-- `stored_token` is the token in `localStorage`.
pub record JobFlow : Type 0 where
  pub token : Text
  pub stored_token : Option Text
  pub user : Option User
  pub jobs : List Job
  pub stats : Option Stats
  pub selected_job : Option Job
  pub notice : Text
  pub error : Text
  pub events : List Event
  pub loading : Bool

-- What a refresh reads: the jobs and the dashboard, together.
abbrev pub Reading : Type 0
Reading = Settled (List Job × Stats)

-- `localStorage.getItem(tokenKey) || ""`
abbrev pub token_of : Option Text → Text
token_of none = txt ""
token_of (some token) = token

unfoldable pub mount : Option Text → JobFlow
mount stored = record {
  token = token_of stored;
  stored_token = stored;
  user = none;
  jobs = [];
  stats = none;
  selected_job = none;
  notice = txt "";
  error = txt "";
  events = [];
  loading = false;
}

-- `refresh` up to the two requests, which are sent if the token is not empty
unfoldable pub refresh_start : Text → JobFlow → JobFlow
refresh_start token s = if is_empty token then s else record s { loading = true }

-- the job that stays selected when `jobs` replace the old ones
unfoldable pub reselect : Option Job → List Job → Option Job
reselect none jobs = head? jobs
reselect (some current) jobs = elim (find (λ job. job.id == current.id) jobs) [
  | none ↦ head? jobs
  | some job ↦ some job
]

-- the rest of `refresh`
unfoldable pub refresh_settle : Reading → JobFlow → JobFlow
refresh_settle (fulfilled (jobs, stats)) s = record s {
  jobs = jobs;
  stats = some stats;
  selected_job = reselect s.selected_job jobs;
  error = txt "";
  loading = false;
}
refresh_settle (rejected message) s = record s { error = message; loading = false }

-- `authenticate`, once the server has answered with a token and a user
unfoldable pub authenticated : Text → Text → User → JobFlow → JobFlow
authenticated mode token user s = record s {
  token = token;
  stored_token = some token;
  user = some user;
  notice = if mode == txt "register" then txt "Account created" else txt "Signed in";
}

unfoldable pub sign_out : JobFlow → JobFlow
sign_out s = record s {
  token = txt "";
  stored_token = none;
  user = none;
  jobs = [];
  stats = none;
  selected_job = none;
}

-- `source.onmessage` up to its call of `refresh`, and `source.onerror`
unfoldable pub on_message : Event → JobFlow → JobFlow
on_message event s = record s { events = take 30 (event ∷ s.events) }

unfoldable pub on_error : JobFlow → JobFlow
on_error s = record s { error = txt "Realtime connection interrupted" }

-- `retryJob` and `cancelJob` up to their call of `refresh`: a rejected request throws, and the state
-- stays as it is.
unfoldable pub retry_job : Settled Json → JobFlow → Settled JobFlow
retry_job (fulfilled _) s = fulfilled (record s { notice = txt "Job requeued" })
retry_job (rejected message) s = rejected message

unfoldable pub cancel_job : Settled Json → JobFlow → Settled JobFlow
cancel_job (fulfilled _) s = fulfilled (record s { notice = txt "Job cancelled" })
cancel_job (rejected message) s = rejected message

-- The end of `createJobs`, up to its call of `refresh`; the notice is composed in JobFlow/Create.
unfoldable pub created_jobs : Settled Text → JobFlow → Settled JobFlow
created_jobs (fulfilled notice) s = fulfilled (record s { notice = notice })
created_jobs (rejected message) s = rejected message

unfoldable pub set_notice : Text → JobFlow → JobFlow
set_notice notice s = record s { notice = notice }

unfoldable pub set_error : Text → JobFlow → JobFlow
set_error error s = record s { error = error }

unfoldable pub set_selected_job : Job → JobFlow → JobFlow
set_selected_job job s = record s { selected_job = some job }
