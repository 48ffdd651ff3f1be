-- ===== src/JobFlow/Steps.antt =====
-- The app and the calls that are under way, and the steps that the user, the server and the event
-- stream make in any order. A call keeps the token with which it was made.
use job_flow_web_application.Prelude.{List, [], ◌∷◌, ◌++◌, Option, ◌≡◌, ◌≢◌, if◌then◌else◌}
use mathlib.Core.List.{Mem}
use job_flow_web_application.Prelude.Text.{Text, ◌==◌, is_empty}
use job_flow_web_application.Json.{Json}
use job_flow_web_application.Model.{Job, User}
use job_flow_web_application.Client.{Settled, fulfilled, rejected}
use job_flow_web_application.JobFlow.{
  JobFlow, Event, Reading, mount, refresh_start, refresh_settle, authenticated, sign_out,
  on_message, on_error, retry_job, cancel_job, created_jobs, set_notice, set_error,
  set_selected_job,
}

-- A call that waits for the server: the two requests of `refresh`, or `retryJob`, `cancelJob` or
-- `createJobs`.
pub data Call : Type 0 where
  reading retrying cancelling creating : Text → Call

pub record World : Type 0 where
  pub flow : JobFlow
  pub pending : List Call

-- The page is loaded with what `localStorage` holds.
unfoldable pub load : Option Text → World
load stored = record { flow = mount stored; pending = [] }

-- `refresh` as a handler calls it that was made while the token was `token`
unfoldable pub refresh : Text → World → World
unfolding refresh_start
refresh token w = record {
  flow = refresh_start token w.flow;
  pending = if is_empty token then w.pending else w.pending ++ reading token ∷ [];
}

-- The effect on a change of the token calls `refresh`.
unfoldable pub token_effect : Text → World → World
unfolding refresh
token_effect old w = if w.flow.token == old then w else refresh w.flow.token w

-- What follows `await api(…)` in `retryJob`, `cancelJob` and `createJobs`: a rejection ends the call.
unfoldable pub after_action : Text → Settled JobFlow → World → World
unfolding refresh
after_action token (fulfilled flow) w = refresh token (record w { flow = flow })
after_action token (rejected _) w = w

pub data Step (w : World) : World → Type 0 where
  -- the effect at the start, the refresh buttons and the shortcut
  refreshes : Step w (refresh w.flow.token w)
  reads :
      (before after : List Call) (token : Text) (answer : Reading)
      → w.pending ≡ before ++ (reading token ∷ after)
      → Step w (record { flow = refresh_settle answer w.flow; pending = before ++ after })
  signs_in :
      (mode token : Text) (user : User)
      → Step w
          (token_effect w.flow.token (record w { flow = authenticated mode token user w.flow }))
  signs_out : Step w (record w { flow = sign_out w.flow })
  -- The stream is open while there is a token.
  receives :
      (event : Event)
      → w.flow.token ≢ []
      → Step w (refresh w.flow.token (record w { flow = on_message event w.flow }))
  loses_stream : w.flow.token ≢ [] → Step w (record w { flow = on_error w.flow })
  asks_retry :
      w.flow.token ≢ [] → Step w (record w { pending = w.pending ++ retrying w.flow.token ∷ [] })
  asks_cancel :
      w.flow.token ≢ [] → Step w (record w { pending = w.pending ++ cancelling w.flow.token ∷ [] })
  retries :
      (before after : List Call) (token : Text) (answer : Settled Json)
      → w.pending ≡ before ++ (retrying token ∷ after)
      → Step w
          (after_action token (retry_job answer w.flow) (record w { pending = before ++ after }))
  cancels :
      (before after : List Call) (token : Text) (answer : Settled Json)
      → w.pending ≡ before ++ (cancelling token ∷ after)
      → Step w
          (after_action token (cancel_job answer w.flow) (record w { pending = before ++ after }))
  asks_create :
      w.flow.token ≢ [] → Step w (record w { pending = w.pending ++ creating w.flow.token ∷ [] })
  creates :
      (before after : List Call) (token : Text) (answer : Settled Text)
      → w.pending ≡ before ++ (creating token ∷ after)
      → Step w
          (after_action token (created_jobs answer w.flow) (record w { pending = before ++ after }))
  selects :
      (job : Job) → Mem job w.flow.jobs → Step w (record w { flow = set_selected_job job w.flow })
  notes : (notice : Text) → Step w (record w { flow = set_notice notice w.flow })
  fails : (error : Text) → Step w (record w { flow = set_error error w.flow })

-- Any number of steps.
pub data Reach (w : World) : World → Type 0 where
  here : Reach w w
  next : {u v : World} → Reach w u → Step u v → Reach w v
