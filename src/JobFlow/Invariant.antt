-- ===== src/JobFlow/Invariant.antt =====
-- An invariant of the shared state (web/src/hooks/useJobFlow.js).
use job_flow_web_application.Prelude.{
  ◌≤◌, [], ◌∷◌, Option, ◌≡◌, inl, inr, refl, arith, length, length-take, Bool-cases,
}
use job_flow_web_application.Prelude.Text.{Text, txt, ◌==◌}
use job_flow_web_application.Model.{User}
use job_flow_web_application.Client.{fulfilled, rejected}
use job_flow_web_application.JobFlow.{
  JobFlow, Event, Reading, token_of, mount, refresh_start, refresh_settle, authenticated, sign_out,
  on_message, on_error, retry_job, cancel_job, created_jobs, set_notice, set_error,
  set_selected_job,
}
use job_flow_web_application.JobFlow.Selection.{IsAmong, reselect-IsAmong}
use job_flow_web_application.JobFlow.Steps.{
  World, load, refresh, token_effect, after_action, Step, refreshes, reads, signs_in, signs_out,
  receives, loses_stream, asks_retry, asks_cancel, retries, cancels, asks_create, creates, selects,
  notes, fails, Reach, here, next,
}

-- The stored token is the token in use, so that a reload resumes the session; at most 30 events are
-- kept; the selected job is one of the jobs.
pub record IsSound (s : JobFlow) : Type 0 where
  pub stored : token_of s.stored_token ≡ s.token
  pub window : length s.events ≤ 30
  pub selected : IsAmong s.selected_job s.jobs

mount-IsSound : (stored : Option Text) → IsSound (mount stored)
unfolding mount
mount-IsSound stored = record { stored = refl; window = omega arith; selected = tt }

refresh_start-IsSound : (token : Text) (s : JobFlow) → IsSound s → IsSound (refresh_start token s)
unfolding refresh_start
refresh_start-IsSound [] s h = h
refresh_start-IsSound (c ∷ token) s h = record {
  stored = h.stored;
  window = h.window;
  selected = h.selected;
}

refresh_settle-IsSound :
    (answer : Reading) (s : JobFlow) → IsSound s → IsSound (refresh_settle answer s)
unfolding refresh_settle
refresh_settle-IsSound (fulfilled (jobs, stats)) s h = record {
  stored = h.stored;
  window = h.window;
  selected = reselect-IsAmong s.selected_job jobs;
}
refresh_settle-IsSound (rejected message) s h = record {
  stored = h.stored;
  window = h.window;
  selected = h.selected;
}

sign_out-IsSound : (s : JobFlow) → IsSound s → IsSound (sign_out s)
unfolding sign_out
sign_out-IsSound s h = record { stored = refl; window = h.window; selected = tt }

on_message-IsSound : (event : Event) (s : JobFlow) → IsSound s → IsSound (on_message event s)
unfolding on_message
on_message-IsSound event s h = record {
  stored = h.stored;
  window = omega (arith, length-take 30 (event ∷ s.events));
  selected = h.selected;
}

-- A change of the notice alone, or of the error alone.
set_notice-IsSound : (notice : Text) (s : JobFlow) → IsSound s → IsSound (set_notice notice s)
unfolding set_notice
set_notice-IsSound notice s h = record {
  stored = h.stored;
  window = h.window;
  selected = h.selected;
}

set_error-IsSound : (error : Text) (s : JobFlow) → IsSound s → IsSound (set_error error s)
unfolding set_error
set_error-IsSound error s h = record { stored = h.stored; window = h.window; selected = h.selected }

token_effect-IsSound : (old : Text) (w : World) → IsSound w.flow → IsSound (token_effect old w).flow
unfolding token_effect
token_effect-IsSound old w h = elim (Bool-cases (w.flow.token == old)) [
  | inl same ↦ rw same h
  | inr changed ↦ rw changed (refresh_start-IsSound w.flow.token w.flow h)
]

authenticated-IsSound :
    (mode token : Text) (user : User) (s : JobFlow)
    → IsSound s
    → IsSound (authenticated mode token user s)
unfolding authenticated
authenticated-IsSound mode token user s h = record {
  stored = refl;
  window = h.window;
  selected = h.selected;
}

Step-IsSound : {w v : World} → Step w v → IsSound w.flow → IsSound v.flow
unfolding after_action retry_job cancel_job created_jobs set_selected_job set_notice on_error
    refresh
Step-IsSound {w} refreshes h = refresh_start-IsSound w.flow.token w.flow h
Step-IsSound {w} (reads before after token answer e) h = refresh_settle-IsSound answer w.flow h
Step-IsSound {w} (signs_in mode token user) h =
    token_effect-IsSound w.flow.token _ (authenticated-IsSound mode token user w.flow h)
Step-IsSound {w} signs_out h = sign_out-IsSound w.flow h
Step-IsSound {w} (receives event signed) h =
    refresh_start-IsSound w.flow.token _ (on_message-IsSound event w.flow h)
Step-IsSound {w} (loses_stream signed) h = record {
  stored = h.stored;
  window = h.window;
  selected = h.selected;
}
Step-IsSound {w} (asks_retry signed) h = h
Step-IsSound {w} (asks_cancel signed) h = h
Step-IsSound {w} (retries before after token (fulfilled v) e) h =
    refresh_start-IsSound token _ (set_notice-IsSound (txt "Job requeued") w.flow h)
Step-IsSound {w} (retries before after token (rejected m) e) h = h
Step-IsSound {w} (cancels before after token (fulfilled v) e) h =
    refresh_start-IsSound token _ (set_notice-IsSound (txt "Job cancelled") w.flow h)
Step-IsSound {w} (cancels before after token (rejected m) e) h = h
Step-IsSound {w} (asks_create signed) h = h
Step-IsSound {w} (creates before after token (fulfilled notice) e) h =
    refresh_start-IsSound token _ (set_notice-IsSound notice w.flow h)
Step-IsSound {w} (creates before after token (rejected m) e) h = h
Step-IsSound {w} (selects job m) h = record { stored = h.stored; window = h.window; selected = m }
Step-IsSound {w} (notes notice) h = set_notice-IsSound notice w.flow h
Step-IsSound {w} (fails error) h = set_error-IsSound error w.flow h

-- However the user, the server and the stream take turns after a load of the page: the stored token
-- is the one in use, at most 30 events are kept, and the selected job is one of the jobs.
pub Reach-IsSound : (stored : Option Text) {w : World} → Reach (load stored) w → IsSound w.flow
unfolding load
Reach-IsSound stored here = mount-IsSound stored
Reach-IsSound stored (next r step) = Step-IsSound step (Reach-IsSound stored r)
