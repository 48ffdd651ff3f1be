-- ===== src/Tests/JobFlow.antt =====
-- The app's state and its batches at concrete inputs.
use job_flow_web_application.Prelude.{
  ℕ, zero, suc, [], ◌∷◌, ◌++◌, true, Option, some, none, ◌≡◌, ◌≢◌, refl,
}
use job_flow_web_application.Prelude.Int.{pos}
use job_flow_web_application.Prelude.Text.{Text, txt}
use job_flow_web_application.Json.{num, str, obj, end}
use job_flow_web_application.Model.{Job}
use job_flow_web_application.Client.{Settled, fulfilled, rejected}
use job_flow_web_application.JobFlow.{mount, sign_out, set_notice, refresh_settle}
use job_flow_web_application.JobFlow.Steps.{
  reading, World, Step, load, refresh, refreshes, reads, notes, Reach, here, next,
}
use job_flow_web_application.JobFlow.Invariant.{IsSound, Reach-IsSound}
use job_flow_web_application.JobFlow.SignedOut.{
  IsBlank, start, more, sign_out-StaysOut, sign_out-leak,
}
use job_flow_web_application.JobFlow.Create.{
  Form, NewJob, count, create_all, to_number, at_least_one,
}
use job_flow_web_application.JobFlow.Create.Progress.{Ends, create_all-Ends}
use job_flow_web_application.Tests.Samples.{platform, first_job, second_job, jobs, user, stats}

-- A page that is loaded with a token, and its first reading.
abbrev session : Option Text
session = some (txt "t")

abbrev loading : World
loading = refresh (load session).flow.token (load session)

abbrev after_reading : World
after_reading = record {
  flow = refresh_settle (fulfilled (jobs, stats)) loading.flow;
  pending = [];
}

to_loading : Reach (load session) loading
to_loading = next here refreshes

one_reading : loading.pending ≡ [] ++ (reading (txt "t") ∷ [])
unfolding load refresh mount txt
one_reading = refl

to_after_reading : Reach (load session) after_reading
to_after_reading = next to_loading (reads [] [] (txt "t") (fulfilled (jobs, stats)) one_reading)

Reach-IsSound_example : IsSound after_reading.flow
Reach-IsSound_example = Reach-IsSound session to_after_reading

-- After the sign-out, a notice.
abbrev signed_out : World
signed_out = record after_reading { flow = sign_out after_reading.flow }

no_token : (set_notice (txt "bye") signed_out.flow).token ≡ []
unfolding set_notice sign_out txt
no_token = refl

sign_out-StaysOut_example :
    IsBlank (record signed_out { flow = set_notice (txt "bye") signed_out.flow })
sign_out-StaysOut_example =
    sign_out-StaysOut after_reading refl (more start (notes (txt "bye")) no_token)

new_token : txt "n" ≢ []
unfolding txt
new_token = λ e. cc

sign_out-leak_example :
    (out : World) × (u : World) × (v : World) × Step loading out
    × (out.flow.token ≡ [])
    × (out.flow.user ≡ none)
    × (out.flow.jobs ≡ [])
    × Step out u
    × (u.flow.token ≡ txt "n")
    × (u.flow.user ≡ some user)
    × (u.flow.jobs ≡ [])
    × (u.pending ≡ [] ++ (reading (txt "t") ∷ ([] ++ reading (txt "n") ∷ [])))
    × Step u v
    × (v.pending ≡ [] ++ ([] ++ reading (txt "n") ∷ []))
    × (v.flow.token ≡ txt "n")
    × (v.flow.user ≡ some user)
    × (v.flow.jobs ≡ jobs)
    × (v.flow.stats ≡ some stats)
sign_out-leak_example =
    sign_out-leak loading [] [] (txt "t") (txt "n") user jobs stats one_reading new_token

-- A batch of three, the last of which the server refuses.
abbrev form : Form
form = record {
  type = str (txt "send_email");
  queue = str (txt "default");
  priority = num (pos 5);
  max_attempts = num (pos 3);
  force_fail = true;
  scheduled_at = str [];
  batch_count = num (pos 3);
  payload = obj end;
}

abbrev server : ℕ → NewJob → Settled Job
server zero body = fulfilled first_job
server (suc zero) body = fulfilled second_job
server _ body = rejected (txt "Too Many Requests")

create_all-Ends_example :
    Ends platform server form 0
      (count platform form)
      (record { sent = []; created = []; failure = none })
      (create_all platform server form)
create_all-Ends_example = create_all-Ends platform server form

three : count platform form ≢ 1
unfolding count to_number at_least_one
three = λ e. cc
