-- ===== src/Tests/Server.antt =====
-- The server at work, at concrete worlds.
use job_flow_web_application.Prelude.{ℕ, [], ◌∷◌, none, some, ◌≡◌, refl}
use job_flow_web_application.Prelude.Text.{Text, txt}
use job_flow_web_application.Server.{Row}
use job_flow_web_application.Server.Rows.{row_of}
use job_flow_web_application.Server.Life.{Move}
use job_flow_web_application.Server.Evolution.{EvolveAll}
use job_flow_web_application.Server.Steps.{ends, cancels, here, next, Reach, World}
use job_flow_web_application.Server.Steps.Invariant.{IsHeld, Reach-IsHeld}
use job_flow_web_application.Server.Steps.Refinement.{Reach-EvolveAll}
use job_flow_web_application.Server.Steps.Sound.{IsLawful, Reach-IsLawful}
use job_flow_web_application.Server.Steps.Final.{IsSameJob, Reach-IsSameJob, Reach-over}
use job_flow_web_application.Server.Steps.Abandoned.{IsAbandoned, Reach-IsAbandoned}
use job_flow_web_application.Server.Service.{cancel_job}
use job_flow_web_application.Tests.Sets.{Members, sets}
use job_flow_web_application.Tests.Worlds.{
  round, convert, db, redis, id, running_world, reach_running, running_row, running_found, one_runs,
  done_world, reach_done, done_row, done_found, stopped_world, reach_stopped, stopped_idle,
}

Reach-IsHeld_example : IsHeld running_world
Reach-IsHeld_example = Reach-IsHeld sets round convert redis running_world reach_running

Reach-EvolveAll_example :
    EvolveAll Move running_world.retried done_world.retried running_world.store.rows
      done_world.store.rows
Reach-EvolveAll_example =
    Reach-EvolveAll sets round convert redis running_world done_world reach_running
      (ends db none id 9 none one_runs)

Reach-IsLawful_example : IsLawful done_row (done_world.retried id)
Reach-IsLawful_example =
    Reach-IsLawful sets round convert redis done_world reach_done id done_row done_found

abbrev cancelled_world : World Members
cancelled_world = record done_world {
  store = (cancel_job sets round db id (txt "u") 10 done_world.store).0;
}

cancelling : Reach sets round convert done_world cancelled_world
cancelling = next here (cancels db id (txt "u") 10)

Reach-over_example : row_of id cancelled_world.store.rows ≡ some done_row
Reach-over_example =
    Reach-over sets round convert redis done_world cancelled_world reach_done cancelling id done_row
      done_found refl

finishing : Reach sets round convert running_world done_world
finishing = next here (ends db none id 9 none one_runs)

Reach-IsSameJob_example :
    (row : Row) × (row_of id done_world.store.rows ≡ some row) × IsSameJob running_row row
Reach-IsSameJob_example =
    Reach-IsSameJob sets round convert redis running_world done_world reach_running finishing id
      running_row running_found

abbrev cancelled_later : World Members
cancelled_later = record stopped_world {
  store = (cancel_job sets round db id (txt "u") 10 stopped_world.store).0;
}

waiting : Reach sets round convert stopped_world cancelled_later
waiting = next here (cancels db id (txt "u") 10)

Reach-IsAbandoned_example :
    IsAbandoned id running_row cancelled_later.store.rows cancelled_later.running
Reach-IsAbandoned_example =
    Reach-IsAbandoned sets round convert redis stopped_world cancelled_later reach_stopped waiting
      id running_row (running_found, refl, stopped_idle)

abbrev time_text : ℕ → Text
time_text time = time ∷ []
