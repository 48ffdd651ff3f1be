-- ===== src/Tests/Worlds.antt =====
-- A server with one job, from its creation to its end.
use job_flow_web_application.Prelude.{ℕ, ◌≤◌, [], ◌∷◌, none, some, ◌≡◌, refl, arith}
use job_flow_web_application.Prelude.Int.{ℤ, pos, ◌-ℤ◌}
use job_flow_web_application.Prelude.Text.{Text, txt, ◌==◌}
use job_flow_web_application.Server.{Row, Database}
use job_flow_web_application.Server.Rows.{row_of, update_at}
use job_flow_web_application.Server.Repository.{
  create, new_row, mark_running, mark_completed, as_running, as_completed,
}
use job_flow_web_application.Server.Queue.{Redis, queue_key, score_of, enqueue, set_at, dequeue}
use job_flow_web_application.Server.Service.{CreateJobInput, params_of, create_job}
use job_flow_web_application.Server.Pool.{pow_two, handle_start, handle_end}
use job_flow_web_application.Server.Steps.{
  World, start, bump, drop_one, claims_one, creates, pops, claims, ends, stops, Reach, here, next,
}
use job_flow_web_application.Table.{contains}
use job_flow_web_application.Tests.Sets.{Members, sets}

abbrev pub round : ℤ → ℤ
round n = n

abbrev pub convert : ℕ → ℤ
convert n = pos (pow_two n)

abbrev pub db : Database
db = record {
  fault = none;
  bad_value = txt "value too long";
  no_rows = txt "no rows in result set";
  duplicate = txt "duplicate key value";
}

abbrev pub redis : Redis Members
redis = record { sets = λ _. []; dead = [] }

abbrev pub input : CreateJobInput
input = record {
  user_id = txt "u";
  queue = txt "";
  type = txt "send_email";
  payload = none;
  priority = pos 5;
  max_attempts = pos 2;
  scheduled_at = none;
}

abbrev pub id : Text
id = txt "a"

abbrev pub new_world : World Members
new_world = record (start redis) {
  store = (create_job sets round db none id 7 input (start redis).store).0;
}

abbrev pub created_row : Row
created_row = new_row id 7 (params_of input)

absent : row_of id (start redis).store.rows ≡ none
unfolding row_of
absent = refl

pub reach_new : Reach sets round convert (start redis) new_world
reach_new = next here (creates db none id 7 input absent)

abbrev pub default : Text
default = txt "default"

abbrev pub popped_redis : Redis Members
popped_redis = set_at sets round (queue_key default) (λ _. []) new_world.store.redis

pub pop_default :
    dequeue sets round (default ∷ []) new_world.store.redis ≡ some ((default, id), popped_redis)
unfolding dequeue queue_key create_job create new_row params_of enqueue score_of txt ◌==◌ ◌-ℤ◌
    contains
pop_default = refl

abbrev pub popped_world : World Members
popped_world = record new_world {
  store = record (new_world.store) { redis = popped_redis };
  popped = bump id new_world.popped;
}

pub reach_popped : Reach sets round convert (start redis) popped_world
reach_popped = next reach_new (pops (default ∷ []) default id popped_redis pop_default)

has_one : 1 ≤ popped_world.popped id
unfolding txt ◌==◌
has_one = omega arith

abbrev pub running_world : World Members
running_world = record popped_world {
  store = (handle_start sets round convert db id 8 popped_world.store).0;
  popped = drop_one id popped_world.popped;
  running =
      claims_one id (handle_start sets round convert db id 8 popped_world.store).1
        popped_world.running;
}

pub reach_running : Reach sets round convert (start redis) running_world
reach_running = next reach_popped (claims db id 8 has_one)

abbrev pub running_row : Row
running_row = as_running 8 created_row

pub running_found : row_of id running_world.store.rows ≡ some running_row
unfolding row_of update_at handle_start mark_running create_job create new_row params_of txt ◌==◌
    enqueue
running_found = refl

pub one_runs : 1 ≤ running_world.running id
unfolding row_of update_at handle_start mark_running create_job create new_row params_of txt ◌==◌
    enqueue
one_runs = omega arith

abbrev pub done_world : World Members
done_world = record running_world {
  store = handle_end sets round convert db none id 9 none running_world.store;
  running = drop_one id running_world.running;
}

pub reach_done : Reach sets round convert (start redis) done_world
reach_done = next reach_running (ends db none id 9 none one_runs)

abbrev pub done_row : Row
done_row = as_completed 9 running_row

pub done_found : row_of id done_world.store.rows ≡ some done_row
unfolding row_of update_at handle_start handle_end mark_running mark_completed create_job create
    new_row params_of txt ◌==◌ enqueue
done_found = refl

-- The worker stops instead.
abbrev pub stopped_world : World Members
stopped_world = record running_world { running = drop_one id running_world.running }

pub reach_stopped : Reach sets round convert (start redis) stopped_world
reach_stopped = next reach_running (stops id one_runs)

pub stopped_idle : stopped_world.running id ≡ 0
unfolding row_of update_at handle_start mark_running create_job create new_row params_of txt ◌==◌
    enqueue
stopped_idle = refl
