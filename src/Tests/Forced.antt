-- ===== src/Tests/Forced.antt =====
-- A forced failure at a concrete job.
use job_flow_web_application.Prelude.{true, [], none, some, ◌≡◌, refl}
use job_flow_web_application.Prelude.Int.{pos}
use job_flow_web_application.Prelude.Text.{txt, ◌==◌}
use job_flow_web_application.Json.{str, num, obj, end}
use job_flow_web_application.Table.{contains}
use job_flow_web_application.JobFlow.Create.{Form, payload_at}
use job_flow_web_application.Server.{Row, err}
use job_flow_web_application.Server.Repository.{new_row}
use job_flow_web_application.Server.Service.{params_of}
use job_flow_web_application.Server.Processor.{Outside, simulated_types, process}
use job_flow_web_application.Server.Processor.Forced.{process-force_fail}
use job_flow_web_application.Tests.Samples.{platform}
use job_flow_web_application.Tests.Worlds.{created_row}

abbrev outside : Outside
outside = record {
  wait = λ time. none;
  decode = λ payload. err (txt "invalid character");
  request = λ method url body. err (txt "timeout");
  quoted = λ text. text;
}

abbrev form : Form
form = record {
  type = str (txt "send_email");
  queue = str (txt "default");
  priority = num (pos 5);
  max_attempts = num (pos 2);
  force_fail = true;
  scheduled_at = str [];
  batch_count = num (pos 1);
  payload = obj end;
}

abbrev forced_row : Row
forced_row = record created_row { payload = payload_at platform form 0 }

is_simulated : contains simulated_types forced_row.type ≡ true
unfolding contains new_row params_of txt ◌==◌
is_simulated = refl

process-force_fail_example : process outside forced_row ≡ some (txt "payload requested failure")
process-force_fail_example =
    process-force_fail outside platform form 0 forced_row refl refl is_simulated
