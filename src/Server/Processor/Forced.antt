-- ===== src/Server/Processor/Forced.antt =====
-- A failure that the form asks for (web/src/hooks/useJobFlow.js), at the worker
-- (internal/worker/processor.go, internal/worker/pool.go).
use job_flow_web_application.Prelude.{ℕ, true, some, ◌≡◌, refl}
use job_flow_web_application.Prelude.Text.{txt}
use job_flow_web_application.Model.{Platform}
use job_flow_web_application.Table.{contains}
use job_flow_web_application.JobFlow.Create.{Form, payload_at}
use job_flow_web_application.JobFlow.Create.Progress.{payload_at-force_fail}
use job_flow_web_application.Server.{Row}
use job_flow_web_application.Server.Processor.{Outside, simulated_types, simulate, process}

-- If a failure is to be forced, every job of the batch with one of the simulated types fails at the
-- worker with the error that says so.
pub process-force_fail :
    (outside : Outside) (platform : Platform) (form : Form) (index : ℕ) (row : Row)
    → form.force_fail ≡ true
    → row.payload ≡ payload_at platform form index
    → contains simulated_types row.type ≡ true
    → process outside row ≡ some (txt "payload requested failure")
unfolding process simulate
process-force_fail outside platform form index row forced carried simulated =
    let flag = payload_at-force_fail platform form index forced in
    rw (simulated, process) (rw (carried, simulate) (rw flag refl))
