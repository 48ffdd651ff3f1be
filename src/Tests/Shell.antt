-- ===== src/Tests/Shell.antt =====
-- The frame of the app at concrete inputs.
use job_flow_web_application.Prelude.{◌+◌, false, some, none, ◌≡◌, refl}
use job_flow_web_application.Prelude.Text.{Text, txt}
use job_flow_web_application.Shell.{mount, request_confirm, sign_out_confirm, run_start}
use job_flow_web_application.Shell.Dialog.{
  World, here, next, requests, confirms, IsGuarded, started, Reach-IsGuarded,
}

-- An action is a name here.
abbrev at_first : World Text
at_first = record { shell = mount none (some (txt "dark")); running = 0 }

abbrev asked : World Text
asked = record at_first { shell = request_confirm (sign_out_confirm (txt "out")) at_first.shell }

abbrev confirmed : World Text
confirmed = record {
  shell = (run_start asked.shell).0;
  running = 0 + started (run_start asked.shell).1;
}

not_busy : asked.shell.confirm_busy ≡ false
unfolding mount request_confirm
not_busy = refl

Reach-IsGuarded_example : IsGuarded confirmed
Reach-IsGuarded_example =
    Reach-IsGuarded none (some (txt "dark")) confirmed
      (next (next here (requests (sign_out_confirm (txt "out")))) (confirms not_busy))
