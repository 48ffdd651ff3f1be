-- ===== src/Server/Processor.antt =====
-- What a worker does for a job (internal/worker/processor.go).
pub mod Forced
use job_flow_web_application.Prelude.{
  ℕ, List, [], ◌∷◌, ◌++◌, Bool, true, false, Option, none, some, leb, if◌then◌else◌,
}
use job_flow_web_application.Prelude.Int.{ℤ}
use job_flow_web_application.Prelude.Text.{Text, txt, ◌==◌, is_empty, or_else}
use job_flow_web_application.Json.{Json, bool, member}
use job_flow_web_application.Table.{contains}
use job_flow_web_application.Server.{Row, Answer, ok, err}
use job_flow_web_application.Server.Queue.{times, plus_now}

-- The call that the payload of a webhook asks for.
pub record Call : Type 0 where
  pub url : Text
  pub method : Text
  pub body : Json

-- What the code calls: the wait for a number of milliseconds, with the error of the context if that ends
-- first; the reading of a payload as a call; the request, with the code and the text of its status;
-- and a text in quotes.
pub record Outside : Type 0 where
  pub wait : ℤ → Option Text
  pub decode : Json → Answer Call
  pub request : Text → Text → Json → Answer (ℕ × Text)
  pub quoted : Text → Text

abbrev pub simulated_types : List Text
simulated_types =
    txt "send_email"
    ∷ txt "send_notification"
    ∷ txt "resize_image"
    ∷ txt "generate_report"
    ∷ txt "process_data"
    ∷ []

-- `fail, _ := payload["force_fail"].(bool)`
abbrev pub is_true : Option Json → Bool
is_true (some (bool b)) = b
is_true _ = false

-- The results are the errors.
module _ (outside : Outside) where
  unfoldable pub simulate : Row → Option Text
  unfolding member
  simulate job =
      if is_true (member (txt "force_fail") job.payload)
      then some (txt "payload requested failure")
      else outside.wait (plus_now (times job.priority 30) 400)

  unfoldable pub webhook : Row → Option Text
  webhook job = elim (outside.decode job.payload) [
    | err message ↦ some message
    | ok call ↦
        if is_empty call.url
        then some (txt "webhook url is required")
        else elim (outside.request (or_else call.method (txt "POST")) call.url call.body) [
          | err message ↦ some message
          | ok (code, text) ↦ if leb 400 code then some (txt "webhook returned " ++ text) else none
        ]
  ]

  unfoldable pub process : Row → Option Text
  unfolding simulate webhook contains
  process job =
      if contains simulated_types job.type
      then simulate job
      else (if job.type == txt "send_webhook"
          then webhook job
          else some (txt "unknown job type " ++ outside.quoted job.type))
