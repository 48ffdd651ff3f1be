-- ===== src/Templates.antt =====
-- The queues, job templates and states that the forms offer (web/src/data/jobTemplates.js).
use job_flow_web_application.Prelude.{List, [], ◌∷◌, Option, none, some, ℕ, if◌then◌else◌}
use job_flow_web_application.Prelude.Int.{pos}
use job_flow_web_application.Prelude.Text.{Text, txt, ◌==◌}
use job_flow_web_application.Json.{Json, num, str, obj, Fields, end, field}

pub record Template : Type 0 where
  pub label : Text
  pub queue : Text
  pub priority : ℕ
  pub payload : Json

abbrev text_field : Text → Text → Fields → Fields
text_field k s fields = field k (str s) fields

unfoldable pub queue_options : List (Text × Text)
queue_options =
    (txt "emails", txt "Emails")
    ∷ (txt "images", txt "Images")
    ∷ (txt "webhooks", txt "Webhooks")
    ∷ (txt "reports", txt "Reports")
    ∷ (txt "default", txt "Default")
    ∷ []

unfoldable pub job_templates : List (Text × Template)
job_templates =
    (
      txt "send_email",
      record {
        label = txt "Send Email";
        queue = txt "emails";
        priority = 5;
        payload = obj (
            text_field (txt "to") (txt "user@example.com") (
              text_field (txt "subject") (txt "Welcome")
                (text_field (txt "body") (txt "Hello from JobFlow") end)));
      },
    )
    ∷ (
      txt "resize_image",
      record {
        label = txt "Image Resize";
        queue = txt "images";
        priority = 3;
        payload = obj (
            text_field (txt "image_url") (txt "https://example.com/image.jpg")
              (field (txt "width") (num (pos 800)) (field (txt "height") (num (pos 600)) end)));
      },
    )
    ∷ (
      txt "send_notification",
      record {
        label = txt "Send Notification";
        queue = txt "default";
        priority = 6;
        payload = obj (
            text_field (txt "recipient") (txt "Rensith Udara")
              (text_field (txt "message") (txt "Your report is ready") end));
      },
    )
    ∷ (
      txt "generate_report",
      record {
        label = txt "Generate Report";
        queue = txt "reports";
        priority = 2;
        payload = obj (
            text_field (txt "report") (txt "monthly_revenue") (
              text_field (txt "format") (txt "pdf")
                (text_field (txt "account") (txt "Operations Team") end)));
      },
    )
    ∷ (
      txt "send_webhook",
      record {
        label = txt "Send Webhook";
        queue = txt "webhooks";
        priority = 8;
        payload = obj (
            text_field (txt "url") (txt "https://httpbin.org/post")
              (field (txt "body") (obj (text_field (txt "event") (txt "jobflow.test") end)) end));
      },
    )
    ∷ (
      txt "process_data",
      record {
        label = txt "Process Data";
        queue = txt "default";
        priority = 4;
        payload = obj (
            text_field (txt "dataset") (txt "imports/customers.csv")
              (text_field (txt "mode") (txt "dedupe") end));
      },
    )
    ∷ []

unfoldable pub status_options : List Text
status_options =
    txt "all"
    ∷ txt "queued"
    ∷ txt "running"
    ∷ txt "completed"
    ∷ txt "retrying"
    ∷ txt "failed"
    ∷ txt "dead_letter"
    ∷ txt "cancelled"
    ∷ []

unfoldable pub lookup {ℓ} : {V : Type ℓ} → Text → List (Text × V) → Option V
lookup k [] = none
lookup k ((j, v) ∷ entries) = if j == k then some v else lookup k entries

-- `jobTemplates[type]`, for a name that the object has itself
unfoldable pub template_of : Text → Option Template
unfolding lookup job_templates
template_of type = lookup type job_templates
