-- ===== src/Tests/Panels.antt =====
-- Payloads that differ in an identifier, at concrete inputs.
use job_flow_web_application.Prelude.{true, ◌≡◌, refl}
use job_flow_web_application.Prelude.Text.{txt, ◌==◌, ends_with}
use job_flow_web_application.Prelude.Int.{pos}
use job_flow_web_application.Json.{Json, num, str, obj, end, field}
use job_flow_web_application.Format.{is_identifier}
use job_flow_web_application.Format.Payloads.{shown, unseen, no_fields, objects, same, Agree}

-- Two payloads that differ in the identifier of a user.
abbrev pub order_of : Json → Json
order_of user_id = obj (field (txt "total") (num (pos 3)) (field (txt "user_id") user_id end))

user_id-IsIdentifier : is_identifier (txt "user_id") ≡ true
unfolding is_identifier txt ◌==◌ ends_with
user_id-IsIdentifier = refl

pub order_of-Agree : Agree (order_of (num (pos 7))) (order_of (str (txt "x")))
order_of-Agree = objects (
    shown (txt "total") (same _)
      (unseen (txt "user_id") (num (pos 7)) (str (txt "x")) user_id-IsIdentifier no_fields))
