-- ===== src/Auth.antt =====
-- The screen to sign in and to register (web/src/components/AuthScreen.jsx).
pub mod Passwords
use job_flow_web_application.Prelude.{
  Bool, true, false, ◌&&◌, not, Option, none, some, if◌then◌else◌,
}
use job_flow_web_application.Prelude.Text.{Text, txt, ◌==◌}
use job_flow_web_application.Json.{Json, str, obj, end, field}
use job_flow_web_application.Client.{Settled, fulfilled, rejected, Request}
use job_flow_web_application.Client.Routes.{auth_request}

-- The state of the screen, with the notice and the error that it sets in the app.
pub record AuthScreen : Type 0 where
  pub name : Text
  pub email : Text
  pub company : Text
  pub password : Text
  pub confirm_password : Text
  pub mode : Text
  pub busy : Bool
  pub notice : Text
  pub error : Text

unfoldable pub credentials : AuthScreen → Json
credentials s =
    if s.mode == txt "register"
    then obj (
        field (txt "name") (str s.name) (
          field (txt "email") (str s.email) (
            field (txt "company") (str s.company) (
              field (txt "password") (str s.password)
                (field (txt "confirm_password") (str s.confirm_password) end)))))
    else obj (field (txt "email") (str s.email) (field (txt "password") (str s.password) end))

-- `submit` up to its call of `onAuth`: the screen, and the request if it makes one.
unfoldable pub submit_start : AuthScreen → AuthScreen × Option Request
unfolding credentials
submit_start s =
    if s.mode == txt "register" && not (s.password == s.confirm_password)
    then (record s { notice = txt ""; error = txt "Passwords do not match"; busy = false }, none)
    else (
      record s { notice = txt ""; error = txt ""; busy = true },
      some (auth_request s.mode (credentials s)),
    )

-- The rest of `submit`.
unfoldable pub submit_settle : Settled Json → AuthScreen → AuthScreen
submit_settle (fulfilled _) s = record s { busy = false }
submit_settle (rejected message) s = record s { error = message; busy = false }
