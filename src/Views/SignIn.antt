-- ===== src/Views/SignIn.antt =====
-- The screen to sign in and to register (web/src/components/AuthScreen.jsx).
use job_flow_web_application.Prelude.{[], ◌∷◌, ◌++◌, Bool, true, false, ◌&&◌, not, if◌then◌else◌}
use job_flow_web_application.Prelude.Text.{Text, txt, ◌==◌, is_empty, or_else}
use job_flow_web_application.Auth.{AuthScreen}
use job_flow_web_application.Markup.{
  main, section, form, div, span, label, input, button, click, submit, value, class_name, named,
  disabled, on, on_change, Markup, el, when, text, class, words, glyph, children,
}
use job_flow_web_application.Views.Frame.{brand_logo}

-- Which of the passwords can be read.
pub record Reveal : Type 0 where
  pub show_password : Bool
  pub show_confirm_password : Bool

pub data AuthAction : Type 0 where
  set_name set_email set_company set_password set_confirm_password set_mode : Text → AuthAction
  reveal_password reveal_confirm_password try_submit : AuthAction

unfoldable pub auth_screen_initial : Text → Text → AuthScreen × Reveal
auth_screen_initial notice error = (
  record {
    name = txt "";
    email = txt "";
    company = txt "";
    password = txt "";
    confirm_password = txt "";
    mode = txt "login";
    busy = false;
    notice = notice;
    error = error;
  },
  record { show_password = false; show_confirm_password = false },
)

-- What the setters do; `submit` has definitions of its own.
unfoldable pub change_auth_screen : AuthAction → AuthScreen × Reveal → AuthScreen × Reveal
change_auth_screen (set_name v) (s, r) = (record s { name = v }, r)
change_auth_screen (set_email v) (s, r) = (record s { email = v }, r)
change_auth_screen (set_company v) (s, r) = (record s { company = v }, r)
change_auth_screen (set_password v) (s, r) = (record s { password = v }, r)
change_auth_screen (set_confirm_password v) (s, r) = (record s { confirm_password = v }, r)
change_auth_screen (set_mode v) (s, r) = (record s { mode = v }, r)
change_auth_screen reveal_password (s, r) = (s, record r { show_password = not r.show_password })
change_auth_screen reveal_confirm_password (s, r) =
    (s, record r { show_confirm_password = not r.show_confirm_password })
change_auth_screen try_submit (s, r) = (s, r)

module _ {A : Type 0} (act : AuthAction → A) where
  unfoldable pub mode_button : Text → Text → Text → Markup A
  mode_button current mode name =
      el button
        (named (txt "type") (txt "button")
          ∷ class_name (if current == mode then txt "selected" else txt "")
          ∷ on click (act (set_mode mode))
          ∷ [])
        (text name ∷ [])

  abbrev text_field : Text → Text → (Text → AuthAction) → Markup A
  text_field name v set =
      el label []
        (text name ∷ el input (value v ∷ on_change (λ typed. act (set typed)) ∷ []) [] ∷ [])

  -- A password with the button that shows it; `what` is its name on the button.
  unfoldable pub password_field :
      Text → Text → Bool → Text → (Text → AuthAction) → AuthAction → Markup A
  password_field name what shown v set reveal = el label [] (
      text name
      ∷ el span (class "password-field" ∷ []) (
          el input
            (named (txt "type") (if shown then txt "text" else txt "password")
              ∷ value v
              ∷ on_change (λ typed. act (set typed))
              ∷ [])
            []
          ∷ el button
              (named (txt "type") (txt "button")
                ∷ class "password-toggle"
                ∷ on click (act reveal)
                ∷ named (txt "title") ((if shown then txt "Hide " else txt "Show ") ++ what)
                ∷ [])
              ((if shown then glyph "EyeOff" 17 [] else glyph "Eye" 17 []) ∷ [])
          ∷ [])
      ∷ [])

  unfoldable pub auth_form : AuthScreen → Reveal → Markup A
  unfolding mode_button password_field
  auth_form s r = el form (on submit (act try_submit) ∷ []) (
      el div (class "segmented" ∷ []) (
        mode_button s.mode (txt "login") (txt "Login")
        ∷ mode_button s.mode (txt "register") (txt "Register")
        ∷ [])
      ∷ when (s.mode == txt "register") (
          children (
            text_field (txt "Name") s.name set_name
            ∷ text_field (txt "Company") s.company set_company
            ∷ []))
      ∷ text_field (txt "Email") s.email set_email
      ∷ password_field (txt "Password") (txt "password") r.show_password s.password set_password
          reveal_password
      ∷ when (s.mode == txt "register") (
          password_field (txt "Confirm password") (txt "confirm password") r.show_confirm_password
            s.confirm_password set_confirm_password reveal_confirm_password)
      ∷ el button (class "primary" ∷ disabled s.busy ∷ []) (
          glyph "LogIn" 16 []
          ∷ words " "
          ∷ text (if s.busy then txt "Working..." else txt "Continue")
          ∷ [])
      ∷ [])

  unfoldable pub auth_screen : AuthScreen → Reveal → Markup A
  unfolding auth_form
  auth_screen s r = el main (class "auth-layout" ∷ []) (
      el section (class "auth-panel" ∷ []) (
        brand_logo true
        ∷ auth_form s r
        ∷ when (not (is_empty s.notice && is_empty s.error)) (
            el div
              (class_name (txt "notice " ++ (if is_empty s.error then txt "" else txt "error"))
                ∷ [])
              (text (or_else s.error s.notice) ∷ []))
        ∷ [])
      ∷ [])
