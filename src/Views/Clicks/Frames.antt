-- ===== src/Views/Clicks/Frames.antt =====
-- Clicks on the frame, the dialog, the settings and the screen to sign in (web/src/components, web/src/views).
use job_flow_web_application.Prelude.{
  [], ◌∷◌, Bool, true, false, Option, none, some, ◌≡◌, refl, ◌&&◌, not,
}
use job_flow_web_application.Prelude.Text.{Text, txt, ◌==◌, is_empty}
use job_flow_web_application.Model.{Stats, User}
use job_flow_web_application.Shell.{Confirm}
use job_flow_web_application.Markup.{click}
use job_flow_web_application.Markup.Events.{single}
use job_flow_web_application.Auth.{AuthScreen}
use job_flow_web_application.Markup.Bubbling.{single-when}
use job_flow_web_application.Views.{Locale}
use job_flow_web_application.Views.Frame.{sidebar, topbar, toast, brand_logo}
use job_flow_web_application.Views.Dialog.{confirm_dialog}
use job_flow_web_application.Views.Settings.{settings_view}
use job_flow_web_application.Views.SignIn.{
  AuthAction, Reveal, auth_screen, password_field, reveal_password, reveal_confirm_password,
  set_password, set_confirm_password,
}

module _ {A : Type 0} where
  pub single-sidebar :
      (view : Text) (on_navigate : Text → A) (on_sign_out : A)
      → single click (sidebar view on_navigate on_sign_out) ≡ true
  unfolding single sidebar
  single-sidebar view on_navigate on_sign_out = refl

  pub single-topbar :
      (today : Text) (title : Option Text) (user : Option User) (loading : Bool) (on_refresh : A)
      → single click (topbar today title user loading on_refresh) ≡ true
  unfolding single topbar
  single-topbar today none user loading on_refresh = refl
  single-topbar today (some title) user loading on_refresh = refl

  pub single-toast :
      (notice error : Text) (on_clear : A) → single click (toast notice error on_clear) ≡ true
  unfolding single toast
  single-toast [] [] on_clear = refl
  single-toast [] (c ∷ error) on_clear = refl
  single-toast (c ∷ notice) error on_clear = refl

  pub single-confirm_dialog :
      {B : Type 0} (options : Option (Confirm B)) (busy : Bool) (on_cancel on_confirm : A)
      → single click (confirm_dialog options busy on_cancel on_confirm) ≡ true
  unfolding single confirm_dialog
  single-confirm_dialog none busy on_cancel on_confirm = refl
  single-confirm_dialog (some options) busy on_cancel on_confirm = refl

  pub single-settings_view :
      (locale : Locale) (density theme : Text) (f g : Text → A) (stats : Option Stats)
      (on_export on_refresh : A) (loading : Bool)
      → single click (settings_view locale density theme f g stats on_export on_refresh loading)
        ≡ true
  unfolding single settings_view
  single-settings_view locale density theme f g stats on_export on_refresh loading = refl

  single-password_field :
      (act : AuthAction → A) (name what : Text) (shown : Bool) (v : Text) (set : Text → AuthAction)
      (reveal : AuthAction)
      → single click (password_field act name what shown v set reveal) ≡ true
  unfolding single password_field
  single-password_field act name what true v set reveal = refl
  single-password_field act name what false v set reveal = refl

  pub single-auth_screen :
      (act : AuthAction → A) (s : AuthScreen) (r : Reveal)
      → single click (auth_screen act s r) ≡ true
  unfolding single auth_screen brand_logo
  single-auth_screen act s r =
      rw
        (
          single-when {A = A} click (s.mode == txt "register") _ refl,
          single-password_field act (txt "Password") (txt "password") r.show_password s.password
              set_password reveal_password,
          single-when {A = A} click (s.mode == txt "register") _ (
              single-password_field act (txt "Confirm password") (txt "confirm password")
                r.show_confirm_password s.confirm_password set_confirm_password
                reveal_confirm_password),
          single-when {A = A} click (not (is_empty s.notice && is_empty s.error)) _ refl,
        )
        refl
