-- ===== src/Views/Frame.antt =====
-- The frame around the views (web/src/components/BrandLogo.jsx, web/src/components/Sidebar.jsx, web/src/components/Topbar.jsx,
-- web/src/components/Toast.jsx).
use job_flow_web_application.Prelude.{
  [], ◌∷◌, ◌++◌, List, Bool, false, ◌&&◌, not, Option, none, some, if◌then◌else◌,
}
use job_flow_web_application.Prelude.Text.{Text, txt, ◌==◌, is_empty, or_else}
use job_flow_web_application.Model.{User}
use job_flow_web_application.Markup.{
  header, aside, nav, div, h1, h2, p, span, strong, img, button, icon, click, size, class_name, key,
  named, on, Attribute, Markup, empty, text, el, each, optional, when, class, words, glyph,
}

-- `refreshing ? "spin" : ""`
abbrev pub spin : {A : Type 0} → Bool → Attribute A
spin loading = class_name (if loading then txt "spin" else txt "")

unfoldable pub brand_logo : {A : Type 0} → Bool → Markup A
brand_logo large =
    el div (class_name (txt "brand " ++ (if large then txt "large" else txt "")) ∷ []) (
      (if large
        then el img
            (class "brand-logo-full"
              ∷ named (txt "src") (txt "/jobflow-logo.png")
              ∷ named (txt "alt") (txt "JobFlow logo")
              ∷ [])
            []
        else el span
            (class "brand-logo-mark"
              ∷ named (txt "role") (txt "img")
              ∷ named (txt "aria-label") (txt "JobFlow logo")
              ∷ [])
            [])
      ∷ when (not large) (
          el div [] (
            el h1 [] (words "JobFlow" ∷ [])
            ∷ el span [] (words "Queue operations console" ∷ [])
            ∷ []))
      ∷ [])

-- The views of the side bar: key, label and icon.
unfoldable pub sidebar_items : List (Text × Text × Text)
sidebar_items =
    (txt "dashboard", txt "Dashboard", txt "Activity")
    ∷ (txt "jobs", txt "Jobs", txt "BriefcaseBusiness")
    ∷ (txt "queues", txt "Queues", txt "Workflow")
    ∷ (txt "workers", txt "Workers", txt "RadioTower")
    ∷ (txt "settings", txt "Settings", txt "Settings")
    ∷ []

-- `user?.name || user?.email || "Signed in session"`
unfoldable pub user_line : Option User → Text
user_line none = txt "Signed in session"
user_line (some user) = or_else user.name (or_else user.email (txt "Signed in session"))

module _ {A : Type 0} where
  unfoldable pub sidebar_item : Text → (Text → A) → Text × Text × Text → Markup A
  sidebar_item active_view on_navigate (view, label, symbol) =
      el button
        (key view
          ∷ class_name (if active_view == view then txt "active" else txt "")
          ∷ on click (on_navigate view)
          ∷ [])
        (el (icon symbol) (size 16 ∷ []) [] ∷ words " " ∷ text label ∷ [])

  unfoldable pub sidebar : Text → (Text → A) → A → Markup A
  unfolding brand_logo sidebar_item sidebar_items
  sidebar active_view on_navigate on_sign_out = el aside (class "sidebar" ∷ []) (
      brand_logo false
      ∷ el nav [] (each (sidebar_item active_view on_navigate) sidebar_items ∷ [])
      ∷ el div (class "system-card" ∷ []) (
          el div [] (glyph "CheckCircle2" 16 [] ∷ el strong [] (words "System Online" ∷ []) ∷ [])
          ∷ el span [] (words "All services operational" ∷ [])
          ∷ [])
      ∷ el button (class "ghost wide" ∷ on click on_sign_out ∷ [])
          (glyph "LogOut" 16 [] ∷ words " Sign out" ∷ [])
      ∷ [])

  unfoldable pub topbar : Text → Option Text → Option User → Bool → A → Markup A
  unfolding user_line
  topbar today title user loading on_refresh = el header (class "topbar" ∷ []) (
      el div [] (
        el h2 [] (optional title ∷ [])
        ∷ el p [] (text (user_line user) ∷ words " | " ∷ text today ∷ [])
        ∷ [])
      ∷ el button
          (class "icon-button" ∷ on click on_refresh ∷ named (txt "title") (txt "Refresh") ∷ [])
          (glyph "RefreshCcw" 18 (spin loading ∷ []) ∷ [])
      ∷ [])

  unfoldable pub toast : Text → Text → A → Markup A
  toast notice error on_clear =
      if is_empty notice && is_empty error
      then empty
      else el div
          (class_name (txt "toast " ++ (if is_empty error then txt "" else txt "error")) ∷ [])
          (el span [] (text (or_else error notice) ∷ [])
            ∷ el button
                (class "icon-button small"
                  ∷ on click on_clear
                  ∷ named (txt "title") (txt "Dismiss")
                  ∷ [])
                (glyph "X" 15 [] ∷ [])
            ∷ [])
