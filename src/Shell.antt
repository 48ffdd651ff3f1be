-- ===== src/Shell.antt =====
-- The frame of the app: its views, its settings and its confirmation dialog (web/src/App.jsx,
-- web/src/components/ConfirmDialog.jsx). The type of the actions that a dialog can run is left open.
pub mod Dialog
use job_flow_web_application.Prelude.{
  List, [], ◌∷◌, Bool, true, false, ◌||◌, not, Option, none, some, if◌then◌else◌,
}
use job_flow_web_application.Prelude.Text.{Text, txt, ◌==◌, or_else}
use job_flow_web_application.Client.{Settled, fulfilled, rejected}

pub record Confirm {ℓ} (A : Type ℓ) : Type ℓ where
  pub title : Text
  pub message : Text
  pub confirm_label : Text
  pub variant : Text
  pub on_confirm : Option A

-- The two stored settings are those in `localStorage`.
pub record Shell {ℓ} (A : Type ℓ) : Type ℓ where
  pub active_view : Text
  pub density : Text
  pub stored_density : Option Text
  pub theme : Text
  pub stored_theme : Option Text
  pub confirm : Option (Confirm A)
  pub confirm_busy : Bool

-- `localStorage.getItem(key) || fallback`
unfoldable pub stored_or : Option Text → Text → Text
stored_or none fallback = fallback
stored_or (some s) fallback = or_else s fallback

-- The heading of a view.
unfoldable pub view_title : Text → Option Text
view_title view =
    if view == txt "dashboard"
    then some (txt "Operations Dashboard")
    else if view == txt "jobs"
    then some (txt "Job Control")
    else if view == txt "queues"
    then some (txt "Queue Monitor")
    else if view == txt "workers"
    then some (txt "Worker Fleet")
    else if view == txt "settings"
    then some (txt "Settings")
    else none

-- The views with a heading of their own have no top bar.
unfoldable pub has_topbar : Text → Bool
has_topbar view = not (view == txt "queues" || (view == txt "workers" || view == txt "settings"))

module _ {ℓ} {A : Type ℓ} where
  unfoldable pub mount : Option Text → Option Text → Shell A
  unfolding stored_or
  mount density theme = record {
    active_view = txt "dashboard";
    density = stored_or density (txt "comfortable");
    stored_density = density;
    theme = stored_or theme (txt "light");
    stored_theme = theme;
    confirm = none;
    confirm_busy = false;
  }

  unfoldable pub set_active_view : Text → Shell A → Shell A
  set_active_view view s = record s { active_view = view }

  unfoldable pub change_density : Text → Shell A → Shell A
  change_density next s = record s { density = next; stored_density = some next }

  unfoldable pub change_theme : Text → Shell A → Shell A
  change_theme next s = record s { theme = next; stored_theme = some next }

  unfoldable pub request_confirm : Confirm A → Shell A → Shell A
  request_confirm options s = record s { confirm = some options }

  unfoldable pub close_confirm : Shell A → Shell A
  close_confirm s = if s.confirm_busy then s else record s { confirm = none }

  abbrev pub action_of : Option (Confirm A) → Option A
  action_of none = none
  action_of (some options) = options.on_confirm

  -- `runConfirmAction` up to its wait: the state, and the action that it starts.
  unfoldable pub run_start : Shell A → Shell A × Option A
  run_start s = elim (action_of s.confirm) [
    | none ↦ (s, none)
    | some action ↦ (record s { confirm_busy = true }, some action)
  ]

  -- Its rest: an action that throws leaves the dialog open.
  unfoldable pub run_settle {κ} : {B : Type κ} → Settled B → Shell A → Shell A
  run_settle (fulfilled _) s = record s { confirm = none; confirm_busy = false }
  run_settle (rejected _) s = record s { confirm_busy = false }

-- `confirmSignOut`
unfoldable pub sign_out_confirm {ℓ} : {A : Type ℓ} → A → Confirm A
sign_out_confirm sign_out = record {
  title = txt "Sign out?";
  message = txt "Your current session will close on this device. You can sign in again anytime.";
  confirm_label = txt "Sign out";
  variant = txt "warning";
  on_confirm = some sign_out;
}
