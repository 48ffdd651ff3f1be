-- ===== src/Views/Console/Navigation.antt =====
-- The views that the app can be led to (web/src/App.jsx, web/src/components/Sidebar.jsx).
use job_flow_web_application.Prelude.{
  inl, inr, Option-cases, Bool-cases, List, [], ◌∷◌, Bool, true, false, Option, none, some, ◌≡◌,
  refl, arith, All,
}
use job_flow_web_application.Prelude.Text.{Text, txt, ◌==◌}
use job_flow_web_application.Json.{Json}
use job_flow_web_application.Model.{Job, Platform}
use job_flow_web_application.Client.{Settled, fulfilled, rejected}
use job_flow_web_application.Shell.{
  Shell, Confirm, request_confirm, set_active_view, change_density, change_theme, mount, view_title,
  run_settle, run_start, action_of, close_confirm,
}
use job_flow_web_application.Markup.{EventKind, click, mouse_down, submit}
use job_flow_web_application.Markup.Events.{Target, fire, offers}
use job_flow_web_application.Markup.Rendering.{count_class}
use job_flow_web_application.Markup.Bubbling.{All-fire}
use job_flow_web_application.Views.Frame.{sidebar, sidebar_items}
use job_flow_web_application.Views.Console.{
  Task, Action, navigate, set_density, set_theme, ask_sign_out, dismiss, confirm, refresh,
  clear_toast, export_all, auth, workers, asked, page, dialog, respond,
}
use job_flow_web_application.Views.Dialog.{confirm_dialog, key_down}
use job_flow_web_application.Views.Rows.{
  TableAction, choose, retry, ask_cancel, export, toggle, toggle_all, bulk_retry, bulk_cancel,
  control,
}
use job_flow_web_application.Views.Pages.{
  PageAction, table, compose, export_filtered, refresh_all, focus_create,
}

-- A view that has a heading, and for which exactly one element of the side bar is marked as active.
abbrev pub IsShown : Text → Type 0
IsShown view =
    (count_class (txt "active") (sidebar view navigate ask_sign_out) ≡ 1)
    × ((title : Text) × (view_title view ≡ some title))

-- Only known views are navigated to.
abbrev IsSafe : Action → Type 0
IsSafe (navigate view) = IsShown view
IsSafe _ = Unit

All-sidebar :
    (kind : EventKind) (view : Text) → All IsSafe (offers kind (sidebar view navigate ask_sign_out))
unfolding offers count_class sidebar sidebar_items txt ◌==◌ view_title
All-sidebar click view = (
  (refl, (_, refl)),
  ((refl, (_, refl)), ((refl, (_, refl)), ((refl, (_, refl)), ((refl, (_, refl)), (tt, tt))))),
)
All-sidebar mouse_down view = tt
All-sidebar submit view = tt

All-dialog :
    (kind : EventKind) (options : Option (Confirm Task)) (busy : Bool)
    → All IsSafe (offers kind (confirm_dialog options busy dismiss confirm))
unfolding offers confirm_dialog
All-dialog kind none busy = tt
All-dialog click (some options) true = (tt, tt)
All-dialog click (some options) false = (tt, (tt, (tt, tt)))
All-dialog mouse_down (some options) true = (tt, tt)
All-dialog mouse_down (some options) false = (tt, tt)
All-dialog submit (some options) true = tt
All-dialog submit (some options) false = tt

All-key_down :
    (options : Option (Confirm Task)) (pressed : Text)
    → All IsSafe (key_down options pressed dismiss)
unfolding key_down
All-key_down none pressed = tt
All-key_down (some options) pressed = elim (Bool-cases (pressed == txt "Escape")) [
  | inl escape ↦ rw escape (tt, tt)
  | inr other ↦ rw other tt
]

run_start-view : (s : Shell Task) → (run_start s).0.active_view ≡ s.active_view
unfolding run_start
run_start-view s = elim (Option-cases (action_of s.confirm)) [
  | inl e ↦ rw (e, run_start) refl
  | inr (task, e) ↦ rw (e, run_start) refl
]

close_confirm-view : (s : Shell Task) → (close_confirm s).active_view ≡ s.active_view
unfolding close_confirm
close_confirm-view s = ground arith

asked-view : (o : Option (Confirm Task)) (s : Shell Task) → (asked o s).active_view ≡ s.active_view
unfolding request_confirm
asked-view none s = refl
asked-view (some options) s = refl

module _ (platform : Platform) (jobs : List Job) (selected : List Text) where
  table-view :
      (a : TableAction) (s : Shell Task)
      → (respond platform jobs selected (page (table a)) s).0.active_view ≡ s.active_view
  unfolding respond request_confirm
  table-view (choose job) s = refl
  table-view (retry job) s = refl
  table-view (ask_cancel job) s = refl
  table-view (export those) s = refl
  table-view (toggle id) s = refl
  table-view toggle_all s = refl
  table-view bulk_retry s = refl
  table-view bulk_cancel s = asked-view _ s
  table-view (control c) s = refl

  page-view :
      (a : PageAction) (s : Shell Task)
      → (respond platform jobs selected (page a) s).0.active_view ≡ s.active_view
  unfolding respond
  page-view (table a) s = table-view a s
  page-view (compose a) s = refl
  page-view (export_filtered those) s = refl
  page-view refresh_all s = refl
  page-view focus_create s = refl

  -- A view that is shown after a safe action, if one was before.
  respond-IsShown :
      (a : Action) (s : Shell Task)
      → IsSafe a
      → IsShown s.active_view
      → IsShown (respond platform jobs selected a s).0.active_view
  unfolding respond set_active_view change_density change_theme request_confirm
  respond-IsShown (navigate view) s safe h = safe
  respond-IsShown (set_density next) s safe h = h
  respond-IsShown (set_theme next) s safe h = h
  respond-IsShown ask_sign_out s safe h = h
  respond-IsShown refresh s safe h = h
  respond-IsShown clear_toast s safe h = h
  respond-IsShown export_all s safe h = h
  respond-IsShown dismiss s safe h = rw (close_confirm-view s) h
  respond-IsShown confirm s safe h = rw (run_start-view s) h
  respond-IsShown (auth a) s safe h = h
  respond-IsShown (page a) s safe h = rw (page-view a s) h
  respond-IsShown (workers a) s safe h = h

  -- One action after another; the tasks that they start are left to `Step.answers`.
  abbrev pub respond_all : List Action → Shell Task → Shell Task
  respond_all [] s = s
  respond_all (a ∷ rest) s = respond_all rest (respond platform jobs selected a s).0

  respond_all-IsShown :
      (actions : List Action) (s : Shell Task)
      → All IsSafe actions
      → IsShown s.active_view
      → IsShown (respond_all actions s).active_view
  respond_all-IsShown [] s safe h = h
  respond_all-IsShown (a ∷ rest) s (safe, others) h =
      respond_all-IsShown rest _ others (respond-IsShown a s safe h)

run_settle-view :
    (answer : Settled Json) (s : Shell Task) → (run_settle answer s).active_view ≡ s.active_view
unfolding run_settle
run_settle-view (fulfilled _) s = refl
run_settle-view (rejected _) s = refl

-- What happens to the frame: a click or press somewhere on the side bar or on the dialog, a key, anything
-- that the settings and the pages ask for, and the end of a task.
pub data Step (platform : Platform) (s : Shell Task) : Shell Task → Type 0 where
  on_sidebar :
      (kind : EventKind) (target : Target) (jobs : List Job) (selected : List Text)
      → Step platform s (
          respond_all platform jobs selected
            (fire kind target (sidebar s.active_view navigate ask_sign_out)).asked
            s)
  on_dialog :
      (kind : EventKind) (target : Target) (jobs : List Job) (selected : List Text)
      → Step platform s (respond_all platform jobs selected (fire kind target (dialog s)).asked s)
  on_key :
      (pressed : Text) (jobs : List Job) (selected : List Text)
      → Step platform s (respond_all platform jobs selected (key_down s.confirm pressed dismiss) s)
  on_density : (chosen : Text) → Step platform s (change_density chosen s)
  on_theme : (chosen : Text) → Step platform s (change_theme chosen s)
  on_page :
      (a : PageAction) (jobs : List Job) (selected : List Text)
      → Step platform s (respond platform jobs selected (page a) s).0
  answers : (answer : Settled Json) → Step platform s (run_settle answer s)

pub data Reach (platform : Platform) (s : Shell Task) : Shell Task → Type 0 where
  start : Reach platform s s
  next : {t u : Shell Task} → Reach platform s t → Step platform t u → Reach platform s u

Step-IsShown :
    {platform : Platform} {s t : Shell Task}
    → Step platform s t
    → IsShown s.active_view
    → IsShown t.active_view
unfolding dialog change_density change_theme
Step-IsShown {platform = platform} {s = s} (on_sidebar kind target jobs selected) h =
    respond_all-IsShown platform jobs selected _ s
      (All-fire kind IsSafe target (sidebar s.active_view navigate ask_sign_out)
        (All-sidebar kind s.active_view))
      h
Step-IsShown {platform = platform} {s = s} (on_dialog kind target jobs selected) h =
    respond_all-IsShown platform jobs selected _ s
      (All-fire kind IsSafe target (confirm_dialog s.confirm s.confirm_busy dismiss confirm)
        (All-dialog kind s.confirm s.confirm_busy))
      h
Step-IsShown {platform = platform} {s = s} (on_key pressed jobs selected) h =
    respond_all-IsShown platform jobs selected _ s (All-key_down s.confirm pressed) h
Step-IsShown (on_density chosen) h = h
Step-IsShown (on_theme chosen) h = h
Step-IsShown {platform = platform} {s = s} (on_page a jobs selected) h =
    rw (page-view platform jobs selected a s) h
Step-IsShown {s = s} (answers answer) h = rw (run_settle-view answer s) h

mount-IsShown : (density theme : Option Text) → IsShown (mount {A = Task} density theme).active_view
unfolding mount count_class sidebar sidebar_items txt ◌==◌ view_title
mount-IsShown density theme = (refl, (_, refl))

-- From the first render on, whatever is clicked on the side bar and in dialogs, whatever keys are
-- pressed, whatever the settings and the pages ask for and however tasks end: the active view has a
-- heading, and exactly one element of the side bar is marked as active.
pub Reach-IsShown :
    (platform : Platform) (density theme : Option Text) (s : Shell Task)
    → Reach platform (mount density theme) s
    → IsShown s.active_view
Reach-IsShown platform density theme s start = mount-IsShown density theme
Reach-IsShown platform density theme s (next run step) =
    Step-IsShown step (Reach-IsShown platform density theme _ run)
