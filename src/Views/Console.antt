-- ===== src/Views/Console.antt =====
-- The whole app: what it shows, and what its frame does with what is asked for (web/src/App.jsx).
pub mod Confirming
pub mod Navigation
pub mod Cancelling
use job_flow_web_application.Prelude.{
  ℕ, List, [], ◌∷◌, ◌++◌, Bool, Option, none, some, if◌then◌else◌,
}
use job_flow_web_application.Prelude.Text.{Text, txt, ◌==◌, is_empty}
use job_flow_web_application.Json.{Json}
use job_flow_web_application.Model.{Job, Platform}
use job_flow_web_application.JobFlow.{JobFlow}
use job_flow_web_application.Auth.{AuthScreen}
use job_flow_web_application.Table.{selected_jobs, cancel_confirm, bulk_cancel_confirm}
use job_flow_web_application.Shell.{
  Shell, Confirm, view_title, has_topbar, set_active_view, change_density, change_theme,
  request_confirm, close_confirm, run_start, sign_out_confirm,
}
use job_flow_web_application.Markup.{main, section, class_name, Markup, el, when, class, children}
use job_flow_web_application.Views.{Locale}
use job_flow_web_application.Views.Frame.{sidebar, topbar, toast}
use job_flow_web_application.Views.Dialog.{confirm_dialog}
use job_flow_web_application.Views.Settings.{settings_view}
use job_flow_web_application.Views.Fleet.{WorkerFilter, WorkersAction}
use job_flow_web_application.Views.Fleet.Listing.{workers_view}
use job_flow_web_application.Views.Queues.{queues_view}
use job_flow_web_application.Views.SignIn.{AuthAction, Reveal, auth_screen}
use job_flow_web_application.Views.Rows.{ask_cancel, bulk_cancel}
use job_flow_web_application.Views.Pages.{PageAction, table, PageState, dashboard_view, jobs_view}

-- What a dialog can be asked to confirm.
pub data Task : Type 0 where
  sign_out : Task
  cancel_job : Job → Task
  cancel_jobs : List Job → Task

pub data Action : Type 0 where
  navigate set_density set_theme : Text → Action
  ask_sign_out refresh clear_toast export_all dismiss confirm : Action
  auth : AuthAction → Action
  page : PageAction → Action
  workers : WorkersAction → Action

pub record Screen : Type 0 where
  pub flow : JobFlow
  pub shell : Shell Task
  pub entry : AuthScreen
  pub reveal : Reveal
  pub page_state : PageState
  pub worker_filter : WorkerFilter

unfoldable pub dialog : Shell Task → Markup Action
dialog shell = confirm_dialog shell.confirm shell.confirm_busy dismiss confirm

-- The screen to sign in shows the notice and the error of the app.
abbrev pub entry_of : Screen → AuthScreen
entry_of s = record (s.entry) { notice = s.flow.notice; error = s.flow.error }

module _ (locale : Locale) (platform : Platform) (type_text : Json → Text)
    (to_size : Text → ℕ) where
  unfoldable pub workspace : Screen → Markup Action
  workspace s =
      let view = s.shell.active_view in
      el section (class "workspace" ∷ []) (
        when (has_topbar view)
          (topbar locale.today (view_title view) s.flow.user s.flow.loading refresh)
        ∷ toast s.flow.notice s.flow.error clear_toast
        ∷ when (view == txt "dashboard")
            (dashboard_view locale platform type_text to_size page s.flow s.page_state)
        ∷ when (view == txt "jobs")
            (jobs_view locale platform type_text to_size page s.flow s.page_state)
        ∷ when (view == txt "queues") (queues_view locale refresh s.flow.stats s.flow.loading)
        ∷ when (view == txt "workers")
            (workers_view locale platform workers s.worker_filter s.flow.stats s.flow.loading)
        ∷ when (view == txt "settings") (
            settings_view locale s.shell.density s.shell.theme set_density set_theme s.flow.stats
              export_all refresh s.flow.loading)
        ∷ [])

  -- `authed` is `Boolean(token)`.
  unfoldable pub app : Screen → Markup Action
  unfolding workspace dialog
  app s =
      if is_empty s.flow.token
      then auth_screen auth (entry_of s) s.reveal
      else el main
          (class_name
              (txt "app-shell density-" ++ (s.shell.density ++ (txt " theme-" ++ s.shell.theme)))
            ∷ [])
          (sidebar s.shell.active_view navigate ask_sign_out ∷ workspace s ∷ dialog s.shell ∷ [])

-- What the frame does when it is asked for something, and the task that it starts. `jobs` are those that
-- the filters of the table let through.
abbrev pub asked : Option (Confirm Task) → Shell Task → Shell Task
asked none shell = shell
asked (some options) shell = request_confirm options shell

unfoldable pub respond :
    Platform → List Job → List Text → Action → Shell Task → Shell Task × Option Task
respond platform jobs selected (navigate view) shell = (set_active_view view shell, none)
respond platform jobs selected (set_density next) shell = (change_density next shell, none)
respond platform jobs selected (set_theme next) shell = (change_theme next shell, none)
respond platform jobs selected ask_sign_out shell =
    (request_confirm (sign_out_confirm sign_out) shell, none)
respond platform jobs selected dismiss shell = (close_confirm shell, none)
respond platform jobs selected confirm shell = run_start shell
respond platform jobs selected (page (table (ask_cancel job))) shell =
    (request_confirm (cancel_confirm platform (cancel_job job) job) shell, none)
respond platform jobs selected (page (table bulk_cancel)) shell = (
  asked
      (bulk_cancel_confirm platform (cancel_jobs (selected_jobs jobs selected))
        (selected_jobs jobs selected))
      shell,
  none,
)
respond platform jobs selected _ shell = (shell, none)
