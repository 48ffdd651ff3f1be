-- ===== src/Views/Console/Cancelling.antt =====
-- From the table to the cancellation of a job (web/src/components/JobTable.jsx, web/src/components/ConfirmDialog.jsx,
-- web/src/App.jsx).
use job_flow_web_application.Prelude.{ℕ, List, [], ◌∷◌, false, Option, some, ◌≡◌, refl, All}
use job_flow_web_application.Prelude.Text.{Text}
use job_flow_web_application.Model.{Job, Platform}
use job_flow_web_application.Shell.{Shell, request_confirm, run_start}
use job_flow_web_application.Table.{cancel_confirm}
use job_flow_web_application.Markup.{click, each}
use job_flow_web_application.Markup.Events.{Target, itself, inside, left, right, fire}
use job_flow_web_application.Views.{Locale}
use job_flow_web_application.Views.Dialog.{confirm_dialog}
use job_flow_web_application.Views.Rows.{TableAction, ask_cancel, job_row}
use job_flow_web_application.Views.Rows.Listing.{TableProps, job_rows, job_table}
use job_flow_web_application.Views.Pages.{table}
use job_flow_web_application.Views.Console.{
  Task, cancel_job, Action, page, confirm, dialog, respond,
}

-- The way to the second icon in the last cell of a row, to the confirm button of a dialog, and to the
-- rows of the table.
abbrev cancel_icon : Target
cancel_icon =
    inside (right (right (right (right (right (right (left (inside (right (left itself))))))))))

abbrev confirm_button : Target
confirm_button =
    inside (left (inside (right (right (right (left (inside (right (left itself)))))))))

abbrev in_rows : Target → Target
in_rows target = inside (right (right (left (inside (right (left target))))))

module _ (locale : Locale) (platform : Platform) (to_size : Text → ℕ) where
  abbrev act : TableAction → Action
  act a = page (table a)

  fire-cancel_icon :
      (chosen : Option Job) (selected : List Text) (job : Job)
      → fire click cancel_icon (job_row locale act chosen selected job)
        ≡ record { asked = page (table (ask_cancel job)) ∷ []; going = false }
  unfolding fire job_row
  fire-cancel_icon chosen selected job = refl

  -- A click in the rows of the table, and no more of it than the rows.
  fire-in_rows :
      (target : Target) (props : TableProps) (selected : List Text) (a : Action)
      → fire click target (job_rows locale act props selected)
        ≡ record { asked = a ∷ []; going = false }
      → (fire click (in_rows target) (job_table locale act to_size props selected)).asked ≡ a ∷ []
  unfolding fire job_table
  fire-in_rows target props selected a e = rw e refl

  -- A cancellation of the job that can be asked for by a click on the table and confirmed by another.
  abbrev pub CanCancel : Shell Task → TableProps → List Text → Job → Type 0
  CanCancel shell props selected job =
      ((target : Target) × ((fire click target (job_table locale act to_size props selected)).asked
          ≡ page (table (ask_cancel job)) ∷ []))
      × ((target : Target) × ((fire click target (
              dialog
                (respond platform props.all_jobs selected (page (table (ask_cancel job)))
                  shell).0)).asked
            ≡ confirm ∷ []))
      × ((respond platform props.all_jobs selected confirm
            (respond platform props.all_jobs selected (page (table (ask_cancel job))) shell).0).1
          ≡ some (cancel_job job))

  confirming :
      (shell : Shell Task) (all_jobs : List Job) (selected : List Text) (job : Job)
      → shell.confirm_busy ≡ false
      → (fire click confirm_button (
          dialog
            (respond platform all_jobs selected (page (table (ask_cancel job))) shell).0)).asked
        ≡ confirm ∷ []
  unfolding fire dialog confirm_dialog respond request_confirm
  confirming shell all_jobs selected job idle = rw idle refl

  starting :
      (shell : Shell Task) (all_jobs : List Job) (selected : List Text) (job : Job)
      → (respond platform all_jobs selected confirm
          (respond platform all_jobs selected (page (table (ask_cancel job))) shell).0).1
        ≡ some (cancel_job job)
  unfolding respond request_confirm run_start cancel_confirm
  starting shell all_jobs selected job = refl

  -- The rows from some place in the page on, with the way to that place.
  All-rows :
      (shell : Shell Task) (props : TableProps) (selected : List Text) (jobs : List Job)
      (place : Target → Target)
      → shell.confirm_busy ≡ false
      → ((target : Target) (a : Action)
          → fire click target (each (job_row locale act props.selected_job selected) jobs)
            ≡ record { asked = a ∷ []; going = false }
          → (fire click (place target) (job_table locale act to_size props selected)).asked
            ≡ a ∷ [])
      → All (CanCancel shell props selected) jobs
  unfolding fire
  All-rows shell props selected [] place idle reach = tt
  All-rows shell props selected (job ∷ jobs) place idle reach = (
    (
      (
        place (left cancel_icon),
        reach (left cancel_icon) _ (fire-cancel_icon props.selected_job selected job),
      ),
      (confirm_button, confirming shell props.all_jobs selected job idle),
      starting shell props.all_jobs selected job,
    ),
    All-rows shell props selected jobs (λ target. place (right target)) idle
        (λ target a e. reach (right target) a e),
  )

  -- While no confirmed action runs, every job of the page can be cancelled by two clicks: one on the
  -- table, which asks for that job's cancellation, and one on the dialog that the frame then shows,
  -- which starts the cancellation of that very job.
  pub job_table-CanCancel :
      (shell : Shell Task) (props : TableProps) (selected : List Text)
      → shell.confirm_busy ≡ false
      → All (CanCancel shell props selected) props.jobs
  unfolding job_rows
  job_table-CanCancel shell props selected idle =
      All-rows shell props selected props.jobs in_rows idle
        (λ target a e. fire-in_rows target props selected a e)
