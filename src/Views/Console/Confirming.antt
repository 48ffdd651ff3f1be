-- ===== src/Views/Console/Confirming.antt =====
-- The dialog on the screen and what the frame makes of it (web/src/components/ConfirmDialog.jsx, web/src/App.jsx).
use job_flow_web_application.Prelude.{
  List, Bool, true, Option, none, some, ◌≡◌, refl, All, inl, inr, Bool-cases,
}
use job_flow_web_application.Prelude.Text.{Text, txt, ◌==◌}
use job_flow_web_application.Model.{Job, Platform}
use job_flow_web_application.Shell.{Shell, Confirm}
use job_flow_web_application.Shell.Dialog.{close_confirm-busy}
use job_flow_web_application.Markup.{EventKind, click, mouse_down, submit}
use job_flow_web_application.Markup.Events.{Target, fire, offers}
use job_flow_web_application.Markup.Bubbling.{All-fire}
use job_flow_web_application.Views.Dialog.{confirm_dialog, key_down}
use job_flow_web_application.Views.Console.{Task, Action, dismiss, confirm, dialog, respond}

module _ (platform : Platform) (jobs : List Job) (selected : List Text) (shell : Shell Task) where
  -- An action that changes nothing and starts nothing.
  abbrev pub IsIdle : Action → Type 0
  IsIdle a = respond platform jobs selected a shell ≡ (shell, none)

  dismiss-IsIdle : shell.confirm_busy ≡ true → IsIdle dismiss
  unfolding respond
  dismiss-IsIdle busy = rw (close_confirm-busy shell busy) refl

  offers-IsIdle :
      (kind : EventKind) (options : Option (Confirm Task)) (busy : Bool)
      → busy ≡ true
      → IsIdle dismiss
      → All IsIdle (offers kind (confirm_dialog options busy dismiss confirm))
  unfolding offers confirm_dialog
  offers-IsIdle kind none busy e h = tt
  offers-IsIdle click (some options) busy e h = rw e (h, tt)
  offers-IsIdle mouse_down (some options) busy e h = rw e (h, tt)
  offers-IsIdle submit (some options) busy e h = rw e tt

  key_down-IsIdle :
      (options : Option (Confirm Task)) (pressed : Text)
      → IsIdle dismiss
      → All IsIdle (key_down options pressed dismiss)
  unfolding key_down
  key_down-IsIdle none pressed h = tt
  key_down-IsIdle (some options) pressed h = elim (Bool-cases (pressed == txt "Escape")) [
    | inl escape ↦ rw escape (h, tt)
    | inr other ↦ rw other tt
  ]

  -- While a confirmed action runs, no click or press of the mouse anywhere in the dialog, its overlay and
  -- its buttons included, and no key changes the frame or starts a task.
  pub fire-dialog :
      (kind : EventKind) (target : Target) (pressed : Text)
      → shell.confirm_busy ≡ true
      → All IsIdle (fire kind target (dialog shell)).asked
        × All IsIdle (key_down shell.confirm pressed dismiss)
  unfolding dialog
  fire-dialog kind target pressed busy = (
    All-fire kind IsIdle target (confirm_dialog shell.confirm shell.confirm_busy dismiss confirm)
        (offers-IsIdle kind shell.confirm shell.confirm_busy busy (dismiss-IsIdle busy)),
    key_down-IsIdle shell.confirm pressed (dismiss-IsIdle busy),
  )
