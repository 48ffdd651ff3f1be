-- ===== src/Shell/Dialog.antt =====
-- What the confirmation dialog of the app lets happen (web/src/App.jsx): a step relation of the frame and of the
-- confirmed actions that are still running.
use job_flow_web_application.Prelude.{
  ℕ, ◌+◌, ◌-◌, ◌≤◌, Bool, true, false, Option, none, some, ◌≡◌, ◌⊎◌, inl, inr, refl, arith,
  Option-cases,
}
use job_flow_web_application.Prelude.Text.{Text}
use job_flow_web_application.Json.{Json}
use job_flow_web_application.Client.{Settled, fulfilled, rejected}
use job_flow_web_application.Shell.{
  Confirm, Shell, mount, set_active_view, request_confirm, close_confirm, action_of, run_start,
  run_settle,
}

-- The frame and the number of confirmed actions that are running.
pub record World (A : Type 0) : Type 0 where
  pub shell : Shell A
  pub running : ℕ

abbrev pub started : {A : Type 0} → Option A → ℕ
started none = 0
started (some _) = 1

abbrev pub is_open : {A : Type 0} → Option A → Bool
is_open none = false
is_open (some _) = true

-- The confirm button is disabled while an action runs; Escape, the overlay and the button to
-- cancel close the dialog.
pub data Step {A : Type 0} (w : World A) : World A → Type 0 where
  requests : (options : Confirm A) → Step w (record w { shell = request_confirm options w.shell })
  closes : Step w (record w { shell = close_confirm w.shell })
  confirms :
      w.shell.confirm_busy ≡ false
      → Step w (record {
        shell = (run_start w.shell).0;
        running = w.running + started (run_start w.shell).1;
      })
  settles :
      (answer : Settled Json)
      → 1 ≤ w.running
      → Step w (record { shell = run_settle answer w.shell; running = w.running - 1 })
  navigates : (view : Text) → Step w (record w { shell = set_active_view view w.shell })

pub data Reach {A : Type 0} (w : World A) : World A → Type 0 where
  here : Reach w w
  next : {u v : World A} → Reach w u → Step u v → Reach w v

-- The app is busy exactly while one action runs, never two, and then the dialog is open.
abbrev pub IsGuarded : {A : Type 0} → World A → Type 0
IsGuarded w =
    ((w.shell.confirm_busy ≡ true) × (w.running ≡ 1) × (is_open w.shell.confirm ≡ true))
    ⊎ ((w.shell.confirm_busy ≡ false) × (w.running ≡ 0))

action-open :
    {A : Type 0} (c : Option (Confirm A)) (action : A)
    → action_of c ≡ some action
    → is_open c ≡ true
action-open none action e = cc
action-open (some _) action e = refl

-- A confirmation that starts while none runs.
run_start-IsGuarded :
    {A : Type 0} (s : Shell A) (running : ℕ)
    → s.confirm_busy ≡ false
    → running ≡ 0
    → IsGuarded (record { shell = (run_start s).0; running = running + started (run_start s).1 })
unfolding run_start
run_start-IsGuarded s running idle zero = elim (Option-cases (action_of s.confirm)) [
  | inl e ↦ rw (e, run_start) (inr (idle, omega arith))
  | inr (action, e) ↦ rw (e, run_start) (inl (refl, omega arith, action-open s.confirm action e))
]

settles-IsGuarded :
    {A : Type 0} (answer : Settled Json) (s : Shell A) (running : ℕ)
    → running ≡ 0
    → IsGuarded (record { shell = run_settle answer s; running = running })
unfolding run_settle
settles-IsGuarded (fulfilled _) s running e = inr (refl, e)
settles-IsGuarded (rejected _) s running e = inr (refl, e)

none_runs : {A : Type 0} (w : World A) → IsGuarded w → w.running - 1 ≡ 0
none_runs w (inl (b, r, o)) = omega arith
none_runs w (inr (b, r)) = omega arith

is_idle : {A : Type 0} (w : World A) → w.shell.confirm_busy ≡ false → IsGuarded w → w.running ≡ 0
is_idle w idle (inl (b, r, o)) = cc
is_idle w idle (inr (b, r)) = r

pub close_confirm-busy : {A : Type 0} (s : Shell A) → s.confirm_busy ≡ true → close_confirm s ≡ s
unfolding close_confirm
close_confirm-busy s b = rw b refl

close_confirm-idle :
    {A : Type 0} (s : Shell A)
    → s.confirm_busy ≡ false
    → close_confirm s ≡ record s { confirm = none }
unfolding close_confirm
close_confirm-idle s b = rw b refl

closes-IsGuarded :
    {A : Type 0} (w : World A)
    → IsGuarded w
    → IsGuarded (record w { shell = close_confirm w.shell })
closes-IsGuarded w (inl (b, r, o)) = rw (close_confirm-busy w.shell b) (inl (b, r, o))
closes-IsGuarded w (inr (b, r)) = rw (close_confirm-idle w.shell b) (inr (b, r))

Step-IsGuarded : {A : Type 0} {w v : World A} → Step w v → IsGuarded w → IsGuarded v
unfolding request_confirm set_active_view
Step-IsGuarded (requests options) (inl (b, r, o)) = inl (b, r, refl)
Step-IsGuarded (requests options) (inr h) = inr h
Step-IsGuarded {w = w} closes h = closes-IsGuarded w h
Step-IsGuarded {w = w} (confirms idle) h =
    run_start-IsGuarded w.shell w.running idle (is_idle w idle h)
Step-IsGuarded {w = w} (settles answer some_running) h =
    settles-IsGuarded answer w.shell (w.running - 1) (none_runs w h)
Step-IsGuarded (navigates view) h = h

-- From the first render on, whatever dialogs are asked for, closed and confirmed in any order and however
-- their actions end: either the app is busy, one action runs and its dialog is open, or it is
-- not busy and no action runs.
pub Reach-IsGuarded :
    {A : Type 0} (density theme : Option Text) (w : World A)
    → Reach (record { shell = mount density theme; running = 0 }) w
    → IsGuarded w
unfolding mount
Reach-IsGuarded density theme w here = inr (refl, refl)
Reach-IsGuarded density theme w (next run step) =
    Step-IsGuarded step (Reach-IsGuarded density theme _ run)
