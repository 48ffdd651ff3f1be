-- ===== src/Tests/Views.antt =====
-- The screens at concrete inputs.
use job_flow_web_application.Prelude.{
  ℕ, ◌+◌, ◌≤◌, List, [], ◌∷◌, true, false, none, some, ◌≡◌, refl, length, All, all,
}
use job_flow_web_application.Prelude.Int.{ℤ, pos, negsuc}
use job_flow_web_application.Prelude.Text.{Text, txt}
use job_flow_web_application.Json.{Json, str, num}
use job_flow_web_application.Format.{job_display_name}
use job_flow_web_application.Composer.{Composer}
use job_flow_web_application.Shell.{Shell, mount, sign_out_confirm}
use job_flow_web_application.Markup.{click}
use job_flow_web_application.Markup.Events.{fire, offers, Target, itself, inside, left, right}
use job_flow_web_application.Markup.Rendering.{renders}
use job_flow_web_application.Views.{Locale}
use job_flow_web_application.Views.Frame.{sidebar}
use job_flow_web_application.Views.Rows.Listing.{TableProps, job_table}
use job_flow_web_application.Views.Rows.Offers.{table_actions, offers-job_table}
use job_flow_web_application.Views.Rows.Crash.{is_showable, renders-job_table}
use job_flow_web_application.Views.Details.{job_details}
use job_flow_web_application.Views.Details.Privacy.{job_details-Agree}
use job_flow_web_application.Views.Clicks.Whole.{fire-app}
use job_flow_web_application.Views.Console.{
  Task, sign_out, Action, Screen, app, dialog, navigate, ask_sign_out, dismiss,
}
use job_flow_web_application.Views.Dialog.{key_down}
use job_flow_web_application.Views.Console.Confirming.{IsIdle, fire-dialog}
use job_flow_web_application.Views.Console.Cancelling.{CanCancel, job_table-CanCancel}
use job_flow_web_application.Views.Console.Navigation.{
  respond_all, start, next, on_sidebar, IsShown, Reach-IsShown,
}
use job_flow_web_application.Tests.Samples.{
  platform, first_job, second_job, jobs, filters, stats, user,
}
use job_flow_web_application.Tests.Panels.{order_of, order_of-Agree}

abbrev digit : ℤ → Text
digit (pos n) = (48 + n) ∷ []
digit (negsuc n) = txt "-"

abbrev locale : Locale
locale = record {
  number_text = λ n. digit (pos n);
  int_text = digit;
  date_time = λ s. s;
  time_of_day = λ s. s;
  hour_minute = λ s. s;
  today = txt "1/2/2025";
  seconds_text = λ a b. txt "1.00";
  percent_text = λ part whole. txt "50";
  bar_text = λ part whole. txt "50";
  average_text = λ durations. txt "1.00";
  round_percent = λ part whole. 50;
  now = pos 20;
  json_text = λ v. txt "{}";
}

abbrev to_size : Text → ℕ
to_size chosen = 10

abbrev type_text : Json → Text
type_text (str s) = s
type_text v = txt "[object Object]"

abbrev selected : List Text
selected = txt "b" ∷ []

abbrev props : TableProps
props = record {
  jobs = jobs;
  all_jobs = jobs;
  selected_job = some second_job;
  filters = record filters { page = 1 };
  page_count = 2;
}

abbrev frame : Shell Task
frame = record {
  active_view = txt "jobs";
  density = txt "compact";
  stored_density = some (txt "compact");
  theme = txt "light";
  stored_theme = none;
  confirm = some (sign_out_confirm sign_out);
  confirm_busy = false;
}

abbrev busy_frame : Shell Task
busy_frame = record frame { confirm_busy = true }

abbrev composer : Composer
composer = record {
  type = str (txt "send_email");
  queue = str (txt "emails");
  priority = num (pos 5);
  max_attempts = num (pos 3);
  force_fail = false;
  scheduled_at = str (txt "");
  batch_count = num (pos 1);
  payload_text = txt "{}";
  json_error = txt "";
}

abbrev screen : Screen
screen = record {
  flow = record {
    token = txt "t";
    stored_token = some (txt "t");
    user = some user;
    jobs = jobs;
    stats = some stats;
    selected_job = some second_job;
    notice = txt "Signed in";
    error = txt "";
    events = [];
    loading = false;
  };
  shell = frame;
  entry = record {
    name = txt "";
    email = txt "";
    company = txt "";
    password = txt "";
    confirm_password = txt "";
    mode = txt "login";
    busy = false;
    notice = txt "";
    error = txt "";
  };
  reveal = record { show_password = false; show_confirm_password = false };
  page_state = record { filters = filters; selected = selected; composer = composer; drafts = [] };
  worker_filter = record { query = txt ""; status = txt "all" };
}

-- The first button of the side bar, and the button that closes the dialog.
abbrev first_item : Target
first_item = inside (right (left (inside (left (left itself)))))

abbrev close_button : Target
close_button = inside (left (inside (left itself)))

fire-app_example :
    length
      (fire click (inside (left first_item)) (app locale platform type_text to_size screen)).asked
    ≤ 1
fire-app_example = fire-app locale platform type_text to_size screen (inside (left first_item))

job_table-CanCancel_example : All (CanCancel locale platform to_size frame props selected) jobs
job_table-CanCancel_example = job_table-CanCancel locale platform to_size frame props selected refl

fire-dialog_example :
    All
      (IsIdle platform jobs selected busy_frame)
      (fire click close_button (dialog busy_frame)).asked
    × All
        (IsIdle platform jobs selected busy_frame)
        (key_down busy_frame.confirm (txt "Escape") dismiss)
fire-dialog_example =
    fire-dialog platform jobs selected busy_frame click close_button (txt "Escape") refl

-- The app after a click on the button of the workers' page.
abbrev at_first : Shell Task
at_first = mount none none

abbrev fourth_item : Target
fourth_item = inside (right (left (inside (left (right (right (right (left itself))))))))

abbrev then_workers : Shell Task
then_workers =
    respond_all platform jobs selected
      (fire click fourth_item (sidebar at_first.active_view navigate ask_sign_out)).asked at_first

Reach-IsShown_example : IsShown then_workers.active_view
Reach-IsShown_example =
    Reach-IsShown platform none none then_workers
      (next start (on_sidebar click fourth_item jobs selected))

offers-job_table_example :
    offers click (job_table locale (λ a. a) to_size props selected) ≡ table_actions props selected
offers-job_table_example = offers-job_table locale to_size props selected

job_details-Agree_example :
    job_details locale {A = Action} (some (record first_job { payload = order_of (num (pos 7)) }))
    ≡ job_details locale (some (record first_job { payload = order_of (str (txt "x")) }))
job_details-Agree_example =
    job_details-Agree locale Action (record first_job { payload = order_of (num (pos 7)) })
      (order_of (str (txt "x"))) order_of-Agree

renders-job_table_example :
    renders (job_table locale (λ a. a) to_size props selected)
    ≡ all (λ job. is_showable (job_display_name (some job))) jobs
renders-job_table_example = renders-job_table locale (λ a. a) to_size props selected
