-- ===== src/Views/Clicks.antt =====
-- What a click in the app asks for (web/src/App.jsx, web/src/components, web/src/views).
pub mod Frames
pub mod Panels
pub mod Whole
use job_flow_web_application.Prelude.{
  ℕ, suc, List, [], ◌∷◌, ◌≤◌, Bool, true, false, Option, none, some, ◌≡◌, refl, inl, inr, length,
  Bool-cases, ◌&&◌,
}
use job_flow_web_application.Prelude.Text.{Text, is_empty}
use job_flow_web_application.Prelude.Int.{ℤ}
use job_flow_web_application.Json.{Json, null, bool, num, str, arr, obj, Items, nil, cons}
use job_flow_web_application.Model.{Job, Platform}
use job_flow_web_application.Markup.{
  EventKind, click, mouse_down, submit, Markup, when, each, child, child_items,
}
use job_flow_web_application.Markup.Events.{single, contained, handlers, stopped}
use job_flow_web_application.Markup.Bubbling.{single-each, contained-each, single-when}
use job_flow_web_application.Format.{job_display_name}
use job_flow_web_application.Templates.{status_options}
use job_flow_web_application.Views.Fleet.{is_none_of}
use job_flow_web_application.Views.{Locale}
use job_flow_web_application.Views.Details.{status_badge}
use job_flow_web_application.Views.Rows.{
  TableAction, table_buttons, toolbar, head_row, job_row, pagination,
}
use job_flow_web_application.Views.Rows.Listing.{TableProps, job_table, job_rows}

module _ (A : Type 0) (kind : EventKind) where
  mutual
    unfolding contained child

    pub contained-child :
        (int_text : ℤ → Text) (v : Json) → contained kind (child {A = A} int_text v) ≡ true
    contained-child int_text null = refl
    contained-child int_text (bool b) = refl
    contained-child int_text (num n) = refl
    contained-child int_text (str s) = refl
    contained-child int_text (arr items) = contained-child_items int_text items
    contained-child int_text (obj fields) = refl

    contained-child_items :
        (int_text : ℤ → Text) (items : Items)
        → contained kind (child_items {A = A} int_text items) ≡ true
    contained-child_items int_text nil = refl
    contained-child_items int_text (cons v items) =
        rw (contained-child int_text v) (contained-child_items int_text items)

  mutual
    unfolding single child

    pub single-child :
        (int_text : ℤ → Text) (v : Json) → single kind (child {A = A} int_text v) ≡ true
    single-child int_text null = refl
    single-child int_text (bool b) = refl
    single-child int_text (num n) = refl
    single-child int_text (str s) = refl
    single-child int_text (arr items) = single-child_items int_text items
    single-child int_text (obj fields) = refl

    single-child_items :
        (int_text : ℤ → Text) (items : Items)
        → single kind (child_items {A = A} int_text items) ≡ true
    single-child_items int_text nil = refl
    single-child_items int_text (cons v items) =
        rw (single-child int_text v) (single-child_items int_text items)

module _ (locale : Locale) {A : Type 0} (act : TableAction → A) where
  single-job_row :
      (chosen : Option Job) (selected : List Text) (job : Job)
      → single click (job_row locale act chosen selected job) ≡ true
  unfolding single job_row
  single-job_row chosen selected job =
      rw
        (
          contained-child A click locale.int_text (job_display_name (some job)),
          single-child A click locale.int_text (job_display_name (some job)),
        )
        refl

  pub single-job_table :
      (to_size : Text → ℕ) (props : TableProps) (selected : List Text)
      → single click (job_table locale act to_size props selected) ≡ true
  unfolding single job_table toolbar status_options table_buttons head_row pagination
  single-job_table to_size props selected =
      rw
        (
          single-each click (job_row locale act props.selected_job selected) props.jobs
              (single-job_row props.selected_job selected),
          single-when click (is_none_of props.jobs) _ refl,
        )
        refl
