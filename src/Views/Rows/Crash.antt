-- ===== src/Views/Rows/Crash.antt =====
-- When React can render the table of the jobs (web/src/components/JobTable.jsx).
use mathlib.Core.Bool.{and-true}
use job_flow_web_application.Prelude.{
  ℕ, List, Bool, true, false, Option, some, ◌≡◌, refl, ◌&&◌, all,
}
use job_flow_web_application.Prelude.Text.{Text}
use job_flow_web_application.Prelude.Int.{ℤ}
use job_flow_web_application.Json.{Json, null, bool, num, str, arr, obj, Items, nil, cons}
use job_flow_web_application.Model.{Job}
use job_flow_web_application.Format.{job_display_name}
use job_flow_web_application.Templates.{status_options}
use job_flow_web_application.Markup.{child, child_items}
use job_flow_web_application.Markup.Rendering.{renders, renders-each, renders-when}
use job_flow_web_application.Views.{Locale}
use job_flow_web_application.Views.Fleet.{is_none_of}
use job_flow_web_application.Views.Details.{status_badge}
use job_flow_web_application.Views.Rows.{
  TableAction, table_buttons, toolbar, head_row, job_row, pagination,
}
use job_flow_web_application.Views.Rows.Listing.{TableProps, job_table}

-- Neither an object nor an array that holds one, at any depth.
mutual
  pub is_showable : Json → Bool
  is_showable null = true
  is_showable (bool _) = true
  is_showable (num _) = true
  is_showable (str _) = true
  is_showable (arr items) = are_showable items
  is_showable (obj _) = false

  pub are_showable : Items → Bool
  are_showable nil = true
  are_showable (cons v items) = is_showable v && are_showable items

mutual
  unfolding renders child is_showable

  renders-child :
      (A : Type 0) (int_text : ℤ → Text) (v : Json)
      → renders (child {A = A} int_text v) ≡ is_showable v
  renders-child A int_text null = refl
  renders-child A int_text (bool b) = refl
  renders-child A int_text (num n) = refl
  renders-child A int_text (str s) = refl
  renders-child A int_text (arr items) = renders-child_items A int_text items
  renders-child A int_text (obj fields) = refl

  renders-child_items :
      (A : Type 0) (int_text : ℤ → Text) (items : Items)
      → renders (child_items {A = A} int_text items) ≡ are_showable items
  renders-child_items A int_text nil = refl
  renders-child_items A int_text (cons v items) =
      rw (renders-child A int_text v, renders-child_items A int_text items) refl

module _ (locale : Locale) {A : Type 0} (act : TableAction → A) where
  renders-job_row :
      (chosen : Option Job) (selected : List Text) (job : Job)
      → renders (job_row locale act chosen selected job) ≡ is_showable (job_display_name (some job))
  unfolding renders job_row status_badge
  renders-job_row chosen selected job =
      rw (renders-child A locale.int_text (job_display_name (some job))) (simp (and-true))

  -- The table can be rendered exactly if none of the jobs of the page has an object, or an array
  -- with one, for the name or subject that its row shows.
  pub renders-job_table :
      (to_size : Text → ℕ) (props : TableProps) (selected : List Text)
      → renders (job_table locale act to_size props selected)
        ≡ all (λ job. is_showable (job_display_name (some job))) props.jobs
  unfolding renders job_table table_buttons toolbar head_row pagination status_options
  renders-job_table to_size props selected =
      rw
        (
          renders-each (job_row locale act props.selected_job selected)
              (λ job. is_showable (job_display_name (some job))) props.jobs
              (renders-job_row props.selected_job selected),
          renders-when (is_none_of props.jobs) _ refl,
        )
        (simp (and-true))
