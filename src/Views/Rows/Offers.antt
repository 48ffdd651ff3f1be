-- ===== src/Views/Rows/Offers.antt =====
-- What the table of the jobs offers to clicks (web/src/components/JobTable.jsx).
use mathlib.Core.List.{append-nil}
use job_flow_web_application.Prelude.{
  ℕ, List, [], ◌∷◌, ◌++◌, Option, none, some, ◌≡◌, refl, inl, inr, leb, Bool-cases, if◌then◌else◌,
}
use job_flow_web_application.Prelude.Text.{Text}
use job_flow_web_application.Prelude.Int.{ℤ}
use job_flow_web_application.Json.{Json, null, bool, num, str, arr, obj, Items, nil, cons}
use job_flow_web_application.Model.{Job}
use job_flow_web_application.Format.{job_display_name}
use job_flow_web_application.Templates.{status_options}
use job_flow_web_application.Filters.{Filters, View}
use job_flow_web_application.Table.{export_scope, selected_jobs, operate, previous, following}
use job_flow_web_application.Markup.{click, each, child, child_items}
use job_flow_web_application.Markup.Events.{offers}
use job_flow_web_application.Markup.Bubbling.{offers-when}
use job_flow_web_application.Views.{Locale}
use job_flow_web_application.Views.Fleet.{is_none_of}
use job_flow_web_application.Views.Rows.{
  TableAction, choose, retry, ask_cancel, export, toggle, toggle_all, bulk_retry, bulk_cancel,
  control, table_buttons, toolbar, head_row, job_row, pagination,
}
use job_flow_web_application.Views.Rows.Listing.{TableProps, job_table}

-- The view of the jobs that the table shows.
abbrev pub view_of : TableProps → View
view_of props = record {
  filters = props.filters;
  filtered_jobs = props.jobs;
  all_filtered_jobs = props.all_jobs;
  page_count = props.page_count;
}

abbrev row_actions : List Job → List TableAction
row_actions [] = []
row_actions (job ∷ jobs) =
    choose job ∷ toggle job.id ∷ retry job ∷ ask_cancel job ∷ row_actions jobs

abbrev if_filters : Option Filters → TableAction → List TableAction
if_filters none a = []
if_filters (some _) a = a ∷ []

-- The export; the actions on the selection if a job is selected; the checkbox of the page; of each
-- job of the page, in order, its choice, its checkbox, its retry and its cancellation; and the pager's
-- buttons that lead to other filters.
abbrev pub table_actions : TableProps → List Text → List TableAction
table_actions props selected =
    export (export_scope props.all_jobs selected)
    ∷ ((if is_none_of (selected_jobs props.all_jobs selected)
          then []
          else bulk_retry ∷ bulk_cancel ∷ [])
        ++ toggle_all
          ∷ (row_actions props.jobs
              ++ (if_filters (operate (view_of props) previous) (control previous)
                  ++ if_filters (operate (view_of props) following) (control following))))

mutual
  unfolding offers child

  offers-child :
      (int_text : ℤ → Text) (v : Json) → offers click (child {A = TableAction} int_text v) ≡ []
  offers-child int_text null = refl
  offers-child int_text (bool b) = refl
  offers-child int_text (num n) = refl
  offers-child int_text (str s) = refl
  offers-child int_text (arr items) = offers-child_items int_text items
  offers-child int_text (obj fields) = refl

  offers-child_items :
      (int_text : ℤ → Text) (items : Items)
      → offers click (child_items {A = TableAction} int_text items) ≡ []
  offers-child_items int_text nil = refl
  offers-child_items int_text (cons v items) =
      rw (offers-child int_text v) (offers-child_items int_text items)

module _ (locale : Locale) where
  offers-rows :
      (chosen : Option Job) (selected : List Text) (jobs : List Job)
      → offers click (each (job_row locale (λ a. a) chosen selected) jobs) ≡ row_actions jobs
  unfolding offers job_row
  offers-rows chosen selected [] = refl
  offers-rows chosen selected (job ∷ jobs) =
      rw
        (
          offers-child locale.int_text (job_display_name (some job)),
          offers-rows chosen selected jobs,
        )
        refl

  offers-table_buttons :
      (all_jobs : List Job) (selected : List Text)
      → offers click (table_buttons locale (λ a. a) all_jobs selected)
        ≡ export (export_scope all_jobs selected)
          ∷ (if is_none_of (selected_jobs all_jobs selected)
              then []
              else bulk_retry ∷ bulk_cancel ∷ [])
  unfolding offers table_buttons
  offers-table_buttons all_jobs selected =
      elim (Bool-cases (is_none_of (selected_jobs all_jobs selected))) [
        | inl e ↦ rw e refl
        | inr e ↦ rw e refl
      ]

  offers-pagination :
      (props : TableProps)
      → offers click (pagination locale (λ a. a) props.filters props.page_count)
        ≡ if_filters (operate (view_of props) previous) (control previous)
          ++ if_filters (operate (view_of props) following) (control following)
  unfolding offers pagination operate
  offers-pagination props = elim (Bool-cases (leb props.filters.page 1)) [
    | inl e ↦ rw e (elim (Bool-cases (leb props.page_count props.filters.page)) [
      | inl e' ↦ rw e' refl
      | inr e' ↦ rw e' refl
    ])
    | inr e ↦ rw e (elim (Bool-cases (leb props.page_count props.filters.page)) [
      | inl e' ↦ rw e' refl
      | inr e' ↦ rw e' refl
    ])
  ]

  -- The table offers to clicks exactly: the export of the selection or else of all filtered jobs; the
  -- retry and the cancellation of the selection, if it holds a filtered job; the checkbox of the page;
  -- for each job of the page in order its choice, its checkbox, its retry and its cancellation; and the
  -- button for the previous and for the next page, each if it leads to other filters.
  pub offers-job_table :
      (to_size : Text → ℕ) (props : TableProps) (selected : List Text)
      → offers click (job_table locale (λ a. a) to_size props selected)
        ≡ table_actions props selected
  unfolding offers job_table toolbar head_row status_options
  offers-job_table to_size props selected =
      rw
        (
          offers-table_buttons props.all_jobs selected,
          offers-rows props.selected_job selected props.jobs,
          offers-pagination props,
          offers-when click (is_none_of props.jobs) _ refl,
        )
        (simp (append-nil))
