-- ===== src/Views/Rows/Listing.antt =====
-- The whole table of the jobs (web/src/components/JobTable.jsx).
use job_flow_web_application.Prelude.{ℕ, List, [], ◌∷◌, Option}
use job_flow_web_application.Prelude.Text.{Text}
use job_flow_web_application.Model.{Job}
use job_flow_web_application.Filters.{Filters}
use job_flow_web_application.Markup.{section, div, p, Markup, el, each, when, class, words}
use job_flow_web_application.Views.{Locale}
use job_flow_web_application.Views.Fleet.{is_none_of}
use job_flow_web_application.Views.Rows.{
  TableAction, table_buttons, toolbar, head_row, job_row, pagination,
}

-- The props of the table that are no handlers.
pub record TableProps : Type 0 where
  pub jobs : List Job
  pub all_jobs : List Job
  pub selected_job : Option Job
  pub filters : Filters
  pub page_count : ℕ

module _ (locale : Locale) {A : Type 0} (act : TableAction → A) where
  unfoldable pub job_rows : TableProps → List Text → Markup A
  job_rows props selected = each (job_row locale act props.selected_job selected) props.jobs

  unfoldable pub job_table : (Text → ℕ) → TableProps → List Text → Markup A
  unfolding job_rows
  job_table to_size props selected = el section (class "panel table-panel" ∷ []) (
      table_buttons locale act props.all_jobs selected
      ∷ toolbar locale act to_size props.filters
      ∷ el div (class "job-table" ∷ []) (
          head_row locale act props.jobs selected
          ∷ job_rows props selected
          ∷ when (is_none_of props.jobs)
              (el p (class "empty" ∷ []) (words "No jobs match the current filters." ∷ []))
          ∷ [])
      ∷ pagination locale act props.filters props.page_count
      ∷ [])
