-- ===== src/Tests/Table.antt =====
-- The table of jobs at concrete inputs.
use job_flow_web_application.Prelude.{
  ◌+◌, List, [], ◌∷◌, some, none, ◌≡◌, ◌⊎◌, arith, if◌then◌else◌,
}
use job_flow_web_application.Prelude.Text.{Text, txt, ◌==◌}
use job_flow_web_application.Json.{Json, null}
use job_flow_web_application.Model.{Job}
use job_flow_web_application.Client.{Settled, fulfilled, rejected}
use job_flow_web_application.Filters.{Filters, use_job_filters}
use job_flow_web_application.Table.{selected_jobs, bulk_action, following, previous, operate}
use job_flow_web_application.Table.Bulk.{Ends, bulk_action-Ends}
use job_flow_web_application.Table.Pager.{view, IsStored, operate-page}
use job_flow_web_application.Tests.Samples.{platform, jobs, filters}

abbrev selected : List Text
selected = txt "b" ∷ txt "c" ∷ []

-- A server that refuses the failed jobs.
abbrev refuses_failed : Job → Settled Json
refuses_failed job = if job.status == txt "failed" then rejected (txt "no") else fulfilled null

bulk_action-Ends_example :
    Ends refuses_failed (selected_jobs jobs selected) (bulk_action refuses_failed jobs selected).0
    × (((bulk_action refuses_failed jobs selected).0.failure ≡ none)
          × ((bulk_action refuses_failed jobs selected).1 ≡ [])
        ⊎ ((message : Text) × ((bulk_action refuses_failed jobs selected).0.failure ≡ some message)
            × ((bulk_action refuses_failed jobs selected).1 ≡ selected)))
bulk_action-Ends_example = bulk_action-Ends refuses_failed jobs selected

filters-IsStored : IsStored filters
filters-IsStored = record { size = omega arith; page = omega arith }

operate-page_example :
    (((operate (view platform jobs filters) following ≡ none)
        × ((view platform jobs filters).filters.page ≡ (view platform jobs filters).page_count))
      ⊎ ((next : Filters) × (operate (view platform jobs filters) following ≡ some next)
          × ((use_job_filters platform jobs next).filters.page
              ≡ (view platform jobs filters).filters.page + 1)))
    × (((operate (view platform jobs filters) previous ≡ none)
          × ((view platform jobs filters).filters.page ≡ 1))
        ⊎ ((next : Filters) × (operate (view platform jobs filters) previous ≡ some next)
            × ((use_job_filters platform jobs next).filters.page + 1
                ≡ (view platform jobs filters).filters.page)))
operate-page_example = operate-page platform jobs filters filters-IsStored
