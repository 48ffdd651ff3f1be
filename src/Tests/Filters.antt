-- ===== src/Tests/Filters.antt =====
-- The job view at concrete inputs.
use mathlib.Core.List.{Mem}
use job_flow_web_application.Prelude.{◌≡◌, ◌↔◌, refl, arith}
use job_flow_web_application.Prelude.Int.{pos}
use job_flow_web_application.Prelude.Text.{txt}
use job_flow_web_application.Filters.{sorted_jobs, use_job_filters}
use job_flow_web_application.Filters.Search.{IsSelected, mem-sorted_jobs}
use job_flow_web_application.Filters.Order.{IsCollation, Precedes, IsChain, sorted_jobs-IsChain}
use job_flow_web_application.Filters.Pages.{pages, page_at, pages-all}
use job_flow_web_application.Tests.Samples.{platform, second_job, jobs, filters}

mem-sorted_jobs_example :
    Mem second_job (sorted_jobs platform jobs filters)
    ↔ (Mem second_job jobs × IsSelected platform filters second_job)
mem-sorted_jobs_example = mem-sorted_jobs platform jobs filters second_job

collation : IsCollation platform
collation = record { total = λ s t. ground arith; trans = λ s t u h k. ground arith }

sorted_jobs-IsChain_example :
    IsChain (Precedes platform (txt "priority_desc")) (sorted_jobs platform jobs filters)
unfolding txt
sorted_jobs-IsChain_example =
    sorted_jobs-IsChain platform jobs filters collation
      ((pos 49, refl), ((pos 50, refl), ((pos 51, refl), tt)))

pages-all_example :
    pages (page_at platform jobs filters) (use_job_filters platform jobs filters).page_count
    ≡ (use_job_filters platform jobs filters).all_filtered_jobs
pages-all_example = pages-all platform jobs filters (omega arith)
