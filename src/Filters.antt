-- ===== src/Filters.antt =====
-- The filtered, sorted and paged view of the jobs (web/src/views/useJobFilters.js).
pub mod Search
pub mod Order
pub mod Pages
use job_flow_web_application.Prelude.{
  ℕ, ◌+◌, ◌-◌, ◌*◌, ◌/◌, min, max, List, ◌++◌, Bool, ◌&&◌, ◌||◌, some, Option, none, eqb, length,
  take, drop, filter, if◌then◌else◌,
}
use job_flow_web_application.Prelude.Int.{ℤ, pos, ◌-ℤ◌}
use job_flow_web_application.Prelude.Text.{Text, txt, ◌==◌, is_empty, trim, includes}
use job_flow_web_application.Model.{Job, Platform}
use job_flow_web_application.Sort.{sort_by}

pub record Filters : Type 0 where
  pub query : Text
  pub status : Text
  pub queue : Text
  pub sort : Text
  pub page_size : ℕ
  pub page : ℕ

pub record View : Type 0 where
  pub filters : Filters
  pub filtered_jobs : List Job
  pub all_filtered_jobs : List Job
  pub page_count : ℕ

unfoldable pub initial : Filters
initial = record {
  query = txt "";
  status = txt "all";
  queue = txt "all";
  sort = txt "created_desc";
  page_size = 10;
  page = 1;
}

-- `Math.ceil(n / d)` for a positive `d`
abbrev pub ceil_div : ℕ → ℕ → ℕ
ceil_div n d = (n + d - 1) / d

-- the difference of two dates; NaN, which sorts like 0, where one is invalid
abbrev pub date_diff : Option ℤ → Option ℤ → ℤ
date_diff (some a) (some b) = a -ℤ b
date_diff (some a) none = pos 0
date_diff none b = pos 0

module _ (platform : Platform) where
  open platform use {lower, locale_compare, parse_date}

  unfoldable pub searchable : Job → Text
  searchable job = lower (job.type ++ (txt " " ++ (job.queue ++ (txt " " ++ job.status))))

  unfoldable pub matches : Filters → Job → Bool
  matches filters job =
      let query = lower (trim filters.query) in
      (filters.status == txt "all" || job.status == filters.status)
      && (filters.queue == txt "all" || job.queue == filters.queue)
      && (is_empty query || includes (searchable job) query)

  unfoldable pub compare_jobs : Text → Job → Job → ℤ
  compare_jobs sort a b =
      if sort == txt "priority_desc"
      then b.priority -ℤ a.priority
      else if sort == txt "attempts_desc"
      then b.attempts -ℤ a.attempts
      else if sort == txt "status_asc"
      then locale_compare a.status b.status
      else date_diff (parse_date b.created_at) (parse_date a.created_at)

  unfoldable pub sorted_jobs : List Job → Filters → List Job
  sorted_jobs jobs filters = sort_by (compare_jobs filters.sort) (filter (matches filters) jobs)

  unfoldable pub use_job_filters : List Job → Filters → View
  use_job_filters jobs filters =
      let sorted = sorted_jobs jobs filters in
      let page_count = max 1 (ceil_div (length sorted) filters.page_size) in
      let page = min filters.page page_count in
      let start = (page - 1) * filters.page_size in
      record {
        filters = record filters { page = page };
        filtered_jobs = take filters.page_size (drop start sorted);
        all_filtered_jobs = sorted;
        page_count = page_count;
      }

-- `updateFilters`
unfoldable pub update_filters : Filters → Filters
update_filters next = record next { page = if eqb next.page 0 then 1 else next.page }
