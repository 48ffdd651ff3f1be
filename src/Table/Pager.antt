-- ===== src/Table/Pager.antt =====
-- The toolbar and the pager over the view (web/src/components/JobTable.jsx).
use job_flow_web_application.Prelude.{
  ℕ, ◌+◌, ◌-◌, ◌≤◌, ◌<◌, List, none, some, ◌≡◌, ◌⊎◌, inl, inr, refl, arith, leb, Bool-cases, ap,
  min,
}
use job_flow_web_application.Model.{Job, Platform}
use job_flow_web_application.Filters.{Filters, View, update_filters, use_job_filters}
use job_flow_web_application.Filters.Pages.{IsPaged, use_job_filters-IsPaged, sorted_jobs-page}
use job_flow_web_application.Table.{Control, query, page_size, previous, following, operate}

-- A page size that a control asks for is positive.
abbrev pub IsSized : Control → Type 0
IsSized (page_size size) = 0 < size
IsSized _ = Unit

-- The filters that the hook stores.
pub record IsStored (filters : Filters) : Type 0 where
  pub size : 0 < filters.page_size
  pub page : 1 ≤ filters.page

operate-IsStored :
    (view : View) (control : Control) (next : Filters)
    → 0 < view.filters.page_size
    → IsSized control
    → operate view control ≡ some next
    → IsStored next
unfolding operate update_filters
operate-IsStored view (query text) next s c e = ground arith
operate-IsStored view (page_size size) next s c e = ground arith
operate-IsStored view previous next s c e = ground arith
operate-IsStored view following next s c e = ground arith
operate-IsStored view _ next s c e = ground arith

module _ (platform : Platform) (jobs : List Job) (filters : Filters) where
  abbrev pub view : View
  view = use_job_filters platform jobs filters

  view-page_size : (use_job_filters platform jobs filters).filters.page_size ≡ filters.page_size
  unfolding use_job_filters
  view-page_size = refl

  -- Whatever control is used on a view whose stored filters have a positive page size and a page
  -- from 1 on, with positive new page sizes, the next view is again within its pages.
  pub operate-IsPaged :
      (control : Control) (next : Filters)
      → IsStored filters
      → IsSized control
      → operate view control ≡ some next
      → IsPaged (use_job_filters platform jobs next)
  operate-IsPaged control next stored sized e =
      let kept = operate-IsStored view control next (rw view-page_size stored.size) sized e in
      use_job_filters-IsPaged platform jobs next kept.size kept.page

  page_count-page :
      (page : ℕ)
      → (use_job_filters platform jobs (record filters { page = page })).page_count
        ≡ (use_job_filters platform jobs filters).page_count
  unfolding use_job_filters
  page_count-page page = rw (sorted_jobs-page platform jobs filters page)

  page-min :
      (page : ℕ)
      → (use_job_filters platform jobs (record filters { page = page })).filters.page
        ≡ min page (use_job_filters platform jobs (record filters { page = page })).page_count
  unfolding use_job_filters
  page-min page = refl

  page_of_next :
      (page : ℕ)
      → page ≤ (use_job_filters platform jobs filters).page_count
      → (use_job_filters platform jobs (record filters { page = page })).filters.page ≡ page
  page_of_next page h = omega (arith, page-min page, page_count-page page)

  update_filters_pos :
      (page : ℕ)
      → 0 < page
      → update_filters (record (view.filters) { page = page }) ≡ record filters { page = page }
  unfolding update_filters use_job_filters
  update_filters_pos page h = ap (λ k. record filters { page = k }) (ground arith)

  -- For stored filters with a positive page size and a page from 1 on:
  -- the button for the next page is disabled exactly on the last page, and else leads one page on;
  -- the button for the previous page is disabled exactly on the first, and else leads one page back.
  pub operate-page :
      IsStored filters
      → (((operate view following ≡ none) × (view.filters.page ≡ view.page_count))
          ⊎ ((next : Filters) × (operate view following ≡ some next)
              × ((use_job_filters platform jobs next).filters.page ≡ view.filters.page + 1)))
        × (((operate view previous ≡ none) × (view.filters.page ≡ 1))
            ⊎ ((next : Filters) × (operate view previous ≡ some next)
                × ((use_job_filters platform jobs next).filters.page + 1 ≡ view.filters.page)))
  unfolding operate
  operate-page stored =
      let paged = use_job_filters-IsPaged platform jobs filters stored.size stored.page in
      (
        elim (Bool-cases (leb view.page_count view.filters.page)) [
          | inl last ↦ inl (rw last, ground (arith, paged.to_last))
          | inr more ↦ inr (
            record filters { page = view.filters.page + 1 },
            rw more (ap some (update_filters_pos _ (omega arith))),
            page_of_next _ (ground arith),
          )
        ],
        elim (Bool-cases (leb view.filters.page 1)) [
          | inl first ↦ inl (rw first, ground (arith, paged.from_one))
          | inr more ↦
              let before_first : 1 < view.filters.page = ground arith in
              inr (
                record filters { page = view.filters.page - 1 },
                rw more (ap some (update_filters_pos _ (omega arith))),
                omega (arith, page_of_next (view.filters.page - 1) (omega (arith, paged.to_last))),
              )
        ],
      )
