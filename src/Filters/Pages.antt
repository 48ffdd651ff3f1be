-- ===== src/Filters/Pages.antt =====
-- The pages of the view (web/src/views/useJobFilters.js).
use native.Mathlib.Nat.{le_trans, mul-le-mul_right, le-max_right, zero-mul, suc-mul}
use job_flow_web_application.Prelude.{
  ℕ, zero, suc, ◌-◌, ◌*◌, ◌≤◌, ◌<◌, max, List, [], ◌∷◌, ◌++◌, ◌≡◌, ◌≢◌, ◌⊎◌, inl, inr, refl, ap,
  ◌∙◌, arith, length, take, drop, take-add, length-take, length-drop, take_of_length-le,
}
use job_flow_web_application.Model.{Job, Platform}
use job_flow_web_application.Filters.{
  Filters, View, matches, ceil_div, sorted_jobs, use_job_filters, update_filters,
}

le-ceil_div-mul : (n d : ℕ) → 0 < d → n ≤ ceil_div n d * d
le-ceil_div-mul n d h = grind arith

le-page_count-mul : (n d : ℕ) → 0 < d → n ≤ max 1 (ceil_div n d) * d
le-page_count-mul n d h =
    le_trans (le-ceil_div-mul n d h) (mul-le-mul_right d (le-max_right 1 (ceil_div n d)))

mul-lt_of_lt-ceil_div : (n d p : ℕ) → 0 < d → p < ceil_div n d → p * d < n
mul-lt_of_lt-ceil_div n d p h k = grind arith

nil_of_length {ℓ} : {A : Type ℓ} (xs : List A) → length xs ≡ 0 → xs ≡ []
nil_of_length [] h = refl
nil_of_length (x ∷ xs) h = absurd (omega arith)

page_lem {ℓ} :
    {A : Type ℓ} (size start : ℕ) (xs : List A)
    → 0 < size
    → (0 < length xs → start < length xs)
    → (take size (drop start xs) ≢ []) ⊎ (xs ≡ [])
page_lem size start [] s inside = inr refl
page_lem size start (x ∷ xs) s inside = inl (λ e. omega (
  arith,
  inside (omega arith),
  ap length e,
  length-take size (drop start (x ∷ xs)),
  length-drop start (x ∷ xs),
))

-- The pages from the first on, one after another.
abbrev pub pages {ℓ} : {A : Type ℓ} → (ℕ → List A) → ℕ → List A
pages page zero = []
pages page (suc n) = pages page n ++ page (suc n)

-- What the pager shows about its place.
pub record IsPaged (view : View) : Type 0 where
  pub from_one : 1 ≤ view.filters.page
  pub to_last : view.filters.page ≤ view.page_count
  pub fits : length view.filtered_jobs ≤ view.filters.page_size
  pub no_blank_page : (view.filtered_jobs ≢ []) ⊎ (view.all_filtered_jobs ≡ [])

-- `updateFilters` stores no page 0.
pub update_filters-page : (next : Filters) → 1 ≤ (update_filters next).page
unfolding update_filters
update_filters-page next = ground arith

module _ (platform : Platform) (jobs : List Job) where
  length-page_pos :
      (n size page : ℕ)
      → 0 < size
      → 0 < n
      → 1 ≤ page
      → page ≤ max 1 (ceil_div n size)
      → (page - 1) * size < n
  length-page_pos n size page s p one last =
      mul-lt_of_lt-ceil_div n size (page - 1) s (grind (arith, le-ceil_div-mul n size s))

  -- For stored filters with a positive page size and a page from 1 on, whatever its size, the page
  -- shown lies between 1 and the page count, holds no more jobs than the page size, and is blank
  -- only when no job is selected.
  pub use_job_filters-IsPaged :
      (filters : Filters)
      → 0 < filters.page_size
      → 1 ≤ filters.page
      → IsPaged (use_job_filters platform jobs filters)
  unfolding use_job_filters
  use_job_filters-IsPaged filters size one = record {
    from_one = omega arith;
    to_last = omega arith;
    fits = omega (arith, length-take {0});
    no_blank_page =
        page_lem filters.page_size _ (sorted_jobs platform jobs filters) size (λ some_job.
          length-page_pos (length (sorted_jobs platform jobs filters)) filters.page_size _ size
            some_job (omega arith) (omega arith));
  }

  pub sorted_jobs-page :
      (filters : Filters) (page : ℕ)
      → sorted_jobs platform jobs (record filters { page = page })
        ≡ sorted_jobs platform jobs filters
  unfolding sorted_jobs matches
  sorted_jobs-page filters page = refl

  module _ (filters : Filters) where
    -- The jobs that the view shows on a page.
    abbrev pub page_at : ℕ → List Job
    page_at page = (use_job_filters platform jobs (record filters { page = page })).filtered_jobs

    page_at_lem :
        (i : ℕ)
        → suc i ≤ (use_job_filters platform jobs filters).page_count
        → page_at (suc i)
          ≡ take filters.page_size
              (drop (i * filters.page_size) (sorted_jobs platform jobs filters))
    unfolding use_job_filters
    page_at_lem i h = rw (sorted_jobs-page filters (suc i)) (
        ap
          (λ k.
            take filters.page_size
              (drop (k * filters.page_size) (sorted_jobs platform jobs filters)))
          (omega arith))

    pages-page_at :
        (n : ℕ)
        → n ≤ (use_job_filters platform jobs filters).page_count
        → pages page_at n ≡ take (n * filters.page_size) (sorted_jobs platform jobs filters)
    pages-page_at zero h = rw zero-mul
    pages-page_at (suc n) h = rw (
      pages-page_at n (omega arith),
      page_at_lem n h,
      suc-mul,
      take-add (n * filters.page_size) filters.page_size (sorted_jobs platform jobs filters),
    )

    -- With a positive page size, the pages from 1 to the page count, one after another, are the
    -- selected jobs in order: no job is lost, repeated or moved between pages.
    pub pages-all :
        0 < filters.page_size
        → pages page_at (use_job_filters platform jobs filters).page_count
          ≡ (use_job_filters platform jobs filters).all_filtered_jobs
    unfolding use_job_filters
    pages-all size =
        pages-page_at _ (omega arith)
        ∙ take_of_length-le _ _
            (le-page_count-mul (length (sorted_jobs platform jobs filters)) _ size)
