-- ===== src/Filters/Order.antt =====
-- The order of the view (web/src/views/useJobFilters.js).
use mathlib.Core.List.{Perm}
use job_flow_web_application.Prelude.{
  List, [], ◌∷◌, Bool, true, false, Bool-cases, some, ◌≡◌, ◌≢◌, ◌⊎◌, inl, inr, refl, arith, filter,
  All, All-filter,
}
use job_flow_web_application.Prelude.Int.{ℤ, pos, -ℤ_parts, ◌≤ℤ◌}
use job_flow_web_application.Prelude.Text.{Text, txt, ◌==◌, eq_iff}
use job_flow_web_application.Model.{Job, Platform}
use job_flow_web_application.Sort.Laws.{
  Before, IsConsistent, IsSorted, sort_by-perm, sort_by-IsSorted, filter-sort_by,
}
use job_flow_web_application.Filters.{Filters, matches, compare_jobs, sorted_jobs}

attempts-ne-priority : (txt "attempts_desc" == txt "priority_desc") ≡ false
unfolding txt ◌==◌
attempts-ne-priority = refl

status-ne-priority : (txt "status_asc" == txt "priority_desc") ≡ false
unfolding txt ◌==◌
status-ne-priority = refl

status-ne-attempts : (txt "status_asc" == txt "attempts_desc") ≡ false
unfolding txt ◌==◌
status-ne-attempts = refl

eq-cases : (s t : Text) → (s ≡ t) ⊎ (s ≢ t)
eq-cases s t = elim (Bool-cases (s == t)) [
  | inl e ↦ inl ((eq_iff s t).0 e)
  | inr d ↦ inr (λ e. ground (arith, eq_iff s t))
]

-- Each element has the relation to all that follow it.
abbrev pub IsChain : (Job → Job → Type 0) → List Job → Type 0
IsChain R [] = Unit
IsChain R (x ∷ xs) = All (R x) xs × IsChain R xs

module _ (platform : Platform) where
  open platform use {locale_compare, parse_date}

  -- `localeCompare` is a total preorder.
  pub record IsCollation : Type 0 where
    pub total : (s t : Text) → locale_compare s t ≤ℤ pos 0 ⊎ locale_compare t s ≤ℤ pos 0
    pub trans :
        (s t u : Text)
        → locale_compare s t ≤ℤ pos 0
        → locale_compare t u ≤ℤ pos 0
        → locale_compare s u ≤ℤ pos 0

  -- The job's creation time is a valid date.
  abbrev pub HasDate : Job → Type 0
  HasDate job = (time : ℤ) × (parse_date job.created_at ≡ some time)

  -- `a` may stand before `b` in the chosen order: by falling priority or attempts, by status, and
  -- for any other choice by falling creation date.
  pub data Precedes (sort : Text) (a b : Job) : Type 0 where
    by_priority : sort ≡ txt "priority_desc" → b.priority ≤ℤ a.priority → Precedes sort a b
    by_attempts : sort ≡ txt "attempts_desc" → b.attempts ≤ℤ a.attempts → Precedes sort a b
    by_status :
        sort ≡ txt "status_asc" → locale_compare a.status b.status ≤ℤ pos 0 → Precedes sort a b
    newest :
        sort ≢ txt "priority_desc"
        → sort ≢ txt "attempts_desc"
        → sort ≢ txt "status_asc"
        → ((s t : ℤ) → parse_date a.created_at ≡ some s → parse_date b.created_at ≡ some t → t ≤ℤ s)
        → Precedes sort a b

  compare_jobs-consistent :
      IsCollation → (sort : Text) → IsConsistent (compare_jobs platform sort) HasDate
  unfolding compare_jobs
  compare_jobs-consistent collation sort = record {
    total = λ a b (s, p) (t, q). ground (
      arith,
      -ℤ_parts b.priority a.priority,
      -ℤ_parts a.priority b.priority,
      -ℤ_parts b.attempts a.attempts,
      -ℤ_parts a.attempts b.attempts,
      -ℤ_parts s t,
      -ℤ_parts t s,
      collation.total a.status b.status,
    );
    trans = λ a b c (s, p) (t, q) (u, r) h k. ground (
      arith,
      -ℤ_parts b.priority a.priority,
      -ℤ_parts c.priority b.priority,
      -ℤ_parts c.priority a.priority,
      -ℤ_parts b.attempts a.attempts,
      -ℤ_parts c.attempts b.attempts,
      -ℤ_parts c.attempts a.attempts,
      -ℤ_parts t s,
      -ℤ_parts u t,
      -ℤ_parts u s,
      collation.trans a.status b.status c.status,
    );
  }

  Before-Precedes :
      (sort : Text) (a b : Job) → Before (compare_jobs platform sort) a b → Precedes sort a b
  unfolding compare_jobs
  Before-Precedes sort a b h = elim (eq-cases sort (txt "priority_desc")) [
    | inl e ↦
        by_priority e
          (ground (arith, -ℤ_parts b.priority a.priority, eq_iff sort (txt "priority_desc")))
    | inr x ↦ elim (eq-cases sort (txt "attempts_desc")) [
      | inl e ↦ by_attempts e (
          ground (
            arith,
            -ℤ_parts b.attempts a.attempts,
            eq_iff sort (txt "attempts_desc"),
            attempts-ne-priority,
          ))
      | inr y ↦ elim (eq-cases sort (txt "status_asc")) [
        | inl e ↦
            by_status e (
              ground
                (arith, eq_iff sort (txt "status_asc"), status-ne-priority, status-ne-attempts))
        | inr z ↦ newest x y z (λ s t p q. ground (
          arith,
          -ℤ_parts t s,
          eq_iff sort (txt "priority_desc"),
          eq_iff sort (txt "attempts_desc"),
          eq_iff sort (txt "status_asc"),
        ))
      ]
    ]
  ]

  All-Before-Precedes :
      (sort : Text) (a : Job) (bs : List Job)
      → All (Before (compare_jobs platform sort) a) bs
      → All (Precedes sort a) bs
  All-Before-Precedes sort a [] h = tt
  All-Before-Precedes sort a (b ∷ bs) (h, hs) =
      (Before-Precedes sort a b h, All-Before-Precedes sort a bs hs)

  IsSorted-IsChain :
      (sort : Text) (jobs : List Job)
      → IsSorted (compare_jobs platform sort) jobs
      → IsChain (Precedes sort) jobs
  IsSorted-IsChain sort [] h = tt
  IsSorted-IsChain sort (a ∷ jobs) (h, hs) =
      (All-Before-Precedes sort a jobs h, IsSorted-IsChain sort jobs hs)

  -- If `localeCompare` is a total preorder and every loaded job has a valid creation date, each
  -- job of the view may stand before all that follow it: by falling priority or attempts, by
  -- status, and for any other choice by falling creation date.
  pub sorted_jobs-IsChain :
      (jobs : List Job) (filters : Filters)
      → IsCollation
      → All HasDate jobs
      → IsChain (Precedes filters.sort) (sorted_jobs platform jobs filters)
  unfolding sorted_jobs
  sorted_jobs-IsChain jobs filters collation dates = IsSorted-IsChain filters.sort _ (
      sort_by-IsSorted (compare_jobs platform filters.sort)
        (compare_jobs-consistent collation filters.sort) (filter (matches platform filters) jobs)
        (All-filter HasDate (matches platform filters) jobs dates))

  -- The view is a permutation of the loaded jobs that match, and jobs that tie keep the order in
  -- which they were loaded: a group in which every two jobs compare as equal or smaller both ways
  -- is in the view exactly as it is among the matching jobs.
  pub sorted_jobs-stable :
      (jobs : List Job) (filters : Filters) (group : Job → Bool)
      → ((a b : Job)
          → group a ≡ true
          → group b ≡ true
          → compare_jobs platform filters.sort a b ≤ℤ pos 0)
      → Perm (sorted_jobs platform jobs filters) (filter (matches platform filters) jobs)
        × (filter group (sorted_jobs platform jobs filters)
            ≡ filter group (filter (matches platform filters) jobs))
  unfolding sorted_jobs
  sorted_jobs-stable jobs filters group tied =
      let chosen = filter (matches platform filters) jobs in
      (
        sort_by-perm (compare_jobs platform filters.sort) chosen,
        filter-sort_by (compare_jobs platform filters.sort) group tied chosen,
      )
