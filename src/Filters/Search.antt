-- ===== src/Filters/Search.antt =====
-- Which jobs the view holds (web/src/views/useJobFilters.js).
use mathlib.Core.List.{Mem}
use mathlib.Core.List.Perm
use job_flow_web_application.Prelude.{
  List, [], ◌∷◌, true, ◌||◌, ◌≡◌, ◌↔◌, ◌⊎◌, inl, inr, refl, arith, filter,
}
use job_flow_web_application.Prelude.Members.{mem-filter}
use job_flow_web_application.Prelude.Text.{
  Text, txt, ◌==◌, eq_iff, is_empty, trim, includes, includes_iff, Contains,
}
use job_flow_web_application.Model.{Job, Platform}
use job_flow_web_application.Sort.Laws.{sort_by-perm}
use job_flow_web_application.Filters.{Filters, searchable, matches, compare_jobs, sorted_jobs}

-- A choice of the toolbar lets everything through, or one value.
abbrev pub Admits : Text → Text → Type 0
Admits choice value = (choice ≡ txt "all") ⊎ (value ≡ choice)

-- The query is blank, or stands in the text, up to case.
abbrev pub Finds : Text → Text → Type 0
Finds query text = (query ≡ []) ⊎ Contains text query

module _ (platform : Platform) where
  open platform use {lower}

  pub record IsSelected (filters : Filters) (job : Job) : Type 0 where
    pub status : Admits filters.status job.status
    pub queue : Admits filters.queue job.queue
    pub query : Finds (lower (trim filters.query)) (searchable platform job)

  pub Admits-sound :
      (choice value : Text) → (choice == txt "all" || value == choice) ≡ true → Admits choice value
  Admits-sound choice value h = ground (arith, eq_iff choice (txt "all"), eq_iff value choice)

  pub Admits-complete :
      (choice value : Text) → Admits choice value → (choice == txt "all" || value == choice) ≡ true
  Admits-complete choice value h = ground (arith, eq_iff choice (txt "all"), eq_iff value choice)

  pub Finds-sound :
      (query text : Text) → (is_empty query || includes text query) ≡ true → Finds query text
  Finds-sound [] text h = inl refl
  Finds-sound (c ∷ query) text h = inr ((includes_iff text (c ∷ query)).0 h)

  pub Finds-complete :
      (query text : Text) → Finds query text → (is_empty query || includes text query) ≡ true
  Finds-complete [] text h = refl
  Finds-complete (c ∷ query) text (inl e) = cc
  Finds-complete (c ∷ query) text (inr found) = (includes_iff text (c ∷ query)).1 found

  matches_iff :
      (filters : Filters) (job : Job)
      → (matches platform filters job ≡ true) ↔ IsSelected filters job
  unfolding matches
  matches_iff filters job = (
    λ h. record {
      status = Admits-sound filters.status job.status (ground arith);
      queue = Admits-sound filters.queue job.queue (ground arith);
      query = Finds-sound (lower (trim filters.query)) (searchable platform job) (ground arith);
    },
    λ s. ground (
      arith,
      Admits-complete filters.status job.status s.status,
      Admits-complete filters.queue job.queue s.queue,
      Finds-complete (lower (trim filters.query)) (searchable platform job) s.query,
    ),
  )

  -- The view holds a job exactly when the job is loaded and is selected: the status and the queue
  -- are those chosen, or "all" is, and the trimmed query is blank or stands in the lower-cased type,
  -- queue and status.
  pub mem-sorted_jobs :
      (jobs : List Job) (filters : Filters) (job : Job)
      → Mem job (sorted_jobs platform jobs filters) ↔ (Mem job jobs × IsSelected filters job)
  unfolding sorted_jobs
  mem-sorted_jobs jobs filters job =
      let sorted = Perm.mem_iff {a = job} (
        sort_by-perm (compare_jobs platform filters.sort)
          (filter (matches platform filters) jobs)) in
      let kept = mem-filter (matches platform filters) job jobs in
      let selected = matches_iff filters job in
      (
        λ m. let (loaded, h) = kept.0 (sorted.0 m) in (loaded, selected.0 h),
        λ (loaded, s). sorted.1 (kept.1 (loaded, selected.1 s)),
      )
