-- ===== src/Table/Bulk.antt =====
-- What a bulk action asks of the server, and what it leaves selected (web/src/components/JobTable.jsx).
use mathlib.Core.List.{Mem}
use job_flow_web_application.Prelude.{
  List, [], ◌∷◌, ◌++◌, true, none, some, ◌≡◌, ◌↔◌, refl, ap, inl, inr, ◌⊎◌, All, Option-cases,
}
use job_flow_web_application.Prelude.Members.{mem-filter}
use job_flow_web_application.Prelude.Text.{Text}
use job_flow_web_application.Json.{Json}
use job_flow_web_application.Model.{Job, Platform}
use job_flow_web_application.Client.{Settled, Settled-cases, fulfilled, rejected}
use job_flow_web_application.Filters.{Filters, sorted_jobs}
use job_flow_web_application.Filters.Search.{IsSelected, mem-sorted_jobs}
use job_flow_web_application.Table.{contains, selected_jobs, BulkRun, run_bulk, bulk_action}

module _ (action : Job → Settled Json) where
  -- The server did what was asked of it for each job.
  abbrev pub AllDone : List Job → Type 0
  AllDone jobs = All (λ job. (answer : Json) × (action job ≡ fulfilled answer)) jobs

  -- How a loop over jobs can end: all are done; or the server refuses one, and the jobs behind it
  -- are not asked for.
  pub data Ends (jobs : List Job) (run : BulkRun) : Type 0 where
    complete : AllDone jobs → run ≡ record { asked = jobs; failure = none } → Ends jobs run
    stopped :
        (before after : List Job) (job : Job) (message : Text)
        → jobs ≡ before ++ (job ∷ after)
        → AllDone before
        → action job ≡ rejected message
        → run ≡ record { asked = before ++ job ∷ []; failure = some message }
        → Ends jobs run

  abbrev asking : Job → BulkRun → BulkRun
  asking job rest = record { asked = job ∷ rest.asked; failure = rest.failure }

  Ends-cons :
      (job : Job) (answer : Json) (jobs : List Job) (run : BulkRun)
      → action job ≡ fulfilled answer
      → Ends jobs run
      → Ends (job ∷ jobs) (asking job run)
  Ends-cons job answer jobs run a (complete done e) =
      complete ((answer, a), done) (ap (asking job) e)
  Ends-cons job answer jobs run a (stopped before after other m split done refusal e) =
      stopped (job ∷ before) after other m (ap (job ∷◌) split) ((answer, a), done) refusal
        (ap (asking job) e)

  run_bulk-Ends : (jobs : List Job) → Ends jobs (run_bulk action jobs)
  unfolding run_bulk
  run_bulk-Ends [] = complete tt refl
  run_bulk-Ends (job ∷ jobs) = elim (Settled-cases (action job)) [
    | inl (answer, a) ↦ rw (a, run_bulk) (Ends-cons job answer jobs _ a (run_bulk-Ends jobs))
    | inr (message, refusal) ↦
        rw (refusal, run_bulk) (stopped [] jobs job message refl tt refusal refl)
  ]

  -- A bulk action goes through the selected jobs of the view in order and stops at the first that
  -- the server refuses; the selection is cleared if none is refused, and else stays as it was.
  pub bulk_action-Ends :
      (all_jobs : List Job) (selected : List Text)
      → Ends (selected_jobs all_jobs selected) (bulk_action action all_jobs selected).0
        × (((bulk_action action all_jobs selected).0.failure ≡ none)
              × ((bulk_action action all_jobs selected).1 ≡ [])
            ⊎ ((message : Text) × ((bulk_action action all_jobs selected).0.failure ≡ some message)
                × ((bulk_action action all_jobs selected).1 ≡ selected)))
  unfolding bulk_action
  bulk_action-Ends all_jobs selected = (
    run_bulk-Ends (selected_jobs all_jobs selected),
    elim (Option-cases (run_bulk action (selected_jobs all_jobs selected)).failure) [
      | inl fine ↦ inl (fine, rw (fine, bulk_action))
      | inr (message, refusal) ↦ inr (message, refusal, rw (refusal, bulk_action))
    ],
  )

-- A selected job is acted on only while the view holds it: a job is among those of a bulk action
-- exactly if it is loaded, is ticked and is let through by the filters.
pub mem-selected_jobs :
    (platform : Platform) (jobs : List Job) (filters : Filters) (selected : List Text) (job : Job)
    → Mem job (selected_jobs (sorted_jobs platform jobs filters) selected)
      ↔ (Mem job jobs × IsSelected platform filters job × (contains selected job.id ≡ true))
unfolding selected_jobs
mem-selected_jobs platform jobs filters selected job =
    let ticked = mem-filter (λ j. contains selected j.id) job (sorted_jobs platform jobs filters) in
    let listed = mem-sorted_jobs platform jobs filters job in
    (
      λ m. let (l, t) = ticked.0 m in let (loaded, chosen) = listed.0 l in (loaded, chosen, t),
      λ (loaded, chosen, t). ticked.1 (listed.1 (loaded, chosen), t),
    )
