-- ===== src/Views/Fleet/Seen.antt =====
-- What the page of the workers shows (web/src/views/WorkersView.jsx).
use mathlib.Core.List.{append-nil}
use mathlib.Core.Bool.{or-false}
use job_flow_web_application.Prelude.{map, Bool, true, false, Option, ◌≡◌, refl}
use job_flow_web_application.Prelude.Text.{txt, ◌==◌}
use job_flow_web_application.Model.{Stats, Platform}
use job_flow_web_application.Workers.{filtered_workers}
use job_flow_web_application.Markup.Rendering.{
  keys, shows, keys-each, shows-each, keys-when, shows-when,
}
use job_flow_web_application.Views.{Locale}
use job_flow_web_application.Views.Fleet.{
  WorkerFilter, WorkersAction, is_none_of, workers_of, workers_heading, worker_metrics,
  worker_controls,
}
use job_flow_web_application.Views.Fleet.Listing.{worker_row, worker_empty_state, workers_view}

module _ (locale : Locale) {A : Type 0} where
  keys-workers_view :
      (platform : Platform) (act : WorkersAction → A) (filter : WorkerFilter) (stats : Option Stats)
      (loading : Bool)
      → keys (workers_view locale platform act filter stats loading)
        ≡ map
            (λ worker. worker.id)
            (filtered_workers platform (workers_of stats) filter.query filter.status)
  unfolding keys workers_view worker_metrics workers_heading worker_controls
  keys-workers_view platform act filter stats loading =
      let found = filtered_workers platform (workers_of stats) filter.query filter.status in
      rw
        (
          keys-each {A = A} (worker_row locale) (λ worker. worker.id) found (λ w. refl),
          keys-when (is_none_of found) (worker_empty_state locale act loading) refl,
        )
        (simp (append-nil))

  shows-heading :
      (act : WorkersAction → A) (loading : Bool)
      → shows (txt "worker-empty-state") (workers_heading act loading) ≡ false
  unfolding shows workers_heading txt ◌==◌
  shows-heading act true = refl
  shows-heading act false = refl

  shows-workers_view :
      (platform : Platform) (act : WorkersAction → A) (filter : WorkerFilter) (stats : Option Stats)
      (loading : Bool)
      → shows (txt "worker-empty-state") (workers_view locale platform act filter stats loading)
        ≡ is_none_of (filtered_workers platform (workers_of stats) filter.query filter.status)
  unfolding shows workers_view worker_metrics worker_controls txt ◌==◌
  shows-workers_view platform act filter stats loading =
      let found = filtered_workers platform (workers_of stats) filter.query filter.status in
      rw
        (
          shows-heading act loading,
          shows-each {A = A} (worker_row locale) (txt "worker-empty-state") found (λ w. refl),
          shows-when (txt "worker-empty-state") (is_none_of found)
              (worker_empty_state locale act loading) refl,
        )
        (simp (or-false))

  -- The page has one row for each worker that the search and the chosen status let through, in their
  -- order and with its identifier for a key, and nothing else with a key; and it says that there are no
  -- heartbeats yet exactly if no worker is let through.
  pub workers_view_lem :
      (platform : Platform) (act : WorkersAction → A) (filter : WorkerFilter) (stats : Option Stats)
      (loading : Bool)
      → (keys (workers_view locale platform act filter stats loading)
          ≡ map
              (λ worker. worker.id)
              (filtered_workers platform (workers_of stats) filter.query filter.status))
        × (shows (txt "worker-empty-state") (workers_view locale platform act filter stats loading)
            ≡ is_none_of (filtered_workers platform (workers_of stats) filter.query filter.status))
  workers_view_lem platform act filter stats loading = (
    keys-workers_view platform act filter stats loading,
    shows-workers_view platform act filter stats loading,
  )
