-- ===== src/Workers/Fleet.antt =====
-- Which workers the page lists, and its figures (web/src/views/WorkersView.jsx).
use mathlib.Core.List.{Mem}
use job_flow_web_application.Prelude.{◌+◌, List, ◌≡◌, ◌↔◌, arith, length, length-filter-le}
use job_flow_web_application.Prelude.Text.{Text, trim}
use job_flow_web_application.Prelude.Members.{mem-filter}
use job_flow_web_application.Model.{Worker, Platform}
use job_flow_web_application.Filters.Search.{
  Admits, Finds, Admits-sound, Admits-complete, Finds-sound, Finds-complete,
}
use job_flow_web_application.Workers.{
  is_online, online, offline, worker_text, matches_worker, filtered_workers,
}

-- The page lists a worker exactly when it is known, its status is the one chosen or "all" is, and
-- the trimmed query is blank or stands in its lower-cased host name and status.
pub mem-filtered_workers :
    (platform : Platform) (workers : List Worker) (query status : Text) (worker : Worker)
    → Mem worker (filtered_workers platform workers query status) ↔ (
        Mem worker workers
        × Admits status worker.status
        × Finds (platform.lower (trim query)) (worker_text platform worker))
unfolding filtered_workers matches_worker
mem-filtered_workers platform workers query status worker =
    let kept = mem-filter (matches_worker platform query status) worker workers in
    (
      λ m.
          let (known, h) = kept.0 m in
          (
            known,
            Admits-sound platform status worker.status (ground arith),
            Finds-sound platform (platform.lower (trim query)) (worker_text platform worker)
                (ground arith),
          ),
      λ (known, admitted, found). kept.1 (
        known,
        ground (
          arith,
          Admits-complete platform status worker.status admitted,
          Finds-complete platform (platform.lower (trim query)) (worker_text platform worker) found,
        ),
      ),
    )

-- The online and the offline workers are all workers.
pub online-add-offline : (workers : List Worker) → online workers + offline workers ≡ length workers
unfolding offline online
online-add-offline workers = omega (arith, length-filter-le is_online workers)
