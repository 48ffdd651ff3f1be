-- ===== src/Workers.antt =====
-- The page of workers (web/src/views/WorkersView.jsx).
pub mod Fleet
use job_flow_web_application.Prelude.{
  ℕ, ◌-◌, List, ◌++◌, Bool, ◌&&◌, ◌||◌, length, filter, ltb, if◌then◌else◌,
}
use job_flow_web_application.Prelude.Text.{Text, txt, ◌==◌, is_empty, trim, includes}
use job_flow_web_application.Model.{Worker, Platform}

unfoldable pub is_online : Worker → Bool
is_online worker = worker.status == txt "online"

unfoldable pub online : List Worker → ℕ
unfolding is_online
online workers = length (filter is_online workers)

-- `workers.length - online`
unfoldable pub offline : List Worker → ℕ
offline workers = length workers - online workers

unfoldable pub avg_heartbeat : List Worker → Text
avg_heartbeat workers = if ltb 0 (online workers) then txt "Live" else txt "N/A"

module _ (platform : Platform) where
  unfoldable pub worker_text : Worker → Text
  worker_text worker = platform.lower (worker.hostname ++ (txt " " ++ worker.status))

  unfoldable pub matches_worker : Text → Text → Worker → Bool
  matches_worker query status worker =
      let clean_query = platform.lower (trim query) in
      (status == txt "all" || worker.status == status)
      && (is_empty clean_query || includes (worker_text worker) clean_query)

  unfoldable pub filtered_workers : List Worker → Text → Text → List Worker
  filtered_workers workers query status = filter (matches_worker query status) workers
