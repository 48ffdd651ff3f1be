-- ===== src/Insights.antt =====
-- The figures of the dashboard about its queues (web/src/components/InsightCards.jsx,
-- web/src/components/QueueBoard.jsx).
pub mod Queues
use job_flow_web_application.Prelude.{
  ℕ, ◌+◌, max, List, [], ◌∷◌, map, foldl, Option, none, some, head?,
}
use job_flow_web_application.Prelude.Int.{ℤ, sub_ℕ}
use job_flow_web_application.Prelude.Text.{Text, txt}
use job_flow_web_application.Model.{Job, QueueStats, Stats}
use job_flow_web_application.Sort.{sort_by}
use job_flow_web_application.Format.{queue_display_name}

-- `stats?.queues || []`
abbrev pub queues_of : Option Stats → List QueueStats
queues_of none = []
queues_of (some stats) = stats.queues

unfoldable pub waiting_total : List QueueStats → ℕ
waiting_total queues = foldl (λ sum queue. sum + queue.waiting) 0 queues

unfoldable pub compare_waiting : QueueStats → QueueStats → ℤ
compare_waiting a b = sub_ℕ b.waiting a.waiting

unfoldable pub hottest_queue : List QueueStats → Option QueueStats
unfolding compare_waiting
hottest_queue queues = head? (sort_by compare_waiting queues)

-- The card of the hottest queue.
unfoldable pub hottest_name : List QueueStats → Text
hottest_name queues = elim (hottest_queue queues) [
  | none ↦ txt "None"
  | some queue ↦ queue_display_name queue.name
]

unfoldable pub retry_load : Option Stats → ℕ
retry_load none = 0
retry_load (some stats) = stats.retrying + stats.dead_letter

-- The longest queue of the board, at least 1.
unfoldable pub max_waiting : List QueueStats → ℕ
max_waiting [] = 1
max_waiting (queue ∷ queues) = max queue.waiting (max_waiting queues)
