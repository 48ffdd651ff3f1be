-- ===== src/Insights/Queues.antt =====
-- The hottest queue (web/src/components/InsightCards.jsx).
use mathlib.Core.List.{Mem, Perm, mem-cons, mem-cons_self, not-mem-nil}
use mathlib.Core.Logic.Or
use mathlib.Core.List.Perm
use job_flow_web_application.Prelude.{
  ◌≤◌, List, [], ◌∷◌, Option, none, some, ◌≡◌, refl, sym, arith, All, head?, leb, true,
}
use job_flow_web_application.Prelude.Members.{true_prop}
use job_flow_web_application.Model.{QueueStats}
use job_flow_web_application.Sort.{sort_by}
use job_flow_web_application.Sort.Laws.{
  Before, IsConsistent, IsSorted, sort_by-perm, sort_by-IsSorted,
}
use job_flow_web_application.Insights.{compare_waiting, hottest_queue}

-- A queue of the list that is the longest of it, unless the list is empty.
abbrev pub IsLongest : Option QueueStats → List QueueStats → Type 0
IsLongest none queues = queues ≡ []
IsLongest (some queue) queues =
    Mem queue queues × ((other : QueueStats) → Mem other queues → other.waiting ≤ queue.waiting)

compare_waiting-IsConsistent : IsConsistent compare_waiting (λ q. q.waiting ≡ q.waiting)
unfolding compare_waiting
compare_waiting-IsConsistent = record {
  total = λ a b p q. ground arith;
  trans = λ a b c p q r h k. ground arith;
}

All-waiting : (queues : List QueueStats) → All (λ q. q.waiting ≡ q.waiting) queues
All-waiting [] = tt
All-waiting (q ∷ queues) = (refl, All-waiting queues)

-- Every queue of a list whose queues may all stand behind one.
leb-waiting :
    (queue other : QueueStats) (sorted : List QueueStats)
    → All (Before compare_waiting queue) sorted
    → Mem other sorted
    → leb other.waiting queue.waiting ≡ true
unfolding compare_waiting
leb-waiting queue other [] h m = absurd (not-mem-nil m)
leb-waiting queue other (q ∷ sorted) (h, hs) m =
    Or.elim (true_prop _) (mem-cons.0 m) (λ e. rw e (ground arith))
      (λ m'. leb-waiting queue other sorted hs m')

compare_waiting_refl : (queue : QueueStats) → Before compare_waiting queue queue
unfolding compare_waiting
compare_waiting_refl queue = ground arith

-- The queue that is found first in the sorted list.
IsLongest-head? :
    (queues sorted : List QueueStats)
    → Perm sorted queues
    → IsSorted compare_waiting sorted
    → IsLongest (head? sorted) queues
IsLongest-head? queues [] p h = sym (Perm.nil-eq p)
IsLongest-head? queues (queue ∷ sorted) p (h, hs) = (
  (Perm.mem_iff p).0 mem-cons_self,
  λ other m.
      let longest =
        leb-waiting queue other (queue ∷ sorted) (compare_waiting_refl queue, h)
          ((Perm.mem_iff p).1 m) in
      ground arith,
)

-- The card names a queue with the most jobs waiting, and "None" only if there are no queues.
pub hottest_queue-IsLongest : (queues : List QueueStats) → IsLongest (hottest_queue queues) queues
unfolding hottest_queue
hottest_queue-IsLongest queues =
    IsLongest-head? queues (sort_by compare_waiting queues) (sort_by-perm compare_waiting queues)
      (sort_by-IsSorted compare_waiting compare_waiting-IsConsistent queues (All-waiting queues))
