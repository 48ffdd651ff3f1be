-- ===== src/Server/Queue.antt =====
-- The queues in Redis (internal/queue/redis_queue.go). Redis itself is a parameter: its sorted sets are
-- values of a type `Z` with the commands that the code uses.
pub mod Order
use job_flow_web_application.Prelude.{
  ℕ, ◌+◌, ◌*◌, ◌/◌, ◌≤◌, List, [], ◌∷◌, ◌++◌, Bool, true, false, Option, none, some, ◌≡◌, ◌≢◌, ◌↔◌,
  ◌⊎◌, length, if◌then◌else◌,
}
use mathlib.Core.List.{Mem}
use job_flow_web_application.Prelude.Int.{ℤ, pos, negsuc, ◌-ℤ◌, ◌≤ℤ◌, pos_part, neg_part, sub_ℕ}
use job_flow_web_application.Prelude.Text.{Text, txt, ◌==◌}
use job_flow_web_application.Server.{Row, Answer, ok, err}

-- The commands on one sorted set: `score` is what it holds of a member.
pub record SortedSets (Z : Type 0) : Type 0 where
  pub score : Text → Z → Option ℤ
  pub zadd : ℤ → Text → Z → Z
  pub zrem : Text → Z → Z
  pub zpopmin : Z → Option (Text × Z)
  pub up_to : ℤ → Z → List Text
  pub zcard : Z → ℕ

-- What Redis documents of those that put members in and take the least one out.
pub record IsSortedSets {Z : Type 0} (redis : SortedSets Z) : Type 0 where
  pub score-zadd :
      (s : ℤ) (m n : Text) (z : Z)
      → redis.score n (redis.zadd s m z) ≡ (if m == n then some s else redis.score n z)
  pub zpopmin_empty : (z : Z) (m : Text) → redis.zpopmin z ≡ none → redis.score m z ≡ none
  pub zpopmin_held :
      (z rest : Z) (m : Text) → redis.zpopmin z ≡ some (m, rest) → redis.score m z ≢ none
  pub zpopmin_least :
      (z rest : Z) (m n : Text) (s t : ℤ)
      → redis.zpopmin z ≡ some (m, rest)
      → redis.score m z ≡ some s
      → redis.score n z ≡ some t
      → s ≤ℤ t
  pub zpopmin_rest :
      (z rest : Z) (m n : Text)
      → redis.zpopmin z ≡ some (m, rest)
      → redis.score n rest ≡ (if m == n then none else redis.score n z)

-- The keys of Redis that hold sorted sets, and the list of the dead letters.
pub record Redis (Z : Type 0) : Type 0 where
  pub sets : Text → Z
  pub dead : List Text

unfoldable pub queue_key : Text → Text
queue_key name = txt "queue:" ++ name

abbrev pub retries_key : Text
retries_key = txt "scheduled:retries"

-- `float64(-job.Priority)*1_000_000_000 + float64(time.Now().UnixMilli())`, with the rounding of the
-- floating-point numbers: every result is the nearest one to the exact result.
abbrev pub times : ℤ → ℕ → ℤ
times n k = sub_ℕ (pos_part n * k) (neg_part n * k)

abbrev pub plus_now : ℤ → ℕ → ℤ
plus_now n now = sub_ℕ (pos_part n + now) (neg_part n)

unfoldable pub score_of : (ℤ → ℤ) → ℤ → ℕ → ℤ
score_of round priority now = round (plus_now (round (times (pos 0 -ℤ priority) 1000000000)) now)

module _ {Z : Type 0} (sets : SortedSets Z) (round : ℤ → ℤ) where
  abbrev pub set_at : Text → (Z → Z) → Redis Z → Redis Z
  set_at key change r = record r { sets = λ k. if key == k then change (r.sets k) else r.sets k }

  -- A command that fails leaves Redis as it is; the first argument is its error, if any.
  unfoldable pub enqueue : Option Text → ℕ → Row → Redis Z → Redis Z × Option Text
  unfolding queue_key score_of
  enqueue (some message) now job r = (r, some message)
  enqueue none now job r = (
    set_at (queue_key job.queue_name) (sets.zadd (score_of round job.priority now) job.id) r,
    none,
  )

  -- The seconds of `time.Now().Add(delay).Unix()`; a delay is in nanoseconds, and may be negative.
  abbrev pub floor_second : ℤ → ℤ
  floor_second (pos n) = pos (n / 1000000000)
  floor_second (negsuc n) = negsuc (n / 1000000000)

  abbrev pub due_second : ℕ → ℤ → ℤ
  due_second now delay = floor_second (plus_now delay (now * 1000000))

  unfoldable pub enqueue_after : Option Text → ℕ → ℤ → Row → Redis Z → Redis Z × Option Text
  enqueue_after (some message) now delay job r = (r, some message)
  enqueue_after none now delay job r =
      (set_at retries_key (sets.zadd (due_second now delay) job.id) r, none)

  -- The loop of `PromoteRetries` over the identifiers that are due. `fetch` and the two commands may
  -- fail for each of them, which is ignored.
  module _ (fetch : Text → Answer Row) (add_error rem_error : Text → Option Text) (now : ℕ) where
    unfoldable pub promote_id : Text → Redis Z → Redis Z
    unfolding enqueue
    promote_id id r =
        let added : Redis Z = elim (fetch id) [
          | ok job ↦ (enqueue (add_error id) now job r).0
          | err _ ↦ r
        ] in
        elim (rem_error id) [ none ↦ set_at retries_key (sets.zrem id) added | some _ ↦ added ]

    unfoldable pub promote_ids : List Text → Redis Z → Redis Z
    unfolding promote_id
    promote_ids [] r = r
    promote_ids (id ∷ ids) r = promote_ids ids (promote_id id r)

    -- The first argument is the error of the command that reads the identifiers, if any.
    unfoldable pub promote_retries : Option Text → Redis Z → Redis Z × Option Text
    unfolding promote_ids
    promote_retries (some message) r = (r, some message)
    promote_retries none r =
        (promote_ids (sets.up_to (pos (now / 1000)) (r.sets retries_key)) r, none)

  -- One round of `Dequeue` over the queues; `none` if they are all empty, after which it waits.
  unfoldable pub dequeue : List Text → Redis Z → Option ((Text × Text) × Redis Z)
  unfolding queue_key
  dequeue [] r = none
  dequeue (name ∷ names) r =
      let later = dequeue names r in
      elim (sets.zpopmin (r.sets (queue_key name))) [
        | some (id, rest) ↦ some ((name, id), set_at (queue_key name) (λ _. rest) r)
        | none ↦ later
      ]

  unfoldable pub push_dead : Option Text → Row → Redis Z → Redis Z
  push_dead (some _) job r = r
  push_dead none job r = record r { dead = job.id ∷ r.dead }

  -- The error of the command that reads the dead letters is ignored.
  abbrev pub dead_length : Option Text → Redis Z → ℕ
  dead_length none r = length r.dead
  dead_length (some message) r = 0

  -- The waiting jobs of each queue; the length of the dead-letter list, whose key is that of a queue
  -- "dead-letter", goes with every queue. The error of the command on a queue ends it.
  unfoldable pub queue_stats :
      (Text → Option Text) → List Text → Redis Z → Answer (List (Text × ℕ × ℕ))
  unfolding queue_key
  queue_stats error [] r = ok []
  queue_stats error (name ∷ names) r =
      let rest = queue_stats error names r in
      elim (error name) [
        | some message ↦ err message
        | none ↦ elim rest [
          | err message ↦ err message
          | ok stats ↦ ok (
              (
                name,
                sets.zcard (r.sets (queue_key name)),
                dead_length (error (txt "dead-letter")) r,
              )
              ∷ stats)
        ]
      ]
