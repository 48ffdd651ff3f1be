-- ===== src/Server/Queue/Order.antt =====
-- In which order the workers take the jobs (internal/queue/redis_queue.go).
use job_flow_web_application.Prelude.{
  ℕ, ◌+◌, ◌-◌, ◌*◌, ◌≤◌, List, [], ◌∷◌, ◌++◌, Option, none, some, Option-cases, Bool-cases, ◌≡◌,
  ◌≢◌, ◌↔◌, inl, inr, refl, ap, ◌∙◌, arith, All, if◌then◌else◌,
}
use job_flow_web_application.Prelude.Int.{ℤ, pos, sub_ℕ, ◌-ℤ◌, ◌≤ℤ◌, pos_part, neg_part}
use job_flow_web_application.Prelude.Text.{Text, ◌==◌, eq_refl, eq_iff}
use job_flow_web_application.Server.Queue.{
  SortedSets, IsSortedSets, Redis, queue_key, score_of, times, plus_now, set_at, dequeue,
}

-- Rounding leaves the integers up to 2^53 as they are.
abbrev pub IsExact : (ℤ → ℤ) → Type 0
IsExact round =
    (n : ℤ) → pos_part n ≤ 9007199254740992 → neg_part n ≤ 9007199254740992 → round n ≡ n

sub_parts : (a b : ℕ) → (pos_part (sub_ℕ a b) ≡ a - b) × (neg_part (sub_ℕ a b) ≡ b - a)
sub_parts a b = (ground arith, ground arith)

minus_parts : (n : ℤ) → (pos_part (pos 0 -ℤ n) ≡ neg_part n) × (neg_part (pos 0 -ℤ n) ≡ pos_part n)
unfolding ◌-ℤ◌
minus_parts n = (ground arith, ground arith)

-- The parts of the product by 10^9 and of the sum with the time.
times_parts :
    (n : ℤ)
    → (pos_part (times (pos 0 -ℤ n) 1000000000) ≡ neg_part n * 1000000000 - pos_part n * 1000000000)
      × (neg_part (times (pos 0 -ℤ n) 1000000000)
          ≡ pos_part n * 1000000000 - neg_part n * 1000000000)
times_parts n =
    let (p, q) = minus_parts n in
    let (r, s) =
      sub_parts (pos_part (pos 0 -ℤ n) * 1000000000) (neg_part (pos 0 -ℤ n) * 1000000000) in
    (omega arith, omega arith)

plus_parts :
    (n : ℤ) (now : ℕ)
    → (pos_part (plus_now n now) ≡ pos_part n + now - neg_part n)
      × (neg_part (plus_now n now) ≡ neg_part n - (pos_part n + now))
plus_parts n now = sub_parts (pos_part n + now) (neg_part n)

score_lem :
    (round : ℤ → ℤ) (priority : ℤ) (now : ℕ)
    → IsExact round
    → pos_part priority ≤ 1000000
    → neg_part priority ≤ 1000000
    → now ≤ 4503599627370496
    → score_of round priority now ≡ plus_now (times (pos 0 -ℤ priority) 1000000000) now
unfolding score_of
score_lem round priority now exact high low early =
    let product = times (pos 0 -ℤ priority) 1000000000 in
    let (p, q) = times_parts priority in
    let (r, s) = plus_parts product now in
    ap (λ t. round (plus_now t now)) (exact product (omega arith) (omega arith))
    ∙ exact (plus_now product now) (omega arith) (omega arith)

-- The priorities that the scores separate, and the times.
abbrev pub IsUsual : ℤ → ℕ → Type 0
IsUsual priority now =
    (pos_part priority ≤ 1000000) × (neg_part priority ≤ 1000000) × (now ≤ 4503599627370496)

-- For priorities up to a million either way and times up to 2^52, where the arithmetic is exact: of two
-- jobs in a queue the score of the first is no greater exactly if it entered the queue no later than
-- the second plus 10^9 milliseconds, about eleven and a half days, for each step of priority that it
-- is ahead. So a higher priority goes first only within that time, and one priority is served in
-- the order of entry.
pub score_of-le_iff :
    (round : ℤ → ℤ) (p q : ℤ) (now later : ℕ)
    → IsExact round
    → IsUsual p now
    → IsUsual q later
    → (score_of round p now ≤ℤ score_of round q later) ↔ (
        now + (pos_part q + neg_part p) * 1000000000
        ≤ later + (pos_part p + neg_part q) * 1000000000)
score_of-le_iff round p q now later exact (ph, pl, pn) (qh, ql, qn) =
    let e = score_lem round p now exact ph pl pn in
    let f = score_lem round q later exact qh ql qn in
    let (a, b) = times_parts p in
    let (c, d) = times_parts q in
    let (g, h) = plus_parts (times (pos 0 -ℤ p) 1000000000) now in
    let (i, j) = plus_parts (times (pos 0 -ℤ q) 1000000000) later in
    rw (e, f) ((λ le. omega arith), (λ le. omega arith))

module _ {Z : Type 0} (redis : SortedSets Z) (round : ℤ → ℤ) (laws : IsSortedSets redis)
    (r : Redis Z) where
  abbrev pub IsEmpty : Text → Type 0
  IsEmpty name = (m : Text) → redis.score m (r.sets (queue_key name)) ≡ none

  -- What a round over some queues gives: nothing, if all are empty; or a member with the least score
  -- of the first queue that is not empty, the queue without it, every other key of Redis as it was, and
  -- the dead letters as they were.
  pub data Popped (names : List Text) (result : Option ((Text × Text) × Redis Z)) : Type 0 where
    nothing : All IsEmpty names → result ≡ none → Popped names result
    popped :
        (before after : List Text) (name id : Text) (after_pop : Redis Z)
        → names ≡ before ++ (name ∷ after)
        → All IsEmpty before
        → result ≡ some ((name, id), after_pop)
        → redis.score id (r.sets (queue_key name)) ≢ none
        → ((other : Text) (s t : ℤ)
            → redis.score id (r.sets (queue_key name)) ≡ some s
            → redis.score other (r.sets (queue_key name)) ≡ some t
            → s ≤ℤ t)
        → ((other : Text)
            → redis.score other (after_pop.sets (queue_key name))
              ≡ (if id == other then none else redis.score other (r.sets (queue_key name))))
        → ((key : Text) → queue_key name ≢ key → after_pop.sets key ≡ r.sets key)
        → after_pop.dead ≡ r.dead
        → Popped names result

  Popped-cons :
      (name : Text) (names : List Text) (result : Option ((Text × Text) × Redis Z))
      → IsEmpty name
      → Popped names result
      → Popped (name ∷ names) result
  Popped-cons name names result empty (nothing h e) = nothing (empty, h) e
  Popped-cons name names result empty
        (popped before after n id q split h e held least rest others dead) =
      popped (name ∷ before) after n id q (ap (name ∷◌) split) (empty, h) e held least rest others
        dead

  set_at-other :
      (key other : Text) (change : Z → Z)
      → key ≢ other
      → (set_at redis round key change r).sets other ≡ r.sets other
  set_at-other key other change differs = elim (Bool-cases (key == other)) [
    | inl same ↦ absurd (differs ((eq_iff key other).0 same))
    | inr differ ↦ rw differ refl
  ]

  -- With Redis as documented, a round of the dequeue loop finds nothing exactly if all queues are
  -- empty, and else takes a job with the least score from the first queue that is not empty, and only
  -- that job: the other jobs of that queue keep their scores, and every other key of Redis, those of the
  -- other queues included, and the dead letters stay as they were.
  pub dequeue-Popped : (names : List Text) → Popped names (dequeue redis round names r)
  unfolding dequeue
  dequeue-Popped [] = nothing tt refl
  dequeue-Popped (name ∷ names) = elim (Option-cases (redis.zpopmin (r.sets (queue_key name)))) [
    | inl none_left ↦
        rw (none_left, dequeue)
          (Popped-cons name names _ (λ m. laws.zpopmin_empty _ m none_left) (dequeue-Popped names))
    | inr ((id, rest), pops) ↦
        rw (pops, dequeue)
          (popped [] names name id _ refl tt refl (laws.zpopmin_held _ rest id pops)
            (λ other s t a b. laws.zpopmin_least _ rest id other s t pops a b)
            (λ other. rw (eq_refl (queue_key name)) (laws.zpopmin_rest _ rest id other pops))
            (λ key differs. set_at-other (queue_key name) key (λ _. rest) differs) refl)
  ]
