-- ===== src/Server/Steps/Final.antt =====
-- What never changes again (internal/repository/job_repository.go): the columns that describe a job, and
-- the jobs that are done with.
use job_flow_web_application.Prelude.{
  ℕ, ◌+◌, ◌≤◌, Bool, true, false, Option, none, some, ◌≡◌, inl, inr, refl, sym, ◌∙◌, arith,
}
use job_flow_web_application.Prelude.Int.{ℤ}
use job_flow_web_application.Prelude.Text.{Text}
use job_flow_web_application.Server.{
  Status, queued, running, completed, cancelled, retrying, dead_letter, Row,
}
use job_flow_web_application.Server.Rows.{row_of}
use job_flow_web_application.Server.Life.{
  promoted, claimed, withdrawn, requeued, succeeded, postponed, died, Evolves, same, born, moved,
  Move,
}
use job_flow_web_application.Server.Queue.{SortedSets, Redis}
use job_flow_web_application.Server.Steps.{World, start, Reach, here, next}
use job_flow_web_application.Server.Steps.Sound.{
  is_waiting-cases, is_cancellable-cases, is_dead-cases,
}
use job_flow_web_application.Server.Steps.Refinement.{Reach-EvolveAll}

-- The same job, later.
pub record IsSameJob (r r' : Row) : Type 0 where
  pub id : r'.id ≡ r.id
  pub user_id : r'.user_id ≡ r.user_id
  pub queue_name : r'.queue_name ≡ r.queue_name
  pub type : r'.type ≡ r.type
  pub payload : r'.payload ≡ r.payload
  pub priority : r'.priority ≡ r.priority
  pub max_attempts : r'.max_attempts ≡ r.max_attempts
  pub scheduled_at : r'.scheduled_at ≡ r.scheduled_at
  pub created_at : r'.created_at ≡ r.created_at
  pub attempts : r.attempts ≤ r'.attempts

same_job : (r : Row) → IsSameJob r r
same_job r = record {
  id = refl;
  user_id = refl;
  queue_name = refl;
  type = refl;
  payload = refl;
  priority = refl;
  max_attempts = refl;
  scheduled_at = refl;
  created_at = refl;
  attempts = omega arith;
}

changed_job :
    (r r' : Row) (status : Status) (attempts : ℕ) (error : Option Text) (begun finish : Option ℕ)
    (now : ℕ)
    → r.attempts ≤ attempts
    → r' ≡ record r {
      status = status;
      attempts = attempts;
      error_message = error;
      started_at = begun;
      completed_at = finish;
      updated_at = now;
    }
    → IsSameJob r r'
changed_job r r' status attempts error begun finish now more e = rw e (record {
  id = refl;
  user_id = refl;
  queue_name = refl;
  type = refl;
  payload = refl;
  priority = refl;
  max_attempts = refl;
  scheduled_at = refl;
  created_at = refl;
  attempts = more;
})

Move-IsSameJob : (r r' : Row) (n n' : ℕ) → Move r r' n n' → IsSameJob r r'
Move-IsSameJob r r' n n' (inl (promoted now is e)) =
    changed_job r r' queued r.attempts r.error_message r.started_at r.completed_at now (omega arith)
      e
Move-IsSameJob r r' n n' (inl (claimed now is e)) =
    changed_job r r' running (r.attempts + 1) r.error_message (some now) r.completed_at now
      (omega arith) e
Move-IsSameJob r r' n n' (inl (withdrawn now is e)) =
    changed_job r r' cancelled r.attempts r.error_message r.started_at r.completed_at now
      (omega arith) e
Move-IsSameJob r r' n n' (inl (requeued now is more e)) =
    changed_job r r' queued r.attempts none r.started_at r.completed_at now (omega arith) e
Move-IsSameJob r r' n n' (inr (succeeded now is e)) =
    changed_job r r' completed r.attempts none r.started_at (some now) now (omega arith) e
Move-IsSameJob r r' n n' (inr (postponed message now is more e)) =
    changed_job r r' retrying r.attempts (some message) r.started_at r.completed_at now
      (omega arith) e
Move-IsSameJob r r' n n' (inr (died message now is none_left e)) =
    changed_job r r' dead_letter r.attempts (some message) r.started_at r.completed_at now
      (omega arith) e

IsSameJob-trans : (r r' r'' : Row) → IsSameJob r r' → IsSameJob r' r'' → IsSameJob r r''
IsSameJob-trans r r' r'' a b = record {
  id = b.id ∙ a.id;
  user_id = b.user_id ∙ a.user_id;
  queue_name = b.queue_name ∙ a.queue_name;
  type = b.type ∙ a.type;
  payload = b.payload ∙ a.payload;
  priority = b.priority ∙ a.priority;
  max_attempts = b.max_attempts ∙ a.max_attempts;
  scheduled_at = b.scheduled_at ∙ a.scheduled_at;
  created_at = b.created_at ∙ a.created_at;
  attempts = omega (arith, a.attempts, b.attempts);
}

Evolves-IsSameJob :
    {o o' : Option Row} {n n' : ℕ}
    → Evolves Move o n o' n'
    → (r : Row) → o ≡ some r
    → (r' : Row) × (o' ≡ some r') × IsSameJob r r'
Evolves-IsSameJob (same e) r found = (r, e ∙ found, same_job r)
Evolves-IsSameJob (born r' absent there new) r found = cc
Evolves-IsSameJob {n} {n'} (moved s r' old there m) r found =
    let this : s ≡ r = cc in let again = Move-IsSameJob s r' n n' m in (r', there, rw this at again)

-- The statuses of a job that is done with.
abbrev pub is_over : Status → Bool
is_over completed = true
is_over cancelled = true
is_over _ = false

moves_on : (r r' : Row) (n n' : ℕ) → Move r r' n n' → is_over r.status ≡ false
moves_on r r' n n' (inl (promoted now is e)) = rw is refl
moves_on r r' n n' (inl (claimed now was e)) = elim (is_waiting-cases r.status was) [
  | inl is ↦ rw is refl
  | inr is ↦ rw is refl
]
moves_on r r' n n' (inl (withdrawn now was e)) = elim (is_cancellable-cases r.status was) [
  | inl is ↦ rw is refl
  | inr (inl is) ↦ rw is refl
  | inr (inr is) ↦ rw is refl
]
moves_on r r' n n' (inl (requeued now was more e)) = elim (is_dead-cases r.status was) [
  | inl is ↦ rw is refl
  | inr is ↦ rw is refl
]
moves_on r r' n n' (inr (succeeded now is e)) = rw is refl
moves_on r r' n n' (inr (postponed message now is more e)) = rw is refl
moves_on r r' n n' (inr (died message now is none_left e)) = rw is refl

Evolves-over :
    {o o' : Option Row} {n n' : ℕ}
    → Evolves Move o n o' n'
    → (r : Row) → o ≡ some r
    → is_over r.status ≡ true
    → o' ≡ some r
Evolves-over (same e) r found over = e ∙ found
Evolves-over (born r' absent there new) r found over = cc
Evolves-over {n} {n'} (moved s r' old there m) r found over =
    let this : s ≡ r = cc in
    let ongoing = moves_on s r' n n' m in
    let wrong : false ≡ true = sym (rw this at ongoing) ∙ over in cc

module _ {Z : Type 0} (sets : SortedSets Z) (round : ℤ → ℤ) (convert : ℕ → ℤ) where
  pub Reach_trans :
      (w x v : World Z)
      → Reach sets round convert w x
      → Reach sets round convert x v
      → Reach sets round convert w v
  Reach_trans w x _ a here = a
  Reach_trans w x v a (next {u} steps step) = next (Reach_trans w x u a steps) step

  -- Whatever happens after a job was created, its row is there: with the same identifier, user, queue,
  -- type, payload, priority, limit of attempts and times of creation and schedule, and with no fewer
  -- attempts.
  pub Reach-IsSameJob :
      (redis : Redis Z) (w v : World Z)
      → Reach sets round convert (start redis) w
      → Reach sets round convert w v
      → (id : Text) (row : Row) → row_of id w.store.rows ≡ some row
      → (row' : Row) × (row_of id v.store.rows ≡ some row') × IsSameJob row row'
  Reach-IsSameJob redis w _ before here id row found = (row, found, same_job row)
  Reach-IsSameJob redis w v before (next {u} steps step) id row found =
      let (middle, there, like) = Reach-IsSameJob redis w u before steps id row found in
      let evolves =
        Reach-EvolveAll sets round convert redis u v (Reach_trans (start redis) w u before steps)
          step id in
      let (last, at_last, like_last) = Evolves-IsSameJob evolves middle there in
      (last, at_last, IsSameJob-trans row middle last like like_last)

  -- The row of a job that is completed or cancelled never changes again.
  pub Reach-over :
      (redis : Redis Z) (w v : World Z)
      → Reach sets round convert (start redis) w
      → Reach sets round convert w v
      → (id : Text) (row : Row) → row_of id w.store.rows ≡ some row
      → is_over row.status ≡ true
      → row_of id v.store.rows ≡ some row
  Reach-over redis w _ before here id row found over = found
  Reach-over redis w v before (next {u} steps step) id row found over =
      Evolves-over
        (Reach-EvolveAll sets round convert redis u v (Reach_trans (start redis) w u before steps)
          step id)
        row (Reach-over redis w u before steps id row found over) over
