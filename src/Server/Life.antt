-- ===== src/Server/Life.antt =====
-- The life of a job as the server promises it, apart from tables and queues (docs/ARCHITECTURE.md,
-- internal/model/model.go).
use job_flow_web_application.Prelude.{ℕ, ◌+◌, ◌≤◌, true, false, Option, none, some, ◌≡◌, ◌⊎◌}
use job_flow_web_application.Prelude.Int.{pos, ltb_ℤ}
use job_flow_web_application.Prelude.Text.{Text}
use job_flow_web_application.Server.{
  scheduled, queued, running, completed, cancelled, retrying, dead_letter, Row, is_waiting,
  is_cancellable, is_dead,
}

-- What happens to a job from outside its run. The numbers count how often its retry was asked for.
pub data Outer (r r' : Row) (n n' : ℕ) : Type 0 where
  promoted :
      (now : ℕ)
      → r.status ≡ scheduled
      → r' ≡ record r { status = queued; updated_at = now }
      → Outer r r' n n'
  claimed :
      (now : ℕ)
      → is_waiting r.status ≡ true
      → r' ≡ record r {
        status = running;
        attempts = r.attempts + 1;
        started_at = some now;
        updated_at = now;
      }
      → Outer r r' n n'
  withdrawn :
      (now : ℕ)
      → is_cancellable r.status ≡ true
      → r' ≡ record r { status = cancelled; updated_at = now }
      → Outer r r' n n'
  requeued :
      (now : ℕ)
      → is_dead r.status ≡ true
      → n + 1 ≤ n'
      → r' ≡ record r { status = queued; error_message = none; updated_at = now }
      → Outer r r' n n'

-- How a run ends.
pub data Inner (r r' : Row) (n n' : ℕ) : Type 0 where
  succeeded :
      (now : ℕ)
      → r.status ≡ running
      → r' ≡ record r {
        status = completed;
        error_message = none;
        completed_at = some now;
        updated_at = now;
      }
      → Inner r r' n n'
  postponed :
      (message : Text) (now : ℕ)
      → r.status ≡ running
      → ltb_ℤ (pos r.attempts) r.max_attempts ≡ true
      → r' ≡ record r { status = retrying; error_message = some message; updated_at = now }
      → Inner r r' n n'
  died :
      (message : Text) (now : ℕ)
      → r.status ≡ running
      → ltb_ℤ (pos r.attempts) r.max_attempts ≡ false
      → r' ≡ record r { status = dead_letter; error_message = some message; updated_at = now }
      → Inner r r' n n'

-- A job that nothing has happened to.
abbrev pub IsNew : Row → Type 0
IsNew r =
    (r.attempts ≡ 0)
    × (r.error_message ≡ none)
    × (r.started_at ≡ none)
    × (r.completed_at ≡ none)
    × ((r.status ≡ queued) ⊎ (r.status ≡ scheduled))

-- A job stays as it is, appears as a new one, or makes a move.
pub data Evolves (Move : Row → Row → ℕ → ℕ → Type 0) (o : Option Row) (n : ℕ) (o' : Option Row)
    (n' : ℕ) : Type 0 where
  same : o' ≡ o → Evolves Move o n o' n'
  born : (r : Row) → o ≡ none → o' ≡ some r → IsNew r → Evolves Move o n o' n'
  moved : (r r' : Row) → o ≡ some r → o' ≡ some r' → Move r r' n n' → Evolves Move o n o' n'

abbrev pub Move : Row → Row → ℕ → ℕ → Type 0
Move r r' n n' = Outer r r' n n' ⊎ Inner r r' n n'
