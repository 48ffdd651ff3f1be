-- ===== src/Server/Evolution.antt =====
-- What each operation of the server does to the table (internal/repository/job_repository.go,
-- internal/service/job_service.go, internal/worker/pool.go).
pub mod Promotion
pub mod Keys
pub mod Stores
use job_flow_web_application.Prelude.{
  ℕ, ◌+◌, ◌≤◌, List, [], ◌∷◌, ◌++◌, map, Bool, true, false, ◌&&◌, ◌||◌, Option, none, some,
  Option-cases, Bool-cases, ◌≡◌, ◌≢◌, ◌⊎◌, inl, inr, refl, ap, sym, ◌∙◌, arith, take, filter, All,
  All-filter, zero, suc, if◌then◌else◌,
}
use job_flow_web_application.Prelude.Int.{ℤ, pos, ltb_ℤ}
use job_flow_web_application.Prelude.Text.{Text, ◌==◌, eq_iff, eq_refl}
use job_flow_web_application.Table.{contains}
use job_flow_web_application.Sort.Laws.{All-sort_by}
use job_flow_web_application.Table.Selection.{IsDistinct}
use job_flow_web_application.Server.{
  Status, scheduled, queued, running, completed, failed, cancelled, retrying, dead_letter, Row,
  is_waiting, is_cancellable, is_dead, is_scheduled, Answer, ok, err, Database,
}
use job_flow_web_application.Server.Rows.{
  row_of, update_at, Updated, unchanged, changed, update_at_lem, update_at_found, update_at_refused,
}
use job_flow_web_application.Server.Repository.{
  CreateJobParams, query_row, one_row, new_row, fits, create, cancel, mark_running, mark_completed,
  mark_failed, requeue, is_owner, as_completed, as_failed, is_due, ready_ids, to_queued,
  ready_scheduled, is_after, by_schedule,
}
use job_flow_web_application.Server.Repository.Queries.{one_row-rows}
use job_flow_web_application.Server.Life.{
  Outer, promoted, claimed, withdrawn, requeued, Inner, succeeded, postponed, died, Evolves, same,
  born, moved, IsNew,
}

-- The row of each identifier evolves from one table to the next.
abbrev pub EvolveAll :
    (Row → Row → ℕ → ℕ → Type 0) → (Text → ℕ) → (Text → ℕ) → List Row → List Row → Type 0
EvolveAll M f f' rows rows' =
    (id : Text) → Evolves M (row_of id rows) (f id) (row_of id rows') (f' id)

module _ (M : Row → Row → ℕ → ℕ → Type 0) (f f' : Text → ℕ) where
  -- An update of one row, if it makes a move.
  module _ (id : Text) (guard : Row → Bool) (change : Row → Row) (rows : List Row)
      (move : (row : Row)
        → row_of id rows ≡ some row
        → guard row ≡ true
        → M row (change row) (f id) (f' id)) where
    Updated-EvolveAll :
        (result : List Row × Option Row)
        → Updated id guard change rows result
        → EvolveAll M f f' rows result.0
    Updated-EvolveAll result (unchanged e) other = same (ap (λ r. row_of other r.0) e)
    Updated-EvolveAll result (changed row found passes returned rest) other =
        elim (Bool-cases (id == other)) [
          | inl this ↦
              let moves : Evolves M (row_of id rows) (f id) (row_of id result.0) (f' id) =
                moved row (change row) found (rest id ∙ rw (eq_refl id) refl)
                  (move row found passes) in
              rw ((eq_iff id other).0 this) at moves
          | inr that ↦ same (rest other ∙ rw that refl)
        ]

    pub query_row-EvolveAll :
        ((row : Row) → (change row).id ≡ row.id)
        → (db : Database) → EvolveAll M f f' rows (query_row db id guard change rows).0
    query_row-EvolveAll keeps db = elim (Option-cases db.fault) [
      | inl works ↦
          rw (works, one_row-rows db (update_at id guard change rows))
            (Updated-EvolveAll _ (update_at_lem id guard change keeps rows))
      | inr (message, fails) ↦ rw fails (λ other. same refl)
    ]

and_right : (a b : Bool) → (a && b) ≡ true → b ≡ true
and_right true b h = h
and_right false b h = cc

module _ (db : Database) (id : Text) (now : ℕ) (rows : List Row) (f : Text → ℕ) where
  pub cancel-EvolveAll : (user : Text) → EvolveAll Outer f f rows (cancel db id user now rows).0
  unfolding cancel
  cancel-EvolveAll user =
      query_row-EvolveAll Outer f f id _
        (λ row. record row { status = cancelled; updated_at = now }) rows
        (λ row found passes.
          withdrawn now (and_right (is_owner db user row) (is_cancellable row.status) passes) refl)
        (λ row. refl) db

  pub mark_running-EvolveAll : EvolveAll Outer f f rows (mark_running db id now rows).0
  unfolding mark_running
  mark_running-EvolveAll =
      query_row-EvolveAll Outer f f id (λ row. is_waiting row.status) _ rows
        (λ row found passes. claimed now passes refl) (λ row. refl) db

  pub requeue-EvolveAll :
      (user : Text) (f' : Text → ℕ)
      → f id + 1 ≤ f' id
      → EvolveAll Outer f f' rows (requeue db id user now rows).0
  unfolding requeue
  requeue-EvolveAll user f' more =
      query_row-EvolveAll Outer f f' id _
        (λ row. record row { status = queued; error_message = none; updated_at = now }) rows
        (λ row found passes.
          requeued now (and_right (is_owner db user row) (is_dead row.status) passes) more refl)
        (λ row. refl) db

  -- The two ends of a run, of a row that runs.
  module _ (runs : (row : Row) → row_of id rows ≡ some row → row.status ≡ running) where
    pub mark_completed-EvolveAll : EvolveAll Inner f f rows (mark_completed db id now rows)
    unfolding mark_completed
    mark_completed-EvolveAll =
        query_row-EvolveAll Inner f f id (λ row. true) (as_completed now) rows
          (λ row found passes. succeeded now (runs row found) refl) (λ row. refl) db

    pub mark_failed-EvolveAll :
        (message : Text) → EvolveAll Inner f f rows (mark_failed db id message now rows).0
    unfolding mark_failed
    mark_failed-EvolveAll message =
        query_row-EvolveAll Inner f f id (λ row. true) (as_failed message now) rows
          (λ row found passes. elim (Bool-cases (ltb_ℤ (pos row.attempts) row.max_attempts)) [
            | inl more ↦ postponed message now (runs row found) more (rw more refl)
            | inr none_left ↦ died message now (runs row found) none_left (rw none_left refl)
          ])
          (λ row. refl) db

pub row_of-append :
    (id : Text) (rows : List Row) (row : Row)
    → row_of id (rows ++ row ∷ [])
      ≡ elim (row_of id rows) [ none ↦ if row.id == id then some row else none | some r ↦ some r ]
unfolding row_of
row_of-append id [] row = refl
row_of-append id (r ∷ rows) row = elim (Bool-cases (r.id == id)) [
  | inl same_id ↦ rw same_id refl
  | inr other ↦ rw other (row_of-append id rows row)
]

new_row-status :
    (id : Text) (now : ℕ) (p : CreateJobParams)
    → ((new_row id now p).status ≡ queued) ⊎ ((new_row id now p).status ≡ scheduled)
unfolding new_row
new_row-status id now p = elim (Bool-cases (is_after p.scheduled_at now)) [
  | inl later ↦ rw later (inr refl)
  | inr ready ↦ rw ready (inl refl)
]

append-EvolveAll :
    (row : Row) (rows : List Row) (f : Text → ℕ)
    → IsNew row
    → EvolveAll Outer f f rows (rows ++ row ∷ [])
append-EvolveAll row rows f new other = elim (Option-cases (row_of other rows)) [
  | inr (r, old) ↦ same (row_of-append other rows row ∙ rw old refl)
  | inl fresh ↦ elim (Bool-cases (row.id == other)) [
    | inl this ↦ born row fresh (row_of-append other rows row ∙ rw fresh (rw this refl)) new
    | inr that ↦ same (row_of-append other rows row ∙ rw fresh (rw that refl))
  ]
]

pub create-EvolveAll :
    (db : Database) (id : Text) (now : ℕ) (p : CreateJobParams) (rows : List Row) (f : Text → ℕ)
    → EvolveAll Outer f f rows (create db id now p rows).0
unfolding create
create-EvolveAll db id now p rows f = elim (Option-cases db.fault) [
  | inr (message, fails) ↦ rw (fails, create) (λ other. same refl)
  | inl works ↦
      rw (works, create)
        (elim (Bool-cases (fits p)) [
          | inl good ↦ rw good (
              append-EvolveAll (new_row id now p) rows f
                (refl, refl, refl, refl, new_row-status id now p))
          | inr bad ↦ rw bad (λ other. same refl)
        ])
]
