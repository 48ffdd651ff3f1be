-- ===== src/Server/Evolution/Keys.antt =====
-- No statement makes two rows with one identifier (internal/repository/job_repository.go).
use job_flow_web_application.Prelude.{
  ℕ, List, [], ◌∷◌, ◌++◌, map, Bool, true, false, none, some, Option-cases, Bool-cases, ◌≡◌, inl,
  inr, refl, ap,
}
use job_flow_web_application.Prelude.Text.{Text, ◌==◌}
use job_flow_web_application.Table.{contains}
use job_flow_web_application.Table.Selection.{IsDistinct, IsDistinct-append}
use job_flow_web_application.Server.{Row, Database}
use job_flow_web_application.Server.Rows.{row_of, update_at}
use job_flow_web_application.Server.Repository.{
  CreateJobParams, query_row, new_row, fits, create, cancel, mark_running, mark_completed,
  mark_failed, requeue, ready_scheduled,
}
use job_flow_web_application.Server.Repository.{ready_ids, as_completed, as_failed}
use job_flow_web_application.Server.Repository.Queries.{one_row-rows}
use job_flow_web_application.Server.Evolution.Promotion.{promote_some, promote_some-id}

abbrev pub ids_of : List Row → List Text
ids_of rows = map (λ r. r.id) rows

ids_of-map :
    (change : Row → Row) (rows : List Row)
    → ((row : Row) → (change row).id ≡ row.id)
    → ids_of (map change rows) ≡ ids_of rows
ids_of-map change [] keeps = refl
ids_of-map change (row ∷ rows) keeps = rw (keeps row, ids_of-map change rows keeps) refl

ids_of-update_at :
    (id : Text) (guard : Row → Bool) (change : Row → Row) (rows : List Row)
    → ((row : Row) → (change row).id ≡ row.id)
    → ids_of (update_at id guard change rows).0 ≡ ids_of rows
unfolding update_at
ids_of-update_at id guard change [] keeps = refl
ids_of-update_at id guard change (row ∷ rows) keeps = elim (Bool-cases (row.id == id)) [
  | inl this ↦ elim (Bool-cases (guard row)) [
    | inl passes ↦ rw (this, passes) (ap (λ i. i ∷ ids_of rows) (keeps row))
    | inr fails ↦ rw (this, fails) refl
  ]
  | inr that ↦ rw that (ap (row.id ∷◌) (ids_of-update_at id guard change rows keeps))
]

pub ids_of-query_row :
    (db : Database) (id : Text) (guard : Row → Bool) (change : Row → Row) (rows : List Row)
    → ((row : Row) → (change row).id ≡ row.id)
    → ids_of (query_row db id guard change rows).0 ≡ ids_of rows
ids_of-query_row db id guard change rows keeps = elim (Option-cases db.fault) [
  | inr (message, fails) ↦ rw fails refl
  | inl works ↦
      rw (works, one_row-rows db (update_at id guard change rows))
        (ids_of-update_at id guard change rows keeps)
]

abbrev pub IsKeyed : List Row → Type 0
IsKeyed rows = IsDistinct (ids_of rows)

absent_of_row_of :
    (id : Text) (rows : List Row) → row_of id rows ≡ none → contains (ids_of rows) id ≡ false
unfolding row_of contains
absent_of_row_of id [] h = refl
absent_of_row_of id (row ∷ rows) h = elim (Bool-cases (row.id == id)) [
  | inl this ↦ let stop : some row ≡ none = rw this at h in cc
  | inr that ↦ rw that (absent_of_row_of id rows (rw that at h))
]

ids_of-append :
    (rows : List Row) (row : Row) → ids_of (rows ++ row ∷ []) ≡ ids_of rows ++ row.id ∷ []
ids_of-append [] row = refl
ids_of-append (r ∷ rows) row = ap (r.id ∷◌) (ids_of-append rows row)

pub create-IsKeyed :
    (db : Database) (id : Text) (now : ℕ) (p : CreateJobParams) (rows : List Row)
    → row_of id rows ≡ none
    → IsKeyed rows
    → IsKeyed (create db id now p rows).0
unfolding create
create-IsKeyed db id now p rows fresh keyed = elim (Option-cases db.fault) [
  | inr (message, fails) ↦ rw (fails, create) keyed
  | inl works ↦
      rw (works, create)
        (elim (Bool-cases (fits p)) [
          | inr bad ↦ rw bad keyed
          | inl good ↦
              rw (good, ids_of-append rows (new_row id now p))
                (IsDistinct-append (ids_of rows) id (absent_of_row_of id rows fresh) keyed)
        ])
]

module _ (db : Database) (rows : List Row) where
  pub cancel-ids : (id user : Text) (now : ℕ) → ids_of (cancel db id user now rows).0 ≡ ids_of rows
  unfolding cancel
  cancel-ids id user now = ids_of-query_row db id _ _ rows (λ row. refl)

  pub mark_running-ids :
      (id : Text) (now : ℕ) → ids_of (mark_running db id now rows).0 ≡ ids_of rows
  unfolding mark_running
  mark_running-ids id now = ids_of-query_row db id _ _ rows (λ row. refl)

  pub mark_completed-ids :
      (id : Text) (now : ℕ) → ids_of (mark_completed db id now rows) ≡ ids_of rows
  unfolding mark_completed
  mark_completed-ids id now =
      ids_of-query_row db id (λ row. true) (as_completed now) rows (λ row. refl)

  pub mark_failed-ids :
      (id message : Text) (now : ℕ) → ids_of (mark_failed db id message now rows).0 ≡ ids_of rows
  unfolding mark_failed
  mark_failed-ids id message now =
      ids_of-query_row db id (λ row. true) (as_failed message now) rows (λ row. refl)

  pub requeue-ids :
      (id user : Text) (now : ℕ) → ids_of (requeue db id user now rows).0 ≡ ids_of rows
  unfolding requeue
  requeue-ids id user now = ids_of-query_row db id _ _ rows (λ row. refl)

  pub ready_scheduled-ids :
      (now limit : ℕ) → ids_of (ready_scheduled db now limit rows).0 ≡ ids_of rows
  unfolding ready_scheduled
  ready_scheduled-ids now limit = elim (Option-cases db.fault) [
    | inr (message, fails) ↦ rw (fails, ready_scheduled) refl
    | inl works ↦
        rw (works, ready_scheduled)
          (ids_of-map (promote_some now (ready_ids now limit rows)) rows
            (promote_some-id now (ready_ids now limit rows)))
  ]
