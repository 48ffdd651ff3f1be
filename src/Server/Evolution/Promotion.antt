-- ===== src/Server/Evolution/Promotion.antt =====
-- What the promotion of the scheduled jobs does to the table (`ReadyScheduled` of
-- internal/repository/job_repository.go).
use mathlib.Core.Option
use job_flow_web_application.Prelude.{
  ℕ, List, [], ◌∷◌, map, true, false, some, Option-cases, Bool-cases, ◌≡◌, inl, inr, refl, ap, sym,
  ◌∙◌, arith, take, filter, All, All-filter, zero, suc, if◌then◌else◌,
}
use job_flow_web_application.Prelude.Text.{Text, ◌==◌, eq_iff}
use job_flow_web_application.Table.{contains}
use job_flow_web_application.Sort.Laws.{All-sort_by}
use job_flow_web_application.Table.Selection.{IsDistinct}
use job_flow_web_application.Server.{
  Status, scheduled, queued, running, completed, failed, cancelled, retrying, dead_letter, Row,
  is_scheduled, Database,
}
use job_flow_web_application.Server.Rows.{row_of}
use job_flow_web_application.Server.Repository.{
  is_due, ready_ids, to_queued, ready_scheduled, by_schedule,
}
use job_flow_web_application.Server.Life.{Outer, promoted, same, moved}
use job_flow_web_application.Server.Evolution.{EvolveAll}

-- A change of all the rows that keeps their identifiers.
row_of-map :
    (change : Row → Row) (id : Text) (rows : List Row)
    → ((row : Row) → (change row).id ≡ row.id)
    → row_of id (map change rows) ≡ Option.map change (row_of id rows)
unfolding row_of
row_of-map change id [] keeps = refl
row_of-map change id (row ∷ rows) keeps = elim (Bool-cases (row.id == id)) [
  | inl this ↦ rw (ap (λ i. i == id) (keeps row) ∙ this) (rw this refl)
  | inr that ↦ rw (ap (λ i. i == id) (keeps row) ∙ that) (rw that (row_of-map change id rows keeps))
]

-- The rows with the identifier of a row are due only if that row is.
abbrev IsDueLike : ℕ → Text → Row → Row → Type 0
IsDueLike now id row other = (other.id == id) ≡ true → is_due now row ≡ true

All-IsDueLike_absent :
    (now : ℕ) (id : Text) (row : Row) (rows : List Row)
    → contains (map (λ r. r.id) rows) id ≡ false
    → All (IsDueLike now id row) rows
unfolding contains
All-IsDueLike_absent now id row [] absent = tt
All-IsDueLike_absent now id row (r ∷ rows) absent =
    ((λ h. ground arith), All-IsDueLike_absent now id row rows (ground arith))

All-IsDueLike :
    (now : ℕ) (id : Text) (row : Row) (rows : List Row)
    → IsDistinct (map (λ r. r.id) rows)
    → row_of id rows ≡ some row
    → All (IsDueLike now id row) (filter (is_due now) rows)
unfolding row_of
All-IsDueLike now id row [] distinct found = tt
All-IsDueLike now id row (r ∷ rows) (apart, distinct) found = elim (Bool-cases (r.id == id)) [
  | inl this ↦
      let found_here : some r ≡ some row = rw this at found in
      let same_row : r ≡ row = cc in
      let absent = rw ((eq_iff r.id id).0 this) at apart in
      let others =
        All-filter (IsDueLike now id row) (is_due now) rows
          (All-IsDueLike_absent now id row rows absent) in
      elim (Bool-cases (is_due now r)) [
        | inl due ↦ rw due ((λ h. rw same_row at due), others)
        | inr early ↦ rw early others
      ]
  | inr that ↦
      let others = All-IsDueLike now id row rows distinct (rw that at found) in
      elim (Bool-cases (is_due now r)) [
        | inl due ↦ rw due ((λ h. cc), others)
        | inr early ↦ rw early others
      ]
]

All-take {ℓ} : {A : Type ℓ} (P : A → Type 0) (n : ℕ) (xs : List A) → All P xs → All P (take n xs)
All-take P zero xs h = tt
All-take P (suc n) [] h = tt
All-take P (suc n) (x ∷ xs) (h, hs) = (h, All-take P n xs hs)

due_of_contains :
    (now : ℕ) (id : Text) (row : Row) (rows : List Row)
    → All (IsDueLike now id row) rows
    → contains (map (λ r. r.id) rows) id ≡ true
    → is_due now row ≡ true
unfolding contains
due_of_contains now id row [] h c = cc
due_of_contains now id row (r ∷ rows) (h, hs) c = elim (Bool-cases (r.id == id)) [
  | inl this ↦ h this
  | inr that ↦ due_of_contains now id row rows hs (rw that at c)
]

is_due-scheduled : (now : ℕ) (row : Row) → is_due now row ≡ true → row.status ≡ scheduled
is_due-scheduled now row due = go row.status (ground arith)
  where
    go : (s : Status) → is_scheduled s ≡ true → s ≡ scheduled
    go scheduled h = refl
    go queued h = cc
    go running h = cc
    go completed h = cc
    go failed h = cc
    go cancelled h = cc
    go retrying h = cc
    go dead_letter h = cc

-- The rows that the scheduler picks are scheduled.
ready_ids-scheduled :
    (now limit : ℕ) (rows : List Row) (row : Row) (id : Text)
    → IsDistinct (map (λ r. r.id) rows)
    → row_of id rows ≡ some row
    → contains (ready_ids now limit rows) id ≡ true
    → row.status ≡ scheduled
unfolding ready_ids
ready_ids-scheduled now limit rows row id distinct found c = is_due-scheduled now row (
    due_of_contains now id row _
      (All-take (IsDueLike now id row) limit _ (
        All-sort_by by_schedule (IsDueLike now id row) _
          (All-IsDueLike now id row rows distinct found)))
      c)

row_of-id : (id : Text) (rows : List Row) (row : Row) → row_of id rows ≡ some row → row.id ≡ id
unfolding row_of
row_of-id id [] row found = cc
row_of-id id (r ∷ rows) row found = elim (Bool-cases (r.id == id)) [
  | inl this ↦
      let found_here : some r ≡ some row = rw this at found in
      let same_row : r ≡ row = cc in ap (λ x. x.id) (sym same_row) ∙ (eq_iff r.id id).0 this
  | inr that ↦ row_of-id id rows row (rw that at found)
]

abbrev pub promote_some : ℕ → List Text → Row → Row
promote_some now ids row = if contains ids row.id then to_queued now row else row

pub promote_some-id :
    (now : ℕ) (ids : List Text) (row : Row) → (promote_some now ids row).id ≡ row.id
unfolding to_queued
promote_some-id now ids row = elim (Bool-cases (contains ids row.id)) [
  | inl chosen ↦ rw chosen refl
  | inr left ↦ rw left refl
]

-- With distinct identifiers, a promotion changes scheduled rows only, and makes them queued.
pub ready_scheduled-EvolveAll :
    (db : Database) (now limit : ℕ) (rows : List Row) (f : Text → ℕ)
    → IsDistinct (map (λ r. r.id) rows)
    → EvolveAll Outer f f rows (ready_scheduled db now limit rows).0
unfolding ready_scheduled
ready_scheduled-EvolveAll db now limit rows f distinct id = elim (Option-cases db.fault) [
  | inr (message, fails) ↦ rw (fails, ready_scheduled) (same refl)
  | inl works ↦
      let ids = ready_ids now limit rows in
      let mapped = row_of-map (promote_some now ids) id rows (promote_some-id now ids) in
      rw (works, ready_scheduled)
        (elim (Option-cases (row_of id rows)) [
          | inl absent ↦ same (rw absent at mapped ∙ sym absent)
          | inr (row, found) ↦ elim (Bool-cases (contains ids row.id)) [
            | inr left ↦ same (rw (found, left) at mapped ∙ sym found)
            | inl chosen ↦
                let picked = rw (row_of-id id rows row found) at chosen in
                moved row (to_queued now row) found (rw (found, chosen) at mapped) (
                  promoted now (ready_ids-scheduled now limit rows row id distinct found picked)
                    refl)
          ]
        ])
]
