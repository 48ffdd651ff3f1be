-- ===== src/Server/Repository/Queries.antt =====
-- What the statements on one row answer and leave (internal/repository/job_repository.go).
use job_flow_web_application.Prelude.{
  List, Bool, true, false, Option, none, some, Option-cases, ◌≡◌, inl, inr, refl, ap, ◌∙◌,
}
use job_flow_web_application.Prelude.Text.{Text, ◌==◌, eq_refl}
use job_flow_web_application.Server.{Row, ok, err, Database}
use job_flow_web_application.Server.Rows.{
  row_of, update_at, Updated, unchanged, changed, update_at_lem, update_at_found, update_at_refused,
}
use job_flow_web_application.Server.Repository.{query_row, one_row}

pub one_row-rows :
    (db : Database) (result : List Row × Option Row) → (one_row db result).0 ≡ result.0
one_row-rows db (rows, none) = refl
one_row-rows db (rows, some row) = refl

-- A statement leaves the other rows as they are.
pub query_row-other :
    (db : Database) (id : Text) (guard : Row → Bool) (change : Row → Row) (rows : List Row)
    (other : Text)
    → ((row : Row) → (change row).id ≡ row.id)
    → (id == other) ≡ false
    → row_of other (query_row db id guard change rows).0 ≡ row_of other rows
query_row-other db id guard change rows other keeps apart = elim (Option-cases db.fault) [
  | inr (message, fails) ↦ rw fails refl
  | inl works ↦
      rw (works, one_row-rows db (update_at id guard change rows))
        (go _ (update_at_lem id guard change keeps rows))
]
  where
    go :
        (result : List Row × Option Row)
        → Updated id guard change rows result
        → row_of other result.0 ≡ row_of other rows
    go result (unchanged e) = ap (λ r. row_of other r.0) e
    go result (changed row found passes returned rest) = rest other ∙ rw apart refl

-- An answer with a row is given for a row that passes the test, which is then changed.
pub query_row-ok :
    (db : Database) (id : Text) (guard : Row → Bool) (change : Row → Row) (rows : List Row)
    (job : Row)
    → ((row : Row) → (change row).id ≡ row.id)
    → (query_row db id guard change rows).1 ≡ ok job
    → (row : Row) × (row_of id rows ≡ some row)
      × (guard row ≡ true)
      × (row_of id (query_row db id guard change rows).0 ≡ some (change row))
query_row-ok db id guard change rows job keeps answered = elim (Option-cases db.fault) [
  | inr (message, fails) ↦ let wrong : err message ≡ ok job = rw fails at answered in cc
  | inl works ↦
      rw (works, one_row-rows db (update_at id guard change rows))
        (go _ (update_at_lem id guard change keeps rows) (rw works at answered))
]
  where
    go :
        (result : List Row × Option Row)
        → Updated id guard change rows result
        → (one_row db result).1 ≡ ok job
        → (row : Row) × (row_of id rows ≡ some row)
          × (guard row ≡ true)
          × (row_of id result.0 ≡ some (change row))
    go result (unchanged e) a = let wrong : err db.no_rows ≡ ok job = rw e at a in cc
    go result (changed row found passes returned rest) a =
        (row, found, passes, rest id ∙ rw (eq_refl id) refl)

module _ (db : Database) (works : db.fault ≡ none) where
  pub query_row_found :
      (id : Text) (guard : Row → Bool) (change : Row → Row) (rows : List Row) (row : Row)
      → ((r : Row) → (change r).id ≡ r.id)
      → row_of id rows ≡ some row
      → guard row ≡ true
      → row_of id (query_row db id guard change rows).0 ≡ some (change row)
  query_row_found id guard change rows row keeps found passes =
      rw (works, one_row-rows db (update_at id guard change rows))
        ((update_at_found id guard change rows row keeps found).0 ∙ rw passes refl)

  pub query_row_refused :
      (id : Text) (guard : Row → Bool) (change : Row → Row) (rows : List Row)
      → ((row : Row) → row_of id rows ≡ some row → guard row ≡ false)
      → query_row db id guard change rows ≡ (rows, err db.no_rows)
  query_row_refused id guard change rows refuses =
      rw works (rw (update_at_refused id guard change rows refuses) refl)
