-- ===== src/Server/Rows.antt =====
-- Reading and updating the table by its primary key (the statements of
-- internal/repository/job_repository.go with `WHERE id = …`).
use job_flow_web_application.Prelude.{
  List, [], ◌∷◌, Bool, true, false, Option, none, some, ◌≡◌, inl, inr, refl, ap, sym, ◌∙◌, arith,
  Bool-cases, if◌then◌else◌,
}
use job_flow_web_application.Prelude.Text.{Text, ◌==◌, eq_iff}
use job_flow_web_application.Server.{Row}

-- `SELECT … WHERE id = $1`
unfoldable pub row_of : Text → List Row → Option Row
row_of id [] = none
row_of id (row ∷ rows) = if row.id == id then some row else row_of id rows

-- `UPDATE … SET … WHERE id = $1 AND … RETURNING …`: the table and the row that is returned. The
-- identifier is the primary key, so that no second row has it.
unfoldable pub update_at : Text → (Row → Bool) → (Row → Row) → List Row → List Row × Option Row
update_at id guard change [] = ([], none)
update_at id guard change (row ∷ rows) =
    let (rest, changed) = update_at id guard change rows in
    if row.id == id
    then (if guard row then (change row ∷ rows, some (change row)) else (row ∷ rows, none))
    else (row ∷ rest, changed)

-- What an update can do: nothing, or change the row that it finds and no other.
pub data Updated (id : Text) (guard : Row → Bool) (change : Row → Row) (rows : List Row)
    (result : List Row × Option Row) : Type 0 where
  unchanged : result ≡ (rows, none) → Updated id guard change rows result
  changed :
      (row : Row)
      → row_of id rows ≡ some row
      → guard row ≡ true
      → result.1 ≡ some (change row)
      → ((other : Text)
          → row_of other result.0 ≡ (if id == other then some (change row) else row_of other rows))
      → Updated id guard change rows result

module _ (id : Text) (guard : Row → Bool) (change : Row → Row)
    (keeps_id : (row : Row) → (change row).id ≡ row.id) where
  Updated-here :
      (row : Row) (rows : List Row)
      → (row.id == id) ≡ true
      → guard row ≡ true
      → (other : Text)
      → row_of other (change row ∷ rows)
        ≡ (if id == other then some (change row) else row_of other (row ∷ rows))
  unfolding row_of
  Updated-here row rows same passes other =
      rw (keeps_id row) (rw ((eq_iff row.id id).0 same) (ground arith))

  Updated-cons :
      (row : Row) (rows : List Row) (result : List Row × Option Row)
      → (row.id == id) ≡ false
      → Updated id guard change rows result
      → Updated id guard change (row ∷ rows) (row ∷ result.0, result.1)
  unfolding row_of
  Updated-cons row rows result other (unchanged e) = unchanged (ap (λ r. (row ∷ r.0, r.1)) e)
  Updated-cons row rows result other (changed found f g r h) =
      changed found (rw other f) g r
        (λ o. ground (arith, h o, eq_iff row.id o, eq_iff id o, eq_iff row.id id))

  pub update_at_lem :
      (rows : List Row) → Updated id guard change rows (update_at id guard change rows)
  unfolding update_at row_of
  update_at_lem [] = unchanged refl
  update_at_lem (row ∷ rows) = elim (Bool-cases (row.id == id)) [
    | inl same ↦ elim (Bool-cases (guard row)) [
      | inl passes ↦
          rw same
            (rw passes (changed row (rw same refl) passes refl (Updated-here row rows same passes)))
      | inr fails ↦ rw same (rw fails (unchanged refl))
    ]
    | inr other ↦ rw other (Updated-cons row rows _ other (update_at_lem rows))
  ]

-- What an update makes of the row that it names, and what it returns.
pub update_at_found :
    (id : Text) (guard : Row → Bool) (change : Row → Row) (rows : List Row) (row : Row)
    → ((r : Row) → (change r).id ≡ r.id)
    → row_of id rows ≡ some row
    → (row_of id (update_at id guard change rows).0 ≡ some (if guard row then change row else row))
      × ((update_at id guard change rows).1 ≡ (if guard row then some (change row) else none))
unfolding update_at row_of
update_at_found id guard change [] row keeps found = cc
update_at_found id guard change (r ∷ rows) row keeps found = elim (Bool-cases (r.id == id)) [
  | inr other ↦
      rw other (rw other (update_at_found id guard change rows row keeps (rw other at found)))
  | inl this ↦
      let found_here : some r ≡ some row = rw this at found in
      let same_row : r ≡ row = cc in
      elim (Bool-cases (guard r)) [
        | inl passes ↦
            rw this
              (rw (sym same_row) (rw passes (rw (ap (λ i. i == id) (keeps r) ∙ this) (refl, refl))))
        | inr fails ↦ rw this (rw (sym same_row) (rw fails (rw this (refl, refl))))
      ]
]

-- An update that no row passes does nothing.
pub update_at_refused :
    (id : Text) (guard : Row → Bool) (change : Row → Row) (rows : List Row)
    → ((row : Row) → row_of id rows ≡ some row → guard row ≡ false)
    → update_at id guard change rows ≡ (rows, none)
unfolding update_at row_of
update_at_refused id guard change [] refuses = refl
update_at_refused id guard change (r ∷ rows) refuses = elim (Bool-cases (r.id == id)) [
  | inl this ↦ rw this (rw (refuses r (rw this refl)) refl)
  | inr other ↦
      let rest =
        update_at_refused id guard change rows (λ row found. refuses row (rw other found)) in
      rw other (rw rest refl)
]
