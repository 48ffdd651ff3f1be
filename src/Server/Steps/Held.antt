-- ===== src/Server/Steps/Held.antt =====
-- Which worker has which job (internal/worker/pool.go, internal/repository/job_repository.go).
use job_flow_web_application.Prelude.{
  ℕ, ◌+◌, ◌-◌, ◌≤◌, List, true, false, Option, none, some, Bool-cases, ◌≡◌, ◌⊎◌, inl, inr, refl, ap,
  sym, ◌∙◌, arith,
}
use job_flow_web_application.Prelude.Text.{Text, ◌==◌, eq_iff}
use job_flow_web_application.Server.{scheduled, running, Row, ok, err, Database}
use job_flow_web_application.Server.Rows.{row_of}
use job_flow_web_application.Server.Repository.{
  as_completed, as_failed, mark_running, mark_completed, mark_failed,
}
use job_flow_web_application.Server.Life.{
  Outer, promoted, claimed, withdrawn, requeued, Evolves, same, born, moved,
}
use job_flow_web_application.Server.Repository.Queries.{query_row-other, query_row-ok}
use job_flow_web_application.Server.Evolution.{EvolveAll, mark_running-EvolveAll}
use job_flow_web_application.Server.Evolution.Stores.{Answer-cases}
use job_flow_web_application.Server.Steps.{drop_one, claims_one}

-- So many workers run the job of a row: none, or one, and then the row says so.
abbrev pub Occupied : List Row → Text → ℕ → Type 0
Occupied rows id n =
    (n ≡ 0) ⊎ ((n ≡ 1) × (row : Row) × (row_of id rows ≡ some row) × (row.status ≡ running))

-- What is done from outside leaves a running row as it is.
pub running_stays :
    {o o' : Option Row} {n n' : ℕ}
    → Evolves Outer o n o' n'
    → (row : Row) → o ≡ some row
    → row.status ≡ running
    → o' ≡ some row
running_stays (same e) row found runs = e ∙ found
running_stays (born r absent there new) row found runs = cc
running_stays (moved r r' old new (promoted now s e)) row found runs =
    let this : r ≡ row = cc in
    let bad : scheduled ≡ running = sym s ∙ ap (λ x. x.status) this ∙ runs in cc
running_stays (moved r r' old new (claimed now s e)) row found runs =
    let this : r ≡ row = cc in let bad : false ≡ true = rw (this, runs) at s in cc
running_stays (moved r r' old new (withdrawn now s e)) row found runs =
    let this : r ≡ row = cc in let bad : false ≡ true = rw (this, runs) at s in cc
running_stays (moved r r' old new (requeued now s more e)) row found runs =
    let this : r ≡ row = cc in let bad : false ≡ true = rw (this, runs) at s in cc

pub Occupied-Outer :
    (f f' : Text → ℕ) (rows rows' : List Row) (id : Text) (n : ℕ)
    → EvolveAll Outer f f' rows rows'
    → Occupied rows id n
    → Occupied rows' id n
Occupied-Outer f f' rows rows' id n h (inl idle) = inl idle
Occupied-Outer f f' rows rows' id n h (inr (one, row, found, runs)) =
    inr (one, row, running_stays (h id) row found runs, runs)

pub Occupied-drop :
    (rows : List Row) (id : Text) (n : ℕ) → Occupied rows id n → Occupied rows id (n - 1)
Occupied-drop rows id n (inl idle) = inl (omega arith)
Occupied-drop rows id n (inr (one, row, held, runs)) = inl (omega arith)

-- A row that a worker runs is running.
pub runs_of_Occupied :
    (rows : List Row) (id : Text) (n : ℕ)
    → Occupied rows id n
    → 1 ≤ n
    → (row : Row) → row_of id rows ≡ some row
    → row.status ≡ running
runs_of_Occupied rows id n (inl idle) more row found = absurd (omega arith)
runs_of_Occupied rows id n (inr (one, r, there, runs)) more row found =
    let this : r ≡ row = cc in rw this at runs

-- A worker that claims a job is the only one that runs it.
Occupied-claim :
    (db : Database) (id : Text) (now : ℕ) (rows : List Row) (job : Row) (n : ℕ)
    → (mark_running db id now rows).1 ≡ ok job
    → Occupied rows id n
    → Occupied (mark_running db id now rows).0 id (n + 1)
unfolding mark_running
Occupied-claim db id now rows job n answered held =
    let (row, found, waits, there) = query_row-ok db id _ _ rows job (λ row. refl) answered in
    elim held [
      | inl idle ↦ inr (omega arith, _, there, refl)
      | inr (one, r, old, runs) ↦
          let this : r ≡ row = cc in let bad : false ≡ true = rw (sym this, runs) at waits in cc
    ]

pub mark_running-Occupied :
    (db : Database) (id : Text) (now : ℕ) (rows : List Row) (f : Text → ℕ)
    → ((other : Text) → Occupied rows other (f other))
    → (other : Text)
    → Occupied (mark_running db id now rows).0 other (
        claims_one id
          (elim (mark_running db id now rows).1 [ err _ ↦ none | ok job ↦ some job ])
          f
          other)
mark_running-Occupied db id now rows f held other =
    let kept =
      Occupied-Outer f f rows (mark_running db id now rows).0 other (f other)
        (mark_running-EvolveAll db id now rows f) (held other) in
    elim (Answer-cases (mark_running db id now rows).1) [
      | inr (message, e) ↦ rw e kept
      | inl (job, e) ↦ rw e (elim (Bool-cases (id == other)) [
        | inr that ↦ rw that kept
        | inl this ↦ rw this (
            rw (sym ((eq_iff id other).0 this))
              (Occupied-claim db id now rows job (f id) e (held id)))
      ])
    ]

-- A run that ends leaves the job with no worker, and the other rows as they are.
ended-Occupied :
    (id : Text) (rows rows' : List Row) (f : Text → ℕ)
    → 1 ≤ f id
    → ((other : Text) → (id == other) ≡ false → row_of other rows' ≡ row_of other rows)
    → ((other : Text) → Occupied rows other (f other))
    → (other : Text) → Occupied rows' other (drop_one id f other)
ended-Occupied id rows rows' f more rest held other = elim (Bool-cases (id == other)) [
  | inr that ↦ rw that (rw (rest other that) (held other))
  | inl this ↦ rw this (elim (held other) [
    | inl idle ↦ inl (omega arith)
    | inr (one, row, found, runs) ↦ inl (omega arith)
  ])
]

pub mark_completed-Occupied :
    (db : Database) (id : Text) (now : ℕ) (rows : List Row) (f : Text → ℕ)
    → 1 ≤ f id
    → ((other : Text) → Occupied rows other (f other))
    → (other : Text) → Occupied (mark_completed db id now rows) other (drop_one id f other)
unfolding mark_completed
mark_completed-Occupied db id now rows f more =
    ended-Occupied id rows (mark_completed db id now rows) f more (λ other apart.
      query_row-other db id (λ row. true) (as_completed now) rows other (λ row. refl) apart)

pub mark_failed-Occupied :
    (db : Database) (id message : Text) (now : ℕ) (rows : List Row) (f : Text → ℕ)
    → 1 ≤ f id
    → ((other : Text) → Occupied rows other (f other))
    → (other : Text) → Occupied (mark_failed db id message now rows).0 other (drop_one id f other)
unfolding mark_failed
mark_failed-Occupied db id message now rows f more =
    ended-Occupied id rows (mark_failed db id message now rows).0 f more (λ other apart.
      query_row-other db id (λ row. true) (as_failed message now) rows other (λ row. refl) apart)
