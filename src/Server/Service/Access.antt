-- ===== src/Server/Service/Access.antt =====
-- What a user can do to the jobs of others, and see of them (internal/service/job_service.go,
-- internal/repository/job_repository.go).
use job_flow_web_application.Prelude.{
  ℕ, zero, suc, ◌≤◌, List, [], ◌∷◌, Bool, true, false, ◌&&◌, ◌||◌, Option, none, some, ◌≡◌, inl,
  inr, refl, ap, arith, length, take, filter, All, Bool-cases,
}
use job_flow_web_application.Prelude.Int.{ℤ, pos, negsuc}
use job_flow_web_application.Prelude.Text.{Text, ◌==◌, is_empty}
use job_flow_web_application.Sort.{sort_by}
use job_flow_web_application.Sort.Laws.{
  All-sort_by, Before, IsSorted, IsConsistent, sort_by-IsSorted,
}
use job_flow_web_application.Server.{
  Row, ok, err, Database, status_text, queued, cancelled, is_cancellable, is_dead,
}
use job_flow_web_application.Server.Rows.{row_of}
use job_flow_web_application.Server.Repository.Queries.{query_row_refused}
use job_flow_web_application.Server.Repository.{
  is_owner, cancel, requeue, list_jobs, clamp, by_newest,
}
use job_flow_web_application.Server.Queue.{SortedSets}
use job_flow_web_application.Server.Service.{Store, cancel_job, retry_job}

and_fails : (a b : Bool) → a ≡ false → (a && b) ≡ false
and_fails a b h = rw h refl

module _ (db : Database) (id user : Text) (now : ℕ) (rows : List Row) (works : db.fault ≡ none)
    (others : (row : Row) → row_of id rows ≡ some row → is_owner db user row ≡ false) where
  cancel_refused : cancel db id user now rows ≡ (rows, err db.no_rows)
  unfolding cancel
  cancel_refused =
      query_row_refused db works id (λ row. is_owner db user row && is_cancellable row.status)
        (λ row. record row { status = cancelled; updated_at = now }) rows
        (λ row found.
          and_fails (is_owner db user row) (is_cancellable row.status) (others row found))

  requeue_refused : requeue db id user now rows ≡ (rows, err db.no_rows)
  unfolding requeue
  requeue_refused =
      query_row_refused db works id (λ row. is_owner db user row && is_dead row.status)
        (λ row. record row { status = queued; error_message = none; updated_at = now }) rows
        (λ row found. and_fails (is_owner db user row) (is_dead row.status) (others row found))

module _ {Z : Type 0} (sets : SortedSets Z) (round : ℤ → ℤ) where
  -- With PostgreSQL at work, a user who cancels or retries a job that is not there or not theirs gets
  -- the error for no row, and the table, the queues and the events stay as they are.
  pub others-refused :
      (db : Database) (redis_error : Option Text) (id user : Text) (now : ℕ) (s : Store Z)
      → db.fault ≡ none
      → ((row : Row) → row_of id s.rows ≡ some row → is_owner db user row ≡ false)
      → (cancel_job sets round db id user now s ≡ (s, some db.no_rows))
        × (retry_job sets round db redis_error id user now s ≡ (s, err db.no_rows))
  unfolding cancel_job retry_job
  others-refused db redis_error id user now s works others =
      let cancelling = cancel_refused db id user now s.rows works others in
      let retrying = requeue_refused db id user now s.rows works others in
      (
        rw (ap (λ r. r.1) cancelling, cancel_job) (rw (ap (λ r. r.0) cancelling) refl),
        rw (ap (λ r. r.1) retrying, retry_job) (rw (ap (λ r. r.0) retrying) refl),
      )

All-take {ℓ} : {A : Type ℓ} (P : A → Type 0) (n : ℕ) (xs : List A) → All P xs → All P (take n xs)
All-take P zero xs h = tt
All-take P (suc n) [] h = tt
All-take P (suc n) (x ∷ xs) (h, hs) = (h, All-take P n xs hs)

IsSorted-take {ℓ} :
    {A : Type ℓ} (compare : A → A → ℤ) (n : ℕ) (xs : List A)
    → IsSorted compare xs
    → IsSorted compare (take n xs)
IsSorted-take compare zero xs h = tt
IsSorted-take compare (suc n) [] h = tt
IsSorted-take compare (suc n) (x ∷ xs) (h, hs) =
    (All-take (Before compare x) n xs h, IsSorted-take compare n xs hs)

length-take-le {ℓ} : {A : Type ℓ} (n : ℕ) (xs : List A) → length (take n xs) ≤ n
length-take-le zero xs = omega arith
length-take-le (suc n) [] = omega arith
length-take-le (suc n) (x ∷ xs) = omega (arith, length-take-le n xs)

All-filter_passes {ℓ} :
    {A : Type ℓ} (p : A → Bool) (xs : List A) → All (λ x. p x ≡ true) (filter p xs)
All-filter_passes p [] = tt
All-filter_passes p (x ∷ xs) = elim (Bool-cases (p x)) [
  | inl kept ↦ rw kept (kept, All-filter_passes p xs)
  | inr dropped ↦ rw dropped (All-filter_passes p xs)
]

All-All {ℓ} : {A : Type ℓ} (P : A → Type 0) (xs : List A) → ((x : A) → P x) → All P xs
All-All P [] h = tt
All-All P (x ∷ xs) h = (h x, All-All P xs h)

clamp-le : (db : Database) (limit : ℤ) → clamp db limit ≤ 100
clamp-le db (pos n) = ground arith
clamp-le db (negsuc n) = omega arith

module _ (db : Database) where
  by_newest-IsConsistent : IsConsistent (by_newest db) (λ row. Unit)
  by_newest-IsConsistent = record {
    total = λ a b _ _. ground arith;
    trans = λ a b c _ _ _ ab bc. ground arith;
  }

  -- With PostgreSQL at work, the list of jobs holds at most 100 jobs, all of the user and of the status
  -- that was asked for, the newest first.
  pub list_jobs_lem :
      (user status : Text) (limit : ℤ) (rows : List Row)
      → db.fault ≡ none
      → (jobs : List Row) × (list_jobs db user status limit rows ≡ ok jobs)
        × (length jobs ≤ 100)
        × All
            (λ row.
              (is_owner db user row && (is_empty status || status_text row.status == status))
              ≡ true)
            jobs
        × IsSorted (by_newest db) jobs
  unfolding list_jobs
  list_jobs_lem user status limit rows works =
      let wanted =
        filter
          (λ row. is_owner db user row && (is_empty status || status_text row.status == status))
          rows in
      let sorted = sort_by (by_newest db) wanted in
      (
        take (clamp db limit) sorted,
        rw (works, list_jobs) refl,
        omega (arith, length-take-le (clamp db limit) sorted, clamp-le db limit),
        All-take _ (clamp db limit) sorted
            (All-sort_by (by_newest db) _ wanted (All-filter_passes _ rows)),
        IsSorted-take (by_newest db) (clamp db limit) sorted (
            sort_by-IsSorted (by_newest db) by_newest-IsConsistent wanted
              (All-All _ wanted (λ row. tt))),
      )
