-- ===== src/Server/Dashboard/Counts.antt =====
-- Counting jobs by a value (`Stats` of internal/repository/job_repository.go).
use job_flow_web_application.Prelude.{
  ℕ, ◌+◌, List, [], ◌∷◌, map, false, ◌≡◌, refl, ap, ◌∙◌, arith, length, if◌then◌else◌,
}
use job_flow_web_application.Prelude.Text.{Text, txt, ◌==◌, eq_iff, eq_refl}
use job_flow_web_application.Server.{
  Status, scheduled, queued, running, completed, failed, cancelled, retrying, dead_letter,
  status_text, Row,
}
use job_flow_web_application.Server.Dashboard.{
  tally, group_counts, value_at, set_value, sum_counts, with_total,
}

-- How many of some values are the given one.
abbrev pub count_of : Text → List Text → ℕ
count_of value [] = 0
count_of value (v ∷ values) = (if v == value then 1 else 0) + count_of value values

value_at-tally :
    (key value : Text) (groups : List (Text × ℕ))
    → value_at key (tally value groups) ≡ (if value == key then 1 else 0) + value_at key groups
value_at-tally key value [] = ground arith
value_at-tally key value ((v, n) ∷ groups) =
    ground (arith, eq_iff v value, eq_iff v key, eq_iff value key, value_at-tally key value groups)

sum_counts-tally :
    (value : Text) (groups : List (Text × ℕ))
    → sum_counts (tally value groups) ≡ 1 + sum_counts groups
sum_counts-tally value [] = refl
sum_counts-tally value ((v, n) ∷ groups) = ground (arith, sum_counts-tally value groups)

pub value_at-group_counts :
    (key : Text) (values : List Text) → value_at key (group_counts values) ≡ count_of key values
unfolding group_counts
value_at-group_counts key [] = refl
value_at-group_counts key (v ∷ values) =
    value_at-tally key v (group_counts values)
    ∙ ap ((if v == key then 1 else 0) +◌) (value_at-group_counts key values)

pub sum_counts-group_counts :
    (values : List Text) → sum_counts (group_counts values) ≡ length values
unfolding group_counts
sum_counts-group_counts [] = refl
sum_counts-group_counts (v ∷ values) =
    omega (arith, sum_counts-tally v (group_counts values), sum_counts-group_counts values)

value_at-set_value :
    (key k : Text) (n : ℕ) (entries : List (Text × ℕ))
    → value_at key (set_value k n entries) ≡ (if k == key then n else value_at key entries)
value_at-set_value key k n [] = ground arith
value_at-set_value key k n ((j, m) ∷ entries) =
    ground (arith, eq_iff j k, eq_iff j key, eq_iff k key, value_at-set_value key k n entries)

apart_total : (s : Status) → (txt "total" == status_text s) ≡ false
unfolding txt ◌==◌ status_text
apart_total scheduled = refl
apart_total queued = refl
apart_total running = refl
apart_total completed = refl
apart_total failed = refl
apart_total cancelled = refl
apart_total retrying = refl
apart_total dead_letter = refl

-- The number of the jobs with a status, and of those with any of two.
abbrev pub count_status : Status → List Row → ℕ
count_status s rows = count_of (status_text s) (map (λ row. status_text row.status) rows)

abbrev one_if : Status → Status → ℕ
one_if s t = if status_text s == status_text t then 1 else 0

one_status :
    (s : Status)
    → one_if s queued
        + one_if s running
        + one_if s completed
        + one_if s failed
        + one_if s retrying
        + one_if s dead_letter
        + one_if s scheduled
        + one_if s cancelled
      ≡ 1
unfolding txt ◌==◌ status_text
one_status scheduled = refl
one_status queued = refl
one_status running = refl
one_status completed = refl
one_status failed = refl
one_status cancelled = refl
one_status retrying = refl
one_status dead_letter = refl

abbrev pub count_all : List Row → ℕ
count_all rows =
    count_status queued rows
    + count_status running rows
    + count_status completed rows
    + count_status failed rows
    + count_status retrying rows
    + count_status dead_letter rows
    + count_status scheduled rows
    + count_status cancelled rows

pub count_all-length : (rows : List Row) → count_all rows ≡ length rows
count_all-length [] = refl
count_all-length (row ∷ rows) = omega (arith, one_status row.status, count_all-length rows)

pub length-map {ℓ ℓ'} :
    {A : Type ℓ} {B : Type ℓ'} (f : A → B) (xs : List A) → length (map f xs) ≡ length xs
length-map f [] = refl
length-map f (x ∷ xs) = omega (arith, length-map f xs)

abbrev pub statuses_of : List Row → List Text
statuses_of rows = map (λ row. status_text row.status) rows

pub by_status_lem :
    (s : Status) (rows : List Row)
    → value_at (status_text s) (with_total (group_counts (statuses_of rows))) ≡ count_status s rows
by_status_lem s rows =
    value_at-set_value (status_text s) (txt "total") _ (group_counts (statuses_of rows))
    ∙ rw (apart_total s) (value_at-group_counts (status_text s) (statuses_of rows))

pub total_lem :
    (rows : List Row)
    → value_at (txt "total") (with_total (group_counts (statuses_of rows))) ≡ length rows
total_lem rows =
    value_at-set_value (txt "total") (txt "total") _ (group_counts (statuses_of rows))
    ∙ rw (eq_refl (txt "total")) (
        sum_counts-group_counts (statuses_of rows)
        ∙ length-map (λ row. status_text row.status) rows)
