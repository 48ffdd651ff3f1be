-- ===== src/Table/Selection.antt =====
-- What ticking a job or the page does to the selection (web/src/components/JobTable.jsx).
use job_flow_web_application.Prelude.{
  List, [], ◌∷◌, ◌++◌, Bool, false, ◌&&◌, ◌||◌, not, ◌≡◌, refl, arith, filter, inl, inr, Bool-cases,
  if◌then◌else◌,
}
use job_flow_web_application.Prelude.Text.{Text, ◌==◌, eq_iff}
use job_flow_web_application.Table.{
  contains, all_page_selected, toggle_job, unique_from, toggle_page,
}

contains-append :
    (xs ys : List Text) (id : Text) → contains (xs ++ ys) id ≡ (contains xs id || contains ys id)
unfolding contains
contains-append [] ys id = refl
contains-append (x ∷ xs) ys id = ground (arith, contains-append xs ys id)

contains-filter :
    (test : Text → Bool) (xs : List Text) (id : Text)
    → contains (filter test xs) id ≡ (test id && contains xs id)
unfolding contains
contains-filter test [] id = ground arith
contains-filter test (x ∷ xs) id = ground (arith, eq_iff x id, contains-filter test xs id)

-- Ticking a job changes whether it is selected, and nothing else.
pub contains-toggle_job :
    (id other : Text) (selected : List Text)
    → contains (toggle_job id selected) other
      ≡ (if id == other then not (contains selected id) else contains selected other)
unfolding toggle_job contains
contains-toggle_job id other selected = ground (
  arith,
  eq_iff id other,
  eq_iff other id,
  contains-filter (λ item. not (item == id)) selected other,
  contains-append selected (id ∷ []) other,
)

contains-unique_from :
    (seen ids : List Text) (id : Text)
    → contains (unique_from seen ids) id ≡ (contains seen id || contains ids id)
unfolding contains unique_from
contains-unique_from seen [] id = ground arith
contains-unique_from seen (x ∷ ids) id = ground (
  arith,
  eq_iff x id,
  contains-unique_from seen ids id,
  contains-unique_from (seen ++ x ∷ []) ids id,
  contains-append seen (x ∷ []) id,
)

-- Ticking the page deselects all its jobs if they were all selected, and else selects them all; the
-- jobs of other pages stay as they were.
pub contains-toggle_page :
    (page selected : List Text) (id : Text)
    → contains (toggle_page page selected) id
      ≡ (if contains page id then not (all_page_selected page selected) else contains selected id)
unfolding toggle_page contains
contains-toggle_page page selected id = ground (
  arith,
  contains-filter (λ item. not (contains page item)) selected id,
  contains-unique_from [] (selected ++ page) id,
  contains-append selected page id,
)

-- No identifier stands twice.
abbrev pub IsDistinct : List Text → Type 0
IsDistinct [] = Unit
IsDistinct (x ∷ ids) = (contains ids x ≡ false) × IsDistinct ids

IsDistinct-filter :
    (test : Text → Bool) (ids : List Text) → IsDistinct ids → IsDistinct (filter test ids)
IsDistinct-filter test [] h = tt
IsDistinct-filter test (x ∷ ids) (h, hs) =
    ground (arith, IsDistinct-filter test ids hs, contains-filter test ids x)

pub IsDistinct-append :
    (ids : List Text) (id : Text)
    → contains ids id ≡ false
    → IsDistinct ids
    → IsDistinct (ids ++ id ∷ [])
unfolding contains
IsDistinct-append [] id e h = (refl, tt)
IsDistinct-append (x ∷ ids) id e (h, hs) = (
  ground (arith, contains-append ids (id ∷ []) x, eq_iff id x, eq_iff x id),
  IsDistinct-append ids id (ground arith) hs,
)

IsDistinct-unique_from :
    (seen ids : List Text) → IsDistinct seen → IsDistinct (unique_from seen ids)
unfolding unique_from
IsDistinct-unique_from seen [] h = h
IsDistinct-unique_from seen (x ∷ ids) h = elim (Bool-cases (contains seen x)) [
  | inl old ↦ rw old (IsDistinct-unique_from seen ids h)
  | inr new ↦ rw new (IsDistinct-unique_from (seen ++ x ∷ []) ids (IsDistinct-append seen x new h))
]

-- Whatever is ticked, no identifier comes to stand in the selection twice.
pub toggle-IsDistinct :
    (id : Text) (page selected : List Text)
    → IsDistinct selected
    → IsDistinct (toggle_job id selected) × IsDistinct (toggle_page page selected)
unfolding toggle_job toggle_page
toggle-IsDistinct id page selected h = (
  elim (Bool-cases (contains selected id)) [
    | inl old ↦ rw old (IsDistinct-filter (λ item. not (item == id)) selected h)
    | inr new ↦ rw new (IsDistinct-append selected id new h)
  ],
  elim (Bool-cases (all_page_selected page selected)) [
    | inl whole ↦ rw whole (IsDistinct-filter (λ item. not (contains page item)) selected h)
    | inr part ↦ rw part (IsDistinct-unique_from [] (selected ++ page) tt)
  ],
)
