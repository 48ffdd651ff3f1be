-- ===== src/JobFlow/Selection.antt =====
-- Which job stays selected when the jobs are read again (`refresh` of web/src/hooks/useJobFlow.js).
use mathlib.Core.List.{Mem, mem-cons_self, mem-cons_of_mem}
use job_flow_web_application.Prelude.{
  List, [], ◌∷◌, Bool, true, Option, none, some, ◌≡◌, ◌↔◌, refl, arith, inl, inr, ◌⊎◌, head?, find,
  Bool-cases, Option-cases,
}
use job_flow_web_application.Prelude.Text.{Text, ◌==◌, eq_iff, eq_refl}
use job_flow_web_application.Model.{Job}
use job_flow_web_application.JobFlow.{reselect}

-- Nothing is selected, or a job of the list.
abbrev pub IsAmong : Option Job → List Job → Type 0
IsAmong none jobs = Unit
IsAmong (some job) jobs = Mem job jobs

head?-IsAmong : (jobs : List Job) → IsAmong (head? jobs) jobs
head?-IsAmong [] = tt
head?-IsAmong (job ∷ jobs) = mem-cons_self

find-IsAmong : (test : Job → Bool) (jobs : List Job) → IsAmong (find test jobs) jobs
find-IsAmong test [] = tt
find-IsAmong test (job ∷ jobs) = elim (Bool-cases (test job)) [
  | inl found ↦ rw found mem-cons_self
  | inr later ↦ rw later (weaken (find test jobs) (find-IsAmong test jobs))
]
  where
    weaken : (o : Option Job) → IsAmong o jobs → IsAmong o (job ∷ jobs)
    weaken none m = tt
    weaken (some j) m = mem-cons_of_mem job m

pub reselect-IsAmong : (old : Option Job) (jobs : List Job) → IsAmong (reselect old jobs) jobs
unfolding reselect
reselect-IsAmong none jobs = head?-IsAmong jobs
reselect-IsAmong (some current) jobs =
    elim (Option-cases (find (λ job. job.id == current.id) jobs)) [
      | inl missing ↦ rw (missing, reselect) (head?-IsAmong jobs)
      | inr (job, found) ↦
          rw (found, reselect) (rw found at (find-IsAmong (λ job. job.id == current.id) jobs))
    ]

find-true :
    (test : Job → Bool) (jobs : List Job) (job : Job) → find test jobs ≡ some job → test job ≡ true
find-true test [] job e = cc
find-true test (j ∷ jobs) job e = ground (arith, find-true test jobs job)

-- Some job of the list has the identifier.
abbrev pub HasId : Text → List Job → Type 0
HasId id [] = ⊥
HasId id (job ∷ jobs) = (job.id ≡ id) ⊎ HasId id jobs

find_of_HasId :
    (id : Text) (jobs : List Job)
    → HasId id jobs
    → (job : Job) × (find (λ j. j.id == id) jobs ≡ some job)
find_of_HasId id [] h = elim h [ ]
find_of_HasId id (j ∷ jobs) (inl e) = (j, rw (e, eq_refl id))
find_of_HasId id (j ∷ jobs) (inr h) = elim (Bool-cases (j.id == id)) [
  | inl same ↦ (j, rw same)
  | inr other ↦ let (job, found) = find_of_HasId id jobs h in (job, rw other found)
]

reselect-eq-none : (old : Option Job) (jobs : List Job) → reselect old jobs ≡ none → jobs ≡ []
unfolding reselect
reselect-eq-none old [] e = refl
reselect-eq-none none (job ∷ jobs) e = cc
reselect-eq-none (some current) (job ∷ jobs) e = ground arith

reselect-nil : (old : Option Job) → reselect old [] ≡ none
unfolding reselect
reselect-nil none = refl
reselect-nil (some current) = refl

-- After a reading of the jobs, the selection is one of them, and is empty exactly if there are none.
pub reselect_lem :
    (old : Option Job) (jobs : List Job)
    → IsAmong (reselect old jobs) jobs × ((reselect old jobs ≡ none) ↔ (jobs ≡ []))
reselect_lem old jobs =
    (reselect-IsAmong old jobs, (reselect-eq-none old jobs, λ e. rw e (reselect-nil old)))

-- If a job was selected whose identifier some new job has, the new selection has that identifier.
pub reselect-same :
    (current : Job) (jobs : List Job)
    → HasId current.id jobs
    → (job : Job) × (reselect (some current) jobs ≡ some job) × (job.id ≡ current.id)
unfolding reselect
reselect-same current jobs h =
    let (job, found) = find_of_HasId current.id jobs h in
    (job, rw (found, reselect), (eq_iff _ _).0 (find-true _ jobs job found))
