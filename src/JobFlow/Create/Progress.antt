-- ===== src/JobFlow/Create/Progress.antt =====
-- What `createJobs` has sent when it ends, and its payloads (web/src/hooks/useJobFlow.js).
use mathlib.Core.List.{append_assoc, append-nil}
use native.Mathlib.Nat.{add-zero, add-suc, suc-add}
use job_flow_web_application.Prelude.{
  ℕ, zero, suc, ◌+◌, ◌<◌, List, [], ◌∷◌, ◌++◌, true, false, Option, none, some, ◌≡◌, ◌≢◌, refl, ap,
  arith, eqb, length, Bool-cases, Option-cases, inl, inr,
}
use job_flow_web_application.Prelude.Int.{pos}
use job_flow_web_application.Prelude.Text.{Text, txt, ◌==◌, eq_refl}
use job_flow_web_application.Json.{bool, num, member, get}
use job_flow_web_application.Json.Laws.{get-put}
use job_flow_web_application.Model.{Job, Platform}
use job_flow_web_application.Client.{Settled, Settled-cases, fulfilled, rejected}
use job_flow_web_application.JobFlow.Create.{
  Form, NewJob, Batch, spread, body_at, payload_base, payload_at, count, create_from, create_all,
}

module _ (platform : Platform) (server : ℕ → NewJob → Settled Job) (form : Form) where
  -- From a place in the batch on, each request was sent and the server answered it with the job.
  pub data Answered : ℕ → List NewJob → List Job → Type 0 where
    nothing : {i : ℕ} → Answered i [] []
    more :
        {i : ℕ} {body : NewJob} {job : Job} {sent : List NewJob} {created : List Job}
        → body_at platform form i ≡ some body
        → server i body ≡ fulfilled job
        → Answered (suc i) sent created
        → Answered i (body ∷ sent) (job ∷ created)

  -- How the rounds from a place on can end: all are answered; or the server refuses the request
  -- after the answered ones, or that request cannot be made, and then nothing more is sent.
  pub data Ends (index rounds : ℕ) (before after : Batch) : Type 0 where
    complete :
        (sent : List NewJob) (created : List Job)
        → Answered index sent created
        → length sent ≡ rounds
        → after ≡ record {
          sent = before.sent ++ sent;
          created = before.created ++ created;
          failure = before.failure;
        }
        → Ends index rounds before after
    refused :
        (sent : List NewJob) (created : List Job) (body : NewJob) (message : Text)
        → Answered index sent created
        → length sent < rounds
        → body_at platform form (index + length sent) ≡ some body
        → server (index + length sent) body ≡ rejected message
        → after ≡ record {
          sent = before.sent ++ (sent ++ body ∷ []);
          created = before.created ++ created;
          failure = some message;
        }
        → Ends index rounds before after
    impossible :
        (sent : List NewJob) (created : List Job)
        → Answered index sent created
        → length sent < rounds
        → body_at platform form (index + length sent) ≡ none
        → after ≡ record {
          sent = before.sent ++ sent;
          created = before.created ++ created;
          failure = some platform.range_error;
        }
        → Ends index rounds before after

  abbrev add_answer : Batch → NewJob → Job → Batch
  add_answer batch body job = record batch {
    sent = batch.sent ++ body ∷ [];
    created = batch.created ++ job ∷ [];
  }

  Ends-more :
      (index rounds : ℕ) (before after : Batch) (body : NewJob) (job : Job)
      → body_at platform form index ≡ some body
      → server index body ≡ fulfilled job
      → Ends (suc index) rounds (add_answer before body job) after
      → Ends index (suc rounds) before after
  Ends-more index rounds before after body job b s (complete sent created a n e) =
      complete (body ∷ sent) (job ∷ created) (more b s a) (ap suc n)
        (rw (append_assoc, append_assoc) at e)
  Ends-more index rounds before after body job b s (refused sent created body' m a n b' s' e) =
      refused (body ∷ sent) (job ∷ created) body' m (more b s a) (omega arith)
        (rw (add-suc, ← suc-add) b') (rw (add-suc, ← suc-add) s')
        (rw (append_assoc, append_assoc) at e)
  Ends-more index rounds before after body job b s (impossible sent created a n b' e) =
      impossible (body ∷ sent) (job ∷ created) (more b s a) (omega arith)
        (rw (add-suc, ← suc-add) b') (rw (append_assoc, append_assoc) at e)

  -- A batch to which nothing is added.
  same_lists :
      (batch : Batch) (failure : Option Text)
      → record batch { failure = failure }
        ≡ record { sent = batch.sent ++ []; created = batch.created ++ []; failure = failure }
  same_lists batch failure = rw (append-nil, append-nil)

  create_from-Ends :
      (rounds index : ℕ) (batch : Batch)
      → Ends index rounds batch (create_from platform server form rounds index batch)
  unfolding create_from
  create_from-Ends zero index batch = complete [] [] nothing refl (same_lists batch batch.failure)
  create_from-Ends (suc rounds) index batch = elim (Option-cases (body_at platform form index)) [
    | inl missing ↦
        rw (missing, create_from)
          (impossible [] [] nothing (omega arith) (rw add-zero missing)
            (same_lists batch (some platform.range_error)))
    | inr (body, made) ↦
        rw (made, create_from)
          (elim (Settled-cases (server index body)) [
            | inl (job, answered) ↦
                rw (answered, create_from)
                  (Ends-more index rounds batch _ body job made answered
                    (create_from-Ends rounds (suc index) (add_answer batch body job)))
            | inr (message, refusal) ↦
                rw (refusal, create_from)
                  (refused [] [] body message nothing (omega arith) (rw add-zero made)
                    (rw add-zero refusal) (rw append-nil))
          ])
  ]

  -- For a form and any answers of the server, `createJobs` ends in one of three ways. Either as many
  -- requests are sent as the batch counts, each answered with a job; or the server refuses one, or
  -- one cannot be made since the schedule is no date, after which no further request is sent. The
  -- jobs that it has created are the answers, in order.
  pub create_all-Ends :
      Ends 0
        (count platform form)
        (record { sent = []; created = []; failure = none })
        (create_all platform server form)
  unfolding create_all
  create_all-Ends = create_from-Ends (count platform form) 0 _

-- The payloads of a batch.
module _ (platform : Platform) (form : Form) where
  payload_base-force_fail :
      form.force_fail ≡ true
      → member (txt "force_fail") (payload_base platform form) ≡ some (bool true)
  unfolding payload_base member
  payload_base-force_fail h = rw h (rw (get-put, eq_refl (txt "force_fail")))

  get-payload_base :
      form.force_fail ≡ true
      → get (txt "force_fail") (spread platform (payload_base platform form)) ≡ some (bool true)
  unfolding payload_base spread
  get-payload_base h = rw h (rw (get-put, eq_refl (txt "force_fail")))

  index-ne-force_fail : (txt "batch_index" == txt "force_fail") ≡ false
  unfolding txt ◌==◌
  index-ne-force_fail = refl

  -- Every job of a batch of more than one carries its place, counted from 1, as `batch_index`.
  pub payload_at-batch_index :
      (index : ℕ)
      → count platform form ≢ 1
      → member (txt "batch_index") (payload_at platform form index) ≡ some (num (pos (index + 1)))
  unfolding payload_at member
  payload_at-batch_index index h = elim (Bool-cases (eqb (count platform form) 1)) [
    | inl one ↦ absurd (h (ground arith))
    | inr several ↦ rw several (rw (get-put, eq_refl (txt "batch_index")))
  ]

  -- If a failure is to be forced, every job of the batch carries `force_fail: true`.
  pub payload_at-force_fail :
      (index : ℕ)
      → form.force_fail ≡ true
      → member (txt "force_fail") (payload_at platform form index) ≡ some (bool true)
  unfolding payload_at member
  payload_at-force_fail index h = elim (Bool-cases (eqb (count platform form) 1)) [
    | inl one ↦ rw one (payload_base-force_fail h)
    | inr several ↦ rw several (rw (get-put, index-ne-force_fail) (get-payload_base h))
  ]
