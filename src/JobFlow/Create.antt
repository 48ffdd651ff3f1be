-- ===== src/JobFlow/Create.antt =====
-- `createJobs`: one request for each job of a batch, in order (web/src/hooks/useJobFlow.js).
pub mod Progress
use job_flow_web_application.Prelude.{
  ℕ, zero, suc, ◌+◌, max, List, [], ◌∷◌, ◌++◌, Bool, true, false, Option, none, some, eqb, length,
  head?, if◌then◌else◌,
}
use job_flow_web_application.Prelude.Int.{ℤ, pos, negsuc}
use job_flow_web_application.Prelude.Text.{Text, txt, is_empty}
use job_flow_web_application.Json.{
  Json, null, bool, num, str, arr, obj, Items, nil, cons, Fields, end, field, put, truthy,
}
use job_flow_web_application.Model.{Job, Platform}
use job_flow_web_application.Client.{Settled, fulfilled, rejected}
use job_flow_web_application.Format.{job_display_name}

-- What the composer hands over. A field holds the value that the program, an input or an imported
-- file has put there.
pub record Form : Type 0 where
  pub type : Json
  pub queue : Json
  pub priority : Json
  pub max_attempts : Json
  pub force_fail : Bool
  pub scheduled_at : Json
  pub batch_count : Json
  pub payload : Json

-- The body of `POST /api/jobs`, before it is written as JSON; a `none` among the numbers is NaN.
pub record NewJob : Type 0 where
  pub queue : Json
  pub type : Json
  pub priority : Option ℤ
  pub max_attempts : Option ℤ
  pub payload : Json
  pub scheduled_at : Option Text

-- What `createJobs` has done when it ends or throws: the requests that it sent, the jobs that the
-- server answered with, and the message of the error that stopped it.
pub record Batch : Type 0 where
  pub sent : List NewJob
  pub created : List Job
  pub failure : Option Text

-- `Number(n) || 1`, then at least 1
unfoldable pub at_least_one : Option ℤ → ℕ
at_least_one none = 1
at_least_one (some (pos n)) = max 1 n
at_least_one (some (negsuc n)) = 1

module _ (platform : Platform) where
  -- `Number(v)`
  unfoldable pub to_number : Json → Option ℤ
  to_number (num n) = some n
  to_number v = platform.parse_number v

  -- The own properties that a spread copies: those of an object, and the places of an array or text.
  unfoldable pub spread_items : ℕ → Items → Fields
  spread_items i nil = end
  spread_items i (cons v items) = field (platform.number_text i) v (spread_items (suc i) items)

  unfoldable pub spread_text : ℕ → Text → Fields
  spread_text i [] = end
  spread_text i (c ∷ s) = field (platform.number_text i) (str (c ∷ [])) (spread_text (suc i) s)

  unfoldable pub spread : Json → Fields
  unfolding spread_items spread_text
  spread (obj fields) = fields
  spread (arr items) = spread_items 0 items
  spread (str s) = spread_text 0 s
  spread v = end

  unfoldable pub payload_base : Form → Json
  unfolding spread
  payload_base form =
      if form.force_fail
      then obj (put (txt "force_fail") (bool true) (spread form.payload))
      else form.payload

  unfoldable pub count : Form → ℕ
  unfolding to_number at_least_one
  count form = at_least_one (to_number form.batch_count)

  -- The payload of the job at a place in the batch.
  unfoldable pub payload_at : Form → ℕ → Json
  unfolding payload_base count spread
  payload_at form index =
      if eqb (count form) 1
      then payload_base form
      else obj (put (txt "batch_index") (num (pos (index + 1))) (spread (payload_base form)))

  -- `if (form.scheduledAt) body.scheduled_at = …`; `none` where `toISOString` throws.
  unfoldable pub schedule : Json → NewJob → Option NewJob
  schedule scheduled_at body =
      if truthy scheduled_at
      then elim (platform.to_iso scheduled_at) [
        | none ↦ none
        | some time ↦ some (record body { scheduled_at = some time })
      ]
      else some body

  unfoldable pub body_at : Form → ℕ → Option NewJob
  unfolding schedule payload_at to_number
  body_at form index = schedule form.scheduled_at (record {
    queue = form.queue;
    type = form.type;
    priority = to_number form.priority;
    max_attempts = to_number form.max_attempts;
    payload = payload_at form index;
    scheduled_at = none;
  })

  -- `${v}`
  abbrev pub display_text : Json → Text
  display_text (str s) = s
  display_text v = platform.to_text v

  -- The server's answers: what it does with the request at a place in the batch.
  module _ (server : ℕ → NewJob → Settled Job) where
    -- The loop, with the rounds that are left and the index.
    unfoldable pub create_from : Form → ℕ → ℕ → Batch → Batch
    create_from form zero index batch = batch
    create_from form (suc rounds) index batch = elim (body_at form index) [
      | none ↦ record batch { failure = some platform.range_error }
      | some body ↦ elim (server index body) [
        | fulfilled job ↦
            create_from form rounds (suc index)
              (record batch { sent = batch.sent ++ body ∷ []; created = batch.created ++ job ∷ [] })
        | rejected message ↦ record batch { sent = batch.sent ++ body ∷ []; failure = some message }
      ]
    ]

    unfoldable pub create_all : Form → Batch
    create_all form =
        create_from form (count form) 0 (record { sent = []; created = []; failure = none })

    -- The notice at the end, or the error that is thrown.
    unfoldable pub create_jobs : Form → Settled Text
    create_jobs form =
        let batch = create_all form in
        elim batch.failure [
          | some message ↦ rejected message
          | none ↦ fulfilled (
              if eqb (count form) 1
              then txt "Queued " ++ display_text (job_display_name (head? batch.created))
              else txt "Queued " ++ (platform.number_text (length batch.created) ++ txt " jobs"))
        ]
