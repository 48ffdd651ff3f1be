-- ===== src/Composer/Imports.antt =====
-- A job that was exported, through the import of a file (web/src/components/JobComposer.jsx).
use job_flow_web_application.Prelude.{[], true, none, some, ◌≡◌, ◌≢◌, ◌⊎◌, inl, inr, refl, ap, ◌∙◌}
use job_flow_web_application.Prelude.Int.{ℤ, pos}
use job_flow_web_application.Prelude.Text.{Text, txt, or_else_of_nonempty}
use job_flow_web_application.Json.{
  Json, num, str, arr, obj, Items, cons, Fields, truthy, get, member,
}
use job_flow_web_application.Model.{Platform}
use job_flow_web_application.Client.{fulfilled}
use job_flow_web_application.Templates.{Template, template_of}
use job_flow_web_application.Composer.{Composer, JsonText, submit}
use job_flow_web_application.Composer.Files.{
  Import, going, thrown, is_truthy, nested, import_type, set_queue, set_priority, set_scheduled_at,
  import_settings, import_job, import_data, import_job_file,
}
use job_flow_web_application.Composer.Laws.{submit-fulfilled}

-- The fields of an exported job that the import reads: a known type, a queue, numbers, no schedule.
pub record IsExported (fields : Fields) (type queue : Text) (priority attempts : ℤ) (payload : Json)
    : Type 0 where
  pub type_is : get (txt "type") fields ≡ some (str type)
  pub queue_is : get (txt "queue") fields ≡ some (str queue)
  pub priority_is : get (txt "priority") fields ≡ some (num priority)
  pub attempts_is : get (txt "max_attempts") fields ≡ some (num attempts)
  pub payload_is : get (txt "payload") fields ≡ some payload
  pub no_schedule : get (txt "scheduled_at") fields ≡ none
  pub no_count : get (txt "batchCount") fields ≡ none
  pub some_type : truthy (str type) ≡ true
  pub some_queue : truthy (str queue) ≡ true
  pub some_attempts : truthy (num attempts) ≡ true
  pub some_payload : truthy payload ≡ true

-- What a file parses to that holds the job with these fields: an array with the job first, as every
-- export is, or the bare job.
abbrev pub IsFile : Fields → Json → Type 0
IsFile fields contents =
    ((others : Items) × (contents ≡ arr (cons (obj fields) others))) ⊎ (contents ≡ obj fields)

module _ (platform : Platform) (json : JsonText) where
  -- The composer after the import of such a job.
  abbrev imported : Text → Text → ℤ → ℤ → Json → Composer → Composer
  imported type queue priority attempts payload c = record c {
    type = str type;
    queue = str queue;
    priority = num priority;
    max_attempts = num attempts;
    force_fail = is_truthy (nested (txt "force_fail") (some payload));
    scheduled_at = str (txt "");
    batch_count = num (pos 1);
    payload_text = json.stringify payload;
    json_error = txt "";
  }

  -- The end of an import.
  abbrev finish : Import → Composer
  finish (going done) = record done { json_error = txt "" }
  finish (thrown partial) = record partial { json_error = platform.type_error }

  module _ (fields : Fields) (type queue : Text) (priority attempts : ℤ) (payload : Json)
      (h : IsExported fields type queue priority attempts payload) (template : Template)
      (known : template_of type ≡ some template) where
    import_type-exported :
        (old : Json) → import_type json platform (get (txt "type") fields) old ≡ str type
    unfolding import_type
    import_type-exported old = rw h.type_is (rw (h.some_type, known) refl)

    import_settings-exported :
        (c : Composer)
        → import_settings json platform (obj fields) c
          ≡ going (record (imported type queue priority attempts payload c) {
            json_error = c.json_error;
          })
    unfolding import_settings set_queue set_priority set_scheduled_at member
    import_settings-exported c =
        rw (import_type-exported c.type, known, h.queue_is, h.some_queue)
          (rw (h.priority_is, h.no_schedule, h.attempts_is, h.no_count, h.payload_is)
            (rw (h.some_attempts, h.some_payload) refl))

    import_data-exported :
        (contents : Json) (c : Composer)
        → IsFile fields contents
        → import_data json platform contents c ≡ imported type queue priority attempts payload c
    unfolding import_data import_job
    import_data-exported contents c (inl (others, e)) =
        rw e (ap finish (import_settings-exported c))
    import_data-exported contents c (inr e) = rw e (ap finish (import_settings-exported c))

    -- Import a file whose text parses to an array with an exported job first, as the exports of the app
    -- are, or to the bare job, then submit. If the job has a known type, a queue, numbers for its
    -- priority and its attempts, a payload and no schedule, and the text of the payload is not empty and
    -- parses to it, then the form handed over has its type, queue, priority, attempts and payload,
    -- for one job, and forces a failure exactly if its payload did.
    pub submit-import_job_file :
        (text : Text) (contents : Json) (c : Composer)
        → json.parse text ≡ fulfilled contents
        → IsFile fields contents
        → json.parse (json.stringify payload) ≡ fulfilled payload
        → json.stringify payload ≢ []
        → (submit json (import_job_file json platform (fulfilled text) c)).1
          ≡ some (record {
            type = str type;
            queue = str queue;
            priority = num priority;
            max_attempts = num attempts;
            force_fail = is_truthy (nested (txt "force_fail") (some payload));
            scheduled_at = str (txt "");
            batch_count = num (pos 1);
            payload = payload;
          })
    unfolding import_job_file
    submit-import_job_file text contents c reads file parses nonempty =
        rw (reads, import_job_file, import_data-exported contents c file)
          (submit-fulfilled json (imported type queue priority attempts payload c) payload
            (ap json.parse (or_else_of_nonempty _ (txt "{}") nonempty) ∙ parses))
