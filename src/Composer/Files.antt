-- ===== src/Composer/Files.antt =====
-- The import of a file into the composer (`importJobFile` of web/src/components/JobComposer.jsx).
use job_flow_web_application.Prelude.{ℕ, Bool, false, Option, none, some, take, if◌then◌else◌}
use job_flow_web_application.Prelude.Int.{pos}
use job_flow_web_application.Prelude.Text.{Text, txt}
use job_flow_web_application.Json.{Json, null, num, str, arr, Items, nil, cons, truthy, member}
use job_flow_web_application.Model.{Platform}
use job_flow_web_application.Client.{Settled, fulfilled, rejected}
use job_flow_web_application.Templates.{Template, template_of}
use job_flow_web_application.Format.{or_json}
use job_flow_web_application.Composer.{Composer, JsonText}

-- An import that goes on, or that a TypeError has stopped, with the settings made so far.
pub data Import : Type 0 where
  going thrown : Composer → Import

infixl 5 ◌>>=◌
abbrev pub ◌>>=◌ : Import → (Composer → Import) → Import
going c >>= f = f c
thrown c >>= f = thrown c

-- `value.slice(0, 16)`, `none` where the value has no such method.
unfoldable pub take_items : ℕ → Items → Items
take_items n nil = nil
take_items ℕ.zero (cons v items) = nil
take_items (ℕ.suc n) (cons v items) = cons v (take_items n items)

unfoldable pub slice_16 : Json → Option Json
unfolding take_items
slice_16 (str s) = some (str (take 16 s))
slice_16 (arr items) = some (arr (take_items 16 items))
slice_16 v = none

-- `a ?? b`
abbrev pub or_nullish : Option Json → Json → Json
or_nullish none d = d
or_nullish (some null) d = d
or_nullish (some v) d = v

abbrev pub is_truthy : Option Json → Bool
is_truthy none = false
is_truthy (some v) = truthy v

-- `job.payload?.force_fail`
abbrev pub nested : Text → Option Json → Option Json
nested key none = none
nested key (some v) = member key v

module _ (json : JsonText) (platform : Platform) where
  -- A property key
  abbrev key_of : Json → Text
  key_of (str s) = s
  key_of v = platform.to_text v

  -- `job.type && jobTemplates[job.type] ? job.type : type`, with its template
  unfoldable pub import_type : Option Json → Json → Json
  import_type none type = type
  import_type (some v) type =
      if truthy v then elim (template_of (key_of v)) [ none ↦ type | some _ ↦ v ] else type

  abbrev template_for : Json → Option Template
  template_for type = template_of (key_of type)

  unfoldable pub set_queue : Json → Option Template → Composer → Import
  set_queue job template c =
      if is_truthy (member (txt "queue") job)
      then going (record c { queue = or_json (member (txt "queue") job) null })
      else elim template [ none ↦ thrown c | some t ↦ going (record c { queue = str t.queue }) ]

  unfoldable pub set_priority : Json → Option Template → Composer → Import
  set_priority job none c = elim (or_nullish (member (txt "priority") job) null) [
    | null ↦ thrown c
    | v ↦ going (record c { priority = v })
  ]
  set_priority job (some t) c =
      going
        (record c { priority = or_nullish (member (txt "priority") job) (num (pos t.priority)) })

  unfoldable pub set_scheduled_at : Json → Composer → Import
  set_scheduled_at job c =
      if is_truthy (member (txt "scheduled_at") job)
      then elim (slice_16 (or_json (member (txt "scheduled_at") job) null)) [
        | none ↦ thrown c
        | some v ↦ going (record c { scheduled_at = v })
      ]
      else going (record c { scheduled_at = str (txt "") })

  -- The settings in their order: one that throws keeps those before it.
  unfoldable pub import_settings : Json → Composer → Import
  unfolding import_type set_queue set_priority set_scheduled_at
  import_settings job c = do
    let type = import_type (member (txt "type") job) c.type
    let template = template_for type
    with_queue ← set_queue job template (record c { type = type })
    with_priority ← set_priority job template with_queue
    with_schedule ← set_scheduled_at job (record with_priority {
      max_attempts =
          or_json (member (txt "max_attempts") job)
            (or_json (member (txt "maxAttempts") job) c.max_attempts);
      batch_count = or_json (member (txt "batchCount") job) (num (pos 1));
    })
    going (record with_schedule {
      force_fail = is_truthy (nested (txt "force_fail") (member (txt "payload") job));
      payload_text = json.stringify (or_json (member (txt "payload") job) job);
    })

  -- Of null no property can be read.
  unfoldable pub import_job : Json → Composer → Composer
  unfolding import_settings
  import_job null c = record c { json_error = platform.type_error }
  import_job job c = elim (import_settings job c) [
    | going done ↦ record done { json_error = txt "" }
    | thrown partial ↦ record partial { json_error = platform.type_error }
  ]

  -- `Array.isArray(data) ? data[0] : data`
  unfoldable pub import_data : Json → Composer → Composer
  unfolding import_job
  import_data (arr nil) c = record c { json_error = platform.type_error }
  import_data (arr (cons job _)) c = import_job job c
  import_data job c = import_job job c

  -- `importJobFile`, given what reading the file gives.
  unfoldable pub import_job_file : Settled Text → Composer → Composer
  unfolding import_data
  import_job_file (rejected message) c = record c { json_error = message }
  import_job_file (fulfilled text) c = elim (json.parse text) [
    | rejected message ↦ record c { json_error = message }
    | fulfilled job ↦ import_data job c
  ]
