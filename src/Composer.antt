-- ===== src/Composer.antt =====
-- The form that composes jobs (web/src/components/JobComposer.jsx).
pub mod Laws
pub mod Files
pub mod Imports
use job_flow_web_application.Prelude.{
  ℕ, List, [], ◌∷◌, Bool, true, false, Option, none, some, take, if◌then◌else◌,
}
use job_flow_web_application.Prelude.Int.{pos}
use job_flow_web_application.Prelude.Text.{Text, txt, or_else}
use job_flow_web_application.Json.{
  Json, null, bool, num, str, arr, obj, Items, nil, cons, truthy, member,
}
use job_flow_web_application.Model.{Platform}
use job_flow_web_application.Client.{Settled, fulfilled, rejected}
use job_flow_web_application.Templates.{Template, template_of}
use job_flow_web_application.Drafts.{DraftForm, Draft, Drafts, Codec, save_draft}
use job_flow_web_application.Format.{or_json}
use job_flow_web_application.JobFlow.Create.{Form}

pub record Composer : Type 0 where
  pub type : Json
  pub queue : Json
  pub priority : Json
  pub max_attempts : Json
  pub force_fail : Bool
  pub scheduled_at : Json
  pub batch_count : Json
  pub payload_text : Text
  pub json_error : Text

-- `JSON.stringify(v, null, 2)`, and `JSON.parse` with the message of the error that it throws.
pub record JsonText : Type 0 where
  pub stringify : Json → Text
  pub parse : Text → Settled Json

-- `a || b`
abbrev pub or_value : Json → Json → Json
or_value v d = if truthy v then v else d

module _ (json : JsonText) where
  unfoldable pub initial : Template → Composer
  initial send_email = record {
    type = str (txt "send_email");
    queue = str send_email.queue;
    priority = num (pos send_email.priority);
    max_attempts = num (pos 3);
    force_fail = false;
    scheduled_at = str (txt "");
    batch_count = num (pos 1);
    payload_text = json.stringify send_email.payload;
    json_error = txt "";
  }

  unfoldable pub current_draft : Composer → DraftForm
  current_draft c = record {
    type = c.type;
    queue = c.queue;
    priority = c.priority;
    max_attempts = c.max_attempts;
    force_fail = c.force_fail;
    scheduled_at = c.scheduled_at;
    batch_count = c.batch_count;
    payload_text = c.payload_text;
  }

  -- `none` where the type has no template, whose fields cannot be read.
  unfoldable pub choose_template : Text → Composer → Option Composer
  choose_template next_type c = elim (template_of next_type) [
    | none ↦ none
    | some template ↦ some (record c {
      type = str next_type;
      queue = str template.queue;
      priority = num (pos template.priority);
      payload_text = json.stringify template.payload;
      json_error = txt "";
    })
  ]

  unfoldable pub load_draft : DraftForm → Composer → Composer
  load_draft draft c = record c {
    type = draft.type;
    queue = draft.queue;
    priority = draft.priority;
    max_attempts = draft.max_attempts;
    force_fail = draft.force_fail;
    scheduled_at = or_value draft.scheduled_at (str (txt ""));
    batch_count = or_value draft.batch_count (num (pos 1));
    payload_text = or_else draft.payload_text (txt "{}");
    json_error = txt "";
  }

  -- The draft is saved only if the payload can be parsed.
  unfoldable pub handle_save_draft : Codec → Text → Text → Composer → Drafts → Composer × Drafts
  unfolding current_draft
  handle_save_draft codec uuid now c s = elim (json.parse (or_else c.payload_text (txt "{}"))) [
    | fulfilled _ ↦
        (record c { json_error = txt "" }, save_draft codec uuid now (current_draft c) s)
    | rejected message ↦ (record c { json_error = message }, s)
  ]

  -- The form that `submit` hands to `onCreate`.
  abbrev pub form_of : Composer → Json → Form
  form_of c payload = record {
    type = c.type;
    queue = c.queue;
    priority = c.priority;
    max_attempts = c.max_attempts;
    force_fail = c.force_fail;
    scheduled_at = c.scheduled_at;
    batch_count = c.batch_count;
    payload = payload;
  }

  -- The composer, and the form for `onCreate` if that is called.
  unfoldable pub submit : Composer → Composer × Option Form
  submit c = elim (json.parse (or_else c.payload_text (txt "{}"))) [
    | rejected message ↦ (record c { json_error = message }, none)
    | fulfilled payload ↦ (record c { json_error = txt "" }, some (form_of c payload))
  ]
