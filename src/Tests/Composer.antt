-- ===== src/Tests/Composer.antt =====
-- The composer and its drafts at concrete inputs.
use mathlib.Core.Option
use job_flow_web_application.Prelude.{
  ℕ, ◌≤◌, List, [], ◌∷◌, false, some, ◌≡◌, ◌≢◌, inl, inr, refl, arith, length, foldl, if◌then◌else◌,
}
use job_flow_web_application.Prelude.Int.{pos}
use job_flow_web_application.Prelude.Text.{txt, ◌==◌}
use job_flow_web_application.Json.{Json, null, bool, num, str, arr, obj, end, field}
use job_flow_web_application.Model.{Job}
use job_flow_web_application.Client.{Settled, fulfilled}
use job_flow_web_application.Templates.{Template, template_of, lookup, job_templates}
use job_flow_web_application.Drafts.{
  DraftForm, Draft, Drafts, Codec, open_drafts, save_draft, delete_draft,
}
use job_flow_web_application.Drafts.Laws.{Action, save, delete, act, open_drafts-run}
use job_flow_web_application.JobFlow.Create.{NewJob, create_all}
use job_flow_web_application.Composer.{Composer, JsonText, current_draft, load_draft, submit}
use job_flow_web_application.Composer.Files.{import_job_file, is_truthy, nested}
use job_flow_web_application.Prelude.{true}
use job_flow_web_application.Composer.Imports.{IsExported, submit-import_job_file}
use job_flow_web_application.Json.{Fields, Items, nil, cons, bool, field, end, get, truthy}
use job_flow_web_application.Composer.Laws.{create_all-load_draft, IsFalsyZero}
use job_flow_web_application.Tests.Samples.{platform, first_job}

abbrev draft_form : DraftForm
draft_form = record {
  type = str (txt "send_email");
  queue = str (txt "default");
  priority = num (pos 5);
  max_attempts = num (pos 3);
  force_fail = false;
  scheduled_at = null;
  batch_count = num (pos 0);
  payload_text = txt "{}";
}

-- A codec for the drafts at hand.
abbrev saved : List Draft
saved = record { form = draft_form; draft_id = txt "d"; saved_at = txt "now" } ∷ []

abbrev codec : Codec
codec = record {
  stringify = λ drafts. elim drafts [ [] ↦ txt "[]" | d ∷ ds ↦ txt "[d]" ];
  parse = λ s. if s == txt "[]" then some [] else some saved;
}

abbrev no_drafts : Drafts
no_drafts = record { drafts = []; stored = some (txt "[]") }

abbrev actions : List Action
actions =
    save (txt "ee") (txt "before") draft_form
    ∷ delete (txt "ee")
    ∷ save (txt "d") (txt "now") draft_form
    ∷ []

no_drafts_written : no_drafts.stored ≡ some (codec.stringify no_drafts.drafts)
no_drafts_written = refl

run_parses :
    codec.parse (codec.stringify (foldl (act codec) no_drafts actions).drafts)
    ≡ some (foldl (act codec) no_drafts actions).drafts
unfolding act save_draft delete_draft txt ◌==◌
run_parses = refl

run_nonempty : codec.stringify (foldl (act codec) no_drafts actions).drafts ≢ []
unfolding act save_draft delete_draft txt ◌==◌
run_nonempty = λ e. cc

open_drafts-run_example :
    ((open_drafts codec (foldl (act codec) no_drafts actions).stored).drafts
      ≡ (foldl (act codec) no_drafts actions).drafts)
    × (length (foldl (act codec) no_drafts actions).drafts ≤ 8)
open_drafts-run_example =
    open_drafts-run codec actions no_drafts
      (record { written = no_drafts_written; few = omega arith }) run_parses run_nonempty

-- The payloads are the empty object and the template's.
abbrev composed : Composer
composed = record {
  type = str (txt "send_email");
  queue = str (txt "default");
  priority = num (pos 5);
  max_attempts = num (pos 3);
  force_fail = false;
  scheduled_at = null;
  batch_count = num (pos 0);
  payload_text = txt "";
  json_error = txt "";
}

abbrev email : Template
email = record {
  label = txt "Send Email";
  queue = txt "emails";
  priority = 5;
  payload = obj (
      field (txt "to") (str (txt "user@example.com")) (
        field (txt "subject") (str (txt "Welcome"))
          (field (txt "body") (str (txt "Hello from JobFlow")) end)));
}

abbrev json_text : Json → JsonText
json_text payload = record {
  stringify = λ v. txt "p";
  parse = λ s. if s == txt "{}" then fulfilled (obj end) else fulfilled payload;
}

abbrev accepts : ℕ → NewJob → Settled Job
accepts index body = fulfilled first_job

falsy_zero : IsFalsyZero platform
falsy_zero (str []) falsy = inr refl
falsy_zero (str (c ∷ s)) falsy = inl refl
falsy_zero null falsy = inl refl
falsy_zero (bool b) falsy = inl refl
falsy_zero (num n) falsy = inl refl
falsy_zero (arr items) falsy = inl refl
falsy_zero (obj fields) falsy = inl refl

create_all-load_draft_example :
    Option.map
      (create_all platform accepts)
      (submit
        (json_text null)
        (load_draft (json_text null) (current_draft (json_text null) composed) composed)).1
    ≡ Option.map (create_all platform accepts) (submit (json_text null) composed).1
create_all-load_draft_example =
    create_all-load_draft (json_text null) platform accepts composed composed falsy_zero

email_known : template_of (txt "send_email") ≡ some email
unfolding template_of lookup job_templates txt ◌==◌
email_known = refl

-- An exported job, and a file with it.
abbrev exported_payload : Json
exported_payload = obj (field (txt "force_fail") (bool true) end)

abbrev exported : Fields
exported = field (txt "queue") (str (txt "emails")) (
    field (txt "type") (str (txt "send_email")) (
      field (txt "payload") exported_payload
        (field (txt "priority") (num (pos 7)) (field (txt "max_attempts") (num (pos 2)) end))))

exported-IsExported :
    IsExported exported (txt "send_email") (txt "emails") (pos 7) (pos 2) exported_payload
unfolding get truthy txt ◌==◌
exported-IsExported = record {
  type_is = refl;
  queue_is = refl;
  priority_is = refl;
  attempts_is = refl;
  payload_is = refl;
  no_schedule = refl;
  no_count = refl;
  some_type = refl;
  some_queue = refl;
  some_attempts = refl;
  some_payload = refl;
}

-- The export of two jobs.
abbrev others : Items
others = cons (obj end) nil

abbrev contents : Json
contents = arr (cons (obj exported) others)

abbrev file_text : JsonText
file_text = record {
  stringify = λ v. txt "p";
  parse = λ s. if s == txt "p" then fulfilled exported_payload else fulfilled contents;
}

file_reads : file_text.parse (txt "file") ≡ fulfilled contents
unfolding txt ◌==◌
file_reads = refl

payload_reads : file_text.parse (file_text.stringify exported_payload) ≡ fulfilled exported_payload
unfolding txt ◌==◌
payload_reads = refl

payload_nonempty : file_text.stringify exported_payload ≢ []
unfolding txt
payload_nonempty = λ e. cc

submit-import_job_file_example :
    (submit file_text (import_job_file file_text platform (fulfilled (txt "file")) composed)).1
    ≡ some (record {
      type = str (txt "send_email");
      queue = str (txt "emails");
      priority = num (pos 7);
      max_attempts = num (pos 2);
      force_fail = is_truthy (nested (txt "force_fail") (some exported_payload));
      scheduled_at = str (txt "");
      batch_count = num (pos 1);
      payload = exported_payload;
    })
submit-import_job_file_example =
    submit-import_job_file platform file_text exported (txt "send_email") (txt "emails") (pos 7)
      (pos 2) exported_payload exported-IsExported email email_known (txt "file") contents composed
      file_reads (inl (others, refl)) payload_reads payload_nonempty
