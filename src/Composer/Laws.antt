-- ===== src/Composer/Laws.antt =====
-- Drafts and templates through the form (web/src/components/JobComposer.jsx).
use mathlib.Core.Option
use job_flow_web_application.Prelude.{
  ℕ, zero, suc, [], ◌∷◌, ◌++◌, true, false, Option, none, some, ◌≡◌, ◌≢◌, refl, ap, sym, ◌∙◌,
  Bool-cases, inl, inr, ◌⊎◌,
}
use job_flow_web_application.Prelude.Int.{ℤ, pos}
use job_flow_web_application.Prelude.Text.{Text, txt, or_else, or_else_idem, or_else_of_nonempty}
use job_flow_web_application.Json.{Json, num, str, truthy}
use job_flow_web_application.Model.{Job, Platform}
use job_flow_web_application.Client.{Settled, Settled-cases, fulfilled, rejected}
use job_flow_web_application.Templates.{Template, template_of}
use job_flow_web_application.JobFlow.Create.{
  Form, NewJob, Batch, to_number, at_least_one, count, payload_base, payload_at, schedule, body_at,
  create_from, create_all,
}
use job_flow_web_application.Composer.{
  Composer, JsonText, or_value, current_draft, choose_template, load_draft, submit, form_of,
}

empty-falsy : truthy (str (txt "")) ≡ false
unfolding truthy txt
empty-falsy = refl

-- A form with the defaults that loading a draft puts in.
abbrev with_defaults : Form → Form
with_defaults form = record form {
  scheduled_at = or_value form.scheduled_at (str (txt ""));
  batch_count = or_value form.batch_count (num (pos 1));
}

module _ (platform : Platform) where
  -- `Number` of the falsy values that are no numbers is 0, or NaN.
  abbrev pub IsFalsyZero : Type 0
  IsFalsyZero =
      (v : Json)
      → truthy v ≡ false
      → (platform.parse_number v ≡ none) ⊎ (platform.parse_number v ≡ some (pos 0))

  one_of_zero : (o : Option ℤ) → (o ≡ none) ⊎ (o ≡ some (pos 0)) → at_least_one o ≡ 1
  unfolding at_least_one
  one_of_zero o (inl e) = rw e
  one_of_zero o (inr e) = rw e

  at_least_one-falsy :
      IsFalsyZero → (v : Json) → truthy v ≡ false → at_least_one (to_number platform v) ≡ 1
  unfolding at_least_one to_number truthy
  at_least_one-falsy zeros (num (pos zero)) h = refl
  at_least_one-falsy zeros (num n) h = cc
  at_least_one-falsy zeros v h = one_of_zero (platform.parse_number v) (zeros v h)

  or_value-truthy : (v d : Json) → truthy v ≡ true → or_value v d ≡ v
  or_value-truthy v d h = rw h

  or_value-falsy : (v d : Json) → truthy v ≡ false → or_value v d ≡ d
  or_value-falsy v d h = rw h

  schedule-falsy :
      (v : Json) (body : NewJob) → truthy v ≡ false → schedule platform v body ≡ some body
  unfolding schedule
  schedule-falsy v body h = rw h

  schedule-defaults :
      (v : Json) (body : NewJob)
      → schedule platform (or_value v (str (txt ""))) body ≡ schedule platform v body
  schedule-defaults v body = elim (Bool-cases (truthy v)) [
    | inl set ↦ ap (λ w. schedule platform w body) (or_value-truthy v _ set)
    | inr blank ↦
        ap (λ w. schedule platform w body) (or_value-falsy v _ blank)
        ∙ (schedule-falsy (str (txt "")) body empty-falsy ∙ sym (schedule-falsy v body blank))
  ]

  module _ (zeros : IsFalsyZero) (form : Form) where
    count-defaults : count platform (with_defaults form) ≡ count platform form
    unfolding count
    count-defaults = elim (Bool-cases (truthy form.batch_count)) [
      | inl set ↦ rw set
      | inr blank ↦ rw blank (sym (at_least_one-falsy zeros form.batch_count blank))
    ]

    payload_base-defaults : payload_base platform (with_defaults form) ≡ payload_base platform form
    unfolding payload_base
    payload_base-defaults = refl

    payload_at-defaults :
        (index : ℕ)
        → payload_at platform (with_defaults form) index ≡ payload_at platform form index
    unfolding payload_at
    payload_at-defaults index = rw (count-defaults, payload_base-defaults)

    body_at-defaults :
        (index : ℕ) → body_at platform (with_defaults form) index ≡ body_at platform form index
    unfolding body_at
    body_at-defaults index = λ i.
        (ap
              (λ p. schedule platform (or_value form.scheduled_at (str (txt ""))) (record {
                queue = form.queue;
                type = form.type;
                priority = to_number platform form.priority;
                max_attempts = to_number platform form.max_attempts;
                payload = p;
                scheduled_at = none;
              }))
              (payload_at-defaults index)
            ∙ schedule-defaults form.scheduled_at _)
          i

    create_from-defaults :
        (server : ℕ → NewJob → Settled Job) (rounds index : ℕ) (batch : Batch)
        → create_from platform server (with_defaults form) rounds index batch
          ≡ create_from platform server form rounds index batch
    unfolding create_from
    create_from-defaults server zero index batch = refl
    create_from-defaults server (suc rounds) index batch = λ i. elim (body_at-defaults index i) [
      | none ↦ record batch { failure = some platform.range_error }
      | some body ↦ elim (server index body) [
        | fulfilled job ↦
            create_from-defaults server rounds (suc index)
              (record batch { sent = batch.sent ++ body ∷ []; created = batch.created ++ job ∷ [] })
              i
        | rejected message ↦ record batch { sent = batch.sent ++ body ∷ []; failure = some message }
      ]
    ]

    create_all-defaults :
        (server : ℕ → NewJob → Settled Job)
        → create_all platform server (with_defaults form) ≡ create_all platform server form
    unfolding create_all
    create_all-defaults server =
        rw count-defaults (create_from-defaults server (count platform form) 0 _)

  map_defaults :
      (server : ℕ → NewJob → Settled Job)
      → IsFalsyZero
      → (o : Option Form)
      → Option.map (create_all platform server) (Option.map with_defaults o)
        ≡ Option.map (create_all platform server) o
  map_defaults server zeros none = refl
  map_defaults server zeros (some form) = ap some (create_all-defaults zeros form server)

module _ (json : JsonText) where
  pub submit-fulfilled :
      (c : Composer) (payload : Json)
      → json.parse (or_else c.payload_text (txt "{}")) ≡ fulfilled payload
      → (submit json c).1 ≡ some (form_of json c payload)
  unfolding submit
  submit-fulfilled c payload e = rw (e, submit)

  submit-rejected :
      (c : Composer) (message : Text)
      → json.parse (or_else c.payload_text (txt "{}")) ≡ rejected message
      → (submit json c).1 ≡ none
  unfolding submit
  submit-rejected c message e = rw (e, submit)

  submit-load_draft :
      (c d : Composer)
      → (submit json (load_draft json (current_draft json c) d)).1
        ≡ Option.map with_defaults (submit json c).1
  unfolding load_draft current_draft
  submit-load_draft c d =
      let loaded = load_draft json (current_draft json c) d in
      let same = ap json.parse (or_else_idem c.payload_text (txt "{}")) in
      elim (Settled-cases (json.parse (or_else c.payload_text (txt "{}")))) [
        | inl (payload, e) ↦
            submit-fulfilled loaded payload (same ∙ e)
            ∙ sym (ap (Option.map with_defaults) (submit-fulfilled c payload e))
        | inr (message, e) ↦
            submit-rejected loaded message (same ∙ e)
            ∙ sym (ap (Option.map with_defaults) (submit-rejected c message e))
      ]

  -- Save the form as a draft, load the draft into any form and submit: the submission is refused
  -- exactly if the form's own is, and otherwise the server gets the same requests, whatever it
  -- answers. (Where `Number` of the falsy values that are no numbers is 0 or NaN.)
  pub create_all-load_draft :
      (platform : Platform) (server : ℕ → NewJob → Settled Job) (c d : Composer)
      → IsFalsyZero platform
      → Option.map
          (create_all platform server)
          (submit json (load_draft json (current_draft json c) d)).1
        ≡ Option.map (create_all platform server) (submit json c).1
  create_all-load_draft platform server c d zeros =
      rw (submit-load_draft c d) (map_defaults platform server zeros (submit json c).1)

  -- Choose any template, then submit: if the text of the template's payload is not empty and parses
  -- to it, the form handed over has the template's type, queue, priority and payload.
  pub submit-choose_template :
      (type : Text) (template : Template) (c : Composer)
      → template_of type ≡ some template
      → json.parse (json.stringify template.payload) ≡ fulfilled template.payload
      → json.stringify template.payload ≢ []
      → Option.map (λ chosen. (submit json chosen).1) (choose_template json type c)
        ≡ some (
            some (record {
              type = str type;
              queue = str template.queue;
              priority = num (pos template.priority);
              max_attempts = c.max_attempts;
              force_fail = c.force_fail;
              scheduled_at = c.scheduled_at;
              batch_count = c.batch_count;
              payload = template.payload;
            }))
  unfolding choose_template
  submit-choose_template type template c known parses nonempty =
      rw (known, choose_template)
        (ap some (
          submit-fulfilled _ template.payload
            (ap json.parse (or_else_of_nonempty _ (txt "{}") nonempty) ∙ parses)))
