-- ===== src/Views/Composing.antt =====
-- The form that composes jobs (web/src/components/JobComposer.jsx).
pub mod Saved
use job_flow_web_application.Prelude.{
  List, [], ◌∷◌, ◌++◌, map, Bool, true, false, not, Option, none, some, if◌then◌else◌,
}
use job_flow_web_application.Prelude.Text.{Text, txt, ◌==◌, is_empty}
use job_flow_web_application.Json.{Json, str}
use job_flow_web_application.Drafts.{Draft}
use job_flow_web_application.Templates.{Template, job_templates, queue_options}
use job_flow_web_application.Composer.{Composer}
use job_flow_web_application.Markup.{
  section, div, form, h3, span, label, input, select, option, textarea, button, click, submit, key,
  value, class_name, named, checked, on, on_toggle, on_change, Markup, el, each, when, text, class,
  words, glyph, child, children,
}
use job_flow_web_application.Views.{Locale}
use job_flow_web_application.Views.Composing.Saved.{drafts_panel}

-- What the handlers of the composer do.
pub data ComposerAction : Type 0 where
  choose set_queue set_priority set_max_attempts set_batch_count set_scheduled_at set_payload_text :
      Text → ComposerAction
  save_current import_click import_file toggle_force_fail enqueue clear_all : ComposerAction
  load : Draft → ComposerAction
  delete : Text → ComposerAction

-- What the plain fields set: a text, also where a number stood. The other actions have functions of
-- their own (`choose_template`, `load_draft`, `handle_save_draft`, `import_job_file`, `submit`).
unfoldable pub change_composer : ComposerAction → Composer → Composer
change_composer (set_queue v) c = record c { queue = str v }
change_composer (set_priority v) c = record c { priority = str v }
change_composer (set_max_attempts v) c = record c { max_attempts = str v }
change_composer (set_batch_count v) c = record c { batch_count = str v }
change_composer (set_scheduled_at v) c = record c { scheduled_at = str v }
change_composer (set_payload_text v) c = record c { payload_text = v }
change_composer toggle_force_fail c = record c { force_fail = not c.force_fail }
change_composer _ c = c

-- `types` with the labels of their templates
unfoldable pub type_choices : List (Text × Text)
type_choices = map (λ entry. (entry.0, entry.1.label)) job_templates

-- `item === type`, where the type may be any value that a file had
abbrev is_type : Text → Json → Bool
is_type item (str type) = item == type
is_type item v = false

module _ (locale : Locale) {A : Type 0} (type_text : Json → Text) (act : ComposerAction → A) where
  unfoldable pub template_button : Json → Text × Text → Markup A
  template_button type (item, name) =
      el button
        (key item
          ∷ class_name (if is_type item type then txt "selected" else txt "")
          ∷ on click (act (choose item))
          ∷ named (txt "type") (txt "button")
          ∷ [])
        (glyph "ClipboardList" 15 [] ∷ words " " ∷ text name ∷ [])

  unfoldable pub composer_actions : Markup A
  composer_actions = el div (class "composer-actions" ∷ []) (
      el button
        (class "secondary" ∷ named (txt "type") (txt "button") ∷ on click (act save_current) ∷ [])
        (glyph "Save" 15 [] ∷ words " Save draft" ∷ [])
      ∷ el button
          (class "secondary" ∷ named (txt "type") (txt "button") ∷ on click (act import_click) ∷ [])
          (glyph "FileUp" 15 [] ∷ words " Import JSON" ∷ [])
      ∷ el input
          (class "hidden-file"
            ∷ named (txt "type") (txt "file")
            ∷ named (txt "accept") (txt "application/json,.json")
            ∷ on_change (λ _. act import_file)
            ∷ [])
          []
      ∷ [])

  abbrev choice : Text × Text → Markup A
  choice (v, name) = el option (key v ∷ value v ∷ []) (text name ∷ [])

  -- A field for a number between `low` and `high`.
  abbrev number_field : Text → Text → Text → Json → (Text → ComposerAction) → Markup A
  number_field kind low high v set =
      el input
        (named (txt "type") kind
          ∷ named (txt "min") low
          ∷ named (txt "max") high
          ∷ value (type_text v)
          ∷ on_change (λ typed. act (set typed))
          ∷ [])
        []

  unfoldable pub form_grid : Composer → Markup A
  form_grid c = el div (class "form-grid" ∷ []) (
      el label [] (
        words "Type"
        ∷ el select (value (type_text c.type) ∷ on_change (λ chosen. act (choose chosen)) ∷ [])
            (each choice type_choices ∷ [])
        ∷ [])
      ∷ el label [] (
          words "Queue"
          ∷ el select
              (value (type_text c.queue) ∷ on_change (λ chosen. act (set_queue chosen)) ∷ [])
              (each choice queue_options ∷ [])
          ∷ [])
      ∷ el label [] (
          words "Priority "
          ∷ el span [] (child locale.int_text c.priority ∷ [])
          ∷ number_field (txt "range") (txt "0") (txt "10") c.priority set_priority
          ∷ [])
      ∷ el label [] (
          words "Max attempts"
          ∷ number_field (txt "number") (txt "1") (txt "10") c.max_attempts set_max_attempts
          ∷ [])
      ∷ el label [] (
          words "Batch count"
          ∷ number_field (txt "number") (txt "1") (txt "25") c.batch_count set_batch_count
          ∷ [])
      ∷ el label [] (
          words "Schedule"
          ∷ el input
              (named (txt "type") (txt "datetime-local")
                ∷ value (type_text c.scheduled_at)
                ∷ on_change (λ typed. act (set_scheduled_at typed))
                ∷ [])
              []
          ∷ [])
      ∷ el label (class "check" ∷ []) (
          el input
            (named (txt "type") (txt "checkbox")
              ∷ checked c.force_fail
              ∷ on_toggle (act toggle_force_fail)
              ∷ [])
            []
          ∷ words " Force retry path"
          ∷ [])
      ∷ [])

  unfoldable pub job_composer : Composer → List Draft → Markup A
  unfolding template_button composer_actions form_grid
  job_composer c drafts = el section (class "panel composer" ∷ []) (
      el div (class "panel-title" ∷ []) (
        el div (class "title-icon" ∷ []) (glyph "Plus" 18 [] ∷ [])
        ∷ el div [] (
            el h3 [] (words "Create Job" ∷ [])
            ∷ el span [] (words "Add a new job to the queue" ∷ [])
            ∷ [])
        ∷ [])
      ∷ el div (class "template-grid" ∷ []) (each (template_button c.type) type_choices ∷ [])
      ∷ composer_actions
      ∷ el form (on submit (act enqueue) ∷ []) (
          form_grid c
          ∷ el label (class "payload-editor" ∷ []) (
              words "Payload JSON"
              ∷ el textarea
                  (value c.payload_text ∷ on_change (λ typed. act (set_payload_text typed)) ∷ []) []
              ∷ [])
          ∷ when (not (is_empty c.json_error))
              (el div (class "inline-error" ∷ []) (text c.json_error ∷ []))
          ∷ el button (class "primary submit-right" ∷ [])
              (glyph "Send" 16 [] ∷ words " Enqueue Job" ∷ [])
          ∷ [])
      ∷ drafts_panel locale type_text drafts (λ draft. act (load draft)) (λ id. act (delete id))
          (act clear_all)
      ∷ [])
