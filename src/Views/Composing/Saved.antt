-- ===== src/Views/Composing/Saved.antt =====
-- The list of the saved drafts (web/src/components/JobDraftsPanel.jsx).
use job_flow_web_application.Prelude.{List, [], ◌∷◌, ◌++◌, Option, none, some, length}
use job_flow_web_application.Prelude.Text.{Text, txt}
use job_flow_web_application.Json.{Json}
use job_flow_web_application.Drafts.{Draft}
use job_flow_web_application.Templates.{Template, template_of}
use job_flow_web_application.Format.{titleize}
use job_flow_web_application.Markup.{
  section, div, span, strong, small, button, click, key, named, disabled, on, Markup, el, each,
  text, class, words, glyph, child,
}
use job_flow_web_application.Views.{Locale}
use job_flow_web_application.Views.Fleet.{is_none_of}

-- `drafts.length ? … : "No saved drafts yet"`
unfoldable pub drafts_line : Locale → List Draft → Text
drafts_line locale [] = txt "No saved drafts yet"
drafts_line locale (draft ∷ drafts) =
    locale.number_text (length (draft ∷ drafts)) ++ txt " ready to load"

-- `jobTemplates[type]?.label || titleize(type)`, where the labels of the templates are not empty.
abbrev draft_label : Text → Option Template → Text
draft_label type none = titleize type
draft_label type (some template) = template.label

module _ (locale : Locale) {A : Type 0} (type_text : Json → Text) where
  -- `type_text` is the text of a type as a property key.
  unfoldable pub draft_row : (Draft → A) → (Text → A) → Draft → Markup A
  draft_row on_load on_delete draft = el div (class "draft-row" ∷ key draft.draft_id ∷ []) (
      el button (named (txt "type") (txt "button") ∷ on click (on_load draft) ∷ []) (
        glyph "FolderOpen" 15 []
        ∷ el span [] (
            el strong []
              (text (draft_label (type_text draft.type) (template_of (type_text draft.type))) ∷ [])
            ∷ el small [] (
                child locale.int_text draft.queue
                ∷ words " queue | priority "
                ∷ child locale.int_text draft.priority
                ∷ [])
            ∷ [])
        ∷ [])
      ∷ el button
          (class "icon-button small"
            ∷ named (txt "type") (txt "button")
            ∷ on click (on_delete draft.draft_id)
            ∷ named (txt "aria-label") (txt "Delete draft")
            ∷ [])
          (glyph "Trash2" 15 [] ∷ [])
      ∷ [])

  unfoldable pub drafts_panel : List Draft → (Draft → A) → (Text → A) → A → Markup A
  unfolding draft_row drafts_line
  drafts_panel drafts on_load on_delete on_clear = el section (class "draft-panel" ∷ []) (
      el div (class "draft-panel-head" ∷ []) (
        el div [] (
          el strong [] (words "Saved Drafts" ∷ [])
          ∷ el span [] (text (drafts_line locale drafts) ∷ [])
          ∷ [])
        ∷ el button
            (class "secondary small-text"
              ∷ named (txt "type") (txt "button")
              ∷ disabled (is_none_of drafts)
              ∷ on click on_clear
              ∷ [])
            (words "Clear" ∷ [])
        ∷ [])
      ∷ el div (class "draft-list" ∷ []) (each (draft_row on_load on_delete) drafts ∷ [])
      ∷ [])
