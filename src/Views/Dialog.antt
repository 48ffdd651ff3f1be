-- ===== src/Views/Dialog.antt =====
-- The confirmation dialog (web/src/components/ConfirmDialog.jsx).
use job_flow_web_application.Prelude.{List, [], ◌∷◌, ◌++◌, Bool, Option, none, some, if◌then◌else◌}
use job_flow_web_application.Prelude.Text.{Text, txt, ◌==◌}
use job_flow_web_application.Shell.{Confirm}
use job_flow_web_application.Markup.{
  section, div, h3, p, button, icon, click, mouse_down, size, class_name, named, disabled, on,
  stops, Markup, empty, text, el, class, words, glyph,
}

-- `icons[variant] || AlertTriangle`
unfoldable pub dialog_icon : Text → Text
dialog_icon variant =
    if variant == txt "warning"
    then txt "LogOut"
    else if variant == txt "info"
    then txt "RotateCcw"
    else txt "AlertTriangle"

-- `handleKeyDown`, which listens on the window while the dialog is open
unfoldable pub key_down : {A B : Type 0} → Option (Confirm B) → Text → A → List A
key_down none pressed on_cancel = []
key_down (some options) pressed on_cancel = if pressed == txt "Escape" then on_cancel ∷ [] else []

-- The dialog of the options that `App` hands over; no caller gives a label to cancel.
unfoldable pub confirm_dialog : {A B : Type 0} → Option (Confirm B) → Bool → A → A → Markup A
unfolding dialog_icon
confirm_dialog none busy on_cancel on_confirm = empty
confirm_dialog (some options) busy on_cancel on_confirm =
    el div
      (class "confirm-overlay"
        ∷ named (txt "role") (txt "presentation")
        ∷ on mouse_down on_cancel
        ∷ [])
      (el section
          (class_name (txt "confirm-dialog confirm-" ++ options.variant)
            ∷ named (txt "role") (txt "dialog")
            ∷ named (txt "aria-modal") (txt "true")
            ∷ named (txt "aria-labelledby") (txt "confirm-title")
            ∷ stops mouse_down
            ∷ [])
          (el button
              (class "icon-button small confirm-close"
                ∷ named (txt "type") (txt "button")
                ∷ on click on_cancel
                ∷ named (txt "aria-label") (txt "Close confirmation")
                ∷ [])
              (glyph "X" 16 [] ∷ [])
            ∷ el div (class "confirm-icon" ∷ [])
                (el (icon (dialog_icon options.variant)) (size 24 ∷ []) [] ∷ [])
            ∷ el div (class "confirm-copy" ∷ []) (
                el h3 (named (txt "id") (txt "confirm-title") ∷ []) (text options.title ∷ [])
                ∷ el p [] (text options.message ∷ [])
                ∷ [])
            ∷ el div (class "confirm-actions" ∷ []) (
                el button
                  (class "secondary"
                    ∷ named (txt "type") (txt "button")
                    ∷ on click on_cancel
                    ∷ disabled busy
                    ∷ [])
                  (words "Cancel" ∷ [])
                ∷ el button
                    (class_name (
                        txt "primary "
                        ++ (if options.variant == txt "danger"
                            then txt "danger-primary"
                            else txt ""))
                      ∷ named (txt "type") (txt "button")
                      ∷ on click on_confirm
                      ∷ disabled busy
                      ∷ [])
                    (text options.confirm_label ∷ [])
                ∷ [])
            ∷ [])
        ∷ [])
