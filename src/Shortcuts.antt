-- ===== src/Shortcuts.antt =====
-- The keyboard shortcuts (web/src/hooks/useKeyboardShortcuts.js).
use job_flow_web_application.Prelude.{
  List, [], ◌∷◌, ◌++◌, Bool, true, false, ◌≡◌, refl, if◌then◌else◌,
}
use job_flow_web_application.Prelude.Text.{Text, txt, ◌==◌}
use job_flow_web_application.Model.{Platform}

pub data Shortcut : Type 0 where
  focus_search focus_composer refresh_page : Shortcut

-- What the handler does on a key, given whether the control or the meta key is down.
unfoldable pub handle_key_down : Platform → Bool → Text → List Shortcut
handle_key_down platform is_control key =
    let low = platform.lower key in
    if is_control
    then (if low == txt "k" then focus_search ∷ [] else [])
      ++ ((if low == txt "n" then focus_composer ∷ [] else [])
          ++ (if low == txt "r" then refresh_page ∷ [] else []))
    else []

-- The key of a shortcut.
abbrev pub key_of : Shortcut → Text
key_of focus_search = txt "k"
key_of focus_composer = txt "n"
key_of refresh_page = txt "r"

-- For a key that is the one of a shortcut, once lower-cased:
-- with the control or the meta key down, it does that shortcut and nothing else; without
-- them it does nothing.
pub handle_key_down_lem :
    (platform : Platform) (key : Text) (shortcut : Shortcut)
    → platform.lower key ≡ key_of shortcut
    → (handle_key_down platform true key ≡ shortcut ∷ [])
      × (handle_key_down platform false key ≡ [])
unfolding handle_key_down txt ◌==◌
handle_key_down_lem platform key focus_search e = (rw e refl, refl)
handle_key_down_lem platform key focus_composer e = (rw e refl, refl)
handle_key_down_lem platform key refresh_page e = (rw e refl, refl)
