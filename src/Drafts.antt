-- ===== src/Drafts.antt =====
-- The saved drafts of the composer (web/src/hooks/useJobDrafts.js).
pub mod Laws
use job_flow_web_application.Prelude.{
  ℕ, List, [], ◌∷◌, Bool, not, Option, none, some, take, filter, if◌then◌else◌,
}
use job_flow_web_application.Prelude.Text.{Text, txt, ◌==◌, or_else}
use job_flow_web_application.Json.{Json}

-- What the composer hands over to be saved.
pub record DraftForm : Type 0 where
  pub type : Json
  pub queue : Json
  pub priority : Json
  pub max_attempts : Json
  pub force_fail : Bool
  pub scheduled_at : Json
  pub batch_count : Json
  pub payload_text : Text

pub record Draft : Type 0 where
  pub form : DraftForm
  pub open form use *
  pub draft_id : Text
  pub saved_at : Text

-- The hook's state, and the text under its key in `localStorage`.
pub record Drafts : Type 0 where
  pub drafts : List Draft
  pub stored : Option Text

-- `JSON.stringify` and `JSON.parse` on lists of drafts; parsing gives `none` where it throws.
pub record Codec : Type 0 where
  pub stringify : List Draft → Text
  pub parse : Text → Option (List Draft)

module _ (codec : Codec) where
  -- `localStorage.getItem(draftKey) || "[]"`
  abbrev stored_text : Option Text → Text
  stored_text none = txt "[]"
  stored_text (some s) = or_else s (txt "[]")

  abbrev or_no_drafts : Option (List Draft) → List Draft
  or_no_drafts none = []
  or_no_drafts (some drafts) = drafts

  unfoldable pub read_drafts : Option Text → List Draft
  read_drafts stored = or_no_drafts (codec.parse (stored_text stored))

  -- The new drafts, and the effect that writes them down.
  unfoldable pub set_drafts : List Draft → Drafts
  set_drafts drafts = record { drafts = drafts; stored = some (codec.stringify drafts) }

  unfoldable pub open_drafts : Option Text → Drafts
  unfolding read_drafts set_drafts
  open_drafts stored = set_drafts (read_drafts stored)

  -- `crypto.randomUUID()` and the time are arguments.
  unfoldable pub save_draft : Text → Text → DraftForm → Drafts → Drafts
  unfolding set_drafts
  save_draft uuid now form s =
      set_drafts (take 8 (record { form = form; draft_id = uuid; saved_at = now } ∷ s.drafts))

  unfoldable pub delete_draft : Text → Drafts → Drafts
  unfolding set_drafts
  delete_draft id s = set_drafts (filter (λ draft. not (draft.draft_id == id)) s.drafts)

  unfoldable pub clear_drafts : Drafts → Drafts
  unfolding set_drafts
  clear_drafts s = set_drafts []
