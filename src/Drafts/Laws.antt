-- ===== src/Drafts/Laws.antt =====
-- Runs of the drafts, and reloads (web/src/hooks/useJobDrafts.js).
use job_flow_web_application.Prelude.{
  ℕ, zero, suc, ◌≤◌, List, [], ◌∷◌, not, some, ◌≡◌, ◌≢◌, refl, arith, length, take, filter,
  length-take, length-filter-le, All, foldl,
}
use job_flow_web_application.Prelude.Text.{Text, txt, ◌==◌, or_else_of_nonempty, eq_iff, eq_refl}
use job_flow_web_application.Drafts.{
  DraftForm, Draft, Drafts, Codec, read_drafts, set_drafts, open_drafts, save_draft, delete_draft,
  clear_drafts,
}

-- What the user does with the drafts.
pub data Action : Type 0 where
  save : (uuid now : Text) → DraftForm → Action
  delete : (id : Text) → Action
  clear : Action

module _ (codec : Codec) where
  unfoldable pub act : Drafts → Action → Drafts
  act s (save uuid now form) = save_draft codec uuid now form s
  act s (delete id) = delete_draft codec id s
  act s clear = clear_drafts codec s

  -- What is stored is the text of the drafts in the page, which are eight at most.
  pub record IsKept (s : Drafts) : Type 0 where
    pub written : s.stored ≡ some (codec.stringify s.drafts)
    pub few : length s.drafts ≤ 8

  set_drafts-IsKept : (drafts : List Draft) → length drafts ≤ 8 → IsKept (set_drafts codec drafts)
  unfolding set_drafts
  set_drafts-IsKept drafts h = record { written = refl; few = h }

  act-IsKept : (s : Drafts) (action : Action) → IsKept s → IsKept (act s action)
  unfolding act save_draft delete_draft clear_drafts
  act-IsKept s (save uuid now form) h = set_drafts-IsKept _ (
      omega
        (arith, length-take 8 (record { form = form; draft_id = uuid; saved_at = now } ∷ s.drafts)))
  act-IsKept s (delete id) h =
      set_drafts-IsKept _
        (omega (arith, h.few, length-filter-le (λ draft. not (draft.draft_id == id)) s.drafts))
  act-IsKept s clear h = set_drafts-IsKept [] (omega arith)

  -- Whatever the user saves, deletes and clears, the page holds at most eight drafts, and their text
  -- is what is stored.
  pub run-IsKept : (actions : List Action) (s : Drafts) → IsKept s → IsKept (foldl act s actions)
  run-IsKept [] s h = h
  run-IsKept (action ∷ actions) s h = run-IsKept actions (act s action) (act-IsKept s action h)

  read_drafts-stringify :
      (drafts : List Draft)
      → codec.parse (codec.stringify drafts) ≡ some drafts
      → codec.stringify drafts ≢ []
      → read_drafts codec (some (codec.stringify drafts)) ≡ drafts
  unfolding read_drafts
  read_drafts-stringify drafts parses nonempty =
      rw (or_else_of_nonempty _ (txt "[]") nonempty, parses)

  -- Take any run from a state with at most eight drafts, all written down. If the text of the
  -- resulting drafts is not empty and parses to them, a reload of the page opens with exactly the
  -- drafts that the run left, at most eight.
  pub open_drafts-run :
      (actions : List Action) (s : Drafts)
      → IsKept s
      → codec.parse (codec.stringify (foldl act s actions).drafts)
        ≡ some (foldl act s actions).drafts
      → codec.stringify (foldl act s actions).drafts ≢ []
      → ((open_drafts codec (foldl act s actions).stored).drafts ≡ (foldl act s actions).drafts)
        × (length (foldl act s actions).drafts ≤ 8)
  unfolding open_drafts set_drafts
  open_drafts-run actions s h parses nonempty =
      let kept = run-IsKept actions s h in
      (rw kept.written (read_drafts-stringify _ parses nonempty), kept.few)

  -- No draft has the identifier.
  abbrev pub IsFresh : Text → List Draft → Type 0
  IsFresh id drafts = All (λ draft. draft.draft_id ≢ id) drafts

  filter-IsFresh :
      (id : Text) (n : ℕ) (drafts : List Draft)
      → IsFresh id drafts
      → filter (λ draft. not (draft.draft_id == id)) (take n drafts) ≡ take n drafts
  filter-IsFresh id zero drafts h = refl
  filter-IsFresh id (suc n) [] h = refl
  filter-IsFresh id (suc n) (draft ∷ drafts) (h, hs) =
      ground (arith, eq_iff draft.draft_id id, filter-IsFresh id n drafts hs)

  -- Deleting the draft that was just saved under a new identifier gives back the older drafts, of
  -- which saving has kept the seven newest.
  pub delete_draft-save_draft :
      (uuid now : Text) (form : DraftForm) (s : Drafts)
      → IsFresh uuid s.drafts
      → (delete_draft codec uuid (save_draft codec uuid now form s)).drafts ≡ take 7 s.drafts
  unfolding save_draft delete_draft set_drafts
  delete_draft-save_draft uuid now form s h =
      ground (arith, eq_refl uuid, filter-IsFresh uuid 7 s.drafts h)
