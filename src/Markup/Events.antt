-- ===== src/Markup/Events.antt =====
-- What a click on the markup asks for: React calls the handlers of the element and of those around it, from
-- the inside out, until one stops the event (web/src/components, web/src/views).
use job_flow_web_application.Prelude.{
  List, [], ◌∷◌, ◌++◌, Bool, true, false, ◌&&◌, ◌||◌, not, length, leb, if◌then◌else◌,
}
use job_flow_web_application.Markup.{
  EventKind, click, mouse_down, submit, Attribute, on, stops, on_toggle, disabled, Markup, empty,
  invalid, text, element, beside,
}

abbrev same_kind : EventKind → EventKind → Bool
same_kind click click = true
same_kind mouse_down mouse_down = true
same_kind submit submit = true
same_kind _ _ = false

module _ {A : Type 0} (kind : EventKind) where
  -- The handlers of an element for a kind of event, whether it is disabled, and whether it stops the event.
  unfoldable pub handlers : List (Attribute A) → List A
  handlers [] = []
  handlers (on k a ∷ attributes) =
      if same_kind k kind then a ∷ handlers attributes else handlers attributes
  handlers (on_toggle a ∷ attributes) =
      if same_kind click kind then a ∷ handlers attributes else handlers attributes
  handlers (_ ∷ attributes) = handlers attributes

  unfoldable pub stopped : List (Attribute A) → Bool
  stopped [] = false
  stopped (stops k ∷ attributes) = same_kind k kind || stopped attributes
  stopped (_ ∷ attributes) = stopped attributes

unfoldable pub is_disabled : {A : Type 0} → List (Attribute A) → Bool
is_disabled [] = false
is_disabled (disabled b ∷ attributes) = b || is_disabled attributes
is_disabled (_ ∷ attributes) = is_disabled attributes

-- The way to the target of an event.
pub data Target : Type 0 where
  itself : Target
  inside left right : Target → Target

-- What an event has asked for so far, and whether it goes on to the elements around.
pub record Bubble (A : Type 0) : Type 0 where
  pub asked : List A
  pub going : Bool

module _ {A : Type 0} (kind : EventKind) where
  -- An element answers to an event that comes up to it; a disabled one neither answers nor lets it by.
  unfoldable pub pass : List (Attribute A) → Bubble A → Bubble A
  unfolding handlers stopped is_disabled
  pass attributes b =
      if b.going
      then (if is_disabled attributes then record b { going = false } else record {
        asked = b.asked ++ handlers kind attributes;
        going = not (stopped kind attributes);
      })
      else b

  abbrev pub nothing : Bool → Bubble A
  nothing going = record { asked = []; going = going }

  unfoldable pub fire : Target → Markup A → Bubble A
  unfolding pass
  fire itself (element _ attributes _) = pass attributes (nothing true)
  fire (inside target) (element _ attributes m) = pass attributes (fire target m)
  fire (left target) (beside m _) = fire target m
  fire (right target) (beside _ m) = fire target m
  fire itself (text _) = nothing true
  fire _ _ = nothing false

  -- What the enabled elements of some markup answer with.
  unfoldable pub offers : Markup A → List A
  unfolding handlers is_disabled
  offers (element _ attributes m) =
      (if is_disabled attributes then [] else handlers kind attributes) ++ offers m
  offers (beside m n) = offers m ++ offers n
  offers empty = []
  offers invalid = []
  offers (text _) = []

  -- No event leaves the markup after it has asked for something.
  unfoldable pub contained : Markup A → Bool
  unfolding handlers stopped
  contained (element _ attributes m) =
      let below = contained m in
      stopped kind attributes || (leb (length (handlers kind attributes)) 0 && below)
  contained (beside m n) = contained m && contained n
  contained empty = true
  contained invalid = true
  contained (text _) = true

  -- Handlers stand inside one another only where the inner event is stopped.
  unfoldable pub single : Markup A → Bool
  unfolding handlers contained
  single (element _ attributes m) =
      leb (length (handlers kind attributes)) 1
      && (leb (length (handlers kind attributes)) 0 || contained m)
      && single m
  single (beside m n) = single m && single n
  single empty = true
  single invalid = true
  single (text _) = true
