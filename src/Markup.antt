-- ===== src/Markup.antt =====
-- What the components return (the JSX of web/src/App.jsx, web/src/components and web/src/views): elements with
-- their attributes, and React's children. `A` is the type of what a handler asks for.
pub mod Events
pub mod Bubbling
pub mod Rendering
use job_flow_web_application.Prelude.{ℕ, List, [], ◌∷◌, Bool, true, false, Option, none, some}
use job_flow_web_application.Prelude.Int.{ℤ}
use Prim.Native.String.{String}
use job_flow_web_application.Prelude.Text.{Text, txt}
use job_flow_web_application.Json.{Json, null, bool, num, str, arr, obj, Items, nil, cons}

-- The elements that the components use, and the icons of the third-party package by their names.
pub data Tag : Type 0 where
  main header aside nav section div form : Tag
  h1 h2 h3 p span strong small em code pre dl dt dd img : Tag
  button label input textarea select option : Tag
  icon : Text → Tag

pub data EventKind : Type 0 where
  click mouse_down submit : EventKind

pub data Attribute (A : Type 0) : Type 0 where
  -- `className`, `key`, `value` and `size`, and any other by its name
  class_name key value : Text → Attribute A
  size : ℕ → Attribute A
  named : Text → Text → Attribute A
  disabled checked read_only : Bool → Attribute A
  -- a handler, and a call of `event.stopPropagation()`
  on : EventKind → A → Attribute A
  stops : EventKind → Attribute A
  -- the `onChange` of a checkbox, which answers to a click, and that of another field, with the new text
  on_toggle : A → Attribute A
  on_change : (Text → A) → Attribute A

-- `invalid` is a child that React refuses to render.
pub data Markup (A : Type 0) : Type 0 where
  empty : Markup A
  invalid : Markup A
  text : Text → Markup A
  element : Tag → List (Attribute A) → Markup A → Markup A
  beside : Markup A → Markup A → Markup A

module _ {A : Type 0} where
  -- Some children one after another.
  abbrev pub children : List (Markup A) → Markup A
  children [] = empty
  children (m ∷ ms) = beside m (children ms)

  abbrev pub el : Tag → List (Attribute A) → List (Markup A) → Markup A
  el tag attributes ms = element tag attributes (children ms)

  -- `{xs.map(f)}`
  abbrev pub each : {X : Type 0} → (X → Markup A) → List X → Markup A
  each f [] = empty
  each f (x ∷ xs) = beside (f x) (each f xs)

  -- `{test && m}`
  abbrev pub when : Bool → Markup A → Markup A
  when true m = m
  when false m = empty

  -- `{s}` for a text or undefined
  abbrev pub optional : Option Text → Markup A
  optional none = empty
  optional (some s) = text s

  abbrev pub class : String → Attribute A
  class name = class_name (txt name)

  abbrev pub words : String → Markup A
  words s = text (txt s)

  -- An icon of the third-party package.
  abbrev pub glyph : String → ℕ → List (Attribute A) → Markup A
  glyph name n attributes = element (icon (txt name)) (size n ∷ attributes) empty

-- `{v}`: null and the Booleans show nothing, the items of an array are children, an object is refused.
unfoldable mutual
  pub child : {A : Type 0} → (ℤ → Text) → Json → Markup A
  child int_text null = empty
  child int_text (bool _) = empty
  child int_text (num n) = text (int_text n)
  child int_text (str s) = text s
  child int_text (arr items) = child_items int_text items
  child int_text (obj fields) = invalid

  pub child_items : {A : Type 0} → (ℤ → Text) → Items → Markup A
  child_items int_text nil = empty
  child_items int_text (cons v items) = beside (child int_text v) (child_items int_text items)
