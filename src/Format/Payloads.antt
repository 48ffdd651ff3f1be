-- ===== src/Format/Payloads.antt =====
-- What the details of a job show of its payload (`payloadDisplayValue` of web/src/utils/format.js).
use job_flow_web_application.Prelude.{true, ◌≡◌, refl, ap, if◌then◌else◌}
use job_flow_web_application.Prelude.Text.{Text, eq_refl}
use job_flow_web_application.Json.{Json, obj, arr, Items, nil, cons, Fields, end, field, put}
use job_flow_web_application.Format.{
  is_identifier, display_key, from_entries, hidden, payload_display_value, display_items,
  display_fields,
}

-- Two values that differ at most in what stands under the keys of identifiers.
mutual
  pub data Agree : Json → Json → Type 0 where
    same : (v : Json) → Agree v v
    arrays : {v w : Items} → AgreeItems v w → Agree (arr v) (arr w)
    objects : {v w : Fields} → AgreeFields v w → Agree (obj v) (obj w)

  pub data AgreeItems : Items → Items → Type 0 where
    no_items : AgreeItems nil nil
    items :
        {v w : Json} {vs ws : Items}
        → Agree v w
        → AgreeItems vs ws
        → AgreeItems (cons v vs) (cons w ws)

  pub data AgreeFields : Fields → Fields → Type 0 where
    no_fields : AgreeFields end end
    shown :
        (key : Text) {v w : Json} {vs ws : Fields}
        → Agree v w
        → AgreeFields vs ws
        → AgreeFields (field key v vs) (field key w ws)
    unseen :
        (key : Text) (v w : Json) {vs ws : Fields}
        → is_identifier key ≡ true
        → AgreeFields vs ws
        → AgreeFields (field key v vs) (field key w ws)

mutual
  unfolding payload_display_value display_items display_fields

  value_alike : {v w : Json} → Agree v w → payload_display_value v ≡ payload_display_value w
  value_alike (same v) = refl
  value_alike (arrays h) = ap arr (items_alike h)
  value_alike (objects h) = ap (λ fields. obj (from_entries end fields)) (fields_alike h)

  items_alike : {v w : Items} → AgreeItems v w → display_items v ≡ display_items w
  items_alike no_items = refl
  items_alike (items h hs) = λ i. cons (value_alike h i) (items_alike hs i)

  fields_alike : {v w : Fields} → AgreeFields v w → display_fields v ≡ display_fields w
  fields_alike no_fields = refl
  fields_alike (shown key h hs) = λ i.
      field (display_key key) (if is_identifier key then hidden else value_alike h i)
        (fields_alike hs i)
  fields_alike (unseen key v w e hs) = rw e (ap (field (display_key key) hidden) (fields_alike hs))

-- The details never show what stands under the key of an identifier, at any depth: two payloads that
-- differ only there are shown alike.
pub payload_display_value-Agree :
    (v w : Json) → Agree v w → payload_display_value v ≡ payload_display_value w
payload_display_value-Agree v w h = value_alike h

-- A key and the key of an identifier that are shown under one name, such as `name` and `id`: of an
-- object with the one and then the other, only the notice that a name is unavailable is shown.
pub payload_display_value-overwrites :
    (key id : Text) (shown_value id_value : Json)
    → is_identifier id ≡ true
    → display_key key ≡ display_key id
    → payload_display_value (obj (field key shown_value (field id id_value end)))
      ≡ obj (field (display_key id) hidden end)
unfolding payload_display_value display_fields from_entries put
payload_display_value-overwrites key id shown_value id_value e same_name =
    rw (same_name, e, eq_refl (display_key id)) refl
