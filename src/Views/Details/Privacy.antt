-- ===== src/Views/Details/Privacy.antt =====
-- What the details of a job show of its payload (web/src/components/JobDetails.jsx).
use job_flow_web_application.Prelude.{
  false, Option, none, some, ◌≡◌, refl, sym, ◌∙◌, inl, inr, Bool-cases,
}
use job_flow_web_application.Prelude.Int.{ℤ}
use job_flow_web_application.Prelude.Text.{Text, txt, ◌==◌, eq_iff, ends_with}
use job_flow_web_application.Json.{Json, Items, Fields, truthy, member, get}
use job_flow_web_application.Model.{Job}
use job_flow_web_application.Timeline.{steps}
use job_flow_web_application.Format.{is_identifier, or_json, job_display_name}
use job_flow_web_application.Format.Payloads.{
  Agree, same, arrays, objects, AgreeItems, no_items, items, AgreeFields, no_fields, shown, unseen,
  payload_display_value-Agree,
}
use job_flow_web_application.Markup.{child, child_items, beside}
use job_flow_web_application.Views.{Locale}
use job_flow_web_application.Views.Details.{
  job_details, job_timeline, timeline_step, step_icon, duration,
}

data AgreeOption : Option Json → Option Json → Type 0 where
  both_none : AgreeOption none none
  both_some : {v w : Json} → Agree v w → AgreeOption (some v) (some w)

-- The same member of both, or none.
same_option : (o : Option Json) → AgreeOption o o
same_option none = both_none
same_option (some v) = both_some (same v)

truthy-Agree : {v w : Json} → Agree v w → truthy v ≡ truthy w
unfolding truthy
truthy-Agree (same v) = refl
truthy-Agree (arrays h) = refl
truthy-Agree (objects h) = refl

get-Agree :
    (k : Text) {v w : Fields}
    → is_identifier k ≡ false
    → AgreeFields v w
    → AgreeOption (get k v) (get k w)
unfolding get
get-Agree k e no_fields = both_none
get-Agree k e (shown key h hs) = elim (Bool-cases (key == k)) [
  | inl found ↦ rw found (both_some h)
  | inr other ↦ rw other (get-Agree k e hs)
]
get-Agree k e (unseen key v w hidden_key hs) = elim (Bool-cases (key == k)) [
  | inl found ↦ cc ((eq_iff key k).0 found)
  | inr other ↦ rw other (get-Agree k e hs)
]

member-Agree :
    (k : Text) {v w : Json}
    → is_identifier k ≡ false
    → Agree v w
    → AgreeOption (member k v) (member k w)
unfolding member
member-Agree k e (same v) = same_option (member k v)
member-Agree k e (arrays h) = both_none
member-Agree k e (objects h) = get-Agree k e h

module _ (int_text : ℤ → Text) (A : Type 0) where
  mutual
    unfolding child

    child-Agree : {v w : Json} → Agree v w → child {A = A} int_text v ≡ child int_text w
    child-Agree (same v) = refl
    child-Agree (arrays h) = child_items-Agree h
    child-Agree (objects h) = refl

    child_items-Agree :
        {v w : Items} → AgreeItems v w → child_items {A = A} int_text v ≡ child_items int_text w
    child_items-Agree no_items = refl
    child_items-Agree (items h hs) = λ i. beside (child-Agree h i) (child_items-Agree hs i)

  child-or_json :
      {o p : Option Json} (d e : Json)
      → AgreeOption o p
      → child {A = A} int_text d ≡ child int_text e
      → child {A = A} int_text (or_json o d) ≡ child int_text (or_json p e)
  child-or_json d e both_none h = h
  child-or_json d e (both_some {v = v} {w = w} a) h = elim (Bool-cases (truthy v)) [
    | inl t ↦ rw (t, sym (truthy-Agree a) ∙ t) (child-Agree a)
    | inr t ↦ rw (t, sym (truthy-Agree a) ∙ t) h
  ]

  child-job_display_name :
      (job : Job) (payload : Json)
      → Agree job.payload payload
      → child {A = A} int_text (job_display_name (some job))
        ≡ child int_text (job_display_name (some (record job { payload = payload })))
  unfolding job_display_name is_identifier txt ◌==◌ ends_with
  child-job_display_name job payload a =
      child-or_json _ _ (member-Agree (txt "name") refl a)
        (child-or_json _ _ (member-Agree (txt "subject") refl a) refl)

-- Two jobs whose payloads differ only in what stands under the keys of identifiers have the very same
-- details on the screen: their name, their figures, their timeline and their payload.
pub job_details-Agree :
    (locale : Locale) (A : Type 0) (job : Job) (payload : Json)
    → Agree job.payload payload
    → job_details locale {A = A} (some job)
      ≡ job_details locale (some (record job { payload = payload }))
unfolding job_details job_timeline timeline_step step_icon duration steps
job_details-Agree locale A job payload a =
    rw
      (
        child-job_display_name locale.int_text A job payload a,
        payload_display_value-Agree job.payload payload a,
      )
      refl
