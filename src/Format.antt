-- ===== src/Format.antt =====
-- Readable names (web/src/utils/format.js).
pub mod Payloads
pub mod Titles
use job_flow_web_application.Prelude.{
  ℕ, ◌-◌, [], ◌∷◌, Bool, false, ◌&&◌, ◌||◌, not, Option, none, some, eqb, leb, if◌then◌else◌,
}
use job_flow_web_application.Prelude.Text.{Text, txt, ◌==◌, is_space, trim, ends_with, or_else}
use job_flow_web_application.Json.{
  Json, str, arr, obj, Items, nil, cons, Fields, end, field, truthy, member, put,
}
use job_flow_web_application.Model.{Job}

abbrev pub is_dash : ℕ → Bool
is_dash c = eqb c b'_' || eqb c b'-'

-- `\w`
unfoldable pub is_word : ℕ → Bool
is_word c =
    (leb b'a' c && leb c b'z')
    || (leb b'A' c && leb c b'Z')
    || (leb b'0' c && leb c b'9')
    || eqb c b'_'

-- `letter.toUpperCase()` for a letter that `\w` matches
unfoldable pub to_upper : ℕ → ℕ
to_upper c = if leb b'a' c && leb c b'z' then c - 32 else c

-- `.replace(/[…]+/g, " ")`: each run of code units that pass the test becomes one blank. The first
-- argument says whether a run is going on.
unfoldable pub squeeze : (ℕ → Bool) → Bool → Text → Text
squeeze test inside [] = []
squeeze test inside (c ∷ s) =
    let rest = squeeze test (test c) s in
    if test c then (if inside then rest else 32 ∷ rest) else c ∷ rest

-- `.replace(/\b\w/g, …)`: the first argument says whether the code unit before is a word's.
unfoldable pub capitalize : Bool → Text → Text
unfolding is_word to_upper
capitalize after_word [] = []
capitalize after_word (c ∷ s) =
    (if is_word c && not after_word then to_upper c else c) ∷ capitalize (is_word c) s

unfoldable pub titleize : Text → Text
unfolding squeeze capitalize
titleize value = capitalize false (trim (squeeze is_space false (squeeze is_dash false value)))

unfoldable pub queue_display_name : Text → Text
queue_display_name queue = titleize (or_else queue (txt "default"))

abbrev pub or_json : Option Json → Json → Json
or_json none d = d
or_json (some v) d = if truthy v then v else d

-- Of a payload that is no object the members are undefined.
unfoldable pub job_display_name : Option Job → Json
job_display_name none = str (titleize (txt "Job"))
job_display_name (some job) =
    or_json (member (txt "name") job.payload)
      (or_json (member (txt "subject") job.payload) (str (titleize (or_else job.type (txt "Job")))))

-- `key.replace(/suffix$/, replacement)`
unfoldable pub replace_suffix : Text → Text → Text → Text
replace_suffix suffix replacement [] = if [] == suffix then replacement else []
replace_suffix suffix replacement (c ∷ key) =
    let rest = replace_suffix suffix replacement key in
    if (c ∷ key) == suffix then replacement else c ∷ rest

unfoldable pub is_identifier : Text → Bool
is_identifier key = key == txt "id" || ends_with key (txt "_id") || ends_with key (txt "Id")

unfoldable pub display_key : Text → Text
display_key key =
    if key == txt "id"
    then txt "name"
    else replace_suffix (txt "Id") (txt "Name") (replace_suffix (txt "_id") [] key)

-- `Object.fromEntries` on the entries from the first on: a later entry overwrites an earlier one.
unfoldable pub from_entries : Fields → Fields → Fields
from_entries made end = made
from_entries made (field k v entries) = from_entries (put k v made) entries

abbrev pub hidden : Json
hidden = str (txt "Name unavailable")

unfoldable mutual
  pub payload_display_value : Json → Json
  payload_display_value (arr items) = arr (display_items items)
  payload_display_value (obj fields) = obj (from_entries end (display_fields fields))
  payload_display_value v = v

  pub display_items : Items → Items
  display_items nil = nil
  display_items (cons v items) = cons (payload_display_value v) (display_items items)

  pub display_fields : Fields → Fields
  display_fields end = end
  display_fields (field k v fields) =
      let shown = payload_display_value v in
      field (display_key k) (if is_identifier k then hidden else shown) (display_fields fields)
