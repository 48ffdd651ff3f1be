-- ===== src/Client/Answers.antt =====
-- What the caller of the client sees of each answer (web/src/api/client.js).
use job_flow_web_application.Prelude.{
  ℕ, ◌≤◌, ◌<◌, [], ◌∷◌, false, Option, none, some, ◌≡◌, ◌≢◌, ◌↔◌, ◌⊎◌, arith, ap,
}
use job_flow_web_application.Prelude.Text.{Text, txt, or_else}
use job_flow_web_application.Json.{Json, Fields, null, str, obj, truthy, member, get}
use job_flow_web_application.Model.{Platform}
use job_flow_web_application.Client.{fulfilled, rejected, response, error_of, is_ok, api}

module _ (platform : Platform) (status : ℕ) (status_text : Text) where
  -- The client gives a value exactly for a 2xx answer: null for 204, and else the JSON body, which
  -- has to be there; every other answer ends in an error.
  pub api-eq-fulfilled_iff :
      (body : Option Json) (value : Json)
      → (api platform (response status status_text body) ≡ fulfilled value) ↔ (
          ((status ≡ 204) × (value ≡ null))
          ⊎ ((200 ≤ status) × (status < 300) × (status ≢ 204) × (body ≡ some value)))
  unfolding api
  api-eq-fulfilled_iff none value = (λ e. ground arith, λ e. ground arith)
  api-eq-fulfilled_iff (some body) value = (λ e. ground arith, λ e. ground arith)

  refused : status < 200 ⊎ 300 ≤ status → is_ok status ≡ false
  refused h = ground arith

  error_of-str :
      (fields : Fields) (message : Text)
      → get (txt "error") fields ≡ some (str message)
      → error_of platform status_text (obj fields) ≡ or_else message status_text
  unfolding error_of member truthy
  error_of-str fields [] e = rw (e, error_of)
  error_of-str fields (c ∷ message) e = rw (e, error_of)

  -- For an answer outside 2xx with an object whose `error` is a text, the error shown is that text,
  -- or the status text where it is empty.
  pub api-error :
      (fields : Fields) (message : Text)
      → status < 200 ⊎ 300 ≤ status
      → get (txt "error") fields ≡ some (str message)
      → api platform (response status status_text (some (obj fields)))
        ≡ rejected (or_else message status_text)
  unfolding api
  api-error fields message h e = rw (refused h) (ap rejected (error_of-str fields message e))
