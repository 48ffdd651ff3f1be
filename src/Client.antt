-- ===== src/Client.antt =====
-- The API client (web/src/api/client.js), and what the app asks of it.
pub mod Answers
pub mod Routes
use job_flow_web_application.Prelude.{
  ℕ, ◌≤◌, List, [], ◌∷◌, ◌++◌, Bool, ◌&&◌, Option, none, some, eqb, leb, ltb, if◌then◌else◌, ◌≡◌,
  ◌⊎◌, inl, inr, refl,
}
use job_flow_web_application.Prelude.Text.{Text, txt, ◌==◌, is_empty}
use job_flow_web_application.Json.{Json, null, str, end, obj, truthy, member}
use job_flow_web_application.Model.{Platform}

-- A promise that has settled: a value, or the message of the error.
pub data Settled {ℓ} (A : Type ℓ) : Type ℓ where
  fulfilled : A → Settled A
  rejected : Text → Settled A

-- To split on how a promise settles and keep the equation.
pub Settled-cases {ℓ} :
    {A : Type ℓ} (s : Settled A)
    → ((a : A) × (s ≡ fulfilled a)) ⊎ ((message : Text) × (s ≡ rejected message))
Settled-cases (fulfilled a) = inl (a, refl)
Settled-cases (rejected message) = inr (message, refl)

pub data Method : Type 0 where
  get post delete : Method

-- A request: the path in its segments, the query, the headers, and the body before it is written as JSON.
pub record Request : Type 0 where
  pub method : Method
  pub path : List Text
  pub query : List (Text × Text)
  pub headers : List (Text × Text)
  pub body : Option Json

-- What `fetch` gives: a response with its body, if that is JSON, or a network error.
pub data Fetched : Type 0 where
  response : (status : ℕ) (status_text : Text) (body : Option Json) → Fetched
  network_error : Text → Fetched

-- `{ ...headers, [name]: value }`
unfoldable pub with_header : Text → Text → List (Text × Text) → List (Text × Text)
with_header name value [] = (name, value) ∷ []
with_header name value ((n, v) ∷ headers) =
    if n == name then (n, value) ∷ headers else (n, v) ∷ with_header name value headers

unfoldable pub with_headers : List (Text × Text) → List (Text × Text) → List (Text × Text)
unfolding with_header
with_headers headers [] = headers
with_headers headers ((n, v) ∷ more) = with_headers (with_header n v headers) more

-- The request that `api` hands to `fetch`; a missing token is the empty text.
unfoldable pub request : Request → Text → Request
unfolding with_headers
request options token =
    let typed = (txt "Content-Type", txt "application/json") ∷ [] in
    let signed =
      if is_empty token
      then typed
      else with_header (txt "Authorization") (txt "Bearer " ++ token) typed in
    record options { headers = with_headers signed options.headers }

-- `response.ok`
abbrev pub is_ok : ℕ → Bool
is_ok status = leb 200 status && ltb status 300

module _ (platform : Platform) where
  -- `new Error(body.error || response.statusText)`, where `body` is `{}` if it is no JSON
  abbrev pub text_of : Json → Text
  text_of (str s) = s
  text_of v = platform.to_text v

  unfoldable pub error_of : Text → Json → Text
  error_of status_text null = platform.type_error
  error_of status_text body = elim (member (txt "error") body) [
    | none ↦ status_text
    | some error ↦ if truthy error then text_of error else status_text
  ]

  abbrev json_or_empty : Option Json → Json
  json_or_empty none = obj end
  json_or_empty (some body) = body

  abbrev json_or_throw : Option Json → Settled Json
  json_or_throw none = rejected platform.syntax_error
  json_or_throw (some body) = fulfilled body

  -- `api` from the answer of `fetch` on
  unfoldable pub api : Fetched → Settled Json
  unfolding error_of
  api (network_error message) = rejected message
  api (response status status_text body) =
      if is_ok status
      then (if eqb status 204 then fulfilled null else json_or_throw body)
      else rejected (error_of status_text (json_or_empty body))
