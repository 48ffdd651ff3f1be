-- ===== src/Client/Routes.antt =====
-- The endpoints that the app calls (web/src/hooks/useJobFlow.js), against the routes that the API
-- server registers (cmd/api/main.go).
use job_flow_web_application.Prelude.{List, [], ◌∷◌, ◌≡◌, ◌≢◌, ◌⊎◌, inl, inr, none, some, refl, All}
use job_flow_web_application.Prelude.Text.{Text, txt}
use job_flow_web_application.Json.{Json}
use job_flow_web_application.Client.{Method, get, post, delete, Request}

-- The calls of `api` in the hook.
unfoldable pub list_request : Request
list_request = record {
  method = get;
  path = txt "api" ∷ txt "jobs" ∷ [];
  query = (txt "limit", txt "100") ∷ [];
  headers = [];
  body = none;
}

unfoldable pub dashboard_request : Request
dashboard_request = record {
  method = get;
  path = txt "api" ∷ txt "dashboard" ∷ [];
  query = [];
  headers = [];
  body = none;
}

unfoldable pub auth_request : Text → Json → Request
auth_request mode credentials = record {
  method = post;
  path = txt "api" ∷ txt "auth" ∷ mode ∷ [];
  query = [];
  headers = [];
  body = some credentials;
}

unfoldable pub create_request : Json → Request
create_request body = record {
  method = post;
  path = txt "api" ∷ txt "jobs" ∷ [];
  query = [];
  headers = [];
  body = some body;
}

unfoldable pub retry_request : Text → Request
retry_request id = record {
  method = post;
  path = txt "api" ∷ txt "jobs" ∷ id ∷ txt "retry" ∷ [];
  query = [];
  headers = [];
  body = none;
}

unfoldable pub cancel_request : Text → Request
cancel_request id = record {
  method = delete;
  path = txt "api" ∷ txt "jobs" ∷ id ∷ txt "cancel" ∷ [];
  query = [];
  headers = [];
  body = none;
}

pub data Segment : Type 0 where
  lit : Text → Segment
  param : Segment

pub record Route : Type 0 where
  pub method : Method
  pub pattern : List Segment

abbrev route : Method → List Segment → Route
route method pattern = record { method = method; pattern = pattern }

-- The routes of the server under `/api`, in the order in which they are registered.
unfoldable pub routes : List Route
routes =
    route get (lit (txt "api") ∷ lit (txt "events") ∷ [])
    ∷ route post (lit (txt "api") ∷ lit (txt "auth") ∷ lit (txt "register") ∷ [])
    ∷ route post (lit (txt "api") ∷ lit (txt "auth") ∷ lit (txt "login") ∷ [])
    ∷ route post (lit (txt "api") ∷ lit (txt "jobs") ∷ [])
    ∷ route get (lit (txt "api") ∷ lit (txt "jobs") ∷ [])
    ∷ route get (lit (txt "api") ∷ lit (txt "jobs") ∷ param ∷ [])
    ∷ route delete (lit (txt "api") ∷ lit (txt "jobs") ∷ param ∷ [])
    ∷ route post (lit (txt "api") ∷ lit (txt "jobs") ∷ param ∷ lit (txt "cancel") ∷ [])
    ∷ route post (lit (txt "api") ∷ lit (txt "jobs") ∷ param ∷ lit (txt "retry") ∷ [])
    ∷ route get (lit (txt "api") ∷ lit (txt "dashboard") ∷ [])
    ∷ route get (lit (txt "api") ∷ lit (txt "queues") ∷ [])
    ∷ route get (lit (txt "api") ∷ lit (txt "workers") ∷ [])
    ∷ []

-- A path has the segments of a pattern, with anything at a parameter.
abbrev pub Fits : List Segment → List Text → Type 0
Fits [] [] = Unit
Fits (lit s ∷ pattern) (t ∷ path) = (s ≡ t) × Fits pattern path
Fits (param ∷ pattern) (t ∷ path) = Fits pattern path
Fits _ _ = ⊥

-- The router hands a request only to a route of its method whose pattern the path has.
pub record IsRouter (hands : Route → Request → Type 0) : Type 0 where
  pub method : (r : Route) (q : Request) → hands r q → r.method ≡ q.method
  pub path : (r : Route) (q : Request) → hands r q → Fits r.pattern q.path

-- Some route has the request's method and its path.
abbrev pub HasRoute : Request → List Route → Type 0
HasRoute q [] = ⊥
HasRoute q (r ∷ rs) = ((r.method ≡ q.method) × Fits r.pattern q.path) ⊎ HasRoute q rs

-- Every request of the app but the one to cancel has a route: the job list, the dashboard, login
-- and registration, a new job, and the retry of any job.
pub HasRoute-all :
    (credentials body : Json) (id : Text)
    → HasRoute list_request routes
      × HasRoute dashboard_request routes
      × HasRoute (auth_request (txt "login") credentials) routes
      × HasRoute (auth_request (txt "register") credentials) routes
      × HasRoute (create_request body) routes
      × HasRoute (retry_request id) routes
unfolding routes list_request dashboard_request auth_request create_request retry_request
HasRoute-all credentials body id = (
  inr (inr (inr (inr (inl (refl, (refl, (refl, tt))))))),
  inr (inr (inr (inr (inr (inr (inr (inr (inr (inl (refl, (refl, (refl, tt)))))))))))),
  inr (inr (inl (refl, (refl, (refl, (refl, tt)))))),
  inr (inl (refl, (refl, (refl, (refl, tt))))),
  inr (inr (inr (inl (refl, (refl, (refl, tt)))))),
  inr (inr (inr (inr (inr (inr (inr (inr (inl (refl, (refl, (refl, (refl, tt)))))))))))),
)

module _ (hands : Route → Request → Type 0) (router : IsRouter hands) where
  apart : (r : Route) (q : Request) → r.method ≢ q.method → ¬ hands r q
  apart r q ne h = ne (router.method r q h)

  -- With a router that goes by the method and the path:
  -- the app's request to cancel a job is handed to none of the server's routes: `DELETE` has a
  -- route for the path without `/cancel`, and the path with it has a route for `POST`.
  pub cancel_request-unserved : (id : Text) → All (λ r. ¬ hands r (cancel_request id)) routes
  unfolding cancel_request routes
  cancel_request-unserved id = (
    apart _ _ (λ e. cc),
    (
      apart _ _ (λ e. cc),
      (
        apart _ _ (λ e. cc),
        (
          apart _ _ (λ e. cc),
          (
            apart _ _ (λ e. cc),
            (
              apart _ _ (λ e. cc),
              (
                λ h. (router.path _ _ h).1.1,
                (
                  apart _ _ (λ e. cc),
                  (
                    apart _ _ (λ e. cc),
                    (apart _ _ (λ e. cc), (apart _ _ (λ e. cc), (apart _ _ (λ e. cc), tt))),
                  ),
                ),
              ),
            ),
          ),
        ),
      ),
    ),
  )
