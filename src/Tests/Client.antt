-- ===== src/Tests/Client.antt =====
-- The API client at concrete inputs.
use job_flow_web_application.Prelude.{◌≡◌, All}
use job_flow_web_application.Prelude.Text.{txt}
use job_flow_web_application.Client.{Request}
use job_flow_web_application.Client.Routes.{
  cancel_request, Route, routes, Fits, IsRouter, cancel_request-unserved,
}

-- A router that hands a request to every route of its method whose pattern the path has.
abbrev Matching : Route → Request → Type 0
Matching r q = (r.method ≡ q.method) × Fits r.pattern q.path

Matching-IsRouter : IsRouter Matching
Matching-IsRouter = record { method = λ r q h. h.0; path = λ r q h. h.1 }

cancel_request-unserved_example : All (λ r. ¬ Matching r (cancel_request (txt "a"))) routes
cancel_request-unserved_example = cancel_request-unserved Matching Matching-IsRouter (txt "a")
