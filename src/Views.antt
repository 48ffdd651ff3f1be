-- ===== src/Views.antt =====
-- The components as functions from their props and states to markup (web/src/components, web/src/views, web/src/App.jsx).
-- The handlers of a component are arguments, or constructors of a type of its own.
pub mod Frame
pub mod Dialog
pub mod Settings
pub mod Fleet
pub mod Details
pub mod Figures
pub mod Queues
pub mod Rows
pub mod SignIn
pub mod Composing
pub mod Pages
pub mod Console
pub mod Clicks
use job_flow_web_application.Prelude.{ℕ, List}
use job_flow_web_application.Prelude.Int.{ℤ}
use job_flow_web_application.Prelude.Text.{Text}
use job_flow_web_application.Json.{Json}

-- The texts that the browser makes of times and numbers, in its language and time zone.
pub record Locale : Type 0 where
  -- `{n}` for a number
  pub number_text : ℕ → Text
  pub int_text : ℤ → Text
  -- `new Date(s).toLocaleString()`, `toLocaleTimeString()`, and that with hours and minutes
  pub date_time : Text → Text
  pub time_of_day : Text → Text
  pub hour_minute : Text → Text
  -- `new Date().toLocaleDateString()`
  pub today : Text
  -- `((new Date(b) - new Date(a)) / 1000).toFixed(2)`
  pub seconds_text : Text → Text → Text
  -- `(part / whole) * 100` as a text, and the larger of that and 5
  pub percent_text : ℕ → ℕ → Text
  pub bar_text : ℕ → ℕ → Text
  -- `toFixed(2)` of the mean of some durations, and `Math.round((part / whole) * 100)`
  pub average_text : List ℕ → Text
  pub round_percent : ℕ → ℕ → ℕ
  -- `new Date()` in milliseconds
  pub now : ℤ
  -- `JSON.stringify(v, null, 2)`
  pub json_text : Json → Text
