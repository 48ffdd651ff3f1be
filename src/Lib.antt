-- ===== src/Lib.antt =====
-- JobFlow: a queue of background jobs with a web app (web/src), an API server (cmd/api, internal) and
-- workers (cmd/worker, internal/worker). This library models the logic of the web app and that of the
-- server and its workers around the jobs and the accounts.
--
-- The parts and their files:
--   - Model.antt: the data that the API returns (internal/model/model.go) and the platform, a record of
--     what the browser does and the sources only call: toLowerCase, localeCompare, Date, Number, String.
--   - Json.antt: JSON values and property access. Numbers are integers.
--   - Client.antt: `api` of web/src/api/client.js, split at its `fetch`: `request` is what is sent, `api`
--     what becomes of the answer. Client/Routes.antt has the app's requests and the routes of
--     cmd/api/main.go.
--   - JobFlow.antt: the state of web/src/hooks/useJobFlow.js and its handlers. A handler that waits for
--     the server is two functions, before and after (refresh: `refresh_start`, `refresh_settle`).
--     JobFlow/Steps.antt is the step relation: the user, the server and the event stream act in any
--     order, with the calls that wait for the server in the state; a call keeps the token of the render
--     that made it, as the closures of the source do. JobFlow/Create.antt is `createJobs`.
--   - Filters.antt, Sort.antt: web/src/views/useJobFilters.js; Array.prototype.sort is a stable insertion sort.
--   - Table.antt: selection, bulk actions, toolbar and pager of web/src/components/JobTable.jsx.
--   - Composer.antt (with Composer/Files.antt), Templates.antt, Drafts.antt: web/src/components/JobComposer.jsx,
--     web/src/data/jobTemplates.js, web/src/hooks/useJobDrafts.js.
--   - Format.antt: web/src/utils/format.js.
--   - Shell.antt: the frame and the confirmation dialog, web/src/App.jsx and
--     web/src/components/ConfirmDialog.jsx.
--   - Auth.antt, Workers.antt, Insights.antt: web/src/components/AuthScreen.jsx,
--     web/src/views/WorkersView.jsx, and the queue figures of web/src/components/InsightCards.jsx and
--     web/src/components/QueueBoard.jsx.
--   - Health.antt, Timeline.antt, Shortcuts.antt: `health` of useJobFlow.js with its panels
--     (web/src/components/HealthPanel.jsx, StatsStrip.jsx), web/src/components/JobTimeline.jsx,
--     web/src/hooks/useKeyboardShortcuts.js. The rounding of a share to a percentage is a parameter.
--   - Analytics.antt: the figures of web/src/components/JobAnalytics.jsx and the shares of
--     web/src/components/TypeChart.jsx; Analytics/Attempts.antt takes them to the jobs that the server serves.
--   - Server.antt, with Server/Rows.antt and Server/Repository.antt: the table of jobs and the statements of
--     internal/repository/job_repository.go on it.
--   - Server/Queue.antt: internal/queue/redis_queue.go. Redis is a parameter: a type of sorted sets with
--     the commands that the code uses (`SortedSets`) and what is documented of them (`IsSortedSets`).
--   - Server/Service.antt: internal/service/job_service.go, on a store of table, queues and events.
--     Server/Pool.antt: `handle` of internal/worker/pool.go, split at its processor (`handle_start`,
--     `handle_end`). Server/Processor.antt: internal/worker/processor.go, with the wait and HTTP as a parameter.
--   - Server/Life.antt is the specification: the moves that the life of a job allows. Server/Steps.antt is
--     the step relation of the whole server: requests, the scheduler of cmd/api/main.go and any number of
--     workers act in any order, every call may fail, and a worker may stop at any time. It counts for each
--     identifier the workers that have popped and that run its job, and the retries that were asked for.
--     Server/Evolution takes the statements to the moves, Server/Steps the steps.
--   - Server/Handlers.antt: the answers of internal/handler/job_handler.go to the requests about jobs.
--   - Server/Dashboard.antt: `Stats` and `Dashboard`, down to the figures that Health.antt reads.
--     Server/Wire.antt: a row as the app reads it.
--   - Server/Accounts.antt: internal/service/auth_service.go, internal/repository/user_repository.go and
--     internal/middleware/auth.go; bcrypt, jwt and the functions on strings are a parameter (`Libraries`).
--   - Server/Broker.antt: the connections of internal/realtime/broker.go; Server/Broker/Delivery.antt has
--     their steps.
--   - Markup.antt: what the components return, with React's children. Markup/Events.antt is the way of an event
--     through it, as browsers define it: the handlers of the element and of those around it are called from
--     the inside out until one stops the event, and a disabled button lets none by. Markup/Rendering.antt says
--     what React renders and finds keys and classes.
--   - Views.antt and its children: every component of web/src/components and web/src/views as a function from
--     its props and states to markup, down to its texts and class names; its handlers are arguments or the
--     constructors of a type of actions. Views/Frame.antt (BrandLogo, Sidebar, Topbar, Toast), Views/Dialog.antt
--     (ConfirmDialog), Views/Settings.antt, Views/Fleet.antt (WorkersView, WorkerBoard), Views/Details.antt
--     (JobDetails, JobTimeline, StatusBadge), Views/Figures.antt (StatsStrip, HealthPanel, InsightCards,
--     JobAnalytics), Views/Queues.antt (QueueBoard, TypeChart, QueuesView), Views/Rows.antt (JobTable),
--     Views/SignIn.antt (AuthScreen), Views/Composing.antt (JobComposer, JobDraftsPanel), Views/Pages.antt
--     (CommandBar, ActivityFeed, DashboardView, JobsView). Views/Console.antt is `App` of web/src/App.jsx, and
--     `respond` what its frame does with an action. Views/Clicks.antt is about clicks in all of them. The texts
--     that the browser makes of times and numbers are a parameter (`Locale`).
--   - Tests: sample data and the properties at concrete inputs.
--   - Prelude: texts, lists and integers over the native numbers, Boolean tests.
-- The composer hands a form to `createJobs`, the table its jobs to `retryJob` and `cancelJob` through the
-- dialog, and all share the state of JobFlow.antt; the table shows the view of Filters.antt.
--
-- How values are read: a text is a list of code units; an error is its message; a settled promise is
-- `Settled`. A refresh is answered by typed data, since what the app does with a body of another shape is
-- left to the browser. JSON.parse and JSON.stringify are parameters (`Codec`, `JsonText`), the router of
-- the server is one (`IsRouter`), and the answers to a batch are a function of its place and body. No fuel
-- is used: the loop of `createJobs` recurs on the rounds that are left, the others on lists.
--
-- On the server, times are milliseconds, a table is the list of its rows in the order of insertion, and a
-- statement that fails leaves its table as it is. Numbers of a job are integers, checked against their
-- columns on insertion; the score of a queue goes through a rounding function and the back-off through
-- 64-bit words. Where PostgreSQL leaves an order open (ties, the rows of an UPDATE), it is that of the
-- table. An identifier that the database generates is one that no row has.
--
-- Not modelled: styles; the capture phase of events, and the click that a browser passes from a label on to
-- its field; the focus of elements; downloads; names that a template is not stored under but inherits from
-- Object.prototype; the order in which JavaScript lists keys that look like numbers; the HTTP handlers
-- of accounts (internal/handler/auth_handler.go), the heartbeats and counts of workers, foreign
-- keys, and a statement that takes effect while its answer is lost.
pub mod Prelude
pub mod Json
pub mod Markup
pub mod Model
pub mod Sort
pub mod Filters
pub mod Client
pub mod JobFlow
pub mod Format
pub mod Templates
pub mod Drafts
pub mod Composer
pub mod Table
pub mod Shell
pub mod Workers
pub mod Insights
pub mod Auth
pub mod Health
pub mod Timeline
pub mod Shortcuts
pub mod Views
pub mod Analytics
pub mod Server
pub mod Tests
