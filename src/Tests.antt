-- ===== src/Tests.antt =====
-- Sample data, and the properties at concrete inputs.
mod Samples
mod Sets
mod Filters
mod Table
mod JobFlow
mod Client
mod Composer
mod Shell
mod Panels
mod Views
mod Worlds
mod Server
mod Jobs
mod Accounts
mod Events
mod Forced
