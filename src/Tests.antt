-- ===== src/Tests.antt =====
-- The properties at concrete inputs.
mod Samples
mod Matching
mod Planner
mod Runs
mod Engine
mod Outbox
mod Documents
mod Services
mod Leases
mod Requests
mod Execute
mod Dispatch
