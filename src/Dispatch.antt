-- ===== src/Dispatch.antt =====
-- How runs come to be: the scheduler's `_create_due_runs` of runtime.py and the route `start_run` of
-- routers/runs.py.
pub mod State
pub mod Due
pub mod Start
pub mod Profiles
pub mod OneActive
pub mod Later
