-- ===== src/RunResults.antt =====
-- What users see of a run: the aggregation of its plan and its rows in backend/app/run_results.py.
-- The texts of messages and their details are left out.
pub mod Status
pub mod Songs
pub mod Result
pub mod Totals
