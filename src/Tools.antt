-- ===== src/Tools.antt =====
-- The tooling of the repository: tasks.py, and scripts/find_inert_guards.py.
pub mod Tasks
pub mod Guards
mod Tests
