-- ===== src/Materialize.antt =====
-- materialize.py: the state that a log stands for.
pub mod Facts
pub mod Active
pub mod History
pub mod Lifecycle
pub mod Incremental
pub mod Indexes
pub mod State
pub mod Find
