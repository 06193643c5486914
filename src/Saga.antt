-- ===== src/Saga.antt =====
-- src/saga: long-running transactions with compensation.
pub mod Instance
pub mod Definition
pub mod Store
pub mod Call
pub mod Step
pub mod Orchestrator
