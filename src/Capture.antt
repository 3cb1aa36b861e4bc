-- ===== src/Capture.antt =====
-- The modules of src/discord_context_bridge/capture.
pub mod Orchestrator
pub mod Loop
pub mod Reconcile
pub mod MessageLedger
pub mod StableOrder
pub mod ParallelCloseout
pub mod VirtualScroll
