-- ===== src/AcquisitionGate.antt =====
-- acquisition_gate.py: the gate that decides whether a saved context may be summarised.
pub mod Identity
pub mod Receipts
pub mod Coverage
pub mod Strict
pub mod Ready
mod Tests
