-- ===== src/Deletion.antt =====
-- backend/control_plane/deletion.py: deletion requests, their approval by another actor, and their
-- execution with evidence and a signed attestation.
pub mod Workflow
pub mod Approval
pub mod Execution
pub mod Duties
pub mod Safety
pub mod Traces
pub mod Cleared
