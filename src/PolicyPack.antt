-- ===== src/PolicyPack.antt =====
-- backend/control_plane/policy_pack_service.py: staged policy-pack changes, their application, the
-- canary and the rollback.
pub mod Invariants
pub mod Soundness
pub mod Model
pub mod Requests
pub mod Staging
pub mod Decisions
pub mod Rollback
pub mod Rows
pub mod InForce
pub mod Guards
pub mod Guarded
pub mod Replays
pub mod RoundTrip
