-- ===== src/Examples.antt =====
-- Concrete runs of the theorems.
mod Lifecycles
mod Governance
mod Queue
mod Delivery
mod Staging
mod Storage
mod Workers
mod Semantics
mod Tables
mod Security
