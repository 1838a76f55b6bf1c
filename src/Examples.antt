-- ===== src/Examples.antt =====
-- Runs of the definitions and of the theorems on concrete inputs, by component.
pub mod Tracking
pub mod Tlv
pub mod Elements
pub mod Headers
pub mod Secrets
pub mod Dissecting
pub mod Messages
pub mod KeyIds
pub mod Protocols
pub mod Skips
