-- ===== src/Im.antt =====
-- packet-matter-im.cpp: the dissector of the interaction model's messages. Each function is one method of
-- the TLV dissector, with the tree and the tables that it uses as parameters.
pub mod Names
pub mod Values
pub mod Paths
pub mod Fields
pub mod Attributes
pub mod Reports
pub mod Events
pub mod Commands
pub mod Messages
pub mod Dissect
pub mod Certificates
pub mod Subscription
pub mod Writes
pub mod Safety
