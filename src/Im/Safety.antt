-- ===== src/Im/Safety.antt =====
-- The functions of packet-matter-im.cpp end and read no byte outside of the message, file by file.
pub mod Fields
pub mod Reports
pub mod Events
pub mod Messages
pub mod Certificates
