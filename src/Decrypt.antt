-- ===== src/Decrypt.antt =====
-- packet-matter-decrypt.cpp and `TryDecryptMessage` of packet-matter.cpp.
pub mod Ccm
pub mod Search
pub mod Candidates
pub mod Nonce
