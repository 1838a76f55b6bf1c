-- ===== src/Tlv.antt =====
-- The TLV encoding: MatterMinimal/include/Matter/Core/MatterTLV*.h and
-- MatterMinimal/src/lib/core/MatterTLVReader.cpp.
pub mod Grammar
pub mod Types
pub mod Tags
pub mod Reader
