-- ===== src/Tlv/Reader.antt =====
-- MatterMinimal/src/lib/core/MatterTLVReader.cpp: the pull parser over TLV elements.
-- `State` has the reader and the effects, `Input` the buffers, `Element` one element, `Container`
-- the moves between and into containers, `Values` the typed reads.
pub mod State
pub mod Input
pub mod Element
pub mod Wire
pub mod Heads
pub mod Integers
pub mod Container
pub mod Values
pub mod Ends
pub mod Advance
pub mod Progress
pub mod Moves
pub mod Accepted
pub mod Reads
pub mod Skips
