-- ===== src/Tracker.antt =====
-- MatterMessageTracker.h and .cpp: the records of the messages of a capture, linked into chains.
pub mod Records
pub mod Tables
pub mod Find
pub mod Message
pub mod Chains
pub mod Search
pub mod Start
pub mod Keys
pub mod Insert
