-- ===== src/Common.antt =====
-- awex/util/common.py: the key contract of the two sides, the check of their metadata,
-- the framing of binary messages, and the statistics of the durations.
pub mod Keys
pub mod Framing
pub mod Check
pub mod Statistics
