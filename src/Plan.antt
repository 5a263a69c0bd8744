-- ===== src/Plan.antt =====
-- awex/transfer/transfer_plan.py: which slice of which training shard goes to which slice of which
-- inference shard.
pub mod Shards
pub mod Overlap
pub mod Build
pub mod Local
