-- ===== src/Transport.antt =====
-- The transports that run a plan, awex/transfer/nccl_stream_batch.py and awex/transfer/nccl_comm.py.
pub mod Recursive
pub mod Comm
pub mod Colocate
pub mod Chunks
