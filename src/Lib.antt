-- ===== src/Lib.antt =====
-- A verification library for awex, which moves the weights of a model from a training job to
-- inference engines.
--
-- The program. Each side describes its parameters by metadata (awex/meta): which shard of which
-- parameter lies on which rank, with its offset in the whole tensor; a sharding strategy
-- (awex/sharding) says how a parameter is cut. From the metadata of both sides every rank computes
-- the same transfer plan (awex/transfer/transfer_plan.py) and takes its own part of it. A
-- transport (awex/transfer/nccl_stream_batch.py, awex/transfer/nccl_comm.py) then runs the plan
-- with point-to-point sends and receives. Nothing else coordinates the two ends of a transfer:
-- that they agree is a property of the planner and the transport. The metadata of the two sides,
-- and whatever else they tell each other, goes through a key-value server
-- (awex/meta/meta_server.py), at which the ranks also meet. Tensors that a process hands to
-- another are joined into few large ones before (awex/util/tensor_util.py).
--
-- The files.
-- - Prelude: what all share. Tests and Lists have Boolean tests and lists over the native numbers,
--   Equality the classes of equality and texts as lists of code points, Texts Python's string
--   methods, Dict insertion-ordered dicts, Sort the stable sort by a key,
--   Distinct and Counts lists without repetition and how often something occurs, Result the
--   exceptions.
-- - Common.Keys: awex/util/common.py, _is_allowed_infer_only_alias, and the comparison of the keys
--   at the start of build_weights_mapping_operations.
-- - Sharding: RankInfo, ShardingType; Dims is the table behind get_default_sharding_dim, Strategy
--   the strategy classes, one function per method, Ranks is get_sglang_rank_info.
-- - Meta: awex/meta/weight_meta.py; to_local_parameter_meta is the view of one rank.
-- - Resolver: ParamMetaResolver._build_params_meta of awex/meta/meta_resolver.py. Resolver groups
--   shards into replicas, Offsets has the offsets and the shape, Build the loops over workers and
--   parameters. The abstract method _get_sharding_info is a parameter.
-- - Plan.Shards, Plan.Overlap, Plan.Build, Plan.Local: TransferPlanBuilder, one function per
--   method. Shards makes the shard offsets, Overlap intersects them and makes the operations,
--   Build runs over replicas, engines and parameters, Local filters and groups the operations of
--   one rank.
-- - Transport.Recursive: execute_recursive_partition_stream_transfer and _execute_ops_concurrent,
--   as the list of batches that a rank issues. Transport.Chunks is the chunking of _run_chunked
--   around it, Transport.Comm is validate_rank_mappings, Comm.Interleave
--   _interleave_p2p_ops_by_peer, and Comm.RoundRobin nccl_build_send_ops and nccl_build_recv_ops.
--   Transport.Colocate is NcclColocateTransport: the stages that it builds and the two phases of
--   each.
-- - Packing: group_tensors_by_shape_and_dtype and reconstruct_tensors_from_groups of
--   awex/util/tensor_util.py, one function per loop. Batches, Kept, Grouped, Writes and Places
--   follow the tensors through the loops.
-- - Common.Framing: to_binary and from_binary of awex/util/common.py. Common.Check is
--   check_train_infer_params_meta, with which the two sides compare their metadata.
--   Common.Statistics is compute_statistics, the history of durations that a stage of a transfer
--   keeps.
-- - MetaServer: awex/meta/meta_server.py, the handlers on the server's state, one function per
--   route. MetaServer.Retry is retry with what the network does to each attempt, MetaServer.Client
--   the methods of MetaServerClient that ask once, Client.TooLarge what it gets for a body that
--   the server refuses, Client.Wait wait_key and get_object with a
--   timeout. MetaServer.Barrier is barrier, as a step relation over all ranks: a step is one
--   request.
-- - Examples: small models at which the theorems are applied.
--
-- How the code is read. A function that may raise returns a Result with the exception. The buffer
-- reused_shape_obj that the planner reuses is kept by its length, since each entry is written
-- before it is read. A torch.dtype is its name. Ranks, sizes and offsets are natural numbers. The
-- sets that only feed sorted or a test of emptiness are lists. In _run_chunked the step and the
-- number of chunks come from reductions over all ranks and are arguments; an element has two
-- bytes, as the import of dtype_to_size fails. pickle, json and the tensors of torch are
-- parameters. A client's request to the server is a sequence of attempts, each of which may be
-- lost before or after it is served, with a timeout or another error; the server refuses a body
-- from client_max_size, 2 GiB, on, as aiohttp does; what other clients ask in the meantime is an
-- input. Times are milliseconds. wait_key has the timeout divided by 0.2 s, and one more, as fuel,
-- which is enough as each round takes at least 0.2 s off the timeout. The while loops that go
-- round the peers have the number of operations as fuel, with two more where a rank is given up in
-- a round of its own: a round takes an operation of every rank that has any left. math.gcd is
-- Euclid's algorithm with the second number, which falls in each step, and one more as fuel, pow
-- with the exponent -1 a search for the least inverse. math.log2 is repeated halving, with the
-- number itself as fuel, which is enough as each step halves it.
--
-- Not modelled. The calls of torch and torch.distributed, the slicing of tensors, logging, debug
-- dumps and hashes of plans; writers, readers, converters and the hooks into the engines, which
-- drive those calls. Of an operation the three fields with constant defaults are left out,
-- pp_rank, placement_version and param_class.
pub mod Common
pub mod Examples
pub mod Meta
pub mod MetaServer
pub mod Packing
pub mod Plan
pub mod Prelude
pub mod Resolver
pub mod Sharding
pub mod Transport
