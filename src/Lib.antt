-- ===== src/Lib.antt =====
-- ceph-volsync-plugin: a model of the data mover's own logic.
--
-- The mover copies a volume to another cluster. A source worker (internal/worker/rbd/source.go,
-- internal/worker/cephfs) finds what changed and gives it, block by block, to a pipeline
-- (internal/worker/pipeline); a destination worker (internal/worker/rbd/destination.go,
-- internal/worker/cephfs/destination.go) writes what it receives and acknowledges it.
--
-- The files:
--   Base: names of the libraries passed on, lists over native numbers, integers, a Result type.
--   Pipeline/Window, Pipeline/Mem: the two semaphores of semaphore.go. A method is split at its
--     lock: what happens while the mutex is held is one function, and Session modules give the
--     interleavings of these functions as a step relation. A channel that is closed is a number in
--     the list `closed`.
--   Pipeline/Types, Pipeline/Config: the structs of chunk.go, held.go, stats.go and pipeline.go, and
--     config.go.
--   Pipeline/Read, Pipeline/Send: stage_read.go and stage_send_data.go, one worker at a time. What
--     the environment answers (a cancelled context, a failed read, a failed send) is an input of
--     each round; the calls of the semaphores are returned in their order.
--   Rbd/Adapter: the iterator of rbd/source.go that cuts the extents of an RBD diff into blocks.
--   Rbd/Source: which image and which snapshots rbd/source.go compares; Rbd/Source/Sync follows a
--     whole sync from its set-up over the pipeline and the wait to the commit and the signal.
--   Rbd/Destination: the write stream of rbd/destination.go with zero.go and common/util.go, on a
--     device that is a function from offsets to bytes; Rbd/Destination/Commits has its commit and
--     delete streams, and Rbd/Destination/Sync follows a whole volume from the iterator to the
--     destination's device.
--   Cephfs/Split: splitLargeBlocks of cephfs/block_iterator.go with the array that its result
--     shares with its argument. Cephfs/Iterator: the iterator of that file over all changed files.
--   Cephfs/Drainer: cephfs/commit_drainer.go, which commits files once their blocks are
--     acknowledged.
--   Cephfs/FileCache: the counted files of cephfs/cephfs_reader.go, one path at a time.
--   Cephfs/Paths: the Go library's Clean and Join as the code uses them, and sanitizePath.
--   Cephfs/Source: cephfs/source.go. Plan chooses what is compared, Walk and Routes bring what the
--     snapshot diffs report to three channels, Batches are the consumers of the channels, Rsync is
--     the sync of a whole volume, BlockPipeline puts the iterator, the feeder and the drainer together,
--     and Stateless the producer, the consumers and the last rsync.
--   Cephfs/Destination: the write, commit and delete streams of cephfs/destination.go with zero.go,
--     over the entries of the file cache.
--   Mover/Snapshots, Mover/Handles: the labels of a source's snapshots and the handles that its
--     worker gets, of internal/mover/ceph/snapshot_method.go.
--   Mover/Catalog: the choice of a mover in internal/mover/builder.go. Mover/Ports: the ports of a
--     destination, of internal/mover/ceph/service.go and networkpolicy.go.
--   Ceph/ConnPool: the counted connections of internal/ceph/connection/conn_pool.go.
--   Ceph/Volid: CSIIdentifier of internal/ceph/volid/volid.go.
--   Ceph/Config: the look-ups in the CSI configuration of internal/ceph/config/csiconfig.go.
--
-- Bounds: bytes, offsets and lengths are natural numbers; uint64 request numbers and the uint16
-- fields of identifiers keep their wrap-around, and the counters that may fall below zero are
-- integers. Loops without a structure of their own run on fuel: the advance of the window on one
-- more than its slots, the pieces of a block and the writing of zeros on the length, Next of the
-- CephFS iterator on a bound that its state gives, the drain of an RBD diff on the volume's size.
-- The loop of rsync runs on a bound that it does not reach, five or more for its five tries, and the
-- loop of the feeder on the number of calls of Next that it gets through before its context ends,
-- which is an input.
--
-- A write that fails leaves what the kernel had written of it: how much that was is an answer of the
-- environment. The helpers of volsync (MarkForCleanup, CleanupObjects and those of labels) are
-- arguments, with what their documentation says of them.
--
-- Not modelled: the Kubernetes controllers and the objects that they build (but for the snapshots
-- and the ports), the commands, the tunnels, TLS and gRPC, generated code, and the calls of
-- librados, librbd and libcephfs. A command that is run (find, rsync) is the answer of how it ends.
pub mod Base
pub mod Ceph
pub mod Cephfs
pub mod Mover
pub mod Pipeline
pub mod Rbd
