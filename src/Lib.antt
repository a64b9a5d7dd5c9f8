-- ===== src/Lib.antt =====
-- A verification library of Werunos, a program that serves partitions with the file systems ext4 and
-- btrfs to a Windows host. main.go finds the partitions of a disk (package block), opens the file
-- system of one of them (ext4/fs.go over package vfs, or package btrfs) and hands it to the host
-- (package host). Every file system operation ends in reads and writes of byte ranges of a block
-- device; the stack of devices is: the raw disk (block/device.go, DiskReader), rounded to sectors
-- (block/aligned.go), cut to a partition (block/device.go, PartitionReader), and in a transaction
-- covered by the blocks that are not committed yet (vfs/journal_writer.go, TxDevice). The library
-- models this stack and the parts of package vfs that keep the structures of an ext4 volume.
--
-- Which file models what:
--   Base            lists, bytes and little-endian fields: Go's slices, make, copy, encoding/binary
--   Block/Device    the interface ReadWriterAt of block/device.go, with the contract of io.ReaderAt
--                   and io.WriterAt: what a disk does is a parameter, and IsDisk says what is relied on
--   Block/Aligned   block/aligned.go: readAtAligned and writeAtAligned; Reads and Writes are proofs
--   Block/Partition block/device.go: PartitionReader; Isolation has the proofs
--   Block/Mbr       block/mbr.go: parseMBR; Bounds has the proofs
--   Block/Gpt       block/gpt.go: parseGPT; Panics has the proofs
--   Block/Memory    a disk in memory that keeps the contract, for runs
--   Vfs/Tx          vfs/journal_writer.go: TxDevice, BeginTransaction, RollbackTransaction, and
--                   CommitTransaction of a volume without a journal; Map is the map of dirty blocks,
--                   View what a transaction sees, and Merge, Reads, Writes and Commit are proofs
--   Vfs/Journal     vfs/jbd2.go: the loops of replayJournal; Recover has the rest of replayJournal, ReadExtents,
--                   cleanOrphans and Recover, and Commit has CommitTransaction of a volume with a journal
--                   (vfs/journal_writer.go); Tags, Escape, Logged, Reapply, Recovers and Commit/Bounds,
--                   Kept and Effect are proofs
--   Vfs/Safe        vfs/redolog.go: the log of replaced bytes, the cache and SafeDevice; Log, Atomic, Cache
--                   and Coherent are proofs
--   Vfs/Extents     vfs/extents.go: the structs and parseExtentNode, and findPhysicalBlock of
--                   vfs/writer.go; Codec, Find and Cycle are proofs
--   Vfs/Append      vfs/allocate.go: appendExtentToLeaf and appendExtentToLeafBlock; Mapping, Leaf and
--                   OnDisk are proofs
--   Vfs/Dirents     vfs/dirent.go: writeDirBlock, and vfs/directory.go: parseDirBlock; Entries and
--                   Block are proofs
--   Vfs/Alloc       vfs/allocate.go: AllocateBlock, AllocateInode, WriteGroupDescriptor, and
--                   vfs/reclaim.go: FreeBlock, FreeInode and the superblock's totals; Bits has the
--                   search of a bitmap, and Effect, Take and Give are proofs
--   Vfs/Layout      the structs of vfs/super.go, vfs/bgdesc.go and vfs/inodes.go: sizes of fields
--   Vfs/Super       vfs/super.go: ReadSuperBlock; Opened is a proof
--   Vfs/Files       vfs/reader.go: ReadFileAt; Content says what a file holds, and Blocks, ReadAt, Result
--                   and Mapped are proofs
--   Vfs/Inodes      vfs/inodes.go: ReadInode, and vfs/allocate.go: WriteInode; Reread is a proof
--   Btrfs/Types     btrfs/types.go: the byte reader, keys and decoders; Order and Decode are proofs
--   Btrfs/Chunks    btrfs/tree.go: resolve and parseChunkItem, and btrfs/super.go: parseSysChunks; Resolve
--                   and Items are proofs
--   Btrfs/Tree      btrfs/tree.go: walkTree and resolveChunkTree; Walk and ChunkTree are proofs
--   Btrfs/Crc       btrfs/writer.go: calcCrc32c
--   Btrfs/Leaf      btrfs/writer.go: the items of a leaf and their encoding; Encoded, Written and Sorted are
--                   proofs
--   Btrfs/Edit      btrfs/writer.go: deleteFromLeaf, updateInLeaf, findLeaf, and insertIntoLeaf at the leaf;
--                   Reads and Effect are proofs
--   Btrfs/Space     btrfs/writer.go: allocateSpace; Fit, Occupied and Free are proofs
--   Btrfs/Split     btrfs/writer.go: findLeafWithPath and the writing of leaves and nodes; Grow has
--                   splitLeafWithPath, insertPtrIntoParent, registerExtent and insertIntoLeaf, and Nodes
--                   and Halves are proofs
--   Btrfs/Fsck      btrfs/fsck.go: Fsck and verifyTreeChecksums; Healthy is a proof
--   Btrfs/Super     btrfs/super.go: ReadSuperBlock and writeSuperBlock; Stored is a proof
--   Host/Handles    host/handles.go: the table of open files; Fresh is a proof
--
-- State and errors: a device is a record of operations on a state type, and an operation of the
-- program returns the new state beside its result. An error is a value, a run-time panic of Go too
-- where the code can run into one. Numbers are natural numbers; a machine word keeps its wrap-around
-- as a remainder. A buffer is a list of bytes, and a Go struct that is encoded by encoding/binary is
-- a record with the codec of its fields, or, where it is large, its bytes, in which Layout says
-- where a field is.
--
-- Loops over a buffer, a list or a count are structural recursion. parseExtentNode recurses over
-- blocks that the disk names: it has fuel, and Cycle is about a node that is its own child. The
-- loop of parseDirBlock moves on by at least one byte, and those of parseSysChunks and readPending by
-- more; the fuel is the length of the buffer. walkTree and findLeaf recurse over nodes that the disk
-- names: they have fuel, and a tree of finite height needs one more than its height. The loop over the
-- tags of a journal descriptor needs a round for each eight bytes of the block; the loops over the
-- journal and over the list of orphans have fuel without a bound, since the disk can make them endless.
-- insertIntoLeaf has fuel for the insertions that registering a new node makes.
--
-- Left out: reads and writes of a device at negative offsets, or of ranges that reach 2^63,
-- mutexes, log output, timestamps of inodes and the contents of error messages. Not modelled: the
-- splitting of extent nodes, writing of files (vfs/writer.go), symbolic links (vfs/symlinks.go),
-- extended attributes (vfs/xattr.go), the checks of vfs/health.go, files and directories of package
-- btrfs, and the rest of the packages that talk to the host.
pub mod Base
pub mod Block
pub mod Btrfs
pub mod Host
pub mod Vfs
