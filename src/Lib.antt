-- ===== src/Lib.antt =====
-- PebblesDB, a key-value store built on a log-structured merge tree whose levels are split by
-- guards (C++, under src/ of the repository). The library follows the program bottom-up: bytes
-- and numbers, keys and their order, and then the components that store keys in those formats.
--
-- - util/coding.h and util/coding.cc are Coding: a buffer, or a pointer with its limit, is the
--   list of the bytes that it covers; a Put routine is the function that appends what the encode
--   function returns, a Get routine returns Option of the value and the bytes left. EncodeFixed32
--   is encode_fixed32, GetVarint32Ptr is get_varint32_ptr, and so on in the source's words.
--   Coding.Fixed, Coding.Varint and Coding.Slices hold the proofs.
-- - util/comparator.cc, include/pebblesdb/comparator.h and Slice::compare are Comparator. A
--   Comparator is a record of its three operations; IsOrder and IsShortener are the promises that
--   its clients rely on.
-- - db/dbformat.h and db/dbformat.cc are Dbformat: internal keys, InternalKeyComparator over any
--   user comparator, LookupKey.
-- - include/pebblesdb/status.h is Status.
-- - db/write_batch.cc is Batch: the representation of a batch, Iterate with a handler as a record
--   of functions on a state, and in Batch.Guards the choice of guards. MurmurHash3, a vendored
--   library, is a function argument there.
-- - db/version_edit.h and db/version_edit.cc are VersionEdit, with EncodeTo in VersionEdit.Encode
--   and DecodeFrom in VersionEdit.Decode, where a failed assertion is an outcome of its own and
--   the order of the deleted guards is a function argument. VersionEdit.Items lists the fields
--   that an edit writes, VersionEdit.RoundTrip and VersionEdit.Ending are about decoding them and
--   about decoding any bytes.
-- - util/hash.cc, include/pebblesdb/filter_policy.h and util/bloom.cc are Bloom: the hash of a
--   key, the filter that CreateFilter appends and KeyMayMatch. The product bits_per_key * 0.69,
--   in floating point, is an argument.
-- - db/db_iter.cc is DbIter, over an internal iterator that is a cursor in the list of its
--   entries; Prev and SeekToLast are in DbIter.Reverse. DbIter.Newest says what a reader at a
--   sequence number sees of the entries; DbIter.Forward, DbIter.Seek and DbIter.Lookup compare
--   that with what the iterator shows.
-- - table/format.h and table/format.cc, without ReadBlock, are Format: block handles and the
--   footer of a table.
-- - table/filter_block.h and table/filter_block.cc are FilterBlock, for FileLevelFilterBuilder;
--   it takes any filter policy, and the Bloom filter fills that place.
-- - db/memtable.h and db/memtable.cc are MemTable: the entry that Add writes and the one that Get
--   reads, over the list of entries in order, which stands for the skip list of db/skiplist.h.
-- - db/version_set.cc is VersionSet, for the binary search FindFile.
-- - util/crc32c.h is Crc32c: Mask, Unmask, and IsExtend, what it documents of Extend. Extend
--   itself, assembler or a loop over generated tables, is an argument of the modules that need
--   it.
-- - db/log_format.h, db/log_writer.cc and db/log_reader.cc are Log. Log.Writer and Log.Reserve
--   translate Writer: AddRecord of one thread as explicit state passing, and the compare-and-swap
--   loop of threads that run at once as a step relation. Log.Reader and Log.ReadRecord translate
--   Reader; the calls of its reporter are a list in its state. The files are records of their
--   operations on a state of any type, with what env.h documents of files that do not fail as
--   hypotheses. Log.Layout and Log.Extent describe the bytes of a record without the code.
--   AddRecord and ReadRecord recur on fuel, and a payload of n bytes needs n + 2 rounds: every
--   round but the first takes at least one byte, and the first takes none where only a header
--   fits into the block.
-- - table/block_builder.cc is Block.Builder. table/block.cc is Block, Block.Iter and Block.Moves:
--   the iterator holds the bytes of its block, and a pointer into them is an offset. The loops of
--   Prev, Seek and SeekToLast recur on fuel; a round of ParseNextKey moves on by a byte at least,
--   so more rounds than the block has bytes are enough, and the binary search of Seek drops a
--   restart point in each round. Block.Layout says which bytes hold which entries without the
--   code.
-- - db/db_impl.cc is Compaction, for the rules of DoCompactionWork that drop entries, with
--   Compaction::IsBaseLevelForKey of db/version_set.cc. The entries of the input iterator are a
--   list, on which the loop recurs; a place in level_ptrs_ is the list of the files from there
--   on; has_current_key and current_key are one option.
-- - db/snapshot.h is Snapshot: the ring as a memory from addresses to nodes, where the allocator
--   may give a new node any address that no live node has, so also that of a released one.
--   Snapshot.History has the calls of GetSnapshot and ReleaseSnapshot as a relation, and
--   smallest_snapshot is what DoCompactionWork takes from the list for Compaction.
--
-- Numbers are the native naturals; a 32- or 64-bit register keeps its wrap-around written out as
-- a remainder. Loops over a byte buffer recur on the list; the shifting loops of the varint code
-- recur on accessibility; Iterate and other loops that skip a varying number of bytes take the
-- length of the input as fuel, since each round takes a byte at least. Reads without a bounds
-- check return 0 past the end of the list, and the callers test the size as the source does;
-- asserts are hypotheses, and in VersionEdit.Decode, where they read input, an outcome of their
-- own.
--
-- Not modelled: files, threads and locks, the environment, the C binding, benchmarks, tests and
-- vendored hash functions, and the components that the manifest names as not modelled.
pub mod Common
pub mod Coding
pub mod Comparator
pub mod Crc32c
pub mod Log
pub mod Dbformat
pub mod Status
pub mod Batch
pub mod VersionEdit
pub mod Bloom
pub mod DbIter
pub mod Format
pub mod Block
pub mod FilterBlock
pub mod MemTable
pub mod VersionSet
pub mod Compaction
pub mod Snapshot
