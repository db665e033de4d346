-- ===== src/Lib.antt =====
-- blobs: a content-addressed blob store in Go. Blobs are cut into chunks; a volume engine for each
-- namespace appends the chunks as pages to segment files, with a write-ahead log beside each; an
-- index maps keys to blobs, blobs to chunks and chunks to places, with reference counts; a store
-- joins the two and compacts.
--
-- What is modelled, and where:
-- - errors/errors.go: Errors, the typed errors as one data type and (value, error) as Result.
-- - object/object.go: Object, the records, and NamespaceId ValidateNamespaceID.
-- - encryption/encryption.go: Encryption (New, Seal, Open, WrapKey, UnwrapKey) over a parameter
--   for AES-GCM, with what crypto/cipher documents of it in Encryption/Laws.
-- - volume/volume.go: Volume. Flags and Header are the page header's codecs, Options the checked
--   options, Address the content addresses, Segment the segment file with appendChunk and
--   appendRaw, Files the directory, Engine the engine's state with ReadChunk, Write the creation,
--   rolling and patching of segments and MarkDeleted, Wal the log with appendWAL and ParseWAL,
--   Scan the walks over segments (ScanSegments, RewriteSegment, DeleteSegmentFile), Blob
--   WriteBlob, Stats SegmentStats, Open the opening and closing of an engine.
-- - index/index.go: Index. Keys are the key constructors, Tx the backend's transaction interface
--   with its laws, Memory the in-memory backend that fills it, with its Scan, Json the record
--   encoding, Commit the transactions CommitPut and CommitDelete, Records the operations on one
--   record, Refs those that rename and update a reference, Reap those of compaction, Scan the
--   listings and PurgeDeadBlobs, Segments the records of segments.
-- - Step: calls that change a state also where they fail.
-- - store/store.go: Store. Reader is the chunkReader (Read and Seek) that Get returns, Quota the
--   checks before a Put, Listing the paging of List, Recovery replayWAL, Handle the guards with
--   Get, Head, Rename, Delete and Verify, Parts an operation on a namespace's index and engine,
--   Put Put, Compact both phases of Compact, Rebuild RebuildIndex, Namespaces Open, Close and the
--   namespaces, Stats the metrics of the whole store.
-- - staging/staging.go: Staging. Ranges are ByteRange and RangeSet, Bitmap the block bitmap,
--   Blocks the arithmetic of block-aligned sessions, Session the records with Begin's checks and
--   the flush of the metadata, Write both paths of WriteChunk, Manager the sessions and the
--   directory, Transfer WriteChunk and Complete.
--
-- How the state is represented: a byte string is a list of numbers, a file its bytes. An engine
-- has the directory as a list of files by sequence number, and what the active segment's buffered
-- writer still holds as pending bytes of that segment. A transaction of the index takes the state
-- of its backend and gives the state to commit; an error commits nothing. A staged upload is its
-- state in memory, its data file and its metadata file. Locks make each operation one step, so an
-- operation is a function of the state.
--
-- Bounds and fuel: uint fields have their widths in the codecs; int and int64 values are integers
-- or numbers without overflow, where the code keeps sizes and counts. appendChunk and pieces run
-- on fuel that is the payload's length and one more, since each round takes a byte; the walks over
-- a segment run on the file's length, since each round goes on by a page; ParseWAL runs on the
-- log's length, since each record takes its magic number at least; a Read of the chunkReader runs
-- on the number of the blob's chunks and one more, since each round goes on by a chunk.
--
-- Parameters: SHA-256 appears as digests, CRC-32 as a function, AES-GCM and JSON as records of
-- functions with their documented laws, floating-point numbers by their ratio, the clock and the
-- random source as arguments.
--
-- Not modelled: disk errors, the chunker (fastcdc), the cancellation of contexts, the locks and
-- timer of staging, streaming, the bbolt backend, examples and tests.
pub mod Base
pub mod Errors
pub mod Object
pub mod Encryption
pub mod Volume
pub mod Index
pub mod Store
pub mod Staging
pub mod Step
