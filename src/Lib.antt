-- ===== src/Lib.antt =====
-- The storage core of the server: how a stream of bytes from a client becomes chunks on Telegram,
-- and how ranges of a file are read back.
--
-- Parts. `UploadSession` takes bytes (`receive`), fills a `ChunkBuffer`, and either stores a full
-- chunk where it stands (one at a time) or hands it to a thread (several at once). A thread asks the
-- account pool for a place and sends the buffer; its result is taken in the order of the chunks.
-- `complete` waits for all and hands the rows of the chunks to the database. `StorageEngine` reads
-- a range of a file back through these rows and a cache of blocks. Digests (SHA-256), text functions
-- and big integers serve all of them.
--
-- Files:
--   Base: names and lemmas shared by all (tests, lists, bytes, results).
--   Crypto/Sha256: class Sha256 of src/crypto/hash.cpp, as a stream of bytes.
--   Crypto/BigInt: class BigInt of src/crypto/bigint.cpp on its words, in part.
--   Text: the functions of src/common/strutil.cpp on bytes, a module for each group.
--   Storage/Chunk: ChunkLocation and ChunkEntry with toLocation and fromLocation.
--   Storage/ChunkBuffer: src/storage/chunk_buffer.cpp; Files has what it uses of stdio.
--   Storage/Upload: class UploadSession of src/storage/upload_manager.cpp. Session has its state and
--     the steps of one chunk (openChunk, giaoManhChoNen, thuMotManh, thuHetManh, closeChunk,
--     ghiNhanLoi), Receive has `receive`, Finish has `complete`, `cancel`, `rollback` and
--     `chotSoTruocKhiNoi`, Transient has laLoiTamThoi, Backend the virtual interface of
--     src/tg/storage_backend.h, Chooser chonCachDay (how many chunks at once, and where they are held).
--     Save has the database part of `complete`, Reach the life of a session as a relation of its calls
--     (Stopped: those on a cancelled one), Live what must succeed. Manager is the table of sessions of UploadManager,
--     Begin its findDuplicates and ensureFolder.
--   Storage/Journey: a file from the client to the backend and back, through all of these.
--   Storage/Purge: purgeFileData of src/storage/storage_engine.cpp; Storage/Database: the interface of
--     src/db/database.h that the storage uses.
--   Storage/BlockCache: src/storage/block_cache.cpp.
--   Storage/Engine: streamFileRange and readFileRange of src/storage/storage_engine.cpp.
--   Storage/ByteRange: parseRangeHeader of src/storage/download_stream.cpp.
--   Tg/TlCodec: TlWriter and TlReader of src/tg/tl_codec.cpp.
--   Tg/AccountPool: the choice of an account of src/tg/account_pool.cpp.
--
-- State and effects. A handler is a function from a state to a result and a state; a `bool` with an
-- error text is a `Result`. Stdio, the backend and the database are records of functions over a state
-- of their own (`Stdio`, `Backend`, `Source`), with named hypotheses on them where a theorem needs
-- some. A thread's result is a parameter `join` that is read where the code joins the thread, so a
-- theorem for every `join` covers every order in which the threads end; `worker` is the thread's
-- body. Locks are left out: each handler runs as a whole, as it does under the session's lock, and
-- the cancel flag is read once in it. A session's life ends with a `complete` that succeeds: the manager
-- then takes it off its table.
--
-- Numbers. Bytes and words are natural numbers with their bounds as predicates. Wrap-around of 32
-- and 64 bits is written out where the code can reach it: in the digests, the decimal parser, the
-- big integers, the ends of ranges. Offsets and sizes of a session are those of one file and are not
-- reduced.
--
-- Fuel. `receive` runs on one more round than bytes, a round takes at least one byte; `dongManh`
-- drains with one more round than chunks in flight, a round takes one; the read loop of the buffer
-- and of `streamFileRange` take at least one byte a round; `toLowerUtf8` takes one byte or more.
--
-- Not modelled: the conflict policies of UploadManager::begin and the records of uploads in the
-- database, figures of progress, log messages, and the parts of the server that do input and output
-- (sockets, HTTP, databases, the MTProto session).
pub mod Base
pub mod Crypto
pub mod Text
pub mod Storage
pub mod Tg
