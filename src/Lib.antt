-- ===== src/Lib.antt =====
-- Shardstore: an object store that cuts objects into stripes, encodes each stripe into k data and
-- m parity shards, and serves them over an S3-like HTTP API.
--
-- The parts, and the files that model them:
-- - internal/ec/ec.go, the erasure coding wrapper: Ec.antt (`Encoder` and its methods), with
--   Ec/Scheme.antt for `Params` and `Validate`, and Ec/ReedSolomon.antt for the interface of the
--   Reed-Solomon library. Ec/Laws.antt, Ec/Created.antt and Ec/Validity.antt hold proofs.
--   Ec/Cache.antt is `EncoderFor` with its cache.
-- - internal/storage/header.go, the formats on disk: Storage/Header.antt, with proofs in
--   RoundTrip, Marker, Prefix and Canonical below Storage/Header.
-- - internal/storage/store.go: the interface `ShardStore` in Storage/ShardStore.antt, as a record
--   of operations over a state and a record of laws, and sequences of its calls in
--   Storage/ShardStore/Calls.antt; `MemStore` in Storage/Mem.antt, with proofs
--   about the laws in Storage/Mem/Laws.antt and about its listing in Storage/Mem/Unique.antt;
--   `FileStore` in Storage/File.antt, with the names of shard files in Storage/File/Names.antt. Below it, Paths says when two shards have
--   different files, Laws and Markers what each operation changes, Consistency what the walk
--   finds; Calls and Refinement are about sequences of calls on it, Undecodable and Torn about files
--   that are cut off. Uploads, Listed, Alike, Downloads, Harmless and Objects are about
--   `ObjectStore` over it.
-- - internal/storage/object.go, `ObjectStore`: the types in Storage/Object/Types.antt,
--   `PutObject` and `DeleteObject` in Storage/Object/Write.antt, `GetObject` and the reader that
--   it returns in Storage/Object/Read.antt. They call the interface, not one implementation.
--   Storage/Recovery.antt and the files below it hold the proofs, from one shard (Shards) over
--   one stripe (Load, Storing) and all stripes (Writing, Reading) to whole objects
--   (Objects, Overwrite, Kept, Deleting, Cleanup). Termination is about the loop of `PutObject`, Ending and
--   the files below it about that of io.ReadAll, Body and SameObject about the reader.
--   Storage/Concurrent.antt and the files below it are about `PutObject` as a sequence of calls of
--   the store (Plan), and about two such sequences at the same time (Interleaving, TwoUploads).
-- - internal/api/api.go, the HTTP handlers: paths, bucket names and ids in Api/Paths.antt,
--   requests and `http.ResponseWriter` in Api/Http.antt, the handlers in Api/Buckets.antt,
--   Api/Objects.antt, Api/Multipart.antt and Api/Listing.antt, and the routes and the middleware in
--   Api/Server.antt. Api/Types.antt has the documents of internal/api/s3_types.go that are used.
--   Api/Names.antt, Api/Responses.antt, Api/Lifecycle.antt, Api/NewObject.antt, Api/Deleted.antt,
--   Api/Completed.antt, the files below Api/Server and those below Api/Listing hold proofs.
-- - internal/config/config.go: Config.antt, with proofs in Config/Laws.antt and Config/Sources.antt,
--   and in Config/Given.antt what flags and variables give, apart from the code.
-- - cmd/shardstore/main.go: Main.antt, the choice of the subcommand and the object store of a server,
--   and Main/Startup.antt, the start and the end of a server, with the logger of
--   internal/logging/logging.go; that file's request ids are in Api/Http.antt.
-- Common.antt and the files below it hold what all share: byte strings, Go's integers,
-- little-endian numbers, printed numbers, maps. Errors.antt holds Go's errors and results,
-- Reader.antt the readers of byte strings. Examples.antt holds a small erasure code and runs on
-- concrete inputs.
--
-- Correspondence. A Go method that changes a store takes and returns its state `S`; one that only
-- reads takes it. A pair `(value, error)` is a `Result`. A byte is a number, a string or a byte
-- slice a list of bytes, an int64 or int an integer that wraps at 64 bits where the code adds.
-- uint16 and uint32 values are natural numbers, cut to their width where the code converts. An
-- error's text leaves out the values that it interpolates. A panic is an error of its own.
--
-- Fuel. `put_loop` has as many rounds as the object has bytes, and each round takes at least one
-- byte. `read_all`, which stands for io.ReadAll, needs one round more than the object has bytes,
-- as each `Read` into a slice of at least one byte gives at least one byte. For a damaged object,
-- whose stripes may have any length, some fuel is enough. The handler of GET
-- takes the sizes of the slices that io.Copy reads into and such a bound.
--
-- Parameters. SHA-256 is a function argument without hypotheses. The Reed-Solomon library is a
-- record of functions, `Engine`, and its documented behaviour the record `IsErasureCode`, which
-- Examples/Parity.antt fills for k = 2 and m = 1.
--
-- Files. A `FileStore` is a map from a directory and a name to bytes. A write of a file succeeds,
-- and a read fails only where there is no file. The directory of an object is named by 20 bytes of
-- a digest; the theorems that need it say that no two ids in use agree in them.
--
-- Not modelled: contexts and cancellation; escapes in paths; the text of log lines and the access
-- log; the limits of memory; the node's id in an error document, and the printing of documents as XML and JSON; the version
-- string. Every method of a store is one step. Of requests that run at once, two uploads of different
-- objects are looked at, no others.
pub mod Common
pub mod Errors
pub mod Reader
pub mod Ec
pub mod Storage
pub mod Config
pub mod Main
pub mod Api
mod Examples
