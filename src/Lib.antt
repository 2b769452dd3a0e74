-- ===== src/Lib.antt =====
-- sccache: a compiler cache. The client sends a compiler's command line to a server, which looks the
-- result up in a store, or compiles and stores the result.
--
-- The parts, and the files that model them:
--   - lru-disk-cache/src/lib.rs, `LruDiskCache`: LruDiskCache. Defs has the state and the methods
--     (`size`, `capacity`, `can_store`, `add_file`, `insert_by`, `insert_bytes`, `insert_file`,
--     `contains_key`, `get`), Scan `get_all_files`, `new` and `init`. Facts states when index and
--     disk represent a list of items (`Represents`), Files follows the files, and Evict, Insert,
--     Refine, Read, Stale and Errors have the proofs.
--   - src/compiler/gcc.rs: Gcc. Expand has the iterator `ExpandIncludeFile`, Defs
--     `parse_arguments`, and Commands the command lines of `preprocess` and `compile`. Groups cuts
--     an expanded command line into arguments with their values, Collect and Flat relate the loop
--     to it, and Accepted and Compile describe the result.
--   - src/compiler/compiler.rs: Compiler. Types has `ParsedArguments`, `CompilerArguments` and
--     `CompilerKind`, CachedCompile has `Compiler::get_cached_or_compile` and `Compiler::compile`,
--     and Process `write_temp_file`. Objects, Kept, Transparent and Hit follow an entry from
--     the compilation to a later hit.
--   - src/cache/cache.rs: Cache. Entry has `CacheRead` and `CacheWrite`, Key `hash_key` and the key
--     that `get_cached_or_compile` computes, Store the trait `Storage`, and Collisions what keys
--     tell apart; Size has `parse_size` and `storage_from_environment`.
--   - src/cache/disk.rs: Cache/Disk has the `Storage` over an `LruDiskCache`, and Cache/Persistence
--     what is found again; Cache/FakeZip is a codec for tests.
--   - src/compiler/clang.rs: Clang has `argument_takes_value` and `compile`. Its command lines are
--     parsed by gcc's parser.
--   - src/compiler/msvc.rs: Msvc. Defs has `parse_arguments`, Groups and Accepted describe what it
--     accepts, Commands has `compile`, Prefix `detect_showincludes_prefix`, and Preprocess
--     `preprocess`. Deps, Rules, Order, Included and Depfile are about its dependency file.
--   - Kinds has the choice of `CompilerKind` in src/compiler/compiler.rs between the three, Detect
--     `detect_compiler_kind`, of which Detected speaks, Info `Compiler::new` and
--     `get_compiler_info`, and Tools the choice of `preprocess` and a compiler for
--     `get_cached_or_compile`.
--   - src/protocol.rs: Protocol has the messages, and the accessors that client and server use.
--   - src/server.rs: Server. Stats has `ServerStats`, Service what `SccacheService` does at a request,
--     Task `start_compile_task`, and World all of it as a machine whose steps are the requests and
--     the ends of what is under way, in any order; Shutdown has `ShutdownOrInactive` and Active
--     `WaitUntilZero`, of which Handles speaks; Codec has `ProtobufCodec` and Transport
--     `SccacheTransport`, and Cuts and Frames say what becomes of a stream of requests. Counted,
--     Balanced and Ledger are about the counters, Average about the panics of the averages, and
--     Known, Compilers and Unsupported about what is remembered of a compiler.
--   - src/client.rs and src/commands.rs: Client. Connection has `ServerConnection`, Output and Compile
--     the way of a compilation through the client, Start the port and the start of a server, Stats
--     the requests for statistics, Columns and Printed the lines of `print_stats`, and Run
--     `run_command` and the exit code of src/main.rs. Session and Report put the client before the
--     server, and Reach is about the attempts to connect.
--   - src/cmdline.rs: Cmdline has `parse`.
--   - src/cache/s3.rs and src/simples3: S3. Credentials and Profile have the providers of
--     credentials and Chain their order, Bucket the requests and the store, and Restored what is
--     found again.
--
-- What the parts stand on:
--   - Fs is the part of `std::fs` that they use: files by path, with faults that are chosen for
--     each call and path and stay. Directories and permissions are not recorded.
--   - FilePath has `std::path` over Unix paths without doubled separators. Text is a list of code
--     points (Prelude/Texts).
--   - Lru/Interface states what the third-party lru-cache is relied on for, and Lru/Listed is an
--     instance. The third-party zip, sha1 and walkdir, and the compiler that is run, are parameters
--     (`ZipCodec`, `sha1`, `walk`, `Toolchain`, `System`); `StorageLaws` is what a store promises.
--   - `WireLaws` and `FrameLaws` are what the protobuf library is relied on for, `TimerLaws` what
--     tokio's timers are.
--   - A Rust `HashMap` of outputs is an association list with no key twice.
--
-- Bounds: `evict` has fuel for one round more than there are entries, and each round removes one.
-- `parse_arguments` has a bound for the files that one step opens and one for its rounds; any bounds
-- above the weight of the expansion are enough. The size that `add_file` adds up wraps at 2 ^ 64.
--
-- The disk of an `LruDiskCache` is part of its state: no compiler writes into the cache's directory.
-- A panic of a `DiskCache` is a failed call when it is seen as a `Storage`, and no call succeeds once
-- one has panicked with the mutex held.
--
-- A key is the hash of code points, where the program hashes their UTF-8.
--
-- A task of the server runs without a break from one point where it waits to the next.
--
-- Not modelled: the generated code that writes and reads the messages, sockets, HTTP and the event
-- loop, the credentials of IAM roles, the variants for Windows in src/commands.rs, logging, and the
-- thread pool, whose work happens where it is awaited.
-- `get_cached_or_compile` does not tell the times that it measures; `end_task` takes them.
pub mod Prelude
pub mod FilePath
pub mod Fs
pub mod Lru
pub mod LruDiskCache
pub mod Compiler
pub mod Gcc
pub mod Clang
pub mod Msvc
pub mod Kinds
pub mod Cache
pub mod Protocol
pub mod Server
pub mod Client
pub mod Cmdline
pub mod S3
