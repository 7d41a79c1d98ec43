-- ===== src/Lib.antt =====
-- The iThmb codec plugin of ImageGlass: a dynamic library that decodes .ithmb thumbnails
-- behind a C ABI.
--
-- The parts and their files. Types (src/types.rs) has the ABI structs and status codes,
-- AbiLayout their layout on a 64-bit target, and AbiLayout.Offsets proves about it. Strings
-- (src/strings.rs) converts UTF-16; Strings.RoundTrip, Strings.Access and Strings.Lossless
-- prove about it. Registry (src/buffer_registry.rs) tracks the pixel buffers that the host
-- holds, with Registry.Laws and Registry.Spec on single calls and Registry.Client on any
-- sequence of them; Allocator (src/allocator.rs) is malloc and free over a table of live
-- blocks. Logging (src/logging.rs) calls the host's log function. FileIo (src/file_io.rs)
-- checks sizes and reads files. Decode (src/decode.rs) decodes a file into a new buffer and
-- releases buffers; Decode.Layout, Decode.Memory, Decode.Cases, Decode.Calls and
-- Decode.Release say how these calls can end, Decode.Contract, Decode.Frames, Decode.Lifetime,
-- Decode.Twice and Decode.Drain what that means to the host, and Decode.Verdict and
-- Decode.Status which status is returned when. Codec (src/codec.rs) answers the capability
-- query, matches extensions and loads metadata; Codec.Dimensions parses profile descriptions;
-- Codec.LogText, Codec.Matching, Codec.Unchecked, Codec.Advertised, Codec.Profiles,
-- Codec.Metadata, Codec.Parsing, Codec.Trimming, Codec.Numerals and Codec.Grammar prove about
-- them. State (src/state.rs) has the statics and their initialization, Plugin (src/lib.rs) the
-- entry point and the codec query, of which Plugin.Entry and Plugin.Codecs prove what they
-- answer. Session.Steps lets a host make these calls in any order; Session.Kept,
-- Session.Queries and Session say which of them leave the memory alone and what all keep,
-- Session.Ledger, Session.View and Session.Owners give the host's view of the memory, without
-- registry or contents, and Session.Messages follows the log, with what a call may send in
-- Logging.History and Logging.Messages, and what each one sends in Decode.History,
-- Codec.History and Plugin.History. Plugin.Loaded starts a session at the loading of the
-- plugin. Loading takes the entry point and the initialization (src/lib.rs, src/state.rs)
-- apart into the steps of several threads that load the plugin at once: Loading.Alone compares
-- one thread with the entry point, Loading.Stages gives the states that they pass through,
-- Loading.Outside and Loading.Inside the step of one thread, Loading.Once what a thread finds
-- that has returned, and Loading.Schedule their runs. Scheduler runs threads of either kind in
-- the order of a schedule. Threads takes src/decode.rs apart into the steps of several threads
-- that share the registry and the allocator; Threads.Guards to Threads.Safety say what every
-- interleaving keeps, Threads.Holding who holds which block, Threads.Locking and
-- Threads.Waiting the mutex of the registry and the wait for it, and Threads.Rank and
-- Threads.Schedule the steps that a call has left and the runs under a scheduler. Fuzz is the
-- pseudo-fuzz test of src/decode.rs, with its generator and its mutations; Fuzz.Generator,
-- Fuzz.Mutation, Fuzz.Rounds and Fuzz.Harness prove about them. UnitTests has the unit tests
-- of src/buffer_registry.rs (UnitTests.Buffers), src/decode.rs (UnitTests.Decoding),
-- src/codec.rs (UnitTests.Queries) and src/lib.rs (UnitTests.Entries) as runs that panic where
-- an assertion fails; two of them write a file first, on the disk of UnitTests.Disk
-- (UnitTests.Encoded, UnitTests.Metadata). Prelude holds the shared lists, maps, integers and
-- machine arithmetic, and Tests the concrete inputs.
--
-- The state is World: the OnceLock statics as options, the allocator's live blocks, the host's
-- structs by address, and the calls of the host's log function. A function of the plugin is a
-- Run: from a world it returns a value and a world, or panics, or has undefined behaviour (a
-- free of an address that is not live, a copy past a block or past the source, a read past a
-- string, invalid UTF-8, a null dereference). catch_unwind turns a panic into the code's
-- default and leaves undefined behaviour alone. Signed integers are the integers that they
-- stand for, with casts and checked products written out (Prelude.Machine); usize has 64 bits.
-- A pointer to data that nobody writes while the plugin reads it is a Ptr, null or the data;
-- pixel buffers and the host's variables are addresses, and 0 is null.
--
-- What the repository does not implement is the record Env: the file system, decode_ithmb and
-- the profile tables of ithmb_core, and malloc; the unit tests also write files and call
-- ithmb_core's encoder (FileSystem in UnitTests.Disk, and build in UnitTests.Encoded). Two
-- laws about it are hypotheses where they are needed: malloc returns null or an address that
-- is not live, and null for 2 ^ 63 bytes and more (IsAllocator); an image that the decoder
-- returns has non-negative dimensions and four bytes to a pixel (IsFrame).
--
-- All loops are structural recursions, over lists or over the number of rounds that the code
-- counts; no fuel is used. Not modelled: the scripts, what the host does inside its log
-- function, and data races on the host's structs, which the plugin leaves to the host: Threads
-- reads and clears a struct in two steps, each of them whole. In the steps of Threads a
-- registry call is one step; its mutex is in Threads.Locking only. Not modelled either is the
-- wait for a OnceLock that another thread is setting: in Loading each get_or_init is one step.
pub mod Prelude
pub mod Types
pub mod World
pub mod Registry
pub mod Strings
pub mod Env
pub mod Logging
pub mod FileIo
pub mod Allocator
pub mod Decode
pub mod AbiLayout
pub mod State
pub mod Plugin
pub mod Codec
mod Tests
pub mod Session
pub mod Scheduler
pub mod Threads
pub mod Loading
pub mod Fuzz
pub mod UnitTests
