-- ===== src/Lib.antt =====
-- urma-rs: a safe Rust layer over liburma.so, the C library of the URMA verbs, with examples that
-- run on it.
--
-- The crate has three files. ffi.rs declares the C structs, the constants, the accessors of
-- bit-field unions and the extern block. urma.rs wraps the C objects in handles that release them
-- on drop: a guard for the library (Urma), devices, contexts, completion queues, jetties,
-- registered segments and imported peers, and it posts work requests and polls completions.
-- error.rs has the error type. The examples share examples/common/mod.rs; examples/urma_lookup.rs
-- is a directory of records with a master over HTTP and clients that read each other's memory;
-- examples/urma_pingpong.rs and examples/urma_hello.rs are pairs of nodes, of which each is the
-- server of the other, that exchange descriptors over HTTP and then send or read a message.
--
-- Files, and what they model:
--   Base            what the parts share: native numbers, integers, lists, tests
--   Error           src/error.rs: Error, Result, check_status; one constructor for each message
--   Ffi/Consts, Ffi/Flags, Ffi/DeviceCap, Ffi/Structs, Ffi/Requests
--                   src/ffi.rs: constants, unions of bit fields (words of 32 bits, with a module
--                   for each), structs, and work requests as arrays with pointers into them;
--                   Requests.walk is what a reader of those pointers finds
--   Ffi/Liburma     the extern block. The library itself is not part of the repository: it is a
--                   record of functions from the calls made so far to the answer, a parameter of
--                   every operation. Each call and its answer is an event of a trace
--   Ffi/World       the state: the trace, the thread-local INIT, and the boxes behind the Rcs
--   Ffi/Io          computations that may fail, with one primitive for each call
--   Urma/Values, Urma/Modes, Urma/Init, Urma/Context, Urma/Cq, Urma/Jetty, Urma/Post, Urma/Seg,
--   Urma/Peer, Urma/Cap, Urma/Device
--                   src/urma.rs: Eid, JettyId, SegDesc; TransMode, TpType; Urma::init and the
--                   drop of its guard; Context; CompletionQueue; Jetty and its post_ functions;
--                   RegisteredSeg, PageBuf, LocalSge; Peer; DeviceCap; list_devices and
--                   query_device
--   Urma/Release    which C objects and buffers are held after a trace
--   Common          examples/common/mod.rs: fill_msg, cstr_len, PeerDesc, check_loopback,
--                   import_peer, check_mode_support, UrmaRes; Common/Http has send_retry,
--                   json_retry and exchange_desc, Common/Scope what a use of a peer gives back
--   Lookup/Master   examples/urma_lookup.rs, m_register: a reservation by fetch_add and a later
--                   push, as steps that handlers of several clients interleave
--   Lookup/System   m_ready, m_done and run_master with their two barriers: the steps of the master
--                   and of its clients, each at a stage of run_client
--   Lookup/Client   examples/urma_lookup.rs: UrmaTransport, and the test for own records
--   Lookup/Records  the records that a client writes, and the data service hook_record
--   Lookup/Flow     the trait Transport as a record of its operations, run_client over any of them,
--                   Args::validate
--   Lookup/Hook     the two impls of Transport: TcpHookTransport and UrmaTransport
--   Pingpong        examples/urma_pingpong.rs: wait_cr, echo_round, the data plane of the client,
--                   the handlers, Args::validate; Pingpong/Client has client_run
--   Hello           examples/urma_hello.rs: the handlers, the end of server_run, client_run with
--                   ensure_resources, the client task of combined; Hello/Fetch has its READ
--   Cli             examples/urma_cli.rs: Preflight (also of the benchmark), the descriptor line
--                   (Hex, Reader, Desc), serve and read (Run)
--   Bench/Ops, Bench/Pass
--                   examples/urma_bench.rs: the assignment of ops to jetties, windows and groups,
--                   and bw_pass: filling a list, posting, fences, reaping. A vector with one
--                   element for each jetty is a function of the index
--   Bench/Sizes, Bench/Limits, Bench/Pattern, Bench/Desc, Bench/Run
--                   examples/urma_bench.rs: sizes, limits, the data pattern, the descriptor with
--                   several blobs, serve-urma, read-urma and write-urma
--   Bench/Tcp       serve_tcp_run, read_tcp_run and connect_retry over connections of std, which are
--                   a record of their operations; Tcp/Pipe is one that loses nothing
--   Tests           a concrete library, runs, and the theorems at concrete inputs
-- Below a part, the modules Laws, Chain, Single, Bounds, Layout, Handles, Ranges, Range, Reads,
-- Create, Import, Drop, Scope, RoundTrip, Rank, Windows, Sums, Invariant, Reaping, Posting, Loop,
-- Exact, Serial, Release, Queue, Start, Whole, Stages, Counts, Barriers, Promises, Halted, Progress,
-- Stuck, Memory, Served, Planned, Complete, Composed, Retry, Quiet, Wait, Posts, Published, Bye,
-- Requests, Rounds and Failure hold its theorems.
--
-- How the program is written down. Pointers are numbers and 0 is NULL. A struct is a record, a
-- value of w bits is a number with its wrap written out. A handle is the index of its box, clone
-- and drop change the strong count, and the drop of the last handle makes the calls of the Drop
-- impl and then drops the fields in their order. An operation is a function from the world to its
-- result and the world afterwards, so that what it changed stays changed when it fails. Loops are
-- structural: the polls of wait_read count down from POLL_RETRIES and the tries of import_peer
-- from IMPORT_RETRIES, which are the bounds of the code itself. Requests.walk takes fuel; one
-- more than the number of requests is enough, as the theorems on it state. The posting loop of
-- bw_pass has fuel one above the depth, which is enough, as its theorem states; the rounds of its
-- outer loop are a parameter, and using them up is a result of its own. A doubling sweep has fuel
-- 64, as a usize doubles no more often. A clock is a parameter that answers by the number of the
-- reading. Sums of two u64 or u32 wrap, as in a release build.
--
-- Parameters, for code that is not part of the repository. The client of reqwest (Common.Http.Http)
-- is a function from the requests sent so far and the next one to a reply: an answer, a refused
-- connection, or another error. tokio::sync::Barrier is a record of two functions that tell how many
-- calls of wait may have returned and which of them is the leader's (Lookup.System.Barrier);
-- IsBarrier is what its documentation promises for one round. The bind of a socket is its outcome,
-- and a connection of std a record of its operations (Bench.Tcp.Stream).
-- The retries of send_retry, and the loop of urma_hello that asks for the descriptor, have no bound
-- in the code: they have fuel, and none is the result of a run that does not return. Fuel for one
-- try more than are refused is enough for send_retry, as its theorem states. In Lookup.System a
-- client may fail at work (an error of its transport, a missing owner, a register message that the
-- master refuses): it then leaves without a word to the master, as run_client does, and the others
-- go on until a barrier holds them. Requests that break while the master works on them, and a
-- reservation that would wrap the counter, are no steps there.
--
-- Not modelled: the bytes of registered buffers (those of the hook transport are), the texts of
-- Display impls, prints and logging, layout of C structs beyond the offsets used, clap, the routes
-- of axum and reqwest itself, the interleaving of the two tasks of one process in urma_hello and
-- urma_pingpong, statistics in floating point, the list subcommand of urma_cli, and the example
-- list_devices.
pub mod Base
pub mod Error
pub mod Ffi
pub mod Urma
pub mod Common
pub mod Lookup
pub mod Pingpong
pub mod Hello
pub mod Cli
pub mod Bench
pub mod Tests
