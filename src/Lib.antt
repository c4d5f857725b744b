-- ===== src/Lib.antt =====
-- This library models the core of simple-gnomon, an indexer for the contracts of the DERO chain:
-- the store of db/bbolt.go and the stages of pkg/ that fill it. The indexer walks over the
-- heights of the chain, asks a daemon for blocks and transactions, sorts the transactions by
-- type, classifies contracts by terms in their code, and hands contracts and miniblocks to two
-- writers, which call the store. The store keeps everything in buckets of a bbolt database.
--
-- The files and the parts that they model:
--
-- - Prelude (Tests, Lists, Int, Bytes, Assoc, Keys): shared names; lists and integers over the
--   native numbers; texts as lists of bytes; Go maps as association lists; the order of keys.
-- - Go (Strconv, Strings, Sort, Json): what the program uses of Go's strconv, strings, sort and
--   slices. JSON is a codec, a parameter; a theorem that reads back what was written has the
--   hypothesis that the codec does so (Exact, ReadsBack).
-- - Bolt (Update, Memory): bbolt as an interface, a record of operations with laws, which is a
--   parameter of the store; its transactions, which keep the old database on an error; and a
--   small engine in memory that satisfies the laws, for the tests.
-- - Globals and Structs: names of globals/globals.go and records of structs/structures.go.
-- - Store: BboltStore of db/bbolt.go, a record with the database and the flags. A method that
--   writes is a function to the new store, `changes` and the error. Store/Stats has
--   StoreLastIndexHeight to GetTxCount; Store/Owner StoreOwner and the listings of contracts,
--   classes and tags; Store/NormalTx, Store/Invoke and Store/Daemon the methods on transfers,
--   invocations and answers of the daemon; Store/Variables the snapshots of variables and their
--   merge; Store/Queries the searches by key, by value and by address; Store/Interaction the
--   interaction heights; Store/Indexing AddSCIDToIndex. The children of these files hold their
--   theorems.
-- - Store/Spec: what the store promises to a client that writes owners, interactions, counts and
--   heights, as five maps; its children compare the calls of the store with changes of the maps.
-- - Connections: Daemon models callRPC and handleResult of connections/daemon_rpc.go; Ws the
--   dispatch, the cases and the responses of connections/ws_server.go (Methods, Cases); Api the
--   handlers, the statistics and the routes of connections/api.go (Server, Chain, Contracts,
--   Router). Setup bundles the parameters of the store, Values has what replies may hold, and
--   Agreement puts the two servers side by side.
-- - Start: Flags models parseFlags of pkg/flags.go, Filters and Backend set_up_backend of
--   pkg/backend.go, Launch what Start_gnomon_indexer of pkg/gnomon.go computes.
-- - Indexer/Heights: a round of height_handling in pkg/handling_heights.go. Indexer/Blocks:
--   handle_height_task, and work_on_blocks and work_on_minis of pkg/handling_blocks.go.
--   Indexer/Batches and Indexer/Transactions: operate_on_staged_tx, batching and handle_tx of
--   pkg/handling_txs.go. Indexer/Scids: work_on_scids of pkg/handling_scids.go, with the class
--   and tags in Indexer/Classify. Indexer/Variables, Indexer/Headers and Indexer/Helpers:
--   pkg/helpers.go. Indexer/Fastsync: what fastsync_handling of pkg/handling_fastsync.go
--   prepares, and its task. Indexer/Counting and Indexer/ScidWriter: mini_db_writer and
--   scid_db_writer of pkg/db_writer.go.
-- - Tests: concrete runs, and each theorem at a concrete input.
--
-- How the parts interact: handle_height_task fetches a block, work_on_blocks puts its
-- transactions and miniblocks into the next queues, the batches ask for the transactions,
-- handle_tx counts them and hands contracts on, work_on_scids makes a stage of each, and the
-- writers put stages and miniblocks into the store, from which the two servers answer. A queue
-- is a list, and a step that sends to it puts an element at its end.
--
-- A panic is `none` or an outcome of its own. An int64 is an integer; a theorem has the range as
-- a hypothesis where it matters, and `++` and the difference in a round of heights wrap around.
-- The largest channel that Go's runtime can make is a parameter (`max_size`). All loops are over
-- lists or over a counted number of rounds, but for the repetition of a daemon's call, which
-- runs on fuel for five requests; call_rpc ends within it. The order in which Go visits a map is
-- a parameter (`visit`), and so are derohe's transactions (Derohe) and the conversion of
-- floating point numbers.
--
-- Not modelled: goroutines and channels, beyond the order of what they process; listeners,
-- timers, sockets to a wallet and certificates; the opening and backing up of database files;
-- ValidateSCSignature, which is a parameter; and printing.
pub mod Prelude
pub mod Go
pub mod Bolt
pub mod Connections
pub mod Globals
pub mod Structs
pub mod Start
pub mod Store
pub mod Indexer
pub mod Tests
