-- ===== src/Lib.antt =====
-- VulcanizeDB extracts ethereum and bitcoin data, stores it in Postgres and IPFS, and serves it to
-- subscribers. This library models the parts of it that decide what is stored and what is sent.
--
-- The parts and where they are modelled:
--
-- * Prelude, Go. Numbers, lists, maps as association lists, and Go's call that returns, fails or
--   panics (Result). A Go map is a list in the order in which `range` visits it.
-- * Heights. libraries/shared/utilities/utils.go: GetBlockHeightBins cuts a range of blocks into
--   batches, MissingHeightsToGaps joins heights into gaps; the super node's backfill is driven by
--   both. uint64 arithmetic is written out modulo 2 ^ 64. The loop variables get fuel: the inner
--   loop of a bin the distance to its end, the outer loop the number of bins, and neither is longer.
-- * Chain. pkg/super_node/shared/chain_type.go and data_type.go: the enumerations and their names.
-- * Eth and Btc. pkg/super_node/eth/filterer.go and pkg/super_node/btc/filterer.go: Filter answers
--   one block by a client's settings (SubscriptionSettings). Checks has the tests on one transaction,
--   receipt or node, Filterer the loops. Hashing, RLP and CIDs are parameters.
--   Retriever is cid_retriever.go of each package: what the WHERE clause that the code writes says of
--   a row, and Retrieve over the rows that a query starts from. Retriever/Gaps is RetrieveGapsInData on
--   the table of headers. Cleaner is cleaner.go: DELETE statements on tables that are lists of rows,
--   with their joins and foreign keys.
--   Eth/Indexer is indexer.go: the tables that Index writes (Store), its INSERT statements with what they
--   do on a conflict, and Index as one database transaction whose statements the database may refuse.
--   Eth/Converter is converter.go: the loops of Convert over a decoded block. Eth/Publisher is publisher.go
--   with FromBlockAndReceipts of pkg/ipfs/ipld/eth_parser.go: the nodes of a block, and Publish, whose
--   result is what Index takes (CidPayload). Eth/Indexer/Combined is publish_and_indexer.go, which does both
--   in one database transaction. Btc/Indexer is indexer.go of the other package.
-- * Sql. The rows, joins and transactions that the cleaners of both chains share.
-- * Backfill. pkg/super_node/backfiller.go and pkg/super_node/resync/service.go: the batches that a
--   tick of BackFill or a Resync sends to the workers (backfill_round, resync), which call Heights, the
--   retriever and a Cleaner, and what a worker does with a batch (backfill_section, resync_section).
-- * Watcher. pkg/watcher/service.go: the start of Watch (watch), and combinedQueuing, whose goroutines
--   are steps on one state (receive, tick), with their sends on the channels QuitChan and forwardQuit
--   (quit, interrupt, forward_quit) and the queue of pkg/watcher/eth/repository.go.
-- * Service. pkg/super_node/service.go: the maps Subscriptions and SubscriptionTypes are the record
--   State; Subscribe, Unsubscribe, filterAndServe, close and closeType are functions on it
--   (subscribe, unsubscribe, filter_and_serve, close, close_type) that also return the non-blocking
--   sends that they attempt. What a chain supplies is the record Components; Service/EthClient fills
--   it with Eth. Service/Reachable has the handlers as a step relation, and Service/Sync the channel
--   between Sync and the publishAndIndex workers. The backfill of a subscriber runs for as many
--   steps as there are blocks in its range (runs).
-- * Logs. libraries/shared/chunker, libraries/shared/logs and libraries/shared/watcher's event
--   watcher: logs are extracted header by header (extract_logs), given to transformers by address
--   and topic (chunk_logs) and transformed (delegate_logs). A Run is the trace of database writes
--   with the result, so that a run that fails shows what it left behind.
-- * Storage. libraries/shared/storage/utils/decoder.go and libraries/shared/watcher/storage_watcher.go:
--   the decoding of packed slots, and the queue of diffs that could not be transformed.
-- * Headers. pkg/eth/datastore/postgres/repositories: header_repository.go and
--   checked_headers_repository.go as functions on the table of headers, and PopulateMissingHeaders of
--   pkg/eth/history run on that table (populate). History has the same loop over an abstract
--   repository.
-- * History. pkg/eth/history: filling in missing headers, and the validation window.
-- * Rewards. pkg/eth/converters/common/block_rewards.go: the rewards of blocks and uncles.
--
-- Handlers interact through calls only: the mutex of the super node makes each handler one step, and
-- goroutines that wait on channels are modelled by what they do with one message. Sends are attempts,
-- since every send to a client has a default case. Only in Watcher do goroutines interleave.
--
-- Not modelled: the command line, configuration and plugins, the RPC and database connections, the SQL
-- of the other repositories, the retrievers' reads of a single block, the bitcoin converter
-- and publishers, the fetchers, the codecs of IPFS, the contract watcher, the storage backfiller, the
-- watcher service's Init, logging, and the scheduling of the other services' goroutines with their quit
-- signals. The parts that are called are parameters with no property assumed beyond what a theorem names.
pub mod Backfill
pub mod Btc
pub mod Chain
pub mod Eth
pub mod Go
pub mod Headers
pub mod Heights
pub mod History
pub mod Ipfs
pub mod Logs
pub mod Prelude
pub mod Rewards
pub mod Service
pub mod Sql
pub mod Storage
pub mod Watcher
