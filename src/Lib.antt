-- ===== src/Lib.antt =====
-- The verification library of intmax2, the services and the client of a stateless rollup.
--
-- The parts. Clients send transactions to a block builder (block-builder), which collects them into
-- blocks, hands out proposals, collects signatures and fees, and posts blocks to the rollup contract.
-- A client (client-sdk) works out from the data of the store vault and the validity prover in which
-- order to incorporate what it has received and sent. The validity prover (validity-prover) keeps
-- the account, block and deposit trees, at every timestamp, in SQL tables, and proves from them.
-- Provers hand work to workers over a task manager in Redis (server-common). The records that they
-- exchange are in interfaces.
--
-- The files.
--   Base: Boolean tests, lists, results, hash maps, ordered sets, stable sorting and searching.
--   Zkp: the crate intmax2-zkp (circuits, trees, signatures), which is not in the repository: its
--     types and functions are parameters, with the law TreeIsComplete that a transaction tree opens
--     at its own leaves.
--   Interfaces: interfaces/src/data/transfer_data.rs and interfaces/src/api/block_builder.
--   BlockBuilder.NonceManager: block-builder/src/app/storage/nonce_manager (common.rs and
--     memory_nonce_manager.rs): reserve_nonce, release_nonce, smallest_reserved_nonce, sync_onchain.
--   BlockBuilder.Types: block-builder/src/app/types.rs: from_tx_requests, get_proposal,
--     get_account_ids.
--   BlockBuilder.BlockPost: block-builder/src/app/block_post.rs: the task and from_memo.
--   BlockBuilder.Fee: block-builder/src/app/fee.rs: validate_fee_proof, collect_fee.
--   BlockBuilder.Storage: block-builder/src/app/storage/memory_storage.rs: every method of the trait
--     Storage, on one record of what the locks protect, as a function to the result and the new state.
--   BlockBuilder.Posting: block-builder/src/app/block_post.rs: post_block, with its two waits.
--   Client.Balances: Balances of interfaces/src/data/user_data.rs.
--   Client.Strategy: client-sdk/src/client/strategy/strategy.rs: determine_sequence and
--     collect_receives.
--   Client.Fetch: the fetch functions of client-sdk/src/client/strategy (common.rs, deposit.rs,
--     transfer.rs, tx.rs, withdrawal.rs), which sort what the store vault holds into settled, pending
--     and timed out data, page by page.
--   Client.Mining: client-sdk/src/client/strategy/mining.rs, and determine_claims and
--     determine_withdrawals of strategy.rs.
--   Client.FeePayment: client-sdk/src/client/fee_payment.rs.
--   ValidityProver.Versions: a table that keeps a value for each timestamp and key, as an interface
--     whose laws say what the SQL statements select, store and delete.
--   ValidityProver.MerkleTree: validity-prover/src/trees/merkle_tree/sql_node_hash.rs and
--     sql_incremental_merkle_tree.rs: update_leaf, push, prove, get_root, reset, over those tables.
--   ValidityProver.IndexedMerkleTree: validity-prover/src/trees/merkle_tree/
--     sql_indexed_merkle_tree.rs: index, low_index, insert, prove_and_insert, prove_and_update,
--     prove_membership, initialize, over the same tables.
--   ValidityProver.Blocks: validity-prover/src/trees/update.rs: update_trees, with the loops over the
--     senders of a block.
--   TaskManager: server-common/src/redis/task_manager.rs, over an interface to Redis whose laws state
--     the documented behaviour of the commands; the atomic commands are the steps of a relation.
--   Toy: a small instance of Zkp and sample data for the modules named Examples.
--
-- The conventions. A function that can fail gives a Result, and a panic is an error value; a method
-- gives what it leaves behind also when it fails, but for the operations on the trees, each of which
-- is one database transaction, and update_trees, where the trees of a failing call are left out. u32
-- and u64 additions wrap as in the release profile. U256 values, hashes, addresses and keys are
-- numbers, and U256 sums are taken not to overflow. In the tables of the trees, lengths are taken to
-- fit an i32, and positions and timestamps an i64, so that the casts to those types and back keep
-- them. Loops run over lists, but for two that a server
-- ends: the wait for the penalty fee (Posting) and the pages of the store vault (Fetch) take fuel,
-- which is the number of rounds or of pages that are looked at, and is enough when the fee falls, or
-- a page is the last, before it ends. The clock, random choices, fresh ids and the answers of
-- contracts and servers are arguments; where a method sleeps, what the other tasks do meanwhile is an
-- argument too. Logging is left out.
--
-- Not modelled: the Redis storage of the block builder and its HTTP layer; of the validity prover,
-- the observer, to_block_witness and the HTTP layer, a failing database, the methods of the
-- tree traits, which wrap the operations in transactions, and get_last_timestamp of the incremental
-- tree; of the client, the sync of user data, the waits for the validity prover and the calls of the
-- servers; the balance prover, the withdrawal and store vault servers, the job servers, the command line
-- and the WebAssembly bindings; the expiry of tasks and results in Redis, and clear_all. The expiry of a
-- heartbeat is modelled.
pub mod Base
pub mod Zkp
pub mod Interfaces
pub mod BlockBuilder
pub mod Client
pub mod TaskManager
pub mod ValidityProver
pub mod Toy
