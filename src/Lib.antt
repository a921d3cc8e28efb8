-- ===== src/Lib.antt =====
-- The core of the Sarafu node: state, consensus, network messages and the guard of its RPC server.
--
-- The program. A node keeps accounts, executes blocks of transactions on them, pools transactions
-- that wait for a block, and agrees on blocks with the other validators: votes are collected into
-- quorum certificates, and at every epoch the registry chooses the validators anew by their stake.
-- The state machine owns the account manager, and shares it with the executor; the mempool reads
-- it. A detector reports validators that vote twice, and slashes them in the registry; a governance
-- module keeps proposals on the parameters. Peers send each other messages, which handlers decode, and
-- lose their reputation by what cannot be decoded. Blocks carry a certificate for their parent. Roots
-- of accounts and validators are roots of Merkle trees over the hashes of their bytes. A builder makes
-- the genesis block, from which the state machine starts.
--
-- Which file models what:
--   Base            lists, maps in key order (std::map), 64-bit arithmetic, Boolean tests.
--   Codec           bytes in both orders, and decoders, which return none where the source throws.
--   Crypto          the primitives as parameters; Crypto.Merkle is src/crypto/merkle_tree.cpp.
--   State.Types     include/sarafu/state/account.h, transaction.h.
--   State.Codec     serialize and deserialize of src/state/account.cpp, transaction.cpp.
--   State.Accounts  src/state/account_manager.cpp: the map of accounts is the whole state.
--   State.Validator, State.Messages  src/state/transaction_validator.cpp and its error texts.
--   State.Executor  src/state/transaction_executor.cpp: accounts and the two fee counters.
--   State.Machine   src/state/state_machine.cpp; `process_transaction` is its execute_transaction.
--   State.Mempool   src/state/mempool.cpp: the account queues, the fee index, the pool.
--   Consensus.Types, Consensus.Codec  block.h, validator.h; src/consensus/block.cpp, validator.cpp.
--   Consensus.ValidatorSet  the lookups and the order of src/consensus/validator.cpp.
--   Consensus.Votes        src/consensus/vote_aggregator.cpp.
--   Consensus.Certificate  src/consensus/qc_verifier.cpp.
--   Consensus.Registry     src/consensus/validator_registry.cpp, its slashing,
--                          epoch transitions and rewards in its modules of these names.
--   Consensus.Engine       src/consensus/consensus_engine.cpp: the engine reads the registry's set and
--                          the pool, and owns the aggregator, the blocks and the heights.
--   Consensus.Slashing     src/consensus/slashing_detector.cpp, on the registry.
--   Consensus.Checkpoint   src/consensus/checkpoint_manager.cpp.
--   Consensus.LightClient  src/consensus/light_client.cpp.
--   Consensus.BlockValidator  src/consensus/block_validator.cpp.
--   Consensus.Genesis      src/consensus/genesis_builder.cpp.
--   State.Governance       src/state/governance_module.cpp.
--   Network.Messages       the messages of src/network/message_handler.cpp, and NetworkMessage of
--                          src/network/network_layer.cpp.
--   Network.Dispatch       MessageHandlerRegistry of src/network/message_handler.cpp.
--   Network.Layer          the peers, bans and seen messages of src/network/network_layer.cpp.
--   Rpc.RateLimiter        src/rpc/rate_limiter.cpp.
-- Operations have the names that they have in the source; a loop or a part of an operation that
-- stands alone says so. The children of a module prove what their names say, and Tests hold
-- concrete runs.
--
-- Conventions. A number of w bits is a natural number, and its arithmetic is written with the
-- wrap-around of the source. Addresses, hashes, keys and signatures are the numbers that their bytes
-- spell, highest byte first, which is the order that the source compares them in. A C++ exception,
-- like std::nullopt, is `none`. The clock, an account manager behind a pointer, and the keys of
-- signers are arguments. All loops are structural recursion; the Merkle tree halves its level, and
-- takes the number of leaves as fuel, which its proofs show to be enough; decimal numbers in error
-- texts have at most 20 digits.
--
-- Parameters: BLAKE3, Ed25519 and BLS12-381 (Crypto.Primitives); SHA-256; doubles: in governance their
-- conversions, division and comparisons, elsewhere what is computed on them, which is the comparison of
-- the signing rate with the downtime threshold, the penalty formula, and the shares of the genesis
-- supply; random tokens and the random order of peers; the handlers of messages. Nothing is assumed of
-- them but what a theorem names: that BLS aggregates of honest signatures verify, that doubles are
-- rounded as IEEE 754 says, that hashes have 32 bytes, that handlers leave the seen messages alone.
--
-- Not modelled: the consensus loop, the broadcasts of the engine, fee market, monetary policy
-- and synchronization; the sockets, addresses, start and stop of the network, the
-- RPC servers, storage, command line, configuration, logging and monitoring, which are input and
-- output.
pub mod Base
pub mod Codec
pub mod Crypto
pub mod Network
pub mod Rpc
pub mod State
pub mod Consensus
