-- ===== src/Lib.antt =====
-- Verification of ShadowLedger's node: the ledger and the rules that every node must compute alike.
--
-- The program is a storage-backed chain. A block (internal/types) carries transactions, which
-- `State.ApplyBlock` (internal/state) applies in order: transfers, contract deployments and calls,
-- validator registration and exit, slashing, faucet claims and storage proofs. Contract calls run on a
-- stack machine (internal/vm) that calls back into the state for nested calls. The coinbase is checked
-- against the emission schedule (internal/economy). The chain (internal/chain) checks, applies and
-- stores blocks, follows the heaviest branch of the block tree (internal/forkchoice), makes old blocks
-- final, and keeps of each body only the erasure shards (internal/erasure) that rendezvous hashing
-- (internal/rendezvous) assigns to the node.
--
-- Prelude     shared names, lists over native numbers, association maps, 64-bit words
-- Economy     internal/economy/economy.go: the constants and `BlockReward` (block_reward)
-- Crypto      internal/crypto/crypto.go: addresses and signature checks
-- Types       internal/types/tx.go, block.go, logs.go: Data (the structs), Encode (signing bytes, hashes,
--             EncodeTxs), Sign (Sign, VerifySig), Roots, Decode (DecodeTxs, DecodeLogs), RoundTrip,
--             LogRoundTrip
-- Pow         internal/regpow/regpow.go and internal/faucet/faucet.go: the two puzzles' Hash and Verify
-- Vm          internal/vm/vm.go: Opcodes (constants, gasCost), Stack (push, pop, binop, word), Frame
--             (Context, Result and the loop's variables), Step (the cases of the switch: exec_op; one turn:
--             turn), Run (the loop: run, ExecuteB: execute_b), Invariant (induction over the loop), Bounds,
--             Arith, Jumps and World (theorems)
-- State       internal/state/state.go: Data (the structs), Ledger (acct, snap, rollback), Contract
--             (execContract, vmHost.Call), Effects (the errors), Payment (transfer, deploy, call), Registry
--             (register, unregister, slash), Proofs (faucet, storage proof), Apply (ApplyBlock, CheckTx);
--             Money, Confine, Intact, Execution and Tracked hold the lemmas; Atomic (rollback) and Solvent
--             (money) the theorems; Admission compares CheckTx with ApplyBlock; Access (setters,
--             StorageWeights, ActiveValidators, Clone, ReplaceWith, QueryContractRaw) and Copies
-- Merkle      internal/merkle/merkle.go: Tree (Root, Proof, Verify), Inclusion
-- Netparams   internal/netparams/netparams.go: Spec and Replication
-- Forkchoice  internal/forkchoice/forkchoice.go: Tree (Add, Best, less), Order, Best
-- Mempool     internal/mempool/mempool.go: Pool (Submit, Reap, Remove), Batch and Runs (theorems)
-- Consensus   internal/consensus/consensus.go: Election (validatorSet, LeaderFor), Authorize, Member
-- Erasure     internal/erasure/erasure.go: Encode, Reconstruct, BuildShardSet, VerifyShard; RoundTrip
-- Rendezvous  internal/rendezvous/rendezvous.go: Holders, IsHolder, AssignedShards; Ranking
-- Banlist     internal/p2p/banlist.go: Strike, Banned, Snapshot; Bans
-- Chain       internal/chain/chain.go and reorg.go over internal/store/store.go: Data (the structs, the
--             store's files as maps), Persist (persistBlockSet, persistLogs, recordBlock), Query (the
--             reads: reconstructShards, ReconstructBody, Logs, VerifyAvailable), Live (the callbacks
--             of internal/node/node.go), Walk (walkDown, the replay), Finality (advanceFinality, SetCheckpoint), Extend (ApplyExternalBlock,
--             ProduceBlock), Reorg (AcceptBlock, reorgToBest), Sync (SyncInstall, IsForgery), Origin
--             (Genesis, New); Linked, Heights, Floor, Blocks, Grow, Forward, Follow, Accept,
--             Authentic, External, Joined, Forgery, Made and Produced hold the theorems
-- Shl         internal/shl: Ast (parser.go's syntax trees), Lexer (lex), Gen (gen and its labels), Code
--             (expr, stmt), Compile (Compile past Parse, dispatch), Estimate; Grows, Sound, Program and
--             Tokens hold the theorems; the parser is not modelled
-- Tests       runs on concrete inputs
--
-- SHA-256 and Ed25519 are the fields of `Env`, the Reed-Solomon library is `Coder`; the JSON decoder of
-- slashing evidence is the parameter `EvidenceDecoder`; the chain's callbacks (anchors,
-- shards) are fields of `Config`, as in the source, and are bound again to the store (Chain.Live) where a
-- fast-forward, a replay or the advance of finality runs blocks after the store was written.
--
-- A Go string or slice of bytes is a list of numbers, a uint64 a native number with its wrap-around
-- written out, an int the same bit pattern. A map is an association list. Contract storage is the
-- number-keyed map that the machine works on; its decimal-string JSON form, files, locks and the network
-- are not modelled. A panic is an outcome of its own (crash, panicked, crashed, aborted).
--
-- The machine's loop recurses on the steps that maxSteps leaves, so its fuel is the source's own limit.
-- Nested calls recurse on 8 levels, the source's maxDepth: the machine itself refuses a call at depth 8
-- before it asks the host, so the ninth level is never reached. The walks over the block tree have two
-- turns more than the height of their first block, which is enough where heights follow the parent links;
-- a walk that goes on past them is an outcome of its own (endless). The lexer's loop has a turn
-- more than there are characters, since every token but the last takes one.
--
-- A chain's files are maps, and whether a header is written is a field of `Node`; other writes, whose
-- errors the code drops, succeed. The Bloom filter of held shards, which the chain only adds to, the
-- locks, peers, commands, wallets and the contract language's parser are not modelled.
pub mod Prelude
pub mod Economy
pub mod Crypto
pub mod Merkle
pub mod Netparams
pub mod Types
pub mod Erasure
pub mod Rendezvous
pub mod Banlist
pub mod Pow
pub mod Vm
pub mod State
pub mod Forkchoice
pub mod Mempool
pub mod Consensus
pub mod Chain
pub mod Shl
pub mod Tests
