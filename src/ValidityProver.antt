-- ===== src/ValidityProver.antt =====
-- validity-prover/src: the service that follows the rollup contract and keeps its Merkle trees.
pub mod Versions
pub mod MerkleTree
pub mod IndexedMerkleTree
pub mod Blocks
