-- ===== src/ValidityProver/Blocks.antt =====
-- validity-prover/src/trees/update.rs: what a block does to the block tree and the account tree. The
-- trees that a failing call leaves behind are left out.
pub mod Registration
pub mod Updating
pub mod BlockTree
pub mod Trees
pub mod AccountUpdates
mod Examples
use intmax.Base.{
  ℕ, ◌%◌, Bool, true, false, not, ◌&&◌, List, [], ◌∷◌, Option, none, some, Result, ok, err, Panic,
  ◌>>=◌, ◌==◌, guard, map_err, ok_or, if◌then◌else◌, u32_mod,
}
use intmax.ValidityProver.MerkleTree
use intmax.ValidityProver.MerkleTree.{TreeEnv, MerkleTree, MerkleTreeError}
use intmax.ValidityProver.IndexedMerkleTree
use intmax.ValidityProver.IndexedMerkleTree.{
  IndexedEnv, IndexedInsertionProof, UpdateProof, Tree, index, get_leaf, prove_and_insert,
  prove_and_update,
}

-- `SenderLeaf` of the crate intmax2-zkp.
pub record SenderLeaf : Type 0 where
  pub sender : ℕ
  pub signature_included : Bool

-- The public inputs of the main validation, as far as they are read here.
pub record MainValidationPublicInputs : Type 0 where
  pub block_number : ℕ
  pub is_valid : Bool
  pub is_registration_block : Bool

pub data UpdateError : Type 0 where
  failed_to_convert : UpdateError
  block_number_mismatch : (witness block_tree_len : ℕ) → UpdateError
  tree_error : MerkleTreeError → UpdateError
  panicked : Panic → UpdateError

abbrev pub of_tree : {A : Type 0} → Result MerkleTreeError A → Result UpdateError A
of_tree r = map_err tree_error r

module _ (e : IndexedEnv) (height : ℕ) where
  open e use {Hash, dummy_pubkey}

  abbrev pub will_update : SenderLeaf → Bool
  will_update sender_leaf =
      sender_leaf.signature_included && not (sender_leaf.sender == dummy_pubkey)

  -- The loop of a registration block, with `AccountRegistrationProof::dummy`.
  pub register_all :
      IndexedInsertionProof Hash
      → (timestamp block_number : ℕ) → List SenderLeaf
      → Tree e
      → Result UpdateError (Tree e × List (IndexedInsertionProof Hash))
  register_all dummy timestamp block_number [] s = ok (s, [])
  register_all dummy timestamp block_number (sender_leaf ∷ sender_leaves) s = do
    after ←
        (if will_update sender_leaf
          then of_tree (prove_and_insert e height timestamp sender_leaf.sender block_number s)
          else ok (s, dummy))
    rest ← register_all dummy timestamp block_number sender_leaves after.0
    ok (rest.0, after.1 ∷ rest.1)

  -- The loop of any other block.
  pub update_all :
      (timestamp block_number : ℕ)
      → List SenderLeaf
      → Tree e
      → Result UpdateError (Tree e × List (UpdateProof Hash))
  update_all timestamp block_number [] s = ok (s, [])
  update_all timestamp block_number (sender_leaf ∷ sender_leaves) s = do
    found ← of_tree (index e timestamp sender_leaf.sender s)
    account_id ← ok_or found (panicked Panic.unwrap_none)
    let prev_last_block_number = (get_leaf e height timestamp account_id s).value % u32_mod
    let last_block_number =
        if sender_leaf.signature_included then block_number else prev_last_block_number
    after ← of_tree (prove_and_update e height timestamp sender_leaf.sender last_block_number s)
    rest ← update_all timestamp block_number sender_leaves after.0
    ok (rest.0, after.1 ∷ rest.1)

-- `BlockWitness` of the crate intmax2-zkp and what it computes; the sender leaves are those of
-- `get_sender_leaves`, and `to_validity_pis` succeeds or not.
pub record WitnessEnv (e : IndexedEnv) (b : TreeEnv) : Type 1 where
  pub BlockWitness : Type 0
  pub to_main_validation_pis : BlockWitness → Option MainValidationPublicInputs
  pub block_number : BlockWitness → ℕ
  pub block_hash : BlockWitness → b.Leaf
  pub get_sender_leaves : BlockWitness → List SenderLeaf
  pub dummy_registration_proof : IndexedInsertionProof e.Hash

module _ (e : IndexedEnv) (b : TreeEnv) (w : WitnessEnv e b) where
  open w use {BlockWitness}

  pub record ValidityTransitionWitness : Type 0 where
    pub sender_leaves : List SenderLeaf
    pub block_merkle_proof : List b.Hash
    pub account_registration_proofs : Option (List (IndexedInsertionProof e.Hash))
    pub account_update_proofs : Option (List (UpdateProof e.Hash))

  module _ (height block_height : ℕ)
      (to_validity_pis : BlockWitness → ValidityTransitionWitness → Bool) where
    abbrev pub with_proofs :
        {P : Type 0}
        → Bool
        → Tree e
        → Result UpdateError (Tree e × List P)
        → Result UpdateError (Tree e × Option (List P))
    with_proofs applies s run = if applies then (run >>= λ r. ok (r.0, some r.1)) else ok (s, none)

    -- The account tree and the block tree after a block, and the witness of the transition.
    pub update_trees :
        BlockWitness
        → (timestamp : ℕ) → Tree e
        → MerkleTree b
        → Result UpdateError (Tree e × MerkleTree b × ValidityTransitionWitness)
    unfolding register_all update_all
    update_trees block_witness timestamp account_tree block_tree = do
      pis ← ok_or (w.to_main_validation_pis block_witness) failed_to_convert
      let block_tree_len = MerkleTree.len b block_height timestamp block_tree
      _ ←
          guard (pis.block_number == block_tree_len % u32_mod)
            (block_number_mismatch pis.block_number block_tree_len)
      block_merkle_proof ←
          of_tree
            (MerkleTree.prove b block_height timestamp (w.block_number block_witness) block_tree)
      pushed ←
          of_tree (MerkleTree.push b block_height timestamp (w.block_hash block_witness) block_tree)
      let leaves = w.get_sender_leaves block_witness
      let registers = pis.is_valid && pis.is_registration_block
      let updates = pis.is_valid && not pis.is_registration_block
      registered ← with_proofs registers account_tree (
          register_all e height w.dummy_registration_proof timestamp pis.block_number leaves
            account_tree)
      updated ←
          with_proofs updates registered.0
            (update_all e height timestamp pis.block_number leaves registered.0)
      let witness : ValidityTransitionWitness = record {
        sender_leaves = leaves;
        block_merkle_proof = block_merkle_proof;
        account_registration_proofs = registered.1;
        account_update_proofs = updated.1;
      }
      _ ← guard (to_validity_pis block_witness witness) failed_to_convert
      ok (updated.0, pushed, witness)
