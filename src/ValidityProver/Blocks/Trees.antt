-- ===== src/ValidityProver/Blocks/Trees.antt =====
-- validity-prover/src/trees/update.rs: update_trees for a block that registers its senders.
use intmax.Base.{
  ℕ, ◌^◌, ◌%◌, ◌≡◌, ◌<◌, ◌≤◌, refl, Bool, true, List, none, some, ok, ==_iff, Bool-cases, inl, inr,
  err, if◌then◌else◌, u32_mod,
}
use intmax.ValidityProver.MerkleTree
use intmax.ValidityProver.MerkleTree.{TreeEnv, MerkleTree}
use intmax.ValidityProver.MerkleTree.Nodes.{TreeLaws}
use intmax.ValidityProver.MerkleTree.Proofs.{root_from}
use intmax.ValidityProver.MerkleTree.History.{History}
use intmax.ValidityProver.IndexedMerkleTree.{IndexedEnv, IndexedInsertionProof, Tree}
use intmax.ValidityProver.IndexedMerkleTree.Growth.{IndexedLaws}
use intmax.ValidityProver.IndexedMerkleTree.History.{IndexedHistory}
use intmax.ValidityProver.Blocks.{
  MainValidationPublicInputs, WitnessEnv, ValidityTransitionWitness, register_all, update_trees,
  failed_to_convert,
}
use intmax.ValidityProver.Blocks.BlockTree.{takes_block}
use intmax.ValidityProver.Blocks.Registration.{
  registered_keys, Ready, Registers, IndexAfter, register_all-Registers,
}

module _ (e : IndexedEnv) (b : TreeEnv) (w : WitnessEnv e b) (height block_height : ℕ)
    (laws : IndexedLaws e height) (block_laws : TreeLaws b block_height)
    (to_validity_pis : w.BlockWitness → ValidityTransitionWitness e b w → Bool) where
  open w use {BlockWitness}

  abbrev dummy : IndexedInsertionProof e.Hash
  dummy = w.dummy_registration_proof

  -- What a registration block does: the senders are registered with the number of the block, the
  -- block's hash is the next leaf of the block tree, and the proof opens the root of the block tree
  -- before.
  pub record RegistersBlock (x : BlockWitness) (block_number timestamp : ℕ)
      (accounts after : Tree e) (blocks pushed : MerkleTree b) (v : ValidityTransitionWitness e b w)
      : Type 0 where
    pub proofs : List (IndexedInsertionProof e.Hash)
    pub registration_proofs : v.account_registration_proofs ≡ some proofs
    pub no_updates : v.account_update_proofs ≡ none
    pub registers :
        Registers e height laws dummy timestamp block_number
          (w.get_sender_leaves x)
          accounts
          proofs
          after
    pub ids :
        (u k : ℕ)
        → IndexAfter e height laws dummy timestamp block_number
            (registered_keys e height laws (w.get_sender_leaves x))
            u
            k
            accounts
            after
    pub opens :
        MerkleTree.get_root b block_height timestamp blocks
        ≡ ok (
            root_from b
              (b.bit_path block_height (w.block_number x))
              (b.leaf_hash (MerkleTree.get_leaf b block_height timestamp (w.block_number x) blocks))
              v.block_merkle_proof)
    pub block_leaf :
        MerkleTree.get_leaf b block_height timestamp
          (MerkleTree.len b block_height timestamp blocks)
          pushed
        ≡ w.block_hash x

  abbrev witness_of :
      BlockWitness
      → List b.Hash
      → List (IndexedInsertionProof e.Hash)
      → ValidityTransitionWitness e b w
  witness_of x hs proofs = record {
    sender_leaves = w.get_sender_leaves x;
    block_merkle_proof = hs;
    account_registration_proofs = some proofs;
    account_update_proofs = none;
  }

  update_run :
      (x : BlockWitness) (pis : MainValidationPublicInputs) (timestamp : ℕ)
      (accounts after : Tree e) (blocks pushed : MerkleTree b) (hs : List b.Hash)
      (proofs : List (IndexedInsertionProof e.Hash))
      → w.to_main_validation_pis x ≡ some pis
      → pis.is_valid ≡ true
      → pis.is_registration_block ≡ true
      → pis.block_number ≡ MerkleTree.len b block_height timestamp blocks % u32_mod
      → MerkleTree.prove b block_height timestamp (w.block_number x) blocks ≡ ok hs
      → MerkleTree.push b block_height timestamp (w.block_hash x) blocks ≡ ok pushed
      → register_all e height dummy timestamp pis.block_number (w.get_sender_leaves x) accounts
        ≡ ok (after, proofs)
      → update_trees e b w height block_height to_validity_pis x timestamp accounts blocks ≡ (
          if to_validity_pis x (witness_of x hs proofs)
          then ok (after, pushed, witness_of x hs proofs)
          else err failed_to_convert)
  unfolding update_trees
  update_run x pis timestamp accounts after blocks pushed hs proofs q valid registration number
        proved push_run run =
      let test =
        (==_iff pis.block_number (MerkleTree.len b block_height timestamp blocks % u32_mod)).1
          number in
      rw (update_trees, q)
        (rw test (
          rw proved (
            rw push_run (
              rw (valid, registration)
                (rw run (elim (Bool-cases (to_validity_pis x (witness_of x hs proofs))) [
                  | inl e ↦ rw e refl
                  | inr e ↦ rw e refl
                ]))))))

  -- A valid registration block whose number is the length of the block tree is taken into trees
  -- that the operations lead to, no earlier than their last writes: while the block tree has a
  -- position left, the account tree has one for each registered sender, and the registered keys are
  -- positive, distinct and new, `update_trees` builds a witness, and succeeds with it when it
  -- converts to public inputs and fails with failed_to_convert when it does not. Each registration
  -- proof of the witness shows the insertion of its sender with the number of the block, or is the
  -- dummy proof of a sender that is not registered; the new keys have the next account ids, in their
  -- order, and every other key the id it had; the proof of the block tree opens its root before, and
  -- the hash of the block is its next leaf.
  pub update_trees-RegistersBlock :
      (x : BlockWitness) (pis : MainValidationPublicInputs) (t t' timestamp : ℕ) (accounts : Tree e)
      (blocks : MerkleTree b)
      → w.to_main_validation_pis x ≡ some pis
      → pis.is_valid ≡ true
      → pis.is_registration_block ≡ true
      → pis.block_number ≡ MerkleTree.len b block_height timestamp blocks % u32_mod
      → IndexedHistory e height laws t accounts
      → t ≤ timestamp
      → History b block_height block_laws t' blocks
      → t' ≤ timestamp
      → w.block_number x < 2 ^ block_height
      → MerkleTree.len b block_height timestamp blocks < 2 ^ block_height
      → Ready e height laws dummy timestamp pis.block_number
          (registered_keys e height laws (w.get_sender_leaves x))
          accounts
      → (after : Tree e) × (pushed : MerkleTree b) × (v : ValidityTransitionWitness e b w)
        × (update_trees e b w height block_height to_validity_pis x timestamp accounts blocks
            ≡ (if to_validity_pis x v then ok (after, pushed, v) else err failed_to_convert))
        × RegistersBlock x pis.block_number timestamp accounts after blocks pushed v
  update_trees-RegistersBlock x pis t t' timestamp accounts blocks q valid registration number h le
        h' le' inside room ready =
      let taken =
        takes_block b block_height block_laws t' (w.block_number x) timestamp (w.block_hash x)
          blocks h' le' inside room in
      let (after, proofs, run, registers, ids) =
        register_all-Registers e height laws dummy timestamp pis.block_number t
          (w.get_sender_leaves x) accounts h le ready in
      (
        after,
        taken.pushed,
        witness_of x taken.siblings proofs,
        update_run x pis timestamp accounts after blocks taken.pushed taken.siblings proofs q valid
            registration number taken.proved taken.push_run run,
        record {
          proofs = proofs;
          registration_proofs = refl;
          no_updates = refl;
          registers = registers;
          ids = ids;
          opens = taken.opens;
          block_leaf = taken.block_leaf;
        },
      )
