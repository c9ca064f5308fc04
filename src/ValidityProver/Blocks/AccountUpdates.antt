-- ===== src/ValidityProver/Blocks/AccountUpdates.antt =====
-- validity-prover/src/trees/update.rs: update_trees for a block that registers no sender.
use intmax.Base.{
  ℕ, ◌^◌, ◌%◌, ◌≡◌, ◌<◌, ◌≤◌, refl, Bool, true, false, List, none, some, ok, ==_iff, Bool-cases,
  inl, inr, err, if◌then◌else◌, u32_mod, All,
}
use intmax.ValidityProver.MerkleTree
use intmax.ValidityProver.MerkleTree.{TreeEnv, MerkleTree}
use intmax.ValidityProver.MerkleTree.Nodes.{TreeLaws}
use intmax.ValidityProver.MerkleTree.Proofs.{root_from}
use intmax.ValidityProver.MerkleTree.History.{History}
use intmax.ValidityProver.IndexedMerkleTree.{IndexedEnv, UpdateProof, Tree, index}
use intmax.ValidityProver.IndexedMerkleTree.Growth.{IndexedLaws}
use intmax.ValidityProver.IndexedMerkleTree.History.{IndexedHistory}
use intmax.ValidityProver.Blocks.{
  MainValidationPublicInputs, WitnessEnv, ValidityTransitionWitness, update_all, update_trees,
  failed_to_convert,
}
use intmax.ValidityProver.Blocks.BlockTree.{takes_block}
use intmax.ValidityProver.Blocks.Updating.{HasAccount, Updates, update_all-Updates}

module _ (e : IndexedEnv) (b : TreeEnv) (w : WitnessEnv e b) (height block_height : ℕ)
    (laws : IndexedLaws e height) (block_laws : TreeLaws b block_height)
    (to_validity_pis : w.BlockWitness → ValidityTransitionWitness e b w → Bool) where
  open w use {BlockWitness}

  -- What such a block does: the accounts of the senders are updated, no account id changes, and the
  -- block tree takes the block.
  pub record UpdatesBlock (x : BlockWitness) (block_number timestamp : ℕ) (accounts after : Tree e)
      (blocks pushed : MerkleTree b) (v : ValidityTransitionWitness e b w) : Type 0 where
    pub proofs : List (UpdateProof e.Hash)
    pub update_proofs : v.account_update_proofs ≡ some proofs
    pub no_registrations : v.account_registration_proofs ≡ none
    pub updates :
        Updates e height laws timestamp block_number (w.get_sender_leaves x) accounts proofs after
    pub ids : (k : ℕ) → index e timestamp k after ≡ index e timestamp k accounts
    pub opens :
        MerkleTree.get_root b block_height timestamp blocks
        ≡ ok (
            root_from b
              (b.bit_path block_height (w.block_number x))
              (b.leaf_hash (MerkleTree.get_leaf b block_height timestamp (w.block_number x) blocks))
              v.block_merkle_proof)
    pub block_leaf :
        MerkleTree.get_leaf b block_height timestamp
          (MerkleTree.len b block_height timestamp blocks)
          pushed
        ≡ w.block_hash x

  abbrev witness_of :
      BlockWitness → List b.Hash → List (UpdateProof e.Hash) → ValidityTransitionWitness e b w
  witness_of x hs proofs = record {
    sender_leaves = w.get_sender_leaves x;
    block_merkle_proof = hs;
    account_registration_proofs = none;
    account_update_proofs = some proofs;
  }

  update_run :
      (x : BlockWitness) (pis : MainValidationPublicInputs) (timestamp : ℕ)
      (accounts after : Tree e) (blocks pushed : MerkleTree b) (hs : List b.Hash)
      (proofs : List (UpdateProof e.Hash))
      → w.to_main_validation_pis x ≡ some pis
      → pis.is_valid ≡ true
      → pis.is_registration_block ≡ false
      → pis.block_number ≡ MerkleTree.len b block_height timestamp blocks % u32_mod
      → MerkleTree.prove b block_height timestamp (w.block_number x) blocks ≡ ok hs
      → MerkleTree.push b block_height timestamp (w.block_hash x) blocks ≡ ok pushed
      → update_all e height timestamp pis.block_number (w.get_sender_leaves x) accounts
        ≡ ok (after, proofs)
      → update_trees e b w height block_height to_validity_pis x timestamp accounts blocks ≡ (
          if to_validity_pis x (witness_of x hs proofs)
          then ok (after, pushed, witness_of x hs proofs)
          else err failed_to_convert)
  unfolding update_trees
  update_run x pis timestamp accounts after blocks pushed hs proofs q valid updating number proved
        push_run run =
      let test =
        (==_iff pis.block_number (MerkleTree.len b block_height timestamp blocks % u32_mod)).1
          number in
      rw (update_trees, q)
        (rw test (
          rw proved (
            rw push_run (
              rw (valid, updating)
                (rw run (elim (Bool-cases (to_validity_pis x (witness_of x hs proofs))) [
                  | inl e ↦ rw e refl
                  | inr e ↦ rw e refl
                ]))))))

  -- A valid block that registers no sender, and whose number is the length of the block tree, is
  -- taken into trees that the operations lead to, no earlier than their last writes: while the
  -- block tree has a position left and every sender has an account, `update_trees` builds a witness,
  -- and succeeds with it when it converts to public inputs and fails with failed_to_convert when it
  -- does not. Each update proof of the witness shows the update of its sender to the number of the
  -- block when the sender has signed, and else to the number that it had; no account id changes at
  -- the timestamp; the proof of the block tree opens its root before, and the hash of the block is its
  -- next leaf.
  pub update_trees-UpdatesBlock :
      (x : BlockWitness) (pis : MainValidationPublicInputs) (t t' timestamp : ℕ) (accounts : Tree e)
      (blocks : MerkleTree b)
      → w.to_main_validation_pis x ≡ some pis
      → pis.is_valid ≡ true
      → pis.is_registration_block ≡ false
      → pis.block_number ≡ MerkleTree.len b block_height timestamp blocks % u32_mod
      → IndexedHistory e height laws t accounts
      → t ≤ timestamp
      → History b block_height block_laws t' blocks
      → t' ≤ timestamp
      → w.block_number x < 2 ^ block_height
      → MerkleTree.len b block_height timestamp blocks < 2 ^ block_height
      → All (HasAccount e height laws timestamp pis.block_number accounts) (w.get_sender_leaves x)
      → (after : Tree e) × (pushed : MerkleTree b) × (v : ValidityTransitionWitness e b w)
        × (update_trees e b w height block_height to_validity_pis x timestamp accounts blocks
            ≡ (if to_validity_pis x v then ok (after, pushed, v) else err failed_to_convert))
        × UpdatesBlock x pis.block_number timestamp accounts after blocks pushed v
  update_trees-UpdatesBlock x pis t t' timestamp accounts blocks q valid updating number h le h' le'
        inside room has =
      let taken =
        takes_block b block_height block_laws t' (w.block_number x) timestamp (w.block_hash x)
          blocks h' le' inside room in
      let (after, proofs, run, updates, ids) =
        update_all-Updates e height laws timestamp pis.block_number t (w.get_sender_leaves x)
          accounts h le has in
      (
        after,
        taken.pushed,
        witness_of x taken.siblings proofs,
        update_run x pis timestamp accounts after blocks taken.pushed taken.siblings proofs q valid
            updating number taken.proved taken.push_run run,
        record {
          proofs = proofs;
          update_proofs = refl;
          no_registrations = refl;
          updates = updates;
          ids = ids;
          opens = taken.opens;
          block_leaf = taken.block_leaf;
        },
      )
