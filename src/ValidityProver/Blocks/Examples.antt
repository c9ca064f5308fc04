-- ===== src/ValidityProver/Blocks/Examples.antt =====
-- A block that registers one of its three senders, where another has the dummy key and another has not
-- signed; and a block that updates an account.
use intmax.Base.{
  ℕ, ◌≡◌, refl, ◌&&◌, ◌==◌, Bool, true, false, List, [], ◌∷◌, Option, none, some, ok, err, length,
  if◌then◌else◌, arith,
}
use intmax.ValidityProver.MerkleTree
use intmax.ValidityProver.MerkleTree.{MerkleTree, new}
use intmax.ValidityProver.Versions.{search_back}
use intmax.ValidityProver.MerkleTree.Examples.{small_tree, small_tree_laws}
use intmax.ValidityProver.MerkleTree.History.{History}
use intmax.ValidityProver.IndexedMerkleTree.{Tree}
use intmax.ValidityProver.IndexedMerkleTree.Examples.{
  accounts, account_laws, with_dummy, with_dummy-History, len_two, seven_absent, dummy_at_one,
}
use intmax.ValidityProver.Blocks.{
  SenderLeaf, WitnessEnv, ValidityTransitionWitness, failed_to_convert, update_trees,
}
use intmax.ValidityProver.Blocks.AccountUpdates.{UpdatesBlock, update_trees-UpdatesBlock}
use intmax.ValidityProver.Blocks.Trees.{RegistersBlock, update_trees-RegistersBlock}

abbrev leaf_of : ℕ → Bool → SenderLeaf
leaf_of key signed = record { sender = key; signature_included = signed }

-- A witness is the number of its block.
abbrev witnesses : WitnessEnv accounts small_tree
witnesses = record {
  BlockWitness = ℕ;
  to_main_validation_pis =
      λ n. some (record { block_number = n; is_valid = true; is_registration_block = true });
  block_number = λ n. n;
  block_hash = λ n. 70;
  get_sender_leaves = λ n. leaf_of 9 false ∷ leaf_of 7 true ∷ leaf_of 1 true ∷ [];
  dummy_registration_proof = record {
    index = 0;
    low_leaf_proof = [];
    leaf_proof = [];
    low_leaf_index = 0;
    prev_low_leaf = record { next_index = 0; key = 0; next_key = 0; value = 0 };
  };
}

abbrev as_many : {A B : Type 0} → Option (List A) → List B → Bool
as_many none ys = true
as_many (some xs) ys = length xs == length ys

-- A conversion that looks at the witness: its siblings reach the root, and it has one proof for each
-- sender.
abbrev converts :
    {w : WitnessEnv accounts small_tree} → ValidityTransitionWitness accounts small_tree w → Bool
converts v =
    (length v.block_merkle_proof == 2)
    && (as_many v.account_registration_proofs v.sender_leaves
        && as_many v.account_update_proofs v.sender_leaves)

no_blocks-len : MerkleTree.len small_tree 2 4 (new small_tree) ≡ 0
unfolding MerkleTree.len search_back
no_blocks-len = refl

update_trees-RegistersBlock_example :
    (after : Tree accounts) × (pushed : MerkleTree small_tree) × (v : ValidityTransitionWitness
      accounts small_tree witnesses)
    × (update_trees accounts small_tree witnesses 2 2
          (λ x v. converts v)
          0
          4
          with_dummy
          (new small_tree)
        ≡ (if converts v then ok (after, pushed, v) else err failed_to_convert))
    × RegistersBlock accounts small_tree witnesses 2 2 account_laws small_tree_laws
        (λ x v. converts v)
        0
        0
        4
        with_dummy
        after
        (new small_tree)
        pushed
        v
update_trees-RegistersBlock_example =
    update_trees-RegistersBlock accounts small_tree witnesses 2 2 account_laws small_tree_laws
      (λ x v. converts v) 0
      (record { block_number = 0; is_valid = true; is_registration_block = true }) 0 0 4 with_dummy
      (new small_tree) refl refl refl (ground (arith, no_blocks-len)) with_dummy-History
      (omega arith) History.started (omega arith) (omega arith) (omega (arith, no_blocks-len))
      ((tt, tt), (((omega arith), seven_absent), tt), omega (arith, len_two))

abbrev updates : WitnessEnv accounts small_tree
updates = record witnesses {
  to_main_validation_pis =
      λ n. some (record { block_number = n; is_valid = true; is_registration_block = false });
  get_sender_leaves = λ n. leaf_of 1 true ∷ [];
}

update_trees-UpdatesBlock_example :
    (after : Tree accounts) × (pushed : MerkleTree small_tree) × (v : ValidityTransitionWitness
      accounts small_tree updates)
    × (update_trees accounts small_tree updates 2 2
          (λ x v. converts v)
          0
          4
          with_dummy
          (new small_tree)
        ≡ (if converts v then ok (after, pushed, v) else err failed_to_convert))
    × UpdatesBlock accounts small_tree updates 2 2 account_laws small_tree_laws
        (λ x v. converts v)
        0
        0
        4
        with_dummy
        after
        (new small_tree)
        pushed
        v
update_trees-UpdatesBlock_example =
    update_trees-UpdatesBlock accounts small_tree updates 2 2 account_laws small_tree_laws
      (λ x v. converts v) 0
      (record { block_number = 0; is_valid = true; is_registration_block = false }) 0 0 4 with_dummy
      (new small_tree) refl refl refl (ground (arith, no_blocks-len)) with_dummy-History
      (omega arith) History.started (omega arith) (omega arith) (omega (arith, no_blocks-len))
      ((1, dummy_at_one), tt)
