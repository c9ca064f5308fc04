-- ===== src/ValidityProver/Blocks/BlockTree.antt =====
-- validity-prover/src/trees/update.rs: the block tree in update_trees.
use intmax.Base.{ℕ, ◌^◌, ◌≡◌, ◌<◌, ◌≤◌, ◌∙◌, List, ok, arith}
use intmax.ValidityProver.MerkleTree.{TreeEnv, MerkleTree, prove, push, len, get_leaf, get_root}
use intmax.ValidityProver.MerkleTree.Nodes.{TreeLaws}
use intmax.ValidityProver.MerkleTree.Proofs.{root_from, update_leaf-Updated}
use intmax.ValidityProver.MerkleTree.History.{History, History-prove, History-Inv, push-update_leaf}

module _ (b : TreeEnv) (height : ℕ) (laws : TreeLaws b height) where
  -- The proof at the block's number opens the root before, and the block's hash is the next leaf.
  pub record TakesBlock (number timestamp : ℕ) (hash : b.Leaf) (blocks : MerkleTree b)
      : Type 0 where
    pub siblings : List b.Hash
    pub proved : prove b height timestamp number blocks ≡ ok siblings
    pub opens :
        get_root b height timestamp blocks
        ≡ ok (
            root_from b
              (b.bit_path height number)
              (b.leaf_hash (get_leaf b height timestamp number blocks))
              siblings)
    pub pushed : MerkleTree b
    pub push_run : push b height timestamp hash blocks ≡ ok pushed
    pub block_leaf : get_leaf b height timestamp (len b height timestamp blocks) pushed ≡ hash

  pub takes_block :
      (t number timestamp : ℕ) (hash : b.Leaf) (blocks : MerkleTree b)
      → History b height laws t blocks
      → t ≤ timestamp
      → number < 2 ^ height
      → len b height timestamp blocks < 2 ^ height
      → TakesBlock number timestamp hash blocks
  takes_block t number timestamp hash blocks h le inside room =
      let n = len b height timestamp blocks in
      let (hs, proved, opens) = History-prove b height laws t timestamp number blocks h inside in
      let (pushed, written, r) =
        update_leaf-Updated b height laws t timestamp n hash blocks le room
          (History-Inv b height laws t blocks h) in
      let read = r.read timestamp n in
      record {
        siblings = hs;
        proved = proved;
        opens = opens;
        pushed = pushed;
        push_run = push-update_leaf b height laws timestamp hash blocks ∙ written;
        block_leaf = ground (arith, read);
      }
