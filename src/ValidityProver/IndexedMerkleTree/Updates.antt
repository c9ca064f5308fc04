-- ===== src/ValidityProver/IndexedMerkleTree/Updates.antt =====
-- validity-prover/src/trees/merkle_tree/sql_indexed_merkle_tree.rs: `update_leaf` reads the siblings in
-- one query before it climbs, where the incremental tree reads each on its way.
use intmax.Base.{
  ℕ, ◌≡◌, ◌≤◌, ◌∙◌, refl, sym, ap, Bool, not, List, [], ◌∷◌, length, if◌then◌else◌, arith,
}
use intmax.ValidityProver.Versions.Laws.{save-IsSettled}
use intmax.ValidityProver.MerkleTree
use intmax.ValidityProver.MerkleTree.{path_eq, same_path, same_path_iff, MerkleTree, climb}
use intmax.ValidityProver.MerkleTree.Nodes.{
  TreeLaws, node_hash, siblings, bulk_get_sibling_hashes-siblings, get_sibling_hash_lem,
}
use intmax.ValidityProver.MerkleTree.Consistency.{Settled}
use intmax.ValidityProver.MerkleTree.Proofs.{Inv, Settled-later}
use intmax.ValidityProver.MerkleTree.Siblings.{siblings-save_self}
use intmax.ValidityProver.IndexedMerkleTree.{
  IndexedEnv, IndexedMerkleLeaf, tree, Tree, climb_with, update_leaf,
}

module _ (e : IndexedEnv) (height : ℕ) (laws : TreeLaws (tree e) height) where
  open e use {Hash}

  climb_with-climb :
      (t : ℕ) (path : List Bool) (h : Hash) (nodes : e.nodes.Table)
      → length path ≤ height
      → Settled (tree e) height laws t nodes
      → climb_with e t path h (siblings (tree e) height laws t path nodes) nodes
        ≡ climb (tree e) height t path h nodes
  unfolding climb_with climb
  climb_with-climb t [] h nodes short s = refl
  climb_with-climb t (b ∷ path) h nodes short s =
      let sib = node_hash (tree e) height t (not b ∷ path) nodes in
      let new_h = if b then e.two_to_one sib h else e.two_to_one h sib in
      let saved = e.nodes.save t path new_h nodes in
      let read = get_sibling_hash_lem (tree e) height t b path nodes (omega (arith, short)) in
      let same = siblings-save_self (tree e) height laws t path new_h nodes s in
      let rest =
        climb_with-climb t path new_h saved (omega (arith, short))
          (save-IsSettled e.nodes laws.nodes_laws t t path new_h nodes (omega arith) s) in
      sym (ap (λ z. climb_with e t path new_h z saved) same) ∙ rest ∙ sym (rw (climb, read))

  -- Writing a leaf with the siblings read in one query, before the climb, is writing it with each
  -- sibling read on the way.
  pub update_leaf-incremental :
      (t t' i : ℕ) (leaf : IndexedMerkleLeaf) (s : Tree e)
      → t ≤ t'
      → Inv (tree e) height laws t s
      → update_leaf e height t' i leaf s ≡ MerkleTree.update_leaf (tree e) height t' i leaf s
  unfolding update_leaf MerkleTree.update_leaf MerkleTree.save_leaf
  update_leaf-incremental t t' i leaf s le v =
      let path = e.bit_path height i in
      let h = e.leaf_hash leaf in
      let settled = Settled-later (tree e) height laws t t' s.hash_nodes le v.nodes_settled in
      let nodes = e.nodes.save t' path h s.hash_nodes in
      let after : Settled (tree e) height laws t' nodes =
        save-IsSettled e.nodes laws.nodes_laws t t' path h s.hash_nodes le v.nodes_settled in
      let short : length path ≤ height = omega (arith, laws.bit_path_length i) in
      let bulk = bulk_get_sibling_hashes-siblings (tree e) height laws t' path nodes short in
      let same = climb_with-climb t' path h nodes short after in rw (bulk, same)
