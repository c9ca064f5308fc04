-- ===== src/ValidityProver/MerkleTree/Siblings.antt =====
-- validity-prover/src/trees/merkle_tree: the siblings of a path, which a write of its leaf leaves alone.
use intmax.Base.{
  ℕ, ◌≡◌, ◌<◌, ◌≤◌, ◌∙◌, refl, sym, ap, inl, inr, Bool, true, false, not, List, [], ◌∷◌, ok, length,
  if◌then◌else◌, arith, Bool-cases, >>=-eq-ok, ok-injective,
}
use intmax.ValidityProver.Versions.Laws.{save-IsSettled}
use intmax.ValidityProver.MerkleTree.{
  TreeEnv, path_eq, same_path, same_path_iff, MerkleTree, climb, prove, update_leaf, save_leaf,
}
use intmax.ValidityProver.MerkleTree.Nodes.{
  TreeLaws, node_hash, node_hash-save, siblings, bulk_get_sibling_hashes-siblings,
  get_sibling_hash_lem,
}
use intmax.ValidityProver.MerkleTree.Consistency.{Settled, same_path-longer}
use intmax.ValidityProver.MerkleTree.Proofs.{Inv, Settled-later}

same_path-shorter : (p q : List Bool) → length p < length q → same_path p q ≡ false
same_path-shorter p q h = elim (Bool-cases (same_path p q)) [
  | inr e ↦ e
  | inl e ↦ let same = ap length ((same_path_iff p q).0 e) in absurd (omega (arith, h, same))
]

same_path-sibling : (b : Bool) (p : List Bool) → same_path (not b ∷ p) (b ∷ p) ≡ false
same_path-sibling true p = refl
same_path-sibling false p = refl

module _ (e : TreeEnv) (height : ℕ) (laws : TreeLaws e height) where
  open e use {Leaf, Hash}

  -- A node that is longer than the siblings is none of them.
  siblings-save_longer :
      (t : ℕ) (path q : List Bool) (h : Hash) (nodes : e.nodes.Table)
      → length path < length q
      → Settled e height laws t nodes
      → siblings e height laws t path (e.nodes.save t q h nodes)
        ≡ siblings e height laws t path nodes
  siblings-save_longer t [] q h nodes lt s = refl
  siblings-save_longer t (b ∷ path) q h nodes lt s =
      let c = node_hash-save e height laws t t q (not b ∷ path) h nodes s in
      let k = same_path-shorter (not b ∷ path) q lt in
      let rest = siblings-save_longer t path q h nodes (omega (arith, lt)) s in
      ground (arith, c, k, rest)

  -- Storing the hash of a node leaves the siblings on its way to the root alone.
  pub siblings-save_self :
      (t : ℕ) (path : List Bool) (h : Hash) (nodes : e.nodes.Table)
      → Settled e height laws t nodes
      → siblings e height laws t path (e.nodes.save t path h nodes)
        ≡ siblings e height laws t path nodes
  siblings-save_self t [] h nodes s = refl
  siblings-save_self t (b ∷ path) h nodes s =
      let c = node_hash-save e height laws t t (b ∷ path) (not b ∷ path) h nodes s in
      let k = same_path-sibling b path in
      let rest = siblings-save_longer t path (b ∷ path) h nodes (omega arith) s in
      ground (arith, c, k, rest)

  -- Climbing stores hashes at shorter paths only.
  climb-node_hash :
      (t : ℕ) (path q : List Bool) (h : Hash) (nodes after : e.nodes.Table)
      → length path ≤ length q
      → length path ≤ height
      → Settled e height laws t nodes
      → climb e height t path h nodes ≡ ok after
      → node_hash e height t q after ≡ node_hash e height t q nodes
  unfolding climb
  climb-node_hash t [] q h nodes after le short s run =
      ap (node_hash e height t q) (sym (ok-injective run))
  climb-node_hash t (b ∷ path) q h nodes after le short s run =
      let sib = node_hash e height t (not b ∷ path) nodes in
      let new_h = if b then e.two_to_one sib h else e.two_to_one h sib in
      let read = get_sibling_hash_lem e height t b path nodes (omega (arith, short)) in
      let saved = e.nodes.save t path new_h nodes in
      let c = node_hash-save e height laws t t path q new_h nodes s in
      let k = same_path-longer q path (omega (arith, le)) in
      climb-node_hash t path q new_h saved after (omega (arith, le)) (omega (arith, short))
        (save-IsSettled e.nodes laws.nodes_laws t t path new_h nodes (omega arith) s)
        (rw (climb, read) at run)
      ∙ ground (arith, c, k)

  climb-siblings :
      (t : ℕ) (path : List Bool) (h : Hash) (nodes after : e.nodes.Table)
      → length path ≤ height
      → Settled e height laws t nodes
      → climb e height t path h nodes ≡ ok after
      → siblings e height laws t path after ≡ siblings e height laws t path nodes
  unfolding climb
  climb-siblings t [] h nodes after short s run = refl
  climb-siblings t (b ∷ path) h nodes after short s run =
      let sib = node_hash e height t (not b ∷ path) nodes in
      let new_h = if b then e.two_to_one sib h else e.two_to_one h sib in
      let read = get_sibling_hash_lem e height t b path nodes (omega (arith, short)) in
      let saved = e.nodes.save t path new_h nodes in
      let settled = save-IsSettled e.nodes laws.nodes_laws t t path new_h nodes (omega arith) s in
      let run' = rw (climb, read) at run in
      let first =
        climb-node_hash t path (not b ∷ path) new_h saved after (omega arith) (omega (arith, short))
          settled run' in
      let c = node_hash-save e height laws t t path (not b ∷ path) new_h nodes s in
      let k = same_path-longer (not b ∷ path) path (omega arith) in
      let here : node_hash e height t (not b ∷ path) after ≡ sib = first ∙ ground (arith, c, k) in
      let rest =
        climb-siblings t path new_h saved after (omega (arith, short)) settled run'
        ∙ siblings-save_self t path new_h nodes s in
      ground (arith, here, rest)

  -- Writing a leaf does not change the proof for it.
  pub update_leaf-prove :
      (t t' i : ℕ) (leaf : Leaf) (s a : MerkleTree e)
      → t ≤ t'
      → Inv e height laws t s
      → update_leaf e height t' i leaf s ≡ ok a
      → prove e height t' i a ≡ prove e height t' i s
  unfolding prove update_leaf save_leaf
  update_leaf-prove t t' i leaf s a le v run =
      let path = e.bit_path height i in
      let h = e.leaf_hash leaf in
      let saved = e.nodes.save t' path h s.hash_nodes in
      let settled = Settled-later e height laws t t' s.hash_nodes le v.nodes_settled in
      let short : length path ≤ height = omega (arith, laws.bit_path_length i) in
      let bulk = bulk_get_sibling_hashes-siblings e height laws t' path in
      let (after, climbed, done) = >>=-eq-ok (climb e height t' path h saved) _ run in
      let nodes : a.hash_nodes ≡ after = sym (ap (λ z. z.hash_nodes) (ok-injective done)) in
      bulk a.hash_nodes short
      ∙ ap ok (
          ap (siblings e height laws t' path) nodes
          ∙ climb-siblings t' path h saved after short
              (save-IsSettled e.nodes laws.nodes_laws t t' path h s.hash_nodes le v.nodes_settled)
              climbed
          ∙ siblings-save_self t' path h s.hash_nodes settled)
      ∙ sym (bulk s.hash_nodes short)
