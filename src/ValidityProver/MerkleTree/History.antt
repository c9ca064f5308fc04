-- ===== src/ValidityProver/MerkleTree/History.antt =====
-- validity-prover/src/trees/merkle_tree/sql_incremental_merkle_tree.rs: the trees that writes, pushes
-- and resets lead to.
use intmax.Base.{
  ℕ, suc, ◌^◌, ◌≡◌, ◌<◌, ◌≤◌, ◌∙◌, refl, sym, ap, subst, ok-injective, inl, inr, List, [], ok, leb,
  arith, Bool-cases, nat_eq,
}
use intmax.ValidityProver.Versions.Laws.{
  IsSettled, empty-IsSettled, latest-empty, latest-delete_from, delete_from-IsSettled, latest-quiet,
}
use intmax.ValidityProver.MerkleTree.{
  TreeEnv, path_eq, MerkleTree, new, prove, get_root, get_leaf, len, update_leaf, push, reset,
}
use intmax.ValidityProver.MerkleTree.Nodes.{
  TreeLaws, unit_eq, node_hash, node_hash-quiet, empty-node_hash, node_hash-delete_from,
  get_node_hash_lem,
}
use intmax.ValidityProver.MerkleTree.Consistency.{IsConsistent, new-IsConsistent}
use intmax.ValidityProver.MerkleTree.Proofs.{
  root_from, Inv, prove-root_from, Updated, update_leaf-Updated, IsConsistent-quiet,
  IsConsistent-past,
}

module _ (e : TreeEnv) (height : ℕ) (laws : TreeLaws e height) where
  open e use {Leaf, Hash}

  -- The trees, with the timestamp of the last write, that a sequence of writes at timestamps that do
  -- not decrease, and of resets, leads to from the empty tables. A write or a push is at an index
  -- of the tree.
  pub data History : ℕ → MerkleTree e → Type 0 where
    started : History 0 (new e)
    written :
        (t t' i : ℕ) (leaf : Leaf) (s s' : MerkleTree e)
        → History t s
        → t ≤ t'
        → i < 2 ^ height
        → update_leaf e height t' i leaf s ≡ ok s'
        → History t' s'
    pushed :
        (t t' : ℕ) (leaf : Leaf) (s s' : MerkleTree e)
        → History t s
        → t ≤ t'
        → len e height t' s < 2 ^ height
        → push e height t' leaf s ≡ ok s'
        → History t' s'
    reset_to : (t t' : ℕ) (s : MerkleTree e) → History t s → History t' (reset e height (suc t') s)

  get_leaf-new : (t i : ℕ) → get_leaf e height t i (new e) ≡ e.empty_leaf
  unfolding get_leaf
  get_leaf-new t i = let l = latest-empty e.leaves laws.leaves_laws t i in ground arith

  pub new-Inv : Inv e height laws 0 (new e)
  new-Inv = record {
    nodes_settled = empty-IsSettled e.nodes laws.nodes_laws 0;
    leaves_settled = empty-IsSettled e.leaves laws.leaves_laws 0;
    len_settled = empty-IsSettled e.leaves_len laws.len_laws 0;
    consistent = λ u. new-IsConsistent e height laws u;
    leaves = λ u i lt.
        empty-node_hash e height laws u (e.bit_path height i) (laws.bit_path_length i)
        ∙ ap e.leaf_hash (sym (get_leaf-new u i));
  }

  get_leaf-reset :
      (t u i : ℕ) (s : MerkleTree e)
      → u < t
      → get_leaf e height u i (reset e height t s) ≡ get_leaf e height u i s
  unfolding get_leaf reset
  get_leaf-reset t u i s lt =
      let l = latest-delete_from e.leaves laws.leaves_laws t u i s.leaf_rows lt in ground arith

  get_root-reset :
      (t u : ℕ) (s : MerkleTree e)
      → u < t
      → get_root e height u (reset e height t s) ≡ get_root e height u s
  unfolding get_root reset
  get_root-reset t u s lt =
      get_node_hash_lem e height u [] (e.nodes.delete_from t s.hash_nodes) (omega arith)
      ∙ ap ok (node_hash-delete_from e height laws t u [] s.hash_nodes lt)
      ∙ sym (get_node_hash_lem e height u [] s.hash_nodes (omega arith))

  -- A view after the last write is the view at the last write.
  get_leaf-quiet :
      (t u i : ℕ) (s : MerkleTree e)
      → t ≤ u
      → IsSettled e.leaves laws.leaves_laws t s.leaf_rows
      → get_leaf e height u i s ≡ get_leaf e height t i s
  unfolding get_leaf
  get_leaf-quiet t u i s le v =
      let l = latest-quiet e.leaves laws.leaves_laws t u i s.leaf_rows le v in ground arith

  get_root-quiet :
      (t u : ℕ) (s : MerkleTree e)
      → t ≤ u
      → Inv e height laws t s
      → get_root e height u s ≡ get_root e height t s
  unfolding get_root
  get_root-quiet t u s le v =
      get_node_hash_lem e height u [] s.hash_nodes (omega arith)
      ∙ ap ok (node_hash-quiet e height laws t u [] s.hash_nodes le v.nodes_settled)
      ∙ sym (get_node_hash_lem e height t [] s.hash_nodes (omega arith))

  reset-IsConsistent :
      (t u : ℕ) (nodes : e.nodes.Table)
      → ((w : ℕ) → IsConsistent e height laws w nodes)
      → IsConsistent e height laws u (e.nodes.delete_from (suc t) nodes)
  reset-IsConsistent t u nodes all =
      let after = e.nodes.delete_from (suc t) nodes in
      let kept : (w : ℕ) → w ≤ t → IsConsistent e height laws w after = λ w le.
        IsConsistent-past e height laws w nodes after
          (λ p. node_hash-delete_from e height laws (suc t) w p nodes (omega (arith, le)))
          (all w) in
      elim (Bool-cases (leb u t)) [
        | inl q ↦ kept u (ground (arith, q))
        | inr q ↦
            IsConsistent-quiet e height laws t u after (ground (arith, q))
              (delete_from-IsSettled e.nodes laws.nodes_laws t nodes) (kept t (omega arith))
      ]

  -- A deletion settles the tables.
  reset-leaf :
      (t u i : ℕ) (s : MerkleTree e)
      → ((w : ℕ)
          → node_hash e height w (e.bit_path height i) s.hash_nodes
            ≡ e.leaf_hash (get_leaf e height w i s))
      → node_hash e height u (e.bit_path height i) (e.nodes.delete_from (suc t) s.hash_nodes)
        ≡ e.leaf_hash (get_leaf e height u i (reset e height (suc t) s))
  unfolding reset
  reset-leaf t u i s old =
      let p = e.bit_path height i in
      let nodes = e.nodes.delete_from (suc t) s.hash_nodes in
      let kept : (w : ℕ)
          → w ≤ t
          → node_hash e height w p nodes
            ≡ e.leaf_hash (get_leaf e height w i (reset e height (suc t) s)) =
        λ w le.
          node_hash-delete_from e height laws (suc t) w p s.hash_nodes (omega (arith, le))
          ∙ old w
          ∙ ap e.leaf_hash (sym (get_leaf-reset (suc t) w i s (omega (arith, le)))) in
      elim (Bool-cases (leb u t)) [
        | inl q ↦ kept u (ground (arith, q))
        | inr q ↦
            let le : t ≤ u = ground (arith, q) in
            node_hash-quiet e height laws t u p nodes le
              (delete_from-IsSettled e.nodes laws.nodes_laws t s.hash_nodes)
            ∙ kept t (omega arith)
            ∙ ap e.leaf_hash (
                sym (
                  get_leaf-quiet t u i (reset e height (suc t) s) le
                    (delete_from-IsSettled e.leaves laws.leaves_laws t s.leaf_rows)))
      ]

  pub reset-Inv :
      (t u : ℕ) (s : MerkleTree e)
      → Inv e height laws u s
      → Inv e height laws t (reset e height (suc t) s)
  unfolding reset
  reset-Inv t u s v = record {
    nodes_settled = delete_from-IsSettled e.nodes laws.nodes_laws t s.hash_nodes;
    leaves_settled = delete_from-IsSettled e.leaves laws.leaves_laws t s.leaf_rows;
    len_settled = delete_from-IsSettled e.leaves_len laws.len_laws t s.len_rows;
    consistent = λ w. reset-IsConsistent t w s.hash_nodes v.consistent;
    leaves = λ w i lt. reset-leaf t w i s (λ x. v.leaves x i lt);
  }

  pub push-update_leaf :
      (t : ℕ) (leaf : Leaf) (s : MerkleTree e)
      → push e height t leaf s ≡ update_leaf e height t (len e height t s) leaf s
  unfolding push
  push-update_leaf t leaf s = refl

  Updated-ok :
      (t t' i : ℕ) (leaf : Leaf) (s s' : MerkleTree e)
      → t ≤ t'
      → i < 2 ^ height
      → Inv e height laws t s
      → update_leaf e height t' i leaf s ≡ ok s'
      → Updated e height laws t' i leaf s s'
  Updated-ok t t' i leaf s s' le inside v run =
      let (after, run', r) = update_leaf-Updated e height laws t t' i leaf s le inside v in
      subst (Updated e height laws t' i leaf s) (ok-injective (sym run' ∙ run)) r

  -- However a tree came about, its invariant holds: at every timestamp each inner node has the hash
  -- of its two children and each leaf's node the hash of the leaf.
  pub History-Inv : (t : ℕ) (s : MerkleTree e) → History t s → Inv e height laws t s
  History-Inv _ _ started = new-Inv
  History-Inv _ _ (written t t' i leaf s s' h le inside run) =
      (Updated-ok t t' i leaf s s' le inside (History-Inv t s h) run).inv
  History-Inv _ _ (pushed t t' leaf s s' h le inside run) =
      (Updated-ok t t' (len e height t' s) leaf s s' le inside (History-Inv t s h)
        (sym (push-update_leaf t' leaf s) ∙ run)).inv
  History-Inv _ _ (reset_to t t' s h) = reset-Inv t' t s (History-Inv t s h)

  -- In any tree that writes, pushes and resets lead to from the empty tables, at any timestamp and
  -- for any index of the tree, `prove` succeeds, and its siblings lead from the hash of the leaf
  -- that `get_leaf` reads there to the root that `get_root` gives.
  pub History-prove :
      (t u i : ℕ) (s : MerkleTree e)
      → History t s
      → i < 2 ^ height
      → (hs : List Hash) × (prove e height u i s ≡ ok hs)
        × (get_root e height u s
            ≡ ok (root_from e (e.bit_path height i) (e.leaf_hash (get_leaf e height u i s)) hs))
  History-prove t u i s h inside = prove-root_from e height laws t u i s (History-Inv t s h) inside

  -- The trees that writes after a timestamp lead to from a tree.
  pub data Later (t : ℕ) (s : MerkleTree e) : ℕ → MerkleTree e → Type 0 where
    same : Later t s t s
    then_written :
        (w w' i : ℕ) (leaf : Leaf) (a b : MerkleTree e)
        → Later t s w a
        → w ≤ w'
        → t < w'
        → i < 2 ^ height
        → update_leaf e height w' i leaf a ≡ ok b
        → Later t s w' b

  record Kept (t w : ℕ) (s a : MerkleTree e) : Type 0 where
    after : t ≤ w
    inv : Inv e height laws w a
    roots : (u : ℕ) → u ≤ t → get_root e height u a ≡ get_root e height u s
    leaves : (u i : ℕ) → u ≤ t → get_leaf e height u i a ≡ get_leaf e height u i s

  Later-Kept :
      (t : ℕ) (s : MerkleTree e) (w : ℕ) (a : MerkleTree e)
      → Inv e height laws t s
      → Later t s w a
      → Kept t w s a
  Later-Kept t s _ _ v same = record {
    after = omega arith;
    inv = v;
    roots = λ u le. refl;
    leaves = λ u i le. refl;
  }
  Later-Kept t s _ _ v (then_written w w' i leaf a b h le lt inside run) =
      let k = Later-Kept t s w a v h in
      let r = Updated-ok w w' i leaf a b le inside k.inv run in
      record {
        after = omega (arith, lt);
        inv = r.inv;
        roots = λ u before. r.past u (omega (arith, before, lt)) ∙ k.roots u before;
        leaves = λ u j before.
            let g = r.read u j in
            let old = k.leaves u j before in ground (arith, g, old, before, lt);
      }

  -- After any writes at later timestamps, resetting a tree to just after a timestamp makes every
  -- root and every leaf, at every timestamp, what it was before the writes.
  pub reset_later :
      (t w u i : ℕ) (s a : MerkleTree e)
      → History t s
      → Later t s w a
      → (get_root e height u (reset e height (suc t) a) ≡ get_root e height u s)
        × (get_leaf e height u i (reset e height (suc t) a) ≡ get_leaf e height u i s)
  reset_later t w u i s a h l =
      let v = History-Inv t s h in
      let k = Later-Kept t s w a v l in
      let n = reset-Inv t w a k.inv in
      let kept : (x : ℕ)
          → x ≤ t
          → (get_root e height x (reset e height (suc t) a) ≡ get_root e height x s)
            × (get_leaf e height x i (reset e height (suc t) a) ≡ get_leaf e height x i s) =
        λ x le. (
          get_root-reset (suc t) x a (omega (arith, le)) ∙ k.roots x le,
          get_leaf-reset (suc t) x i a (omega (arith, le)) ∙ k.leaves x i le,
        ) in
      elim (Bool-cases (leb u t)) [
        | inl q ↦ kept u (ground (arith, q))
        | inr q ↦
            let le : t ≤ u = ground (arith, q) in
            let here = kept t (omega arith) in
            (
              get_root-quiet t u (reset e height (suc t) a) le n
                  ∙ here.0
                  ∙ sym (get_root-quiet t u s le v),
              get_leaf-quiet t u i (reset e height (suc t) a) le n.leaves_settled
                  ∙ here.1
                  ∙ sym (get_leaf-quiet t u i s le v.leaves_settled),
            )
      ]
