-- ===== src/ValidityProver/MerkleTree/Proofs.antt =====
-- validity-prover/src/trees/merkle_tree/sql_incremental_merkle_tree.rs: the tree over its history, and
-- the proofs that it gives.
use intmax.Base.{
  ℕ, ◌^◌, ◌≡◌, ◌<◌, ◌≤◌, ◌∙◌, refl, sym, ap, inl, inr, Bool, true, false, List, [], ◌∷◌, ok, length,
  if◌then◌else◌, ◌==◌, leb, arith, nat_eq, Bool-cases,
}
use intmax.ValidityProver.Versions.Laws.{IsSettled, save-IsSettled, latest-save}
use intmax.ValidityProver.MerkleTree.{
  TreeEnv, path_eq, same_path, same_path_iff, MerkleTree, climb, prove, get_root, get_leaf,
  save_leaf, update_leaf,
}
use intmax.ValidityProver.MerkleTree.Nodes.{
  TreeLaws, unit_eq, node_hash, node_hash-save, node_hash-quiet, get_node_hash_lem, siblings,
  bulk_get_sibling_hashes-siblings,
}
use intmax.ValidityProver.MerkleTree.Consistency.{
  Settled, IsConsistent, Climbed, leaf_saved, climb_lem, same_path_refl,
}

module _ (e : TreeEnv) where
  open e use {Leaf, Hash}

  -- The root that a leaf's hash and the siblings on its path lead to.
  pub root_from : List Bool → Hash → List Hash → Hash
  root_from [] h hs = h
  root_from (b ∷ path) h [] = h
  root_from (b ∷ path) h (s ∷ hs) =
      root_from path (if b then e.two_to_one s h else e.two_to_one h s) hs

  module _ (height : ℕ) (laws : TreeLaws e height) where
    -- Nothing is stored after a timestamp, and at every timestamp the nodes have the hashes of
    -- their children and the leaves' nodes those of the leaves.
    pub record Inv (t : ℕ) (s : MerkleTree e) : Type 0 where
      pub nodes_settled : Settled e height laws t s.hash_nodes
      pub leaves_settled : IsSettled e.leaves laws.leaves_laws t s.leaf_rows
      pub len_settled : IsSettled e.leaves_len laws.len_laws t s.len_rows
      pub consistent : (u : ℕ) → IsConsistent e height laws u s.hash_nodes
      pub leaves :
          (u i : ℕ)
          → i < 2 ^ height
          → node_hash e height u (e.bit_path height i) s.hash_nodes
            ≡ e.leaf_hash (get_leaf e height u i s)

    -- From a node to the root.
    siblings-root_from :
        (t : ℕ) (path : List Bool) (nodes : e.nodes.Table)
        → length path ≤ height
        → IsConsistent e height laws t nodes
        → root_from path (node_hash e height t path nodes) (siblings e height laws t path nodes)
          ≡ node_hash e height t [] nodes
    unfolding root_from
    siblings-root_from t [] nodes short c = refl
    siblings-root_from t (true ∷ path) nodes short c =
        rw (← c path (omega (arith, short)))
          (siblings-root_from t path nodes (omega (arith, short)) c)
    siblings-root_from t (false ∷ path) nodes short c =
        rw (← c path (omega (arith, short)))
          (siblings-root_from t path nodes (omega (arith, short)) c)

    -- In a tree whose invariant holds, at any timestamp and for any index of the tree, proving
    -- succeeds, and the siblings lead from the hash of the leaf that is stored at the index to the
    -- root of that timestamp.
    pub prove-root_from :
        (t u i : ℕ) (s : MerkleTree e)
        → Inv t s
        → i < 2 ^ height
        → (hs : List Hash) × (prove e height u i s ≡ ok hs)
          × (get_root e height u s
              ≡ ok (root_from (e.bit_path height i) (e.leaf_hash (get_leaf e height u i s)) hs))
    unfolding prove get_root
    prove-root_from t u i s v inside =
        let path = e.bit_path height i in
        let short : length path ≤ height = omega (arith, laws.bit_path_length i) in
        (
          siblings e height laws u path s.hash_nodes,
          bulk_get_sibling_hashes-siblings e height laws u path s.hash_nodes short,
          get_node_hash_lem e height u [] s.hash_nodes (omega arith)
              ∙ ap ok (
                  sym (siblings-root_from u path s.hash_nodes short (v.consistent u))
                  ∙ ap (λ h. root_from path h (siblings e height laws u path s.hash_nodes))
                      (v.leaves u i inside)),
        )

    -- Reading a leaf after a write.
    pub get_leaf-save_leaf :
        (t u i j : ℕ) (leaf : Leaf) (s : MerkleTree e)
        → IsSettled e.leaves laws.leaves_laws t s.leaf_rows
        → get_leaf e height u j (save_leaf e height t i leaf s) ≡ (
            if j == i
            then (if leb t u then leaf else get_leaf e height u j s)
            else get_leaf e height u j s)
    unfolding get_leaf save_leaf
    get_leaf-save_leaf t u i j leaf s settled =
        let l = latest-save e.leaves laws.leaves_laws t i j leaf s.leaf_rows u settled in
        ground arith

    pub Settled-later :
        (t u : ℕ) (nodes : e.nodes.Table)
        → t ≤ u
        → Settled e height laws t nodes
        → Settled e height laws u nodes
    Settled-later t u nodes le h k w lt = h k w (omega (arith, le, lt))

    -- What a write leaves behind.
    pub record Updated (t i : ℕ) (leaf : Leaf) (s after : MerkleTree e) : Type 0 where
      pub inv : Inv t after
      pub past : (u : ℕ) → u < t → get_root e height u after ≡ get_root e height u s
      pub read :
          (u j : ℕ)
          → get_leaf e height u j after ≡ (
              if j == i
              then (if leb t u then leaf else get_leaf e height u j s)
              else get_leaf e height u j s)

    -- A view at a timestamp after the last write is the view at the last write.
    pub IsConsistent-quiet :
        (t u : ℕ) (nodes : e.nodes.Table)
        → t ≤ u
        → Settled e height laws t nodes
        → IsConsistent e height laws t nodes
        → IsConsistent e height laws u nodes
    IsConsistent-quiet t u nodes le s c p lt =
        rw
          (
            node_hash-quiet e height laws t u p nodes le s,
            node_hash-quiet e height laws t u (false ∷ p) nodes le s,
            node_hash-quiet e height laws t u (true ∷ p) nodes le s,
          )
          (c p lt)

    pub IsConsistent-past :
        (u : ℕ) (nodes after : e.nodes.Table)
        → ((p : List Bool) → node_hash e height u p after ≡ node_hash e height u p nodes)
        → IsConsistent e height laws u nodes
        → IsConsistent e height laws u after
    IsConsistent-past u nodes after q c p lt = rw (q p, q (false ∷ p), q (true ∷ p)) (c p lt)

    -- The node of a leaf, once the path of another has been climbed.
    leaf_node :
        (t i j : ℕ) (h : Hash) (nodes after : e.nodes.Table)
        → i < 2 ^ height
        → j < 2 ^ height
        → Settled e height laws t nodes
        → Climbed e height laws t
            (e.bit_path height i)
            (e.nodes.save t (e.bit_path height i) h nodes)
            after
        → node_hash e height t (e.bit_path height j) after
          ≡ (if j == i then h else node_hash e height t (e.bit_path height j) nodes)
    leaf_node t i j h nodes after hi hj settled r =
        let pi = e.bit_path height i in
        let pj = e.bit_path height j in
        let c = node_hash-save e height laws t t pi pj h nodes settled in
        let w = same_path_iff pj pi in
        let inj = laws.bit_path_injective j i hj hi in
        r.below pj (omega (arith, laws.bit_path_length i, laws.bit_path_length j))
        ∙ elim (Bool-cases (j == i)) [
          | inl q ↦
              let ji : j ≡ i = ground (arith, q) in
              let pp = ap (e.bit_path height) ji in ground (arith, c, q, w.1 pp)
          | inr q ↦
              let no : same_path pj pi ≡ false = elim (Bool-cases (same_path pj pi)) [
                | inr n ↦ n
                | inl n ↦ absurd (ground (arith, inj (w.0 n), q))
              ] in
              ground (arith, c, q, no)
        ]

    Climbed-past :
        (t u i : ℕ) (h : Hash) (nodes after : e.nodes.Table) (p : List Bool)
        → u < t
        → Settled e height laws t nodes
        → Climbed e height laws t
            (e.bit_path height i)
            (e.nodes.save t (e.bit_path height i) h nodes)
            after
        → node_hash e height u p after ≡ node_hash e height u p nodes
    Climbed-past t u i h nodes after p lt settled r =
        let c = node_hash-save e height laws t u (e.bit_path height i) p h nodes settled in
        r.past u p lt ∙ ground (arith, c, lt)

    Climbed-leaves :
        (t u i j : ℕ) (leaf : Leaf) (s : MerkleTree e) (after : e.nodes.Table)
        → i < 2 ^ height
        → j < 2 ^ height
        → Settled e height laws t s.hash_nodes
        → IsSettled e.leaves laws.leaves_laws t s.leaf_rows
        → node_hash e height u (e.bit_path height j) s.hash_nodes
          ≡ e.leaf_hash (get_leaf e height u j s)
        → Climbed e height laws t
            (e.bit_path height i)
            (e.nodes.save t (e.bit_path height i) (e.leaf_hash leaf) s.hash_nodes)
            after
        → node_hash e height u (e.bit_path height j) after
          ≡ e.leaf_hash (get_leaf e height u j (save_leaf e height t i leaf s))
    Climbed-leaves t u i j leaf s after hi hj settled leaves_settled old r =
        let g = get_leaf-save_leaf t u i j leaf s leaves_settled in
        elim (Bool-cases (leb t u)) [
          | inr q ↦
              Climbed-past t u i (e.leaf_hash leaf) s.hash_nodes after (e.bit_path height j)
                (ground (arith, q)) settled r
              ∙ old
              ∙ ap e.leaf_hash (ground (arith, g, q))
          | inl q ↦
              let le : t ≤ u = ground (arith, q) in
              let n = leaf_node t i j (e.leaf_hash leaf) s.hash_nodes after hi hj settled r in
              let n0 = node_hash-quiet e height laws t u (e.bit_path height j) after le r.settled in
              let n1 =
                node_hash-quiet e height laws t u (e.bit_path height j) s.hash_nodes le settled in
              ground (arith, g, q, n, n0, n1, old)
        ]

    -- The state after a write, from the nodes that the loop leaves.
    updated : (t i : ℕ) (leaf : Leaf) (s : MerkleTree e) (after : e.nodes.Table) → MerkleTree e
    updated t i leaf s after = record (save_leaf e height t i leaf s) { hash_nodes = after }

    get_leaf-updated :
        (t u i j : ℕ) (leaf : Leaf) (s : MerkleTree e) (after : e.nodes.Table)
        → get_leaf e height u j (updated t i leaf s after)
          ≡ get_leaf e height u j (save_leaf e height t i leaf s)
    unfolding get_leaf updated
    get_leaf-updated t u i j leaf s after = refl

    updated-Inv :
        (t t' i : ℕ) (leaf : Leaf) (s : MerkleTree e) (after : e.nodes.Table)
        → t ≤ t'
        → i < 2 ^ height
        → Inv t s
        → Climbed e height laws t'
            (e.bit_path height i)
            (e.nodes.save t' (e.bit_path height i) (e.leaf_hash leaf) s.hash_nodes)
            after
        → Inv t' (updated t' i leaf s after)
    unfolding updated save_leaf
    updated-Inv t t' i leaf s after le inside v r =
        let settled = Settled-later t t' s.hash_nodes le v.nodes_settled in
        let leaves_settled : IsSettled e.leaves laws.leaves_laws t' s.leaf_rows =
          λ k w lt. v.leaves_settled k w (omega (arith, le, lt)) in
        record {
          nodes_settled = r.settled;
          leaves_settled =
              save-IsSettled e.leaves laws.leaves_laws t t' i leaf s.leaf_rows le v.leaves_settled;
          len_settled =
              save-IsSettled e.leaves_len laws.len_laws t t' tt _ s.len_rows le v.len_settled;
          consistent = λ u. elim (Bool-cases (leb t' u)) [
            | inl q ↦ IsConsistent-quiet t' u after (ground (arith, q)) r.settled r.consistent
            | inr q ↦
                IsConsistent-past u s.hash_nodes after
                  (λ p.
                    Climbed-past t' u i (e.leaf_hash leaf) s.hash_nodes after p (ground (arith, q))
                      settled r)
                  (v.consistent u)
          ];
          leaves = λ u j lt.
              Climbed-leaves t' u i j leaf s after inside lt settled leaves_settled
                (v.leaves u j lt) r
              ∙ ap e.leaf_hash (sym (get_leaf-updated t' u i j leaf s after));
        }

    updated-Updated :
        (t t' i : ℕ) (leaf : Leaf) (s : MerkleTree e) (after : e.nodes.Table)
        → t ≤ t'
        → i < 2 ^ height
        → Inv t s
        → Climbed e height laws t'
            (e.bit_path height i)
            (e.nodes.save t' (e.bit_path height i) (e.leaf_hash leaf) s.hash_nodes)
            after
        → Updated t' i leaf s (updated t' i leaf s after)
    unfolding get_root updated
    updated-Updated t t' i leaf s after le inside v r =
        let settled = Settled-later t t' s.hash_nodes le v.nodes_settled in
        record {
          inv = updated-Inv t t' i leaf s after le inside v r;
          past = λ u lt.
              get_node_hash_lem e height u [] after (omega arith)
              ∙ ap ok (Climbed-past t' u i (e.leaf_hash leaf) s.hash_nodes after [] lt settled r)
              ∙ sym (get_node_hash_lem e height u [] s.hash_nodes (omega arith));
          read = λ u j.
              get_leaf-updated t' u i j leaf s after
              ∙ get_leaf-save_leaf t' u i j leaf s
                  (λ k w lt. v.leaves_settled k w (omega (arith, le, lt)));
        }

    update_leaf-updated :
        (t i : ℕ) (leaf : Leaf) (s : MerkleTree e) (after : e.nodes.Table)
        → climb e height t
            (e.bit_path height i)
            (e.leaf_hash leaf)
            (e.nodes.save t (e.bit_path height i) (e.leaf_hash leaf) s.hash_nodes)
          ≡ ok after
        → update_leaf e height t i leaf s ≡ ok (updated t i leaf s after)
    unfolding update_leaf save_leaf updated
    update_leaf-updated t i leaf s after run = rw run

    -- Writing a leaf of the tree, no earlier than everything before, succeeds, and keeps the
    -- invariant and the roots of earlier timestamps; afterwards the leaf is read from its
    -- timestamp on, and every other read is what it was.
    pub update_leaf-Updated :
        (t t' i : ℕ) (leaf : Leaf) (s : MerkleTree e)
        → t ≤ t'
        → i < 2 ^ height
        → Inv t s
        → (after : MerkleTree e) × (update_leaf e height t' i leaf s ≡ ok after)
          × Updated t' i leaf s after
    update_leaf-Updated t t' i leaf s le inside v =
        let path = e.bit_path height i in
        let h = e.leaf_hash leaf in
        let nodes = s.hash_nodes in
        let full = laws.bit_path_length i in
        let settled = Settled-later t t' nodes le v.nodes_settled in
        let saved = e.nodes.save t' path h nodes in
        let c = node_hash-save e height laws t' t' path path h nodes settled in
        let here : node_hash e height t' path saved ≡ h = ground (arith, c, same_path_refl path) in
        let (after, run, r) =
          climb_lem e height laws t' path h saved (omega (arith, full))
            (save-IsSettled e.nodes laws.nodes_laws t t' path h nodes le v.nodes_settled) here
            (leaf_saved e height laws t' path h nodes full settled (v.consistent t')) in
        (
          updated t' i leaf s after,
          update_leaf-updated t' i leaf s after run,
          updated-Updated t t' i leaf s after le inside v r,
        )
