-- ===== src/ValidityProver/MerkleTree/Consistency.antt =====
-- validity-prover/src/trees/merkle_tree/sql_incremental_merkle_tree.rs: what update_leaf does to the
-- hashes of the nodes.
use intmax.Base.{
  ℕ, suc, ◌-◌, ◌≡◌, ◌<◌, ◌≤◌, ◌∙◌, refl, sym, ap, inl, inr, Bool, true, false, not, List, [], ◌∷◌,
  ok, length, if◌then◌else◌, arith, Bool-cases,
}
use intmax.ValidityProver.Versions.Laws.{save-IsSettled}
use intmax.ValidityProver.MerkleTree.{TreeEnv, path_eq, same_path, same_path_iff, climb}
use intmax.ValidityProver.MerkleTree.Nodes.{
  TreeLaws, zero_at, zero_at-suc, node_hash, node_hash-save, node_hash-new, get_sibling_hash_lem,
  NodesSettled,
}

pub is_parent : List Bool → List Bool → Bool
is_parent p [] = false
is_parent p (b ∷ q) = same_path p q

pub same_path_refl : (p : List Bool) → same_path p p ≡ true
same_path_refl p = (same_path_iff p p).1 refl

pub same_path-longer : (p q : List Bool) → length q < length p → same_path p q ≡ false
same_path-longer p q h = elim (Bool-cases (same_path p q)) [
  | inr e ↦ e
  | inl e ↦ let same = ap length ((same_path_iff p q).0 e) in absurd (omega (arith, h, same))
]

child-same_path :
    (c : Bool) (p path : List Bool) → is_parent p path ≡ false → same_path (c ∷ p) path ≡ false
unfolding is_parent
child-same_path true p [] h = refl
child-same_path false p [] h = refl
child-same_path true p (true ∷ q) h = h
child-same_path false p (false ∷ q) h = h
child-same_path true p (false ∷ q) h = refl
child-same_path false p (true ∷ q) h = refl

module _ (e : TreeEnv) (height : ℕ) (laws : TreeLaws e height) where
  open e use {Hash}

  abbrev pub N : ℕ → List Bool → e.nodes.Table → Hash
  N = node_hash e height

  abbrev pub Settled : ℕ → e.nodes.Table → Type 0
  Settled = NodesSettled e height laws

  abbrev pub Joins : ℕ → e.nodes.Table → List Bool → Type 0
  Joins t nodes p = N t p nodes ≡ e.two_to_one (N t (false ∷ p) nodes) (N t (true ∷ p) nodes)

  -- At a timestamp every inner node has the hash of its two children.
  abbrev pub IsConsistent : ℕ → e.nodes.Table → Type 0
  IsConsistent t nodes = (p : List Bool) → length p < height → Joins t nodes p

  -- The same, but for the parent of a path.
  abbrev pub ConsistentBut : List Bool → ℕ → e.nodes.Table → Type 0
  ConsistentBut path t nodes =
      (p : List Bool) → length p < height → is_parent p path ≡ false → Joins t nodes p

  pub new-IsConsistent : (t : ℕ) → IsConsistent t e.nodes.empty
  new-IsConsistent t p short =
      let n = node_hash-new e height laws t in
      let k : height - length p ≡ suc (height - suc (length p)) = omega (arith, short) in
      let h0 = e.leaf_hash e.empty_leaf in
      n p
      ∙ ap (λ m. zero_at e m h0) k
      ∙ zero_at-suc e (height - suc (length p)) h0
      ∙ sym (rw (n (false ∷ p), n (true ∷ p)))

  pub record Climbed (t : ℕ) (path : List Bool) (nodes after : e.nodes.Table) : Type 0 where
    pub settled : Settled t after
    pub consistent : IsConsistent t after
    pub past : (u : ℕ) (p : List Bool) → u < t → N u p after ≡ N u p nodes
    pub below : (p : List Bool) → length path ≤ length p → N t p after ≡ N t p nodes

  children :
      (b : Bool) (t : ℕ) (path : List Bool) (h new_h : Hash) (nodes : e.nodes.Table)
      → N t (b ∷ path) nodes ≡ h
      → new_h ≡ (
          if b
          then e.two_to_one (N t (not b ∷ path) nodes) h
          else e.two_to_one h (N t (not b ∷ path) nodes))
      → new_h ≡ e.two_to_one (N t (false ∷ path) nodes) (N t (true ∷ path) nodes)
  children true t path h new_h nodes stored new = cc
  children false t path h new_h nodes stored new = cc

  -- The leaf's own hash, at the full height, is no inner node's.
  pub leaf_saved :
      (t : ℕ) (path : List Bool) (h : Hash) (nodes : e.nodes.Table)
      → length path ≡ height
      → Settled t nodes
      → IsConsistent t nodes
      → ConsistentBut path t (e.nodes.save t path h nodes)
  leaf_saved t path h nodes full s all p lt other =
      let c0 = node_hash-save e height laws t t path p h nodes s in
      let c1 = node_hash-save e height laws t t path (false ∷ p) h nodes s in
      let c2 = node_hash-save e height laws t t path (true ∷ p) h nodes s in
      let k1 = child-same_path false p path other in
      let k2 = child-same_path true p path other in
      let k0 : same_path p path ≡ false = elim (Bool-cases (same_path p path)) [
        | inr q ↦ q
        | inl q ↦
            let same = ap length ((same_path_iff p path).0 q) in
            absurd (omega (arith, lt, full, same))
      ] in
      let old = all p lt in ground (arith, c0, c1, c2, k0, k1, k2, old)

  -- One round: the parent's hash is stored.
  joined :
      (t : ℕ) (b : Bool) (path : List Bool) (h new_h : Hash) (nodes : e.nodes.Table)
      → length path < height
      → Settled t nodes
      → N t (b ∷ path) nodes ≡ h
      → new_h ≡ (
          if b
          then e.two_to_one (N t (not b ∷ path) nodes) h
          else e.two_to_one h (N t (not b ∷ path) nodes))
      → ConsistentBut (b ∷ path) t nodes
      → ConsistentBut path t (e.nodes.save t path new_h nodes)
  unfolding is_parent
  joined t b path h new_h nodes short s stored new but p lt other =
      let c0 = node_hash-save e height laws t t path p new_h nodes s in
      let c1 = node_hash-save e height laws t t path (false ∷ p) new_h nodes s in
      let c2 = node_hash-save e height laws t t path (true ∷ p) new_h nodes s in
      let k1 = child-same_path false p path other in
      let k2 = child-same_path true p path other in
      elim (Bool-cases (same_path p path)) [
        | inr q ↦ let old = but p lt q in ground (arith, c0, c1, c2, k1, k2, q, old)
        | inl q ↦
            let same = (same_path_iff p path).0 q in
            let both = children b t path h new_h nodes stored new in
            ground (arith, c0, c1, c2, k1, k2, q, same, both)
      ]

  pub climb_lem :
      (t : ℕ) (path : List Bool) (h : Hash) (nodes : e.nodes.Table)
      → length path ≤ height
      → Settled t nodes
      → N t path nodes ≡ h
      → ConsistentBut path t nodes
      → (after : e.nodes.Table) × (climb e height t path h nodes ≡ ok after)
        × Climbed t path nodes after
  unfolding climb is_parent
  climb_lem t [] h nodes short s stored but = (
    nodes,
    refl,
    record {
      settled = s;
      consistent = λ p lt. but p lt refl;
      past = λ u p lt. refl;
      below = λ p le. refl;
    },
  )
  climb_lem t (b ∷ path) h nodes short s stored but =
      let sib = N t (not b ∷ path) nodes in
      let new_h = if b then e.two_to_one sib h else e.two_to_one h sib in
      let saved = e.nodes.save t path new_h nodes in
      let read = get_sibling_hash_lem e height t b path nodes (omega (arith, short)) in
      let self = same_path_refl path in
      let c0 = node_hash-save e height laws t t path path new_h nodes s in
      let here : N t path saved ≡ new_h = ground (arith, c0, self) in
      let (after, run, r) =
        climb_lem t path new_h saved (omega (arith, short))
          (save-IsSettled e.nodes laws.nodes_laws t t path new_h nodes (omega arith) s) here
          (joined t b path h new_h nodes (omega (arith, short)) s stored refl but) in
      (
        after,
        rw (read, climb) run,
        record {
          settled = r.settled;
          consistent = r.consistent;
          past = λ u p lt.
              let c = node_hash-save e height laws t u path p new_h nodes s in
              r.past u p lt ∙ ground (arith, c, lt);
          below = λ p le.
              let c = node_hash-save e height laws t t path p new_h nodes s in
              let k = same_path-longer p path (omega (arith, le)) in
              r.below p (omega (arith, le)) ∙ ground (arith, c, k);
        },
      )
