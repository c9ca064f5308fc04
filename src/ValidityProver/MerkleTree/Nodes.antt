-- ===== src/ValidityProver/MerkleTree/Nodes.antt =====
-- validity-prover/src/trees/merkle_tree/sql_node_hash.rs: the hash of every node at every timestamp.
use intmax.Base.{
  reverse, ℕ, zero, suc, ◌+◌, ◌-◌, ◌^◌, ◌≡◌, ◌<◌, ◌≤◌, ◌∙◌, refl, ap, inl, inr, Bool, true, not,
  List, [], ◌∷◌, ◌++◌, none, some, ok, Eq, nat_eq, length, length-append, get_elem?, if◌then◌else◌,
  leb, any, arith, Option-cases, All,
}
use intmax.Base.Map
use intmax.Base.Map.{HashMap, lookup-insert, beq_refl}
use intmax.Base.Search.{get_elem?-append_left, All-any}
use intmax.ValidityProver.Versions.{VersionsLaws}
use intmax.ValidityProver.Versions.Laws.{
  IsSettled, latest-save, latest-quiet, latest-empty, latest-delete_from,
}
use intmax.ValidityProver.MerkleTree.{
  TreeEnv, path_eq, same_path, hashes_from, zero_hashes, get_node_hash, get_sibling_hash,
  or_insert_all, hash_or_zero, hashes_or_zero, flip_all, bulk_get_sibling_hashes, paths_up,
}

instance abbrev pub unit_eq : Eq (Unit {0})
unit_eq = record { beq = λ a b. true; beq_iff = λ a b. ((λ h. refl), (λ h. refl)) }

-- The tables behave as tables, and the paths of the leaves have the height of the tree and are
-- distinct.
pub record TreeLaws (e : TreeEnv) (height : ℕ) : Type 0 where
  pub nodes_laws : VersionsLaws e.nodes
  pub leaves_laws : VersionsLaws e.leaves
  pub len_laws : VersionsLaws e.leaves_len
  pub bit_path_length : (i : ℕ) → length (e.bit_path height i) ≡ height
  pub bit_path_injective :
      (i j : ℕ)
      → i < 2 ^ height
      → j < 2 ^ height
      → e.bit_path height i ≡ e.bit_path height j
      → i ≡ j

get_elem?-append_last {ℓ} :
    {A : Type ℓ} (xs : List A) (a : A) → get_elem? (xs ++ a ∷ []) (length xs) ≡ some a
get_elem?-append_last [] a = refl
get_elem?-append_last (x ∷ xs) a = get_elem?-append_last xs a

module _ (e : TreeEnv) where
  open e use {Leaf, Hash}

  -- The hash of an empty subtree whose leaves are that many levels below.
  pub zero_at : ℕ → Hash → Hash
  zero_at zero h = h
  zero_at (suc n) h = zero_at n (e.two_to_one h h)

  pub zero_at-suc :
      (n : ℕ) (h : Hash) → zero_at (suc n) h ≡ e.two_to_one (zero_at n h) (zero_at n h)
  unfolding zero_at
  zero_at-suc zero h = refl
  zero_at-suc (suc n) h = zero_at-suc n (e.two_to_one h h)

  length-hashes_from : (n : ℕ) (h : Hash) → length (reverse (hashes_from e n h)) ≡ suc n
  unfolding hashes_from
  length-hashes_from zero h = refl
  length-hashes_from (suc n) h = omega (
    arith,
    length-append (reverse (hashes_from e n (e.two_to_one h h))) (h ∷ []),
    length-hashes_from n (e.two_to_one h h),
  )

  hashes_from-reverse :
      (n d k : ℕ) (h : Hash)
      → d + k ≡ n
      → get_elem? (reverse (hashes_from e n h)) d ≡ some (zero_at k h)
  unfolding hashes_from zero_at
  hashes_from-reverse zero d k h q =
      let d0 : d ≡ 0 = omega (arith, q) in let k0 : k ≡ 0 = omega (arith, q) in rw (d0, k0)
  hashes_from-reverse (suc n) d zero h q =
      let l = length-hashes_from n (e.two_to_one h h) in
      let d0 : d ≡ length (reverse (hashes_from e n (e.two_to_one h h))) = omega (arith, q, l) in
      rw d0 (get_elem?-append_last (reverse (hashes_from e n (e.two_to_one h h))) h)
  hashes_from-reverse (suc n) d (suc k) h q =
      get_elem?-append_left _ (h ∷ []) d (omega (arith, q, length-hashes_from n (e.two_to_one h h)))
      ∙ (hashes_from-reverse n d k (e.two_to_one h h) (omega (arith, q)))

  module _ (height : ℕ) where
    -- The hash of a node at a timestamp: what is stored, or the hash of an empty subtree.
    pub node_hash : ℕ → List Bool → e.nodes.Table → Hash
    node_hash t p nodes = elim (e.nodes.latest t p nodes) [
      | some h ↦ h
      | none ↦ zero_at (height - length p) (e.leaf_hash e.empty_leaf)
    ]

    zero_hashes_lem :
        (p : List Bool)
        → length p ≤ height
        → get_elem? (zero_hashes e height) (length p)
          ≡ some (zero_at (height - length p) (e.leaf_hash e.empty_leaf))
    unfolding zero_hashes
    zero_hashes_lem p h =
        hashes_from-reverse height (length p) (height - length p) _ (omega (arith, h))

    pub get_node_hash_lem :
        (t : ℕ) (p : List Bool) (nodes : e.nodes.Table)
        → length p ≤ height
        → get_node_hash e height t p nodes ≡ ok (node_hash t p nodes)
    unfolding get_node_hash node_hash
    get_node_hash_lem t p nodes h = let z = zero_hashes_lem p h in ground arith

    pub get_sibling_hash_lem :
        (t : ℕ) (b : Bool) (p : List Bool) (nodes : e.nodes.Table)
        → length p < height
        → get_sibling_hash e height t (b ∷ p) nodes ≡ ok (node_hash t (not b ∷ p) nodes)
    unfolding get_sibling_hash
    get_sibling_hash_lem t b p nodes h = get_node_hash_lem t (not b ∷ p) nodes (omega (arith, h))

    module _ (laws : TreeLaws e height) where
      abbrev pub NodesSettled : ℕ → e.nodes.Table → Type 0
      NodesSettled = IsSettled e.nodes laws.nodes_laws

      -- Storing a hash after everything else changes one node, from its timestamp on.
      pub node_hash-save :
          (t u : ℕ) (p q : List Bool) (h : Hash) (nodes : e.nodes.Table)
          → NodesSettled t nodes
          → node_hash u q (e.nodes.save t p h nodes) ≡ (
              if same_path q p
              then (if leb t u then h else node_hash u q nodes)
              else node_hash u q nodes)
      unfolding node_hash
      node_hash-save t u p q h nodes s =
          let l = latest-save e.nodes laws.nodes_laws t p q h nodes u s in ground arith

      pub node_hash-quiet :
          (t u : ℕ) (p : List Bool) (nodes : e.nodes.Table)
          → t ≤ u
          → NodesSettled t nodes
          → node_hash u p nodes ≡ node_hash t p nodes
      unfolding node_hash
      node_hash-quiet t u p nodes le s =
          let l = latest-quiet e.nodes laws.nodes_laws t u p nodes le s in ground arith

      pub node_hash-new :
          (t : ℕ) (p : List Bool)
          → node_hash t p e.nodes.empty ≡ zero_at (height - length p) (e.leaf_hash e.empty_leaf)
      unfolding node_hash
      node_hash-new t p = let l = latest-empty e.nodes laws.nodes_laws t p in ground arith

      pub empty-node_hash :
          (t : ℕ) (p : List Bool)
          → length p ≡ height
          → node_hash t p e.nodes.empty ≡ e.leaf_hash e.empty_leaf
      unfolding zero_at
      empty-node_hash t p full =
          let k : height - length p ≡ 0 = omega (arith, full) in
          node_hash-new t p ∙ ap (λ m. zero_at m (e.leaf_hash e.empty_leaf)) k

      pub node_hash-delete_from :
          (t u : ℕ) (p : List Bool) (nodes : e.nodes.Table)
          → u < t
          → node_hash u p (e.nodes.delete_from t nodes) ≡ node_hash u p nodes
      unfolding node_hash
      node_hash-delete_from t u p nodes lt =
          let l = latest-delete_from e.nodes laws.nodes_laws t u p nodes lt in ground arith

      -- The first of the rows of a path is kept.
      or_insert_all-lookup :
          (rows m : HashMap (List Bool) Hash) (p : List Bool)
          → Map.lookup p (or_insert_all e height rows m)
            ≡ elim (Map.lookup p m) [ some h ↦ some h | none ↦ Map.lookup p rows ]
      unfolding or_insert_all Map.lookup
      or_insert_all-lookup [] m p = ground arith
      or_insert_all-lookup ((q, h) ∷ rows) m p = elim (Option-cases (Map.lookup q m)) [
        | inl n ↦
            let r = or_insert_all-lookup rows (Map.insert q h m) p in
            let i = lookup-insert p q h m in
            let w = path_eq.beq_iff q p in ground (arith, n, r, i, w)
        | inr (x, n) ↦
            let r = or_insert_all-lookup rows m p in
            let w = path_eq.beq_iff q p in ground (arith, n, r, w)
      ]

      -- The siblings of a path, from its end to the root.
      abbrev pub siblings : ℕ → List Bool → e.nodes.Table → List Hash
      siblings t [] nodes = []
      siblings t (b ∷ p) nodes = node_hash t (not b ∷ p) nodes ∷ siblings t p nodes

      hash_or_zero_lem :
          (t : ℕ) (ks : List (List Bool)) (q : List Bool) (nodes : e.nodes.Table)
          → length q ≤ height
          → any (same_path q) ks ≡ true
          → hash_or_zero e height (or_insert_all e height (e.nodes.select t ks nodes) []) q
            ≡ ok (node_hash t q nodes)
      unfolding node_hash Map.lookup
      hash_or_zero_lem t ks q nodes short inside =
          let z = zero_hashes_lem q short in
          let r = or_insert_all-lookup (e.nodes.select t ks nodes) [] q in
          let f = laws.nodes_laws.select_first t q ks nodes in
          let n : Map.lookup q (or_insert_all e height (e.nodes.select t ks nodes) [])
              ≡ e.nodes.latest t q nodes =
            r ∙ f ∙ ground (arith, inside) in
          ground (arith, z, n)

      hashes_or_zero-siblings :
          (t : ℕ) (ks : List (List Bool)) (p : List Bool) (nodes : e.nodes.Table)
          → length p ≤ height
          → All (λ q. any (same_path q) ks ≡ true) (flip_all e height (paths_up e height p))
          → hashes_or_zero e height
              (or_insert_all e height (e.nodes.select t ks nodes) [])
              (flip_all e height (paths_up e height p))
            ≡ ok (siblings t p nodes)
      hashes_or_zero-siblings t ks [] nodes short inside = refl
      hashes_or_zero-siblings t ks (b ∷ p) nodes short inside =
          let here = hash_or_zero_lem t ks (not b ∷ p) nodes short inside.0 in
          let rest = hashes_or_zero-siblings t ks p nodes (omega (arith, short)) inside.1 in
          rw (here, rest)

      -- Reading the siblings of a path in bulk gives what reading them one by one gives.
      pub bulk_get_sibling_hashes-siblings :
          (t : ℕ) (p : List Bool) (nodes : e.nodes.Table)
          → length p ≤ height
          → bulk_get_sibling_hashes e height t (paths_up e height p) nodes ≡ ok (siblings t p nodes)
      unfolding bulk_get_sibling_hashes
      bulk_get_sibling_hashes-siblings t p nodes short =
          let ks = flip_all e height (paths_up e height p) in
          hashes_or_zero-siblings t ks p nodes short (All-any same_path ks ks beq_refl (λ q h. h))
