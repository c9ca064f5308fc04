-- ===== src/ValidityProver/IndexedMerkleTree.antt =====
-- validity-prover/src/trees/merkle_tree/sql_indexed_merkle_tree.rs: the account tree, a Merkle tree
-- whose leaves form a list in the order of their keys. It remembers its state at every timestamp,
-- in the tables of `MerkleTree` with `indexed_leaves` for `leaves`; the three further queries on
-- that table are parameters. Lengths are taken to fit an i32, and positions and timestamps an i64, so
-- that the casts to the columns' types and back keep them.
pub mod Rows
pub mod Insertion
pub mod Revaluation
pub mod Updates
pub mod Queries
pub mod Tables
pub mod Growth
pub mod Inserting
pub mod Proofs
pub mod Revaluing
pub mod Beginning
pub mod History
pub mod FiniteRows
pub mod Examples
use intmax.Base.{
  ℕ, zero, suc, ◌+◌, Bool, true, false, ◌&&◌, ◌||◌, List, [], ◌∷◌, ◌++◌, Option, none, some, Result,
  ok, err, ◌>>=◌, Panic, if◌then◌else◌, ◌==◌, ltb, leb, ok_or, nat_eq,
}
use intmax.Base.Sort.{sort_by}
use intmax.ValidityProver.Versions.{Versions}
use intmax.ValidityProver.MerkleTree
use intmax.ValidityProver.MerkleTree.{
  MerkleTreeError, internal_error, panicked, TreeEnv, MerkleTree, bulk_get_sibling_hashes, paths_up,
}

-- The fields of a row of `indexed_leaves`.
pub record IndexedMerkleLeaf : Type 0 where
  pub next_index : ℕ
  pub key : ℕ
  pub next_key : ℕ
  pub value : ℕ

-- The hashes and paths of intmax2-zkp, the tables, and the queries.
pub record IndexedEnv : Type 1 where
  pub Hash : Type 0
  pub leaf_hash : IndexedMerkleLeaf → Hash
  pub empty_leaf : IndexedMerkleLeaf
  pub default_leaf : IndexedMerkleLeaf
  pub dummy_pubkey : ℕ
  pub two_to_one : Hash → Hash → Hash
  pub bit_path : (height index : ℕ) → List Bool
  pub nodes : Versions (List Bool) Hash
  pub leaves : Versions ℕ IndexedMerkleLeaf
  pub leaves_len : Versions Unit ℕ
  -- `SELECT timestamp .. ORDER BY timestamp DESC LIMIT 1`.
  pub last_timestamp : leaves.Table → Option ℕ
  -- `SELECT position .. WHERE key = .. AND timestamp <= .. ORDER BY timestamp DESC LIMIT 1`.
  pub with_key : ℕ → ℕ → leaves.Table → List ℕ
  -- `SELECT position, timestamp .. WHERE next_key > .. AND key < .. AND timestamp <= ..
  -- ORDER BY timestamp DESC LIMIT 1`.
  pub not_on_edge : ℕ → ℕ → leaves.Table → Option (ℕ × ℕ)
  -- `SELECT position, timestamp .. WHERE next_key = 0 AND key < .. AND timestamp <= ..
  -- ORDER BY timestamp DESC LIMIT 1`.
  pub on_edge : ℕ → ℕ → leaves.Table → Option (ℕ × ℕ)

-- The tables and hashes as the incremental tree has them.
abbrev pub tree : IndexedEnv → TreeEnv
tree e = record {
  Leaf = IndexedMerkleLeaf;
  Hash = e.Hash;
  leaf_hash = e.leaf_hash;
  empty_leaf = e.empty_leaf;
  two_to_one = e.two_to_one;
  bit_path = e.bit_path;
  nodes = e.nodes;
  leaves = e.leaves;
  leaves_len = e.leaves_len;
}

-- The rows that are there, of at most two.
abbrev pub candidates_of : Option (ℕ × ℕ) → Option (ℕ × ℕ) → List (ℕ × ℕ)
candidates_of none none = []
candidates_of none (some b) = b ∷ []
candidates_of (some a) none = a ∷ []
candidates_of (some a) (some b) = a ∷ b ∷ []

-- The first, once they are sorted by timestamp, the latest first.
pub first_candidate : List (ℕ × ℕ) → Result MerkleTreeError ℕ
unfolding sort_by
first_candidate candidates = elim (sort_by (λ a b. leb b.1 a.1) candidates) [
  | [] ↦ err (internal_error "key already exists")
  | c ∷ _ ↦ ok c.0
]

-- `MembershipProof`, `IndexedInsertionProof` and `UpdateProof` of the crate intmax2-zkp.
pub record MembershipProof (H : Type 0) : Type 0 where
  pub is_included : Bool
  pub leaf_index : ℕ
  pub leaf : IndexedMerkleLeaf
  pub leaf_proof : List H

pub record IndexedInsertionProof (H : Type 0) : Type 0 where
  pub index : ℕ
  pub low_leaf_proof : List H
  pub leaf_proof : List H
  pub low_leaf_index : ℕ
  pub prev_low_leaf : IndexedMerkleLeaf

pub record UpdateProof (H : Type 0) : Type 0 where
  pub leaf_proof : List H
  pub leaf_index : ℕ
  pub prev_leaf : IndexedMerkleLeaf

module _ (e : IndexedEnv) where
  open e use {Hash}

  abbrev pub Tree : Type 0
  Tree = MerkleTree (tree e)

  abbrev pub new : Tree
  new = MerkleTree.new (tree e)

  -- The two leaves that an insertion writes.
  abbrev pub new_low_leaf : IndexedMerkleLeaf → ℕ → ℕ → IndexedMerkleLeaf
  new_low_leaf prev_low_leaf index key = record prev_low_leaf { next_index = index; next_key = key }

  abbrev pub new_leaf : IndexedMerkleLeaf → ℕ → ℕ → IndexedMerkleLeaf
  new_leaf prev_low_leaf key value = record {
    next_index = prev_low_leaf.next_index;
    key = key;
    next_key = prev_low_leaf.next_key;
    value = value;
  }

  pub get_last_timestamp : Tree → ℕ
  get_last_timestamp s = elim (e.last_timestamp s.leaf_rows) [ none ↦ 0 | some t ↦ t ]

  pub index : ℕ → ℕ → Tree → Result MerkleTreeError (Option ℕ)
  index timestamp key s = elim (e.with_key timestamp key s.leaf_rows) [
    | [] ↦ ok none
    | position ∷ rest ↦ elim rest [
      | [] ↦ ok (some position)
      | _ ∷ _ ↦ err (internal_error "find_index: too many candidates")
    ]
  ]

  pub low_index : ℕ → ℕ → Tree → Result MerkleTreeError ℕ
  unfolding first_candidate
  low_index timestamp key s = first_candidate (
      candidates_of (e.not_on_edge timestamp key s.leaf_rows) (e.on_edge timestamp key s.leaf_rows))

  -- The rest of the loop of `update_leaf`, over the sibling hashes.
  pub climb_with :
      ℕ → List Bool → Hash → List Hash → e.nodes.Table → Result MerkleTreeError e.nodes.Table
  climb_with timestamp path h [] nodes = ok nodes
  climb_with timestamp [] h (sibling ∷ siblings) nodes = err (panicked Panic.unwrap_none)
  climb_with timestamp (b ∷ path) h (sibling ∷ siblings) nodes =
      let new_h = if b then e.two_to_one sibling h else e.two_to_one h sibling in
      climb_with timestamp path new_h siblings (e.nodes.save timestamp path new_h nodes)

  module _ (height : ℕ) where
    abbrev pub len : ℕ → Tree → ℕ
    len = MerkleTree.len (tree e) height

    abbrev pub get_leaf : ℕ → ℕ → Tree → IndexedMerkleLeaf
    get_leaf = MerkleTree.get_leaf (tree e) height

    abbrev pub save_leaf : ℕ → ℕ → IndexedMerkleLeaf → Tree → Tree
    save_leaf = MerkleTree.save_leaf (tree e) height

    abbrev pub reset : ℕ → Tree → Tree
    reset = MerkleTree.reset (tree e) height

    abbrev pub get_root : ℕ → Tree → Result MerkleTreeError Hash
    get_root = MerkleTree.get_root (tree e) height

    abbrev pub prove : ℕ → ℕ → Tree → Result MerkleTreeError (List Hash)
    prove = MerkleTree.prove (tree e) height

    -- `key`: the column of the row that `get_leaf` reads, and zero where there is no row.
    abbrev pub key_at : ℕ → ℕ → Tree → ℕ
    key_at timestamp position s = elim (e.leaves.latest timestamp position s.leaf_rows) [
      | none ↦ 0
      | some leaf ↦ leaf.key
    ]

    pub update_leaf : ℕ → ℕ → IndexedMerkleLeaf → Tree → Result MerkleTreeError Tree
    unfolding climb_with
    update_leaf timestamp position leaf s = do
      let path = e.bit_path height position
      let leaf_hash = e.leaf_hash leaf
      let saved = save_leaf timestamp position leaf s
      let nodes = e.nodes.save timestamp path leaf_hash saved.hash_nodes
      sibling_hashes ←
          bulk_get_sibling_hashes (tree e) height timestamp (paths_up (tree e) height path) nodes
      after ← climb_with timestamp path leaf_hash sibling_hashes nodes
      ok (record saved { hash_nodes = after })

    pub push : ℕ → IndexedMerkleLeaf → Tree → Result MerkleTreeError Tree
    unfolding update_leaf
    push timestamp leaf s = update_leaf timestamp (len timestamp s) leaf s

    pub insert : ℕ → ℕ → ℕ → Tree → Result MerkleTreeError Tree
    unfolding low_index update_leaf push
    insert timestamp key value s = do
      let position = len timestamp s
      low ← low_index timestamp key s
      let prev_low_leaf = get_leaf timestamp low s
      linked ← update_leaf timestamp low (new_low_leaf prev_low_leaf position key) s
      push timestamp (new_leaf prev_low_leaf key value) linked

    pub prove_and_insert :
        ℕ → ℕ → ℕ → Tree → Result MerkleTreeError (Tree × IndexedInsertionProof Hash)
    unfolding low_index update_leaf push
    prove_and_insert timestamp key value s = do
      let position = len timestamp s
      low ← low_index timestamp key s
      let prev_low_leaf = get_leaf timestamp low s
      low_leaf_proof ← prove timestamp low s
      linked ← update_leaf timestamp low (new_low_leaf prev_low_leaf position key) s
      after ← push timestamp (new_leaf prev_low_leaf key value) linked
      leaf_proof ← prove timestamp position after
      ok (
        after,
        record {
          index = position;
          low_leaf_proof = low_leaf_proof;
          leaf_proof = leaf_proof;
          low_leaf_index = low;
          prev_low_leaf = prev_low_leaf;
        },
      )

    pub prove_and_update : ℕ → ℕ → ℕ → Tree → Result MerkleTreeError (Tree × UpdateProof Hash)
    unfolding index update_leaf
    prove_and_update timestamp key new_value s = do
      found ← index timestamp key s
      position ← ok_or found (internal_error "key not found")
      let prev_leaf = get_leaf timestamp position s
      after ← update_leaf timestamp position (record prev_leaf { value = new_value }) s
      leaf_proof ← prove timestamp position after
      ok (after, record { leaf_proof = leaf_proof; leaf_index = position; prev_leaf = prev_leaf })

    pub prove_membership : ℕ → ℕ → Tree → Result MerkleTreeError (MembershipProof Hash)
    unfolding index low_index
    prove_membership timestamp key s = do
      found ← index timestamp key s
      position ← elim found [ some i ↦ ok i | none ↦ low_index timestamp key s ]
      leaf_proof ← prove timestamp position s
      ok (record {
        is_included = elim found [ some _ ↦ true | none ↦ false ];
        leaf_index = position;
        leaf = get_leaf timestamp position s;
        leaf_proof = leaf_proof;
      })

    -- `AccountMerkleProof`, with the leaf first.
    pub prove_inclusion : ℕ → ℕ → Tree → Result MerkleTreeError (IndexedMerkleLeaf × List Hash)
    prove_inclusion timestamp account_id s = do
      merkle_proof ← prove timestamp account_id s
      ok (get_leaf timestamp account_id s, merkle_proof)

    pub initialize : Tree → Result MerkleTreeError Tree
    unfolding get_last_timestamp
    initialize s =
        let last_timestamp = get_last_timestamp s in
        if (last_timestamp == 0) && (len last_timestamp s == 0)
        then (push last_timestamp e.default_leaf s >>= λ pushed.
            if len last_timestamp pushed == 1
            then insert last_timestamp e.dummy_pubkey 0 pushed
            else ok pushed)
        else ok s
