-- ===== src/ValidityProver/MerkleTree.antt =====
-- validity-prover/src/trees/merkle_tree: sql_node_hash.rs and sql_incremental_merkle_tree.rs, a Merkle
-- tree that remembers its state at every timestamp. A `BitPath` is the list of its bits, the one
-- that `pop` takes first. Each method is one database transaction on the three tables; a failing
-- database is left out. Lengths are taken to fit an i32, and positions and timestamps an i64, so that
-- the casts to the columns' types and back (`next_len as i32`, `row.len as usize`, `as i64`) keep them.
pub mod Nodes
pub mod Consistency
pub mod Proofs
pub mod Siblings
pub mod History
pub mod Examples
use intmax.Base.{
  ℕ, zero, suc, ◌+◌, max, Bool, true, false, not, List, [], ◌∷◌, ◌++◌, Option, none, some, Result,
  ok, err, ◌>>=◌, Panic, ◌≡◌, ◌↔◌, refl, arith, length, get_elem?, map, any, reverse, Eq, nat_eq,
  if◌then◌else◌, add_u64, String,
}
use intmax.Base.Map
use intmax.Base.Map.{HashMap}
use intmax.ValidityProver.Versions.{Versions}

pub data MerkleTreeError : Type 0 where
  wrong_path_length : ℕ → MerkleTreeError
  internal_error : String → MerkleTreeError
  panicked : Panic → MerkleTreeError

abbrev pub same_path : List Bool → List Bool → Bool
same_path [] [] = true
same_path [] (_ ∷ _) = false
same_path (_ ∷ _) [] = false
same_path (true ∷ p) (true ∷ q) = same_path p q
same_path (false ∷ p) (false ∷ q) = same_path p q
same_path (true ∷ p) (false ∷ q) = false
same_path (false ∷ p) (true ∷ q) = false

-- `Leafable` with its hasher, `BitPath::new` followed by `reverse`, and the three tables.
pub record TreeEnv : Type 1 where
  pub Leaf : Type 0
  pub Hash : Type 0
  pub leaf_hash : Leaf → Hash
  pub empty_leaf : Leaf
  pub two_to_one : Hash → Hash → Hash
  pub bit_path : (height index : ℕ) → List Bool
  pub nodes : Versions (List Bool) Hash
  pub leaves : Versions ℕ Leaf
  pub leaves_len : Versions Unit ℕ

pub same_path_iff : (p q : List Bool) → (same_path p q ≡ true) ↔ (p ≡ q)
same_path_iff [] [] = ((λ h. refl), (λ h. refl))
same_path_iff [] (b ∷ q) = ((λ h. cc), (λ h. cc))
same_path_iff (b ∷ p) [] = ((λ h. cc), (λ h. cc))
same_path_iff (true ∷ p) (true ∷ q) = let h = same_path_iff p q in ground arith
same_path_iff (false ∷ p) (false ∷ q) = let h = same_path_iff p q in ground arith
same_path_iff (true ∷ p) (false ∷ q) = ((λ h. cc), (λ h. cc))
same_path_iff (false ∷ p) (true ∷ q) = ((λ h. cc), (λ h. cc))

instance abbrev pub path_eq : Eq (List Bool)
path_eq = record { beq = same_path; beq_iff = same_path_iff }

-- The bit of `sibling` is the other one.
abbrev pub sibling : List Bool → Result MerkleTreeError (List Bool)
sibling [] = err (wrong_path_length 0)
sibling (b ∷ path) = ok (not b ∷ path)

module _ (e : TreeEnv) where
  open e use {Leaf, Hash}

  pub record MerkleTree : Type 0 where
    pub hash_nodes : e.nodes.Table
    pub leaf_rows : e.leaves.Table
    pub len_rows : e.leaves_len.Table

  -- The tables of a fresh tag.
  abbrev pub new : MerkleTree
  new = record {
    hash_nodes = e.nodes.empty;
    leaf_rows = e.leaves.empty;
    len_rows = e.leaves_len.empty;
  }

  -- The hashes of empty subtrees, from a leaf up.
  pub hashes_from : ℕ → Hash → List Hash
  hashes_from zero h = h ∷ []
  hashes_from (suc n) h = h ∷ hashes_from n (e.two_to_one h h)

  module _ (height : ℕ) where
    -- `SqlNodeHashes::new`: by depth.
    unfoldable pub zero_hashes : List Hash
    unfolding hashes_from
    zero_hashes = reverse (hashes_from height (e.leaf_hash e.empty_leaf))

    abbrev pub zero_hash_at : List Bool → Result MerkleTreeError Hash
    zero_hash_at path = elim (get_elem? zero_hashes (length path)) [
      | none ↦ err (panicked Panic.index_out_of_bounds)
      | some h ↦ ok h
    ]

    pub get_node_hash : ℕ → List Bool → e.nodes.Table → Result MerkleTreeError Hash
    get_node_hash timestamp path nodes = elim (e.nodes.latest timestamp path nodes) [
      | some h ↦ ok h
      | none ↦ zero_hash_at path
    ]

    pub get_sibling_hash : ℕ → List Bool → e.nodes.Table → Result MerkleTreeError Hash
    unfolding get_node_hash
    get_sibling_hash timestamp path nodes = sibling path >>= λ q. get_node_hash timestamp q nodes

    -- `entry(bit_path).or_insert(hash)` over the rows.
    pub or_insert_all :
        HashMap (List Bool) Hash → HashMap (List Bool) Hash → HashMap (List Bool) Hash
    or_insert_all [] m = m
    or_insert_all ((path, h) ∷ rows) m =
        or_insert_all rows (elim (Map.lookup path m) [ none ↦ Map.insert path h m | some _ ↦ m ])

    abbrev pub hash_or_zero : HashMap (List Bool) Hash → List Bool → Result MerkleTreeError Hash
    hash_or_zero m path = elim (Map.lookup path m) [ some h ↦ ok h | none ↦ zero_hash_at path ]

    abbrev pub hashes_or_zero :
        HashMap (List Bool) Hash → List (List Bool) → Result MerkleTreeError (List Hash)
    hashes_or_zero m [] = ok []
    hashes_or_zero m (path ∷ paths) = do
      h ← hash_or_zero m path
      hs ← hashes_or_zero m paths
      ok (h ∷ hs)

    -- `BitPath::sibling` of every path; the callers give non-empty paths.
    abbrev pub flip_all : List (List Bool) → List (List Bool)
    flip_all [] = []
    flip_all ([] ∷ paths) = [] ∷ flip_all paths
    flip_all ((b ∷ path) ∷ paths) = (not b ∷ path) ∷ flip_all paths

    unfoldable pub bulk_get_sibling_hashes :
        ℕ → List (List Bool) → e.nodes.Table → Result MerkleTreeError (List Hash)
    unfolding or_insert_all
    bulk_get_sibling_hashes timestamp paths nodes =
        let sibling_paths = flip_all paths in
        hashes_or_zero (or_insert_all (e.nodes.select timestamp sibling_paths nodes) [])
          sibling_paths

    -- The non-empty paths from a path to the root.
    abbrev pub paths_up : List Bool → List (List Bool)
    paths_up [] = []
    paths_up (b ∷ path) = (b ∷ path) ∷ paths_up path

    unfoldable pub get_root : ℕ → MerkleTree → Result MerkleTreeError Hash
    unfolding get_node_hash
    get_root timestamp s = get_node_hash timestamp [] s.hash_nodes

    -- The loop of `update_leaf`: a hash has just been stored at the path.
    unfoldable pub climb :
        ℕ → List Bool → Hash → e.nodes.Table → Result MerkleTreeError e.nodes.Table
    unfolding get_sibling_hash
    climb timestamp [] h nodes = ok nodes
    climb timestamp (b ∷ path) h nodes = do
      sibling ← get_sibling_hash timestamp (b ∷ path) nodes
      let new_h = if b then e.two_to_one sibling h else e.two_to_one h sibling
      climb timestamp path new_h (e.nodes.save timestamp path new_h nodes)

    unfoldable pub prove : ℕ → ℕ → MerkleTree → Result MerkleTreeError (List Hash)
    unfolding bulk_get_sibling_hashes
    prove timestamp index s =
        bulk_get_sibling_hashes timestamp (paths_up (e.bit_path height index)) s.hash_nodes

    unfoldable pub len : ℕ → MerkleTree → ℕ
    len timestamp s = elim (e.leaves_len.latest timestamp tt s.len_rows) [ none ↦ 0 | some n ↦ n ]

    unfoldable pub get_leaf : ℕ → ℕ → MerkleTree → Leaf
    get_leaf timestamp position s = elim (e.leaves.latest timestamp position s.leaf_rows) [
      | none ↦ e.empty_leaf
      | some leaf ↦ leaf
    ]

    unfoldable pub save_leaf : ℕ → ℕ → Leaf → MerkleTree → MerkleTree
    unfolding len
    save_leaf timestamp position leaf s =
        let next_len = max (add_u64 position 1) (len timestamp s) in
        record s {
          leaf_rows = e.leaves.save timestamp position leaf s.leaf_rows;
          len_rows = e.leaves_len.save timestamp tt next_len s.len_rows;
        }

    unfoldable pub update_leaf : ℕ → ℕ → Leaf → MerkleTree → Result MerkleTreeError MerkleTree
    unfolding save_leaf climb
    update_leaf timestamp index leaf s = do
      let path = e.bit_path height index
      let h = e.leaf_hash leaf
      let saved = save_leaf timestamp index leaf s
      nodes ← climb timestamp path h (e.nodes.save timestamp path h saved.hash_nodes)
      ok (record saved { hash_nodes = nodes })

    unfoldable pub push : ℕ → Leaf → MerkleTree → Result MerkleTreeError MerkleTree
    unfolding update_leaf
    push timestamp leaf s = update_leaf timestamp (len timestamp s) leaf s

    unfoldable pub reset : ℕ → MerkleTree → MerkleTree
    reset timestamp s = record {
      hash_nodes = e.nodes.delete_from timestamp s.hash_nodes;
      leaf_rows = e.leaves.delete_from timestamp s.leaf_rows;
      len_rows = e.leaves_len.delete_from timestamp s.len_rows;
    }
