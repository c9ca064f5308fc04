-- ===== src/ValidityProver/MerkleTree/Examples.antt =====
-- A tree of height 2 over small tables, after two writes and a reset, and the theorems applied to it.
use intmax.Base.{
  ℕ, ◌+◌, ◌*◌, ◌^◌, ◌≡◌, ◌<◌, refl, Bool, List, [], ◌∷◌, Result, ok, err, ◌||◌, ◌==◌, ltb,
  get_elem?, ap, arith, nat_eq,
}
use intmax.ValidityProver.Versions.{search_back}
use intmax.ValidityProver.Versions.Rows.{row_tables, row_tables_laws}
use intmax.ValidityProver.MerkleTree.{
  MerkleTreeError, TreeEnv, path_eq, MerkleTree, zero_hashes, new, prove, get_root, get_leaf, len,
  update_leaf, push, reset,
}
use intmax.ValidityProver.MerkleTree.Nodes.{TreeLaws, unit_eq}
use intmax.ValidityProver.MerkleTree.Proofs.{root_from}
use intmax.ValidityProver.MerkleTree.History.{
  History, started, written, pushed, History-prove, then_written, same, reset_later,
}

abbrev two_bits : ℕ → ℕ → List Bool
two_bits height i = ((i == 1) || (i == 3)) ∷ ltb 1 i ∷ []

abbrev pub small_tree : TreeEnv
small_tree = record {
  Leaf = ℕ;
  Hash = ℕ;
  leaf_hash = λ n. n + 1;
  empty_leaf = 0;
  two_to_one = λ a b. a + 10 * b;
  bit_path = two_bits;
  nodes = row_tables;
  leaves = row_tables;
  leaves_len = row_tables;
}

pub two_bits_injective : (i j : ℕ) → i < 2 ^ 2 → j < 2 ^ 2 → two_bits 2 i ≡ two_bits 2 j → i ≡ j
two_bits_injective i j hi hj q =
    let a = ap (λ p. get_elem? p 0) q in
    let b = ap (λ p. get_elem? p 1) q in ground (arith, a, b, hi, hj)

abbrev pub small_tree_laws : TreeLaws small_tree 2
small_tree_laws = record {
  nodes_laws = row_tables_laws;
  leaves_laws = row_tables_laws;
  len_laws = row_tables_laws;
  bit_path_length = λ i. refl;
  bit_path_injective = two_bits_injective;
}

abbrev unwrap_or_new : Result MerkleTreeError (MerkleTree small_tree) → MerkleTree small_tree
unwrap_or_new (ok s) = s
unwrap_or_new (err _) = new small_tree

pub one_leaf : MerkleTree small_tree
one_leaf = unwrap_or_new (update_leaf small_tree 2 5 2 7 (new small_tree))

two_leaves : MerkleTree small_tree
two_leaves = unwrap_or_new (push small_tree 2 8 9 one_leaf)

one_leaf_run : update_leaf small_tree 2 5 2 7 (new small_tree) ≡ ok one_leaf
unfolding one_leaf two_leaves update_leaf push len get_leaf search_back zero_hashes
one_leaf_run = refl

two_leaves_run : push small_tree 2 8 9 one_leaf ≡ ok two_leaves
unfolding one_leaf two_leaves update_leaf push len get_leaf search_back zero_hashes
two_leaves_run = refl

two_leaves_written : update_leaf small_tree 2 8 3 9 one_leaf ≡ ok two_leaves
unfolding one_leaf two_leaves update_leaf push len get_leaf search_back zero_hashes
two_leaves_written = refl

pub one_leaf-History : History small_tree 2 small_tree_laws 5 one_leaf
one_leaf-History =
    written 0 5 2 7 (new small_tree) one_leaf started (omega arith) (omega arith) one_leaf_run

one_leaf-len : len small_tree 2 8 one_leaf ≡ 3
unfolding one_leaf two_leaves update_leaf push len get_leaf search_back zero_hashes
one_leaf-len = refl

two_leaves-History : History small_tree 2 small_tree_laws 8 two_leaves
two_leaves-History =
    pushed 5 8 9 one_leaf two_leaves one_leaf-History (omega arith) (omega (arith, one_leaf-len))
      two_leaves_run

-- The two leaves are at the indices 2 and 3 from the timestamps 5 and 8 on.
two_leaves_at_6 : get_leaf small_tree 2 6 3 two_leaves ≡ 0
unfolding one_leaf two_leaves update_leaf push len get_leaf search_back zero_hashes
two_leaves_at_6 = refl

two_leaves_at_8 : get_leaf small_tree 2 8 3 two_leaves ≡ 9
unfolding one_leaf two_leaves update_leaf push len get_leaf search_back zero_hashes
two_leaves_at_8 = refl

History-prove_example :
    (hs : List ℕ) × (prove small_tree 2 6 2 two_leaves ≡ ok hs)
    × (get_root small_tree 2 6 two_leaves
        ≡ ok (root_from small_tree (two_bits 2 2) (get_leaf small_tree 2 6 2 two_leaves + 1) hs))
History-prove_example =
    History-prove small_tree 2 small_tree_laws 8 6 2 two_leaves two_leaves-History (omega arith)

reset_later_example :
    (get_root small_tree 2 9 (reset small_tree 2 6 two_leaves) ≡ get_root small_tree 2 9 one_leaf)
    × (get_leaf small_tree 2 9 3 (reset small_tree 2 6 two_leaves)
        ≡ get_leaf small_tree 2 9 3 one_leaf)
reset_later_example =
    reset_later small_tree 2 small_tree_laws 5 8 9 3 one_leaf two_leaves one_leaf-History (
      then_written 5 8 3 9 one_leaf two_leaves same (omega arith) (omega arith) (omega arith)
        two_leaves_written)
