-- ===== src/ValidityProver/IndexedMerkleTree/Examples.antt =====
-- An account tree of height 2 over small tables, with the dummy key and one more, and the theorems
-- applied to it.
use intmax.Base.{
  ℕ, ◌+◌, ◌*◌, ◌^◌, ◌≡◌, ◌<◌, refl, Bool, false, List, [], ◌∷◌, Option, none, some, Result, ok, err,
  ◌||◌, ◌==◌, ltb, leb, get_elem?, ap, arith, nat_eq, if◌then◌else◌,
}
use intmax.Base.Map
use intmax.ValidityProver.Versions.{search_back}
use intmax.ValidityProver.Versions.Rows.{row_tables, row_tables_laws}
use intmax.ValidityProver.MerkleTree
use intmax.ValidityProver.MerkleTree.{
  MerkleTreeError, path_eq, zero_hashes, bulk_get_sibling_hashes,
}
use intmax.ValidityProver.MerkleTree.Nodes.{TreeLaws, unit_eq}
use intmax.ValidityProver.IndexedMerkleTree.{
  IndexedMerkleLeaf, IndexedEnv, IndexedInsertionProof, MembershipProof, UpdateProof, tree, Tree,
  new, len, index, low_index, get_leaf, insert, push, prove_and_insert, prove_and_update,
  prove_membership, initialize,
}
use intmax.ValidityProver.IndexedMerkleTree.Rows.{has_key, is_not_on_edge, is_on_edge}
use intmax.ValidityProver.IndexedMerkleTree.Queries.{FirstRow, positions}
use intmax.ValidityProver.IndexedMerkleTree.FiniteRows.{
  FiniteTable, finite_tables, finite_tables_laws, find_row, find_row-none, find_row-some,
}
use intmax.ValidityProver.IndexedMerkleTree.Growth.{IndexedLaws}
use intmax.ValidityProver.IndexedMerkleTree.Proofs.{ShowsMembership, ShowsInsertion}
use intmax.ValidityProver.IndexedMerkleTree.Revaluing.{ShowsUpdate}
use intmax.ValidityProver.IndexedMerkleTree.History.{
  IndexedHistory, initialized, inserted, IndexedHistory-prove_membership, IndexedHistory-insert,
  IndexedHistory-prove_and_insert, IndexedHistory-prove_and_update, low_index_stale,
}

abbrev zero_leaf : IndexedMerkleLeaf
zero_leaf = record { next_index = 0; key = 0; next_key = 0; value = 0 }

abbrev two_bits : ℕ → ℕ → List Bool
two_bits height i = ((i == 1) || (i == 3)) ∷ ltb 1 i ∷ []

abbrev positions_found : Option (ℕ × ℕ) → List ℕ
positions_found none = []
positions_found (some (p, t)) = p ∷ []

abbrev pub accounts : IndexedEnv
accounts = record {
  Hash = ℕ;
  leaf_hash = λ l. l.key + 10 * l.value;
  empty_leaf = zero_leaf;
  default_leaf = zero_leaf;
  dummy_pubkey = 1;
  two_to_one = λ a b. a + 10 * b;
  bit_path = two_bits;
  nodes = row_tables;
  leaves = finite_tables;
  leaves_len = row_tables;
  last_timestamp = λ s. if s.bound == 0 then none else some 0;
  with_key = λ u key s. positions_found (find_row (has_key key) s u);
  not_on_edge = λ u key s. find_row (is_not_on_edge key) s u;
  on_edge = λ u key s. find_row (is_on_edge key) s u;
}

pub find_row-FirstRow :
    (test : IndexedMerkleLeaf → Bool) (u : ℕ) (s : FiniteTable)
    → FirstRow accounts finite_tables_laws test u s (find_row test s u)
find_row-FirstRow test u s = from_result (find_row test s u) refl
  where
    from_result :
        (o : Option (ℕ × ℕ))
        → find_row test s u ≡ o
        → FirstRow accounts finite_tables_laws test u s o
    from_result none q = λ t p l r. find_row-none test s u q t p l r.0 r.1
    from_result (some (p, t)) q = find_row-some test s u p t q

pub positions_found-positions :
    (o : Option (ℕ × ℕ)) → positions_found o ≡ positions accounts finite_tables_laws o
positions_found-positions none = refl
positions_found-positions (some (p, t)) = refl

pub two_bits_injective : (i j : ℕ) → i < 2 ^ 2 → j < 2 ^ 2 → two_bits 2 i ≡ two_bits 2 j → i ≡ j
two_bits_injective i j hi hj q =
    let a = ap (λ p. get_elem? p 0) q in
    let b = ap (λ p. get_elem? p 1) q in ground (arith, a, b, hi, hj)

abbrev account_trees : TreeLaws (tree accounts) 2
account_trees = record {
  nodes_laws = row_tables_laws;
  leaves_laws = finite_tables_laws;
  len_laws = row_tables_laws;
  bit_path_length = λ i. refl;
  bit_path_injective = two_bits_injective;
}

abbrev pub account_laws : IndexedLaws accounts 2
account_laws = record {
  trees = account_trees;
  queries = record {
    last_timestamp_empty = refl;
    with_key_first = λ u key s. (
      find_row (has_key key) s u,
      find_row-FirstRow (has_key key) u s,
      positions_found-positions (find_row (has_key key) s u),
    );
    not_on_edge_first = λ u key s. find_row-FirstRow (is_not_on_edge key) u s;
    on_edge_first = λ u key s. find_row-FirstRow (is_on_edge key) u s;
  };
  empty_leaf_key = refl;
  default_leaf_key = refl;
  default_leaf_next_key = refl;
  dummy_pubkey_pos = omega arith;
  room = omega arith;
  small = omega arith;
}

abbrev unwrap_or_new : Result MerkleTreeError (Tree accounts) → Tree accounts
unwrap_or_new (ok s) = s
unwrap_or_new (err _) = new accounts

pub with_dummy : Tree accounts
unfolding initialize push insert MerkleTree.len MerkleTree.get_leaf search_back zero_hashes find_row
    bulk_get_sibling_hashes MerkleTree.save_leaf Map.lookup Map.insert index
with_dummy = unwrap_or_new (initialize accounts 2 (new accounts))

with_seven : Tree accounts
unfolding with_dummy
with_seven = unwrap_or_new (insert accounts 2 4 7 70 with_dummy)

with_dummy_run : initialize accounts 2 (new accounts) ≡ ok with_dummy
unfolding with_seven
with_dummy_run = refl

with_seven_run : insert accounts 2 4 7 70 with_dummy ≡ ok with_seven
unfolding with_seven
with_seven_run = refl

pub with_dummy-History : IndexedHistory accounts 2 account_laws 0 with_dummy
with_dummy-History = initialized with_dummy with_dummy_run

pub seven_absent : index accounts 4 7 with_dummy ≡ ok none
unfolding with_seven
seven_absent = refl

pub dummy_at_one : index accounts 4 1 with_dummy ≡ ok (some 1)
unfolding with_seven
dummy_at_one = refl

pub len_two : len accounts 2 4 with_dummy ≡ 2
unfolding with_seven
len_two = refl

with_seven-History : IndexedHistory accounts 2 account_laws 4 with_seven
with_seven-History =
    inserted 0 4 7 70 with_dummy with_seven with_dummy-History (omega arith) (omega arith)
      seven_absent (omega (arith, len_two)) with_seven_run

-- A key between two others is excluded by the leaf of the dummy key.
five_excluded :
    prove_membership accounts 2 4 5 with_seven
    ≡ ok (record {
      is_included = false;
      leaf_index = 1;
      leaf = record { next_index = 2; key = 1; next_key = 7; value = 0 };
      leaf_proof = 0 ∷ 707 ∷ [];
    })
unfolding with_seven prove_membership MerkleTree.prove
five_excluded = refl

IndexedHistory-prove_membership_example :
    (proof : MembershipProof ℕ) × (prove_membership accounts 2 4 5 with_seven ≡ ok proof)
    × ShowsMembership accounts 2 account_laws 4 5 with_seven proof
IndexedHistory-prove_membership_example =
    IndexedHistory-prove_membership accounts 2 account_laws 4 4 5 with_seven with_seven-History
      (omega arith)

IndexedHistory-insert_example :
    (b : Tree accounts) × (insert accounts 2 4 7 70 with_dummy ≡ ok b)
    × ((u k : ℕ)
        → index accounts u k b ≡ (
            if leb 4 u
            then (if k == 7
                then ok (some (len accounts 2 4 with_dummy))
                else index accounts u k with_dummy)
            else index accounts u k with_dummy))
    × ((get_leaf accounts 2 4 (len accounts 2 4 with_dummy) b).value ≡ 70)
IndexedHistory-insert_example =
    IndexedHistory-insert accounts 2 account_laws 0 4 7 70 with_dummy with_dummy-History
      (omega arith) (omega arith) seven_absent (omega (arith, len_two))

IndexedHistory-prove_and_insert_example :
    (b : Tree accounts) × (proof : IndexedInsertionProof ℕ) × (insert accounts 2 4 7 70 with_dummy
      ≡ ok b)
    × (prove_and_insert accounts 2 4 7 70 with_dummy ≡ ok (b, proof))
    × ShowsInsertion accounts 2 account_laws 4 7 70 with_dummy b proof
IndexedHistory-prove_and_insert_example =
    IndexedHistory-prove_and_insert accounts 2 account_laws 0 4 7 70 with_dummy with_dummy-History
      (omega arith) (omega arith) seven_absent (omega (arith, len_two))

seven_at_two : index accounts 5 7 with_seven ≡ ok (some 2)
unfolding with_seven
seven_at_two = refl

IndexedHistory-prove_and_update_example :
    (a : Tree accounts) × (proof : UpdateProof ℕ) × (prove_and_update accounts 2 5 7 71 with_seven
      ≡ ok (a, proof))
    × ShowsUpdate accounts 2 account_laws 5 7 71 with_seven a proof
IndexedHistory-prove_and_update_example =
    IndexedHistory-prove_and_update accounts 2 account_laws 4 5 7 71 2 with_seven with_seven-History
      (omega arith) seven_at_two

low_index_stale_example :
    (p : ℕ) × (low_index accounts 4 7 with_dummy ≡ ok p)
    × (low_index accounts 6 7 with_seven ≡ ok p)
    × (index accounts 6 7 with_seven ≡ ok (some (len accounts 2 4 with_dummy)))
low_index_stale_example =
    low_index_stale accounts 2 account_laws 0 4 6 7 70 with_dummy with_seven with_dummy-History
      (omega arith) (omega arith) (omega arith) seven_absent (omega (arith, len_two)) with_seven_run
