-- ===== src/ValidityProver/IndexedMerkleTree/Growth.antt =====
-- validity-prover/src/trees/merkle_tree/sql_indexed_merkle_tree.rs: inserting a key into a tree, and
-- giving a key another value.
use intmax.Base.{
  ℕ, suc, max, ◌^◌, ◌≡◌, ◌<◌, ◌≤◌, ◌∙◌, inl, inr, sym, subst, ok, ◌==◌, leb, arith, Bool-cases,
  nat_eq, if◌then◌else◌, add_u64, u64_mod,
}
use intmax.ValidityProver.Versions.Laws.{IsSettled}
use intmax.ValidityProver.MerkleTree
use intmax.ValidityProver.MerkleTree.Nodes.{TreeLaws, unit_eq}
use intmax.ValidityProver.MerkleTree.Proofs.{Inv, Updated, update_leaf-Updated}
use intmax.ValidityProver.IndexedMerkleTree.{
  IndexedMerkleLeaf, IndexedEnv, tree, Tree, new_low_leaf, new_leaf, low_index, get_leaf,
  update_leaf, push, insert,
}
use intmax.ValidityProver.IndexedMerkleTree.Rows.{View, HasKey, IsLow, IsLinked}
use intmax.ValidityProver.IndexedMerkleTree.Insertion.{Inserts, Inserts-IsLinked}
use intmax.ValidityProver.IndexedMerkleTree.Updates.{update_leaf-incremental}
use intmax.ValidityProver.IndexedMerkleTree.Queries.{QueryLaws}
use intmax.ValidityProver.IndexedMerkleTree.Tables.{
  view, length_at, len-write, row-write, writes-Inserts, same-IsLinked, later-IsLinked,
}

-- The tables and queries behave as documented, the empty and the default leaf have no key, the dummy
-- key is positive, and the positions of the tree fit into a u64.
pub record IndexedLaws (e : IndexedEnv) (height : ℕ) : Type 0 where
  pub trees : TreeLaws (tree e) height
  pub queries : QueryLaws e trees.leaves_laws
  pub empty_leaf_key : e.empty_leaf.key ≡ 0
  pub default_leaf_key : e.default_leaf.key ≡ 0
  pub default_leaf_next_key : e.default_leaf.next_key ≡ 0
  pub dummy_pubkey_pos : 0 < e.dummy_pubkey
  pub room : 1 < 2 ^ height
  pub small : 2 ^ height < u64_mod

module _ (e : IndexedEnv) (height : ℕ) (laws : IndexedLaws e height) where
  abbrev pub rows_at : ℕ → Tree e → View
  rows_at = view e height laws.trees

  abbrev pub length_of : ℕ → Tree e → ℕ
  length_of = length_at e height laws.trees

  -- The nodes are those of the leaves, and at every timestamp the leaves form a list.
  pub record IndexedInv (t : ℕ) (s : Tree e) : Type 0 where
    pub merkle : Inv (tree e) height laws.trees t s
    pub linked : (u : ℕ) → IsLinked (rows_at u s) (length_of u s)
    pub fits : (u : ℕ) → length_of u s ≤ 2 ^ height

  -- A write in the indexed tree, on a tree with nothing after a timestamp.
  pub write :
      (t t' i : ℕ) (leaf : IndexedMerkleLeaf) (s : Tree e)
      → t ≤ t'
      → i < 2 ^ height
      → Inv (tree e) height laws.trees t s
      → (a : Tree e) × (update_leaf e height t' i leaf s ≡ ok a)
        × (MerkleTree.update_leaf (tree e) height t' i leaf s ≡ ok a)
        × Updated (tree e) height laws.trees t' i leaf s a
  write t t' i leaf s le inside v =
      let (a, run, r) = update_leaf-Updated (tree e) height laws.trees t t' i leaf s le inside v in
      (a, update_leaf-incremental e height laws.trees t t' i leaf s le v ∙ run, run, r)

  -- Before the timestamp of a write the view is what it was.
  pub past-IsLinked :
      (t u : ℕ) (s b : Tree e)
      → u < t
      → ((w q : ℕ)
          → w < t
          → laws.trees.leaves_laws.row w q b.leaf_rows ≡ laws.trees.leaves_laws.row w q s.leaf_rows)
      → length_of u b ≡ length_of u s
      → IsLinked (rows_at u s) (length_of u s)
      → IsLinked (rows_at u b) (length_of u b)
  past-IsLinked t u s b lt row n h =
      same-IsLinked e height laws.trees u u s b
        (λ w q m (le, r). (le, row w q (omega (arith, le, lt)) ∙ r))
        (λ w q m (le, r). (le, sym (row w q (omega (arith, le, lt))) ∙ r)) n h

  -- What an insertion leaves behind, with the low leaf that it takes.
  pub record Inserted (t x value p v : ℕ) (l : IndexedMerkleLeaf) (s a b : Tree e) : Type 0 where
    pub low : IsLow (rows_at t s) x v p l
    pub low_found : low_index e t x s ≡ ok p
    pub low_read : get_leaf e height t p s ≡ l
    pub low_inside : p < length_of t s
    pub linking : update_leaf e height t p (new_low_leaf e l (length_of t s) x) s ≡ ok a
    pub pushing : push e height t (new_leaf e l x value) a ≡ ok b
    pub linking_reference :
        MerkleTree.update_leaf (tree e) height t p (new_low_leaf e l (length_of t s) x) s ≡ ok a
    pub linked : Updated (tree e) height laws.trees t p (new_low_leaf e l (length_of t s) x) s a
    pub pushing_reference :
        MerkleTree.update_leaf (tree e) height t (length_of t s) (new_leaf e l x value) a ≡ ok b
    pub run : insert e height t x value s ≡ ok b
    pub inv : IndexedInv t b
    pub rows_after : Inserts e (rows_at t s) (rows_at t b) t (length_of t s) p x value l
    pub length_after :
        (u : ℕ) → length_of u b ≡ (if leb t u then suc (length_of t s) else length_of u s)
    pub earlier :
        (w q : ℕ)
        → w < t
        → laws.trees.leaves_laws.row w q b.leaf_rows ≡ laws.trees.leaves_laws.row w q s.leaf_rows
    pub read :
        (u j : ℕ)
        → get_leaf e height u j b ≡ (
            if leb t u
            then (if j == length_of t s
                then new_leaf e l x value
                else (if j == p
                    then new_low_leaf e l (length_of t s) x
                    else get_leaf e height u j s))
            else get_leaf e height u j s)

  pub insert-run :
      (t x value p : ℕ) (l : IndexedMerkleLeaf) (s a b : Tree e)
      → low_index e t x s ≡ ok p
      → get_leaf e height t p s ≡ l
      → update_leaf e height t p (new_low_leaf e l (length_of t s) x) s ≡ ok a
      → push e height t (new_leaf e l x value) a ≡ ok b
      → insert e height t x value s ≡ ok b
  unfolding insert
  insert-run t x value p l s a b low read one two = rw (insert, low, read, one) two

  pub push-run :
      (t n : ℕ) (leaf : IndexedMerkleLeaf) (s b : Tree e)
      → length_of t s ≡ n
      → update_leaf e height t n leaf s ≡ ok b
      → push e height t leaf s ≡ ok b
  unfolding push
  push-run t n leaf s b q run = rw q run

  module _ (t t' x value v p : ℕ) (l : IndexedMerkleLeaf) (s a b : Tree e) (le : t ≤ t')
      (h : IndexedInv t s) (pos : 0 < x) (absent : HasKey (rows_at t' s) x → ⊥)
      (below : length_of t' s < 2 ^ height) (low : IsLow (rows_at t' s) x v p l)
      (run_a : MerkleTree.update_leaf (tree e) height t' p (new_low_leaf e l (length_of t' s) x) s
        ≡ ok a)
      (up_a : Updated (tree e) height laws.trees t' p (new_low_leaf e l (length_of t' s) x) s a)
      (run_b : MerkleTree.update_leaf (tree e) height t' (length_of t' s) (new_leaf e l x value) a
        ≡ ok b)
      (up_b : Updated
        (tree e)
        height
        laws.trees
        t'
        (length_of t' s)
        (new_leaf e l x value)
        a
        b) where
    pub inside : p < length_of t' s
    inside = (h.linked t').inside v p l low.row

    len-IsSettled : IsSettled e.leaves_len laws.trees.len_laws t' s.len_rows
    len-IsSettled k w lt = h.merkle.len_settled k w (omega (arith, le, lt))

    pub length_linked :
        (u : ℕ) → length_of u a ≡ (if leb t' u then length_of t' s else length_of u s)
    length_linked u =
        let n =
          len-write e height laws.trees t' u p (new_low_leaf e l (length_of t' s) x) s a
            len-IsSettled run_a in
        let no_wrap : add_u64 p 1 ≡ suc p = omega (arith, inside, below, laws.small) in
        let same : max (add_u64 p 1) (length_of t' s) ≡ length_of t' s =
          omega (arith, no_wrap, inside) in
        ground (arith, n, same)

    pub length_after :
        (u : ℕ) → length_of u b ≡ (if leb t' u then suc (length_of t' s) else length_of u s)
    length_after u =
        let n =
          len-write e height laws.trees t' u (length_of t' s) (new_leaf e l x value) a b
            up_a.inv.len_settled run_b in
        let no_wrap : add_u64 (length_of t' s) 1 ≡ suc (length_of t' s) =
          omega (arith, below, laws.small) in
        let here : length_of t' a ≡ length_of t' s =
          let m = length_linked t' in ground (arith, m) in
        let same : max (add_u64 (length_of t' s) 1) (length_of t' a) ≡ suc (length_of t' s) =
          omega (arith, no_wrap, here) in
        let m = length_linked u in ground (arith, n, same, m)

    pub earlier :
        (w q : ℕ)
        → w < t'
        → laws.trees.leaves_laws.row w q b.leaf_rows ≡ laws.trees.leaves_laws.row w q s.leaf_rows
    earlier w q lt =
        let r1 =
          row-write e height laws.trees t' (length_of t' s) w q (new_leaf e l x value) a b run_b in
        let r2 =
          row-write e height laws.trees t' p w q (new_low_leaf e l (length_of t' s) x) s a run_a in
        ground (arith, r1, r2, lt)

    pub rows_after : Inserts e (rows_at t' s) (rows_at t' b) t' (length_of t' s) p x value l
    rows_after =
        writes-Inserts e height laws.trees t' (length_of t' s) p x value l s a b inside
          (h.linked t').inside run_a run_b

    IsLinked-now : IsLinked (rows_at t' b) (length_of t' b)
    IsLinked-now =
        let n : length_of t' b ≡ suc (length_of t' s) =
          let m = length_after t' in ground (arith, m) in
        subst (IsLinked (rows_at t' b)) (sym n) (
          Inserts-IsLinked e (rows_at t' s) (rows_at t' b) t' (length_of t' s) p x value v l
            (h.linked t') low absent pos (λ u q m (le', r). le') rows_after)

    pub inv_after : IndexedInv t' b
    inv_after = record {
      merkle = up_b.inv;
      linked = λ u. elim (Bool-cases (leb t' u)) [
        | inl y ↦
            later-IsLinked e height laws.trees t' u b (ground (arith, y)) up_b.inv.leaves_settled
              up_b.inv.len_settled IsLinked-now
        | inr y ↦
            past-IsLinked t' u s b (ground (arith, y)) earlier
              (let m = length_after u in ground (arith, m, y)) (h.linked u)
      ];
      fits = λ u. let m = length_after u in let o = h.fits u in ground (arith, m, o, below);
    }
