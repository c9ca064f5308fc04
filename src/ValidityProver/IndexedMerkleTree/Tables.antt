-- ===== src/ValidityProver/IndexedMerkleTree/Tables.antt =====
-- validity-prover/src/trees/merkle_tree/sql_indexed_merkle_tree.rs: the rows and the lengths that the
-- writes of a leaf leave in the tables.
use intmax.Base.{
  ℕ, max, ◌≡◌, ◌<◌, ◌≤◌, ◌∙◌, inl, inr, sym, ap, subst, ◌==◌, leb, some, ok, arith, Bool-cases,
  nat_eq, if◌then◌else◌, add_u64, >>=-eq-ok, ok-injective,
}
use intmax.ValidityProver.Versions.Laws.{IsSettled, latest-save, latest-quiet}
use intmax.ValidityProver.MerkleTree.{TreeEnv, MerkleTree, update_leaf, save_leaf, len, climb}
use intmax.ValidityProver.MerkleTree.Nodes.{TreeLaws, unit_eq}
use intmax.ValidityProver.IndexedMerkleTree.{
  IndexedMerkleLeaf, IndexedEnv, tree, Tree, new_low_leaf, new_leaf,
}
use intmax.ValidityProver.IndexedMerkleTree.Rows.{View, IsLinked, IsLinked-cong}
use intmax.ValidityProver.IndexedMerkleTree.Insertion.{Inserts}
use intmax.ValidityProver.IndexedMerkleTree.Revaluation.{Revalues, revalued}
use intmax.ValidityProver.IndexedMerkleTree.Queries.{rows}

-- A write changes the tables of the leaves as `save_leaf` does.
pub update_leaf-tables :
    (e : TreeEnv) (height t i : ℕ) (leaf : e.Leaf) (s s' : MerkleTree e)
    → update_leaf e height t i leaf s ≡ ok s'
    → (s'.leaf_rows ≡ e.leaves.save t i leaf s.leaf_rows)
      × (s'.len_rows ≡ e.leaves_len.save t tt (max (add_u64 i 1) (len e height t s)) s.len_rows)
unfolding update_leaf save_leaf
update_leaf-tables e height t i leaf s s' run =
    let (nodes, _, done) =
      >>=-eq-ok
        (climb e height t (e.bit_path height i) (e.leaf_hash leaf)
          (e.nodes.save t (e.bit_path height i) (e.leaf_hash leaf) s.hash_nodes))
        _ run in
    let same = ok-injective done in
    (sym (ap (λ z. z.leaf_rows) same), sym (ap (λ z. z.len_rows) same))

module _ (e : IndexedEnv) (height : ℕ) (laws : TreeLaws (tree e) height) where
  abbrev pub view : ℕ → Tree e → View
  view u s = rows e laws.leaves_laws u s.leaf_rows

  abbrev pub length_at : ℕ → Tree e → ℕ
  length_at = len (tree e) height

  pub len-write :
      (t u i : ℕ) (leaf : IndexedMerkleLeaf) (s s' : Tree e)
      → IsSettled e.leaves_len laws.len_laws t s.len_rows
      → update_leaf (tree e) height t i leaf s ≡ ok s'
      → length_at u s' ≡ (if leb t u then max (add_u64 i 1) (length_at t s) else length_at u s)
  unfolding len
  len-write t u i leaf s s' settled run =
      let r = (update_leaf-tables (tree e) height t i leaf s s' run).1 in
      let l =
        latest-save e.leaves_len laws.len_laws t tt tt (max (add_u64 i 1) (length_at t s))
          s.len_rows u settled in
      ground (arith, ap (e.leaves_len.latest u tt) r, l)

  pub row-write :
      (t i w q : ℕ) (leaf : IndexedMerkleLeaf) (s s' : Tree e)
      → update_leaf (tree e) height t i leaf s ≡ ok s'
      → laws.leaves_laws.row w q s'.leaf_rows ≡ (
          if q == i
          then (if w == t then some leaf else laws.leaves_laws.row w q s.leaf_rows)
          else laws.leaves_laws.row w q s.leaf_rows)
  row-write t i w q leaf s s' run =
      ap (laws.leaves_laws.row w q) (update_leaf-tables (tree e) height t i leaf s s' run).0
      ∙ laws.leaves_laws.row_save w t q i leaf s.leaf_rows

  -- The two writes of an insertion.
  pub writes-Inserts :
      (t n p x value : ℕ) (l : IndexedMerkleLeaf) (s a b : Tree e)
      → p < n
      → ((u q : ℕ) (m : IndexedMerkleLeaf) → view t s u q m → q < n)
      → update_leaf (tree e) height t p (new_low_leaf e l n x) s ≡ ok a
      → update_leaf (tree e) height t n (new_leaf e l x value) a ≡ ok b
      → Inserts e (view t s) (view t b) t n p x value l
  writes-Inserts t n p x value l s a b lt inside run run' =
      let row = λ (w q : ℕ). row-write t n w q (new_leaf e l x value) a b run' in
      let row' = λ (w q : ℕ). row-write t p w q (new_low_leaf e l n x) s a run in
      record {
        split = λ u q m (le, r).
            let r1 = row u q in
            let r2 = row' u q in
            elim (Bool-cases (u == t)) [
              | inr y ↦ inr (inr ((le, ground (arith, r, r1, r2, y)), λ c. ground (arith, y, c.0)))
              | inl y ↦ elim (Bool-cases (q == n)) [
                | inl z ↦ inl (ground (arith, y), ground (arith, z), ground (arith, r, r1, y, z))
                | inr z ↦ elim (Bool-cases (q == p)) [
                  | inl o ↦ inr (
                      inl
                        (ground (arith, y), ground (arith, o), ground (arith, r, r1, r2, y, z, o)))
                  | inr o ↦
                      inr (inr ((le, ground (arith, r, r1, r2, z, o)), λ c. ground (arith, o, c.1)))
                ]
              ]
            ];
        new_row = (omega arith, let r1 = row t n in ground (arith, r1));
        low_row =
            (omega arith, let r1 = row t p in let r2 = row' t p in ground (arith, r1, r2, lt));
        kept = λ u q m (le, r) other.
            let r1 = row u q in
            let r2 = row' u q in
            let q_lt = inside u q m (le, r) in
            let same : laws.leaves_laws.row u q b.leaf_rows ≡ laws.leaves_laws.row u q s.leaf_rows =
              elim (Bool-cases (q == p)) [
                | inr o ↦ ground (arith, r1, r2, q_lt, o)
                | inl o ↦ elim (Bool-cases (u == t)) [
                  | inl y ↦ absurd (other (ground (arith, y), ground (arith, o)))
                  | inr y ↦ ground (arith, r1, r2, q_lt, y)
                ]
              ] in
            (le, same ∙ r);
      }

  pub write-Revalues :
      (t p value : ℕ) (l : IndexedMerkleLeaf) (s a : Tree e)
      → update_leaf (tree e) height t p (revalued l value) s ≡ ok a
      → Revalues (view t s) (view t a) t p value l
  write-Revalues t p value l s a run =
      let row = λ (w q : ℕ). row-write t p w q (revalued l value) s a run in
      record {
        split = λ u q m (le, r).
            let r1 = row u q in
            elim (Bool-cases (u == t)) [
              | inr y ↦ inr ((le, ground (arith, r, r1, y)), λ c. ground (arith, y, c.0))
              | inl y ↦ elim (Bool-cases (q == p)) [
                | inl o ↦ inl (ground (arith, y), ground (arith, o), ground (arith, r, r1, y, o))
                | inr o ↦ inr ((le, ground (arith, r, r1, o)), λ c. ground (arith, o, c.1))
              ]
            ];
        new_row = (omega arith, let r1 = row t p in ground (arith, r1));
        kept = λ u q m (le, r) other.
            let r1 = row u q in
            let same : laws.leaves_laws.row u q a.leaf_rows ≡ laws.leaves_laws.row u q s.leaf_rows =
              elim (Bool-cases (q == p)) [
                | inr o ↦ ground (arith, r1, o)
                | inl o ↦ elim (Bool-cases (u == t)) [
                  | inl y ↦ absurd (other (ground (arith, y), ground (arith, o)))
                  | inr y ↦ ground (arith, r1, y)
                ]
              ] in
            (le, same ∙ r);
      }

  -- A view on rows and a length that are the same.
  pub same-IsLinked :
      (u w : ℕ) (s s' : Tree e)
      → ((t q : ℕ) (m : IndexedMerkleLeaf) → view u s t q m → view w s' t q m)
      → ((t q : ℕ) (m : IndexedMerkleLeaf) → view w s' t q m → view u s t q m)
      → length_at w s' ≡ length_at u s
      → IsLinked (view u s) (length_at u s)
      → IsLinked (view w s') (length_at w s')
  same-IsLinked u w s s' to from n h =
      subst (IsLinked (view w s')) (sym n)
        (IsLinked-cong (view u s) (view w s') to from (length_at u s) h)

  -- What holds of the view at the last write holds of every later one.
  pub later-IsLinked :
      (t u : ℕ) (s : Tree e)
      → t ≤ u
      → IsSettled e.leaves laws.leaves_laws t s.leaf_rows
      → IsSettled e.leaves_len laws.len_laws t s.len_rows
      → IsLinked (view t s) (length_at t s)
      → IsLinked (view u s) (length_at u s)
  unfolding len
  later-IsLinked t u s le settled len-IsSettled h =
      let n = latest-quiet e.leaves_len laws.len_laws t u tt s.len_rows le len-IsSettled in
      same-IsLinked t u s s (λ w q m (le', r). (omega (arith, le, le'), r))
        (λ w q m (le', r). (
          elim (Bool-cases (leb w t)) [
            | inl y ↦ ground (arith, y)
            | inr y ↦ let gone = settled q w (ground (arith, y)) in absurd (ground (arith, gone, r))
          ],
          r,
        ))
        (ground (arith, n)) h
