-- ===== src/ValidityProver/IndexedMerkleTree/Revaluing.antt =====
-- validity-prover/src/trees/merkle_tree/sql_indexed_merkle_tree.rs: `prove_and_update` on a tree that has
-- the key.
use intmax.Base.{
  ℕ, suc, max, ◌^◌, ◌≡◌, ◌<◌, ◌≤◌, ◌∙◌, ◌&&◌, ap, inl, inr, refl, sym, subst, List, some, ok, ◌==◌,
  leb, arith, Bool-cases, nat_eq, if◌then◌else◌, ok-injective, add_u64,
}
use intmax.ValidityProver.Versions.Laws.{IsSettled}
use intmax.ValidityProver.MerkleTree
use intmax.ValidityProver.MerkleTree.Nodes.{unit_eq}
use intmax.ValidityProver.MerkleTree.Proofs.{Updated, prove-root_from}
use intmax.ValidityProver.MerkleTree.Siblings.{update_leaf-prove}
use intmax.ValidityProver.IndexedMerkleTree.{
  IndexedMerkleLeaf, IndexedEnv, UpdateProof, tree, Tree, index, get_leaf, prove_and_update, prove,
  update_leaf,
}
use intmax.ValidityProver.IndexedMerkleTree.Rows.{IsLinked}
use intmax.ValidityProver.IndexedMerkleTree.Revaluation.{revalued, Revalues-IsLinked}
use intmax.ValidityProver.IndexedMerkleTree.Queries.{get_leaf-row}
use intmax.ValidityProver.IndexedMerkleTree.Tables.{
  len-write, row-write, write-Revalues, later-IsLinked,
}
use intmax.ValidityProver.IndexedMerkleTree.Growth.{
  IndexedLaws, rows_at, length_of, write, past-IsLinked,
}
use intmax.ValidityProver.IndexedMerkleTree.Inserting.{Kept, index-same}
use intmax.ValidityProver.IndexedMerkleTree.Proofs.{Opens}

module _ (e : IndexedEnv) (height : ℕ) (laws : IndexedLaws e height) where
  open e use {Hash}

  module _ (t t' p value w v : ℕ) (r l : IndexedMerkleLeaf) (s a : Tree e) (le : t ≤ t')
      (h : Kept e height laws t s) (row : rows_at e height laws t' s w p r)
      (current : rows_at e height laws t' s v p l)
      (last : (u : ℕ) (m : IndexedMerkleLeaf) → rows_at e height laws t' s u p m → u ≤ v)
      (run : MerkleTree.update_leaf (tree e) height t' p (revalued l value) s ≡ ok a)
      (up : Updated (tree e) height laws.trees t' p (revalued l value) s a) where
    length_kept :
        (u : ℕ)
        → length_of e height laws u a
          ≡ (if leb t' u then length_of e height laws t' s else length_of e height laws u s)
    length_kept u =
        let settled : IsSettled e.leaves_len laws.trees.len_laws t' s.len_rows =
          λ k x lt. h.merkle.len_settled k x (omega (arith, le, lt)) in
        let n = len-write e height laws.trees t' u p (revalued l value) s a settled run in
        let inside = (h.linked t').inside v p l current in
        let fits = h.fits t' in
        let no_wrap : add_u64 p 1 ≡ suc p = omega (arith, inside, fits, laws.small) in
        let same : max (add_u64 p 1) (length_of e height laws t' s) ≡ length_of e height laws t' s =
          omega (arith, no_wrap, inside) in
        ground (arith, n, same)

    Kept-after : Kept e height laws t' a
    Kept-after =
        let n = length_kept t' in
        let now : IsLinked (rows_at e height laws t' a) (length_of e height laws t' a) =
          subst (IsLinked (rows_at e height laws t' a)) (ground (arith, n)) (
            Revalues-IsLinked (rows_at e height laws t' s) (rows_at e height laws t' a) t'
              (length_of e height laws t' s) p value v l (h.linked t') current last
              (λ u q m (le', _). le') (write-Revalues e height laws.trees t' p value l s a run)) in
        record {
          merkle = up.inv;
          linked = λ u. elim (Bool-cases (leb t' u)) [
            | inl y ↦
                later-IsLinked e height laws.trees t' u a (ground (arith, y)) up.inv.leaves_settled
                  up.inv.len_settled now
            | inr y ↦
                past-IsLinked e height laws t' u s a (ground (arith, y))
                  (λ x q lt.
                    let c = row-write e height laws.trees t' p x q (revalued l value) s a run in
                    ground (arith, c, lt))
                  (let m = length_kept u in ground (arith, m, y)) (h.linked u)
          ];
          fits = λ u.
              let m = length_kept u in
              let o = h.fits u in let o' = h.fits t' in ground (arith, m, o, o');
        }

    -- At the timestamp of the write every key has the position that it had.
    index-update : (k : ℕ) → index e t' k a ≡ index e t' k s
    index-update k =
        let i = write-Revalues e height laws.trees t' p value l s a run in
        let linked = h.linked t' in
        index-same e height laws t t' t' k s a h Kept-after
          (λ w' q m found key. elim (Bool-cases ((w' == t') && (q == p))) [
            | inl same ↦
                let here : p ≡ q = ground (arith, same) in
                (
                  t',
                  revalued l value,
                  subst (λ z. rows_at e height laws t' a t' z (revalued l value)) here i.new_row,
                  (linked.same_key v w' p q l m current found).1 here ∙ key,
                )
            | inr other ↦ (w', m, i.kept w' q m found (λ c. ground (arith, other, c.0, c.1)), key)
          ])
          (λ w' q m found key. elim (i.split w' q m found) [
            | inl (_, _, written) ↦ (v, p, l, current, ap (λ z. z.key) (sym written) ∙ key)
            | inr (before, _) ↦ (w', q, m, before, key)
          ])

  -- What a proof of an update shows, from root to root, and that the previous leaf has the key.
  pub record ShowsUpdate (t key value : ℕ) (s a : Tree e) (proof : UpdateProof Hash) : Type 0 where
    pub has_key : proof.prev_leaf.key ≡ key
    pub read : get_leaf e height t proof.leaf_index s ≡ proof.prev_leaf
    pub opens_before : Opens e height laws t s proof.leaf_index proof.prev_leaf proof.leaf_proof
    pub opens_after :
        Opens e height laws t a proof.leaf_index (revalued proof.prev_leaf value) proof.leaf_proof
    pub reads :
        (u j : ℕ)
        → get_leaf e height u j a ≡ (
            if leb t u
            then (if j == proof.leaf_index
                then revalued proof.prev_leaf value
                else get_leaf e height u j s)
            else get_leaf e height u j s)
    pub same_index : (k : ℕ) → index e t k a ≡ index e t k s

  update_run :
      (t key value p : ℕ) (s a : Tree e) (hs : List Hash)
      → index e t key s ≡ ok (some p)
      → update_leaf e height t p (revalued (get_leaf e height t p s) value) s ≡ ok a
      → prove e height t p a ≡ ok hs
      → prove_and_update e height t key value s
        ≡ ok (a, record { leaf_proof = hs; leaf_index = p; prev_leaf = get_leaf e height t p s })
  unfolding prove_and_update
  update_run t key value p s a hs found run proven = rw (prove_and_update, found, run, proven)

  pub prove_and_update-ShowsUpdate :
      (t t' key value w p : ℕ) (r : IndexedMerkleLeaf) (s : Tree e)
      → t ≤ t'
      → Kept e height laws t s
      → rows_at e height laws t' s w p r
      → r.key ≡ key
      → index e t' key s ≡ ok (some p)
      → (a : Tree e) × (proof : UpdateProof Hash) × (prove_and_update e height t' key value s
          ≡ ok (a, proof))
        × Kept e height laws t' a
        × ShowsUpdate t' key value s a proof
  prove_and_update-ShowsUpdate t t' key value w p r s le h row has found =
      let l = get_leaf e height t' p s in
      let (v, current, last) =
        get_leaf-row e laws.trees.leaves_laws laws.queries height t' w p r s row in
      let lt = (h.linked t').inside w p r row in
      let fits = h.fits t' in
      let inside : p < 2 ^ height = omega (arith, lt, fits) in
      let (a, run, same, up) = write e height laws t t' p (revalued l value) s le inside h.merkle in
      let (hs, proven, root) = prove-root_from (tree e) height laws.trees t' t' p a up.inv inside in
      let (hs0, proven0, root0) =
        prove-root_from (tree e) height laws.trees t t' p s h.merkle inside in
      let siblings : hs0 ≡ hs = ok-injective (
        sym proven0
        ∙ sym (
            update_leaf-prove (tree e) height laws.trees t t' p (revalued l value) s a le h.merkle
              same)
        ∙ proven) in
      let read : get_leaf e height t' p a ≡ revalued l value =
        let g = up.read t' p in ground (arith, g) in
      (
        a,
        record { leaf_proof = hs; leaf_index = p; prev_leaf = l },
        update_run t' key value p s a hs found run proven,
        Kept-after t t' p value w v r l s a le h row current last same up,
        record {
          has_key = ((h.linked t').same_key v w p p l r current row).1 refl ∙ has;
          read = refl;
          opens_before = subst (λ z. Opens e height laws t' s p l z) siblings root0;
          opens_after = subst (λ z. Opens e height laws t' a p z hs) read root;
          reads = λ u j. let g = up.read u j in ground (arith, g);
          same_index = index-update t t' p value w v r l s a le h row current last same up;
        },
      )
