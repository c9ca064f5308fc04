-- ===== src/ValidityProver/IndexedMerkleTree/Inserting.antt =====
-- validity-prover/src/trees/merkle_tree/sql_indexed_merkle_tree.rs: `insert` and `prove_and_insert` on a
-- tree that does not have the key.
use intmax.Base.{
  ℕ, ◌^◌, ◌≡◌, ◌<◌, ◌≤◌, ◌∙◌, inl, inr, sym, ap, subst, true, none, some, ok, ◌==◌, leb, arith,
  Bool-cases, nat_eq, if◌then◌else◌,
}
use intmax.ValidityProver.IndexedMerkleTree.{
  IndexedMerkleLeaf, IndexedEnv, Tree, new_low_leaf, new_leaf, index,
}
use intmax.ValidityProver.IndexedMerkleTree.Rows.{covers, HasKey, IsLow}
use intmax.ValidityProver.IndexedMerkleTree.Insertion.{
  row_after, key_after, covers-new_leaf, covers-new_low_leaf,
}
use intmax.ValidityProver.IndexedMerkleTree.Queries.{
  low_index-latest, IsLow-IsLatest, get_leaf-last, index_cases, IsLatest,
}
use intmax.ValidityProver.IndexedMerkleTree.Growth.{
  IndexedLaws, IndexedInv, Inserted, rows_at, length_of, write, insert-run, push-run, length_linked,
  length_after, earlier, rows_after, inv_after,
}

module _ (e : IndexedEnv) (height : ℕ) (laws : IndexedLaws e height) where
  open e use {Hash}

  abbrev pub Kept : ℕ → Tree e → Type 0
  Kept = IndexedInv e height laws

  after_low :
      (t t' x value v p : ℕ) (l : IndexedMerkleLeaf) (s : Tree e)
      → t ≤ t'
      → Kept t s
      → 0 < x
      → (HasKey (rows_at e height laws t' s) x → ⊥)
      → length_of e height laws t' s < 2 ^ height
      → IsLow (rows_at e height laws t' s) x v p l
      → (a b : Tree e) × Inserted e height laws t' x value p v l s a b
  after_low t t' x value v p l s le h pos absent below low =
      let n = length_of e height laws t' s in
      let p_lt = (h.linked t').inside v p l low.row in
      let (a, run_a, same_a, up_a) =
        write e height laws t t' p (new_low_leaf e l n x) s le (omega (arith, p_lt, below))
          h.merkle in
      let (b, run_b, same_b, up_b) =
        write e height laws t' t' n (new_leaf e l x value) a (omega arith) below up_a.inv in
      let linked =
        length_linked e height laws t t' x value v p l s a b le h pos absent below low same_a up_a
          same_b up_b t' in
      let found =
        low_index-latest e laws.trees.leaves_laws laws.queries x t' v p l s
          (IsLow-IsLatest e laws.trees.leaves_laws x t' v p l s.leaf_rows low) in
      let read =
        get_leaf-last e laws.trees.leaves_laws laws.queries height t' v p l s low.row low.last in
      let pushed =
        push-run e height laws t' n (new_leaf e l x value) a b (ground (arith, linked)) run_b in
      (
        a,
        b,
        record {
          low = low;
          low_found = found;
          low_read = read;
          low_inside = p_lt;
          linking = run_a;
          pushing = pushed;
          linking_reference = same_a;
          linked = up_a;
          pushing_reference = same_b;
          run = insert-run e height laws t' x value p l s a b found read run_a pushed;
          inv =
              inv_after e height laws t t' x value v p l s a b le h pos absent below low same_a up_a
                same_b up_b;
          rows_after =
              rows_after e height laws t t' x value v p l s a b le h pos absent below low same_a
                up_a same_b up_b;
          length_after =
              length_after e height laws t t' x value v p l s a b le h pos absent below low same_a
                up_a same_b up_b;
          earlier =
              earlier e height laws t t' x value v p l s a b le h pos absent below low same_a up_a
                same_b up_b;
          read = λ u j. let r1 = up_b.read u j in let r2 = up_a.read u j in ground (arith, r1, r2);
        },
      )

  pub insert-Inserted :
      (t t' x value : ℕ) (s : Tree e)
      → t ≤ t'
      → Kept t s
      → 0 < x
      → (HasKey (rows_at e height laws t' s) x → ⊥)
      → length_of e height laws t' s < 2 ^ height
      → (p v : ℕ) × (l : IndexedMerkleLeaf) × (a b : Tree e) × Inserted e height laws t' x value p v
          l s a b
  insert-Inserted t t' x value s le h pos absent below = elim ((h.linked t').found x pos) [
    | inl has ↦ absurd (absent has)
    | inr (v, p, l, low) ↦
        let (a, b, r) = after_low t t' x value v p l s le h pos absent below low in
        (p, v, l, a, b, r)
  ]

  -- The position that `index` gives is that of any row with the key.
  pub index-row :
      (t u k w q : ℕ) (m : IndexedMerkleLeaf) (s : Tree e)
      → Kept t s
      → rows_at e height laws u s w q m
      → m.key ≡ k
      → index e u k s ≡ ok (some q)
  index-row t u k w q m s h row key =
      elim (index_cases e laws.trees.leaves_laws laws.queries u k s) [
        | inl (_, absent) ↦ absurd (absent (w, q, m, row, key))
        | inr (w', p, l, row', key', found) ↦
            found
            ∙ ap (λ z. ok (some z))
                (((h.linked u).same_key w' w p q l m row' row).0 (key' ∙ sym key))
      ]

  pub index-none :
      (u k : ℕ) (s : Tree e) → (HasKey (rows_at e height laws u s) k → ⊥) → index e u k s ≡ ok none
  index-none u k s absent = elim (index_cases e laws.trees.leaves_laws laws.queries u k s) [
    | inl (found, _) ↦ found
    | inr (w, p, l, row, key, _) ↦ absurd (absent (w, p, l, row, key))
  ]

  -- Two trees whose rows have a key at the same positions.
  pub index-same :
      (t t' u k : ℕ) (s b : Tree e)
      → Kept t s
      → Kept t' b
      → ((w q : ℕ) (m : IndexedMerkleLeaf)
          → rows_at e height laws u s w q m
          → m.key ≡ k
          → (w' : ℕ) × (m' : IndexedMerkleLeaf) × rows_at e height laws u b w' q m' × (m'.key ≡ k))
      → ((w q : ℕ) (m : IndexedMerkleLeaf)
          → rows_at e height laws u b w q m
          → m.key ≡ k
          → HasKey (rows_at e height laws u s) k)
      → index e u k b ≡ index e u k s
  index-same t t' u k s b h h' to from =
      elim (index_cases e laws.trees.leaves_laws laws.queries u k s) [
        | inl (found, absent) ↦
            index-none u k b (λ (w, q, m, row, key). absent (from w q m row key)) ∙ sym found
        | inr (w, q, m, row, key, found) ↦
            let (w', m', row', key') = to w q m row key in
            index-row t' u k w' q m' b h' row' key' ∙ sym found
      ]

  settled_row :
      (t u w q : ℕ) (m : IndexedMerkleLeaf) (s : Tree e)
      → Kept t s
      → rows_at e height laws u s w q m
      → w ≤ t
  settled_row t u w q m s h (_, r) = elim (Bool-cases (leb w t)) [
    | inl y ↦ ground (arith, y)
    | inr y ↦
        let gone = h.merkle.leaves_settled q w (ground (arith, y)) in
        absurd (ground (arith, gone, r))
  ]

  -- After an insertion `index` gives the new position for the key, from the timestamp on, and what
  -- it gave for any other key or timestamp.
  pub index-insert :
      (t t' x value p v u k : ℕ) (l : IndexedMerkleLeaf) (s a b : Tree e)
      → t ≤ t'
      → Kept t s
      → 0 < x
      → (HasKey (rows_at e height laws t' s) x → ⊥)
      → Inserted e height laws t' x value p v l s a b
      → index e u k b ≡ (
          if leb t' u
          then (if k == x then ok (some (length_of e height laws t' s)) else index e u k s)
          else index e u k s)
  index-insert t t' x value p v u k l s a b le h pos absent r = elim (Bool-cases (leb t' u)) [
    | inr y ↦ rw y (
        index-same t t' u k s b h r.inv
          (λ w q m (le', row) key. (w, m, (le', r.earlier w q (ground (arith, y, le')) ∙ row), key))
          (λ w q m (le', row) key.
            (w, q, m, (le', sym (r.earlier w q (ground (arith, y, le'))) ∙ row), key)))
    | inl y ↦ elim (Bool-cases (k == x)) [
      | inl z ↦
          let key : x ≡ k = ground (arith, z) in
          rw (y, z)
            (index-row t' u k t' (length_of e height laws t' s) (new_leaf e l x value) b r.inv
              (ground (arith, y), r.rows_after.new_row.1) key)
      | inr z ↦
          rw (y, z)
            (index-same t t' u k s b h r.inv
              (λ w q m row key.
                let early = settled_row t u w q m s h row in
                let (m', row', key') =
                  row_after e (rows_at e height laws t' s) (rows_at e height laws t' b) t'
                    (length_of e height laws t' s) p x value v l (h.linked t') r.low absent pos
                    (λ u' q' m2 (le2, r2). le2) r.rows_after w q m
                    (omega (arith, early, le), row.1) in
                (w, m', (row.0, row'.1), key' ∙ key))
              (λ w q m row key.
                let early = settled_row t' u w q m b r.inv row in
                elim (key_after e (rows_at e height laws t' s) (rows_at e height laws t' b) t'
                  (length_of e height laws t' s) p x value v l (h.linked t') r.low absent pos
                  (λ u' q' m2 (le2, r2). le2) r.rows_after w q m (early, row.1)) [
                    | inl (_, other) ↦ absurd (ground (arith, z, other, key))
                    | inr (w', m', row', key') ↦
                        (w', q, m', (omega (arith, row'.0, leb→le' y), row'.1), sym key' ∙ key)
                  ]))
    ]
  ]
    where
      leb→le' : leb t' u ≡ true → t' ≤ u
      leb→le' c = ground (arith, c)

  -- After an insertion later than everything before, the old row of the low leaf is still the
  -- latest that covers the key.
  pub stale-IsLatest :
      (t t' x value p v u : ℕ) (l : IndexedMerkleLeaf) (s a b : Tree e)
      → t < t'
      → t' ≤ u
      → Kept t s
      → 0 < x
      → Inserted e height laws t' x value p v l s a b
      → IsLatest e laws.trees.leaves_laws x u v p l b.leaf_rows
  stale-IsLatest t t' x value p v u l s a b lt le h pos r =
      let old : v < t' = let w = settled_row t t' v p l s h r.low.row in omega (arith, w, lt) in
      record {
        row = (omega (arith, old, le), r.earlier v p old ∙ r.low.row.1);
        covering = r.low.covering;
        only = λ w q m row c.
            let early = settled_row t' u w q m b r.inv row in
            elim (r.rows_after.split w q m (early, row.1)) [
              | inl (_, _, same) ↦ absurd (
                  omega (
                    arith,
                    (covers-new_leaf e x x value l r.low.covering
                        (subst (λ z. covers x z ≡ true) same c)).0,
                  ))
              | inr (inl (_, _, same)) ↦ absurd (
                  omega (
                    arith,
                    (covers-new_low_leaf e x x (length_of e height laws t' s) l pos r.low.covering
                        (subst (λ z. covers x z ≡ true) same c)).0,
                  ))
              | inr (inr (row', _)) ↦ elim (r.low.only w q m row' c) [
                | inl same ↦ inl same
                | inr (lt', _) ↦ inr lt'
              ]
            ];
      }
