-- ===== src/ValidityProver/IndexedMerkleTree/Queries.antt =====
-- validity-prover/src/trees/merkle_tree/sql_indexed_merkle_tree.rs: what `index` and `low_index` find in
-- the rows up to a timestamp.
use intmax.Base.{
  ℕ, ◌≡◌, ◌<◌, ◌≤◌, ◌⊎◌, ◌∙◌, inl, inr, sym, ap, Bool, true, false, List, [], ◌∷◌, Option, none,
  some, ok, arith, Bool-cases, Option-cases, nat_eq,
}
use intmax.ValidityProver.Versions.{VersionsLaws}
use intmax.ValidityProver.Versions.Laws.{search_back-last, search_back-row}
use intmax.ValidityProver.IndexedMerkleTree.{
  IndexedMerkleLeaf, IndexedEnv, Tree, index, low_index, first_candidate, candidates_of, get_leaf,
}
use intmax.ValidityProver.MerkleTree
use intmax.ValidityProver.IndexedMerkleTree.Rows.{
  View, has_key, is_not_on_edge, is_on_edge, covers, IsLow, HasKey,
}

module _ (e : IndexedEnv) (laws : VersionsLaws e.leaves) where
  -- The rows up to a timestamp.
  abbrev pub rows : ℕ → e.leaves.Table → View
  rows u s t p l = (t ≤ u) × (laws.row t p s ≡ some l)

  -- What a query with a condition, in descending order of the timestamp and limited to one row,
  -- may give: the position and timestamp of a row that is not earlier than any other.
  abbrev pub FirstRow : (IndexedMerkleLeaf → Bool) → ℕ → e.leaves.Table → Option (ℕ × ℕ) → Type 0
  FirstRow test u s none = (t p : ℕ) (l : IndexedMerkleLeaf) → rows u s t p l → test l ≡ false
  FirstRow test u s (some (p, t)) =
      ((l : IndexedMerkleLeaf) × rows u s t p l × (test l ≡ true))
      × ((v q : ℕ) (m : IndexedMerkleLeaf) → rows u s v q m → test m ≡ true → v ≤ t)

  abbrev pub positions : Option (ℕ × ℕ) → List ℕ
  positions none = []
  positions (some (p, t)) = p ∷ []

  pub record QueryLaws : Type 0 where
    pub last_timestamp_empty : e.last_timestamp e.leaves.empty ≡ none
    pub with_key_first :
        (u key : ℕ) (s : e.leaves.Table)
        → (o : Option (ℕ × ℕ)) × FirstRow (has_key key) u s o × (e.with_key u key s ≡ positions o)
    pub not_on_edge_first :
        (u key : ℕ) (s : e.leaves.Table) → FirstRow (is_not_on_edge key) u s (e.not_on_edge u key s)
    pub on_edge_first :
        (u key : ℕ) (s : e.leaves.Table) → FirstRow (is_on_edge key) u s (e.on_edge u key s)

  -- A row that covers the key and is later than every other row that does.
  pub record IsLatest (key u t p : ℕ) (l : IndexedMerkleLeaf) (s : e.leaves.Table) : Type 0 where
    pub row : rows u s t p l
    pub covering : covers key l ≡ true
    pub only :
        (v q : ℕ) (m : IndexedMerkleLeaf)
        → rows u s v q m
        → covers key m ≡ true
        → ((v ≡ t) × (q ≡ p)) ⊎ (v < t)

  pub IsLow-IsLatest :
      (key u t p : ℕ) (l : IndexedMerkleLeaf) (s : e.leaves.Table)
      → IsLow (rows u s) key t p l
      → IsLatest key u t p l s
  IsLow-IsLatest key u t p l s low = record {
    row = low.row;
    covering = low.covering;
    only = λ v q m r c. elim (low.only v q m r c) [ inl same ↦ inl same | inr (lt, _) ↦ inr lt ];
  }

  -- Of the two candidates the one with the latest row is chosen.
  candidates_lem :
      (key u t p : ℕ) (l : IndexedMerkleLeaf) (s : e.leaves.Table) (a b : Option (ℕ × ℕ))
      → IsLatest key u t p l s
      → FirstRow (is_not_on_edge key) u s a
      → FirstRow (is_on_edge key) u s b
      → first_candidate (candidates_of a b) ≡ ok p
  unfolding first_candidate
  candidates_lem key u t p l s none none h f g =
      let x = f t p l h.row in let y = g t p l h.row in absurd (ground (arith, x, y, h.covering))
  candidates_lem key u t p l s (some (p1, t1)) none h ((l1, r1, c1), f) g =
      let y = g t p l h.row in
      let on : is_not_on_edge key l ≡ true = ground (arith, y, h.covering) in
      let le = f t p l h.row on in
      let c : covers key l1 ≡ true = ground (arith, c1) in
      elim (h.only t1 p1 l1 r1 c) [ inl (_, q) ↦ ap ok q | inr lt ↦ absurd (omega (arith, lt, le)) ]
  candidates_lem key u t p l s none (some (p2, t2)) h f ((l2, r2, c2), g) =
      let y = f t p l h.row in
      let on : is_on_edge key l ≡ true = ground (arith, y, h.covering) in
      let le = g t p l h.row on in
      let c : covers key l2 ≡ true = ground (arith, c2) in
      elim (h.only t2 p2 l2 r2 c) [ inl (_, q) ↦ ap ok q | inr lt ↦ absurd (omega (arith, lt, le)) ]
  candidates_lem key u t p l s (some (p1, t1)) (some (p2, t2)) h ((l1, r1, c1), f)
        ((l2, r2, c2), g) =
      let a : covers key l1 ≡ true = ground (arith, c1) in
      let b : covers key l2 ≡ true = ground (arith, c2) in
      let one = h.only t1 p1 l1 r1 a in
      let two = h.only t2 p2 l2 r2 b in
      elim (Bool-cases (is_not_on_edge key l)) [
        | inl on ↦ let le = f t p l h.row on in ground (arith, one, two, le)
        | inr off ↦
            let on : is_on_edge key l ≡ true = ground (arith, off, h.covering) in
            let le = g t p l h.row on in ground (arith, one, two, le)
      ]

  module _ (queries : QueryLaws) where
    pub low_index-latest :
        (key u t p : ℕ) (l : IndexedMerkleLeaf) (s : Tree e)
        → IsLatest key u t p l s.leaf_rows
        → low_index e u key s ≡ ok p
    unfolding low_index
    low_index-latest key u t p l s h =
        candidates_lem key u t p l s.leaf_rows _ _ h (queries.not_on_edge_first u key s.leaf_rows)
          (queries.on_edge_first u key s.leaf_rows)

    -- `index` gives a position whose rows have the key, or there is no such row.
    pub index_cases :
        (u key : ℕ) (s : Tree e)
        → ((index e u key s ≡ ok none) × (HasKey (rows u s.leaf_rows) key → ⊥))
          ⊎ ((t p : ℕ) × (l : IndexedMerkleLeaf) × rows u s.leaf_rows t p l
              × (l.key ≡ key)
              × (index e u key s ≡ ok (some p)))
    unfolding index
    index_cases u key s = from_first (queries.with_key_first u key s.leaf_rows)
      where
        from_first :
            ((o : Option (ℕ × ℕ)) × FirstRow (has_key key) u s.leaf_rows o
              × (e.with_key u key s.leaf_rows ≡ positions o))
            → ((index e u key s ≡ ok none) × (HasKey (rows u s.leaf_rows) key → ⊥))
              ⊎ ((t p : ℕ) × (l : IndexedMerkleLeaf) × rows u s.leaf_rows t p l
                  × (l.key ≡ key)
                  × (index e u key s ≡ ok (some p)))
        from_first (none, f, q) =
            inl (rw (index, q), (λ (t, p, l, r, k). let n = f t p l r in ground (arith, n, k)))
        from_first (some (p, t), ((l, r, c), f), q) =
            inr (t, p, l, r, ground (arith, c), rw (index, q))

    -- `get_leaf` reads the last row of a position.
    pub get_leaf-last :
        (height u t p : ℕ) (l : IndexedMerkleLeaf) (s : Tree e)
        → rows u s.leaf_rows t p l
        → ((v : ℕ) (m : IndexedMerkleLeaf) → rows u s.leaf_rows v p m → v ≤ t)
        → get_leaf e height u p s ≡ l
    unfolding MerkleTree.get_leaf
    get_leaf-last height u t p l s (le, r) last =
        let found =
          laws.latest_lem u p s.leaf_rows
          ∙ search_back-last (λ v. laws.row v p s.leaf_rows) t u l le r
              (λ v lt le'. elim (Option-cases (laws.row v p s.leaf_rows)) [
                | inl n ↦ n
                | inr (m, n) ↦ absurd (omega (arith, lt, last v m (le', n)))
              ]) in
        ground (arith, found)

    -- At a position with a row, `get_leaf` gives a row of that position.
    pub get_leaf-row :
        (height u t p : ℕ) (l : IndexedMerkleLeaf) (s : Tree e)
        → rows u s.leaf_rows t p l
        → (v : ℕ) × rows u s.leaf_rows v p (get_leaf e height u p s)
          × ((w : ℕ) (m : IndexedMerkleLeaf) → rows u s.leaf_rows w p m → w ≤ v)
    unfolding MerkleTree.get_leaf
    get_leaf-row height u t p l s (le, r) =
        let (v, m, le', r', found, last) =
          search_back-row (λ v. laws.row v p s.leaf_rows) t u l le r in
        let read : get_leaf e height u p s ≡ m =
          let f = laws.latest_lem u p s.leaf_rows ∙ found in ground (arith, f) in
        (v, (le', r' ∙ ap some (sym read)), λ w n row. last w n row.0 row.1)
