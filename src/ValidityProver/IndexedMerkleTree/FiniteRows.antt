-- ===== src/ValidityProver/IndexedMerkleTree/FiniteRows.antt =====
-- validity-prover/src/trees/merkle_tree/sql_indexed_merkle_tree.rs: a table whose positions are bounded,
-- with the queries as searches, for the examples.
use intmax.Base.{
  ℕ, zero, suc, max, ◌≡◌, ◌<◌, ◌≤◌, ◌∙◌, inl, inr, refl, sym, ap, Bool, true, false, Option, none,
  some, if◌then◌else◌, ◌==◌, ltb, arith, Bool-cases, Option-cases, nat_eq,
}
use intmax.ValidityProver.Versions.{Versions, VersionsLaws}
use intmax.ValidityProver.Versions.Rows.{RowTable, latest_row, select_rows, select_rows_first}
use intmax.ValidityProver.IndexedMerkleTree.{IndexedMerkleLeaf}

pub record FiniteTable : Type 0 where
  pub bound : ℕ
  pub cells : RowTable ℕ IndexedMerkleLeaf

abbrev pub row_of : FiniteTable → RowTable ℕ IndexedMerkleLeaf
row_of s t p = if ltb p s.bound then s.cells t p else none

abbrev pub finite_tables : Versions ℕ IndexedMerkleLeaf
finite_tables = record {
  Table = FiniteTable;
  empty = record { bound = 0; cells = λ t p. none };
  save = λ t k v s. record {
    bound = max s.bound (suc k);
    cells = λ u l. if l == k then (if u == t then some v else row_of s u l) else row_of s u l;
  };
  latest = λ t k s. latest_row t k (row_of s);
  select = λ t ks s. select_rows t ks (row_of s);
  delete_from =
      λ t s. record { bound = s.bound; cells = λ u l. if ltb u t then row_of s u l else none };
}

pub row_of-empty : (t k : ℕ) → row_of finite_tables.empty t k ≡ none
row_of-empty t k = ground arith

pub row_of-save :
    (t u k l : ℕ) (v : IndexedMerkleLeaf) (s : FiniteTable)
    → row_of (finite_tables.save u l v s) t k
      ≡ (if k == l then (if t == u then some v else row_of s t k) else row_of s t k)
row_of-save t u k l v s = elim (Bool-cases (ltb k s.bound)) [
  | inl y ↦ ground (arith, y)
  | inr y ↦ ground (arith, y)
]

pub row_of-delete :
    (t u k : ℕ) (s : FiniteTable)
    → row_of (finite_tables.delete_from u s) t k ≡ (if ltb t u then row_of s t k else none)
row_of-delete t u k s = ground arith

abbrev pub finite_tables_laws : VersionsLaws finite_tables
finite_tables_laws = record {
  row = λ t k s. row_of s t k;
  row_empty = row_of-empty;
  row_save = row_of-save;
  row_delete = row_of-delete;
  latest_lem = λ t k s. refl;
  select_first = λ t k ks s. select_rows_first t k ks (row_of s);
}

abbrev passes : (IndexedMerkleLeaf → Bool) → Option IndexedMerkleLeaf → Bool
passes test none = false
passes test (some l) = test l

module _ (test : IndexedMerkleLeaf → Bool) (s : FiniteTable) where
  -- The last position, of those below a number, whose row at a timestamp passes.
  unfoldable pub find_position : ℕ → ℕ → Option ℕ
  find_position t zero = none
  find_position t (suc n) =
      let rest = find_position t n in if passes test (row_of s t n) then some n else rest

  -- The last timestamp, up to one, with a row that passes, and the position of that row.
  unfoldable pub find_row : ℕ → Option (ℕ × ℕ)
  unfolding find_position
  find_row zero = elim (find_position 0 s.bound) [ none ↦ none | some p ↦ some (p, 0) ]
  find_row (suc u) = elim (find_position (suc u) s.bound) [
    | none ↦ find_row u
    | some p ↦ some (p, suc u)
  ]

  find_position-none :
      (t n : ℕ)
      → find_position t n ≡ none
      → (p : ℕ) (l : IndexedMerkleLeaf) → p < n
      → row_of s t p ≡ some l
      → test l ≡ false
  unfolding find_position
  find_position-none t zero none_found p l lt r = absurd (omega (arith, lt))
  find_position-none t (suc n) none_found p l lt r =
      elim (Bool-cases (passes test (row_of s t n))) [
        | inl y ↦ absurd (ground (arith, y, none_found))
        | inr y ↦ elim (Bool-cases (p == n)) [
          | inl z ↦
              let same : p ≡ n = ground (arith, z) in ground (arith, y, ap (row_of s t) same, r)
          | inr z ↦
              find_position-none t n (ground (arith, y, none_found)) p l (ground (arith, z, lt)) r
        ]
      ]

  find_position-some :
      (t n p : ℕ)
      → find_position t n ≡ some p
      → (l : IndexedMerkleLeaf) × (row_of s t p ≡ some l) × (test l ≡ true)
  unfolding find_position
  find_position-some t zero p found = absurd (ground (arith, found))
  find_position-some t (suc n) p found = elim (Option-cases (row_of s t n)) [
    | inl nothing ↦ find_position-some t n p (ground (arith, ap (passes test) nothing, found))
    | inr (l, r) ↦
        let pass = ap (passes test) r in
        elim (Bool-cases (test l)) [
          | inl y ↦
              let same : n ≡ p = ground (arith, pass, y, found) in
              (l, ap (row_of s t) (sym same) ∙ r, y)
          | inr y ↦ find_position-some t n p (ground (arith, pass, y, found))
        ]
  ]

  row_inside : (t p : ℕ) (l : IndexedMerkleLeaf) → row_of s t p ≡ some l → p < s.bound
  row_inside t p l r = ground (arith, r)

  pub find_row-none :
      (u : ℕ)
      → find_row u ≡ none
      → (t p : ℕ) (l : IndexedMerkleLeaf) → t ≤ u
      → row_of s t p ≡ some l
      → test l ≡ false
  unfolding find_row
  find_row-none zero none_found t p l le r = elim (Option-cases (find_position 0 s.bound)) [
    | inl n ↦
        let t0 : t ≡ 0 = omega (arith, le) in
        find_position-none 0 s.bound n p l (row_inside t p l r)
          (ap (λ z. row_of s z p) (sym t0) ∙ r)
    | inr (q, n) ↦ absurd (ground (arith, n, none_found))
  ]
  find_row-none (suc u) none_found t p l le r =
      elim (Option-cases (find_position (suc u) s.bound)) [
        | inr (q, n) ↦ absurd (ground (arith, n, none_found))
        | inl n ↦ elim (Bool-cases (t == suc u)) [
          | inl y ↦
              let same : t ≡ suc u = ground (arith, y) in
              find_position-none (suc u) s.bound n p l (row_inside t p l r)
                (ap (λ z. row_of s z p) (sym same) ∙ r)
          | inr y ↦ find_row-none u (ground (arith, n, none_found)) t p l (ground (arith, y, le)) r
        ]
      ]

  pub find_row-some :
      (u p t : ℕ)
      → find_row u ≡ some (p, t)
      → ((l : IndexedMerkleLeaf) × ((t ≤ u) × (row_of s t p ≡ some l)) × (test l ≡ true))
        × ((v q : ℕ) (m : IndexedMerkleLeaf)
            → (v ≤ u) × (row_of s v q ≡ some m)
            → test m ≡ true
            → v ≤ t)
  unfolding find_row
  find_row-some zero p t found = elim (Option-cases (find_position 0 s.bound)) [
    | inl n ↦ absurd (ground (arith, n, found))
    | inr (q, n) ↦
        let qp : q ≡ p = ground (arith, n, found) in
        let t0 : 0 ≡ t = ground (arith, n, found) in
        let (l, r, c) = find_position-some 0 s.bound q n in
        (
          (
            l,
            (omega (arith, t0), ap (λ z. row_of s z p) (sym t0) ∙ ap (row_of s 0) (sym qp) ∙ r),
            c,
          ),
          λ v q' m (le, r') c'. omega (arith, le),
        )
  ]
  find_row-some (suc u) p t found = elim (Option-cases (find_position (suc u) s.bound)) [
    | inr (q, n) ↦
        let qp : q ≡ p = ground (arith, n, found) in
        let ts : suc u ≡ t = ground (arith, n, found) in
        let (l, r, c) = find_position-some (suc u) s.bound q n in
        (
          (
            l,
            (
              omega (arith, ts),
              ap (λ z. row_of s z p) (sym ts) ∙ ap (row_of s (suc u)) (sym qp) ∙ r,
            ),
            c,
          ),
          λ v q' m (le, r') c'. omega (arith, le, ts),
        )
    | inl n ↦
        let ((l, (le, r), c), last) = find_row-some u p t (ground (arith, n, found)) in
        (
          (l, (omega (arith, le), r), c),
          λ v q' m (le', r') c'. elim (Bool-cases (v == suc u)) [
            | inl y ↦
                let same : v ≡ suc u = ground (arith, y) in
                let other =
                  find_position-none (suc u) s.bound n q' m (row_inside v q' m r')
                    (ap (λ z. row_of s z q') (sym same) ∙ r') in
                absurd (ground (arith, other, c'))
            | inr y ↦ last v q' m (ground (arith, y, le'), r') c'
          ],
        )
  ]
