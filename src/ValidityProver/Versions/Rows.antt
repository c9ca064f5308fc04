-- ===== src/ValidityProver/Versions/Rows.antt =====
-- A table of validity-prover/src/trees/merkle_tree whose rows are given by a function, for the
-- examples.
use intmax.Base.{
  ℕ, ◌≡◌, refl, sym, ap, inl, inr, false, Option, none, some, List, [], ◌∷◌, Eq, if◌then◌else◌,
  ◌==◌, ltb, any, arith, Bool-cases,
}
use intmax.Base.Map
use intmax.Base.Map.{HashMap}
use intmax.ValidityProver.Versions.{Versions, VersionsLaws, search_back}

abbrev pub RowTable : Type 0 → Type 0 → Type 0
RowTable K V = ℕ → K → Option V

module _ {K V : Type 0} ⦃e : Eq K⦄ where
  abbrev pub latest_row : ℕ → K → RowTable K V → Option V
  latest_row t k s = search_back (λ u. s u k) t

  abbrev pub select_rows : ℕ → List K → RowTable K V → HashMap K V
  select_rows t [] s = []
  select_rows t (k ∷ ks) s = elim (latest_row t k s) [
    | none ↦ select_rows t ks s
    | some v ↦ (k, v) ∷ select_rows t ks s
  ]

  abbrev pub row_tables : Versions K V
  row_tables = record {
    Table = RowTable K V;
    empty = λ t k. none;
    save = λ t k v s u l. if e.beq l k then (if u == t then some v else s u l) else s u l;
    latest = latest_row;
    select = select_rows;
    delete_from = λ t s u l. if ltb u t then s u l else none;
  }

  pub select_rows_first :
      (t : ℕ) (k : K) (ks : List K) (s : RowTable K V)
      → Map.lookup k (select_rows t ks s) ≡ (if any (e.beq k) ks then latest_row t k s else none)
  unfolding Map.lookup
  select_rows_first t k [] s = refl
  select_rows_first t k (l ∷ ks) s =
      let rest = select_rows_first t k ks s in
      let w = e.beq_iff k l in
      let w' = e.beq_iff l k in
      elim (Bool-cases (e.beq k l)) [
        | inl q ↦
            let same : k ≡ l = w.0 q in
            let q' = w'.1 (sym same) in
            let row = ap (λ x. latest_row t x s) same in ground (arith, rest, q, q', row)
        | inr q ↦
            let q' : e.beq l k ≡ false = elim (Bool-cases (e.beq l k)) [
              | inr r ↦ r
              | inl r ↦ absurd (ground (arith, q, w.1 (sym (w'.0 r))))
            ] in
            ground (arith, rest, q, q')
      ]

  abbrev pub row_tables_laws : VersionsLaws row_tables
  row_tables_laws = record {
    row = λ t k s. s t k;
    row_empty = λ t k. refl;
    row_save = λ t u k l v s. refl;
    row_delete = λ t u k s. refl;
    latest_lem = λ t k s. refl;
    select_first = select_rows_first;
  }
