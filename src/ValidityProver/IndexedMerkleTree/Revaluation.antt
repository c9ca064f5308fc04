-- ===== src/ValidityProver/IndexedMerkleTree/Revaluation.antt =====
-- validity-prover/src/trees/merkle_tree/sql_indexed_merkle_tree.rs: what `prove_and_update` does to the
-- rows: a new row for a leaf, with another value.
use intmax.Base.{
  ℕ, ◌≡◌, ◌<◌, ◌≤◌, ◌⊎◌, ◌∙◌, inl, inr, refl, sym, ap, subst, true, ◌&&◌, ◌==◌, arith, Bool-cases,
}
use intmax.ValidityProver.IndexedMerkleTree.{IndexedMerkleLeaf}
use intmax.ValidityProver.IndexedMerkleTree.Rows.{
  View, covers, Superseded, IsLow, HasKey, HasLow, IsLinked,
}

abbrev pub revalued : IndexedMerkleLeaf → ℕ → IndexedMerkleLeaf
revalued l value = record l { value = value }

-- The rows after a new value at a timestamp and position, and those before.
pub record Revalues (V W : View) (t p value : ℕ) (l : IndexedMerkleLeaf) : Type 0 where
  pub split :
      (u q : ℕ) (m : IndexedMerkleLeaf)
      → W u q m
      → ((u ≡ t) × (q ≡ p) × (m ≡ revalued l value)) ⊎ (V u q m × (((u ≡ t) × (q ≡ p)) → ⊥))
  pub new_row : W t p (revalued l value)
  pub kept : (u q : ℕ) (m : IndexedMerkleLeaf) → V u q m → (((u ≡ t) × (q ≡ p)) → ⊥) → W u q m

module _ (V W : View) (t n p value v : ℕ) (l : IndexedMerkleLeaf) (h : IsLinked V n) (row : V v p l)
    (last : (u : ℕ) (m : IndexedMerkleLeaf) → V u p m → u ≤ v)
    (before : (u q : ℕ) (m : IndexedMerkleLeaf) → V u q m → u ≤ t)
    (i : Revalues V W t p value l) where
  overwritten : (u q : ℕ) → ((u ≡ t) × (q ≡ p)) ⊎ (((u ≡ t) × (q ≡ p)) → ⊥)
  overwritten u q = elim (Bool-cases ((u == t) && (q == p))) [
    | inl y ↦ inl (ground (arith, y), ground (arith, y))
    | inr y ↦ inr (λ s. ground (arith, y, s.0, s.1))
  ]

  new_row_at : (u q : ℕ) → u ≡ t → q ≡ p → W u q (revalued l value)
  new_row_at u q a b =
      subst (λ z. W z q (revalued l value)) (sym a)
        (subst (λ z. W t z (revalued l value)) (sym b) i.new_row)

  row_after :
      (u q : ℕ) (m : IndexedMerkleLeaf)
      → V u q m
      → (m' : IndexedMerkleLeaf) × W u q m' × (m'.key ≡ m.key)
  row_after u q m r = elim (overwritten u q) [
    | inr other ↦ (m, i.kept u q m r other, refl)
    | inl (a, b) ↦ (revalued l value, new_row_at u q a b, sym ((h.same_key u v q p m l r row).1 b))
  ]

  superseded : (u q : ℕ) → Superseded V u q → Superseded W u q
  superseded u q (y, m, lt, r) = let (m', r', _) = row_after y q m r in (y, m', lt, r')

  row_before :
      (u q : ℕ) (m : IndexedMerkleLeaf)
      → W u q m
      → (w : ℕ) × (m' : IndexedMerkleLeaf) × V w q m' × (m.key ≡ m'.key)
  row_before u q m r = elim (i.split u q m r) [
    | inl (_, b, c) ↦ (v, l, subst (λ z. V v z l) (sym b) row, ap (λ z. z.key) c)
    | inr (r', _) ↦ (u, m, r', refl)
  ]

  one_value_after : (u q : ℕ) (m m' : IndexedMerkleLeaf) → W u q m → W u q m' → m ≡ m'
  one_value_after u q m m' a b = elim (i.split u q m a) [
    | inl (u1, q1, c1) ↦ elim (i.split u q m' b) [
      | inl (_, _, c2) ↦ c1 ∙ sym c2
      | inr (_, other) ↦ absurd (other (u1, q1))
    ]
    | inr (r1, other) ↦ elim (i.split u q m' b) [
      | inl (u2, q2, _) ↦ absurd (other (u2, q2))
      | inr (r2, _) ↦ h.one_value u q m m' r1 r2
    ]
  ]

  revalued-IsLow : (k : ℕ) → IsLow V k v p l → IsLow W k t p (revalued l value)
  revalued-IsLow k was = record {
    row = i.new_row;
    covering = was.covering;
    last = λ u m r. elim (i.split u p m r) [
      | inl (a, _, _) ↦ omega (arith, a)
      | inr (r', _) ↦ before u p m r'
    ];
    only = λ u q m r c. elim (i.split u q m r) [
      | inl (a, b, _) ↦ inl (a, b)
      | inr (r', other) ↦ elim (was.only u q m r' c) [
        | inr (lt, s) ↦ inr (omega (arith, lt, before v p l row), superseded u q s)
        | inl (a, b) ↦ elim (Bool-cases (u == t)) [
          | inl y ↦ absurd (other (ground (arith, y), b))
          | inr y ↦
              let lt : u < t = ground (arith, y, before u q m r') in
              inr (lt, (t, revalued l value, lt, new_row_at t q refl b))
        ]
      ]
    ];
  }

  other-IsLow :
      (k w q : ℕ) (m : IndexedMerkleLeaf) → IsLow V k w q m → ((q ≡ p) → ⊥) → IsLow W k w q m
  other-IsLow k w q m was other = record {
    row = i.kept w q m was.row (λ s. other s.1);
    covering = was.covering;
    last = λ u m' r. elim (i.split u q m' r) [
      | inl (_, b, _) ↦ absurd (other b)
      | inr (r', _) ↦ was.last u m' r'
    ];
    only = λ u r m' row' c. elim (i.split u r m' row') [
      | inl (_, _, s) ↦ elim (was.only v p l row (subst (λ z. covers k z ≡ true) s c)) [
        | inl (_, b) ↦ absurd (other (sym b))
        | inr (_, (y, m2, lt, r2)) ↦ absurd (omega (arith, lt, last y m2 r2))
      ]
      | inr (r', _) ↦ elim (was.only u r m' r' c) [
        | inl same ↦ inl same
        | inr (lt, s) ↦ inr (lt, superseded u r s)
      ]
    ];
  }

  IsLow-at_v : (k w : ℕ) (m : IndexedMerkleLeaf) → IsLow V k w p m → IsLow V k v p l
  IsLow-at_v k w m was =
      let wv : w ≡ v = omega (arith, was.last v l row, last w m was.row) in
      let at_v = subst (λ z. IsLow V k z p m) wv was in
      subst (λ z. IsLow V k v p z) (h.one_value v p m l at_v.row row) at_v

  found_after : (k : ℕ) → 0 < k → HasKey W k ⊎ HasLow W k
  found_after k pos = elim (h.found k pos) [
    | inl (u, q, m, r, key) ↦
        let (m', r', key') = row_after u q m r in inl (u, q, m', r', key' ∙ key)
    | inr (w, q, m, was) ↦ elim (Bool-cases (q == p)) [
      | inr z ↦ inr (w, q, m, other-IsLow k w q m was (λ s. ground (arith, z, s)))
      | inl z ↦
          let s : q ≡ p = ground (arith, z) in
          inr (
            t,
            p,
            revalued l value,
            revalued-IsLow k (IsLow-at_v k w m (subst (λ a. IsLow V k w a m) s was)),
          )
    ]
  ]

  pub Revalues-IsLinked : IsLinked W n
  Revalues-IsLinked = record {
    one_value = one_value_after;
    inside = λ u q m r. let (w, m', r', _) = row_before u q m r in h.inside w q m' r';
    same_key = λ a b q r m m' ra rb.
        let (w, m1, r1, k1) = row_before a q m ra in
        let (w', m2, r2, k2) = row_before b r m' rb in
        let o = h.same_key w w' q r m1 m2 r1 r2 in
        ((λ s. o.0 (sym k1 ∙ s ∙ k2)), (λ s. k1 ∙ o.1 s ∙ sym k2));
    found = found_after;
  }
