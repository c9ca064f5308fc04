-- ===== src/ValidityProver/IndexedMerkleTree/Insertion.antt =====
-- validity-prover/src/trees/merkle_tree/sql_indexed_merkle_tree.rs: what `insert` does to the rows: a
-- new row for the low leaf, and one at the end for the key.
use intmax.Base.{
  ℕ, suc, ◌≡◌, ◌<◌, ◌≤◌, ◌⊎◌, ◌↔◌, ◌∙◌, inl, inr, refl, sym, ap, subst, true, ◌&&◌, ◌==◌, ltb,
  arith, Bool-cases,
}
use intmax.ValidityProver.IndexedMerkleTree.{IndexedMerkleLeaf, new_low_leaf, new_leaf, IndexedEnv}
use intmax.ValidityProver.IndexedMerkleTree.Rows.{
  View, covers, Superseded, IsLow, HasKey, HasLow, IsLinked,
}

module _ (e : IndexedEnv) where
  -- The intervals of the two new leaves make up that of the low leaf, but for the key.
  pub covers-new_leaf :
      (x k value : ℕ) (l : IndexedMerkleLeaf)
      → covers x l ≡ true
      → covers k (new_leaf e l x value) ≡ true
      → (x < k) × (covers k l ≡ true)
  covers-new_leaf x k value l c d = (ground (arith, d), ground (arith, c, d))

  pub covers-new_low_leaf :
      (x k n : ℕ) (l : IndexedMerkleLeaf)
      → 0 < x
      → covers x l ≡ true
      → covers k (new_low_leaf e l n x) ≡ true
      → (k < x) × (covers k l ≡ true)
  covers-new_low_leaf x k n l pos c d = (ground (arith, pos, d), ground (arith, pos, c, d))

  covers-below :
      (x k n : ℕ) (l : IndexedMerkleLeaf)
      → k < x
      → covers k l ≡ true
      → covers k (new_low_leaf e l n x) ≡ true
  covers-below x k n l lt c = ground (arith, lt, c)

  covers-above :
      (x k value : ℕ) (l : IndexedMerkleLeaf)
      → x < k
      → covers k l ≡ true
      → covers k (new_leaf e l x value) ≡ true
  covers-above x k value l lt c = ground (arith, lt, c)

  -- The rows after an insertion at a timestamp and the length, and those before.
  pub record Inserts (V W : View) (t n p x value : ℕ) (l : IndexedMerkleLeaf) : Type 0 where
    pub split :
        (u q : ℕ) (m : IndexedMerkleLeaf)
        → W u q m
        → ((u ≡ t) × (q ≡ n) × (m ≡ new_leaf e l x value))
          ⊎ (((u ≡ t) × (q ≡ p) × (m ≡ new_low_leaf e l n x))
              ⊎ (V u q m × (((u ≡ t) × (q ≡ p)) → ⊥)))
    pub new_row : W t n (new_leaf e l x value)
    pub low_row : W t p (new_low_leaf e l n x)
    pub kept : (u q : ℕ) (m : IndexedMerkleLeaf) → V u q m → (((u ≡ t) × (q ≡ p)) → ⊥) → W u q m

  module _ (V W : View) (t n p x value v : ℕ) (l : IndexedMerkleLeaf) (h : IsLinked V n)
      (low : IsLow V x v p l) (absent : HasKey V x → ⊥) (pos : 0 < x)
      (before : (u q : ℕ) (m : IndexedMerkleLeaf) → V u q m → u ≤ t)
      (i : Inserts V W t n p x value l) where
    overwritten : (u q : ℕ) → ((u ≡ t) × (q ≡ p)) ⊎ (((u ≡ t) × (q ≡ p)) → ⊥)
    overwritten u q = elim (Bool-cases ((u == t) && (q == p))) [
      | inl y ↦ inl (ground (arith, y), ground (arith, y))
      | inr y ↦ inr (λ s. ground (arith, y, s.0, s.1))
    ]

    -- A row that is overwritten or kept is a row of its position.
    pub row_after :
        (u q : ℕ) (m : IndexedMerkleLeaf)
        → V u q m
        → (m' : IndexedMerkleLeaf) × W u q m' × (m'.key ≡ m.key)
    row_after u q m r = elim (overwritten u q) [
      | inr other ↦ (m, i.kept u q m r other, refl)
      | inl (a, b) ↦ (
        new_low_leaf e l n x,
        subst (λ z. W z q (new_low_leaf e l n x)) (sym a)
            (subst (λ z. W t z (new_low_leaf e l n x)) (sym b) i.low_row),
        sym ((h.same_key u v q p m l r low.row).1 b),
      )
    ]

    superseded : (u q : ℕ) → Superseded V u q → Superseded W u q
    superseded u q (y, m, lt, r) = let (m', r', _) = row_after y q m r in (y, m', lt, r')

    inside_old : (u q : ℕ) (m : IndexedMerkleLeaf) → V u q m → q < n
    inside_old = h.inside

    last_after : (u q : ℕ) (m : IndexedMerkleLeaf) → W u q m → u ≤ t
    last_after u q m r = elim (i.split u q m r) [
      | inl (a, _, _) ↦ omega (arith, a)
      | inr (inl (a, _, _)) ↦ omega (arith, a)
      | inr (inr (r', _)) ↦ before u q m r'
    ]

    p_inside : p < n
    p_inside = h.inside v p l low.row

    -- The key of a row, by its position.
    pub key_after :
        (u q : ℕ) (m : IndexedMerkleLeaf)
        → W u q m
        → ((q ≡ n) × (m.key ≡ x))
          ⊎ ((w : ℕ) × (m' : IndexedMerkleLeaf) × V w q m' × (m.key ≡ m'.key))
    key_after u q m r = elim (i.split u q m r) [
      | inl (_, b, c) ↦ inl (b, ap (λ z. z.key) c)
      | inr (inl (_, b, c)) ↦ inr (v, l, subst (λ z. V v z l) (sym b) low.row, ap (λ z. z.key) c)
      | inr (inr (r', _)) ↦ inr (u, m, r', refl)
    ]

    same_key_after :
        (a b q r : ℕ) (m m' : IndexedMerkleLeaf) → W a q m → W b r m' → (m.key ≡ m'.key) ↔ (q ≡ r)
    same_key_after a b q r m m' ra rb = elim (key_after a q m ra) [
      | inl (q1, k1) ↦ elim (key_after b r m' rb) [
        | inl (q2, k2) ↦ ((λ _. q1 ∙ sym q2), (λ _. k1 ∙ sym k2))
        | inr (w, m2, r2, k2) ↦ (
          (λ s. absurd (absent (w, r, m2, r2, sym k2 ∙ sym s ∙ k1))),
          (λ s. absurd (omega (arith, s, q1, h.inside w r m2 r2))),
        )
      ]
      | inr (w, m1, r1, k1) ↦ elim (key_after b r m' rb) [
        | inl (q2, k2) ↦ (
          (λ s. absurd (absent (w, q, m1, r1, sym k1 ∙ s ∙ k2))),
          (λ s. absurd (omega (arith, s, q2, h.inside w q m1 r1))),
        )
        | inr (w', m2, r2, k2) ↦
            let o = h.same_key w w' q r m1 m2 r1 r2 in
            ((λ s. o.0 (sym k1 ∙ s ∙ k2)), (λ s. k1 ∙ o.1 s ∙ sym k2))
      ]
    ]

    one_value_after : (u q : ℕ) (m m' : IndexedMerkleLeaf) → W u q m → W u q m' → m ≡ m'
    one_value_after u q m m' a b = elim (i.split u q m a) [
      | inl (_, q1, c1) ↦ elim (i.split u q m' b) [
        | inl (_, _, c2) ↦ c1 ∙ sym c2
        | inr (inl (_, q2, _)) ↦ absurd (omega (arith, q1, q2, p_inside))
        | inr (inr (r, _)) ↦ absurd (omega (arith, q1, h.inside u q m' r))
      ]
      | inr (inl (u1, q1, c1)) ↦ elim (i.split u q m' b) [
        | inl (_, q2, _) ↦ absurd (omega (arith, q1, q2, p_inside))
        | inr (inl (_, _, c2)) ↦ c1 ∙ sym c2
        | inr (inr (_, other)) ↦ absurd (other (u1, q1))
      ]
      | inr (inr (r1, no1)) ↦ elim (i.split u q m' b) [
        | inl (_, q2, _) ↦ absurd (omega (arith, q2, h.inside u q m r1))
        | inr (inl (u2, q2, _)) ↦ absurd (no1 (u2, q2))
        | inr (inr (r2, _)) ↦ h.one_value u q m m' r1 r2
      ]
    ]

    -- A row that covered a key of the low row's, and is not overwritten, is superseded.
    outdated :
        (k : ℕ) (m : IndexedMerkleLeaf)
        → IsLow V k v p m
        → (u q : ℕ) (m' : IndexedMerkleLeaf) → V u q m'
        → covers k m' ≡ true
        → (((u ≡ t) × (q ≡ p)) → ⊥)
        → (u < t) × Superseded W u q
    outdated k m was u q m' r c other = elim (was.only u q m' r c) [
      | inr (lt, s) ↦ (omega (arith, lt, before v p l low.row), superseded u q s)
      | inl (a, b) ↦ elim (Bool-cases (u == t)) [
        | inl y ↦ absurd (other (ground (arith, y), b))
        | inr y ↦
            let lt : u < t = ground (arith, y, before u q m' r) in
            (
              lt,
              (
                t,
                new_low_leaf e l n x,
                lt,
                subst (λ z. W t z (new_low_leaf e l n x)) (sym b) i.low_row,
              ),
            )
      ]
    ]

    -- A key of the low row's falls into one of the two new rows.
    IsLow-at_v : (k w : ℕ) (m : IndexedMerkleLeaf) → IsLow V k w p m → IsLow V k v p l
    IsLow-at_v k w m was =
        let wv : w ≡ v = omega (arith, was.last v l low.row, low.last w m was.row) in
        let at_v = subst (λ z. IsLow V k z p m) wv was in
        subst (λ z. IsLow V k v p z) (h.one_value v p m l at_v.row low.row) at_v

    below-IsLow : (k : ℕ) → IsLow V k v p l → k < x → IsLow W k t p (new_low_leaf e l n x)
    below-IsLow k was lt = record {
      row = i.low_row;
      covering = covers-below x k n l lt was.covering;
      last = λ u m r. last_after u p m r;
      only = λ u q m r c. elim (i.split u q m r) [
        | inl (_, _, s) ↦ absurd (
            omega (
              arith,
              lt,
              (covers-new_leaf x k value l low.covering (subst (λ z. covers k z ≡ true) s c)).0,
            ))
        | inr (inl (a, b, _)) ↦ inl (a, b)
        | inr (inr (r', other)) ↦ inr (outdated k l was u q m r' c other)
      ];
    }

    above-IsLow : (k : ℕ) → IsLow V k v p l → x < k → IsLow W k t n (new_leaf e l x value)
    above-IsLow k was lt = record {
      row = i.new_row;
      covering = covers-above x k value l lt was.covering;
      last = λ u m r. last_after u n m r;
      only = λ u q m r c. elim (i.split u q m r) [
        | inl (a, b, _) ↦ inl (a, b)
        | inr (inl (_, _, s)) ↦ absurd (
            omega (
              arith,
              lt,
              (covers-new_low_leaf x k n l pos low.covering (subst (λ z. covers k z ≡ true) s c)).0,
            ))
        | inr (inr (r', other)) ↦ inr (outdated k l was u q m r' c other)
      ];
    }

    -- A key of another row's does not fall into the low row.
    not_low :
        (k w q : ℕ) (m : IndexedMerkleLeaf)
        → IsLow V k w q m
        → ((q ≡ p) → ⊥)
        → covers k l ≡ true
        → ⊥
    not_low k w q m was other c = elim (was.only v p l low.row c) [
      | inl (_, b) ↦ other (sym b)
      | inr (_, (y, m', lt, r)) ↦ omega (arith, lt, low.last y m' r)
    ]

    other-IsLow :
        (k w q : ℕ) (m : IndexedMerkleLeaf) → IsLow V k w q m → ((q ≡ p) → ⊥) → IsLow W k w q m
    other-IsLow k w q m was other = record {
      row = i.kept w q m was.row (λ s. other s.1);
      covering = was.covering;
      last = λ u m' r. elim (i.split u q m' r) [
        | inl (_, b, _) ↦ absurd (omega (arith, b, h.inside w q m was.row))
        | inr (inl (_, b, _)) ↦ absurd (other b)
        | inr (inr (r', _)) ↦ was.last u m' r'
      ];
      only = λ u r m' row c. elim (i.split u r m' row) [
        | inl (_, _, s) ↦ absurd (
            not_low k w q m was other
              (covers-new_leaf x k value l low.covering (subst (λ z. covers k z ≡ true) s c)).1)
        | inr (inl (_, _, s)) ↦ absurd (
            not_low k w q m was other
              (covers-new_low_leaf x k n l pos low.covering (subst (λ z. covers k z ≡ true) s c)).1)
        | inr (inr (r', _)) ↦ elim (was.only u r m' r' c) [
          | inl same ↦ inl same
          | inr (lt, s) ↦ inr (lt, superseded u r s)
        ]
      ];
    }

    found_after : (k : ℕ) → 0 < k → HasKey W k ⊎ HasLow W k
    found_after k pos_k = elim (Bool-cases (k == x)) [
      | inl y ↦ inl (t, n, new_leaf e l x value, i.new_row, ground (arith, y))
      | inr y ↦ elim (h.found k pos_k) [
        | inl (u, q, m, r, key) ↦
            let (m', r', key') = row_after u q m r in inl (u, q, m', r', key' ∙ key)
        | inr (w, q, m, was) ↦ elim (Bool-cases (q == p)) [
          | inr z ↦ inr (w, q, m, other-IsLow k w q m was (λ s. ground (arith, z, s)))
          | inl z ↦
              let s : q ≡ p = ground (arith, z) in
              let at_v = IsLow-at_v k w m (subst (λ a. IsLow V k w a m) s was) in
              elim (Bool-cases (ltb k x)) [
                | inl b ↦ inr (t, p, new_low_leaf e l n x, below-IsLow k at_v (ground (arith, b)))
                | inr b ↦
                    inr (t, n, new_leaf e l x value, above-IsLow k at_v (ground (arith, b, y)))
              ]
        ]
      ]
    ]

    pub Inserts-IsLinked : IsLinked W (suc n)
    Inserts-IsLinked = record {
      one_value = one_value_after;
      inside = λ u q m r. elim (i.split u q m r) [
        | inl (_, b, _) ↦ omega (arith, b)
        | inr (inl (_, b, _)) ↦ omega (arith, b, p_inside)
        | inr (inr (r', _)) ↦ omega (arith, h.inside u q m r')
      ];
      same_key = same_key_after;
      found = found_after;
    }
