-- ===== src/ValidityProver/IndexedMerkleTree/Rows.antt =====
-- validity-prover/src/trees/merkle_tree/sql_indexed_merkle_tree.rs: the rows of `indexed_leaves` up to
-- a timestamp, and which of them a key falls into.
use intmax.Base.{ℕ, ◌≡◌, ◌<◌, ◌≤◌, ◌⊎◌, ◌↔◌, inl, inr, Bool, true, ◌&&◌, ◌||◌, ◌==◌, ltb}
use intmax.ValidityProver.IndexedMerkleTree.{IndexedMerkleLeaf}

-- The conditions of the queries.
abbrev pub has_key : ℕ → IndexedMerkleLeaf → Bool
has_key key leaf = leaf.key == key

abbrev pub is_not_on_edge : ℕ → IndexedMerkleLeaf → Bool
is_not_on_edge key leaf = ltb key leaf.next_key && ltb leaf.key key

abbrev pub is_on_edge : ℕ → IndexedMerkleLeaf → Bool
is_on_edge key leaf = (leaf.next_key == 0) && ltb leaf.key key

-- A key lies strictly between a leaf's key and the next one.
abbrev pub covers : ℕ → IndexedMerkleLeaf → Bool
covers key leaf = is_not_on_edge key leaf || is_on_edge key leaf

-- A view: which rows, by timestamp and position, there are up to a timestamp.
abbrev pub View : Type 1
View = ℕ → ℕ → IndexedMerkleLeaf → Type 0

module _ (V : View) where
  -- A row has a later one at its position.
  abbrev pub Superseded : ℕ → ℕ → Type 0
  Superseded t p = (u : ℕ) × (l : IndexedMerkleLeaf) × (t < u) × V u p l

  -- The row is the last one at its position, covers the key, and every other row that does is
  -- earlier and superseded.
  pub record IsLow (key t p : ℕ) (leaf : IndexedMerkleLeaf) : Type 0 where
    pub row : V t p leaf
    pub covering : covers key leaf ≡ true
    pub last : (u : ℕ) (l : IndexedMerkleLeaf) → V u p l → u ≤ t
    pub only :
        (u q : ℕ) (l : IndexedMerkleLeaf)
        → V u q l
        → covers key l ≡ true
        → ((u ≡ t) × (q ≡ p)) ⊎ ((u < t) × Superseded u q)

  abbrev pub HasKey : ℕ → Type 0
  HasKey key = (t p : ℕ) × (l : IndexedMerkleLeaf) × V t p l × (l.key ≡ key)

  abbrev pub HasLow : ℕ → Type 0
  HasLow key = (t p : ℕ) × (l : IndexedMerkleLeaf) × IsLow key t p l

  -- Every key is that of a leaf or falls into one leaf; a position keeps its key, and no two
  -- positions share one.
  pub record IsLinked (len : ℕ) : Type 0 where
    pub one_value : (t p : ℕ) (l m : IndexedMerkleLeaf) → V t p l → V t p m → l ≡ m
    pub inside : (t p : ℕ) (l : IndexedMerkleLeaf) → V t p l → p < len
    pub same_key :
        (t u p q : ℕ) (l m : IndexedMerkleLeaf) → V t p l → V u q m → (l.key ≡ m.key) ↔ (p ≡ q)
    pub found : (key : ℕ) → 0 < key → HasKey key ⊎ HasLow key

-- Views with the same rows.
module _ (V W : View) (to : (t p : ℕ) (l : IndexedMerkleLeaf) → V t p l → W t p l)
    (from : (t p : ℕ) (l : IndexedMerkleLeaf) → W t p l → V t p l) where
  IsLow-cong : (key t p : ℕ) (l : IndexedMerkleLeaf) → IsLow V key t p l → IsLow W key t p l
  IsLow-cong key t p l low = record {
    row = to t p l low.row;
    covering = low.covering;
    last = λ u m r. low.last u m (from u p m r);
    only = λ u q m r c. elim (low.only u q m (from u q m r) c) [
      | inl same ↦ inl same
      | inr (lt, (v, n, later, r')) ↦ inr (lt, (v, n, later, to v q n r'))
    ];
  }

  pub IsLinked-cong : (n : ℕ) → IsLinked V n → IsLinked W n
  IsLinked-cong n h = record {
    one_value = λ t p l m a b. h.one_value t p l m (from t p l a) (from t p m b);
    inside = λ t p l a. h.inside t p l (from t p l a);
    same_key = λ t u p q l m a b. h.same_key t u p q l m (from t p l a) (from u q m b);
    found = λ key pos. elim (h.found key pos) [
      | inl (t, p, l, r, k) ↦ inl (t, p, l, to t p l r, k)
      | inr (t, p, l, low) ↦ inr (t, p, l, IsLow-cong key t p l low)
    ];
  }
