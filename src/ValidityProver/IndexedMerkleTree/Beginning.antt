-- ===== src/ValidityProver/IndexedMerkleTree/Beginning.antt =====
-- validity-prover/src/trees/merkle_tree/sql_indexed_merkle_tree.rs: `initialize` on empty tables, and
-- `reset`.
use intmax.Base.{
  ℕ, suc, max, ◌≡◌, ◌<◌, ◌≤◌, ◌∙◌, inl, inr, sym, ap, subst, none, some, ok, ◌==◌, ltb, leb, arith,
  Bool-cases, nat_eq, if◌then◌else◌, ◌&&◌, add_u64,
}
use intmax.ValidityProver.Versions.Laws.{
  latest-empty, latest-quiet, latest-delete_from, delete_from-IsSettled,
}
use intmax.ValidityProver.MerkleTree
use intmax.ValidityProver.MerkleTree.Nodes.{unit_eq}
use intmax.ValidityProver.MerkleTree.Proofs.{Updated}
use intmax.ValidityProver.MerkleTree.History.{new-Inv, reset-Inv}
use intmax.ValidityProver.IndexedMerkleTree.{
  IndexedMerkleLeaf, IndexedEnv, tree, Tree, new, push, insert, reset, initialize,
  get_last_timestamp,
}
use intmax.ValidityProver.IndexedMerkleTree.Rows.{HasKey, HasLow, IsLinked}
use intmax.ValidityProver.IndexedMerkleTree.Tables.{len-write, row-write, same-IsLinked}
use intmax.ValidityProver.IndexedMerkleTree.Growth.{
  IndexedLaws, rows_at, length_of, write, push-run,
}
use intmax.ValidityProver.IndexedMerkleTree.Inserting.{Kept, insert-Inserted}

module _ (e : IndexedEnv) (height : ℕ) (laws : IndexedLaws e height) where
  len-new : (u : ℕ) → length_of e height laws u (new e) ≡ 0
  unfolding MerkleTree.len
  len-new u = let l = latest-empty e.leaves_len laws.trees.len_laws u tt in ground (arith, l)

  module _ (a : Tree e)
      (run : MerkleTree.update_leaf (tree e) height 0 0 e.default_leaf (new e) ≡ ok a)
      (up : Updated (tree e) height laws.trees 0 0 e.default_leaf (new e) a) where
    first_row :
        (w q : ℕ) (m : IndexedMerkleLeaf)
        → laws.trees.leaves_laws.row w q a.leaf_rows ≡ some m
        → (w ≡ 0) × (q ≡ 0) × (m ≡ e.default_leaf)
    first_row w q m r =
        let c = row-write e height laws.trees 0 0 w q e.default_leaf (new e) a run in
        let n = laws.trees.leaves_laws.row_empty w q in
        elim (Bool-cases ((w == 0) && (q == 0))) [
          | inl y ↦ (ground (arith, y), ground (arith, y), ground (arith, y, c, r))
          | inr y ↦ absurd (ground (arith, y, c, n, r))
        ]

    row_there : (u : ℕ) → rows_at e height laws u a 0 0 e.default_leaf
    row_there u = (
      omega arith,
      let c = row-write e height laws.trees 0 0 0 0 e.default_leaf (new e) a run in
          ground (arith, c),
    )

    length_one : (u : ℕ) → length_of e height laws u a ≡ 1
    length_one u =
        let settled = (new-Inv (tree e) height laws.trees).len_settled in
        let c = len-write e height laws.trees 0 u 0 e.default_leaf (new e) a settled run in
        let n = len-new 0 in
        let w : add_u64 0 1 ≡ 1 = omega arith in
        let m : max (add_u64 0 1) (length_of e height laws 0 (new e)) ≡ 1 = omega (arith, n, w) in
        ground (arith, c, m)

    first-HasLow : (u key : ℕ) → 0 < key → HasLow (rows_at e height laws u a) key
    first-HasLow u key pos = (
      0,
      0,
      e.default_leaf,
      record {
        row = row_there u;
        covering =
            let k = laws.default_leaf_key in
            let n = laws.default_leaf_next_key in ground (arith, k, n, pos);
        last = λ w m (le, r). omega (arith, (first_row w 0 m r).0);
        only = λ w q m (le, r) c. let f = first_row w q m r in inl (f.0, f.1);
      },
    )

    first-IsLinked : (u : ℕ) → IsLinked (rows_at e height laws u a) 1
    first-IsLinked u = record {
      one_value = λ w q m m' r r'. (first_row w q m r.1).2 ∙ sym (first_row w q m' r'.1).2;
      inside = λ w q m r. omega (arith, (first_row w q m r.1).1);
      same_key = λ w w' q q' m m' r r'.
          let f = first_row w q m r.1 in
          let g = first_row w' q' m' r'.1 in
          ((λ _. f.1 ∙ sym g.1), (λ _. ap (λ z. z.key) (f.2 ∙ sym g.2)));
      found = λ key pos. inr (first-HasLow u key pos);
    }

    first-Kept : Kept e height laws 0 a
    first-Kept = record {
      merkle = up.inv;
      linked =
          λ u. subst (IsLinked (rows_at e height laws u a)) (sym (length_one u)) (first-IsLinked u);
      fits = λ u. omega (arith, length_one u, laws.room);
    }

    no_dummy : HasKey (rows_at e height laws 0 a) e.dummy_pubkey → ⊥
    no_dummy (w, q, m, r, k) =
        let same = ap (λ z. z.key) (first_row w q m r.1).2 in
        omega (arith, same, k, laws.default_leaf_key, laws.dummy_pubkey_pos)

    initialize_run :
        (b : Tree e)
        → push e height 0 e.default_leaf (new e) ≡ ok a
        → insert e height 0 e.dummy_pubkey 0 a ≡ ok b
        → initialize e height (new e) ≡ ok b
    unfolding initialize
    initialize_run b one two =
        let started : get_last_timestamp e (new e) ≡ 0 = last_zero in
        let n0 = len-new 0 in let n1 = length_one 0 in rw (initialize, started, n0, one, n1) two
      where
        last_zero : get_last_timestamp e (new e) ≡ 0
        last_zero = let q = laws.queries.last_timestamp_empty in rw (q, get_last_timestamp)

  -- Initialising empty tables succeeds, and inserts the dummy key after the default leaf.
  pub initialize-Kept : (b : Tree e) × (initialize e height (new e) ≡ ok b) × Kept e height laws 0 b
  initialize-Kept =
      let (a, run, same, up) =
        write e height laws 0 0 0 e.default_leaf (new e) (omega arith) (omega (arith, laws.room))
          (new-Inv (tree e) height laws.trees) in
      let (p, v, l, a', b, r) =
        insert-Inserted e height laws 0 0 e.dummy_pubkey 0 a (omega arith) (first-Kept a same up)
          laws.dummy_pubkey_pos (no_dummy a same up)
          (omega (arith, length_one a same up 0, laws.room)) in
      (
        b,
        initialize_run a same up b
            (push-run e height laws 0 0 e.default_leaf (new e) a (len-new 0) run) r.run,
        r.inv,
      )

  len-reset_before :
      (t u : ℕ) (s : Tree e)
      → u < t
      → length_of e height laws u (reset e height t s) ≡ length_of e height laws u s
  unfolding MerkleTree.len MerkleTree.reset
  len-reset_before t u s lt =
      let l = latest-delete_from e.leaves_len laws.trees.len_laws t u tt s.len_rows lt in
      ground arith

  len-reset_after :
      (t u : ℕ) (s : Tree e)
      → t ≤ u
      → length_of e height laws u (reset e height (suc t) s) ≡ length_of e height laws t s
  unfolding MerkleTree.len MerkleTree.reset
  len-reset_after t u s le =
      let settled = delete_from-IsSettled e.leaves_len laws.trees.len_laws t s.len_rows in
      let q =
        latest-quiet e.leaves_len laws.trees.len_laws t u tt
          (e.leaves_len.delete_from (suc t) s.len_rows) le settled in
      let l =
        latest-delete_from e.leaves_len laws.trees.len_laws (suc t) t tt s.len_rows (omega arith) in
      ground arith

  row-reset :
      (t w q : ℕ) (s : Tree e)
      → laws.trees.leaves_laws.row w q (reset e height t s).leaf_rows
        ≡ (if ltb w t then laws.trees.leaves_laws.row w q s.leaf_rows else none)
  unfolding MerkleTree.reset
  row-reset t w q s = laws.trees.leaves_laws.row_delete w t q s.leaf_rows

  -- The view after a reset: that of the timestamp, or of the last one that is left.
  reset-IsLinked :
      (t u x : ℕ) (s : Tree e)
      → ((w : ℕ) → w ≤ x → (w ≤ u) × (w ≤ t))
      → ((w : ℕ) → w ≤ u → w ≤ t → w ≤ x)
      → length_of e height laws u (reset e height (suc t) s) ≡ length_of e height laws x s
      → IsLinked (rows_at e height laws x s) (length_of e height laws x s)
      → IsLinked
          (rows_at e height laws u (reset e height (suc t) s))
          (length_of e height laws u (reset e height (suc t) s))
  reset-IsLinked t u x s to from n h =
      same-IsLinked e height laws.trees x u s (reset e height (suc t) s)
        (λ w q m (le, r).
          let b = to w le in let c = row-reset (suc t) w q s in (b.0, ground (arith, c, r, b.1)))
        (λ w q m (le, r).
          let c = row-reset (suc t) w q s in
          elim (Bool-cases (ltb w (suc t))) [
            | inl y ↦ (from w le (ground (arith, y)), ground (arith, c, r, y))
            | inr y ↦ absurd (ground (arith, c, r, y))
          ])
        n h

  pub reset-Kept :
      (t u : ℕ) (s : Tree e)
      → Kept e height laws u s
      → Kept e height laws t (reset e height (suc t) s)
  reset-Kept t u s h = record {
    merkle = reset-Inv (tree e) height laws.trees t u s h.merkle;
    linked = λ x. elim (Bool-cases (leb x t)) [
      | inl y ↦
          let le : x ≤ t = ground (arith, y) in
          reset-IsLinked t x x s (λ w a. (a, omega (arith, a, le))) (λ w a b. a)
            (len-reset_before (suc t) x s (omega (arith, le))) (h.linked x)
      | inr y ↦
          let le : t ≤ x = ground (arith, y) in
          reset-IsLinked t x t s (λ w a. (omega (arith, a, le), a)) (λ w a b. b)
            (len-reset_after t x s le) (h.linked t)
    ];
    fits = λ x. elim (Bool-cases (leb x t)) [
      | inl y ↦ omega (arith, len-reset_before (suc t) x s (ground (arith, y)), h.fits x)
      | inr y ↦ omega (arith, len-reset_after t x s (ground (arith, y)), h.fits t)
    ];
  }
