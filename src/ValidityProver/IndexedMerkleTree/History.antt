-- ===== src/ValidityProver/IndexedMerkleTree/History.antt =====
-- validity-prover/src/trees/merkle_tree/sql_indexed_merkle_tree.rs: the trees that `initialize`,
-- insertions, updates and resets lead to.
use intmax.Base.{
  ℕ, suc, ◌^◌, ◌≡◌, ◌<◌, ◌≤◌, ◌∙◌, inl, inr, sym, ap, subst, none, some, ok, ◌==◌, leb, arith,
  nat_eq, if◌then◌else◌, ok-injective,
}
use intmax.ValidityProver.IndexedMerkleTree.{
  IndexedEnv, IndexedInsertionProof, MembershipProof, UpdateProof, Tree, new, len, index, low_index,
  get_leaf, insert, prove_and_insert, prove_and_update, prove_membership, initialize, reset,
}
use intmax.ValidityProver.IndexedMerkleTree.Rows.{HasKey}
use intmax.ValidityProver.IndexedMerkleTree.Queries.{low_index-latest, index_cases}
use intmax.ValidityProver.IndexedMerkleTree.Growth.{IndexedLaws, rows_at}
use intmax.ValidityProver.IndexedMerkleTree.Inserting.{
  Kept, insert-Inserted, index-insert, stale-IsLatest,
}
use intmax.ValidityProver.IndexedMerkleTree.Proofs.{
  ShowsMembership, prove_membership-ShowsMembership, ShowsInsertion, Inserted-ShowsInsertion,
}
use intmax.ValidityProver.IndexedMerkleTree.Revaluing.{ShowsUpdate, prove_and_update-ShowsUpdate}
use intmax.ValidityProver.IndexedMerkleTree.Beginning.{initialize-Kept, reset-Kept}

module _ (e : IndexedEnv) (height : ℕ) (laws : IndexedLaws e height) where
  open e use {Hash}

  -- The trees, with the timestamp of the last write, that operations at timestamps that do not
  -- decrease, and resets, lead to. A key is inserted that the tree does not have, while there is a
  -- position left.
  pub data IndexedHistory : ℕ → Tree e → Type 0 where
    initialized : (s : Tree e) → initialize e height (new e) ≡ ok s → IndexedHistory 0 s
    inserted :
        (t t' key value : ℕ) (s b : Tree e)
        → IndexedHistory t s
        → t ≤ t'
        → 0 < key
        → index e t' key s ≡ ok none
        → len e height t' s < 2 ^ height
        → insert e height t' key value s ≡ ok b
        → IndexedHistory t' b
    updated :
        (t t' key value : ℕ) (s a : Tree e) (proof : UpdateProof Hash)
        → IndexedHistory t s
        → t ≤ t'
        → prove_and_update e height t' key value s ≡ ok (a, proof)
        → IndexedHistory t' a
    reset_to :
        (t t' : ℕ) (s : Tree e) → IndexedHistory t s → IndexedHistory t' (reset e height (suc t') s)

  absent_of_index :
      (u key : ℕ) (s : Tree e)
      → index e u key s ≡ ok none
      → HasKey (rows_at e height laws u s) key
      → ⊥
  absent_of_index u key s none_found =
      elim (index_cases e laws.trees.leaves_laws laws.queries u key s) [
        | inl (_, absent) ↦ absent
        | inr (_, _, _, _, _, found) ↦
            absurd (some_not_none (ok-injective (sym none_found ∙ found)))
      ]
    where
      some_not_none : {i : ℕ} → none ≡ some i → ⊥
      some_not_none h = cc

  updated-Kept :
      (t t' key value : ℕ) (s a : Tree e) (proof : UpdateProof Hash)
      → Kept e height laws t s
      → t ≤ t'
      → prove_and_update e height t' key value s ≡ ok (a, proof)
      → Kept e height laws t' a
  unfolding prove_and_update
  updated-Kept t t' key value s a proof h le run =
      elim (index_cases e laws.trees.leaves_laws laws.queries t' key s) [
        | inl (found, _) ↦ absurd (ground (arith, found, run))
        | inr (w, p, l, row, has, found) ↦
            let (a', proof', run', kept, _) =
              prove_and_update-ShowsUpdate e height laws t t' key value w p l s le h row has
                found in
            subst (Kept e height laws t') (ap (λ z. z.0) (ok-injective (sym run' ∙ run))) kept
      ]

  -- At every timestamp the tables of such a tree hold a Merkle tree whose leaves form a list in the
  -- order of their keys.
  pub IndexedHistory-Kept : (t : ℕ) (s : Tree e) → IndexedHistory t s → Kept e height laws t s
  IndexedHistory-Kept _ _ (initialized s run) =
      let (b, run', kept) = initialize-Kept e height laws in
      subst (Kept e height laws 0) (ok-injective (sym run' ∙ run)) kept
  IndexedHistory-Kept _ _ (inserted t t' key value s b h le pos absent below run) =
      let (p, v, l, a, b', r) =
        insert-Inserted e height laws t t' key value s le (IndexedHistory-Kept t s h) pos
          (absent_of_index t' key s absent) below in
      subst (Kept e height laws t') (ok-injective (sym r.run ∙ run)) r.inv
  IndexedHistory-Kept _ _ (updated t t' key value s a proof h le run) =
      updated-Kept t t' key value s a proof (IndexedHistory-Kept t s h) le run
  IndexedHistory-Kept _ _ (reset_to t t' s h) =
      reset-Kept e height laws t' t s (IndexedHistory-Kept t s h)

  -- In any tree that the operations lead to, at any timestamp and for any positive key,
  -- `prove_membership` succeeds, and its leaf stands at its position and opens the root; when the
  -- key is included the leaf has it, and when it is excluded it falls between the leaf's key and
  -- the next and no leaf has it.
  pub IndexedHistory-prove_membership :
      (t u key : ℕ) (s : Tree e)
      → IndexedHistory t s
      → 0 < key
      → (proof : MembershipProof Hash) × (prove_membership e height u key s ≡ ok proof)
        × ShowsMembership e height laws u key s proof
  IndexedHistory-prove_membership t u key s h pos =
      prove_membership-ShowsMembership e height laws t u key s (IndexedHistory-Kept t s h) pos

  -- Inserting a positive key that a tree which the operations lead to does not have, no earlier than
  -- its last write and while a position is left, succeeds; then `index` gives the new position for the key from the
  -- timestamp on, and what it gave for every other key and timestamp, and the new leaf has the
  -- value.
  pub IndexedHistory-insert :
      (t t' key value : ℕ) (s : Tree e)
      → IndexedHistory t s
      → t ≤ t'
      → 0 < key
      → index e t' key s ≡ ok none
      → len e height t' s < 2 ^ height
      → (b : Tree e) × (insert e height t' key value s ≡ ok b)
        × ((u k : ℕ)
            → index e u k b ≡ (
                if leb t' u
                then (if k == key then ok (some (len e height t' s)) else index e u k s)
                else index e u k s))
        × ((get_leaf e height t' (len e height t' s) b).value ≡ value)
  IndexedHistory-insert t t' key value s h le pos absent below =
      let kept = IndexedHistory-Kept t s h in
      let gone = absent_of_index t' key s absent in
      let (p, v, l, a, b, r) =
        insert-Inserted e height laws t t' key value s le kept pos gone below in
      let read = r.read t' (len e height t' s) in
      (
        b,
        r.run,
        λ u k. index-insert e height laws t t' key value p v u k l s a b le kept pos gone r,
        ground (arith, read),
      )

  -- Such an insertion takes one position.
  pub len-insert :
      (t t' key value : ℕ) (s b : Tree e)
      → IndexedHistory t s
      → t ≤ t'
      → 0 < key
      → index e t' key s ≡ ok none
      → len e height t' s < 2 ^ height
      → insert e height t' key value s ≡ ok b
      → len e height t' b ≡ suc (len e height t' s)
  len-insert t t' key value s b h le pos absent below run =
      let (p, v, l, a, b', r) =
        insert-Inserted e height laws t t' key value s le (IndexedHistory-Kept t s h) pos
          (absent_of_index t' key s absent) below in
      let same : b' ≡ b = ok-injective (sym r.run ∙ run) in
      let grown = r.length_after t' in
      subst (λ z. len e height t' z ≡ suc (len e height t' s)) same (ground (arith, grown))

  -- For a positive key that a tree which the operations lead to does not have, no earlier than its
  -- last write and while a position is left, `prove_and_insert` gives the tree that `insert` gives, and its proof
  -- leads from the root before the insertion to the root after it: the low leaf opens the first,
  -- the key falls between its key and the next, the new low leaf and the empty leaf at the new
  -- position lead to one root, and the new leaf opens the last.
  pub IndexedHistory-prove_and_insert :
      (t t' key value : ℕ) (s : Tree e)
      → IndexedHistory t s
      → t ≤ t'
      → 0 < key
      → index e t' key s ≡ ok none
      → len e height t' s < 2 ^ height
      → (b : Tree e) × (proof : IndexedInsertionProof Hash) × (insert e height t' key value s
          ≡ ok b)
        × (prove_and_insert e height t' key value s ≡ ok (b, proof))
        × ShowsInsertion e height laws t' key value s b proof
  IndexedHistory-prove_and_insert t t' key value s h le pos absent below =
      let kept = IndexedHistory-Kept t s h in
      let (p, v, l, a, b, r) =
        insert-Inserted e height laws t t' key value s le kept pos (absent_of_index t' key s absent)
          below in
      let (proof, run, shows) =
        Inserted-ShowsInsertion e height laws t t' key value p v l s a b le kept below r in
      (b, proof, r.run, run, shows)

  -- Updating a key that a tree which the operations lead to has, no earlier than its last write,
  -- succeeds, and its proof
  -- leads from the root before the update to the root after it: the leaf before, which has the key,
  -- and the leaf with the new value open them with the same siblings. Only that leaf changes, from
  -- the timestamp on, and at the timestamp every key has the position it had.
  pub IndexedHistory-prove_and_update :
      (t t' key value i : ℕ) (s : Tree e)
      → IndexedHistory t s
      → t ≤ t'
      → index e t' key s ≡ ok (some i)
      → (a : Tree e) × (proof : UpdateProof Hash) × (prove_and_update e height t' key value s
          ≡ ok (a, proof))
        × ShowsUpdate e height laws t' key value s a proof
  IndexedHistory-prove_and_update t t' key value i s h le there =
      elim (index_cases e laws.trees.leaves_laws laws.queries t' key s) [
        | inl (found, _) ↦ absurd (ground (arith, found, there))
        | inr (w, p, l, row, has, found) ↦
            let (a, proof, run, _, shows) =
              prove_and_update-ShowsUpdate e height laws t t' key value w p l s le
                (IndexedHistory-Kept t s h) row has found in
            (a, proof, run, shows)
      ]

  -- Once a positive key that a tree which the operations lead to does not have has been inserted,
  -- later than everything before, the search for its low leaf still
  -- succeeds: it finds the old row of the low leaf, and does not report that the key exists.
  pub low_index_stale :
      (t t' u key value : ℕ) (s b : Tree e)
      → IndexedHistory t s
      → t < t'
      → t' ≤ u
      → 0 < key
      → index e t' key s ≡ ok none
      → len e height t' s < 2 ^ height
      → insert e height t' key value s ≡ ok b
      → (p : ℕ) × (low_index e t' key s ≡ ok p)
        × (low_index e u key b ≡ ok p)
        × (index e u key b ≡ ok (some (len e height t' s)))
  low_index_stale t t' u key value s b h lt le pos absent below run =
      let kept = IndexedHistory-Kept t s h in
      let gone = absent_of_index t' key s absent in
      let (p, v, l, a, b', r) =
        insert-Inserted e height laws t t' key value s (omega (arith, lt)) kept pos gone below in
      let same : b' ≡ b = ok-injective (sym r.run ∙ run) in
      let again =
        index-insert e height laws t t' key value p v u key l s a b' (omega (arith, lt)) kept pos
          gone r in
      (
        p,
        r.low_found,
        subst (λ z. low_index e u key z ≡ ok p) same
            (low_index-latest e laws.trees.leaves_laws laws.queries key u v p l b'
              (stale-IsLatest e height laws t t' key value p v u l s a b' lt le kept pos r)),
        subst (λ z. index e u key z ≡ ok (some (len e height t' s))) same
            (ground (arith, again, le)),
      )
