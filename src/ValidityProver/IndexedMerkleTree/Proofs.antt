-- ===== src/ValidityProver/IndexedMerkleTree/Proofs.antt =====
-- validity-prover/src/trees/merkle_tree/sql_indexed_merkle_tree.rs: what the proofs of membership and of
-- an insertion show.
use intmax.Base.{
  ℕ, ◌^◌, ◌≡◌, ◌<◌, ◌≤◌, ◌∙◌, inl, inr, refl, sym, subst, List, true, false, Option, none, some, ok,
  arith, Option-cases, nat_eq, ok-injective,
}
use intmax.ValidityProver.Versions.Laws.{search_back_found}
use intmax.ValidityProver.MerkleTree
use intmax.ValidityProver.MerkleTree.Proofs.{root_from, prove-root_from}
use intmax.ValidityProver.MerkleTree.Siblings.{update_leaf-prove}
use intmax.ValidityProver.IndexedMerkleTree.{
  IndexedMerkleLeaf, IndexedEnv, IndexedInsertionProof, MembershipProof, tree, Tree, new_low_leaf,
  new_leaf, index, low_index, get_leaf, get_root, prove, prove_and_insert, prove_membership,
}
use intmax.ValidityProver.IndexedMerkleTree.Rows.{covers, HasKey, IsLow}
use intmax.ValidityProver.IndexedMerkleTree.Queries.{
  low_index-latest, IsLow-IsLatest, get_leaf-last, get_leaf-row, index_cases,
}
use intmax.ValidityProver.IndexedMerkleTree.Growth.{IndexedLaws, Inserted, rows_at, length_of}
use intmax.ValidityProver.IndexedMerkleTree.Inserting.{Kept}

module _ (e : IndexedEnv) (height : ℕ) (laws : IndexedLaws e height) where
  open e use {Hash}

  -- The siblings lead from a leaf at a position to the root of a timestamp.
  abbrev pub Opens : ℕ → Tree e → ℕ → IndexedMerkleLeaf → List Hash → Type 0
  Opens u s i leaf hs =
      get_root e height u s ≡ ok (root_from (tree e) (e.bit_path height i) (e.leaf_hash leaf) hs)

  -- What a proof of membership shows: its leaf stands at its position and opens the root, and has the
  -- key if the key is included; the key is excluded only if it falls between the leaf's key and the
  -- next, and no leaf has it.
  pub record ShowsMembership (u key : ℕ) (s : Tree e) (proof : MembershipProof Hash) : Type 0 where
    pub read : get_leaf e height u proof.leaf_index s ≡ proof.leaf
    pub opens : Opens u s proof.leaf_index proof.leaf proof.leaf_proof
    pub included : proof.is_included ≡ true → proof.leaf.key ≡ key
    pub excluded : proof.is_included ≡ false → covers key proof.leaf ≡ true
    pub exact : (i : ℕ) → (get_leaf e height u i s).key ≡ key → proof.is_included ≡ true

  open_at :
      (t u i : ℕ) (s : Tree e)
      → Kept e height laws t s
      → i < length_of e height laws u s
      → (hs : List Hash) × (prove e height u i s ≡ ok hs) × Opens u s i (get_leaf e height u i s) hs
  open_at t u i s h lt =
      prove-root_from (tree e) height laws.trees t u i s h.merkle (omega (arith, lt, h.fits u))

  -- A leaf with a positive key stands in a row.
  read_row :
      (u i key : ℕ) (s : Tree e)
      → 0 < key
      → (get_leaf e height u i s).key ≡ key
      → HasKey (rows_at e height laws u s) key
  unfolding MerkleTree.get_leaf
  read_row u i key s pos read = elim (Option-cases (e.leaves.latest u i s.leaf_rows)) [
    | inl n ↦
        let empty : e.empty_leaf.key ≡ key = ground (arith, n, read) in
        absurd (omega (arith, empty, laws.empty_leaf_key, pos))
    | inr (m, n) ↦
        let (w, le, row) =
          search_back_found (λ w. laws.trees.leaves_laws.row w i s.leaf_rows) u m
            (sym (laws.trees.leaves_laws.latest_lem u i s.leaf_rows) ∙ n) in
        (w, i, m, (le, row), ground (arith, n, read))
  ]

  membership_run :
      (u key p : ℕ) (s : Tree e) (found : Option ℕ) (hs : List Hash)
      → index e u key s ≡ ok found
      → (elim found [ some i ↦ ok i | none ↦ low_index e u key s ]) ≡ ok p
      → prove e height u p s ≡ ok hs
      → prove_membership e height u key s
        ≡ ok (record {
          is_included = elim found [ some _ ↦ true | none ↦ false ];
          leaf_index = p;
          leaf = get_leaf e height u p s;
          leaf_proof = hs;
        })
  unfolding prove_membership
  membership_run u key p s found hs a b c = rw (a, b, c)

  included-ShowsMembership :
      (t u key w p : ℕ) (l : IndexedMerkleLeaf) (s : Tree e)
      → Kept e height laws t s
      → rows_at e height laws u s w p l
      → l.key ≡ key
      → index e u key s ≡ ok (some p)
      → (proof : MembershipProof Hash) × (prove_membership e height u key s ≡ ok proof)
        × ShowsMembership u key s proof
  included-ShowsMembership t u key w p l s h row has found =
      let (hs, run, opens) = open_at t u p s h ((h.linked u).inside w p l row) in
      let (v, row', _) = get_leaf-row e laws.trees.leaves_laws laws.queries height u w p l s row in
      (
        record {
          is_included = true;
          leaf_index = p;
          leaf = get_leaf e height u p s;
          leaf_proof = hs;
        },
        membership_run u key p s (some p) hs found refl run,
        record {
          read = refl;
          opens = opens;
          included = λ _.
              ((h.linked u).same_key v w p p (get_leaf e height u p s) l row' row).1 refl ∙ has;
          excluded = λ c. cc;
          exact = λ i _. refl;
        },
      )

  excluded-ShowsMembership :
      (t u key w p : ℕ) (l : IndexedMerkleLeaf) (s : Tree e)
      → Kept e height laws t s
      → 0 < key
      → IsLow (rows_at e height laws u s) key w p l
      → index e u key s ≡ ok none
      → (HasKey (rows_at e height laws u s) key → ⊥)
      → (proof : MembershipProof Hash) × (prove_membership e height u key s ≡ ok proof)
        × ShowsMembership u key s proof
  excluded-ShowsMembership t u key w p l s h pos low found absent =
      let (hs, run, opens) = open_at t u p s h ((h.linked u).inside w p l low.row) in
      let laws' = laws.trees.leaves_laws in
      let low_found =
        low_index-latest e laws' laws.queries key u w p l s
          (IsLow-IsLatest e laws' key u w p l s.leaf_rows low) in
      let read = get_leaf-last e laws' laws.queries height u w p l s low.row low.last in
      (
        record {
          is_included = false;
          leaf_index = p;
          leaf = get_leaf e height u p s;
          leaf_proof = hs;
        },
        membership_run u key p s none hs found low_found run,
        record {
          read = refl;
          opens = opens;
          included = λ c. cc;
          excluded = λ _. subst (λ z. covers key z ≡ true) (sym read) low.covering;
          exact = λ i has. absurd (absent (read_row u i key s pos has));
        },
      )

  pub prove_membership-ShowsMembership :
      (t u key : ℕ) (s : Tree e)
      → Kept e height laws t s
      → 0 < key
      → (proof : MembershipProof Hash) × (prove_membership e height u key s ≡ ok proof)
        × ShowsMembership u key s proof
  prove_membership-ShowsMembership t u key s h pos =
      elim (index_cases e laws.trees.leaves_laws laws.queries u key s) [
        | inr (w, p, l, row, has, found) ↦ included-ShowsMembership t u key w p l s h row has found
        | inl (found, absent) ↦ elim ((h.linked u).found key pos) [
          | inl has ↦ absurd (absent has)
          | inr (w, p, l, low) ↦ excluded-ShowsMembership t u key w p l s h pos low found absent
        ]
      ]

  -- What a proof of an insertion shows, from root to root: the low leaf opens the root before it, and
  -- the key falls between its key and the next; the new low leaf with the same siblings leads to the
  -- root that the empty leaf at the next position opens; the new leaf with the same siblings opens
  -- the root after the insertion.
  pub record ShowsInsertion (t key value : ℕ) (s b : Tree e) (proof : IndexedInsertionProof Hash)
      : Type 0 where
    pub at_end : proof.index ≡ length_of e height laws t s
    pub opens_before : Opens t s proof.low_leaf_index proof.prev_low_leaf proof.low_leaf_proof
    pub linked :
        root_from
          (tree e)
          (e.bit_path height proof.low_leaf_index)
          (e.leaf_hash (new_low_leaf e proof.prev_low_leaf proof.index key))
          proof.low_leaf_proof
        ≡ root_from
            (tree e)
            (e.bit_path height proof.index)
            (e.leaf_hash e.empty_leaf)
            proof.leaf_proof
    pub opens_after :
        Opens t b proof.index (new_leaf e proof.prev_low_leaf key value) proof.leaf_proof
    pub between : covers key proof.prev_low_leaf ≡ true

  insertion_run :
      (t x value p v : ℕ) (l : IndexedMerkleLeaf) (s a b : Tree e) (hs hs' : List Hash)
      → Inserted e height laws t x value p v l s a b
      → prove e height t p s ≡ ok hs
      → prove e height t (length_of e height laws t s) b ≡ ok hs'
      → prove_and_insert e height t x value s
        ≡ ok (
          b,
          record {
            index = length_of e height laws t s;
            low_leaf_proof = hs;
            leaf_proof = hs';
            low_leaf_index = p;
            prev_low_leaf = l;
          },
        )
  unfolding prove_and_insert
  insertion_run t x value p v l s a b hs hs' r one two =
      rw (prove_and_insert, r.low_found, r.low_read, one, r.linking, r.pushing, two)

  -- Past the end the leaves are empty.
  read_empty :
      (t u : ℕ) (s : Tree e)
      → Kept e height laws t s
      → get_leaf e height u (length_of e height laws u s) s ≡ e.empty_leaf
  unfolding MerkleTree.get_leaf
  read_empty t u s h =
      let n = length_of e height laws u s in
      elim (Option-cases (e.leaves.latest u n s.leaf_rows)) [
        | inl nothing ↦ ground (arith, nothing)
        | inr (m, found) ↦
            let (w, le, row) =
              search_back_found (λ w. laws.trees.leaves_laws.row w n s.leaf_rows) u m
                (sym (laws.trees.leaves_laws.latest_lem u n s.leaf_rows) ∙ found) in
            absurd (omega (arith, (h.linked u).inside w n m (le, row)))
      ]

  -- The root between the two writes, from both sides.
  linked_roots :
      (t t' x value p v : ℕ) (l : IndexedMerkleLeaf) (s a b : Tree e) (hs hs' : List Hash)
      → t ≤ t'
      → Kept e height laws t s
      → length_of e height laws t' s < 2 ^ height
      → Inserted e height laws t' x value p v l s a b
      → prove e height t' p s ≡ ok hs
      → prove e height t' (length_of e height laws t' s) b ≡ ok hs'
      → root_from
          (tree e)
          (e.bit_path height p)
          (e.leaf_hash (new_low_leaf e l (length_of e height laws t' s) x))
          hs
        ≡ root_from
            (tree e)
            (e.bit_path height (length_of e height laws t' s))
            (e.leaf_hash e.empty_leaf)
            hs'
  linked_roots t t' x value p v l s a b hs hs' le h below r one two =
      let n = length_of e height laws t' s in
      let inside : p < 2 ^ height = omega (arith, r.low_inside, below) in
      let (hs1, run1, root1) =
        prove-root_from (tree e) height laws.trees t' t' p a r.linked.inv inside in
      let (hs2, run2, root2) =
        prove-root_from (tree e) height laws.trees t' t' n a r.linked.inv below in
      let same1 : hs1 ≡ hs = ok-injective (
        sym run1
        ∙ update_leaf-prove (tree e) height laws.trees t t' p (new_low_leaf e l n x) s a le h.merkle
            r.linking_reference
        ∙ one) in
      let same2 : hs2 ≡ hs' = ok-injective (
        sym run2
        ∙ sym (
            update_leaf-prove (tree e) height laws.trees t' t' n (new_leaf e l x value) a b
              (omega arith) r.linked.inv r.pushing_reference)
        ∙ two) in
      let read1 : get_leaf e height t' p a ≡ new_low_leaf e l n x =
        let g = r.linked.read t' p in ground (arith, g) in
      let read2 : get_leaf e height t' n a ≡ e.empty_leaf =
        let g = r.linked.read t' n in
        let f = read_empty t t' s h in ground (arith, g, f, r.low_inside) in
      let from1 =
        subst (λ z. Opens t' a p (new_low_leaf e l n x) z) same1
          (subst (λ z. Opens t' a p z hs1) read1 root1) in
      let from2 =
        subst (λ z. Opens t' a n e.empty_leaf z) same2
          (subst (λ z. Opens t' a n z hs2) read2 root2) in
      ok-injective (sym from1 ∙ from2)

  pub Inserted-ShowsInsertion :
      (t t' x value p v : ℕ) (l : IndexedMerkleLeaf) (s a b : Tree e)
      → t ≤ t'
      → Kept e height laws t s
      → length_of e height laws t' s < 2 ^ height
      → Inserted e height laws t' x value p v l s a b
      → (proof : IndexedInsertionProof Hash) × (prove_and_insert e height t' x value s
          ≡ ok (b, proof))
        × ShowsInsertion t' x value s b proof
  Inserted-ShowsInsertion t t' x value p v l s a b le h below r =
      let n = length_of e height laws t' s in
      let (hs, one, before) = open_at t t' p s h r.low_inside in
      let n' = r.length_after t' in
      let (hs', two, after) = open_at t' t' n b r.inv (ground (arith, n')) in
      let read = r.read t' n in
      let fresh : get_leaf e height t' n b ≡ new_leaf e l x value = ground (arith, read) in
      (
        record {
          index = n;
          low_leaf_proof = hs;
          leaf_proof = hs';
          low_leaf_index = p;
          prev_low_leaf = l;
        },
        insertion_run t' x value p v l s a b hs hs' r one two,
        record {
          at_end = refl;
          opens_before = subst (λ z. Opens t' s p z hs) r.low_read before;
          linked = linked_roots t t' x value p v l s a b hs hs' le h below r one two;
          opens_after = subst (λ z. Opens t' b n z hs') fresh after;
          between = r.low.covering;
        },
      )
