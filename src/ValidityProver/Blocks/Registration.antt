-- ===== src/ValidityProver/Blocks/Registration.antt =====
-- validity-prover/src/trees/update.rs: the registration of the senders of a block.
use intmax.Base.{
  ℕ, suc, ◌+◌, ◌^◌, ◌≡◌, ◌<◌, ◌≤◌, ◌∙◌, refl, sym, subst, inl, inr, true, false, List, [], ◌∷◌,
  none, some, ok, ◌==◌, leb, position, length, All, Bool-cases, Option-cases, ==_iff, ok-injective,
  if◌then◌else◌, arith,
}
use intmax.ValidityProver.IndexedMerkleTree.{
  IndexedEnv, IndexedInsertionProof, Tree, len, index, prove_and_insert,
}
use intmax.ValidityProver.IndexedMerkleTree.Growth.{IndexedLaws}
use intmax.ValidityProver.IndexedMerkleTree.Proofs.{ShowsInsertion}
use intmax.ValidityProver.IndexedMerkleTree.History.{
  IndexedHistory, IndexedHistory-insert, IndexedHistory-prove_and_insert, len-insert,
}
use intmax.ValidityProver.Blocks.{SenderLeaf, will_update, register_all}

-- No number stands in the list twice.
abbrev pub AreDistinct : List ℕ → Type 0
AreDistinct [] = Unit
AreDistinct (n ∷ ns) = All (λ m. (m == n) ≡ false) ns × AreDistinct ns

module _ (e : IndexedEnv) (height : ℕ) (laws : IndexedLaws e height) where
  open e use {Hash}

  -- The keys that a block registers.
  abbrev pub registered_keys : List SenderLeaf → List ℕ
  registered_keys [] = []
  registered_keys (l ∷ ls) =
      if will_update e height l then l.sender ∷ registered_keys ls else registered_keys ls

  -- A key that an insertion can take.
  abbrev pub IsFree : (timestamp : ℕ) → Tree e → ℕ → Type 0
  IsFree timestamp s key = (0 < key) × (index e timestamp key s ≡ ok none)

  module _ (dummy : IndexedInsertionProof Hash) (timestamp block_number : ℕ) where
    -- Each proof leads from a tree to the next: a dummy one stays, and any other shows the insertion of
    -- the sender's key with the number of the block.
    pub data Registers
        : List SenderLeaf → Tree e → List (IndexedInsertionProof Hash) → Tree e → Type 0 where
      done : (s : Tree e) → Registers [] s [] s
      skipped :
          (l : SenderLeaf) (ls : List SenderLeaf) (s b : Tree e)
          (proofs : List (IndexedInsertionProof Hash))
          → will_update e height l ≡ false
          → Registers ls s proofs b
          → Registers (l ∷ ls) s (dummy ∷ proofs) b
      registered :
          (l : SenderLeaf) (ls : List SenderLeaf) (s a b : Tree e)
          (proof : IndexedInsertionProof Hash) (proofs : List (IndexedInsertionProof Hash))
          → will_update e height l ≡ true
          → ShowsInsertion e height laws timestamp l.sender block_number s a proof
          → Registers ls a proofs b
          → Registers (l ∷ ls) s (proof ∷ proofs) b

    -- The account ids of new keys follow each other, from the timestamp on.
    abbrev pub IndexAfter : (keys : List ℕ) → (u k : ℕ) → Tree e → Tree e → Type 0
    IndexAfter keys u k s b = index e u k b ≡ (
        if leb timestamp u
        then elim (position (λ n. n == k) keys) [
          | none ↦ index e u k s
          | some i ↦ ok (some (len e height timestamp s + i))
        ]
        else index e u k s)

    still-IsFree :
        (t key : ℕ) (s b : Tree e) (keys : List ℕ)
        → ((u k : ℕ)
            → index e u k b ≡ (
                if leb timestamp u
                then (if k == key then ok (some (len e height timestamp s)) else index e u k s)
                else index e u k s))
        → All (λ k. (k == key) ≡ false) keys
        → All (IsFree timestamp s) keys
        → All (IsFree timestamp b) keys
    still-IsFree t key s b [] after other free = tt
    still-IsFree t key s b (k ∷ keys) after other free =
        let read = after timestamp k in
        let q = other.0 in
        let f = free.0.1 in
        ((free.0.0, ground (arith, read, q, f)), still-IsFree t key s b keys after other.1 free.1)

    -- What the senders that are left ask of a tree.
    abbrev pub Ready : List ℕ → Tree e → Type 0
    Ready keys s =
        AreDistinct keys
        × All (IsFree timestamp s) keys
        × (len e height timestamp s + length keys ≤ 2 ^ height)

    keys_skipped :
        (l : SenderLeaf) (ls : List SenderLeaf)
        → will_update e height l ≡ false
        → registered_keys (l ∷ ls) ≡ registered_keys ls
    keys_skipped l ls stays = rw stays refl

    keys_registered :
        (l : SenderLeaf) (ls : List SenderLeaf)
        → will_update e height l ≡ true
        → registered_keys (l ∷ ls) ≡ l.sender ∷ registered_keys ls
    keys_registered l ls will = rw will refl

    run_skipped :
        (l : SenderLeaf) (ls : List SenderLeaf) (s b : Tree e)
        (proofs : List (IndexedInsertionProof Hash))
        → will_update e height l ≡ false
        → register_all e height dummy timestamp block_number ls s ≡ ok (b, proofs)
        → register_all e height dummy timestamp block_number (l ∷ ls) s ≡ ok (b, dummy ∷ proofs)
    unfolding register_all
    run_skipped l ls s b proofs stays rest = rw (register_all, stays) (rw rest refl)

    run_registered :
        (l : SenderLeaf) (ls : List SenderLeaf) (s a b : Tree e)
        (proof : IndexedInsertionProof Hash) (proofs : List (IndexedInsertionProof Hash))
        → will_update e height l ≡ true
        → prove_and_insert e height timestamp l.sender block_number s ≡ ok (a, proof)
        → register_all e height dummy timestamp block_number ls a ≡ ok (b, proofs)
        → register_all e height dummy timestamp block_number (l ∷ ls) s ≡ ok (b, proof ∷ proofs)
    unfolding register_all
    run_registered l ls s a b proof proofs will run rest =
        rw (register_all, will) (rw run (rw rest refl))

    position-none :
        (key : ℕ) (keys : List ℕ)
        → All (λ m. (m == key) ≡ false) keys
        → position (λ n. n == key) keys ≡ none
    position-none key [] other = refl
    position-none key (m ∷ keys) other = rw (other.0, position-none key keys other.1) refl

    index_step :
        (key : ℕ) (keys : List ℕ) (s a b : Tree e) (u k : ℕ)
        → All (λ m. (m == key) ≡ false) keys
        → len e height timestamp a ≡ suc (len e height timestamp s)
        → index e u k a ≡ (
            if leb timestamp u
            then (if k == key then ok (some (len e height timestamp s)) else index e u k s)
            else index e u k s)
        → IndexAfter keys u k a b
        → IndexAfter (key ∷ keys) u k s b
    index_step key keys s a b u k other grown here rest = elim (Bool-cases (key == k)) [
      | inl same ↦
          let none_left =
            subst (λ n. position (λ m. m == n) keys ≡ none) ((==_iff key k).0 same)
              (position-none key keys other) in
          ground arith
      | inr differs ↦ elim (Option-cases (position (λ n. n == k) keys)) [
        | inl q ↦ ground arith
        | inr (i, q) ↦ ground arith
      ]
    ]

    nothing_registered : (s : Tree e) (u k : ℕ) → IndexAfter [] u k s s
    nothing_registered s u k = ground arith

    -- One sender's key is inserted, and the others stay free.
    record Step (key : ℕ) (keys : List ℕ) (s : Tree e) : Type 0 where
      after : Tree e
      proof : IndexedInsertionProof Hash
      proved : prove_and_insert e height timestamp key block_number s ≡ ok (after, proof)
      shows : ShowsInsertion e height laws timestamp key block_number s after proof
      history : IndexedHistory e height laws timestamp after
      ready : Ready keys after
      grown : len e height timestamp after ≡ suc (len e height timestamp s)
      index_insert :
          (u k : ℕ)
          → index e u k after ≡ (
              if leb timestamp u
              then (if k == key then ok (some (len e height timestamp s)) else index e u k s)
              else index e u k s)

    insert-Step :
        (t key : ℕ) (keys : List ℕ) (s : Tree e)
        → IndexedHistory e height laws t s
        → t ≤ timestamp
        → Ready (key ∷ keys) s
        → Step key keys s
    insert-Step t key keys s h le (distinct, free, room) =
        let below : len e height timestamp s < 2 ^ height = omega (arith, room) in
        let pos = free.0.0 in
        let absent = free.0.1 in
        let (a, proof, run, proved, shows) =
          IndexedHistory-prove_and_insert e height laws t timestamp key block_number s h le pos
            absent below in
        let (a', run', here, _) =
          IndexedHistory-insert e height laws t timestamp key block_number s h le pos absent
            below in
        let read =
          subst
            (λ z.
              (u k : ℕ)
              → index e u k z ≡ (
                  if leb timestamp u
                  then (if k == key then ok (some (len e height timestamp s)) else index e u k s)
                  else index e u k s))
            (ok-injective (sym run' ∙ run)) here in
        let grown =
          len-insert e height laws t timestamp key block_number s a h le pos absent below run in
        record {
          after = a;
          proof = proof;
          proved = proved;
          shows = shows;
          history =
              IndexedHistory.inserted t timestamp key block_number s a h le pos absent below run;
          ready = (
            distinct.1,
            still-IsFree t key s a keys read distinct.0 free.1,
            omega (arith, grown, room),
          );
          grown = grown;
          index_insert = read;
        }

    -- For senders whose keys are positive, distinct and not in a tree which the operations lead to,
    -- no earlier than its last write and while there are positions for all of them, the registration
    -- of a block succeeds; each proof shows the insertion of its sender's key into the tree that the
    -- ones before lead to, or is the dummy proof of a sender that is not registered; and from the
    -- timestamp on the new keys have the next account ids, in their order, and every other key has
    -- the id it had.
    pub register_all-Registers :
        (t : ℕ) (ls : List SenderLeaf) (s : Tree e)
        → IndexedHistory e height laws t s
        → t ≤ timestamp
        → Ready (registered_keys ls) s
        → (b : Tree e) × (proofs : List (IndexedInsertionProof Hash)) × (register_all e height dummy
              timestamp block_number ls s
            ≡ ok (b, proofs))
          × Registers ls s proofs b
          × ((u k : ℕ) → IndexAfter (registered_keys ls) u k s b)
    unfolding register_all
    register_all-Registers t [] s h le ready =
        (s, [], refl, Registers.done s, λ u k. nothing_registered s u k)
    register_all-Registers t (l ∷ ls) s h le ready = elim (Bool-cases (will_update e height l)) [
      | inr stays ↦
          let same = keys_skipped l ls stays in
          let (b, proofs, run, steps, after) =
            register_all-Registers t ls s h le (subst (λ keys. Ready keys s) same ready) in
          (
            b,
            dummy ∷ proofs,
            run_skipped l ls s b proofs stays run,
            Registers.skipped l ls s b proofs stays steps,
            λ u k. subst (λ keys. IndexAfter keys u k s b) (sym same) (after u k),
          )
      | inl will ↦
          let same = keys_registered l ls will in
          let ready' = subst (λ keys. Ready keys s) same ready in
          let step = insert-Step t l.sender (registered_keys ls) s h le ready' in
          let (b, proofs, run, steps, after) =
            register_all-Registers timestamp ls step.after step.history (omega arith) step.ready in
          (
            b,
            step.proof ∷ proofs,
            run_registered l ls s step.after b step.proof proofs will step.proved run,
            Registers.registered l ls s step.after b step.proof proofs will step.shows steps,
            λ u k.
                subst (λ keys. IndexAfter keys u k s b) (sym same)
                  (index_step l.sender (registered_keys ls) s step.after b u k ready'.0.0 step.grown
                    (step.index_insert u k) (after u k)),
          )
    ]
