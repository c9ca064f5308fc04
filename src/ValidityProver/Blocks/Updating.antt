-- ===== src/ValidityProver/Blocks/Updating.antt =====
-- validity-prover/src/trees/update.rs: the update of the senders of a block that registers none.
use intmax.Base.{
  ℕ, ◌%◌, ◌≡◌, ◌≤◌, ◌∙◌, refl, List, [], ◌∷◌, some, ok, u32_mod, All, if◌then◌else◌, arith,
}
use intmax.ValidityProver.IndexedMerkleTree.{
  IndexedEnv, UpdateProof, Tree, index, get_leaf, prove_and_update,
}
use intmax.ValidityProver.IndexedMerkleTree.Growth.{IndexedLaws}
use intmax.ValidityProver.IndexedMerkleTree.Revaluing.{ShowsUpdate}
use intmax.ValidityProver.IndexedMerkleTree.History.{
  IndexedHistory, IndexedHistory-prove_and_update,
}
use intmax.ValidityProver.Blocks.{SenderLeaf, update_all}

module _ (e : IndexedEnv) (height : ℕ) (laws : IndexedLaws e height)
    (timestamp block_number : ℕ) where
  open e use {Hash}

  -- The sender has an account.
  abbrev pub HasAccount : Tree e → SenderLeaf → Type 0
  HasAccount s l = (i : ℕ) × (index e timestamp l.sender s ≡ ok (some i))

  -- The number of the sender's last block after this one.
  abbrev pub last_block : SenderLeaf → ℕ → Tree e → ℕ
  last_block l i s =
      if l.signature_included
      then block_number
      else (get_leaf e height timestamp i s).value % u32_mod

  -- Each proof shows the update of its sender's account, in the tree that the ones before lead to, with
  -- the number of the block when the sender has signed, and else with the number that it had.
  pub data Updates : List SenderLeaf → Tree e → List (UpdateProof Hash) → Tree e → Type 0 where
    done : (s : Tree e) → Updates [] s [] s
    updated :
        (l : SenderLeaf) (ls : List SenderLeaf) (s a b : Tree e) (i : ℕ) (proof : UpdateProof Hash)
        (proofs : List (UpdateProof Hash))
        → index e timestamp l.sender s ≡ ok (some i)
        → ShowsUpdate e height laws timestamp l.sender (last_block l i s) s a proof
        → Updates ls a proofs b
        → Updates (l ∷ ls) s (proof ∷ proofs) b

  accounts_kept :
      (s a : Tree e) (ls : List SenderLeaf)
      → ((k : ℕ) → index e timestamp k a ≡ index e timestamp k s)
      → All (HasAccount s) ls
      → All (HasAccount a) ls
  accounts_kept s a [] same has = tt
  accounts_kept s a (l ∷ ls) same has =
      ((has.0.0, same l.sender ∙ has.0.1), accounts_kept s a ls same has.1)

  run_updated :
      (l : SenderLeaf) (ls : List SenderLeaf) (s a b : Tree e) (i : ℕ) (proof : UpdateProof Hash)
      (proofs : List (UpdateProof Hash))
      → index e timestamp l.sender s ≡ ok (some i)
      → prove_and_update e height timestamp l.sender (last_block l i s) s ≡ ok (a, proof)
      → update_all e height timestamp block_number ls a ≡ ok (b, proofs)
      → update_all e height timestamp block_number (l ∷ ls) s ≡ ok (b, proof ∷ proofs)
  unfolding update_all
  run_updated l ls s a b i proof proofs found run rest =
      rw (update_all, found) (rw run (rw rest refl))

  pub update_all-Updates :
      (t : ℕ) (ls : List SenderLeaf) (s : Tree e)
      → IndexedHistory e height laws t s
      → t ≤ timestamp
      → All (HasAccount s) ls
      → (b : Tree e) × (proofs : List (UpdateProof Hash)) × (update_all e height timestamp
            block_number ls s
          ≡ ok (b, proofs))
        × Updates ls s proofs b
        × ((k : ℕ) → index e timestamp k b ≡ index e timestamp k s)
  unfolding update_all
  update_all-Updates t [] s h le has = (s, [], refl, Updates.done s, λ k. refl)
  update_all-Updates t (l ∷ ls) s h le ((i, found), has) =
      let value = last_block l i s in
      let (a, proof, run, shows) =
        IndexedHistory-prove_and_update e height laws t timestamp l.sender value i s h le found in
      let history = IndexedHistory.updated t timestamp l.sender value s a proof h le run in
      let (b, proofs, rest, steps, same) =
        update_all-Updates timestamp ls a history (omega arith)
          (accounts_kept s a ls shows.same_index has) in
      (
        b,
        proof ∷ proofs,
        run_updated l ls s a b i proof proofs found run rest,
        Updates.updated l ls s a b i proof proofs found shows steps,
        λ k. same k ∙ shows.same_index k,
      )
