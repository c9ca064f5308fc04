-- ===== src/BlockBuilder/Fee/Collection.antt =====
-- block-builder/src/app/fee.rs: collect_fee.
use intmax.Base.{
  ℕ, suc, ◌≡◌, refl, subst, ◌⊎◌, inl, inr, String, Bool, false, not, List, [], ◌∷◌, ◌++◌, Result,
  ok, >>=-eq-ok, Result-cases, Option-cases, Bool-cases, arith, ◌==◌, if◌then◌else◌, any, retain,
  length, length-append, resize, none, some, true,
}
use intmax.Base.Search.{find_cases}
use intmax.Zkp.{Zkp, BlockProposal, UserSignature}
use intmax.Interfaces.{TransferData, FeeProof, CollateralBlock}
use intmax.BlockBuilder.Types.{TxRequest}
use intmax.BlockBuilder.BlockPost.{BlockPostTask}
use intmax.BlockBuilder.Fee.{
  FeeError, finish, FeeCollection, collect_one, collect_loop, collect_fee, collateral_of,
  signed_transfer, collateral_payload,
}

module _ (z : Zkp) where
  open z use {types, num_senders_in_block, dummy_pubkey}

  -- The sender of a request has returned a signature.
  abbrev pub has_signed : FeeCollection types → TxRequest types → Bool
  has_signed fc r = any (λ s. s.pubkey == r.pubkey) fc.signatures

  -- The transfer of a sender that has signed: the fee transfer of its proof, in the transaction of its
  -- request, at the proposal's place in the block.
  pub record OfSigned (r : TxRequest types) (p : BlockProposal types) (proof : FeeProof types)
      (t : TransferData types) : Type 0 where
    pub key : t.sender_proof_set_ephemeral_key ≡ proof.sender_proof_set_ephemeral_key
    pub no_set : t.sender_proof_set ≡ none
    pub sender : t.sender ≡ r.pubkey
    pub tx : t.tx ≡ r.tx
    pub tx_index : t.tx_index ≡ p.tx_index
    pub tx_merkle_proof : t.tx_merkle_proof ≡ p.tx_merkle_proof
    pub tx_tree_root : t.tx_tree_root ≡ p.block_sign_payload.tx_tree_root
    pub transfer : t.transfer ≡ proof.fee_transfer_witness.transfer
    pub transfer_index : t.transfer_index ≡ proof.fee_transfer_witness.transfer_index
    pub transfer_merkle_proof :
        t.transfer_merkle_proof ≡ proof.fee_transfer_witness.transfer_merkle_proof

  -- The signature that a collateral block carries for the sender of a request.
  abbrev pub collateral_signature : TxRequest types → CollateralBlock types → UserSignature types
  collateral_signature r block = record { pubkey = r.pubkey; signature = block.signature }

  -- The sender alone, among dummies.
  abbrev pub alone : TxRequest types → List ℕ
  alone r = resize (r.pubkey ∷ []) num_senders_in_block dummy_pubkey

  -- The task for a sender that has not signed: it carries the payload of the memo's block and, as its
  -- one signature, the sender's signature of the collateral block, which verifies for that block.
  pub record OfCollateral (fc : FeeCollection types) (r : TxRequest types)
      (block : CollateralBlock types) (post : BlockPostTask types) : Type 0 where
    pub payload : post.block_sign_payload ≡ fc.memo.block_sign_payload
    pub signatures : post.signatures ≡ collateral_signature r block ∷ []
    pub force_post : post.force_post ≡ false
    pub pubkeys : post.pubkeys ≡ alone r
    pub pubkey_hash : post.pubkey_hash ≡ z.get_pubkey_hash (alone r)
    pub verifies :
        z.verify_signature
          (collateral_signature r block)
          (collateral_payload z block.is_registration_block block.fee_transfer_data.tx_tree_root
            block.expiry block.block_builder_address)
          (z.get_pubkey_hash (alone r))
        ≡ true

  -- What a request and its proposal give, by whether the sender has signed and whether collateral is
  -- used.
  pub data FromRequest (fc : FeeCollection types) (r : TxRequest types) (p : BlockProposal types)
      : List (TransferData types) → List (BlockPostTask types) → Type 0 where
    signed :
        (proof : FeeProof types) (t : TransferData types)
        → r.fee_proof ≡ some proof
        → has_signed fc r ≡ true
        → OfSigned r p proof t
        → FromRequest fc r p (t ∷ []) []
    collateral :
        (proof : FeeProof types) (block : CollateralBlock types) (post : BlockPostTask types)
        → r.fee_proof ≡ some proof
        → has_signed fc r ≡ false
        → fc.use_collateral ≡ true
        → proof.collateral_block ≡ some block
        → OfCollateral fc r block post
        → FromRequest fc r p (block.fee_transfer_data ∷ []) (post ∷ [])
    skipped : has_signed fc r ≡ false → fc.use_collateral ≡ false → FromRequest fc r p [] []

  -- What the requests give, each with its proposal, in their order.
  pub data FromRequests (fc : FeeCollection types)
      : List (TxRequest types)
        → List (BlockProposal types)
        → List (TransferData types)
        → List (BlockPostTask types)
        → Type 0 where
    none_left : FromRequests fc [] [] [] []
    one_more :
        (r : TxRequest types) (rs : List (TxRequest types)) (p : BlockProposal types)
        (ps : List (BlockProposal types)) (t ts : List (TransferData types))
        (post posts : List (BlockPostTask types))
        → FromRequest fc r p t post
        → FromRequests fc rs ps ts posts
        → FromRequests fc (r ∷ rs) (p ∷ ps) (t ++ ts) (post ++ posts)

  collateral_of-OfCollateral :
      (fc : FeeCollection types) (r : TxRequest types) (proof : FeeProof types) (id : String)
      (t : TransferData types) (post : BlockPostTask types)
      → collateral_of z fc.memo r proof id ≡ ok (t, post)
      → (block : CollateralBlock types) × (proof.collateral_block ≡ some block)
        × (block.fee_transfer_data ≡ t)
        × OfCollateral fc r block post
  unfolding collateral_of
  collateral_of-OfCollateral fc r proof id t post h = elim (Option-cases proof.collateral_block) [
    | inl e ↦ absurd (ground arith)
    | inr (block, e) ↦
        let verifies : z.verify_signature (collateral_signature r block)
              (collateral_payload z block.is_registration_block block.fee_transfer_data.tx_tree_root
                block.expiry block.block_builder_address)
              (z.get_pubkey_hash (alone r))
            ≡ true =
          ground arith in
        (
          block,
          e,
          ground arith,
          record {
            payload = ground arith;
            signatures = ground arith;
            force_post = ground arith;
            pubkeys = ground arith;
            pubkey_hash = ground arith;
            verifies = verifies;
          },
        )
  ]

  collect_one-FromRequest :
      (fc : FeeCollection types) (r : TxRequest types) (p : BlockProposal types) (id : String)
      (out : List (TransferData types) × List (BlockPostTask types))
      → collect_one z fc r p id ≡ ok out
      → FromRequest fc r p out.0 out.1
  unfolding collect_one signed_transfer
  collect_one-FromRequest fc r p id out h = elim (Option-cases r.fee_proof) [
    | inl e ↦ absurd (ground arith)
    | inr (proof, e) ↦ elim (find_cases (λ s. s.pubkey == r.pubkey) fc.signatures) [
      | inr (s, es, q) ↦
          let same : (signed_transfer z r p proof ∷ [], []) ≡ out = ground arith in
          subst (λ o. FromRequest fc r p o.0 o.1) same
            (signed proof (signed_transfer z r p proof) e (ground arith) (record {
              key = refl;
              no_set = refl;
              sender = refl;
              tx = refl;
              tx_index = refl;
              tx_merkle_proof = refl;
              tx_tree_root = refl;
              transfer = refl;
              transfer_index = refl;
              transfer_merkle_proof = refl;
            }))
      | inl (es, q) ↦ elim (Bool-cases fc.use_collateral) [
        | inr off ↦
            let same : ([], []) ≡ out = ground arith in
            subst (λ o. FromRequest fc r p o.0 o.1) same (skipped (ground arith) off)
        | inl on ↦ elim (Result-cases (collateral_of z fc.memo r proof id)) [
          | inr (x, ec) ↦ absurd (ground arith)
          | inl ((t, post), ec) ↦
              let (block, eb, et, of_block) = collateral_of-OfCollateral fc r proof id t post ec in
              let same : (block.fee_transfer_data ∷ [], post ∷ []) ≡ out = ground arith in
              subst (λ o. FromRequest fc r p o.0 o.1) same
                (collateral proof block post e (ground arith) on eb of_block)
        ]
      ]
    ]
  ]

  -- What the loop collects, and how many transfers and tasks that are.
  pub record Collected (fc : FeeCollection types) (rs : List (TxRequest types))
      (ps : List (BlockProposal types)) (ts : List (TransferData types))
      (posts : List (BlockPostTask types)) : Type 0 where
    pub from_requests : FromRequests fc rs ps ts posts
    pub transfers :
        length ts ≡ (if fc.use_collateral then length rs else length (retain (has_signed fc) rs))
    pub tasks :
        length posts
        ≡ (if fc.use_collateral then length (retain (λ r. not (has_signed fc r)) rs) else 0)

  -- The numbers for one round.
  FromRequest-numbers :
      (fc : FeeCollection types) (r : TxRequest types) (p : BlockProposal types)
      (ts : List (TransferData types)) (posts : List (BlockPostTask types))
      → FromRequest fc r p ts posts
      → (length ts ≡ (if has_signed fc r then 1 else if fc.use_collateral then 1 else 0))
        × (length posts ≡ (if has_signed fc r then 0 else if fc.use_collateral then 1 else 0))
  FromRequest-numbers fc r p _ _ (signed proof t e h q) = (ground arith, ground arith)
  FromRequest-numbers fc r p _ _ (collateral proof block post e h on eb q) =
      (ground arith, ground arith)
  FromRequest-numbers fc r p _ _ (skipped h off) = (ground arith, ground arith)

  collect_loop-Collected :
      (fc : FeeCollection types) (fresh : ℕ → String) (round : ℕ) (rs : List (TxRequest types))
      (ps : List (BlockProposal types))
      (out : List (TransferData types) × List (BlockPostTask types))
      → length ps ≡ length rs
      → collect_loop z fc fresh round rs ps ≡ ok out
      → Collected fc rs ps out.0 out.1
  unfolding collect_loop
  collect_loop-Collected fc fresh round [] (p ∷ ps) out e h = absurd (omega arith)
  collect_loop-Collected fc fresh round [] [] out e h =
      let same : ([], []) ≡ out = ground arith in
      subst (λ o. Collected fc [] [] o.0 o.1) same
        (record { from_requests = none_left; transfers = ground arith; tasks = ground arith })
  collect_loop-Collected fc fresh round (r ∷ rs) [] out e h = absurd (omega arith)
  collect_loop-Collected fc fresh round (r ∷ rs) (p ∷ ps) out e h =
      let (here, eh, h') = >>=-eq-ok (collect_one z fc r p (fresh round)) _ h in
      let (rest, er, h'') = >>=-eq-ok (collect_loop z fc fresh (suc round) rs ps) _ h' in
      let one = collect_one-FromRequest fc r p (fresh round) here eh in
      let (transfers, tasks) = FromRequest-numbers fc r p here.0 here.1 one in
      let more = collect_loop-Collected fc fresh (suc round) rs ps rest (omega arith) er in
      let sums : (here.0 ++ rest.0, here.1 ++ rest.1) ≡ out = ground arith in
      subst (λ o. Collected fc (r ∷ rs) (p ∷ ps) o.0 o.1) sums
        (record {
          from_requests = one_more r rs p ps here.0 rest.0 here.1 rest.1 one more.from_requests;
          transfers = ground (arith, length-append here.0 rest.0, transfers, more.transfers);
          tasks = ground (arith, length-append here.1 rest.1, tasks, more.tasks);
        })

  finish_lem :
      (save : ℕ → List (TransferData types) → Result FeeError Unit) (beneficiary : ℕ)
      (ts : List (TransferData types)) (ps posts : List (BlockPostTask types))
      → finish z save beneficiary ts ps ≡ ok posts
      → ((ts ≡ []) ⊎ (save beneficiary ts ≡ ok tt)) × (ps ≡ posts)
  unfolding finish
  finish_lem save beneficiary [] ps posts h = (inl refl, ground arith)
  finish_lem save beneficiary (t ∷ ts) ps posts h =
      let (u, e, h') = >>=-eq-ok (save beneficiary (t ∷ ts)) _ h in (inr e, ground arith)

  -- A collection that succeeds over a memo with a proposal for each request has saved, unless there
  -- was none, exactly these transfers: for each request in order, a sender that has signed pays
  -- the fee transfer of its proof, in the transaction of its request and at the place of its
  -- proposal; without a signature of its own but with collateral, it pays the transfer of its
  -- collateral block, and one task is queued, which carries the payload of the memo's block and the
  -- sender's signature of the collateral block, verified for that block; and otherwise nothing. So
  -- with collateral every sender pays one transfer, and without it only those that have signed do
  -- and nothing is queued.
  pub collect_fee-Collected :
      (save : ℕ → List (TransferData types) → Result FeeError Unit) (fresh : ℕ → String)
      (beneficiary : ℕ) (fc : FeeCollection types) (posts : List (BlockPostTask types))
      → length fc.memo.proposals ≡ length fc.memo.tx_requests
      → collect_fee z save fresh beneficiary fc ≡ ok posts
      → (ts : List (TransferData types)) × Collected fc fc.memo.tx_requests fc.memo.proposals ts
          posts
        × ((ts ≡ []) ⊎ (save beneficiary ts ≡ ok tt))
  unfolding collect_fee
  collect_fee-Collected save fresh beneficiary fc posts e h =
      let (out, eo, h') =
        >>=-eq-ok (collect_loop z fc fresh 0 fc.memo.tx_requests fc.memo.proposals) _ h in
      let all = collect_loop-Collected fc fresh 0 _ _ out e eo in
      let (ok', same) = finish_lem save beneficiary out.0 out.1 posts h' in
      (out.0, subst (Collected fc fc.memo.tx_requests fc.memo.proposals out.0) same all, ok')
