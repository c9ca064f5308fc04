-- ===== src/BlockBuilder/Fee/Validation.antt =====
-- block-builder/src/app/fee.rs: validate_fee_proof.
use intmax.Base.{
  ℕ, ◌≤◌, ◌≡◌, refl, ◌↔◌, inl, inr, true, false, Option, none, some, ok, Result-cases, Option-cases,
  arith, nat_eq,
}
use intmax.Base.Map
use intmax.Base.Map.{HashMap}
use intmax.Zkp.{Zkp, TransferWitness}
use intmax.Interfaces.{FeeProof, CollateralBlock, validate_transfer_data}
use intmax.BlockBuilder.Fee.{
  SpentPublicInputs, ProofSets, validate_fee_single, validate_fee_proof, validate_collateral,
  collateral_payload, sole_sender_hash,
}

module _ (z : Zkp) where
  open z use {types}

  -- What a transfer has to satisfy to pay a fee to the beneficiary out of a sender's proof set.
  pub record Pays (sets : ProofSets types) (beneficiary_pubkey : ℕ) (required_fee : HashMap ℕ ℕ)
      (set : types.SenderProofSet) (w : TransferWitness types) : Type 0 where
    pub set_validates : sets.validates set ≡ true
    pub spent :
        (p : SpentPublicInputs types) × (sets.spent_pis set ≡ ok p)
        × (z.tx_eq.beq p.tx w.tx ≡ true)
        × (p.insufficient_flags w.transfer_index ≡ false)
    pub proved :
        z.verify_transfer_proof w.transfer_merkle_proof w.transfer w.transfer_index
          (z.transfer_tree_root w.tx)
        ≡ true
    pub to_beneficiary : z.to_pubkey w.transfer.recipient ≡ some beneficiary_pubkey
    pub enough :
        (n : ℕ) × (Map.lookup w.transfer.token_index required_fee ≡ some n)
        × (n ≤ w.transfer.amount)

  validate_fee_single-Pays :
      (sets : ProofSets types) (b : ℕ) (fee : HashMap ℕ ℕ) (set : types.SenderProofSet)
      (w : TransferWitness types)
      → validate_fee_single z sets b fee set w ≡ ok tt
      → Pays sets b fee set w
  unfolding validate_fee_single
  validate_fee_single-Pays sets b fee set w h = elim (Result-cases (sets.spent_pis set)) [
    | inr (e, q) ↦ absurd (ground arith)
    | inl (p, q) ↦ elim (Option-cases (Map.lookup w.transfer.token_index fee)) [
      | inl q' ↦ absurd (ground (arith))
      | inr (n, q') ↦ record {
        set_validates = ground arith;
        spent = (p, q, ground arith, ground arith);
        proved = ground arith;
        to_beneficiary = ground arith;
        enough = (n, q', ground arith);
      }
    ]
  ]

  validate_fee_single_complete :
      (sets : ProofSets types) (b : ℕ) (fee : HashMap ℕ ℕ) (set : types.SenderProofSet)
      (w : TransferWitness types)
      → Pays sets b fee set w
      → validate_fee_single z sets b fee set w ≡ ok tt
  unfolding validate_fee_single
  validate_fee_single_complete sets b fee set w h =
      ground (arith, h.spent.1, h.spent.2, h.spent.3, h.enough.1, h.enough.2)

  -- The collateral block that a fee proof has to carry: it is for this builder, its transfer data
  -- opens its own roots, the sender has signed it, and its transfer pays the collateral fee.
  pub record PaysCollateral (sets : ProofSets types) (beneficiary address : ℕ) (fee : HashMap ℕ ℕ)
      (sender : ℕ) (proof : FeeProof types) : Type 0 where
    pub block : CollateralBlock types
    pub carried : proof.collateral_block ≡ some block
    pub opens : validate_transfer_data z block.fee_transfer_data ≡ true
    pub address_matches : block.block_builder_address ≡ address
    pub signed :
        z.verify_signature
          (record { pubkey = sender; signature = block.signature })
          (collateral_payload z block.is_registration_block block.fee_transfer_data.tx_tree_root
            block.expiry address)
          (sole_sender_hash z sender)
        ≡ true
    pub set : types.SenderProofSet
    pub fetched : sets.fetch block.sender_proof_set_ephemeral_key ≡ ok set
    pub pays : Pays sets beneficiary fee set (record {
      tx = block.fee_transfer_data.tx;
      transfer = block.fee_transfer_data.transfer;
      transfer_index = block.fee_transfer_data.transfer_index;
      transfer_merkle_proof = block.fee_transfer_data.transfer_merkle_proof;
    })

  validate_collateral_sound :
      (sets : ProofSets types) (b a : ℕ) (fee : HashMap ℕ ℕ) (sender : ℕ) (proof : FeeProof types)
      → validate_collateral z sets b a fee sender proof ≡ ok tt
      → PaysCollateral sets b a fee sender proof
  unfolding validate_collateral
  validate_collateral_sound sets b a fee sender proof h =
      elim (Option-cases proof.collateral_block) [
        | inl e ↦ absurd (ground arith)
        | inr (block, e) ↦ elim (Result-cases (sets.fetch block.sender_proof_set_ephemeral_key)) [
          | inr (x, e') ↦ absurd (ground arith)
          | inl (set, e') ↦ record {
            block = block;
            carried = e;
            opens = ground arith;
            address_matches = ground arith;
            signed = ground arith;
            set = set;
            fetched = e';
            pays = validate_fee_single-Pays sets b fee set _ (ground arith);
          }
        ]
      ]

  validate_collateral_complete :
      (sets : ProofSets types) (b a : ℕ) (fee : HashMap ℕ ℕ) (sender : ℕ) (proof : FeeProof types)
      → PaysCollateral sets b a fee sender proof
      → validate_collateral z sets b a fee sender proof ≡ ok tt
  unfolding validate_collateral
  validate_collateral_complete sets b a fee sender proof h = ground (
    arith,
    h.carried,
    h.opens,
    h.address_matches,
    h.signed,
    h.fetched,
    validate_fee_single_complete sets b fee h.set _ h.pays,
  )

  -- What a request has to carry where a fee, and perhaps a collateral fee, is required.
  pub record PaysFees (sets : ProofSets types) (beneficiary : Option ℕ) (address : ℕ)
      (fee : HashMap ℕ ℕ) (collateral : Option (HashMap ℕ ℕ)) (sender : ℕ)
      (proof : Option (FeeProof types)) : Type 0 where
    pub fee_proof : FeeProof types
    pub given : proof ≡ some fee_proof
    pub pubkey : ℕ
    pub known : beneficiary ≡ some pubkey
    pub set : types.SenderProofSet
    pub fetched : sets.fetch fee_proof.sender_proof_set_ephemeral_key ≡ ok set
    pub pays : Pays sets pubkey fee set fee_proof.fee_transfer_witness
    pub insured :
        (c : HashMap ℕ ℕ)
        → collateral ≡ some c
        → PaysCollateral sets pubkey address c sender fee_proof

  validate_fee_proof_sound :
      (sets : ProofSets types) (b : Option ℕ) (a : ℕ) (fee : HashMap ℕ ℕ)
      (collateral : Option (HashMap ℕ ℕ)) (sender : ℕ) (proof : Option (FeeProof types))
      → validate_fee_proof z sets b a (some fee) collateral sender proof ≡ ok tt
      → PaysFees sets b a fee collateral sender proof
  unfolding validate_fee_proof
  validate_fee_proof_sound sets none a fee collateral sender none h = cc
  validate_fee_proof_sound sets (some b) a fee collateral sender none h = cc
  validate_fee_proof_sound sets none a fee collateral sender (some proof) h = cc
  validate_fee_proof_sound sets (some b) a fee collateral sender (some proof) h =
      elim (Result-cases (sets.fetch proof.sender_proof_set_ephemeral_key)) [
        | inr (x, e) ↦ absurd (ground arith)
        | inl (set, e) ↦ record {
          fee_proof = proof;
          given = refl;
          pubkey = b;
          known = refl;
          set = set;
          fetched = e;
          pays = validate_fee_single-Pays sets b fee set _ (ground arith);
          insured = λ c q. validate_collateral_sound sets b a c sender proof (ground arith);
        }
      ]

  validate_fee_proof_complete :
      (sets : ProofSets types) (b : Option ℕ) (a : ℕ) (fee : HashMap ℕ ℕ)
      (collateral : Option (HashMap ℕ ℕ)) (sender : ℕ) (proof : Option (FeeProof types))
      → PaysFees sets b a fee collateral sender proof
      → validate_fee_proof z sets b a (some fee) collateral sender proof ≡ ok tt
  unfolding validate_fee_proof
  validate_fee_proof_complete sets b a fee none sender proof h = ground (
    arith,
    h.given,
    h.known,
    h.fetched,
    validate_fee_single_complete sets h.pubkey fee h.set _ h.pays,
  )
  validate_fee_proof_complete sets b a fee (some c) sender proof h = ground (
    arith,
    h.given,
    h.known,
    h.fetched,
    validate_fee_single_complete sets h.pubkey fee h.set _ h.pays,
    validate_collateral_complete sets h.pubkey a c sender h.fee_proof (h.insured c refl),
  )

  -- Where a fee is required, a request passes the validation exactly when it carries a fee proof,
  -- the builder has a beneficiary, the proof's transfer pays the beneficiary the fee for its token
  -- out of a valid and sufficient spent proof, and, if a collateral fee is required too, the proof
  -- carries a signed block for this builder that pays it.
  pub validate_fee_proof_iff :
      (sets : ProofSets types) (b : Option ℕ) (a : ℕ) (fee : HashMap ℕ ℕ)
      (collateral : Option (HashMap ℕ ℕ)) (sender : ℕ) (proof : Option (FeeProof types))
      → (validate_fee_proof z sets b a (some fee) collateral sender proof ≡ ok tt)
        ↔ PaysFees sets b a fee collateral sender proof
  validate_fee_proof_iff sets b a fee collateral sender proof = (
    validate_fee_proof_sound sets b a fee collateral sender proof,
    validate_fee_proof_complete sets b a fee collateral sender proof,
  )
