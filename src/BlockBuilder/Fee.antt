-- ===== src/BlockBuilder/Fee.antt =====
-- block-builder/src/app/fee.rs. What the store vault and the proof system answer are parameters.
pub mod Validation
pub mod Collection
mod Examples
use intmax.Base.{
  ℕ, suc, String, Bool, true, false, List, [], ◌∷◌, ◌++◌, Option, none, some, Result, ok, err,
  ◌>>=◌, ◌>>◌, guard, ok_or, ◌==◌, ltb, not, if◌then◌else◌, resize, find, nat_eq, map,
}
use intmax.Base.Map
use intmax.Base.Map.{HashMap}
use intmax.Zkp.{Types, Zkp, BlockSignPayload, BlockProposal, UserSignature, TransferWitness}
use intmax.Interfaces.{FeeProof, TransferData, validate_transfer_data}
use intmax.BlockBuilder.Types.{TxRequest, ProposalMemo}
use intmax.BlockBuilder.BlockPost.{BlockPostTask}

pub data FeeError : Type 0 where
  fetch_error proof_compression_error server_error encryption_error : FeeError
  fee_verification_error merkle_tree_error invalid_recipient invalid_fee : FeeError
  parse_error signature_verification_error : FeeError

-- `SpentPublicInputs`, as far as it is read here.
pub record SpentPublicInputs (t : Types) : Type 0 where
  pub tx : t.Tx
  pub insufficient_flags : ℕ → Bool

-- `fetch_sender_proof_set` of the store vault; `SenderProofSet::validate`; the decompressed spent
-- proof read by `SpentPublicInputs::from_pis`.
pub record ProofSets (t : Types) : Type 0 where
  pub fetch : ℕ → Result FeeError t.SenderProofSet
  pub validates : t.SenderProofSet → Bool
  pub spent_pis : t.SenderProofSet → Result FeeError (SpentPublicInputs t)

pub record FeeCollection (t : Types) : Type 0 where
  pub use_collateral : Bool
  pub memo : ProposalMemo t
  pub signatures : List (UserSignature t)

module _ (z : Zkp) where
  open z use {types, num_senders_in_block, dummy_pubkey, dummy_account_id}

  pub validate_fee_single :
      ProofSets types
      → ℕ
      → HashMap ℕ ℕ
      → types.SenderProofSet
      → TransferWitness types
      → Result FeeError Unit
  validate_fee_single sets beneficiary_pubkey required_fee sender_proof_set w = do
    guard (sets.validates sender_proof_set) fee_verification_error
    spent_pis ← sets.spent_pis sender_proof_set
    guard (z.tx_eq.beq spent_pis.tx w.tx) fee_verification_error
    guard (not (spent_pis.insufficient_flags w.transfer_index)) fee_verification_error
    guard
        (z.verify_transfer_proof w.transfer_merkle_proof w.transfer w.transfer_index
          (z.transfer_tree_root w.tx))
        merkle_tree_error
    recipient ← ok_or (z.to_pubkey w.transfer.recipient) invalid_recipient
    guard (recipient == beneficiary_pubkey) invalid_recipient
    requested_fee ← ok_or (Map.lookup w.transfer.token_index required_fee) invalid_fee
    guard (not (ltb w.transfer.amount requested_fee)) invalid_fee

  -- The payload that the sender of a collateral block has signed.
  pub collateral_payload : (is_registration : Bool) (root expiry address : ℕ) → BlockSignPayload
  collateral_payload is_registration root expiry address = record {
    is_registration_block = is_registration;
    tx_tree_root = root;
    expiry = expiry;
    block_builder_address = address;
    block_builder_nonce = 0;
  }

  abbrev pub sole_sender_hash : ℕ → ℕ
  sole_sender_hash sender =
      z.get_pubkey_hash (resize (sender ∷ []) num_senders_in_block dummy_pubkey)

  pub validate_collateral :
      ProofSets types
      → (beneficiary_pubkey block_builder_address : ℕ) → HashMap ℕ ℕ
      → (sender : ℕ) → FeeProof types
      → Result FeeError Unit
  validate_collateral sets beneficiary_pubkey block_builder_address collateral_fee sender
        fee_proof =
      do
        collateral_block ← ok_or fee_proof.collateral_block fee_verification_error
        let transfer_data = collateral_block.fee_transfer_data
        guard (validate_transfer_data z transfer_data) fee_verification_error
        guard (collateral_block.block_builder_address == block_builder_address)
            fee_verification_error
        guard
            (z.verify_signature (record { pubkey = sender; signature = collateral_block.signature })
              (collateral_payload collateral_block.is_registration_block transfer_data.tx_tree_root
                collateral_block.expiry block_builder_address)
              (sole_sender_hash sender))
            signature_verification_error
        sender_proof_set ← sets.fetch collateral_block.sender_proof_set_ephemeral_key
        validate_fee_single sets beneficiary_pubkey collateral_fee sender_proof_set (record {
          tx = transfer_data.tx;
          transfer = transfer_data.transfer;
          transfer_index = transfer_data.transfer_index;
          transfer_merkle_proof = transfer_data.transfer_merkle_proof;
        })

  pub validate_fee_proof :
      ProofSets types
      → Option ℕ
      → ℕ
      → Option (HashMap ℕ ℕ)
      → Option (HashMap ℕ ℕ)
      → ℕ
      → Option (FeeProof types)
      → Result FeeError Unit
  validate_fee_proof sets beneficiary block_builder_address none collateral sender proof = ok tt
  validate_fee_proof sets beneficiary block_builder_address (some required_fee) collateral sender
        proof =
      do
        fee_proof ← ok_or proof invalid_fee
        beneficiary_pubkey ← ok_or beneficiary invalid_fee
        sender_proof_set ← sets.fetch fee_proof.sender_proof_set_ephemeral_key
        validate_fee_single sets beneficiary_pubkey required_fee sender_proof_set
            fee_proof.fee_transfer_witness
        elim collateral [
          | none ↦ ok tt
          | some collateral_fee ↦
              validate_collateral sets beneficiary_pubkey block_builder_address collateral_fee
                sender fee_proof
        ]

  -- The transfer that pays when the sender has signed the block.
  signed_transfer : TxRequest types → BlockProposal types → FeeProof types → TransferData types
  signed_transfer request proposal fee_proof = record {
    sender_proof_set_ephemeral_key = fee_proof.sender_proof_set_ephemeral_key;
    sender_proof_set = none;
    sender = request.pubkey;
    tx = request.tx;
    tx_index = proposal.tx_index;
    tx_merkle_proof = proposal.tx_merkle_proof;
    tx_tree_root = proposal.block_sign_payload.tx_tree_root;
    transfer = fee_proof.fee_transfer_witness.transfer;
    transfer_index = fee_proof.fee_transfer_witness.transfer_index;
    transfer_merkle_proof = fee_proof.fee_transfer_witness.transfer_merkle_proof;
  }

  -- The branch of a sender that has not signed: the transfer and the task of its collateral block.
  -- The task is built with the payload of the memo's block, as the source has it.
  collateral_of :
      ProposalMemo types
      → TxRequest types
      → FeeProof types
      → String
      → Result FeeError (TransferData types × BlockPostTask types)
  collateral_of memo request fee_proof block_id = do
    collateral_block ← ok_or fee_proof.collateral_block invalid_fee
    let transfer_data = collateral_block.fee_transfer_data
    let signature : UserSignature types = record {
      pubkey = request.pubkey;
      signature = collateral_block.signature;
    }
    let pubkeys = resize (request.pubkey ∷ []) num_senders_in_block dummy_pubkey
    guard
        (z.verify_signature signature
          (collateral_payload collateral_block.is_registration_block transfer_data.tx_tree_root
            collateral_block.expiry collateral_block.block_builder_address)
          (z.get_pubkey_hash pubkeys))
        signature_verification_error
    ok (
      transfer_data,
      record {
        force_post = false;
        block_sign_payload = memo.block_sign_payload;
        pubkeys = pubkeys;
        account_ids = elim request.account_id [
          | none ↦ none
          | some id ↦ some (z.pack (resize (id ∷ []) num_senders_in_block dummy_account_id))
        ];
        pubkey_hash = z.get_pubkey_hash pubkeys;
        signatures = signature ∷ [];
        block_id = block_id;
      },
    )

  -- One round of the loop: what it adds to the two vectors.
  collect_one :
      FeeCollection types
      → TxRequest types
      → BlockProposal types
      → String
      → Result FeeError (List (TransferData types) × List (BlockPostTask types))
  collect_one fc request proposal block_id = do
    fee_proof ← ok_or request.fee_proof invalid_fee
    elim (find (λ s. s.pubkey == request.pubkey) fc.signatures) [
      | some signature ↦ ok (signed_transfer request proposal fee_proof ∷ [], [])
      | none ↦
          if not fc.use_collateral
          then ok ([], [])
          else do r ← collateral_of fc.memo request fee_proof block_id; ok (r.0 ∷ [], r.1 ∷ [])
    ]

  -- The loop over the zipped requests and proposals; `fresh` gives the block ids, by round.
  collect_loop :
      FeeCollection types
      → (fresh : ℕ → String) (round : ℕ) → List (TxRequest types)
      → List (BlockProposal types)
      → Result FeeError (List (TransferData types) × List (BlockPostTask types))
  collect_loop fc fresh round [] proposals = ok ([], [])
  collect_loop fc fresh round (request ∷ requests) [] = ok ([], [])
  collect_loop fc fresh round (request ∷ requests) (proposal ∷ proposals) = do
    here ← collect_one fc request proposal (fresh round)
    rest ← collect_loop fc fresh (suc round) requests proposals
    ok (here.0 ++ rest.0, here.1 ++ rest.1)

  -- The early return where there is no fee to collect, or else the batch that is saved.
  finish :
      (save : ℕ → List (TransferData types) → Result FeeError Unit) (beneficiary_pubkey : ℕ)
      → List (TransferData types)
      → List (BlockPostTask types)
      → Result FeeError (List (BlockPostTask types))
  finish save beneficiary_pubkey [] posts = ok posts
  finish save beneficiary_pubkey (d ∷ ds) posts = do save beneficiary_pubkey (d ∷ ds); ok posts

  -- `save` encrypts the transfer data for the beneficiary and saves one batch in the store vault.
  pub collect_fee :
      (save : ℕ → List (TransferData types) → Result FeeError Unit) (fresh : ℕ → String)
      (beneficiary_pubkey : ℕ)
      → FeeCollection types
      → Result FeeError (List (BlockPostTask types))
  unfolding collect_loop finish
  collect_fee save fresh beneficiary_pubkey fc = do
    collected ← collect_loop fc fresh 0 fc.memo.tx_requests fc.memo.proposals
    finish save beneficiary_pubkey collected.0 collected.1
