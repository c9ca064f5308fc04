-- ===== src/BlockBuilder/Fee/Examples.antt =====
-- block-builder/src/app/fee.rs on a small fee proof and a small block.
use intmax.Base.{ℕ, ◌≡◌, ◌↔◌, ◌⊎◌, refl, true, false, List, [], ◌∷◌, none, some, Result, ok}
use intmax.Toy.{toy, request, pay, empty_payload}
use intmax.Zkp.{BlockProposal}
use intmax.Interfaces.{FeeProof, TransferData}
use intmax.BlockBuilder.Types.{TxRequest, ProposalMemo}
use intmax.BlockBuilder.Fee.{
  FeeError, ProofSets, FeeCollection, validate_fee_proof, collect_fee, collect_one, signed_transfer,
}
use intmax.BlockBuilder.Fee.Validation.{PaysFees, validate_fee_proof_iff}
use intmax.BlockBuilder.Fee.Collection.{Collected, collect_fee-Collected}

abbrev sets : ProofSets toy.types
sets = record {
  fetch = λ key. ok key;
  validates = λ set. true;
  spent_pis = λ set. ok (record { tx = set; insufficient_flags = λ i. false });
}

abbrev proof : FeeProof toy.types
proof = record {
  sender_proof_set_ephemeral_key = 30;
  fee_transfer_witness = record {
    tx = 30;
    transfer = pay 0 4;
    transfer_index = 0;
    transfer_merkle_proof = 30;
  };
  collateral_block = none;
}

validate_fee_proof_iff_example :
    (validate_fee_proof toy sets (some 5) 7 (some ((0, 4) ∷ [])) none 3 (some proof) ≡ ok tt)
    ↔ PaysFees toy sets (some 5) 7 ((0, 4) ∷ []) none 3 (some proof)
validate_fee_proof_iff_example =
    validate_fee_proof_iff toy sets (some 5) 7 ((0, 4) ∷ []) none 3 (some proof)

abbrev paying : TxRequest toy.types
paying = record (request "a" 3 30) { fee_proof = some proof }

abbrev proposal : BlockProposal toy.types
proposal = record {
  block_sign_payload = empty_payload;
  tx_index = 0;
  tx_merkle_proof = 30 ∷ 0 ∷ [];
  pubkeys = 3 ∷ 1 ∷ [];
  pubkeys_hash = 0;
}

abbrev memo : ProposalMemo toy.types
memo = record {
  created_at = 0;
  block_id = "block";
  block_sign_payload = empty_payload;
  pubkeys = 3 ∷ 1 ∷ [];
  pubkey_hash = 9;
  tx_requests = paying ∷ [];
  proposals = proposal ∷ [];
}

abbrev collection : FeeCollection toy.types
collection = record {
  use_collateral = true;
  memo = memo;
  signatures = record { pubkey = 3; signature = 0 } ∷ [];
}

abbrev save : ℕ → List (TransferData toy.types) → Result FeeError Unit
save key ds = ok tt

collects : collect_fee toy save (λ i. "fresh") 5 collection ≡ ok []
unfolding collect_fee collect_one signed_transfer
collects = refl

collect_fee-Collected_example :
    (ts : List (TransferData toy.types)) × Collected toy collection
      (paying ∷ [])
      (proposal ∷ [])
      ts
      []
    × ((ts ≡ []) ⊎ (save 5 ts ≡ ok tt))
collect_fee-Collected_example =
    collect_fee-Collected toy save (λ i. "fresh") 5 collection [] refl collects
