-- ===== src/Interfaces.antt =====
-- interfaces/src: the data that clients and servers exchange.
use intmax.Base.{ℕ, Bool, Option, ◌&&◌}
use intmax.Zkp.{Types, Transfer, TransferWitness, Zkp}

module _ (t : Types) where
  open t use {Tx, TxMerkleProof, TransferMerkleProof, FlatG2, SenderProofSet}

  -- interfaces/src/data/transfer_data.rs
  pub record TransferData : Type 0 where
    pub sender_proof_set_ephemeral_key : ℕ
    pub sender_proof_set : Option SenderProofSet
    pub sender : ℕ
    pub tx : Tx
    pub tx_index : ℕ
    pub tx_merkle_proof : TxMerkleProof
    pub tx_tree_root : ℕ
    pub transfer : Transfer t
    pub transfer_index : ℕ
    pub transfer_merkle_proof : TransferMerkleProof

  -- interfaces/src/api/block_builder/interface.rs
  pub record CollateralBlock : Type 0 where
    pub sender_proof_set_ephemeral_key : ℕ
    pub fee_transfer_data : TransferData
    pub is_registration_block : Bool
    pub expiry : ℕ
    pub block_builder_address : ℕ
    pub signature : FlatG2

  pub record FeeProof : Type 0 where
    pub sender_proof_set_ephemeral_key : ℕ
    pub fee_transfer_witness : TransferWitness t
    pub collateral_block : Option CollateralBlock

-- `TransferData::validate` succeeds.
pub validate_transfer_data : (z : Zkp) → TransferData z.types → Bool
validate_transfer_data z d =
    z.is_hash_out d.tx_tree_root
    && (z.verify_tx_proof d.tx_merkle_proof d.tx d.tx_index d.tx_tree_root
        && z.verify_transfer_proof d.transfer_merkle_proof d.transfer d.transfer_index
            (z.transfer_tree_root d.tx))

pub record Fee : Type 0 where
  pub token_index : ℕ
  pub amount : ℕ
