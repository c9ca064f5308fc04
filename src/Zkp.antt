-- ===== src/Zkp.antt =====
-- The crate intmax2-zkp, which the services call and which is not in the repository: its types are
-- carriers, its functions are parameters, and what the services rely on is a named law. Structs of
-- that crate that the services build by a literal are records with the fields of the literal.
-- `U256`, `Bytes32`, addresses and Poseidon hashes are numbers.
use intmax.Base.{ℕ, ◌≡◌, Bool, true, List, Option, some, Eq, get_elem?}

pub record Types : Type 1 where
  pub Tx : Type 0
  pub Recipient : Type 0
  pub Salt : Type 0
  pub TxMerkleProof : Type 0
  pub TransferMerkleProof : Type 0
  pub FlatG2 : Type 0
  pub SenderProofSet : Type 0
  pub AccountIdPacked : Type 0

pub record BlockSignPayload : Type 0 where
  pub is_registration_block : Bool
  pub tx_tree_root : ℕ
  pub expiry : ℕ
  pub block_builder_address : ℕ
  pub block_builder_nonce : ℕ

module _ (t : Types) where
  open t use {
    Tx, Recipient, Salt, TxMerkleProof, TransferMerkleProof, FlatG2, SenderProofSet,
    AccountIdPacked,
  }

  pub record Transfer : Type 0 where
    pub token_index : ℕ
    pub recipient : Recipient
    pub amount : ℕ
    pub salt : Salt

  pub record TransferWitness : Type 0 where
    pub tx : Tx
    pub transfer : Transfer
    pub transfer_index : ℕ
    pub transfer_merkle_proof : TransferMerkleProof

  pub record UserSignature : Type 0 where
    pub pubkey : ℕ
    pub signature : FlatG2

  pub record BlockProposal : Type 0 where
    pub block_sign_payload : BlockSignPayload
    pub tx_index : ℕ
    pub tx_merkle_proof : TxMerkleProof
    pub pubkeys : List ℕ
    pub pubkeys_hash : ℕ

pub record Zkp : Type 1 where
  pub types : Types
  pub open types use *
  pub default_tx : Tx
  pub tx_eq : Eq Tx
  -- `NUM_SENDERS_IN_BLOCK`, `U256::dummy_pubkey`, `AccountId::dummy`.
  pub num_senders_in_block : ℕ
  pub dummy_pubkey : ℕ
  pub dummy_account_id : ℕ
  pub default_payload : BlockSignPayload
  pub get_pubkey_hash : List ℕ → ℕ
  pub pack : List ℕ → AccountIdPacked
  -- A `TxTree` of the given leaves: `get_root`, and `prove` at a position.
  pub tx_tree_root : List Tx → ℕ
  pub tx_tree_prove : List Tx → ℕ → TxMerkleProof
  -- `TxMerkleProof::verify` and `TransferMerkleProof::verify` succeed.
  pub verify_tx_proof : TxMerkleProof → Tx → ℕ → ℕ → Bool
  pub verify_transfer_proof : TransferMerkleProof → Transfer types → ℕ → ℕ → Bool
  pub transfer_tree_root : Tx → ℕ
  -- A `Bytes32` converts to a Poseidon hash.
  pub is_hash_out : ℕ → Bool
  -- `UserSignature::verify` succeeds for a payload and the hash of the block's public keys.
  pub verify_signature : UserSignature types → BlockSignPayload → ℕ → Bool
  -- `GenericAddress`: `to_pubkey` of a recipient that is a public key.
  pub to_pubkey : Recipient → Option ℕ

-- The proof of a leaf verifies against the root of its own tree.
abbrev pub TreeIsComplete : Zkp → Type 0
TreeIsComplete z =
    (txs : List z.Tx) (i : ℕ) (tx : z.Tx)
    → get_elem? txs i ≡ some tx
    → z.verify_tx_proof (z.tx_tree_prove txs i) tx i (z.tx_tree_root txs) ≡ true
