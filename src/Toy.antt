-- ===== src/Toy.antt =====
-- A small instance of the crate intmax2-zkp, and sample data, for the examples. Transactions are
-- numbers, a tree opens at an index by showing all its leaves, and every signature verifies whose
-- value is the payload's nonce.
use intmax.Base.{
  ℕ, ◌+◌, ◌*◌, Bool, true, false, ◌&&◌, String, List, [], ◌∷◌, Option, none, some, ◌==◌, ==_iff,
  get_elem?, nat_eq, arith,
}
use intmax.Zkp.{Types, Zkp, BlockSignPayload, Transfer, TreeIsComplete}
use intmax.BlockBuilder.Types.{TxRequest}
use intmax.BlockBuilder.Storage.{StorageConfig}

abbrev pub toy_types : Types
toy_types = record {
  Tx = ℕ;
  Recipient = ℕ;
  Salt = ℕ;
  TxMerkleProof = List ℕ;
  TransferMerkleProof = ℕ;
  FlatG2 = ℕ;
  SenderProofSet = ℕ;
  AccountIdPacked = List ℕ;
}

abbrev pub digest_of : List ℕ → ℕ
digest_of [] = 1
digest_of (x ∷ xs) = x + 1000 * digest_of xs

abbrev pub opens_at : Option ℕ → ℕ → Bool
opens_at none tx = false
opens_at (some leaf) tx = leaf == tx

abbrev pub empty_payload : BlockSignPayload
empty_payload = record {
  is_registration_block = false;
  tx_tree_root = 0;
  expiry = 0;
  block_builder_address = 0;
  block_builder_nonce = 0;
}

abbrev pub toy : Zkp
toy = record {
  types = toy_types;
  default_tx = 0;
  tx_eq = nat_eq;
  num_senders_in_block = 2;
  dummy_pubkey = 1;
  dummy_account_id = 1;
  default_payload = empty_payload;
  get_pubkey_hash = digest_of;
  pack = λ ids. ids;
  tx_tree_root = digest_of;
  tx_tree_prove = λ txs i. txs;
  verify_tx_proof = λ p tx i root. opens_at (get_elem? p i) tx && (digest_of p == root);
  verify_transfer_proof = λ p x i root. p == root;
  transfer_tree_root = λ tx. tx;
  is_hash_out = λ h. true;
  verify_signature = λ g payload hash. g.signature == payload.block_builder_nonce;
  to_pubkey = λ r. some r;
}

pub toy-TreeIsComplete : TreeIsComplete toy
toy-TreeIsComplete txs i tx h =
    let a = ==_iff tx tx in let b = ==_iff (digest_of txs) (digest_of txs) in ground arith

abbrev pub request : String → ℕ → ℕ → TxRequest toy_types
request id pubkey tx = record {
  request_id = id;
  pubkey = pubkey;
  account_id = some (pubkey + 10);
  tx = tx;
  fee_proof = none;
}

abbrev pub pay : ℕ → ℕ → Transfer toy_types
pay token_index amount = record {
  token_index = token_index;
  recipient = 5;
  amount = amount;
  salt = 0;
}

abbrev pub config : StorageConfig
config = record {
  use_fee = true;
  use_collateral = true;
  block_builder_address = 7;
  fee_beneficiary = 5;
  tx_timeout = 60;
  accepting_tx_interval = 40;
  proposing_block_interval = 10;
  deposit_check_interval = none;
}
