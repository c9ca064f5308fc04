-- ===== src/BlockBuilder/Types.antt =====
-- block-builder/src/app/types.rs. The leaves that are pushed into the transaction tree are a list.
pub mod Proposals
pub mod Accounts
mod Examples
use intmax.Base.{
  ℕ, String, ◌≡◌, Bool, true, false, ◌&&◌, List, [], ◌∷◌, map, Option, none, some, Result, ok, err,
  ◌>>=◌, ◌>>◌, guard, ok_or, Panic, assertion, unwrap_none, index_out_of_bounds, ◌==◌, leb,
  if◌then◌else◌, add_u64, u32_mod, ◌%◌, length, resize, position, find, get_elem?, Eq,
}
use intmax.Base.Sort.{sort_by}
use intmax.Zkp.{Types, Zkp, BlockSignPayload, BlockProposal}
use intmax.Interfaces.{FeeProof}

module _ (t : Types) where
  pub record TxRequest : Type 0 where
    pub request_id : String
    pub pubkey : ℕ
    pub account_id : Option ℕ
    pub tx : t.Tx
    pub fee_proof : Option (FeeProof t)

  pub record ProposalMemo : Type 0 where
    pub created_at : ℕ
    pub block_id : String
    pub block_sign_payload : BlockSignPayload
    pub pubkeys : List ℕ
    pub pubkey_hash : ℕ
    pub tx_requests : List TxRequest
    pub proposals : List (BlockProposal t)

module _ (z : Zkp) where
  open z use {types, Tx, num_senders_in_block, dummy_pubkey, dummy_account_id}

  -- `TxRequest::default`. `Uuid::default` is the nil UUID.
  abbrev pub default_request : TxRequest types
  default_request = record {
    request_id = "00000000-0000-0000-0000-000000000000";
    pubkey = dummy_pubkey;
    account_id = some dummy_account_id;
    tx = z.default_tx;
    fee_proof = none;
  }

  -- `b.pubkey.cmp(&a.pubkey)` does not put `b` first.
  abbrev pub by_pubkey_desc : TxRequest types → TxRequest types → Bool
  by_pubkey_desc a b = leb b.pubkey a.pubkey

  pub sort_and_pad : List (TxRequest types) → List (TxRequest types)
  sort_and_pad tx_requests =
      resize (sort_by by_pubkey_desc tx_requests) num_senders_in_block default_request

  -- The proposal for an index of the sorted and padded requests.
  pub proposal_at : BlockSignPayload → List (TxRequest types) → ℕ → BlockProposal types
  proposal_at payload sorted tx_index = record {
    block_sign_payload = payload;
    tx_index = tx_index;
    tx_merkle_proof = z.tx_tree_prove (map (λ s. s.tx) sorted) tx_index;
    pubkeys = map (λ s. s.pubkey) sorted;
    pubkeys_hash = z.get_pubkey_hash (map (λ s. s.pubkey) sorted);
  }

  -- The loop over the requests, in their own order.
  pub make_proposals :
      BlockSignPayload
      → List (TxRequest types)
      → List (TxRequest types)
      → Result Panic (List (BlockProposal types))
  unfolding proposal_at
  make_proposals payload sorted [] = ok []
  make_proposals payload sorted (r ∷ rs) = do
    index ← ok_or (position (λ s. s.pubkey == r.pubkey) sorted) unwrap_none
    proposals ← make_proposals payload sorted rs
    ok (proposal_at payload sorted (index % u32_mod) ∷ proposals)

  payload_for : Bool → ℕ → ℕ → ℕ → List (TxRequest types) → BlockSignPayload
  payload_for is_registration_block block_builder_address block_builder_nonce expiry sorted =
      record {
        is_registration_block = is_registration_block;
        tx_tree_root = z.tx_tree_root (map (λ s. s.tx) sorted);
        expiry = expiry;
        block_builder_address = block_builder_address;
        block_builder_nonce = block_builder_nonce;
      }

  memo_of :
      BlockSignPayload
      → (sorted tx_requests : List (TxRequest types)) → List (BlockProposal types)
      → ℕ
      → String
      → ProposalMemo types
  memo_of payload sorted tx_requests proposals created_at block_id = record {
    created_at = created_at;
    block_id = block_id;
    block_sign_payload = payload;
    pubkeys = map (λ s. s.pubkey) sorted;
    pubkey_hash = z.get_pubkey_hash (map (λ s. s.pubkey) sorted);
    tx_requests = tx_requests;
    proposals = proposals;
  }

  -- The two readings of the clock and the fresh block id are arguments.
  pub from_tx_requests :
      (is_registration_block : Bool) (block_builder_address block_builder_nonce : ℕ)
      (tx_requests : List (TxRequest types)) (tx_timeout now created_at : ℕ) (block_id : String)
      → Result Panic (ProposalMemo types)
  unfolding payload_for memo_of
  from_tx_requests is_registration_block block_builder_address block_builder_nonce tx_requests
        tx_timeout now created_at block_id =
      do
        guard (leb (length tx_requests) num_senders_in_block) assertion
        let expiry = add_u64 tx_timeout now
        let sorted = sort_and_pad tx_requests
        let payload =
            payload_for is_registration_block block_builder_address block_builder_nonce expiry
              sorted
        proposals ← make_proposals payload sorted tx_requests
        ok (memo_of payload sorted tx_requests proposals created_at block_id)

  -- `None`, or the proposal at the position of the first request that fits.
  pub get_proposal : ProposalMemo types → ℕ → Tx → Result Panic (Option (BlockProposal types))
  get_proposal memo pubkey tx =
      elim (position (λ r. (r.pubkey == pubkey) && z.tx_eq.beq r.tx tx) memo.tx_requests) [
        | none ↦ ok none
        | some pos ↦ do
          proposal ← ok_or (get_elem? memo.proposals pos) index_out_of_bounds
          ok (some proposal)
      ]

  pub get_account_id : ProposalMemo types → ℕ → Option ℕ
  get_account_id memo pubkey =
      if pubkey == dummy_pubkey
      then some dummy_account_id
      else elim (find (λ r. r.pubkey == pubkey) memo.tx_requests) [
        | none ↦ none
        | some r ↦ r.account_id
      ]

  -- `map(|pubkey| self.get_account_id(*pubkey).unwrap()).collect()`.
  pub account_ids_of : ProposalMemo types → List ℕ → Result Panic (List ℕ)
  account_ids_of memo [] = ok []
  account_ids_of memo (pubkey ∷ pubkeys) = do
    id ← ok_or (get_account_id memo pubkey) unwrap_none
    ids ← account_ids_of memo pubkeys
    ok (id ∷ ids)

  pub get_account_ids : ProposalMemo types → Result Panic (Option z.AccountIdPacked)
  get_account_ids memo =
      if memo.block_sign_payload.is_registration_block
      then ok none
      else do account_ids ← account_ids_of memo memo.pubkeys; ok (some (z.pack account_ids))
