-- ===== src/BlockBuilder/Posting/Examples.antt =====
-- A registration block with two signatures, one of a key with an account, and the theorems applied
-- to it.
use intmax.Base.{
  ℕ, ◌+◌, ◌-◌, ◌*◌, ◌≡◌, ◌≤◌, ◌⊎◌, refl, true, false, not, ◌&&◌, List, [], ◌∷◌, Option, none, some,
  Result, ok, get_elem?, arith, if◌then◌else◌, ◌==◌, add_u64,
}
use intmax.Toy.{toy, toy_types}
use intmax.BlockBuilder.BlockPost.{BlockPostTask}
use intmax.BlockBuilder.Posting.{
  PostEnv, PostError, AccountInfo, SenderWithSignature, Posted, registration, wait_synced,
  wait_penalty, post_block, make_call, contract_call, default_or_hash, account_step,
  place_signatures, with_account, unsigned, is_empty, validity_sync_max_retry, expiry_buffer,
}
use intmax.BlockBuilder.Posting.Waiting.{SyncedAt, post_block_ends, post_block_safe}
use intmax.BlockBuilder.Posting.Signatures.{entry, signed, make_call-signed, registered_unsigned}

abbrev account_of : ℕ → AccountInfo
account_of p = record {
  account_id = if p == 7 then some 3 else none;
  block_number = 0;
  last_block_number = 0;
}

abbrev accounts_of : List ℕ → List AccountInfo
accounts_of [] = []
accounts_of (p ∷ ps) = account_of p ∷ accounts_of ps

-- The validity prover is one block behind in the first round, and the fee falls by four a round.
abbrev later_prover : PostEnv toy
later_prover = record {
  Error = ℕ;
  Point = ℕ;
  Trimmed = List ℕ;
  get_latest_block_number = λ r. ok 5;
  get_block_number = λ r. ok (4 + r);
  get_penalty = λ r. ok (10 - 4 * r);
  current_time = 100;
  get_account_info_batch = λ ps. ok (accounts_of ps);
  account_ids_hash = λ ids. 0;
  to_trimmed_bytes = λ ids. ids;
  construct_signature =
      λ p h a ss. record { sender_flag = 0; agg_pubkey = 0; agg_signature = 0; message_point = 0 };
  post = λ c. ok tt;
}

abbrev two_users : BlockPostTask toy_types
two_users = record {
  force_post = false;
  block_sign_payload = record {
    is_registration_block = true;
    tx_tree_root = 0;
    expiry = 200;
    block_builder_address = 0;
    block_builder_nonce = 0;
  };
  pubkeys = 9 ∷ 7 ∷ 1 ∷ 1 ∷ [];
  account_ids = none;
  pubkey_hash = 0;
  signatures = record { pubkey = 7; signature = 70 } ∷ record { pubkey = 9; signature = 90 } ∷ [];
  block_id = "block";
}

abbrev two_users_call : Posted ℕ (List ℕ)
two_users_call =
    registration two_users.block_sign_payload
      (record { sender_flag = 0; agg_pubkey = 0; agg_signature = 0; message_point = 0 })
      (9 ∷ 7 ∷ [])

two_users_posted : post_block toy later_prover 4 3 two_users ≡ some (ok (some two_users_call))
unfolding post_block wait_synced wait_penalty make_call account_step place_signatures with_account
two_users_posted = refl

post_block_ends_example :
    (r : Result (PostError ℕ) (Option (Posted ℕ (List ℕ)))) × (post_block toy later_prover 3 3
        two_users
      ≡ some r)
    × (post_block toy later_prover 9 3 two_users ≡ some r)
post_block_ends_example =
    post_block_ends toy later_prover 3 9 3 2 2 two_users refl (omega arith) (omega arith)
      (omega arith)

post_block_safe_example :
    ((is_empty two_users.signatures && not false) ≡ false)
    × ((r : ℕ) × (r ≤ validity_sync_max_retry) × SyncedAt toy later_prover r)
    × ((r fee : ℕ) × (later_prover.get_penalty r ≡ ok fee) × (fee ≤ 3))
    × ((two_users.block_sign_payload.expiry ≡ 0) ⊎ (add_u64 100 expiry_buffer ≤ 200))
    × (make_call toy later_prover two_users ≡ ok two_users_call)
    × (later_prover.post two_users_call ≡ ok tt)
post_block_safe_example =
    post_block_safe toy later_prover 4 3 two_users two_users_call two_users_posted

two_users_accounts : account_step toy later_prover two_users ≡ ok (7 ∷ [], none)
unfolding account_step with_account
two_users_accounts = refl

make_call-signed_example :
    (senders : List (SenderWithSignature toy_types)) × (make_call toy later_prover two_users
      ≡ contract_call toy later_prover two_users none (
          later_prover.construct_signature two_users.block_sign_payload 0
            (default_or_hash toy later_prover none)
            senders))
    × ((i : ℕ)
        → get_elem? senders i
          ≡ entry toy later_prover two_users.pubkeys
              (signed toy later_prover two_users.pubkeys (7 ∷ []) two_users.signatures)
              i)
make_call-signed_example =
    make_call-signed toy later_prover two_users (7 ∷ []) none refl two_users_accounts
      (refl, (refl, tt))

registered_unsigned_example :
    (senders : List (SenderWithSignature toy_types)) × (make_call toy later_prover two_users
      ≡ ok (
          registration two_users.block_sign_payload
            (later_prover.construct_signature two_users.block_sign_payload 0 0 senders)
            (9 ∷ 7 ∷ [])))
    × (get_elem? senders 1 ≡ some (unsigned toy later_prover 7))
registered_unsigned_example =
    registered_unsigned toy later_prover two_users (accounts_of (9 ∷ 7 ∷ [])) 1 7 1 (account_of 7)
      refl refl refl refl refl refl refl (refl, (refl, tt))
