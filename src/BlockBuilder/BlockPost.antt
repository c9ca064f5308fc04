-- ===== src/BlockBuilder/BlockPost.antt =====
-- block-builder/src/app/block_post.rs: the task of posting one block.
use intmax.Base.{
  ℕ, String, Bool, true, false, List, [], Option, some, Result, ok, ◌>>=◌, Panic, replicate,
}
use intmax.Zkp.{Types, Zkp, BlockSignPayload, UserSignature}
use intmax.BlockBuilder.Types.{ProposalMemo, get_account_ids}

pub record BlockPostTask (t : Types) : Type 0 where
  pub force_post : Bool
  pub block_sign_payload : BlockSignPayload
  pub pubkeys : List ℕ
  pub account_ids : Option t.AccountIdPacked
  pub pubkey_hash : ℕ
  pub signatures : List (UserSignature t)
  pub block_id : String

module _ (z : Zkp) where
  open z use {types, num_senders_in_block, dummy_pubkey, dummy_account_id}

  -- `BlockPostTask::default`, the empty block, with its fresh id.
  pub empty_block : String → BlockPostTask types
  empty_block block_id = record {
    force_post = true;
    block_sign_payload = z.default_payload;
    pubkeys = replicate num_senders_in_block dummy_pubkey;
    account_ids = some (z.pack (replicate num_senders_in_block dummy_account_id));
    pubkey_hash = 0;
    signatures = [];
    block_id = block_id;
  }

  unfoldable pub from_memo :
      ProposalMemo types → List (UserSignature types) → Result Panic (BlockPostTask types)
  from_memo memo signatures = do
    account_ids ← get_account_ids z memo
    ok (record {
      force_post = false;
      block_sign_payload = memo.block_sign_payload;
      pubkeys = memo.pubkeys;
      account_ids = account_ids;
      pubkey_hash = memo.pubkey_hash;
      signatures = signatures;
      block_id = memo.block_id;
    })
