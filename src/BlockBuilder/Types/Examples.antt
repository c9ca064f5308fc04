-- ===== src/BlockBuilder/Types/Examples.antt =====
-- block-builder/src/app/types.rs on a small block.
use intmax.Base.{
  ℕ, ◌≡◌, refl, true, false, List, [], ◌∷◌, length, some, none, Result, ok, ◌⊎◌, arith, Panic, Bool,
}
use intmax.Toy.{toy, toy-TreeIsComplete, request, digest_of}
use intmax.Zkp.{BlockProposal, BlockSignPayload}
use intmax.Base.Sort.{sort_by, IsSorted}
use intmax.Base.Search.{All₂}
use mathlib.Core.List.{Perm}
use intmax.BlockBuilder.Types.{
  TxRequest, ProposalMemo, from_tx_requests, make_proposals, sort_and_pad, get_account_id,
  get_account_ids,
}
use intmax.BlockBuilder.Types.Proposals.{Fits, from_tx_requests-Fits}
use intmax.BlockBuilder.Types.Accounts.{from_tx_requests-pubkeys, get_account_ids-total, desc}

abbrev batch : List (TxRequest toy.types)
batch = request "a" 3 30 ∷ request "b" 4 40 ∷ []

abbrev payload : BlockSignPayload
payload = record {
  is_registration_block = false;
  tx_tree_root = digest_of (40 ∷ 30 ∷ []);
  expiry = 160;
  block_builder_address = 7;
  block_builder_nonce = 1;
}

abbrev proposal : ℕ → BlockProposal toy.types
proposal i = record {
  block_sign_payload = payload;
  tx_index = i;
  tx_merkle_proof = 40 ∷ 30 ∷ [];
  pubkeys = 4 ∷ 3 ∷ [];
  pubkeys_hash = digest_of (4 ∷ 3 ∷ []);
}

abbrev memo : ProposalMemo toy.types
memo = record {
  created_at = 100;
  block_id = "block";
  block_sign_payload = payload;
  pubkeys = 4 ∷ 3 ∷ [];
  pubkey_hash = digest_of (4 ∷ 3 ∷ []);
  tx_requests = batch;
  proposals = proposal 1 ∷ proposal 0 ∷ [];
}

built :
    ◌≡◌ {A = Result Panic (ProposalMemo toy.types)}
      (from_tx_requests toy false 7 1 batch 60 100 100 "block")
      (ok memo)
unfolding from_tx_requests make_proposals sort_and_pad sort_by
built = refl

from_tx_requests-Fits_example :
    (m : ProposalMemo toy.types) × (from_tx_requests toy false 7 1 batch 60 100 100 "block" ≡ ok m)
    × (m.block_id ≡ "block")
    × (m.block_sign_payload.block_builder_nonce ≡ 1)
    × (m.tx_requests ≡ batch)
    × (length m.pubkeys ≡ 2)
    × All₂ (Fits toy m.block_sign_payload m.pubkeys) batch m.proposals
from_tx_requests-Fits_example =
    from_tx_requests-Fits toy toy-TreeIsComplete (omega arith) false 7 1 batch 60 100 100 "block"
      (omega arith)
      (
        ((λ e. refl), ((λ e. absurd (omega (arith, e))), tt)),
        (((λ e. absurd (omega (arith, e))), ((λ e. refl), tt)), tt),
      )

from_tx_requests-pubkeys_example :
    IsSorted (desc toy) (4 ∷ 3 ∷ []) × Perm {A = ℕ} (4 ∷ 3 ∷ []) (3 ∷ 4 ∷ [])
from_tx_requests-pubkeys_example =
    from_tx_requests-pubkeys toy false 7 1 batch 60 100 100 "block" memo
      (omega arith, (omega arith, tt)) built

get_account_ids-total_example :
    ((◌≡◌ {A = Bool} false true) × (get_account_ids toy memo ≡ ok none))
    ⊎ ((◌≡◌ {A = Bool} false false)
        × ((ids : List ℕ) × All₂ (λ k a. get_account_id toy memo k ≡ some a) (4 ∷ 3 ∷ []) ids
            × (get_account_ids toy memo ≡ ok (some ids))))
get_account_ids-total_example =
    get_account_ids-total toy false 7 1 batch 60 100 100 "block" memo
      (λ e. ((13, refl), ((14, refl), tt))) built
