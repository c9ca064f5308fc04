-- ===== src/BlockBuilder/Storage/Examples.antt =====
-- block-builder/src/app/storage/memory_storage.rs on small states.
use intmax.Base.{
  ℕ, ◌≡◌, refl, String, true, false, List, [], ◌∷◌, none, some, Result, ok, err, arith, get_elem?,
  Bool-cases, string_eq, inl, inr, subst,
}
use intmax.Base.BTreeSet
use intmax.Base.Map
use intmax.Toy.{toy, toy-TreeIsComplete, request, config, empty_payload}
use intmax.Zkp.{BlockProposal, BlockSignPayload, UserSignature}
use intmax.BlockBuilder.NonceManager
use intmax.BlockBuilder.NonceManager.{
  NonceError, blockchain_error, Rollup, InMemoryNonceManager, reserve_nonce, sync_onchain,
  get_onchain_next_nonce, smallest_reserved_nonce, reserved_nonces,
}
use intmax.BlockBuilder.NonceManager.Validity.{IsValid}
use intmax.BlockBuilder.Types.{TxRequest, ProposalMemo}
use intmax.BlockBuilder.Types.Proposals.{Fits}
use intmax.BlockBuilder.BlockPost.{BlockPostTask}
use intmax.BlockBuilder.Storage.{
  Storage, nonce_error, new, put_tx_requests, process_requests, query_proposal, add_signature,
  dequeue_block_post_task, tx_requests, is_idle,
}
use intmax.BlockBuilder.Storage.Requests.{process_requests-proposes}
use intmax.BlockBuilder.Storage.Lost.{Later, process_requests-loses}
use intmax.BlockBuilder.Storage.Signatures.{Inv, AllVerify, add_signature-Inv}
use intmax.BlockBuilder.Storage.Tasks.{
  dequeue_block_post_task-in_order, dequeue_block_post_task-out_of_order,
}

abbrev silent : Rollup
silent k = ok 0

abbrev down : Rollup
down k = err blockchain_error

abbrev fresh_storage : Storage toy
fresh_storage = new config NonceManager.new

abbrev queue : List (TxRequest toy.types)
queue = request "a" 3 30 ∷ request "b" 4 40 ∷ request "c" 5 50 ∷ []

abbrev waiting : Storage toy
waiting = put_tx_requests toy true queue fresh_storage

abbrev reserved_one : InMemoryNonceManager
reserved_one = record {
  next_registration_nonce = 2;
  next_non_registration_nonce = 1;
  reserved_registration_nonces = 1 ∷ [];
  reserved_non_registration_nonces = [];
}

reserves : reserve_nonce silent true NonceManager.new ≡ ok (1, reserved_one)
unfolding reserve_nonce BTreeSet.insert sync_onchain get_onchain_next_nonce
reserves = refl

fails :
    ◌≡◌ {A = Result NonceError (ℕ × InMemoryNonceManager)}
      (reserve_nonce down true NonceManager.new)
      (err blockchain_error)
unfolding reserve_nonce sync_onchain get_onchain_next_nonce
fails = refl

due : is_idle toy true 100 waiting ≡ false
unfolding is_idle
due = refl

process_requests-proposes_example :
    (t : Storage toy) × (process_requests toy silent 100 100 100 "block" true waiting ≡ (ok tt, t))
    × (tx_requests toy true t ≡ request "c" 5 50 ∷ [])
    × (memo : ProposalMemo toy.types) × (memo.block_sign_payload.block_builder_nonce ≡ 1)
    × ((i : ℕ) (r : TxRequest toy.types)
        → get_elem? (request "a" 3 30 ∷ request "b" 4 40 ∷ []) i ≡ some r
        → (p : BlockProposal toy.types) × (query_proposal toy r.request_id t ≡ ok (some p))
          × Fits toy memo.block_sign_payload memo.pubkeys r p)
process_requests-proposes_example =
    process_requests-proposes toy toy-TreeIsComplete (omega arith) silent 100 100 100 "block" true
      waiting 1 reserved_one due reserves
      (
        ((λ e. refl), ((λ e. absurd (omega (arith, e))), tt)),
        (((λ e. absurd (omega (arith, e))), ((λ e. refl), tt)), tt),
      )
      ((refl, tt), (tt, tt))

-- The contract answers again on the second call.
abbrev second : Storage toy
second =
    (process_requests toy silent 200 200 200 "later" true
      (process_requests toy down 100 100 100 "block" true waiting).1).1

process_requests-loses_example :
    ((process_requests toy down 100 100 100 "block" true waiting).0
      ≡ err (nonce_error blockchain_error))
    × (query_proposal toy "a" second ≡ ok none)
unfolding Map.lookup
process_requests-loses_example =
    process_requests-loses toy down 100 100 100 "block" true waiting second blockchain_error 0
      (request "a" 3 30) due fails ((refl, (refl, tt)), ((refl, tt), (tt, tt))) refl refl refl
      (Later.processed _ _ silent 200 200 200 "later" true (Later.here _))

abbrev payload : BlockSignPayload
payload = record empty_payload { block_builder_nonce = 1; is_registration_block = true }

abbrev memo : ProposalMemo toy.types
memo = record {
  created_at = 0;
  block_id = "block";
  block_sign_payload = payload;
  pubkeys = 3 ∷ 1 ∷ [];
  pubkey_hash = 9;
  tx_requests = request "a" 3 30 ∷ [];
  proposals = [];
}

abbrev signature : ℕ → UserSignature toy.types
signature g = record { pubkey = 3; signature = g }

abbrev proposed : Storage toy
proposed = record fresh_storage {
  nonce_manager = reserved_one;
  request_id_to_block_id = ("a", "block") ∷ [];
  memos = ("block", memo) ∷ [];
  signatures = ("block", signature 1 ∷ []) ∷ [];
}

proposed-verified :
    (k : String) (m : ProposalMemo toy.types) (v : List (UserSignature toy.types))
    → Map.lookup k proposed.memos ≡ some m
    → Map.lookup k proposed.signatures ≡ some v
    → AllVerify toy m v
unfolding Map.lookup
proposed-verified k m v e f = elim (Bool-cases (string_eq.beq "block" k)) [
  | inr q ↦ absurd (ground (arith, q, e))
  | inl q ↦
      let em : memo ≡ m = ground (arith, q, e) in
      let ev : signature 1 ∷ [] ≡ v = ground (arith, q, f) in
      subst (AllVerify toy m) ev (subst (λ n. AllVerify toy n (signature 1 ∷ [])) em (refl, tt))
]

proposed-Inv : Inv toy proposed
unfolding Map.lookup
proposed-Inv = record { keyed = (refl, refl, tt); verified = proposed-verified; tasks = tt }

add_signature-Inv_example : Inv toy (add_signature toy "a" (signature 1) proposed).1
add_signature-Inv_example = add_signature-Inv toy "a" (signature 1) proposed proposed-Inv

abbrev task : ℕ → BlockPostTask toy.types
task nonce = record {
  force_post = false;
  block_sign_payload = record payload { block_builder_nonce = nonce };
  pubkeys = 3 ∷ 1 ∷ [];
  account_ids = none;
  pubkey_hash = 9;
  signatures = signature nonce ∷ [];
  block_id = "block";
}

abbrev queued : Storage toy
queued = record fresh_storage { nonce_manager = reserved_one; block_post_tasks_hi = task 1 ∷ [] }

reserved_one-IsValid : IsValid reserved_one
reserved_one-IsValid = record {
  ascending = elim [ true ↦ (tt, tt) | false ↦ tt ];
  below = elim [ true ↦ (omega arith, tt) | false ↦ tt ];
}

dequeue_block_post_task-in_order_example :
    (w : Storage toy) × (dequeue_block_post_task toy (λ s. s) queued ≡ (some (task 1), w))
    × (w.block_post_tasks_hi ≡ [])
    × (w.block_post_tasks_lo ≡ [])
    × IsValid w.nonce_manager
    × (BTreeSet.contains 1 (reserved_nonces true w.nonce_manager) ≡ false)
dequeue_block_post_task-in_order_example =
    dequeue_block_post_task-in_order toy (λ s. s) queued (task 1) [] reserved_one-IsValid refl refl
      (omega arith, tt)

abbrev reserved_two : InMemoryNonceManager
reserved_two = record reserved_one {
  next_registration_nonce = 3;
  reserved_registration_nonces = 1 ∷ 2 ∷ [];
}

reserved_two-IsValid : IsValid reserved_two
reserved_two-IsValid = record {
  ascending = elim [ true ↦ ((omega arith, tt), (tt, tt)) | false ↦ tt ];
  below = elim [ true ↦ (omega arith, (omega arith, tt)) | false ↦ tt ];
}

abbrev early : Storage toy
early = record fresh_storage { nonce_manager = reserved_two; block_post_tasks_hi = task 2 ∷ [] }

dequeue_block_post_task-out_of_order_example :
    (w : Storage toy) × (dequeue_block_post_task toy (λ s. s) early ≡ (some (task 2), w))
    × (w.block_post_tasks_hi ≡ [])
    × (w.block_post_tasks_lo ≡ [])
    × (BTreeSet.contains 1 (reserved_nonces true w.nonce_manager) ≡ true)
    × (BTreeSet.contains 2 (reserved_nonces true w.nonce_manager) ≡ false)
dequeue_block_post_task-out_of_order_example =
    dequeue_block_post_task-out_of_order toy (λ s. s) early (task 2) (task 2) [] [] 1 1
      reserved_two-IsValid refl refl (omega arith) reserved_two-IsValid refl refl (omega arith)
